-- ===== src/Session/Wiping.antt =====
-- Wiping cached keyrings leaves the stored bundles alone.
use protonmail_mcp.Common.{String, Option, none, some, List, [], ◌∷◌, ◌≡◌, refl, ◌∙◌}
use protonmail_mcp.Store.{StoreLaws}
use protonmail_mcp.Keyring.{Keyrings, clear_all, clear_keyrings}
use protonmail_mcp.Session.State.{Backend}
use protonmail_mcp.Session.Login.{clear_cal, clear_user}

module _ (b : Backend) (laws : StoreLaws b.store) where
  -- Clearing a keyring's key material leaves the stored bundles alone.
  pub record WipeLaws : Type 0 where
    pub creds_kept :
        (k : b.KeyRing) (w : b.World)
        → laws.creds_of (b.pgp.clear_private_params k w) ≡ laws.creds_of w
    pub session_kept :
        (k : b.KeyRing) (w : b.World)
        → laws.session_of (b.pgp.clear_private_params k w) ≡ laws.session_of w

  module _ (wipes : WipeLaws) where
    pub session-clear_cal :
        (krs : List (String × b.KeyRing)) (w : b.World)
        → laws.session_of (clear_cal b krs w) ≡ laws.session_of w
    session-clear_cal [] w = refl
    session-clear_cal ((id, kr) ∷ rest) w =
        session-clear_cal rest (b.pgp.clear_private_params kr w) ∙ wipes.session_kept kr w

    session-clear_all :
        (krs : List (String × b.KeyRing)) (w : b.World)
        → laws.session_of (clear_all b.pgp krs w) ≡ laws.session_of w
    session-clear_all [] w = refl
    session-clear_all ((id, kr) ∷ rest) w =
        session-clear_all rest (b.pgp.clear_private_params kr w) ∙ wipes.session_kept kr w

    pub session-clear_user :
        (o : Option (Keyrings b.KeyRing)) (w : b.World)
        → laws.session_of (clear_user b o w) ≡ laws.session_of w
    unfolding clear_keyrings
    session-clear_user none w = refl
    session-clear_user (some k) w =
        session-clear_all k.addr (b.pgp.clear_private_params k.user w) ∙ wipes.session_kept k.user w

    pub creds-clear_cal :
        (krs : List (String × b.KeyRing)) (w : b.World)
        → laws.creds_of (clear_cal b krs w) ≡ laws.creds_of w
    creds-clear_cal [] w = refl
    creds-clear_cal ((id, kr) ∷ rest) w =
        creds-clear_cal rest (b.pgp.clear_private_params kr w) ∙ wipes.creds_kept kr w

    creds-clear_all :
        (krs : List (String × b.KeyRing)) (w : b.World)
        → laws.creds_of (clear_all b.pgp krs w) ≡ laws.creds_of w
    creds-clear_all [] w = refl
    creds-clear_all ((id, kr) ∷ rest) w =
        creds-clear_all rest (b.pgp.clear_private_params kr w) ∙ wipes.creds_kept kr w

    pub creds-clear_user :
        (o : Option (Keyrings b.KeyRing)) (w : b.World)
        → laws.creds_of (clear_user b o w) ≡ laws.creds_of w
    unfolding clear_keyrings
    creds-clear_user none w = refl
    creds-clear_user (some k) w =
        creds-clear_all k.addr (b.pgp.clear_private_params k.user w) ∙ wipes.creds_kept k.user w
