-- ===== src/Session/Codes.antt =====
-- The errors that a session reports, as an MCP client sees them.
use protonmail_mcp.Common.{String, true, ◌≡◌, refl, ap, ◌∙◌, arith}
use protonmail_mcp.Proterr.Chain.{
  Error, GoError, mapped, wrap, both, sentinel, keyring_unlock_scope, errors_is, Result, ok, err,
}
use protonmail_mcp.Proterr.Mapping.{
  ApiCodes, err_to_mcp, from_api, from_transport, from_sentinels, upstream, extract_api_error,
  scope_denied,
}
use protonmail_mcp.Exec.{Exec, adjust, continue}
use protonmail_mcp.Keyring.{Pgp, KeyFetcher, salts_error, unlock}

-- An error that is mapped already, and is mapped again, becomes the generic one: its code is lost,
-- whatever it was.
pub err_to_mcp_mapped :
    (codes_of : ApiCodes) (x : Error) → (err_to_mcp codes_of (mapped x)).code ≡ "proton/upstream"
unfolding err_to_mcp errors_is from_api extract_api_error from_transport from_sentinels upstream
err_to_mcp_mapped codes_of x = refl

module _ {W KeyRing : Type 0} (pgp : Pgp W KeyRing) where
  adjust-err :
      {A B : Type 0} (f : GoError → GoError) (g : A → Exec W B) (p : Result A × W) (e : GoError)
      → p.0 ≡ err e
      → (continue g (adjust f p)).0 ≡ err (f e)
  adjust-err f g (ok a, w) e h = cc
  adjust-err f g (err x, w) e h = ap (λ r. (continue g (adjust f (r, w))).0) h

  salts_error-tagged :
      (e : GoError)
      → scope_denied e ≡ true
      → salts_error pgp e ≡ both "get salts: " (sentinel keyring_unlock_scope) ": " e ""
  unfolding salts_error
  salts_error-tagged e h = rw h refl

  both-denied :
      (e : GoError)
      → scope_denied (both "get salts: " (sentinel keyring_unlock_scope) ": " e "") ≡ scope_denied e
  unfolding scope_denied extract_api_error
  both-denied e = refl

  salts_error-denied :
      (e : GoError) → scope_denied e ≡ true → scope_denied (salts_error pgp e) ≡ true
  salts_error-denied e h = ap scope_denied (salts_error-tagged e h) ∙ both-denied e ∙ h

  salts_error-code :
      (codes_of : ApiCodes) (e : GoError)
      → scope_denied e ≡ true
      → (err_to_mcp codes_of (wrap "unlock keyrings: " (salts_error pgp e) "")).code
        ≡ "proton/keyring_unlock_scope"
  unfolding err_to_mcp errors_is salts_error
  salts_error-code codes_of e h = ground (arith, h)

-- When the server denies the salts for want of scope, unlocking fails with an error that still
-- counts as that denial, and that the session's context turns into the code of its own.
pub unlock-denied :
    {W KeyRing : Type 0} (pgp : Pgp W KeyRing) (f : KeyFetcher pgp) (codes_of : ApiCodes)
    (password : String) (w : W) (e : GoError)
    → (f.get_salts w).0 ≡ err e
    → scope_denied e ≡ true
    → (x : GoError) × ((unlock pgp f password w).0 ≡ err x)
      × (scope_denied x ≡ true)
      × ((err_to_mcp codes_of (wrap "unlock keyrings: " x "")).code ≡ "proton/keyring_unlock_scope")
unfolding unlock
unlock-denied pgp f codes_of password w e h d = (
  salts_error pgp e,
  adjust-err pgp (salts_error pgp) _ (f.get_salts w) e h,
  salts_error-denied pgp e d,
  salts_error-code pgp codes_of e d,
)
