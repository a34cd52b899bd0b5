-- ===== src/Keychain/Contents.antt =====
-- The keychain backend as a store: what its entries say is stored, and that each operation does to
-- those bundles what a session expects.
use protonmail_mcp.Common.{String, Option, none, some, ◌≡◌, refl}
use protonmail_mcp.Proterr.Chain.{ok}
use protonmail_mcp.Keychain.{
  Creds, Session, Ring, key_username, key_password, key_totp_secret, key_mailbox_pass, key_uid,
  key_access_token, key_refresh_token, key_scope, save_creds, load_creds, save_session,
  load_session, clear,
}
use protonmail_mcp.Keychain.Steps.{RingLaws, or_empty}
use protonmail_mcp.Keychain.Writes.{
  save_creds-username, save_creds-password, save_creds-totp, save_creds-mailbox, save_creds-uid,
  save_creds-access, save_creds-refresh, save_creds-scope, save_session-uid, save_session-access,
  save_session-refresh, save_session-scope, save_session-username, save_session-password,
  save_session-totp, save_session-mailbox, clear-username, clear-password, clear-totp,
  clear-mailbox, clear-uid, clear-access, clear-refresh, clear-scope,
}
use protonmail_mcp.Keychain.Missing.{load_creds_missing, load_session_missing}
use protonmail_mcp.Keychain.Chains.{
  Yields, Yields-bind, Yields-pure, first_get-Yields, get_key-Yields, get_optional-Yields,
}
use protonmail_mcp.Store.{Store, StoreLaws}

abbrev pub keychain_store : {W : Type 0} → Ring W → String → Store W
keychain_store ring goos = record {
  save_creds = save_creds ring goos;
  load_creds = load_creds ring goos;
  save_session = save_session ring goos;
  load_session = load_session ring goos;
  clear = clear ring goos;
}

-- The bundles that entries stand for; the required fields are the first two, or three.
abbrev bundle_creds : Option String → Option String → String → String → Option Creds
bundle_creds (some u) (some p) t m =
    some (record { username = u; password = p; totp_secret = t; mailbox_password = m })
bundle_creds _ _ t m = none

abbrev bundle_session : Option String → Option String → Option String → String → Option Session
bundle_session (some u) (some a) (some r) s =
    some (record { uid = u; access_token = a; refresh_token = r; scope = s })
bundle_session _ _ _ s = none

module _ {W : Type 0} (ring : Ring W) (goos : String) (laws : RingLaws ring) where
  open laws use {entries}

  abbrev pub creds_of : W → Option Creds
  creds_of w =
      bundle_creds (entries w key_username) (entries w key_password)
        (or_empty (entries w key_totp_secret)) (or_empty (entries w key_mailbox_pass))

  abbrev pub session_of : W → Option Session
  session_of w =
      bundle_session (entries w key_uid) (entries w key_access_token) (entries w key_refresh_token)
        (or_empty (entries w key_scope))

  load_creds-Yields :
      (w : W) → Yields ring goos laws w (load_creds ring goos) (λ c. creds_of w ≡ some c)
  unfolding load_creds
  load_creds-Yields w =
      Yields-bind ring goos laws w _ _ _ (first_get-Yields ring goos laws w _ _) λ u hu.
        Yields-bind ring goos laws w _ _ _ (get_key-Yields ring goos laws w _ _) λ p hp.
          Yields-bind ring goos laws w _ _ _ (get_optional-Yields ring goos laws w _ _) λ t ht.
            Yields-bind ring goos laws w _ _ _ (get_optional-Yields ring goos laws w _ _)
              λ m hm. Yields-pure ring goos laws w _ _ (rw (hu, hp, ht, hm))

  load_session-Yields :
      (w : W) → Yields ring goos laws w (load_session ring goos) (λ s. session_of w ≡ some s)
  unfolding load_session
  load_session-Yields w =
      Yields-bind ring goos laws w _ _ _ (first_get-Yields ring goos laws w _ _) λ u hu.
        Yields-bind ring goos laws w _ _ _ (get_key-Yields ring goos laws w _ _) λ a ha.
          Yields-bind ring goos laws w _ _ _ (get_key-Yields ring goos laws w _ _) λ r hr.
            Yields-bind ring goos laws w _ _ _ (get_optional-Yields ring goos laws w _ _)
              λ m hm. Yields-pure ring goos laws w _ _ (rw (hu, ha, hr, hm))

  keychain-StoreLaws : StoreLaws (keychain_store ring goos)
  keychain-StoreLaws = record {
    creds_of = creds_of;
    session_of = session_of;
    creds_saved = λ c w _ h. rw (
      (save_creds-username ring goos laws c).at w h,
      (save_creds-password ring goos laws c).at w h,
      (save_creds-totp ring goos laws c).at w h,
      (save_creds-mailbox ring goos laws c).at w h,
    );
    creds_saved_apart = λ c w h. rw (
      (save_creds-uid ring goos laws c).at w h,
      (save_creds-access ring goos laws c).at w h,
      (save_creds-refresh ring goos laws c).at w h,
      (save_creds-scope ring goos laws c).at w h,
    );
    session_saved = λ s w _ h. rw (
      (save_session-uid ring goos laws s).at w h,
      (save_session-access ring goos laws s).at w h,
      (save_session-refresh ring goos laws s).at w h,
      (save_session-scope ring goos laws s).at w h,
    );
    session_saved_apart = λ s w h. rw (
      (save_session-username ring goos laws s).at w h,
      (save_session-password ring goos laws s).at w h,
      (save_session-totp ring goos laws s).at w h,
      (save_session-mailbox ring goos laws s).at w h,
    );
    creds_loaded = λ c w h. ((load_creds-Yields w).at w (λ j. refl) c h).0;
    session_loaded = λ s w h. ((load_session-Yields w).at w (λ j. refl) s h).0;
    creds_missing = λ e w h m. rw (load_creds_missing ring goos laws e w h m);
    session_missing = λ e w h m. rw (load_session_missing ring goos laws e w h m);
    cleared = λ w h.
        (rw ((clear-username ring goos laws).at w h), rw ((clear-uid ring goos laws).at w h));
  }

  -- What a deletion that succeeds leaves of the keys that either bundle is stored under.
  pub record IsEmptied (w : W) : Type 0 where
    pub username : entries w "username" ≡ none
    pub password : entries w "password" ≡ none
    pub totp_secret : entries w "totp_secret" ≡ none
    pub mailbox_password : entries w "mailbox_password" ≡ none
    pub uid : entries w "session_uid" ≡ none
    pub access_token : entries w "access_token" ≡ none
    pub refresh_token : entries w "refresh_token" ≡ none
    pub scope : entries w "session_scope" ≡ none

  -- The keychain backend is a store: what it saved is what is stored and what it loads, the two
  -- bundles do not touch one another, a load reports `keychain.ErrNotFound` only of a bundle that
  -- is not stored, and a deletion that succeeds leaves neither. Such a deletion moreover leaves no
  -- entry under any of the eight keys, so no password, secret or token stays behind.
  pub keychain_laws :
      StoreLaws (keychain_store ring goos)
      × ((w : W) → (clear ring goos w).0 ≡ ok tt → IsEmptied (clear ring goos w).1)
  keychain_laws = (
    keychain-StoreLaws,
    λ w h. record {
      username = (clear-username ring goos laws).at w h;
      password = (clear-password ring goos laws).at w h;
      totp_secret = (clear-totp ring goos laws).at w h;
      mailbox_password = (clear-mailbox ring goos laws).at w h;
      uid = (clear-uid ring goos laws).at w h;
      access_token = (clear-access ring goos laws).at w h;
      refresh_token = (clear-refresh ring goos laws).at w h;
      scope = (clear-scope ring goos laws).at w h;
    },
  )
