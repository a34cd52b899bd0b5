-- ===== src/Keychain/Writes.antt =====
-- What each write of the keychain backend leaves at each key, and the keys that it spares.
use protonmail_mcp.Common.{String, none, some, ◌≡◌}
use protonmail_mcp.Keychain.{
  Creds, Session, Ring, key_username, key_password, key_totp_secret, key_mailbox_pass, key_uid,
  key_access_token, key_refresh_token, key_scope, save_creds, save_session, clear,
}
use protonmail_mcp.Keychain.Steps.{RingLaws, or_empty}
use protonmail_mcp.Keychain.Chains.{Leaves, Spares, leaving, sparing}

module _ {W : Type 0} (ring : Ring W) (goos : String) (laws : RingLaws ring) where
  -- What each write leaves at each key, and the keys that it spares.
  module _ (c : Creds) where
    pub save_creds-username :
        Leaves ring goos laws (save_creds ring goos c) key_username (λ o. o ≡ some c.username)
    unfolding save_creds
    save_creds-username = search leaving depth 9

    pub save_creds-password :
        Leaves ring goos laws (save_creds ring goos c) key_password (λ o. o ≡ some c.password)
    unfolding save_creds
    save_creds-password = search leaving depth 9

    pub save_creds-totp :
        Leaves ring goos laws
          (save_creds ring goos c)
          key_totp_secret
          (λ o. or_empty o ≡ c.totp_secret)
    unfolding save_creds
    save_creds-totp = search leaving depth 9

    pub save_creds-mailbox :
        Leaves ring goos laws
          (save_creds ring goos c)
          key_mailbox_pass
          (λ o. or_empty o ≡ c.mailbox_password)
    unfolding save_creds
    save_creds-mailbox = search leaving depth 9

    pub save_creds-uid : Spares ring goos laws (save_creds ring goos c) key_uid
    unfolding save_creds
    save_creds-uid = search sparing depth 9

    pub save_creds-access : Spares ring goos laws (save_creds ring goos c) key_access_token
    unfolding save_creds
    save_creds-access = search sparing depth 9

    pub save_creds-refresh : Spares ring goos laws (save_creds ring goos c) key_refresh_token
    unfolding save_creds
    save_creds-refresh = search sparing depth 9

    pub save_creds-scope : Spares ring goos laws (save_creds ring goos c) key_scope
    unfolding save_creds
    save_creds-scope = search sparing depth 9

  module _ (s : Session) where
    pub save_session-uid :
        Leaves ring goos laws (save_session ring goos s) key_uid (λ o. o ≡ some s.uid)
    unfolding save_session
    save_session-uid = search leaving depth 9

    pub save_session-access :
        Leaves ring goos laws
          (save_session ring goos s)
          key_access_token
          (λ o. o ≡ some s.access_token)
    unfolding save_session
    save_session-access = search leaving depth 9

    pub save_session-refresh :
        Leaves ring goos laws
          (save_session ring goos s)
          key_refresh_token
          (λ o. o ≡ some s.refresh_token)
    unfolding save_session
    save_session-refresh = search leaving depth 9

    pub save_session-scope :
        Leaves ring goos laws (save_session ring goos s) key_scope (λ o. or_empty o ≡ s.scope)
    unfolding save_session
    save_session-scope = search leaving depth 9

    pub save_session-username : Spares ring goos laws (save_session ring goos s) key_username
    unfolding save_session
    save_session-username = search sparing depth 9

    pub save_session-password : Spares ring goos laws (save_session ring goos s) key_password
    unfolding save_session
    save_session-password = search sparing depth 9

    pub save_session-totp : Spares ring goos laws (save_session ring goos s) key_totp_secret
    unfolding save_session
    save_session-totp = search sparing depth 9

    pub save_session-mailbox : Spares ring goos laws (save_session ring goos s) key_mailbox_pass
    unfolding save_session
    save_session-mailbox = search sparing depth 9

  pub clear-username : Leaves ring goos laws (clear ring goos) key_username (λ o. o ≡ none)
  unfolding clear
  clear-username = search leaving depth 12

  pub clear-password : Leaves ring goos laws (clear ring goos) key_password (λ o. o ≡ none)
  unfolding clear
  clear-password = search leaving depth 12

  pub clear-totp : Leaves ring goos laws (clear ring goos) key_totp_secret (λ o. o ≡ none)
  unfolding clear
  clear-totp = search leaving depth 12

  pub clear-mailbox : Leaves ring goos laws (clear ring goos) key_mailbox_pass (λ o. o ≡ none)
  unfolding clear
  clear-mailbox = search leaving depth 12

  pub clear-uid : Leaves ring goos laws (clear ring goos) key_uid (λ o. o ≡ none)
  unfolding clear
  clear-uid = search leaving depth 12

  pub clear-access : Leaves ring goos laws (clear ring goos) key_access_token (λ o. o ≡ none)
  unfolding clear
  clear-access = search leaving depth 12

  pub clear-refresh : Leaves ring goos laws (clear ring goos) key_refresh_token (λ o. o ≡ none)
  unfolding clear
  clear-refresh = search leaving depth 12

  pub clear-scope : Leaves ring goos laws (clear ring goos) key_scope (λ o. o ≡ none)
  unfolding clear
  clear-scope = search leaving depth 12
