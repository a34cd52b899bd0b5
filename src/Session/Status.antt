-- ===== src/Session/Status.antt =====
-- `Status`, and what a token's scope says of the keyring.
use protonmail_mcp.Common.{String, Bool, any, codes, ◌==◌, if◌then◌else◌}
use protonmail_mcp.Common.Strconv.{fields, same_codes}
use protonmail_mcp.Session.State.{Backend, State}

pub record Status : Type 0 where
  pub persist_degraded : Bool
  pub persist_error : String
  pub keyring_unlock : String

unfoldable pub keyring_unlock_state : String → String
keyring_unlock_state scope =
    if scope == ""
    then "unknown"
    else if any (same_codes (codes "full")) (fields (codes scope))
    then "ok"
    else "under_scoped"

unfoldable pub status : (b : Backend) → State b → Status
unfolding keyring_unlock_state
status b st = record {
  persist_degraded = st.persist_degraded;
  persist_error = st.persist_err_reason;
  keyring_unlock = keyring_unlock_state st.current.scope;
}
