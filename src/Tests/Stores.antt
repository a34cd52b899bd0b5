-- ===== src/Tests/Stores.antt =====
-- The theorems on stores, keyrings and errors, applied to concrete ones.
use protonmail_mcp.Common.{Option, String, true, [], ◌∷◌, ◌≡◌, refl}
use protonmail_mcp.Common.Strconv.{pos}
use protonmail_mcp.Proterr.Chain.{find_first, Error, GoError, wrap, ok, err, mapped}
use protonmail_mcp.Proterr.Mapping.{
  err_to_mcp, refresh_rejected, scope_denied, is_totp_rejected, extract_api_error,
}
use protonmail_mcp.Proterr.Codes.{IsStable, err_to_mcp-IsStable}
use protonmail_mcp.Proterr.Wrapping.{SameClass, err_to_mcp-wrap}
use protonmail_mcp.Store.{StoreLaws}
use protonmail_mcp.Keychain.Contents.{keychain_store, keychain_laws, IsEmptied}
use protonmail_mcp.Keychain.{clear}
use protonmail_mcp.Keyring.{Keyrings, unlock, primary_key, unlock_addresses, check_addresses}
use protonmail_mcp.Keyring.Unlocking.{IsUnlocked, unlock-IsUnlocked}
use protonmail_mcp.Session.Codes.{err_to_mcp_mapped, unlock-denied}
use protonmail_mcp.Tests.Model.{
  model_codes, model_pgp, model_fetcher, denied_fetcher, scope_denial, revoked, empty_disk,
  map_ring, map_laws,
}

keychain_laws_example :
    StoreLaws (keychain_store map_ring "linux")
    × ((w : String → Option String)
        → (clear map_ring "linux" w).0 ≡ ok tt
        → IsEmptied map_ring "linux" map_laws (clear map_ring "linux" w).1)
keychain_laws_example = keychain_laws map_ring "linux" map_laws

abbrev opened_rings : Keyrings String
opened_rings = record { user = "pw"; addr = ("a", "pw") ∷ [] }

unlocks : (unlock model_pgp model_fetcher "pw" empty_disk).0 ≡ ok opened_rings
unfolding unlock primary_key unlock_addresses check_addresses
unlocks = refl

unlock-IsUnlocked_example : IsUnlocked model_pgp model_fetcher "pw" opened_rings
unlock-IsUnlocked_example =
    unlock-IsUnlocked model_pgp model_fetcher "pw" empty_disk opened_rings unlocks

denial_seen : scope_denied scope_denial ≡ true
unfolding scope_denied extract_api_error find_first
denial_seen = refl

unlock-denied_example :
    (x : GoError) × ((unlock model_pgp denied_fetcher "pw" empty_disk).0 ≡ err x)
    × (scope_denied x ≡ true)
    × ((err_to_mcp model_codes (wrap "unlock keyrings: " x "")).code
        ≡ "proton/keyring_unlock_scope")
unlock-denied_example =
    unlock-denied model_pgp denied_fetcher model_codes "pw" empty_disk scope_denial refl denial_seen

err_to_mcp-IsStable_example : IsStable (err_to_mcp model_codes revoked)
err_to_mcp-IsStable_example = err_to_mcp-IsStable model_codes revoked

err_to_mcp-wrap_example :
    SameClass
      (err_to_mcp model_codes (wrap "refresh session: " revoked ""))
      (err_to_mcp model_codes revoked)
    × (refresh_rejected model_codes (wrap "refresh session: " revoked "")
        ≡ refresh_rejected model_codes revoked)
    × (scope_denied (wrap "refresh session: " revoked "") ≡ scope_denied revoked)
    × (is_totp_rejected model_codes (wrap "refresh session: " revoked "")
        ≡ is_totp_rejected model_codes revoked)
err_to_mcp-wrap_example = err_to_mcp-wrap model_codes "refresh session: " "" revoked

abbrev captcha : Error
captcha = record {
  code = "proton/captcha";
  message = "Human verification required.";
  hint = "";
  retry_after_seconds = pos 0;
}

err_to_mcp_mapped_example : (err_to_mcp model_codes (mapped captcha)).code ≡ "proton/upstream"
err_to_mcp_mapped_example = err_to_mcp_mapped model_codes captcha
