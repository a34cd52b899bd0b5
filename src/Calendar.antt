-- ===== src/Calendar.antt =====
-- internal/calendar/keyring.go: resolving the keyring of a calendar.
pub mod Decrypt
pub mod Recurrence
use protonmail_mcp.Common.{
  ℕ, String, Option, none, some, List, [], ◌∷◌, ◌<>◌, nat_eq, lookup, if◌then◌else◌,
}
use protonmail_mcp.Proterr.Chain.{keyring_locked, sentinel, wrap, both, Result, ok, err}
use protonmail_mcp.Exec.{Exec, with_error, context, ◌>>=◌}
use protonmail_mcp.Keyring.{Keyrings, lift, without}

pub record CalendarMember : Type 0 where
  pub id : String
  pub email : String

-- `proton.Address` as far as this package reads it.
pub record AddressEmail : Type 0 where
  pub id : String
  pub email : String

-- What this package uses of go-proton-api and gopenpgp; `to_lower` is `strings.ToLower`.
pub record Calendars (W KeyRing : Type 0) : Type 1 where
  pub Passphrase : Type 0
  pub CalendarKeys : Type 0
  pub to_lower : String → String
  pub decrypt_passphrase : Passphrase → (member_id : String) → KeyRing → Result String
  pub unlock_calendar : CalendarKeys → (passphrase : String) → Result KeyRing
  pub count_decryption_entities : KeyRing → ℕ

pub record KeyResolver {W KeyRing : Type 0} (cal : Calendars W KeyRing) : Type 0 where
  pub get_calendar_members : String → Exec W (List CalendarMember)
  pub get_calendar_passphrase : String → Exec W cal.Passphrase
  pub get_calendar_keys : String → Exec W cal.CalendarKeys
  pub get_addresses : Exec W (List AddressEmail)

module _ {W KeyRing : Type 0} (cal : Calendars W KeyRing) where
  open cal use {
    Passphrase, to_lower, decrypt_passphrase, unlock_calendar, count_decryption_entities,
  }

  -- the map from lower-case email to address ID
  unfoldable pub email_to_id : List (String × String) → List AddressEmail → List (String × String)
  email_to_id found [] = found
  email_to_id found (a ∷ rest) =
      email_to_id ((to_lower a.email, a.id) ∷ without (to_lower a.email) found) rest

  -- One member's passphrase: none if the loop goes on to the next.
  unfoldable pub try_member :
      Keyrings KeyRing → Passphrase → List (String × String) → CalendarMember → Option String
  try_member krs pass ids m = elim (lookup (to_lower m.email) ids) [
    | none ↦ none
    | some addr_id ↦ elim (lookup addr_id krs.addr) [
      | none ↦ none
      | some kr ↦ elim (decrypt_passphrase pass m.id kr) [ ok dec ↦ some dec | err _ ↦ none ]
    ]
  ]

  unfoldable pub find_passphrase :
      Keyrings KeyRing → Passphrase → List (String × String) → List CalendarMember → Option String
  find_passphrase krs pass ids [] = none
  find_passphrase krs pass ids (m ∷ rest) =
      let later = find_passphrase krs pass ids rest in
      elim (try_member krs pass ids m) [ some dec ↦ some dec | none ↦ later ]

  abbrev matched : String → Option String → Result String
  matched id (some pass) = ok pass
  matched id none = err (
      wrap ("no calendar member matched an unlocked address keyring for " <> id <> ": ")
        (sentinel keyring_locked) "")

  abbrev usable : String → KeyRing → Result KeyRing
  usable id kr =
      if nat_eq (count_decryption_entities kr) 0
      then err (
          wrap ("calendar keyring " <> id <> ": no key unlocked with the resolved passphrase: ")
            (sentinel keyring_locked) "")
      else ok kr

  unfoldable pub resolve_keyring :
      KeyResolver cal → Keyrings KeyRing → (calendar_id : String) → Exec W KeyRing
  resolve_keyring c krs id = do
    members ← context "get calendar members: " (c.get_calendar_members id)
    addrs ← context "get addresses: " c.get_addresses
    pass ← context "get calendar passphrase: " (c.get_calendar_passphrase id)
    passphrase ← lift (matched id (find_passphrase krs pass (email_to_id [] addrs) members))
    keys ← context "get calendar keys: " (c.get_calendar_keys id)
    kr ←
        with_error
          (λ e. both ("unlock calendar keyring " <> id <> ": ") (sentinel keyring_locked) ": " e "")
          (lift (unlock_calendar keys passphrase))
    lift (usable id kr)
