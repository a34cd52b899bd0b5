-- ===== src/Keyring.antt =====
-- internal/keyring/keyring.go: from salts, keys and the mailbox password to unlocked keyrings.
pub mod Unlocking
use protonmail_mcp.Common.{
  String, Bool, Option, none, some, List, [], ◌∷◌, ◌==◌, ◌<>◌, lookup, if◌then◌else◌,
}
use protonmail_mcp.Proterr.Chain.{
  keyring_locked, keyring_unlock_scope, body_undecryptable, address_keyring_missing, GoError, text,
  sentinel, wrap, both, Result, ok, err,
}
use protonmail_mcp.Proterr.Mapping.{scope_denied}
use protonmail_mcp.Exec.{Exec, pure, raise, with_error, context, ◌>>=◌, ◌>>◌}

-- `proton.Key` and `proton.Address` as far as they are read, over a type of key material.
pub record Key (Material : Type 0) : Type 0 where
  pub id : String
  pub primary : Bool
  pub material : Material

pub record Address (Material : Type 0) : Type 0 where
  pub id : String
  pub keys : List (Key Material)

-- go-proton-api and gopenpgp as this package uses them. `Keys.Unlock` with the salted passphrase
-- takes the user keyring for address keys, and nil for the user's own.
pub record Pgp (W KeyRing : Type 0) : Type 1 where
  pub Material : Type 0
  pub Salts : Type 0
  pub Message : Type 0
  pub salt_for_key : Salts → String → String → Result String
  pub unlock_keys : List (Key Material) → String → Option KeyRing → Result KeyRing
  pub parse_armored : String → Result Message
  pub decrypt : KeyRing → Message → Result String
  pub clear_private_params : KeyRing → W → W

pub record KeyFetcher {W KeyRing : Type 0} (pgp : Pgp W KeyRing) : Type 0 where
  pub get_salts : Exec W pgp.Salts
  pub get_user_keys : Exec W (List (Key pgp.Material))
  pub get_addresses : Exec W (List (Address pgp.Material))

-- One keyring for the user and one per address ID.
pub record Keyrings (KeyRing : Type 0) : Type 0 where
  pub user : KeyRing
  pub addr : List (String × KeyRing)

abbrev pub lift {ℓ} : {W A : Type ℓ} → Result A → Exec W A
lift r w = (r, w)

-- `m[key] = v` on a Go map
abbrev pub without {ℓ} : {V : Type ℓ} → String → List (String × V) → List (String × V)
without k [] = []
without k ((j, v) ∷ rest) = let kept = without k rest in if j == k then kept else (j, v) ∷ kept

module _ {W KeyRing : Type 0} (pgp : Pgp W KeyRing) where
  open pgp use {
    Material, Message, unlock_keys, salt_for_key, parse_armored, decrypt, clear_private_params,
  }

  unfoldable pub primary_key : List (Key Material) → Option (Key Material)
  primary_key [] = none
  primary_key (k ∷ keys) = if k.primary then some k else primary_key keys

  abbrev pub add_unlocked :
      String → Result KeyRing → List (String × KeyRing) → List (String × KeyRing)
  add_unlocked id (ok kr) found = (id, kr) ∷ without id found
  add_unlocked id (err _) found = found

  -- The loop over the addresses; one whose keys do not unlock is skipped.
  unfoldable pub unlock_addresses :
      String → KeyRing → List (Address Material) → List (String × KeyRing) → List (String × KeyRing)
  unlock_addresses pass user [] found = found
  unlock_addresses pass user (a ∷ rest) found =
      unlock_addresses pass user rest
        (add_unlocked a.id (unlock_keys a.keys pass (some user)) found)

  -- the guard after the loop
  unfoldable pub check_addresses :
      List (Address Material) → KeyRing → List (String × KeyRing) → Result (Keyrings KeyRing)
  check_addresses (a ∷ rest) user [] = err (
      wrap "" (sentinel keyring_locked)
        ": no address keyring could be unlocked (wrong password or all addresses disabled)")
  check_addresses addrs user found = ok (record { user = user; addr = found })

  -- The scope denial of the salts is tagged.
  unfoldable pub salts_error : GoError → GoError
  salts_error e =
      if scope_denied e
      then both "get salts: " (sentinel keyring_unlock_scope) ": " e ""
      else wrap "get salts: " e ""

  abbrev pub found_primary : Option (Key Material) → Result (Key Material)
  found_primary none = err (text "user has no primary key")
  found_primary (some k) = ok k

  -- Wiping the two password buffers is not modelled: no later step reads them.
  unfoldable pub unlock : KeyFetcher pgp → String → Exec W (Keyrings KeyRing)
  unlock f mailbox_password = do
    salts ← with_error salts_error f.get_salts
    keys ← context "get user: " f.get_user_keys
    primary ← lift (found_primary (primary_key keys))
    salted ← context "salt for key: " (lift (salt_for_key salts mailbox_password primary.id))
    user ←
        with_error (λ e. both "unlock user keyring: " (sentinel keyring_locked) ": " e "")
          (lift (unlock_keys keys salted none))
    addrs ← context "get addresses: " f.get_addresses
    lift (check_addresses addrs user (unlock_addresses salted user addrs []))

  abbrev pub clear_all : List (String × KeyRing) → W → W
  clear_all [] w = w
  clear_all ((_, kr) ∷ rest) w = clear_all rest (clear_private_params kr w)

  unfoldable pub clear_keyrings : Keyrings KeyRing → W → W
  clear_keyrings k w = clear_all k.addr (clear_private_params k.user w)

  -- `quote` is `strconv.Quote` (`%q`).
  unfoldable pub address_key_ring :
      (quote : String → String) → Keyrings KeyRing → String → Result KeyRing
  address_key_ring quote k id = elim (lookup id k.addr) [
    | none ↦
        err (wrap "" (sentinel address_keyring_missing) (": no keyring for address " <> quote id))
    | some kr ↦ ok kr
  ]

  abbrev undecryptable : String → GoError → GoError
  undecryptable before e = both before (sentinel body_undecryptable) ": " e ""

  abbrev decrypt_parsed : KeyRing → Result Message → Result String
  decrypt_parsed kr (err e) = err (undecryptable "parse armored body: " e)
  decrypt_parsed kr (ok msg) = elim (decrypt kr msg) [
    | ok plain ↦ ok plain
    | err e ↦ err (undecryptable "decrypt body: " e)
  ]

  unfoldable pub decrypt_body : Keyrings KeyRing → String → String → Result String
  decrypt_body k id body = elim (lookup id k.addr) [
    | none ↦
        err (wrap "" (sentinel body_undecryptable) (": no unlocked keyring for address " <> id))
    | some kr ↦ decrypt_parsed kr (parse_armored body)
  ]
