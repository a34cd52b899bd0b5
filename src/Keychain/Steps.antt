-- ===== src/Keychain/Steps.antt =====
-- What the OS keyring promises, and what each step of the keychain backend does to its entries.
use protonmail_mcp.Common.{
  String, true, false, Option, none, some, inl, inr, ◌≡◌, ◌<>◌, ◌==◌, eq_iff, arith, Bool-cases,
}
use protonmail_mcp.Proterr.Chain.{GoError, keychain_not_found, errors_is, is_absent, ok, err}
use protonmail_mcp.Exec.{Result-cases}
use protonmail_mcp.Keychain.{
  Ring, put_key, get_key, get_optional, delete_key, first_get, save_optional,
}

-- go-keyring as documented: a write or a deletion that succeeds does what it says, `ErrNotFound`
-- means that there is no entry, no operation touches another key, and no error is this program's
-- own `keychain.ErrNotFound`. Any operation may fail.
pub record RingLaws {W : Type 0} (ring : Ring W) : Type 0 where
  pub entries : W → String → Option String
  pub written :
      (k v : String) (w : W)
      → (ring.write k v w).0 ≡ ok tt
      → entries (ring.write k v w).1 k ≡ some v
  pub write_apart :
      (k v j : String) (w : W) → (k == j) ≡ false → entries (ring.write k v w).1 j ≡ entries w j
  pub got : (k v : String) (w : W) → (ring.get k w).0 ≡ ok v → entries w k ≡ some v
  pub got_nothing :
      (k : String) (e : GoError) (w : W)
      → (ring.get k w).0 ≡ err e
      → is_absent e ≡ true
      → entries w k ≡ none
  pub got_foreign :
      (k : String) (e : GoError) (w : W)
      → (ring.get k w).0 ≡ err e
      → errors_is e keychain_not_found ≡ false
  pub get_keeps : (k j : String) (w : W) → entries (ring.get k w).1 j ≡ entries w j
  pub deleted :
      (k : String) (w : W) → (ring.delete k w).0 ≡ ok tt → entries (ring.delete k w).1 k ≡ none
  pub deleted_nothing :
      (k : String) (e : GoError) (w : W)
      → (ring.delete k w).0 ≡ err e
      → is_absent e ≡ true
      → entries (ring.delete k w).1 k ≡ none
  pub delete_apart :
      (k j : String) (w : W) → (k == j) ≡ false → entries (ring.delete k w).1 j ≡ entries w j

-- An absent optional entry reads as "".
abbrev pub or_empty : Option String → String
or_empty none = ""
or_empty (some v) = v

module _ {W : Type 0} (ring : Ring W) (goos : String) (laws : RingLaws ring) where
  open laws use {entries}

  pub put_key-done :
      (before k v : String) (w : W)
      → (put_key ring goos before k v w).0 ≡ ok tt
      → entries (put_key ring goos before k v w).1 k ≡ some v
  put_key-done before k v w h = ground (arith, laws.written k v w)

  pub put_key_apart :
      (before k v j : String) (w : W)
      → (k == j) ≡ false
      → entries (put_key ring goos before k v w).1 j ≡ entries w j
  put_key_apart before k v j w h = ground (arith, laws.write_apart k v j w)

  pub delete_key-done :
      (before k : String) (w : W)
      → (delete_key ring goos before k w).0 ≡ ok tt
      → entries (delete_key ring goos before k w).1 k ≡ none
  delete_key-done before k w h = elim (Result-cases (ring.delete k w).0) [
    | inl (_, gone) ↦ laws.deleted k w gone
    | inr (e, failed) ↦ laws.deleted_nothing k e w failed (ground arith)
  ]

  pub save_optional-done :
      (k v : String) (w : W)
      → (save_optional ring goos k v w).0 ≡ ok tt
      → or_empty (entries (save_optional ring goos k v w).1 k) ≡ v
  unfolding save_optional
  save_optional-done k v w h = elim (Bool-cases (v == "")) [
    | inl blank ↦
        ground (arith, delete_key-done ("clear stale " <> k <> ": ") k w, (eq_iff v "").0 blank)
    | inr given ↦ ground (arith, put_key-done ("save " <> k <> ": ") k v w)
  ]

  pub save_optional_apart :
      (k v j : String) (w : W)
      → (k == j) ≡ false
      → entries (save_optional ring goos k v w).1 j ≡ entries w j
  unfolding save_optional
  save_optional_apart k v j w h = ground (arith, laws.write_apart k v j w, laws.delete_apart k j w)

  pub first_get-done :
      (op k v : String) (w : W) → (first_get ring goos op k w).0 ≡ ok v → entries w k ≡ some v
  unfolding first_get
  first_get-done op k v w h = ground (arith, laws.got k v w)

  pub get_key-done :
      (before k v : String) (w : W) → (get_key ring goos before k w).0 ≡ ok v → entries w k ≡ some v
  get_key-done before k v w h = ground (arith, laws.got k v w)

  pub get_optional-done :
      (before k v : String) (w : W)
      → (get_optional ring goos before k w).0 ≡ ok v
      → or_empty (entries w k) ≡ v
  get_optional-done before k v w h = elim (Result-cases (ring.get k w).0) [
    | inl (u, found) ↦ ground (arith, laws.got k u w found)
    | inr (e, failed) ↦ ground (arith, laws.got_nothing k e w failed)
  ]
