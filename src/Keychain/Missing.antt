-- ===== src/Keychain/Missing.antt =====
-- When a load reports that nothing is stored: only its first read can.
use protonmail_mcp.Common.{String, true, false, none, inl, inr, ◌≡◌, refl, arith, ◌<>◌}
use protonmail_mcp.Proterr.Chain.{GoError, keychain_not_found, errors_is, Result, ok, err}
use protonmail_mcp.Exec.{Exec, pure, continue, ◌>>=◌, Result-cases}
use protonmail_mcp.Keychain.{
  Ring, key_username, key_uid, diagnosed, get_key, get_optional, first_get, load_creds,
  load_session,
}
use protonmail_mcp.Keychain.Diagnosis.{diagnose_keychain_err_for}
use protonmail_mcp.Keychain.Steps.{RingLaws}

-- Diagnosing an error adds text only.
pub errors_is-diagnosed :
    (goos before : String) (e : GoError)
    → errors_is (diagnosed goos before e) keychain_not_found ≡ errors_is e keychain_not_found
unfolding errors_is diagnose_keychain_err_for
errors_is-diagnosed goos before e = ground arith

-- An action whose errors are never `keychain.ErrNotFound`.
record IsQuiet {W A : Type 0} (m : Exec W A) : Type 0 where
  at : (w : W) (e : GoError) → (m w).0 ≡ err e → errors_is e keychain_not_found ≡ false

module _ {W : Type 0} where
  IsQuiet-pure : {A : Type 0} (a : A) → IsQuiet {W = W} (pure a)
  IsQuiet-pure a = record { at = λ w e h. cc }

  IsQuiet-bind :
      {A B : Type 0} (m : Exec W A) (f : A → Exec W B)
      → IsQuiet m
      → ((a : A) → IsQuiet (f a))
      → IsQuiet (m >>= f)
  IsQuiet-bind {A} {B} m f qm qf = record { at = λ w e h. split (m w) refl e h }
    where
      split :
          {w : W} (p : Result A × W)
          → m w ≡ p
          → (e : GoError) → (continue f p).0 ≡ err e
          → errors_is e keychain_not_found ≡ false
      split (ok a, w') _ e h = (qf a).at w' e h
      split {w} (err x, w') same e h = qm.at w e (ground (arith, same))

module _ {W : Type 0} (ring : Ring W) (goos : String) (laws : RingLaws ring) where
  open laws use {entries}

  get_key-IsQuiet : (before k : String) → IsQuiet (get_key ring goos before k)
  get_key-IsQuiet before k = record {
    at = λ w e h. elim (Result-cases (ring.get k w).0) [
      | inl (v, found) ↦ ground arith
      | inr (x, failed) ↦
          ground (arith, laws.got_foreign k x w failed, errors_is-diagnosed goos before x)
    ];
  }

  get_optional-IsQuiet : (before k : String) → IsQuiet (get_optional ring goos before k)
  get_optional-IsQuiet before k = record {
    at = λ w e h. elim (Result-cases (ring.get k w).0) [
      | inl (v, found) ↦ ground arith
      | inr (x, failed) ↦
          ground (arith, laws.got_foreign k x w failed, errors_is-diagnosed goos before x)
    ];
  }

  ruleset quiet = (IsQuiet-bind, IsQuiet-pure, get_key-IsQuiet, get_optional-IsQuiet)

  -- Of a first read and quiet steps, only the first read can report that nothing is stored.
  missing-first :
      {A : Type 0} (op k : String) (f : String → Exec W A)
      → ((v : String) → IsQuiet (f v))
      → (e : GoError) (w : W) → ((first_get ring goos op k >>= f) w).0 ≡ err e
      → errors_is e keychain_not_found ≡ true
      → entries w k ≡ none
  unfolding first_get
  missing-first op k f quiet_rest e w h missing = elim (Result-cases (ring.get k w).0) [
    | inl (v, found) ↦ ground (arith, (quiet_rest v).at (ring.get k w).1 e)
    | inr (x, failed) ↦ ground (
      arith,
      laws.got_nothing k x w failed,
      laws.got_foreign k x w failed,
      errors_is-diagnosed goos (op <> ": ") x,
    )
  ]

  pub load_creds_missing :
      (e : GoError) (w : W)
      → (load_creds ring goos w).0 ≡ err e
      → errors_is e keychain_not_found ≡ true
      → entries w key_username ≡ none
  unfolding load_creds
  load_creds_missing e w h missing =
      missing-first _ key_username _ (λ v. search quiet depth 9) e w h missing

  pub load_session_missing :
      (e : GoError) (w : W)
      → (load_session ring goos w).0 ≡ err e
      → errors_is e keychain_not_found ≡ true
      → entries w key_uid ≡ none
  unfolding load_session
  load_session_missing e w h missing =
      missing-first _ key_uid _ (λ v. search quiet depth 9) e w h missing
