-- ===== src/Keychain/Chains.antt =====
-- Chains of keychain steps: what a chain that succeeds leaves at one key, by rules for its parts.
use protonmail_mcp.Common.{
  String, false, Option, none, some, ◌≡◌, ◌∙◌, refl, ap, subst, sym, ◌==◌, arith,
}
use protonmail_mcp.Proterr.Chain.{ok}
use protonmail_mcp.Exec.{Exec, pure, ◌>>◌, ◌>>=◌, >>=-eq-ok, ok-injective}
use protonmail_mcp.Keychain.{
  Ring, put_key, get_key, get_optional, delete_key, first_get, save_optional,
}
use protonmail_mcp.Keychain.Steps.{
  RingLaws, or_empty, put_key-done, put_key_apart, delete_key-done, save_optional-done,
  save_optional_apart, first_get-done, get_key-done, get_optional-done,
}

module _ {W : Type 0} (ring : Ring W) (goos : String) (laws : RingLaws ring) where
  open laws use {entries}

  -- After `m` succeeds, the entry at `k` is as `P` says.
  pub record Leaves (m : Exec W (Unit {0})) (k : String) (P : Option String → Type 0) : Type 0 where
    pub at : (w : W) → (m w).0 ≡ ok tt → P (entries (m w).1 k)

  -- When `m` succeeds, the entry at `k` is what it was.
  pub record Spares (m : Exec W (Unit {0})) (k : String) : Type 0 where
    pub at : (w : W) → (m w).0 ≡ ok tt → entries (m w).1 k ≡ entries w k

  pub Leaves-first :
      {m n : Exec W (Unit {0})} {k : String} {P : Option String → Type 0}
      → Leaves m k P
      → Spares n k
      → Leaves (m >> n) k P
  Leaves-first {m} {n} {k} {P} l s = record {
    at = λ w h.
        let (_, first, second, end) = >>=-eq-ok m (λ _. n) w h in
        let same = ap (λ v. entries v k) end ∙ s.at (m w).1 second in
        subst P (sym same) (l.at w first);
  }

  pub Leaves-last :
      (m : Exec W (Unit {0})) {n : Exec W (Unit {0})} {k : String} {P : Option String → Type 0}
      → Leaves n k P
      → Leaves (m >> n) k P
  Leaves-last m {n} {k} {P} l = record {
    at = λ w h.
        let (_, first, second, end) = >>=-eq-ok m (λ _. n) w h in
        subst P (sym (ap (λ v. entries v k) end)) (l.at (m w).1 second);
  }

  pub Spares-both :
      {m n : Exec W (Unit {0})} {k : String} → Spares m k → Spares n k → Spares (m >> n) k
  Spares-both {m} {n} {k} s t = record {
    at = λ w h.
        let (_, first, second, end) = >>=-eq-ok m (λ _. n) w h in
        ap (λ v. entries v k) end ∙ t.at (m w).1 second ∙ s.at w first;
  }

  pub put_key-Leaves :
      (before k v : String) → Leaves (put_key ring goos before k v) k (λ o. o ≡ some v)
  put_key-Leaves before k v = record { at = put_key-done ring goos laws before k v }

  pub put_key-Spares :
      (before k v j : String) → (k == j) ≡ false → Spares (put_key ring goos before k v) j
  put_key-Spares before k v j h = record {
    at = λ w _. put_key_apart ring goos laws before k v j w h;
  }

  pub delete_key-Leaves :
      (before k : String) → Leaves (delete_key ring goos before k) k (λ o. o ≡ none)
  delete_key-Leaves before k = record { at = delete_key-done ring goos laws before k }

  pub delete_key-Spares :
      (before k j : String) → (k == j) ≡ false → Spares (delete_key ring goos before k) j
  delete_key-Spares before k j h = record { at = λ w _. laws.delete_apart k j w h }

  pub save_optional-Leaves :
      (k v : String) → Leaves (save_optional ring goos k v) k (λ o. or_empty o ≡ v)
  save_optional-Leaves k v = record { at = save_optional-done ring goos laws k v }

  pub save_optional-Spares :
      (k v j : String) → (k == j) ≡ false → Spares (save_optional ring goos k v) j
  save_optional-Spares k v j h = record { at = λ w _. save_optional_apart ring goos laws k v j w h }

  pub pure-Spares : (k : String) → Spares (pure tt) k
  pure-Spares k = record { at = λ w _. refl }

  pub ruleset sparing =
      (Spares-both, put_key-Spares, delete_key-Spares, save_optional-Spares, pure-Spares, refl)

  pub ruleset leaving =
      (Leaves-first, Leaves-last, put_key-Leaves, delete_key-Leaves, save_optional-Leaves, sparing)

  -- From entries like those of `start`, a result of `m` is as `Q` says, and the entries stay.
  module _ (start : W) where
    abbrev pub Same : W → Type 0
    Same w = (j : String) → entries w j ≡ entries start j

    pub record Yields {A : Type 0} (m : Exec W A) (Q : A → Type 0) : Type 0 where
      pub at : (w : W) → Same w → (a : A) → (m w).0 ≡ ok a → Q a × Same (m w).1

    pub Yields-pure : {A : Type 0} (a : A) (Q : A → Type 0) → Q a → Yields (pure a) Q
    Yields-pure a Q q = record { at = λ w same b h. (subst Q (ok-injective h) q, same) }

    pub Yields-bind :
        {A B : Type 0} (m : Exec W A) (f : A → Exec W B) {P : A → Type 0} (Q : B → Type 0)
        → Yields m P
        → ((a : A) → P a → Yields (f a) Q)
        → Yields (m >>= f) Q
    Yields-bind m f Q ym yf = record {
      at = λ w same b h.
          let (a, first, second, end) = >>=-eq-ok m f w h in
          let (p, same') = ym.at w same a first in
          let (q, same'') = (yf a p).at (m w).1 same' b second in
          (q, λ j. ap (λ v. entries v j) end ∙ same'' j);
    }

    pub first_get-Yields :
        (op k : String) → Yields (first_get ring goos op k) (λ v. entries start k ≡ some v)
    unfolding first_get
    first_get-Yields op k = record {
      at = λ w same v h. (
        sym (same k) ∙ first_get-done ring goos laws op k v w h,
        λ j. ground (arith, laws.get_keeps k j w, same j),
      );
    }

    pub get_key-Yields :
        (before k : String) → Yields (get_key ring goos before k) (λ v. entries start k ≡ some v)
    get_key-Yields before k = record {
      at = λ w same v h. (
        sym (same k) ∙ get_key-done ring goos laws before k v w h,
        λ j. ground (arith, laws.get_keeps k j w, same j),
      );
    }

    pub get_optional-Yields :
        (before k : String)
        → Yields (get_optional ring goos before k) (λ v. or_empty (entries start k) ≡ v)
    get_optional-Yields before k = record {
      at = λ w same v h. (
        ap or_empty (sym (same k)) ∙ get_optional-done ring goos laws before k v w h,
        λ j. laws.get_keeps k j w ∙ same j,
      );
    }
