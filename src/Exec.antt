-- ===== src/Exec.antt =====
-- Go functions that return an error and act on the world: actions that return a result and the
-- world as they leave it. What was done before an error stays done.
pub mod Rules
use protonmail_mcp.Common.{String, ◌≡◌, refl, ◌⊎◌, inl, inr}
use protonmail_mcp.Proterr.Chain.{GoError, wrap, Result, ok, err}

abbrev pub Exec {ℓ} : Type ℓ → Type ℓ → Type ℓ
Exec W A = W → Result A × W

module _ {ℓ} {W A : Type ℓ} where
  abbrev pub pure : A → Exec W A
  pure a w = (ok a, w)

  abbrev pub raise : GoError → Exec W A
  raise e w = (err e, w)

  abbrev pub attempt_of : Result A × W → Result (Result A) × W
  attempt_of (r, w) = (ok r, w)

  -- `x, err := f()` where the code goes on in either case
  abbrev pub attempt : Exec W A → Exec W (Result A)
  attempt m w = attempt_of (m w)

  abbrev pub adjust : (GoError → GoError) → Result A × W → Result A × W
  adjust f (ok a, w) = (ok a, w)
  adjust f (err e, w) = (err (f e), w)

  -- `if err != nil { return f(err) }`
  abbrev pub with_error : (GoError → GoError) → Exec W A → Exec W A
  with_error f m w = adjust f (m w)

  -- `fmt.Errorf("before%w", err)`
  abbrev pub context : String → Exec W A → Exec W A
  context before = with_error (λ e. wrap before e "")

module _ {ℓ} {W A B : Type ℓ} where
  abbrev pub continue : (A → Exec W B) → Result A × W → Result B × W
  continue f (ok a, w) = f a w
  continue f (err e, w) = (err e, w)

  infixl 10 ◌>>=◌ ◌>>◌
  abbrev pub ◌>>=◌ : Exec W A → (A → Exec W B) → Exec W B
  ◌>>=◌ m f w = continue f (m w)

  abbrev pub ◌>>◌ : Exec W A → Exec W B → Exec W B
  m >> n = m >>= λ _. n

module _ {ℓ} {A : Type ℓ} where
  pub Result-cases : (r : Result A) → ((a : A) × (r ≡ ok a)) ⊎ ((e : GoError) × (r ≡ err e))
  Result-cases (ok a) = inl (a, refl)
  Result-cases (err e) = inr (e, refl)

  pub ok-injective : {a b : A} → ok a ≡ ok b → a ≡ b
  ok-injective h = cc

module _ {ℓ} {W A B : Type ℓ} where
  -- A chain that succeeds has both parts succeed, and ends where its second part ends.
  pub >>=-eq-ok :
      (m : Exec W A) (f : A → Exec W B) (w : W) {b : B}
      → ((m >>= f) w).0 ≡ ok b
      → (a : A) × ((m w).0 ≡ ok a) × ((f a (m w).1).0 ≡ ok b) × (((m >>= f) w).1 ≡ (f a (m w).1).1)
  >>=-eq-ok m f w h = split (m w) h
    where
      split :
          (p : Result A × W) {b : B}
          → (continue f p).0 ≡ ok b
          → (a : A) × (p.0 ≡ ok a) × ((f a p.1).0 ≡ ok b) × ((continue f p).1 ≡ (f a p.1).1)
      split (ok a, w') k = (a, refl, k, refl)
      split (err e, w') k = cc
