-- ===== src/Exec/Rules.antt =====
-- Invariants of actions, one rule for each way to build an action. `Preserves P m`: whatever `m`
-- returns, it keeps `P`. `FailsSafe P m`: when `m` returns an error, `P` is kept.
use protonmail_mcp.Common.{◌≡◌, ◌≢◌, refl, Bool, true, false, if◌then◌else◌}
use protonmail_mcp.Proterr.Chain.{GoError, Result, ok, err}
use protonmail_mcp.Exec.{Exec, pure, raise, attempt, with_error, adjust, continue, ◌>>=◌}

module _ {S : Type 0} (P : S → Type 0) where
  pub record Preserves {A : Type 0} (m : Exec S A) : Type 0 where
    pub at : (s : S) → P s → P (m s).1

  pub record FailsSafe {A : Type 0} (m : Exec S A) : Type 0 where
    pub at : (s : S) → P s → (e : GoError) → (m s).0 ≡ err e → P (m s).1

pub adjust-state :
    {S A : Type 0} (P : S → Type 0) (f : GoError → GoError) (p : Result A × S)
    → P p.1
    → P (adjust f p).1
adjust-state P f (ok a, s) h = h
adjust-state P f (err e, s) h = h

module _ {S : Type 0} {P : S → Type 0} {A : Type 0} where
  pub Preserves-pure : (a : A) → Preserves P (pure a)
  Preserves-pure a = record { at = λ s h. h }

  pub Preserves-raise : (e : GoError) → Preserves P (raise {A = A} e)
  Preserves-raise e = record { at = λ s h. h }

  pub Preserves-with_error :
      (f : GoError → GoError) (m : Exec S A) → Preserves P m → Preserves P (with_error f m)
  Preserves-with_error f m k = record { at = λ s h. adjust-state P f (m s) (k.at s h) }

  pub Preserves-attempt : (m : Exec S A) → Preserves P m → Preserves P (attempt m)
  Preserves-attempt m k = record { at = k.at }

  pub Preserves-if :
      (b : Bool) (m n : Exec S A) → Preserves P m → Preserves P n → Preserves P (if b then m else n)
  Preserves-if true m n km kn = km
  Preserves-if false m n km kn = kn

  pub FailsSafe-of : (m : Exec S A) → Preserves P m → FailsSafe P m
  FailsSafe-of m k = record { at = λ s h e _. k.at s h }

module _ {S : Type 0} {P : S → Type 0} {A B : Type 0} where
  pub continue-state :
      (f : A → Exec S B)
      → ((a : A) → Preserves P (f a))
      → (p : Result A × S) → P p.1
      → P (continue f p).1
  continue-state f kf (ok a, s) h = (kf a).at s h
  continue-state f kf (err e, s) h = h

  pub Preserves-bind :
      (m : Exec S A) (f : A → Exec S B)
      → Preserves P m
      → ((a : A) → Preserves P (f a))
      → Preserves P (m >>= f)
  Preserves-bind m f km kf = record { at = λ s h. continue-state f kf (m s) (km.at s h) }

  continue-error :
      (f : A → Exec S B)
      → ((a : A) → FailsSafe P (f a))
      → (p : Result A × S) → P p.1
      → (e : GoError) → (continue f p).0 ≡ err e
      → P (continue f p).1
  continue-error f kf (ok a, s) h e q = (kf a).at s h e q
  continue-error f kf (err x, s) h e q = h

  pub FailsSafe-bind :
      (m : Exec S A) (f : A → Exec S B)
      → Preserves P m
      → ((a : A) → FailsSafe P (f a))
      → FailsSafe P (m >>= f)
  FailsSafe-bind m f km kf = record { at = λ s h. continue-error f kf (m s) (km.at s h) }

module _ {S A B : Type 0} (P : S → Type 0) where
  last-error :
      (f : A → Exec S B)
      → ((a : A) (s : S) (e : GoError) → (f a s).0 ≢ err e)
      → (p : Result A × S) → ((e : GoError) → p.0 ≡ err e → P p.1)
      → (e : GoError) → (continue f p).0 ≡ err e
      → P (continue f p).1
  last-error f total (ok a, s) h e q = absurd (total a s e q)
  last-error f total (err x, s) h e q = h x refl

module _ {S : Type 0} {P : S → Type 0} {A B : Type 0} where
  -- After `m`, a step that cannot fail.
  pub FailsSafe-last :
      (m : Exec S A) (f : A → Exec S B)
      → FailsSafe P m
      → ((a : A) (s : S) (e : GoError) → (f a s).0 ≢ err e)
      → FailsSafe P (m >>= f)
  FailsSafe-last m f km total = record { at = λ s h. last-error P f total (m s) (km.at s h) }

-- From `P`, `m` leads to `Q`, whatever it returns.
pub record Leads {S A : Type 0} (P : S → Type 0) (m : Exec S A) (Q : S → Type 0) : Type 0 where
  pub at : (s : S) → P s → Q (m s).1

module _ {S A B : Type 0} (P Q : S → Type 0) (weaker : (s : S) → P s → Q s) where
  continue-leads :
      (f : A → Exec S B)
      → ((a : A) → Leads P (f a) Q)
      → (p : Result A × S) → P p.1
      → Q (continue f p).1
  continue-leads f kf (ok a, s) h = (kf a).at s h
  continue-leads f kf (err e, s) h = weaker s h

  pub Leads-bind :
      (m : Exec S A) (f : A → Exec S B)
      → Preserves P m
      → ((a : A) → Leads P (f a) Q)
      → Leads P (m >>= f) Q
  Leads-bind m f km kf = record { at = λ s h. continue-leads f kf (m s) (km.at s h) }

pub ruleset preserving = (
  Preserves-pure, Preserves-raise, Preserves-with_error, Preserves-attempt, Preserves-if,
  Preserves-bind,
)
