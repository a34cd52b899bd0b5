-- ===== src/Common/Ints.antt =====
-- Go's `int` and `int64`: order, sums, and `strconv.Itoa` (also `%d`).
use Prim.Native.Nat.{ℕ, zero, suc, ◌+◌, ◌-◌, ◌/◌, ◌%◌}
use Prim.Native.String.{String}
use mathlib.Core.Bool.{Bool, true, false}
use mathlib.Core.Option.{none, some}
use mathlib.Core.List.{List, [], ◌∷◌}
use protonmail_mcp.Common.Tests.{ltb, leb, nat_eq, get_elem?, if◌then◌else◌}
use protonmail_mcp.Common.Text.{◌<>◌}
use protonmail_mcp.Common.Strconv.{ℤ, pos, negsuc}

unfoldable pub int_ltb : ℤ → ℤ → Bool
int_ltb (pos a) (pos b) = ltb a b
int_ltb (pos a) (negsuc b) = false
int_ltb (negsuc a) (pos b) = true
int_ltb (negsuc a) (negsuc b) = ltb b a

abbrev pub int_eq : ℤ → ℤ → Bool
int_eq (pos a) (pos b) = nat_eq a b
int_eq (negsuc a) (negsuc b) = nat_eq a b
int_eq _ _ = false

-- `m - n`
abbrev pub difference : ℕ → ℕ → ℤ
difference m n = if leb n m then pos (m - n) else negsuc (n - m - 1)

abbrev pub int_add : ℤ → ℤ → ℤ
int_add (pos a) (pos b) = pos (a + b)
int_add (pos a) (negsuc b) = difference a (b + 1)
int_add (negsuc a) (pos b) = difference b (a + 1)
int_add (negsuc a) (negsuc b) = negsuc (a + b + 1)

abbrev pub int_neg : ℤ → ℤ
int_neg (pos zero) = pos 0
int_neg (pos (suc n)) = negsuc n
int_neg (negsuc n) = pos (n + 1)

abbrev digit_texts : List String
digit_texts = "0" ∷ "1" ∷ "2" ∷ "3" ∷ "4" ∷ "5" ∷ "6" ∷ "7" ∷ "8" ∷ "9" ∷ []

abbrev digit_text : ℕ → String
digit_text d = elim (get_elem? digit_texts d) [ none ↦ "" | some s ↦ s ]

-- The last digits of a number, as many as the fuel and one more.
unfoldable decimal_digits : ℕ → ℕ → String
decimal_digits zero n = digit_text (n % 10)
decimal_digits (suc k) n =
    let front = decimal_digits k (n / 10) in
    if ltb n 10 then digit_text n else front <> digit_text (n % 10)

-- An `int` has at most nineteen digits.
unfoldable pub itoa : ℤ → String
unfolding decimal_digits
itoa (pos n) = decimal_digits 19 n
itoa (negsuc n) = "-" <> decimal_digits 19 (n + 1)
