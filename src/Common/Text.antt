-- ===== src/Common/Text.antt =====
-- Texts: joining them, and their code points.
use Prim.Native.Nat.{ℕ}
use Prim.Native.Char.{code}
use Prim.Native.String.append.{nil, cons}
use mathlib.Core.Path.{◌≡◌, ap, ◌∙◌}
use mathlib.Core.List.{◌++◌}
use Prim.Native.String
use Prim.Native.String.{String}
use mathlib.Core.Bool.{Bool, true, false, not}
use mathlib.Core.List.{List, [], ◌∷◌}
use protonmail_mcp.Common.Tests.{nat_eq, if◌then◌else◌}
use mathlib.Core.Option.{Option, none, some}
use text.Mathlib.Text.{◌==◌, find?}

infixr 65 ◌<>◌
abbrev pub ◌<>◌ : String → String → String
s <> t = String.◌++◌ s t

-- `s != ""`
abbrev pub nonempty : String → Bool
nonempty s = not (s == "")

-- The code points of a text: its bytes, if it is ASCII.
abbrev pub codes : String → List ℕ
codes String.[] = []
codes (String.◌∷◌ c s) = code c ∷ codes s

-- `strings.Contains(s, t)`
abbrev pub contains : String → String → Bool
contains s t = elim (find? s t) [ none ↦ false | some _ ↦ true ]

-- What follows a prefix.
unfoldable pub strip_prefix : List ℕ → List ℕ → Option (List ℕ)
strip_prefix [] s = some s
strip_prefix (p ∷ ps) [] = none
strip_prefix (p ∷ ps) (c ∷ cs) = if nat_eq p c then strip_prefix ps cs else none

-- What follows the first occurrence of a text, by `strings.Index`.
unfoldable pub after_first : List ℕ → List ℕ → Option (List ℕ)
unfolding strip_prefix
after_first t [] = strip_prefix t []
after_first t (c ∷ cs) =
    let later = after_first t cs in
    elim (strip_prefix t (c ∷ cs)) [ some rest ↦ some rest | none ↦ later ]

-- What stands before the first occurrence of a character, or all of it.
unfoldable pub before_first : ℕ → List ℕ → List ℕ
before_first x [] = []
before_first x (c ∷ cs) = if nat_eq c x then [] else c ∷ before_first x cs

pub codes-append : (s t : String) → codes (s <> t) ≡ codes s ++ codes t
codes-append String.[] t = ap codes (nil t)
codes-append (String.◌∷◌ c s) t = ap codes (cons c s t) ∙ ap (λ r. code c ∷ r) (codes-append s t)
