-- ===== src/Common/Strconv.antt =====
-- Go's `strconv.Atoi` and `strings.TrimSpace`, over the code points of a text.
-- `int` has 64 bits: a number out of range is an error whose value is the nearest `int`.
use Prim.Native.Nat.{ℕ, ◌+◌, ◌-◌, ◌*◌, ◌^◌}
use Prim.Native.String.{String}
use mathlib.Core.Bool.{Bool, true, false, ◌&&◌, ◌||◌}
use mathlib.Core.List.{List, [], ◌∷◌, ◌++◌, reverse}
use protonmail_mcp.Common.Tests.{ltb, leb, nat_eq, if◌then◌else◌}
use protonmail_mcp.Common.Text.{codes}

-- `negsuc n` is -(n + 1).
pub data ℤ : Type 0 where
  pos : ℕ → ℤ
  negsuc : ℕ → ℤ

-- What `strconv.ParseUint` returns: a value, or one of its two errors.
pub data Parsed : Type 0 where
  value : ℕ → Parsed
  bad_syntax out_of_range : Parsed

abbrev pub is_digit : ℕ → Bool
is_digit c = leb b'0' c && leb c b'9'

-- The loop of `ParseUint` in base 10 with 64 bits; it stops at the first bad character or overflow.
unfoldable pub parse_digits : ℕ → List ℕ → Parsed
parse_digits acc [] = value acc
parse_digits acc (c ∷ cs) =
    let rest = parse_digits (acc * 10 + (c - b'0')) cs in
    if is_digit c
    then (if ltb (acc * 10 + (c - b'0')) (2 ^ 64) then rest else out_of_range)
    else bad_syntax

unfoldable pub parse_uint : List ℕ → Parsed
unfolding parse_digits
parse_uint [] = bad_syntax
parse_uint (c ∷ cs) = parse_digits 0 (c ∷ cs)

-- An `int` beside whether the conversion failed.
pub record Converted : Type 0 where
  pub number : ℤ
  pub failed : Bool

abbrev of_parsed : Bool → Parsed → Converted
of_parsed negative bad_syntax = record { number = pos 0; failed = true }
of_parsed false out_of_range = record { number = pos (2 ^ 63 - 1); failed = true }
of_parsed true out_of_range = record { number = negsuc (2 ^ 63 - 1); failed = true }
of_parsed false (value n) =
    if ltb n (2 ^ 63)
    then record { number = pos n; failed = false }
    else record { number = pos (2 ^ 63 - 1); failed = true }
of_parsed true (value n) =
    if nat_eq n 0
    then record { number = pos 0; failed = false }
    else if leb n (2 ^ 63)
    then record { number = negsuc (n - 1); failed = false }
    else record { number = negsuc (2 ^ 63 - 1); failed = true }

unfoldable pub atoi_codes : List ℕ → Converted
unfolding parse_uint
atoi_codes [] = record { number = pos 0; failed = true }
atoi_codes (c ∷ cs) =
    if nat_eq c b'-'
    then of_parsed true (parse_uint cs)
    else if nat_eq c b'+'
    then of_parsed false (parse_uint cs)
    else of_parsed false (parse_uint (c ∷ cs))

unfoldable pub atoi : String → Converted
unfolding atoi_codes
atoi s = atoi_codes (codes s)

-- `unicode.IsSpace`
unfoldable pub is_space : ℕ → Bool
is_space c =
    (leb 9 c && leb c 13)
    || nat_eq c 32
    || nat_eq c 0x85
    || nat_eq c 0xa0
    || nat_eq c 0x1680
    || (leb 0x2000 c && leb c 0x200a)
    || nat_eq c 0x2028
    || nat_eq c 0x2029
    || nat_eq c 0x202f
    || nat_eq c 0x205f
    || nat_eq c 0x3000

unfoldable pub trim_left : List ℕ → List ℕ
unfolding is_space
trim_left [] = []
trim_left (c ∷ cs) = if is_space c then trim_left cs else c ∷ cs

unfoldable pub trim_space : List ℕ → List ℕ
unfolding trim_left
trim_space cs = reverse (trim_left (reverse (trim_left cs)))

-- The loop of `strings.Fields`: the characters of the field that is open, and what follows.
abbrev close_field : List ℕ → List (List ℕ) → List (List ℕ)
close_field [] rest = rest
close_field (c ∷ cs) rest = (c ∷ cs) ∷ rest

unfoldable pub fields_from : List ℕ → List ℕ → List (List ℕ)
unfolding is_space
fields_from open_field [] = close_field open_field []
fields_from open_field (c ∷ cs) =
    let closed = fields_from [] cs in
    let longer = fields_from (open_field ++ c ∷ []) cs in
    if is_space c then close_field open_field closed else longer

unfoldable pub fields : List ℕ → List (List ℕ)
unfolding fields_from
fields = fields_from []

-- Equality of texts as code points.
abbrev pub same_codes : List ℕ → List ℕ → Bool
same_codes [] [] = true
same_codes (c ∷ cs) (d ∷ ds) = nat_eq c d && same_codes cs ds
same_codes _ _ = false
