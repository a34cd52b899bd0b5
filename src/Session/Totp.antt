-- ===== src/Session/Totp.antt =====
-- internal/session/totp.go: one-time codes from a seed or an otpauth URI, over code points.
use protonmail_mcp.Common.{
  ℕ, zero, suc, ◌+◌, ◌-◌, ◌*◌, ◌/◌, ◌%◌, ◌^◌, String, Option, none, some, List, [], ◌∷◌, map, ◌<>◌,
  ◌&&◌, nat_eq, leb, length, codes, get_elem?, strip_prefix, after_first, before_first,
  if◌then◌else◌,
}
use protonmail_mcp.Proterr.Chain.{text, wrap, Result, ok, err}
use protonmail_mcp.Session.State.{Backend}

-- The seed of an otpauth URI: what stands between the first `secret=` and the next `&`.
unfoldable pub seed_of : List ℕ → Result (List ℕ)
unfolding strip_prefix after_first before_first
seed_of secret = elim (strip_prefix (codes "otpauth://") secret) [
  | none ↦ ok secret
  | some _ ↦ elim (after_first (codes "secret=") secret) [
    | none ↦ err (text "otpauth URI missing secret")
    | some rest ↦ ok (before_first b'&' rest)
  ]
]

-- `strings.ToUpper` on ASCII, and on the two other letters whose upper case is ASCII. Base32
-- refuses every other letter in either case.
unfoldable pub to_upper : ℕ → ℕ
to_upper c =
    if leb b'a' c && leb c b'z'
    then c - 32
    else if nat_eq c 0x131
    then b'I'
    else if nat_eq c 0x17f
    then b'S'
    else c

-- `strings.ReplaceAll(s, " ", "")`
unfoldable pub without_spaces : List ℕ → List ℕ
without_spaces [] = []
without_spaces (c ∷ cs) = if nat_eq c b' ' then without_spaces cs else c ∷ without_spaces cs

-- The counter in eight bytes, the highest first (`binary.BigEndian.PutUint64`).
unfoldable pub big_endian : ℕ → ℕ → List ℕ
big_endian zero n = []
big_endian (suc k) n = (n / 256 ^ k) % 256 ∷ big_endian k n

-- `b & 0x7F` and `b & 0x0F` are remainders, and the four shifted bytes do not overlap.
unfoldable pub truncate : ℕ → ℕ → ℕ → ℕ → ℕ
truncate b0 b1 b2 b3 = (b0 % 0x80) * 2 ^ 24 + b1 * 2 ^ 16 + b2 * 2 ^ 8 + b3

abbrev pub digit_text : ℕ → String
digit_text zero = "0"
digit_text (suc zero) = "1"
digit_text (suc (suc zero)) = "2"
digit_text (suc (suc (suc zero))) = "3"
digit_text (suc (suc (suc (suc zero)))) = "4"
digit_text (suc (suc (suc (suc (suc zero))))) = "5"
digit_text (suc (suc (suc (suc (suc (suc zero)))))) = "6"
digit_text (suc (suc (suc (suc (suc (suc (suc zero))))))) = "7"
digit_text (suc (suc (suc (suc (suc (suc (suc (suc zero)))))))) = "8"
digit_text (suc (suc (suc (suc (suc (suc (suc (suc (suc _))))))))) = "9"

-- `fmt.Sprintf("%06d", n)` of an n below 1,000,000
unfoldable pub six_digits : ℕ → String
six_digits n =
    digit_text (n / 100000 % 10)
    <> digit_text (n / 10000 % 10)
    <> digit_text (n / 1000 % 10)
    <> digit_text (n / 100 % 10)
    <> digit_text (n / 10 % 10)
    <> digit_text (n % 10)

abbrev four_bytes : Option ℕ → Option ℕ → Option ℕ → Option ℕ → Option String
four_bytes (some b0) (some b1) (some b2) (some b3) =
    some (six_digits (truncate b0 b1 b2 b3 % 1_000_000))
four_bytes _ _ _ _ = none

-- The dynamic truncation of `hotp`, over the digest; none is a panic on an index out of range.
unfoldable pub code_of_digest : List ℕ → Option String
unfolding truncate six_digits
code_of_digest sum = elim (get_elem? sum (length sum - 1)) [
  | none ↦ none
  | some last ↦
      four_bytes (get_elem? sum (last % 16)) (get_elem? sum (last % 16 + 1))
        (get_elem? sum (last % 16 + 2)) (get_elem? sum (last % 16 + 3))
]

module _ (b : Backend) where
  unfoldable pub hotp : List ℕ → ℕ → Option String
  unfolding code_of_digest big_endian
  hotp key counter = code_of_digest (b.hmac_sha1 key (big_endian 8 counter))

  -- A panic would end the program; it stands here as an error, and a digest of 20 bytes rules it out.
  abbrev coded : Option String → Result String
  coded none = err (text "runtime error: index out of range")
  coded (some code) = ok code

  abbrev keyed : b.World → Result (List ℕ) → Result String
  keyed w (ok key) = coded (hotp key (b.unix_time w / 30))
  keyed w (err e) = err (wrap "base32 decode: " e "")

  abbrev seeded : b.World → Result (List ℕ) → Result String
  seeded w (ok seed) = keyed w (b.decode_base32 (map to_upper (without_spaces seed)))
  seeded w (err e) = err e

  unfoldable pub generate_totp : String → b.World → Result String
  generate_totp secret w = seeded w (seed_of (codes secret))
