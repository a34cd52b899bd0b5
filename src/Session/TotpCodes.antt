-- ===== src/Session/TotpCodes.antt =====
-- The one-time codes: no digest of HMAC-SHA-1 makes the truncation run out of its bytes.
use protonmail_mcp.Common.{
  ℕ, zero, suc, ◌+◌, ◌-◌, ◌*◌, ◌/◌, ◌≤◌, ◌%◌, String, ◌<>◌, codes, codes-append, All, ◌<◌, some,
  List, [], ◌∷◌, ◌++◌, ◌≡◌, ◌∙◌, ap, refl, arith, length, get_elem?,
}
use protonmail_mcp.Session.Totp.{code_of_digest, digit_text, six_digits, truncate}

elem-below : (l : List ℕ) (i : ℕ) → i < length l → (x : ℕ) × (get_elem? l i ≡ some x)
elem-below [] i h = absurd (omega (arith, h))
elem-below (x ∷ l) zero h = (x, refl)
elem-below (x ∷ l) (suc i) h = elem-below l i (omega (arith, h))

-- The number that decimal digits denote, the highest first.
unfoldable pub decimal : ℕ → List ℕ → ℕ
decimal n [] = n
decimal n (c ∷ cs) = decimal (n * 10 + (c - b'0')) cs

digit_text-codes : (d : ℕ) → d < 10 → codes (digit_text d) ≡ (b'0' + d) ∷ []
digit_text-codes zero h = refl
digit_text-codes (suc zero) h = refl
digit_text-codes (suc (suc zero)) h = refl
digit_text-codes (suc (suc (suc zero))) h = refl
digit_text-codes (suc (suc (suc (suc zero)))) h = refl
digit_text-codes (suc (suc (suc (suc (suc zero))))) h = refl
digit_text-codes (suc (suc (suc (suc (suc (suc zero)))))) h = refl
digit_text-codes (suc (suc (suc (suc (suc (suc (suc zero))))))) h = refl
digit_text-codes (suc (suc (suc (suc (suc (suc (suc (suc zero)))))))) h = refl
digit_text-codes (suc (suc (suc (suc (suc (suc (suc (suc (suc zero))))))))) h = refl
digit_text-codes (suc (suc (suc (suc (suc (suc (suc (suc (suc (suc d)))))))))) h =
    absurd (omega (arith, h))

mod_10 : (n : ℕ) → n % 10 < 10
mod_10 n = omega arith

digit_then :
    (m : ℕ) (s : String) {cs : List ℕ}
    → codes s ≡ cs
    → codes (digit_text (m % 10) <> s) ≡ (b'0' + m % 10) ∷ cs
digit_then m s h =
    codes-append (digit_text (m % 10)) s
    ∙ ap (λ l. l ++ codes s) (digit_text-codes (m % 10) (mod_10 m))
    ∙ ap (λ cs. (b'0' + m % 10) ∷ cs) h

six_digits-codes :
    (n : ℕ)
    → codes (six_digits n)
      ≡ (b'0' + n / 100000 % 10)
        ∷ (b'0' + n / 10000 % 10)
        ∷ (b'0' + n / 1000 % 10)
        ∷ (b'0' + n / 100 % 10)
        ∷ (b'0' + n / 10 % 10)
        ∷ (b'0' + n % 10)
        ∷ []
unfolding six_digits
six_digits-codes n = digit_then (n / 100000) _ (
    digit_then (n / 10000) _ (
      digit_then (n / 1000) _
        (digit_then (n / 100) _ (digit_then (n / 10) _ (digit_text-codes (n % 10) (mod_10 n))))))

six_digits-digits : (n : ℕ) → All (λ c. (b'0' ≤ c) × (c ≤ b'9')) (codes (six_digits n))
six_digits-digits n = rw (six_digits-codes n) (
  within (n / 100000),
  (within (n / 10000), (within (n / 1000), (within (n / 100), (within (n / 10), (within n, tt))))),
)
  where
    within : (m : ℕ) → (b'0' ≤ b'0' + m % 10) × (b'0' + m % 10 ≤ b'9')
    within m = (omega (arith, mod_10 m), omega (arith, mod_10 m))

below_million : (n : ℕ) → n % 1_000_000 < 1_000_000
below_million n = omega arith

six_digits-decimal : (n : ℕ) → n < 1_000_000 → decimal 0 (codes (six_digits n)) ≡ n
unfolding decimal
six_digits-decimal n h = rw (six_digits-codes n) (omega (arith, h))

-- The four bytes that begin at the offset in the low half of the last byte, and their code.
pub record IsTruncated (sum : List ℕ) : Type 0 where
  pub last : ℕ
  pub b0 : ℕ
  pub b1 : ℕ
  pub b2 : ℕ
  pub b3 : ℕ
  pub last_byte : get_elem? sum 19 ≡ some last
  pub byte0 : get_elem? sum (last % 16) ≡ some b0
  pub byte1 : get_elem? sum (last % 16 + 1) ≡ some b1
  pub byte2 : get_elem? sum (last % 16 + 2) ≡ some b2
  pub byte3 : get_elem? sum (last % 16 + 3) ≡ some b3
  pub code : String
  pub coded : code_of_digest sum ≡ some code
  pub six : length (codes code) ≡ 6
  pub digits : All (λ c. (b'0' ≤ c) × (c ≤ b'9')) (codes code)
  pub value :
      decimal 0 (codes code) ≡ ((b0 % 128) * 16_777_216 + b1 * 65_536 + b2 * 256 + b3) % 1_000_000

mod_16 : (n : ℕ) → n % 16 < 16
mod_16 n = omega arith

code_of_bytes :
    (sum : List ℕ) (last b0 b1 b2 b3 : ℕ)
    → length sum ≡ 20
    → get_elem? sum 19 ≡ some last
    → get_elem? sum (last % 16) ≡ some b0
    → get_elem? sum (last % 16 + 1) ≡ some b1
    → get_elem? sum (last % 16 + 2) ≡ some b2
    → get_elem? sum (last % 16 + 3) ≡ some b3
    → code_of_digest sum ≡ some (six_digits (truncate b0 b1 b2 b3 % 1_000_000))
unfolding code_of_digest
code_of_bytes sum last b0 b1 b2 b3 h e e0 e1 e2 e3 = rw (code_of_digest, h, e, e0, e1, e2, e3) refl

of_bytes :
    (sum : List ℕ) (last b0 b1 b2 b3 : ℕ)
    → length sum ≡ 20
    → get_elem? sum 19 ≡ some last
    → get_elem? sum (last % 16) ≡ some b0
    → get_elem? sum (last % 16 + 1) ≡ some b1
    → get_elem? sum (last % 16 + 2) ≡ some b2
    → get_elem? sum (last % 16 + 3) ≡ some b3
    → IsTruncated sum
unfolding truncate
of_bytes sum last b0 b1 b2 b3 h e e0 e1 e2 e3 = record {
  last = last;
  b0 = b0;
  b1 = b1;
  b2 = b2;
  b3 = b3;
  last_byte = e;
  byte0 = e0;
  byte1 = e1;
  byte2 = e2;
  byte3 = e3;
  code = six_digits (truncate b0 b1 b2 b3 % 1_000_000);
  coded = code_of_bytes sum last b0 b1 b2 b3 h e e0 e1 e2 e3;
  six = rw (six_digits-codes (truncate b0 b1 b2 b3 % 1_000_000)) refl;
  digits = six_digits-digits (truncate b0 b1 b2 b3 % 1_000_000);
  value =
      six_digits-decimal (truncate b0 b1 b2 b3 % 1_000_000) (below_million (truncate b0 b1 b2 b3));
}

-- Over a digest of twenty bytes no index is out of range. The code has six decimal digits, and they
-- denote the remainder by a million of the big-endian number in the four bytes from the offset that
-- the low half of the last byte gives, without the highest bit of the first.
pub code_of_digest_total : (sum : List ℕ) → length sum ≡ 20 → IsTruncated sum
code_of_digest_total sum h =
    let (last, e) = elem-below sum 19 (omega (arith, h)) in
    let (b0, e0) = elem-below sum (last % 16) (omega (arith, h, mod_16 last)) in
    let (b1, e1) = elem-below sum (last % 16 + 1) (omega (arith, h, mod_16 last)) in
    let (b2, e2) = elem-below sum (last % 16 + 2) (omega (arith, h, mod_16 last)) in
    let (b3, e3) = elem-below sum (last % 16 + 3) (omega (arith, h, mod_16 last)) in
    of_bytes sum last b0 b1 b2 b3 h e e0 e1 e2 e3
