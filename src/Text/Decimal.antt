-- ===== src/Text/Decimal.antt =====
-- `{:020}` of a u64 and `str::parse::<u64>` (std).
use Prim.Native.Nat.{◌+◌, ◌*◌, ◌/◌, ◌%◌, ◌^◌, ◌<◌}
use mathlib.Core.List.{append_assoc, append-nil}
use native.Mathlib.Nat.{pow-suc}
use serverless_db.Base.{
  Bool-cases, true, inl, inr, ℕ, zero, suc, ◌≡◌, refl, ◌&&◌, Option, none, some, [], ◌∷◌, ◌++◌, ◌-◌,
  ◌∙◌, arith, Text, leb, ◌==◌, if◌then◌else◌, u64_max,
}

-- The last `w` decimal digits of `n`, zeros in front: the print of `{:0w}` for `n < 10 ^ w`.
unfoldable pub zero_padded : ℕ → ℕ → Text
zero_padded zero n = []
zero_padded (suc w) n = zero_padded w (n / 10) ++ (b'0' + n % 10) ∷ []

-- `{}` of a number below 10 ^ fuel.
unfoldable pub decimal : ℕ → ℕ → Text
decimal zero n = []
decimal (suc fuel) n =
    let rest = decimal fuel (n / 10) in
    if leb n 9 then (b'0' + n) ∷ [] else rest ++ (b'0' + n % 10) ∷ []

-- The loop of `u64::from_str`: `checked_mul(10)` and `checked_add(digit)`.
unfoldable pub scan : Text → ℕ → Option ℕ
scan [] n = some n
scan (c ∷ s) n =
    if leb b'0' c && leb c b'9' && leb (n * 10 + (c - b'0')) u64_max
    then scan s (n * 10 + (c - b'0'))
    else none

digits_of : Text → Option ℕ
digits_of [] = none
digits_of (c ∷ s) = scan (c ∷ s) 0

-- `str::parse::<u64>`: one plus sign may stand in front, and there must be a digit.
unfoldable pub parse_u64 : Text → Option ℕ
unfolding digits_of scan
parse_u64 [] = none
parse_u64 (c ∷ s) = if c == b'+' then digits_of s else digits_of (c ∷ s)

-- The last digit, read behind the digits before it.
scan_digit :
    (n : ℕ) (rest : Text) → n < 2 ^ 64 → scan ((b'0' + n % 10) ∷ rest) (n / 10) ≡ scan rest n
unfolding scan
scan_digit n rest h = ground arith

tenth_lt_pow : (w n : ℕ) → n < 10 ^ suc w → n / 10 < 10 ^ w
tenth_lt_pow w n h = let h' : n < 10 ^ w * 10 = rw pow-suc at h in omega arith

-- Scanning the printed digits leaves the number in the accumulator.
scan-zero_padded :
    (w n : ℕ) (rest : Text)
    → n < 10 ^ w
    → n < 2 ^ 64
    → scan (zero_padded w n ++ rest) 0 ≡ scan rest n
unfolding zero_padded
scan-zero_padded zero n rest h fits = let z : n ≡ 0 = omega arith in rw z
scan-zero_padded (suc w) n rest h fits = rw append_assoc (
    scan-zero_padded w (n / 10) ((b'0' + n % 10) ∷ rest) (tenth_lt_pow w n h) (omega arith)
    ∙ scan_digit n rest fits)

-- The first character printed is a digit.
zero_padded_head :
    (w n : ℕ) (rest : Text)
    → (d : ℕ) × (s : Text) × (zero_padded (suc w) n ++ rest ≡ (b'0' + d) ∷ s) × (d < 10)
unfolding zero_padded
zero_padded_head zero n rest = (n % 10, rest, refl, omega arith)
zero_padded_head (suc w) n rest =
    let (d, s, e, h) = zero_padded_head w (n / 10) ((b'0' + n % 10) ∷ rest) in
    (d, s, rw append_assoc e, h)

parse_u64-digit : (d : ℕ) (s t : Text) → t ≡ (b'0' + d) ∷ s → d < 10 → parse_u64 t ≡ scan t 0
unfolding parse_u64
parse_u64-digit d s t e h = rw e (ground arith)

-- Every u64 is read back from its zero-padded print.
pub parse_u64-zero_padded :
    (w n : ℕ) → n < 10 ^ suc w → n < 2 ^ 64 → parse_u64 (zero_padded (suc w) n) ≡ some n
parse_u64-zero_padded w n h fits =
    let (d, s, e, lt) = zero_padded_head w n [] in
    let e' = rw append-nil at e in
    parse_u64-digit d s _ e' lt
    ∙ (rw append-nil at (scan-zero_padded (suc w) n [] h fits))
    ∙ (unfold scan in refl)

scan_first : (n : ℕ) (rest : Text) → n < 10 → scan ((b'0' + n) ∷ rest) 0 ≡ scan rest n
unfolding scan
scan_first n rest h = ground arith

-- What parses is a u64.
scan_fits : (s : Text) (n m : ℕ) → n < 2 ^ 64 → scan s n ≡ some m → m < 2 ^ 64
unfolding scan
scan_fits [] n m h e = ground arith
scan_fits (c ∷ s) n m h e = ground (arith, scan_fits s (n * 10 + (c - b'0')) m)

pub parse_u64_fits : (s : Text) (m : ℕ) → parse_u64 s ≡ some m → m < 2 ^ 64
unfolding parse_u64
parse_u64_fits [] m e = cc
parse_u64_fits (c ∷ []) m e = ground (arith, scan_fits (c ∷ []) 0 m)
parse_u64_fits (c ∷ d ∷ s) m e = ground (arith, scan_fits (c ∷ d ∷ s) 0 m, scan_fits (d ∷ s) 0 m)

scan-decimal :
    (w n : ℕ) (rest : Text) → n < 10 ^ w → n < 2 ^ 64 → scan (decimal w n ++ rest) 0 ≡ scan rest n
unfolding decimal
scan-decimal zero n rest h fits = let z : n ≡ 0 = omega arith in rw z
scan-decimal (suc w) n rest h fits = elim (Bool-cases (leb n 9)) [
  | inl e ↦ rw e (scan_first n rest (ground (arith, e)))
  | inr e ↦ rw e (
      rw append_assoc (
        scan-decimal w (n / 10) ((b'0' + n % 10) ∷ rest) (tenth_lt_pow w n h) (omega arith)
        ∙ scan_digit n rest fits))
]

decimal_head :
    (w n : ℕ) (rest : Text)
    → n < 10 ^ suc w
    → (d : ℕ) × (s : Text) × (decimal (suc w) n ++ rest ≡ (b'0' + d) ∷ s) × (d < 10)
unfolding decimal
decimal_head zero n rest h =
    let e : leb n 9 ≡ true = ground arith in (n, rest, rw e refl, omega arith)
decimal_head (suc w) n rest h = elim (Bool-cases (leb n 9)) [
  | inl e ↦ (n, rest, rw e refl, ground (arith, e))
  | inr e ↦
      let (d, s, q, lt) =
        decimal_head w (n / 10) ((b'0' + n % 10) ∷ rest) (tenth_lt_pow (suc w) n h) in
      (d, s, rw e (rw append_assoc q), lt)
]

-- Every u64 is read back from its print.
pub parse_u64-decimal :
    (w n : ℕ) → n < 10 ^ suc w → n < 2 ^ 64 → parse_u64 (decimal (suc w) n) ≡ some n
parse_u64-decimal w n h fits =
    let (d, s, e, lt) = decimal_head w n [] h in
    let e' = rw append-nil at e in
    parse_u64-digit d s _ e' lt
    ∙ (rw append-nil at (scan-decimal (suc w) n [] h fits))
    ∙ (unfold scan in refl)
