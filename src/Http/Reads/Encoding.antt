-- ===== src/Http/Reads/Encoding.antt =====
-- Percent-encoding, as RFC 3986 describes it: what is encoded is decoded again, and has no character
-- that takes a query apart.
use serverless_db.Base.{
  ℕ, ◌+◌, ◌-◌, ◌*◌, ◌/◌, ◌%◌, ◌<◌, ◌≡◌, refl, arith, true, false, Text, [], ◌∷◌, all, ltb, ◌==◌,
  if◌then◌else◌, inl, inr, Bool-cases,
}
use serverless_db.Http.Reads.{is_plain, percent_encode, hex_upper}
use serverless_db.Text.Parts.{Lacks}
use serverless_db.Text.{is_ascii_alphanumeric, is_ascii_alphabetic, is_ascii_digit}

abbrev unhex : ℕ → ℕ
unhex c = if ltb c b'A' then c - b'0' else c - b'A' + 10

-- A percent sign and two digits stand for a byte, any other character for itself.
unfoldable pub percent_decode : Text → Text
percent_decode [] = []
percent_decode (c ∷ []) = c ∷ []
percent_decode (c ∷ d ∷ []) = c ∷ d ∷ []
percent_decode (c ∷ d ∷ e ∷ s) =
    let coded = (unhex d * 16 + unhex e) ∷ percent_decode s in
    let plain = c ∷ percent_decode (d ∷ e ∷ s) in if c == b'%' then coded else plain

percent_decode-cons :
    (c : ℕ) (s : Text) → (c == b'%') ≡ false → percent_decode (c ∷ s) ≡ c ∷ percent_decode s
unfolding percent_decode
percent_decode-cons c [] h = refl
percent_decode-cons c (d ∷ []) h = refl
percent_decode-cons c (d ∷ e ∷ s) h = rw h refl

abbrev pub AreBytes : Text → Type 0
AreBytes s = all (λ b. ltb b 256) s ≡ true

is_plain_not_percent : (b : ℕ) → is_plain b ≡ true → (b == b'%') ≡ false
unfolding is_plain is_ascii_alphanumeric is_ascii_alphabetic is_ascii_digit
is_plain_not_percent b h = ground arith

-- What is encoded is decoded again.
pub percent_decode-percent_encode : (s : Text) → AreBytes s → percent_decode (percent_encode s) ≡ s
unfolding percent_encode percent_decode
percent_decode-percent_encode [] h = refl
percent_decode-percent_encode (b ∷ s) h = elim (Bool-cases (is_plain b)) [
  | inl e ↦ ground (
    arith,
    percent_decode-cons b (percent_encode s) (is_plain_not_percent b e),
    percent_decode-percent_encode s,
    e,
  )
  | inr e ↦ ground (arith, percent_decode-percent_encode s, e)
]

-- A character that is not plain stands in no encoded text, but for the percent sign.
plain-ne : (sep b : ℕ) → is_plain sep ≡ false → is_plain b ≡ true → (b == sep) ≡ false
plain-ne sep b h k = elim (Bool-cases (b == sep)) [
  | inr e ↦ e
  | inl e ↦ let same : b ≡ sep = ground (arith, e) in absurd (ground (arith, rw same at k, h))
]

hex_upper_plain : (d : ℕ) → d < 16 → is_plain (hex_upper d) ≡ true
unfolding is_plain is_ascii_alphanumeric is_ascii_alphabetic is_ascii_digit
hex_upper_plain d h = ground arith

pub percent_encode-Lacks :
    (sep : ℕ) (s : Text)
    → is_plain sep ≡ false
    → (b'%' == sep) ≡ false
    → AreBytes s
    → Lacks sep (percent_encode s)
unfolding percent_encode
percent_encode-Lacks sep [] h k bytes = refl
percent_encode-Lacks sep (b ∷ s) h k bytes = elim (Bool-cases (is_plain b)) [
  | inl e ↦ ground (arith, plain-ne sep b h e, percent_encode-Lacks sep s h k, e)
  | inr e ↦
      let high = plain-ne sep (hex_upper (b / 16)) h (hex_upper_plain (b / 16) (ground arith)) in
      let low = plain-ne sep (hex_upper (b % 16)) h (hex_upper_plain (b % 16) (omega arith)) in
      ground (arith, high, low, percent_encode-Lacks sep s h k, e, k)
]

pub reserved_not_plain : (is_plain b'=' ≡ false) × (is_plain b'&' ≡ false)
unfolding is_plain is_ascii_alphanumeric is_ascii_alphabetic is_ascii_digit
reserved_not_plain = (refl, refl)
