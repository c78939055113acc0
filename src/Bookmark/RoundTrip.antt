-- ===== src/Bookmark/RoundTrip.antt =====
-- A bookmark is read back as the sequence number that it was made for.
use mathlib.Core.List.{reverse-append, reverse-reverse, reverse-cons}
use serverless_db.Base.{
  ℕ, ◌+◌, ◌/◌, ◌%◌, ◌^◌, ◌<◌, ◌≡◌, refl, ap, ◌∙◌, false, some, [], ◌∷◌, ◌++◌, reverse, arith, Text,
  codes, Option-cases, inl, inr,
}
use serverless_db.Error.{ok}
use serverless_db.Text.{trim, trim_start, strip_prefix, is_whitespace}
use serverless_db.Text.Decimal.{zero_padded, parse_u64-zero_padded, parse_u64_fits}
use serverless_db.Bookmark.{bookmark_for_seq, bookmark_to_seq}

reverse_last : (s : Text) (d : ℕ) → reverse (s ++ d ∷ []) ≡ d ∷ reverse s
reverse_last s d = reverse-append s (d ∷ [])

trim_start_solid : (c : ℕ) (s : Text) → is_whitespace c ≡ false → trim_start (c ∷ s) ≡ c ∷ s
unfolding trim_start
trim_start_solid c s h = rw h

-- Text that neither begins nor ends with white space is left alone.
trim_solid :
    (c d : ℕ) (s : Text)
    → is_whitespace c ≡ false
    → is_whitespace d ≡ false
    → trim (c ∷ s ++ d ∷ []) ≡ c ∷ s ++ d ∷ []
unfolding trim
trim_solid c d s hc hd =
    ap (λ t. reverse (trim_start (reverse t))) (trim_start_solid c (s ++ d ∷ []) hc)
    ∙ ap (λ t. reverse (trim_start t)) (reverse_last (c ∷ s) d)
    ∙ ap reverse (trim_start_solid d (reverse (c ∷ s)) hd)
    ∙ reverse-cons d (reverse (c ∷ s))
    ∙ ap (λ t. t ++ d ∷ []) (reverse-reverse (c ∷ s))

strip_behind : (p s : Text) → strip_prefix p (p ++ s) ≡ some s
unfolding strip_prefix
strip_behind [] s = refl
strip_behind (c ∷ p) s = ground (arith, strip_behind p s)

digit_solid : (n : ℕ) → is_whitespace (b'0' + n % 10) ≡ false
unfolding is_whitespace
digit_solid n = ground arith

trim-bookmark_for_seq : (seq : ℕ) → trim (bookmark_for_seq seq) ≡ bookmark_for_seq seq
unfolding bookmark_for_seq zero_padded
trim-bookmark_for_seq seq =
    trim_solid b's' (b'0' + seq % 10) (codes "db1-" ++ zero_padded 19 (seq / 10))
      (unfold is_whitespace in refl) (digit_solid seq)

behind : (seq : ℕ) → strip_prefix (codes "sdb1-") (bookmark_for_seq seq) ≡ some (zero_padded 20 seq)
unfolding bookmark_for_seq
behind seq = strip_behind (codes "sdb1-") (zero_padded 20 seq)

-- Every u64 sequence number survives the way through its bookmark.
pub bookmark_to_seq-bookmark_for_seq :
    (seq : ℕ) → seq < 2 ^ 64 → bookmark_to_seq (bookmark_for_seq seq) ≡ ok seq
unfolding bookmark_to_seq
bookmark_to_seq-bookmark_for_seq seq h =
    rw (trim-bookmark_for_seq seq, behind seq, parse_u64-zero_padded 19 seq (omega arith) h) refl

-- A text that parses as a bookmark stands for a u64.
pub bookmark_to_seq_fits : (t : Text) (seq : ℕ) → bookmark_to_seq t ≡ ok seq → seq < 2 ^ 64
unfolding bookmark_to_seq
bookmark_to_seq_fits t seq h = elim (Option-cases (strip_prefix (codes "sdb1-") (trim t))) [
  | inl e ↦ absurd (ground arith)
  | inr (digits, e) ↦ parse_u64_fits digits seq (ground arith)
]
