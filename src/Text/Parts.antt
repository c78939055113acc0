-- ===== src/Text/Parts.antt =====
-- The parts of a text that is split at a separator.
use mathlib.Core.List.{append_assoc}
use serverless_db.Base.{
  ℕ, ◌≡◌, ◌≢◌, refl, ap, arith, true, not, Text, List, [], ◌∷◌, ◌++◌, all, ◌==◌, inl, inr,
  Bool-cases,
}
use serverless_db.Text.{split, cons_part}

-- No character is the separator.
abbrev pub Lacks : ℕ → Text → Type 0
Lacks sep s = all (λ c. not (c == sep)) s ≡ true

-- A part without the separator is the first part.
pub split-cons : (sep : ℕ) (a s : Text) → Lacks sep a → split sep (a ++ sep ∷ s) ≡ a ∷ split sep s
unfolding split
split-cons sep [] s h = ground arith
split-cons sep (c ∷ a) s h = ground (arith, split-cons sep a s)

-- A text without the separator is its only part.
pub split_whole : (sep : ℕ) (a : Text) → Lacks sep a → split sep a ≡ a ∷ []
unfolding split
split_whole sep [] h = refl
split_whole sep (c ∷ a) h = ground (arith, split_whole sep a)

abbrev interspersed : ℕ → List Text → Text
interspersed sep [] = []
interspersed sep (p ∷ []) = p
interspersed sep (p ∷ q ∷ ps) = p ++ sep ∷ interspersed sep (q ∷ ps)

interspersed-cons_part :
    (sep c : ℕ) (parts : List Text)
    → interspersed sep (cons_part c parts) ≡ c ∷ interspersed sep parts
unfolding cons_part
interspersed-cons_part sep c [] = refl
interspersed-cons_part sep c (p ∷ []) = refl
interspersed-cons_part sep c (p ∷ q ∷ ps) = refl

interspersed-nil :
    (sep : ℕ) (parts : List Text)
    → parts ≢ []
    → interspersed sep ([] ∷ parts) ≡ sep ∷ interspersed sep parts
interspersed-nil sep [] h = absurd (h refl)
interspersed-nil sep (p ∷ ps) h = refl

cons_part-ne-nil : (c : ℕ) (parts : List Text) → cons_part c parts ≢ []
unfolding cons_part
cons_part-ne-nil c [] h = cc
cons_part-ne-nil c (p ∷ ps) h = cc

split-ne-nil : (sep : ℕ) (s : Text) → split sep s ≢ []
unfolding split
split-ne-nil sep [] h = cc
split-ne-nil sep (c ∷ s) h = elim (Bool-cases (c == sep)) [
  | inl e ↦ cc (rw e at h)
  | inr e ↦ cons_part-ne-nil c (split sep s) (rw e at h)
]

-- The parts, with the separator between them, are the text.
pub interspersed-split : (sep : ℕ) (s : Text) → interspersed sep (split sep s) ≡ s
unfolding split
interspersed-split sep [] = refl
interspersed-split sep (c ∷ s) = elim (Bool-cases (c == sep)) [
  | inl e ↦
      ground (
        arith,
        interspersed-nil sep (split sep s) (split-ne-nil sep s),
        interspersed-split sep s,
        e,
      )
  | inr e ↦ ground (arith, interspersed-cons_part sep c (split sep s), interspersed-split sep s, e)
]

pub split_three :
    (sep : ℕ) (s a b c : Text) → split sep s ≡ a ∷ b ∷ c ∷ [] → s ≡ a ++ sep ∷ (b ++ sep ∷ c)
split_three sep s a b c h = ground (arith, interspersed-split sep s, ap (interspersed sep) h)

pub split-three :
    (sep : ℕ) (a b c : Text)
    → Lacks sep a
    → Lacks sep b
    → Lacks sep c
    → split sep ((a ++ sep ∷ b) ++ sep ∷ c) ≡ a ∷ b ∷ c ∷ []
split-three sep a b c p q r =
    rw (append_assoc a (sep ∷ b) (sep ∷ c), split-cons sep a (b ++ sep ∷ c) p)
      (rw (split-cons sep b c q, split_whole sep c r) refl)
