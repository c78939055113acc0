-- ===== src/Text/Equality.antt =====
-- `text_eq` decides equality.
use serverless_db.Base.{◌≡◌, refl, ◌↔◌, true, [], ◌∷◌, arith, Text}
use serverless_db.Text.{text_eq}

text_eq_sound : (s t : Text) → text_eq s t ≡ true → s ≡ t
unfolding text_eq
text_eq_sound [] [] h = refl
text_eq_sound (c ∷ s) (d ∷ t) h = ground (arith, text_eq_sound s t)
text_eq_sound _ _ h = cc

text_eq_refl : (s : Text) → text_eq s s ≡ true
unfolding text_eq
text_eq_refl [] = refl
text_eq_refl (c ∷ s) = ground (arith, text_eq_refl s)

pub text_eq_iff : (s t : Text) → (text_eq s t ≡ true) ↔ (s ≡ t)
text_eq_iff s t = (text_eq_sound s t, λ e. rw e (text_eq_refl t))
