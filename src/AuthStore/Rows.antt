-- ===== src/AuthStore/Rows.antt =====
-- Rows found after an update.
use mathlib.Core.Option
use serverless_db.Base.{
  ◌≡◌, refl, inl, inr, arith, Bool, true, some, List, [], ◌∷◌, map, any, find, Bool-cases,
}

module _ {ℓ} {A : Type ℓ} (p : A → Bool) where
  pub find-map :
      (f : A → A) (xs : List A)
      → ((x : A) → p (f x) ≡ p x)
      → find p (map f xs) ≡ Option.map f (find p xs)
  find-map f [] h = refl
  find-map f (x ∷ xs) h = elim (Bool-cases (p x)) [
    | inl e ↦ ground (arith, h x, e)
    | inr e ↦ ground (arith, h x, e, find-map f xs h)
  ]

  pub find_holds : (xs : List A) (x : A) → find p xs ≡ some x → p x ≡ true
  find_holds [] x h = cc
  find_holds (y ∷ xs) x h = elim (Bool-cases (p y)) [
    | inl e ↦ ground (arith, e, h)
    | inr e ↦ find_holds xs x (rw e at h)
  ]

  pub any-find : (xs : List A) (x : A) → find p xs ≡ some x → any p xs ≡ true
  any-find [] x h = cc
  any-find (y ∷ xs) x h = elim (Bool-cases (p y)) [
    | inl e ↦ ground (arith, e)
    | inr e ↦ let r = any-find xs x (rw e at h) in ground (arith, e, r)
  ]
