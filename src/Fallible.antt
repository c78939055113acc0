-- ===== src/Fallible.antt =====
-- Results whose error is the component's own type (`Result<T, E>` beside `ApiError`).
use serverless_db.Base.{◌≡◌, refl, ◌⊎◌, inl, inr, Option, none, some}

pub data Fallible {ℓ κ} (E : Type ℓ) (A : Type κ) : Type (ℓ ⊔ κ) where
  ok : A → Fallible E A
  err : E → Fallible E A

module _ {ℓ κ} {E : Type ℓ} {A : Type κ} where
  -- `Option::ok_or`.
  abbrev pub ok_or : Option A → E → Fallible E A
  ok_or none e = err e
  ok_or (some a) e = ok a

  pub Fallible-cases : (r : Fallible E A) → ((a : A) × (r ≡ ok a)) ⊎ ((e : E) × (r ≡ err e))
  Fallible-cases (ok a) = inl (a, refl)
  Fallible-cases (err e) = inr (e, refl)

infixl 5 ◌>>=◌
abbrev pub ◌>>=◌ {ℓ κ μ} :
    {E : Type ℓ} {A : Type κ} {B : Type μ} → Fallible E A → (A → Fallible E B) → Fallible E B
ok a >>= f = f a
err e >>= f = err e
