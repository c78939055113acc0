-- ===== src/Io/Keeps.antt =====
-- Invariants of actions, a rule for each way to build one. `Keeps P m`: whether `m` returns or
-- fails, a state in `P` is left in `P`.
use serverless_db.Base.{subst, Bool, true, false, if◌then◌else◌}
use serverless_db.Error.{ApiError, Result}
use serverless_db.Io.{Io, pure, raise, lift, ◌>>=◌, >>=-rule}

pub record Keeps {ℓ κ} {S : Type ℓ} {A : Type κ} (P : S → Type ℓ) (m : Io S A) : Type (ℓ ⊔ κ) where
  pub at : (s : S) → P s → P (m s).1

module _ {ℓ κ} {S : Type ℓ} {A : Type κ} {P : S → Type ℓ} where
  pub Keeps-pure : (a : A) → Keeps P (pure a)
  Keeps-pure a = record { at = λ s h. h }

  pub Keeps-raise : (e : ApiError) → Keeps P (raise {A = A} e)
  Keeps-raise e = record { at = λ s h. h }

  pub Keeps-lift : (r : Result A) → Keeps P (lift r)
  Keeps-lift r = record { at = λ s h. h }

  pub Keeps-if : (b : Bool) (m n : Io S A) → Keeps P m → Keeps P n → Keeps P (if b then m else n)
  Keeps-if true m n km kn = km
  Keeps-if false m n km kn = kn

module _ {ℓ κ μ} {S : Type ℓ} {A : Type κ} {B : Type μ} {P : S → Type ℓ} where
  pub Keeps-bind :
      (m : Io S A) (f : A → Io S B) → Keeps P m → ((a : A) → Keeps P (f a)) → Keeps P (m >>= f)
  Keeps-bind m f km kf = record {
    at = λ s h.
        >>=-rule m f s (λ r. P r.1) (λ a u e. (kf a).at u (subst (λ r. P r.1) e (km.at s h)))
          (λ x u e. subst (λ r. P r.1) e (km.at s h));
  }

pub ruleset keeps_rules = (Keeps-pure, Keeps-raise, Keeps-lift, Keeps-if, Keeps-bind)
