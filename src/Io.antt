-- ===== src/Io.antt =====
-- Code that reads and writes a state and may fail. What was written before an error stays written,
-- so the state comes back beside the error too (`?` in the source).
pub mod Keeps
use serverless_db.Base.{◌⊎◌, inl, inr, ◌≡◌, refl}
use serverless_db.Error.{ApiError, Result, ok, err}

abbrev pub Io {ℓ κ} : Type ℓ → Type κ → Type (ℓ ⊔ κ)
Io S A = S → Result A × S

module _ {ℓ κ} {S : Type ℓ} {A : Type κ} where
  abbrev pub pure : A → Io S A
  pure a s = (ok a, s)

  abbrev pub raise : ApiError → Io S A
  raise e s = (err e, s)

  abbrev pub lift : Result A → Io S A
  lift r s = (r, s)

module _ {ℓ κ μ} {S : Type ℓ} {A : Type κ} {B : Type μ} where
  abbrev pub continue : Result A × S → (A → Io S B) → Result B × S
  continue (ok a, s) f = f a s
  continue (err e, s) f = (err e, s)

  infixl 5 ◌>>=◌
  abbrev pub ◌>>=◌ : Io S A → (A → Io S B) → Io S B
  ◌>>=◌ m f s = continue (m s) f

  infixl 5 ◌>>◌
  abbrev pub ◌>>◌ : Io S A → Io S B → Io S B
  m >> n = m >>= λ _. n

  -- A step that succeeded: both halves did.
  pub >>=-eq-ok :
      (m : Io S A) (f : A → Io S B) (s : S) {b : B} {t : S}
      → (m >>= f) s ≡ (ok b, t)
      → (a : A) × (u : S) × (m s ≡ (ok a, u)) × (f a u ≡ (ok b, t))
  >>=-eq-ok m f s {b} {t} = go (m s) refl
    where
      go :
          (r : Result A × S)
          → m s ≡ r
          → continue r f ≡ (ok b, t)
          → (a : A) × (u : S) × (m s ≡ (ok a, u)) × (f a u ≡ (ok b, t))
      go (ok a, u) e h = (a, u, e, h)
      go (err x, u) e h = cc

  -- The rule for a step and what follows, whether or not the step fails.
  pub >>=-rule {ν} :
      (m : Io S A) (f : A → Io S B) (s : S) (Q : Result B × S → Type ν)
      → ((a : A) (u : S) → m s ≡ (ok a, u) → Q (f a u))
      → ((e : ApiError) (u : S) → m s ≡ (err e, u) → Q (err e, u))
      → Q ((m >>= f) s)
  >>=-rule m f s Q good bad = go (m s) refl
    where
      go : (r : Result A × S) → m s ≡ r → Q (continue r f)
      go (ok a, u) e = good a u e
      go (err x, u) e = bad x u e

-- To split on how a step ends and keep the equation.
pub run-cases {ℓ κ} :
    {S : Type ℓ} {A : Type κ} (r : Result A × S)
    → ((a : A) × (s : S) × (r ≡ (ok a, s))) ⊎ ((e : ApiError) × (s : S) × (r ≡ (err e, s)))
run-cases (ok a, s) = inl (a, s, refl)
run-cases (err e, s) = inr (e, s, refl)
