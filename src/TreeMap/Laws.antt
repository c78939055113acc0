-- ===== src/TreeMap/Laws.antt =====
-- What a map holds after its operations.
use mathlib.Core.Option
use serverless_db.Base.{
  ◌≡◌, refl, inl, inr, arith, String, some, [], ◌∷◌, str_eq, eq_iff, Bool-cases, if◌then◌else◌,
}
use serverless_db.TreeMap.{TreeMap, get, insert, update}

module _ {ℓ} {V : Type ℓ} where
  pub get-insert :
      (j k : String) (v : V) (m : TreeMap V)
      → get j (insert k v m) ≡ (if str_eq k j then some v else get j m)
  unfolding get insert
  get-insert j k v [] = refl
  get-insert j k v ((i, w) ∷ m) =
      ground (arith, get-insert j k v m, eq_iff i k, eq_iff i j, eq_iff k j)

  pub get-update :
      (j k : String) (f : V → V) (m : TreeMap V)
      → get j (update k f m) ≡ (if str_eq k j then Option.map f (get j m) else get j m)
  unfolding get update
  get-update j k f [] = elim (Bool-cases (str_eq k j)) [ inl e ↦ rw e refl | inr e ↦ rw e refl ]
  get-update j k f ((i, w) ∷ m) =
      ground (arith, get-update j k f m, eq_iff i k, eq_iff i j, eq_iff k j)
