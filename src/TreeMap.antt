-- ===== src/TreeMap.antt =====
-- `BTreeMap<String, V>` of std, as rust-core/src/control_plane.rs uses it: entries in the order of
-- their keys, which is that of the code points.
pub mod Laws
use serverless_db.Base.{
  ℕ, String, Bool, true, false, ◌&&◌, ◌||◌, Text, codes, Option, none, some, List, [], ◌∷◌, ltb,
  ◌==◌, str_eq, if◌then◌else◌, map,
}

abbrev pub TreeMap {ℓ} : Type ℓ → Type ℓ
TreeMap V = List (String × V)

unfoldable pub text_ltb : Text → Text → Bool
text_ltb [] [] = false
text_ltb [] (d ∷ t) = true
text_ltb (c ∷ s) [] = false
text_ltb (c ∷ s) (d ∷ t) = ltb c d || (c == d && text_ltb s t)

module _ {ℓ} {V : Type ℓ} where
  unfoldable pub get : String → TreeMap V → Option V
  get k [] = none
  get k ((j, v) ∷ m) = if str_eq j k then some v else get k m

  unfoldable pub insert : String → V → TreeMap V → TreeMap V
  unfolding text_ltb
  insert k v [] = (k, v) ∷ []
  insert k v ((j, w) ∷ m) =
      let rest = insert k v m in
      if str_eq j k
      then (j, v) ∷ m
      else if text_ltb (codes k) (codes j)
      then (k, v) ∷ (j, w) ∷ m
      else (j, w) ∷ rest

  -- What is done to the value behind `get_mut`.
  unfoldable pub update : String → (V → V) → TreeMap V → TreeMap V
  update k f [] = []
  update k f ((j, v) ∷ m) =
      let rest = update k f m in if str_eq j k then (j, f v) ∷ m else (j, v) ∷ rest

  abbrev pub values : TreeMap V → List V
  values m = map (λ (e : String × V). e.1) m
