-- ===== src/Store.antt =====
-- The object store behind the trait `ObjectStore` (rust-core/src/object_store.rs), as the runtime
-- sees it: a map from keys to objects whose calls may fail. Keys are the texts that the key
-- functions of rust-core/src/runtime_utils.rs build; here they are data, one constructor for each
-- such function.
pub mod Laws
use serverless_db.Base.{
  ℕ, zero, suc, String, Bool, true, false, not, ◌&&◌, Option, none, some, List, [], ◌∷◌, Text, ◌==◌,
  str_eq, if◌then◌else◌,
}
use serverless_db.Error.{ApiError, Result, ok, err, new, object_store_failed}
use serverless_db.Io.{Io, pure, ◌>>=◌}
use serverless_db.Text.{text_eq}

pub data Key : Type 0 where
  snapshot : String → Key
  snapshot_generation : String → ℕ → Key
  manifest : String → Key
  writer_lease : String → Key
  writer_lease_claim : String → ℕ → Key
  wal_segment : String → ℕ → Key
  storage : String → Text → Text → Key
  change_log : String → ℕ → ℕ → Text → Key
  lease_audit : String → ℕ → Key

unfoldable pub key_eq : Key → Key → Bool
unfolding text_eq
key_eq (snapshot p) (snapshot q) = str_eq p q
key_eq (snapshot_generation p g) (snapshot_generation q h) = str_eq p q && g == h
key_eq (manifest p) (manifest q) = str_eq p q
key_eq (writer_lease p) (writer_lease q) = str_eq p q
key_eq (writer_lease_claim p t) (writer_lease_claim q u) = str_eq p q && t == u
key_eq (wal_segment p i) (wal_segment q j) = str_eq p q && i == j
key_eq (storage p b k) (storage q c l) = str_eq p q && text_eq b c && text_eq k l
key_eq (change_log p n o r) (change_log q m u s) = str_eq p q && n == m && o == u && text_eq r s
key_eq (lease_audit p n) (lease_audit q m) = str_eq p q && n == m
key_eq _ _ = false

-- How one call of the store ends: it is done; it fails and had no effect; or it fails at the
-- caller although its effect took place.
pub data Fault : Type 0 where
  done lost unacknowledged : Fault

-- The objects, newest first, and how the coming calls end; `done` where the list is at its end.
pub record World (D : Type 0) : Type 0 where
  pub objects : List (Key × D)
  pub faults : List Fault

abbrev pub fault : List Fault → Fault
fault [] = done
fault (f ∷ fs) = f

abbrev pub tail : List Fault → List Fault
tail [] = []
tail (f ∷ fs) = fs

abbrev pub failed : ApiError
failed = new 500 object_store_failed

abbrev pub read_end {ℓ} : {A : Type ℓ} → Fault → A → Result A
read_end done a = ok a
read_end lost a = err failed
read_end unacknowledged a = err failed

abbrev pub is_some {ℓ} : {A : Type ℓ} → Option A → Bool
is_some none = false
is_some (some a) = true

module _ {D : Type 0} where
  unfoldable pub lookup : Key → List (Key × D) → Option D
  lookup k [] = none
  lookup k ((j, d) ∷ m) = if key_eq j k then some d else lookup k m

  unfoldable pub remove : Key → List (Key × D) → List (Key × D)
  remove k [] = []
  remove k ((j, d) ∷ m) = let rest = remove k m in if key_eq j k then rest else (j, d) ∷ rest

  unfoldable pub insert : Key → D → List (Key × D) → List (Key × D)
  unfolding remove
  insert k d m = (k, d) ∷ remove k m

  -- The keys of a subtree, as `delete_prefix` and `list_prefix` select them.
  unfoldable pub remove_all : (Key → Bool) → List (Key × D) → List (Key × D)
  remove_all p [] = []
  remove_all p ((j, d) ∷ m) = let rest = remove_all p m in if p j then rest else (j, d) ∷ rest

  unfoldable pub select_all : (Key → Bool) → List (Key × D) → List (Key × D)
  select_all p [] = []
  select_all p ((j, d) ∷ m) = let rest = select_all p m in if p j then (j, d) ∷ rest else rest

  -- A call that reads.
  abbrev reading {ℓ} : {A : Type ℓ} → (List (Key × D) → A) → Io (World D) A
  reading f w = (read_end (fault w.faults) (f w.objects), record w { faults = tail w.faults })

  abbrev written : Fault → List (Key × D) → List (Key × D) → List (Key × D)
  written done old after = after
  written lost old after = old
  written unacknowledged old after = after

  -- A call that writes.
  abbrev writing {ℓ} : {A : Type ℓ} → A → (List (Key × D) → List (Key × D)) → Io (World D) A
  writing a f w = (
    read_end (fault w.faults) a,
    record { objects = written (fault w.faults) w.objects (f w.objects); faults = tail w.faults },
  )

  unfoldable pub exists : Key → Io (World D) Bool
  exists k = reading (λ m. is_some (lookup k m))

  abbrev or_failed : Option D → Io (World D) D
  or_failed none w = (err failed, w)
  or_failed (some d) w = (ok d, w)

  -- Reading a missing object is an error.
  unfoldable pub read_bytes : Key → Io (World D) D
  read_bytes k = do found ← reading (lookup k); or_failed found

  unfoldable pub put_bytes : Key → D → Io (World D) (Unit {0})
  put_bytes k d = writing tt (insert k d)

  abbrev insert_absent : Key → D → List (Key × D) → Bool → List (Key × D)
  insert_absent k d m true = m
  insert_absent k d m false = insert k d m

  -- One atomic step: the hard link of the local store, the conditional put of S3.
  unfoldable pub put_bytes_if_absent : Key → D → Io (World D) Bool
  put_bytes_if_absent k d w =
      writing (not (is_some (lookup k w.objects)))
        (λ m. insert_absent k d m (is_some (lookup k w.objects))) w

  unfoldable pub delete : Key → Io (World D) (Unit {0})
  delete k = writing tt (remove k)

  unfoldable pub delete_all : (Key → Bool) → Io (World D) (Unit {0})
  delete_all p = writing tt (remove_all p)

  unfoldable pub list_all : (Key → Bool) → Io (World D) (List (Key × D))
  list_all p = reading (select_all p)

  -- `.ok()`: the result is dropped.
  abbrev pub ignore {ℓ} : {A : Type ℓ} → Io (World D) A → Io (World D) (Unit {0})
  ignore m w = (ok tt, (m w).1)
