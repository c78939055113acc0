-- ===== src/Store/Laws.antt =====
-- Laws of the object map.
use serverless_db.Base.{
  ◌≡◌, refl, ◌↔◌, ◌⊎◌, Bool, true, false, none, some, List, [], ◌∷◌, arith, eq_iff, if◌then◌else◌,
}
use serverless_db.Error.{ok}
use serverless_db.Text.Equality.{text_eq_iff}
use serverless_db.Store.{
  Key, snapshot, snapshot_generation, manifest, writer_lease, writer_lease_claim, wal_segment,
  storage, change_log, lease_audit, key_eq, lookup, insert, remove, remove_all, World, exists,
  read_bytes, put_bytes, put_bytes_if_absent, is_some,
}

pub key_eq_sound : (j k : Key) → key_eq j k ≡ true → j ≡ k
unfolding key_eq
key_eq_sound (snapshot p) (snapshot q) h = ground (arith, eq_iff p q)
key_eq_sound (snapshot_generation p g) (snapshot_generation q i) h = ground (arith, eq_iff p q)
key_eq_sound (manifest p) (manifest q) h = ground (arith, eq_iff p q)
key_eq_sound (writer_lease p) (writer_lease q) h = ground (arith, eq_iff p q)
key_eq_sound (writer_lease_claim p t) (writer_lease_claim q u) h = ground (arith, eq_iff p q)
key_eq_sound (wal_segment p i) (wal_segment q j) h = ground (arith, eq_iff p q)
key_eq_sound (storage p b k) (storage q c l) h =
    ground (arith, eq_iff p q, text_eq_iff b c, text_eq_iff k l)
key_eq_sound (change_log p n o r) (change_log q m u s) h =
    ground (arith, eq_iff p q, text_eq_iff r s)
key_eq_sound (lease_audit p n) (lease_audit q m) h = ground (arith, eq_iff p q)
key_eq_sound _ _ h = cc

pub key_eq_refl : (k : Key) → key_eq k k ≡ true
unfolding key_eq
key_eq_refl (snapshot p) = ground (arith, eq_iff p p)
key_eq_refl (snapshot_generation p g) = ground (arith, eq_iff p p)
key_eq_refl (manifest p) = ground (arith, eq_iff p p)
key_eq_refl (writer_lease p) = ground (arith, eq_iff p p)
key_eq_refl (writer_lease_claim p t) = ground (arith, eq_iff p p)
key_eq_refl (wal_segment p i) = ground (arith, eq_iff p p)
key_eq_refl (storage p b k) = ground (arith, eq_iff p p, text_eq_iff b b, text_eq_iff k k)
key_eq_refl (change_log p n o r) = ground (arith, eq_iff p p, text_eq_iff r r)
key_eq_refl (lease_audit p n) = ground (arith, eq_iff p p)

pub key_eq_iff : (j k : Key) → (key_eq j k ≡ true) ↔ (j ≡ k)
key_eq_iff j k = (key_eq_sound j k, λ e. rw e (key_eq_refl k))

module _ {D : Type 0} where
  pub lookup-remove :
      (k j : Key) (m : List (Key × D))
      → lookup j (remove k m) ≡ (if key_eq k j then none else lookup j m)
  unfolding lookup remove
  lookup-remove k j [] = ground arith
  lookup-remove k j ((i, d) ∷ m) =
      ground (arith, lookup-remove k j m, key_eq_iff i k, key_eq_iff i j, key_eq_iff k j)

  pub lookup-insert :
      (k j : Key) (d : D) (m : List (Key × D))
      → lookup j (insert k d m) ≡ (if key_eq k j then some d else lookup j m)
  unfolding lookup insert
  lookup-insert k j d m = ground (arith, lookup-remove k j m)

  pub lookup-remove_all :
      (p : Key → Bool) (j : Key) (m : List (Key × D))
      → lookup j (remove_all p m) ≡ (if p j then none else lookup j m)
  unfolding lookup remove_all
  lookup-remove_all p j [] = ground arith
  lookup-remove_all p j ((i, d) ∷ m) = ground (arith, lookup-remove_all p j m, key_eq_iff i j)

-- What a call that came back says of the objects.
module _ {D : Type 0} (k : Key) (w w' : World D) where
  pub exists-ok :
      (b : Bool)
      → exists k w ≡ (ok b, w')
      → (b ≡ is_some (lookup k w.objects)) × (w'.objects ≡ w.objects)
  unfolding exists
  exists-ok b h = ground arith

  pub read-ok :
      (d : D)
      → read_bytes k w ≡ (ok d, w')
      → (lookup k w.objects ≡ some d) × (w'.objects ≡ w.objects)
  unfolding read_bytes
  read-ok d h = ground arith

  pub put-ok :
      (d : D) (u : Unit {0}) → put_bytes k d w ≡ (ok u, w') → w'.objects ≡ insert k d w.objects
  unfolding put_bytes
  put-ok d u h = ground arith

  pub put_absent-true :
      (d : D)
      → put_bytes_if_absent k d w ≡ (ok true, w')
      → (lookup k w.objects ≡ none) × (w'.objects ≡ insert k d w.objects)
  unfolding put_bytes_if_absent
  put_absent-true d h = ground arith

  pub put_absent-false :
      (d : D)
      → put_bytes_if_absent k d w ≡ (ok false, w')
      → (is_some (lookup k w.objects) ≡ true) × (w'.objects ≡ w.objects)
  unfolding put_bytes_if_absent
  put_absent-false d h = ground arith

-- What a call leaves behind, whether or not it came back.
module _ {D : Type 0} (k : Key) (w : World D) where
  pub exists-objects : (exists k w).1.objects ≡ w.objects
  unfolding exists
  exists-objects = refl

  pub read-objects : (read_bytes k w).1.objects ≡ w.objects
  unfolding read_bytes
  read-objects = ground arith

  pub put-objects :
      (d : D)
      → ((put_bytes k d w).1.objects ≡ w.objects)
        ⊎ ((put_bytes k d w).1.objects ≡ insert k d w.objects)
  unfolding put_bytes
  put-objects d = ground arith

  pub put_absent_present :
      (d e : D) → lookup k w.objects ≡ some e → (put_bytes_if_absent k d w).1.objects ≡ w.objects
  unfolding put_bytes_if_absent
  put_absent_present d e h = ground arith
