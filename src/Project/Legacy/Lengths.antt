-- ===== src/Project/Legacy/Lengths.antt =====
-- The segments that are recovered without a manifest are as long as the file.
use serverless_db.Base.{
  ℕ, ◌+◌, ◌≡◌, refl, ap, sym, ◌∙◌, String, List, [], ◌∷◌, ◌++◌, arith, length, length-append, inl,
  inr, Option-cases,
}
use serverless_db.Error.{ok}
use serverless_db.Io.{run-cases}
use serverless_db.Store.{Key, World, read_bytes, list_all}
use serverless_db.Types.{Bytes, Codec, WalSegmentManifest}
use serverless_db.Project.{is_wal_of}
use serverless_db.Project.Chain.{sum_len}
use serverless_db.Project.Legacy.{
  insert_by, sort_by_key, placed, listed_order, wal_segment_id, restore_legacy,
  restore_legacy_wal_segments,
}

sum_len-append : (xs ys : List WalSegmentManifest) → sum_len (xs ++ ys) ≡ sum_len xs + sum_len ys
sum_len-append [] ys = omega arith
sum_len-append (x ∷ xs) ys = omega (arith, sum_len-append xs ys)

sum_len-insert_by :
    (f : WalSegmentManifest → ℕ) (x : WalSegmentManifest) (ys : List WalSegmentManifest)
    → sum_len (insert_by f x ys) ≡ x.len + sum_len ys
sum_len-insert_by f x [] = refl
sum_len-insert_by f x (y ∷ ys) = ground (arith, sum_len-insert_by f x ys)

sum_len-sort_by_key :
    (f : WalSegmentManifest → ℕ) (xs : List WalSegmentManifest)
    → sum_len (sort_by_key f xs) ≡ sum_len xs
sum_len-sort_by_key f [] = refl
sum_len-sort_by_key f (x ∷ xs) =
    omega (arith, sum_len-insert_by f x (sort_by_key f xs), sum_len-sort_by_key f xs)

sum_len-placed :
    (offset : ℕ) (xs : List WalSegmentManifest) → sum_len (placed offset xs) ≡ sum_len xs
unfolding placed
sum_len-placed offset [] = refl
sum_len-placed offset (x ∷ xs) = omega (arith, sum_len-placed (offset + x.len) xs)

module _ (c : Codec) where
  open c use {Doc, bytes, sha256}

  restore_legacy-sum_len :
      (objects : List (Key × Doc)) (recovered segments : List WalSegmentManifest) (offset : ℕ)
      (file out : Bytes) (w w' : World Doc)
      → sum_len recovered ≡ length file
      → restore_legacy c objects recovered offset file w ≡ (ok (segments, out), w')
      → sum_len segments ≡ length out
  unfolding restore_legacy
  restore_legacy-sum_len [] recovered segments offset file out w w' same h = ground (arith, same, h)
  restore_legacy-sum_len ((key, listed) ∷ objects) recovered segments offset file out w w' same h =
      elim (Option-cases (wal_segment_id key)) [
        | inl n ↦ absurd (ground (arith, n, h))
        | inr (id, n) ↦ elim (run-cases (read_bytes key w)) [
          | inr (e, v, q) ↦ absurd (ground (arith, n, q, h))
          | inl (d, v, q) ↦
              let m : WalSegmentManifest = record {
                id = id;
                key = key;
                offset = offset;
                len = length (bytes d);
                sha256 = sha256 (bytes d);
              } in
              restore_legacy-sum_len objects (recovered ++ m ∷ []) segments
                (offset + length (bytes d)) (file ++ bytes d) out v w'
                (omega
                  (arith, sum_len-append recovered (m ∷ []), length-append file (bytes d), same))
                (ground (arith, n, q, h))
        ]
      ]

  -- The segments that a recovery without a manifest returns are together as long as the WAL file that
  -- it writes, whatever order the objects were listed in.
  pub restore_legacy_wal_segments-sum_len :
      (pid : String) (segments : List WalSegmentManifest) (out : Bytes) (w w' : World Doc)
      → restore_legacy_wal_segments c pid w ≡ (ok (segments, out), w')
      → sum_len segments ≡ length out
  unfolding restore_legacy_wal_segments
  restore_legacy_wal_segments-sum_len pid segments out w w' h =
      elim (run-cases (list_all (is_wal_of pid) w)) [
        | inr (e, v, q) ↦ absurd (ground (arith, q, h))
        | inl (objects, v, q) ↦
            elim (run-cases (restore_legacy c (sort_by_key (listed_order c) objects) [] 0 [] v)) [
              | inr (e, u, r) ↦ absurd (ground (arith, q, r, h))
              | inl ((recovered, file), u, r) ↦
                  let covered =
                    restore_legacy-sum_len (sort_by_key (listed_order c) objects) [] recovered 0 []
                      file v u refl r in
                  let is_segments : placed 0 (sort_by_key (λ m. m.id) recovered) ≡ segments =
                    ground (arith, q, r, h) in
                  let is_file : file ≡ out = ground (arith, q, r, h) in
                  ap sum_len (sym is_segments)
                  ∙ sum_len-placed 0 (sort_by_key (λ m. m.id) recovered)
                  ∙ sum_len-sort_by_key (λ m. m.id) recovered
                  ∙ covered
                  ∙ ap length is_file
            ]
      ]
