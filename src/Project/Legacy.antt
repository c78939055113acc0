-- ===== src/Project/Legacy.antt =====
-- Recovery of projects from before manifests, rust-core/src/runtime.rs: `restore_legacy_wal_segments`
-- and `wal_segment_id` (rust-core/src/runtime_utils.rs).
pub mod Lengths
use serverless_db.Base.{
  ℕ, ◌+◌, ◌<◌, Option, none, some, List, [], ◌∷◌, ◌++◌, String, ltb, leb, ◌==◌, not, length,
  if◌then◌else◌,
}
use serverless_db.Error.{Result, ok, err, new, invalid_legacy_key, legacy_size_mismatch}
use serverless_db.Io.{Io, pure, raise, lift, ◌>>=◌}
use serverless_db.Store.{Key, wal_segment, World, read_bytes, list_all}
use serverless_db.Types.{Bytes, Codec, WalSegmentManifest}
use serverless_db.Project.{is_wal_of, parsed_or}

-- The number that the key ends in.
unfoldable pub wal_segment_id : Key → Option ℕ
wal_segment_id (wal_segment pid id) = some id
wal_segment_id _ = none

-- A stable sort by insertion.
abbrev pub insert_by {ℓ} : {A : Type ℓ} → (A → ℕ) → A → List A → List A
insert_by f x [] = x ∷ []
insert_by f x (y ∷ ys) =
    let rest = insert_by f x ys in if leb (f x) (f y) then x ∷ y ∷ ys else y ∷ rest

abbrev pub sort_by_key {ℓ} : {A : Type ℓ} → (A → ℕ) → List A → List A
sort_by_key f [] = []
sort_by_key f (x ∷ xs) = insert_by f x (sort_by_key f xs)

-- Segments one behind the other.
unfoldable pub placed : ℕ → List WalSegmentManifest → List WalSegmentManifest
placed offset [] = []
placed offset (m ∷ segments) = record m { offset = offset } ∷ placed (offset + m.len) segments

module _ (c : Codec) where
  open c use {Doc, bytes, sha256}

  abbrev pub listed_order : Key × Doc → ℕ
  listed_order (wal_segment pid id, d) = id
  listed_order _ = 0

  -- The loop over the listed objects, with what was recovered and the file written so far.
  unfoldable pub restore_legacy :
      List (Key × Doc)
      → List WalSegmentManifest
      → ℕ
      → Bytes
      → Io (World Doc) (List WalSegmentManifest × Bytes)
  restore_legacy [] recovered offset file = pure (recovered, file)
  restore_legacy ((key, listed) ∷ objects) recovered offset file = do
    id ← lift (parsed_or (new 503 invalid_legacy_key) (wal_segment_id key))
    d ← read_bytes key
    if not (length (bytes d) == length (bytes listed))
        then raise (new 503 legacy_size_mismatch)
        else restore_legacy objects
            (recovered
              ++ record {
                id = id;
                key = key;
                offset = offset;
                len = length (bytes d);
                sha256 = sha256 (bytes d);
              }
                ∷ [])
            (offset + length (bytes d)) (file ++ bytes d)

  -- `list_prefix` sorts by the keys, whose numbers are padded to 20 digits.
  unfoldable pub restore_legacy_wal_segments :
      String → Io (World Doc) (List WalSegmentManifest × Bytes)
  restore_legacy_wal_segments pid = do
    objects ← list_all (is_wal_of pid)
    (recovered, file) ← restore_legacy (sort_by_key listed_order objects) [] 0 []
    pure (placed 0 (sort_by_key (λ m. m.id) recovered), file)
