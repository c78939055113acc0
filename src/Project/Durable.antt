-- ===== src/Project/Durable.antt =====
-- The invariant of the writer's state, and how writes of the object store keep the chains that are
-- there.
use serverless_db.Base.{
  ℕ, ◌+◌, ◌≤◌, ◌≡◌, refl, sym, subst, ◌⊎◌, String, Text, false, some, List, [], ◌∷◌, ◌++◌, arith,
  length, length-append,
}
use mathlib.Core.List.{append_assoc, append-nil}
use serverless_db.Store.{
  Key, snapshot, snapshot_generation, manifest, wal_segment, lookup, insert, key_eq,
}
use serverless_db.Store.Laws.{lookup-insert}
use serverless_db.Types.{Bytes, Codec, WalSegmentManifest, SnapshotManifest, DurableManifest}
use serverless_db.Project.{Sqlite, ProjectState, wal_bytes_of}
use serverless_db.Project.Chain.{IsStored, Chain, none_left, segment}

abbrev pub Keyed : String → List WalSegmentManifest → Type 0
Keyed pid [] = Unit {0}
Keyed pid (m ∷ ms) = (m.key ≡ wal_segment pid m.id) × Keyed pid ms

-- None of the segments lies under the key.
abbrev pub Apart : Key → List WalSegmentManifest → Type 0
Apart k [] = Unit {0}
Apart k (m ∷ ms) = (key_eq k m.key ≡ false) × Apart k ms

pub Keyed-append :
    (pid : String) (ms : List WalSegmentManifest) (m : WalSegmentManifest)
    → Keyed pid ms
    → m.key ≡ wal_segment pid m.id
    → Keyed pid (ms ++ m ∷ [])
Keyed-append pid [] m h k = (k, tt)
Keyed-append pid (x ∷ ms) m h k = (h.0, Keyed-append pid ms m h.1 k)

-- A key of another kind is apart from all segments.
pub Apart-manifest :
    (pid : String) (ms : List WalSegmentManifest) → Keyed pid ms → Apart (manifest pid) ms
Apart-manifest pid [] h = tt
Apart-manifest pid (m ∷ ms) h = (rw h.0 (unfold key_eq in refl), Apart-manifest pid ms h.1)

pub Apart-snapshot :
    (pid : String) (g : ℕ) (ms : List WalSegmentManifest)
    → Keyed pid ms
    → Apart (snapshot_generation pid g) ms
Apart-snapshot pid g [] h = tt
Apart-snapshot pid g (m ∷ ms) h = (rw h.0 (unfold key_eq in refl), Apart-snapshot pid g ms h.1)

module _ (c : Codec) where
  open c use {
    Doc, raw, bytes, bytes-raw, manifest_doc, as_manifest, as_manifest-manifest_doc, sha256,
  }

  pub IsStored-insert :
      (objects : List (Key × Doc)) (k key : Key) (d : Doc) (len : ℕ) (sum : Text) (b : Bytes)
      → key_eq k key ≡ false
      → IsStored c objects key len sum b
      → IsStored c (insert k d objects) key len sum b
  IsStored-insert objects k key d len sum b apart st = record {
    doc = st.doc;
    found = rw (lookup-insert, apart) st.found;
    content = st.content;
    size = st.size;
    checksum = st.checksum;
  }

  pub Chain-insert :
      {objects : List (Key × Doc)} {first offset : ℕ} {segments : List WalSegmentManifest}
      {wal : Bytes} (k : Key) (d : Doc)
      → Chain c objects first offset segments wal
      → Apart k segments
      → Chain c (insert k d objects) first offset segments wal
  Chain-insert k d none_left a = none_left
  Chain-insert {objects} k d (segment m b i o st rest) a =
      segment m b i o (IsStored-insert objects k m.key d m.len m.sha256 b a.0 st)
        (Chain-insert k d rest a.1)

  -- The number behind the last segment is free.
  pub Chain-Apart :
      {objects : List (Key × Doc)} {first offset : ℕ} {segments : List WalSegmentManifest}
      {wal : Bytes} (pid : String) (n : ℕ)
      → Chain c objects first offset segments wal
      → Keyed pid segments
      → first + length segments ≤ n
      → Apart (wal_segment pid n) segments
  Chain-Apart pid n none_left k h = tt
  Chain-Apart pid n (segment m b i o st rest) k h =
      (rw k.0 (unfold key_eq in ground arith), Chain-Apart pid n rest k.1 (omega arith))

  pub Chain-append :
      {objects : List (Key × Doc)} {first offset : ℕ} {segments : List WalSegmentManifest}
      {wal : Bytes} (m : WalSegmentManifest) (b : Bytes)
      → Chain c objects first offset segments wal
      → m.id ≡ first + length segments
      → m.offset ≡ offset + length wal
      → IsStored c objects m.key m.len m.sha256 b
      → Chain c objects first offset (segments ++ m ∷ []) (wal ++ b)
  Chain-append {objects} {first} {offset} m b none_left i o st =
      subst (Chain c objects first offset (m ∷ [])) (append-nil b)
        (segment m b (omega (arith, i)) (omega (arith, o)) st none_left)
  Chain-append {objects} {first} {offset} m b
        (segment {wal = wal} {segments = segments} m' b' i' o' st' rest) i o st =
      subst (Chain c objects first offset (m' ∷ segments ++ m ∷ [])) (sym (append_assoc b' wal b)) (
        segment m' b' i' o' st' (
          Chain-append m b rest (omega (arith, i))
            (omega (arith, o, length-append b' wal, st'.size)) st))

  module _ (s : Sqlite) where
    open s use {Conn, Content, content, wal_file, read}

    abbrev pub wal_of : ProjectState Conn → Bytes
    wal_of st = wal_bytes_of (wal_file st.conn)

    -- What the writer keeps between its operations: the snapshot and the segments that its state
    -- lists are in the store, as recorded; they hold the WAL up to `rest`; and the snapshot with
    -- the whole WAL is the content of the connection.
    pub record IsDurable (rest : Bytes) (st : ProjectState Conn) (objects : List (Key × Doc))
        : Type 0 where
      pub snap : SnapshotManifest
      pub current : st.current_snapshot ≡ some snap
      pub db : Bytes
      pub snap_key :
          (snap.key ≡ snapshot st.project_id)
          ⊎ (snap.key ≡ snapshot_generation st.project_id st.generation)
      pub snap_stored : IsStored c objects snap.key snap.bytes snap.sha256 db
      pub first : ℕ
      pub wal : Bytes
      pub chain : Chain c objects first 0 st.wal_segments wal
      pub keyed : Keyed st.project_id st.wal_segments
      pub next : st.next_wal_segment_id ≡ first + length st.wal_segments
      pub last : st.last_durable_wal_bytes ≡ length wal
      pub covers : wal_of st ≡ wal ++ rest
      pub reads : read db (wal_of st) ≡ content st.conn

    -- Recovery from this store gives the content.
    pub record IsRecoverable (pid : String) (objects : List (Key × Doc)) (x : Content)
        : Type 0 where
      pub man : DurableManifest
      pub doc : Doc
      pub stored : lookup (manifest pid) objects ≡ some doc
      pub parsed : as_manifest doc ≡ some man
      pub version : man.schema_version ≡ 1
      pub project : man.project_id ≡ pid
      pub db : Bytes
      pub snap_stored :
          IsStored c objects man.snapshot.key man.snapshot.bytes man.snapshot.sha256 db
      pub first : ℕ
      pub wal : Bytes
      pub chain : Chain c objects first 0 man.wal.segments wal
      pub total : man.wal.durable_bytes ≡ length wal
      pub reads : read db wal ≡ x
