-- ===== src/Project/Replica.antt =====
-- A read replica follows the manifest, rust-core/src/runtime.rs: `manifest_commit_seq`,
-- `manifest_bookmark`, `refresh_replica_state`, `rehydrate_state_from_manifest`; and `hibernate`, for
-- a project that is open.
pub mod Following
use serverless_db.Base.{
  ℕ, ◌+◌, Bool, true, false, not, ◌&&◌, ◌||◌, Text, codes, Option, none, some, List, [], ◌∷◌, ltb,
  leb, if◌then◌else◌,
}
use serverless_db.Error.{Result, ok, err, new, sqlite_failed}
use serverless_db.Io.{Io, pure, raise, lift, ◌>>=◌, ◌>>◌}
use serverless_db.Text.{is_empty}
use serverless_db.Bookmark.{bookmark_for_seq, bookmark_to_seq}
use serverless_db.Store.{ignore}
use serverless_db.Types.{Codec, Runtime, WalSegmentManifest, DurableManifest}
use serverless_db.Lease.{release_writer_lease}
use serverless_db.Project.{
  Sqlite, ProjectState, parsed_or, load_manifest, restore_snapshot, restore_manifest_wal,
}
use serverless_db.Project.Chain.{sum_len}
use serverless_db.Project.Writer.{
  Writer, in_world, get, modify, local_file, persist_snapshot, ensure_writer_lease_for_state,
}

abbrev or_seq : ℕ → Result ℕ → ℕ
or_seq seq (ok n) = n
or_seq seq (err e) = seq

unfoldable pub manifest_commit_seq : Option DurableManifest → ℕ
manifest_commit_seq none = 0
manifest_commit_seq (some m) = or_seq m.commit_seq (bookmark_to_seq m.bookmark)

unfoldable pub manifest_bookmark : DurableManifest → Text
manifest_bookmark m = if is_empty m.bookmark then bookmark_for_seq m.commit_seq else m.bookmark

-- The largest id and one more, or 0.
unfoldable pub next_id : List WalSegmentManifest → ℕ
next_id [] = 0
next_id (m ∷ segments) = let rest = next_id segments in if leb rest m.id then m.id + 1 else rest

module _ (c : Codec) (s : Sqlite) (rt : Runtime) (now : ℕ) where
  open s use {open_files, placeholder}

  -- The state behind `rehydrate_state_from_manifest`, but for the connection.
  abbrev pub follow : DurableManifest → s.Conn → ProjectState s.Conn → ProjectState s.Conn
  follow m conn st = record st {
    conn = conn;
    generation = m.generation;
    commit_seq = manifest_commit_seq (some m);
    current_snapshot = some m.snapshot;
    last_durable_wal_bytes = sum_len m.wal.segments;
    next_wal_segment_id = next_id m.wal.segments;
    wal_segments = m.wal.segments;
    ops_since_snapshot = m.ops_since_snapshot;
    last_snapshot_at_ms = now;
  }

  -- The writes of the two local files are one call each that may fail.
  unfoldable pub rehydrate_state_from_manifest : DurableManifest → Writer c s (Unit {0})
  rehydrate_state_from_manifest m = do
    modify c s (λ st. record st { conn = placeholder })
    db ← in_world c s (restore_snapshot c m.snapshot)
    local_file c s
    wal ← in_world c s (restore_manifest_wal c m)
    local_file c s
    conn ← lift (parsed_or (new 500 sqlite_failed) (open_files db wal))
    modify c s (follow m conn)

  abbrev follow_found : ℕ → ProjectState s.Conn → Option DurableManifest → Writer c s Bool
  follow_found requested_seq st none = pure false
  follow_found requested_seq st (some m) =
      let remote_seq = manifest_commit_seq (some m) in
      if (leb remote_seq st.commit_seq && leb requested_seq st.commit_seq)
        || (leb remote_seq st.commit_seq && ltb remote_seq requested_seq)
      then pure false
      else (do rehydrate_state_from_manifest m; pure true)

  unfoldable pub refresh_replica_state : ℕ → Writer c s Bool
  refresh_replica_state requested_seq = if not rt.options.read_replica then pure false else do
    st ← get c s
    m ← in_world c s (load_manifest c st.project_id)
    follow_found requested_seq st m

  -- `hibernate` of a runtime that writes, on the state of the open project.
  unfoldable pub hibernate : Writer c s (Unit {0})
  hibernate = do
    ensure_writer_lease_for_state c s rt now
    persist_snapshot c s rt now (codes "hibernate")
    st ← get c s
    in_world c s (ignore (release_writer_lease c rt now st.project_id))
