-- ===== src/Tests/Projects.antt =====
-- The theorems on projects at concrete inputs: the WAL of the sample project becomes durable, is
-- recovered, and a snapshot replaces it.
use serverless_db.Base.{◌≡◌, ◌+◌, refl, inl, codes, some, [], ◌∷◌, ◌++◌, arith, saturating_add}
use serverless_db.Error.{ok}
use serverless_db.Store.{
  snapshot, lost, lookup, insert, remove, remove_all, key_eq, exists, read_bytes, put_bytes,
  delete_all,
}
use serverless_db.Text.{text_eq}
use serverless_db.Types.{Bytes, DurableManifest}
use serverless_db.Project.{
  Machine, load_manifest, put_manifest, restore_files, restore_snapshot, restore_manifest_wal,
  restore_segments, read_verified_object, is_wal_of,
}
use serverless_db.Project.Chain.{IsStored, Chain, none_left}
use serverless_db.Base.{List}
use serverless_db.Store.{World, wal_segment, list_all, select_all}
use serverless_db.Types.{WalSegmentManifest}
use serverless_db.Project.Legacy.{
  restore_legacy_wal_segments, restore_legacy, placed, wal_segment_id,
}
use serverless_db.Project.Durable.{IsDurable, IsRecoverable}
use serverless_db.Project.Commit.{commit_wal-IsRecoverable}
use serverless_db.Project.Writer.{
  commit_wal, durabilize_wal, persist_snapshot, upload_snapshot, replace_cache, append_change_log,
  write_manifest, restart_chain, upload_tail, manifest_of, should_write_metadata, should_snapshot,
  compact,
}
use serverless_db.Project.Recovery.{recovery_complete, restore_files_sound}
use serverless_db.Project.Compaction.{
  persist_snapshot-IsRecoverable, failed_replacement_loses_content,
}
use serverless_db.Tests.Samples.{
  codec, sqlite, alice, first_machine, first_snapshot, Object, bytes_object, Connection,
}

first-IsDurable :
    IsDurable codec sqlite (3 ∷ 4 ∷ []) first_machine.state first_machine.world.objects
unfolding lookup key_eq
first-IsDurable = record {
  snap = first_snapshot;
  current = refl;
  db = 1 ∷ 2 ∷ [];
  snap_key = inl refl;
  snap_stored = record {
    doc = bytes_object (1 ∷ 2 ∷ []);
    found = refl;
    content = refl;
    size = refl;
    checksum = refl;
  };
  first = 0;
  wal = [];
  chain = none_left;
  keyed = tt;
  next = refl;
  last = refl;
  covers = refl;
  reads = refl;
}

abbrev committed : Machine Object Connection
committed = (commit_wal codec sqlite alice 10 (codes "op") 1 first_machine).1

commits : commit_wal codec sqlite alice 10 (codes "op") 1 first_machine ≡ (ok tt, committed)
unfolding commit_wal restart_chain upload_tail write_manifest put_manifest load_manifest exists
    read_bytes put_bytes lookup insert remove key_eq
commits = refl

commit_wal-IsRecoverable_example :
    IsRecoverable codec sqlite "p" committed.world.objects (1 ∷ 2 ∷ 3 ∷ 4 ∷ [])
    × IsDurable codec sqlite [] committed.state committed.world.objects
    × (committed.state.conn ≡ first_machine.state.conn)
    × (committed.state.commit_seq ≡ saturating_add first_machine.state.commit_seq 1)
commit_wal-IsRecoverable_example =
    commit_wal-IsRecoverable codec sqlite alice 10 (3 ∷ 4 ∷ []) (codes "op") 1 first_machine
      committed tt first-IsDurable commits

no_faults : committed.world.faults ≡ []
unfolding commit_wal restart_chain upload_tail write_manifest put_manifest load_manifest exists
    read_bytes put_bytes lookup insert remove key_eq
no_faults = refl

recovery_complete_example :
    (man : DurableManifest) × (db : Bytes) × (wal : Bytes) × (load_manifest codec "p"
        committed.world
      ≡ (ok (some man), committed.world))
    × (restore_files codec man committed.world ≡ (ok (db, wal), committed.world))
    × (db ++ wal ≡ 1 ∷ 2 ∷ 3 ∷ 4 ∷ [])
recovery_complete_example =
    recovery_complete codec sqlite "p" committed.world (1 ∷ 2 ∷ 3 ∷ 4 ∷ []) no_faults
      commit_wal-IsRecoverable_example.0

abbrev durable : Machine Object Connection
durable = (durabilize_wal codec sqlite alice 10 (codes "op") 1 first_machine).1

durabilizes : durabilize_wal codec sqlite alice 10 (codes "op") 1 first_machine ≡ (ok tt, durable)
unfolding durabilize_wal compact should_write_metadata should_snapshot commit_wal restart_chain
    upload_tail write_manifest put_manifest load_manifest exists read_bytes put_bytes lookup insert
    remove key_eq
durabilizes = refl

-- The manifest that the commit wrote.
abbrev written : DurableManifest
written = manifest_of codec sqlite alice 10 committed.state (some (codes "op")) first_snapshot

restores :
    restore_files codec written committed.world ≡ (ok (1 ∷ 2 ∷ [], 3 ∷ 4 ∷ []), committed.world)
unfolding restore_files restore_snapshot restore_manifest_wal restore_segments read_verified_object
    text_eq commit_wal restart_chain upload_tail write_manifest put_manifest load_manifest exists
    read_bytes put_bytes lookup insert remove key_eq
restores = refl

restore_files_sound_example :
    IsStored codec committed.world.objects (snapshot "p") 2 (1 ∷ 2 ∷ []) (1 ∷ 2 ∷ [])
    × Chain codec committed.world.objects 0 0 committed.state.wal_segments (3 ∷ 4 ∷ [])
    × (2 ≡ committed.state.last_durable_wal_bytes)
unfolding commit_wal restart_chain upload_tail write_manifest put_manifest load_manifest exists
    read_bytes put_bytes lookup insert remove key_eq
restore_files_sound_example =
    restore_files_sound codec sqlite written committed.world committed.world (1 ∷ 2 ∷ [])
      (3 ∷ 4 ∷ []) restores

abbrev compacted : Machine Object Connection
compacted = (persist_snapshot codec sqlite alice 20 (codes "hibernate") committed).1

compacts : persist_snapshot codec sqlite alice 20 (codes "hibernate") committed ≡ (ok tt, compacted)
unfolding persist_snapshot upload_snapshot replace_cache append_change_log delete_all remove_all
    is_wal_of commit_wal restart_chain upload_tail write_manifest put_manifest load_manifest exists
    read_bytes put_bytes lookup insert remove key_eq
compacts = refl

persist_snapshot-IsRecoverable_example :
    IsRecoverable codec sqlite committed.state.project_id compacted.world.objects
      (committed.state.conn.file ++ committed.state.conn.log)
    × IsDurable codec sqlite compacted.state.conn.log compacted.state compacted.world.objects
    × (compacted.state.conn.file ++ compacted.state.conn.log
        ≡ committed.state.conn.file ++ committed.state.conn.log)
    × (compacted.state.generation ≡ committed.state.generation + 1)
persist_snapshot-IsRecoverable_example =
    persist_snapshot-IsRecoverable codec sqlite alice 20 (codes "hibernate") committed compacted tt
      compacts

-- The local copy fails behind the manifest of a snapshot.
abbrev uploaded : Machine Object Connection
uploaded = (upload_snapshot codec sqlite alice 20 (codes "compact") first_machine).1

abbrev stuck : Machine Object Connection
stuck = record uploaded { world = record uploaded.world { faults = lost ∷ [] } }

abbrev emptied : Machine Object Connection
emptied = (replace_cache codec sqlite alice 20 (codes "compact") (1 ∷ 2 ∷ 3 ∷ 4 ∷ []) stuck).1

abbrev overwritten : Machine Object Connection
overwritten = (persist_snapshot codec sqlite alice 20 (codes "hibernate") emptied).1

overwrites :
    persist_snapshot codec sqlite alice 20 (codes "hibernate") emptied ≡ (ok tt, overwritten)
unfolding persist_snapshot upload_snapshot replace_cache append_change_log delete_all remove_all
    is_wal_of put_manifest load_manifest exists read_bytes put_bytes lookup insert remove key_eq
overwrites = refl

failed_replacement_loses_content_example :
    (emptied.state.generation ≡ stuck.state.generation)
    × IsRecoverable codec sqlite stuck.state.project_id overwritten.world.objects []
failed_replacement_loses_content_example =
    failed_replacement_loses_content codec sqlite alice 20 (codes "compact") (codes "hibernate")
      (1 ∷ 2 ∷ 3 ∷ 4 ∷ []) stuck emptied emptied overwritten tt (ground arith) refl refl overwrites

-- Two segments without a manifest, listed in the wrong order.
abbrev legacy : World Object
legacy = record {
  objects =
      (wal_segment "p" 1, bytes_object (5 ∷ []))
      ∷ (wal_segment "p" 0, bytes_object (3 ∷ 4 ∷ []))
      ∷ [];
  faults = [];
}

abbrev legacy_result : List WalSegmentManifest
legacy_result =
    record { id = 0; key = wal_segment "p" 0; offset = 0; len = 2; sha256 = 3 ∷ 4 ∷ [] }
    ∷ record { id = 1; key = wal_segment "p" 1; offset = 2; len = 1; sha256 = 5 ∷ [] }
    ∷ []

restores_legacy :
    restore_legacy_wal_segments codec "p" legacy ≡ (ok (legacy_result, 3 ∷ 4 ∷ 5 ∷ []), legacy)
unfolding restore_legacy_wal_segments restore_legacy placed wal_segment_id list_all select_all
    is_wal_of read_bytes lookup key_eq
restores_legacy = refl
