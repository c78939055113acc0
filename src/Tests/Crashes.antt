-- ===== src/Tests/Crashes.antt =====
-- A flush that is cut off, at a concrete input.
use serverless_db.Base.{◌≡◌, refl, inl, ◌⊎◌, codes, none, [], ◌∷◌}
use serverless_db.Store.{manifest, snapshot, done, unacknowledged, lookup, key_eq}
use serverless_db.Types.{DurableManifest}
use serverless_db.Error.{ok}
use serverless_db.Store.{World}
use serverless_db.Project.{Machine, ProjectState}
use serverless_db.Project.Opening.{ensure_project, ensure_project_complete}
use serverless_db.Project.Chain.{IsStored, none_left}
use serverless_db.Project.Durable.{IsDurable, IsRecoverable}
use serverless_db.Project.Crash.{IsPublished, commit_wal_crash}
use serverless_db.Project.Writer.{commit_wal, manifest_of}
use serverless_db.Tests.Samples.{
  codec, sqlite, alice, first_machine, first_snapshot, Object, bytes_object, manifest_object,
  connection, Connection,
}

-- The manifest of the snapshot alone.
abbrev old_manifest : DurableManifest
old_manifest = manifest_of codec sqlite alice 5 first_machine.state none first_snapshot

-- The flush fails at the manifest, though the manifest is written.
abbrev begun : Machine Object Connection
begun = record first_machine {
  world = record {
    objects =
        (manifest "p", manifest_object old_manifest)
        ∷ (snapshot "p", bytes_object (1 ∷ 2 ∷ []))
        ∷ [];
    faults = done ∷ done ∷ done ∷ done ∷ done ∷ unacknowledged ∷ [];
  };
}

snapshot-IsStored :
    IsStored codec begun.world.objects first_snapshot.key first_snapshot.bytes first_snapshot.sha256
      (1 ∷ 2 ∷ [])
unfolding lookup key_eq
snapshot-IsStored = record {
  doc = bytes_object (1 ∷ 2 ∷ []);
  found = refl;
  content = refl;
  size = refl;
  checksum = refl;
}

begun-IsDurable : IsDurable codec sqlite (3 ∷ 4 ∷ []) begun.state begun.world.objects
unfolding lookup key_eq
begun-IsDurable = record {
  snap = first_snapshot;
  current = refl;
  db = 1 ∷ 2 ∷ [];
  snap_key = inl refl;
  snap_stored = snapshot-IsStored;
  first = 0;
  wal = [];
  chain = none_left;
  keyed = tt;
  next = refl;
  last = refl;
  covers = refl;
  reads = refl;
}

begun-IsPublished : IsPublished codec sqlite alice 10 begun.state begun.world.objects (1 ∷ 2 ∷ [])
unfolding lookup key_eq
begun-IsPublished = record {
  recoverable = record {
    man = old_manifest;
    doc = manifest_object old_manifest;
    stored = refl;
    parsed = refl;
    version = refl;
    project = refl;
    db = 1 ∷ 2 ∷ [];
    snap_stored = snapshot-IsStored;
    first = 0;
    wal = [];
    chain = none_left;
    total = refl;
    reads = refl;
  };
  unlisted = tt;
  snapshot_apart = refl;
}

commit_wal_crash_example :
    IsRecoverable codec sqlite "p"
      (commit_wal codec sqlite alice 10 (codes "op") 1 begun).1.world.objects
      (1 ∷ 2 ∷ [])
    ⊎ IsRecoverable codec sqlite "p"
        (commit_wal codec sqlite alice 10 (codes "op") 1 begun).1.world.objects
        (1 ∷ 2 ∷ 3 ∷ 4 ∷ [])
commit_wal_crash_example =
    commit_wal_crash codec sqlite alice 10 (3 ∷ 4 ∷ []) (codes "op") 1 begun (1 ∷ 2 ∷ [])
      begun-IsDurable begun-IsPublished

ensure_project_complete_example :
    (st : ProjectState Connection) × (w : World Object) × (ensure_project codec sqlite alice 20 "p"
        ([], [])
        (record { objects = begun.world.objects; faults = [] })
      ≡ (ok st, w))
    × (sqlite.content st.conn ≡ 1 ∷ 2 ∷ [])
    × (st.generation ≡ begun-IsPublished.recoverable.man.generation)
    × (st.wal_segments ≡ begun-IsPublished.recoverable.man.wal.segments)
ensure_project_complete_example =
    ensure_project_complete codec sqlite alice 20 "p" ([], []) begun.world.objects (1 ∷ 2 ∷ [])
      begun-IsPublished.recoverable
      (connection begun-IsPublished.recoverable.db begun-IsPublished.recoverable.wal) refl
