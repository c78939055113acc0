-- ===== src/Project/Compaction.antt =====
-- `persist_snapshot`: what a new snapshot makes recoverable, and what a failure leaves behind.
use serverless_db.Base.{
  ℕ, ◌+◌, ◌≡◌, ◌≢◌, refl, ap, sym, subst, ◌∙◌, ◌⊎◌, inl, inr, Text, some, List, [], arith, length,
  Option-cases,
}
use serverless_db.Error.{ok}
use serverless_db.Io.{run-cases}
use serverless_db.Store.{
  Key, snapshot_generation, manifest, World, lookup, insert, remove_all, key_eq, put_bytes,
  delete_all, change_log, fault, done, tail,
}
use serverless_db.Store.Laws.{lookup-insert, lookup-remove_all, key_eq_refl}
use serverless_db.Types.{Bytes, Codec, Runtime}
use serverless_db.Project.{Sqlite, ProjectState, Machine, put_manifest, is_wal_of}
use serverless_db.Project.Chain.{IsStored, none_left}
use serverless_db.Project.Durable.{IsDurable, IsRecoverable, wal_of}
use serverless_db.Project.Commit.{put_manifest-ok}
use serverless_db.Project.Writer.{
  snapshot_of, snapshot_manifest_of, upload_snapshot, replace_cache, persist_snapshot,
  append_change_log,
}

module _ (c : Codec) (s : Sqlite) (rt : Runtime) (now : ℕ) where
  open c use {
    change_doc, Doc, raw, bytes, bytes-raw, manifest_doc, as_manifest, as_manifest-manifest_doc,
    sha256,
  }
  open s use {
    Conn, Content, content, wal_file, read, vacuum_into, read-vacuum_into, open_files,
    content-open_files, wal-open_files, placeholder,
  }

  -- The store holds a snapshot of the next generation and its manifest.
  record IsUploaded (st : ProjectState Conn) (reason : Text) (db : Bytes)
      (objects : List (Key × Doc)) : Type 0 where
    stored : lookup (snapshot_generation st.project_id (st.generation + 1)) objects ≡ some (raw db)
    manifested :
        lookup (manifest st.project_id) objects
        ≡ some (
            manifest_doc (snapshot_manifest_of c s rt now st reason (snapshot_of c s rt now st db)))

  IsUploaded-IsStored :
      (st : ProjectState Conn) (reason : Text) (db : Bytes) (objects : List (Key × Doc))
      → IsUploaded st reason db objects
      → IsStored c objects
          (snapshot_generation st.project_id (st.generation + 1))
          (length db)
          (sha256 db)
          db
  IsUploaded-IsStored st reason db objects h = record {
    doc = raw db;
    found = h.stored;
    content = bytes-raw db;
    size = refl;
    checksum = refl;
  }

  IsUploaded-IsRecoverable :
      (st : ProjectState Conn) (reason : Text) (db : Bytes) (objects : List (Key × Doc))
      → IsUploaded st reason db objects
      → read db [] ≡ content st.conn
      → IsRecoverable c s st.project_id objects (content st.conn)
  IsUploaded-IsRecoverable st reason db objects h e = record {
    man = snapshot_manifest_of c s rt now st reason (snapshot_of c s rt now st db);
    doc = manifest_doc (snapshot_manifest_of c s rt now st reason (snapshot_of c s rt now st db));
    stored = h.manifested;
    parsed = as_manifest-manifest_doc _;
    version = refl;
    project = refl;
    db = db;
    snap_stored = IsUploaded-IsStored st reason db objects h;
    first = 0;
    wal = [];
    chain = none_left;
    total = refl;
    reads = e;
  }

  upload_snapshot-outcome :
      (reason : Text) (db : Bytes) (x y : Machine Doc Conn)
      → upload_snapshot c s rt now reason x ≡ (ok db, y)
      → (y.state ≡ x.state)
        × (vacuum_into x.state.conn ≡ some db)
        × IsUploaded x.state reason db y.world.objects
  unfolding upload_snapshot put_bytes
  upload_snapshot-outcome reason db x y h = elim (Option-cases (vacuum_into x.state.conn)) [
    | inl e ↦ absurd (ground arith)
    | inr (b, e) ↦
        let m = snapshot_manifest_of c s rt now x.state reason (snapshot_of c s rt now x.state b) in
        let v : World Doc = record {
          objects =
              insert (snapshot_generation x.state.project_id (x.state.generation + 1)) (raw b)
                x.world.objects;
          faults = tail (tail (tail x.world.faults));
        } in
        elim (run-cases (put_manifest c m v)) [
          | inr (f, w, q) ↦ absurd (ground arith)
          | inl (u, w, q) ↦
              let same : b ≡ db = ground arith in
              (
                ground arith,
                e ∙ ap some same,
                subst (λ z. IsUploaded x.state reason z y.world.objects) same
                    (subst (λ o. IsUploaded x.state reason b o)
                      (put_sym v w y (put_manifest-ok c s rt now m v w u q) (ground arith))
                      (record {
                        stored =
                            rw
                              (
                                lookup-insert,
                                lookup-insert,
                                key_eq_refl (
                                    snapshot_generation x.state.project_id
                                      (x.state.generation + 1)),
                              )
                              (unfold key_eq in refl);
                        manifested =
                            rw (lookup-insert, key_eq_refl (manifest x.state.project_id)) refl;
                      })),
              )
        ]
  ]
    where
      put_sym :
          {o : List (Key × Doc)} (v w : World Doc) (y : Machine Doc Conn)
          → w.objects ≡ o
          → y.world ≡ w
          → o ≡ y.world.objects
      put_sym v w y e q = sym e ∙ ap (λ (r : World Doc). r.objects) (sym q)

  -- Removing the WAL and writing the change log leave what was uploaded.
  kept-IsUploaded :
      (st : ProjectState Conn) (reason : Text) (db : Bytes) (objects : List (Key × Doc)) (n m : ℕ)
      (t : Text) (d : Doc)
      → IsUploaded st reason db objects
      → IsUploaded st reason db
          (insert (change_log st.project_id n m t) d (remove_all (is_wal_of st.project_id) objects))
  unfolding is_wal_of key_eq
  kept-IsUploaded st reason db objects n m t d h = record {
    stored = rw (lookup-insert, lookup-remove_all) h.stored;
    manifested = rw (lookup-insert, lookup-remove_all) h.manifested;
  }

  gone-IsUploaded :
      (st : ProjectState Conn) (reason : Text) (db : Bytes) (objects : List (Key × Doc)) (n m : ℕ)
      (t : Text) (d : Doc)
      → IsUploaded st reason db objects
      → IsUploaded st reason db (insert (change_log st.project_id n m t) d objects)
  unfolding key_eq
  gone-IsUploaded st reason db objects n m t d h = record {
    stored = rw lookup-insert h.stored;
    manifested = rw lookup-insert h.manifested;
  }

  -- The state behind a new snapshot.
  abbrev fresh : ProjectState Conn → Bytes → Conn → ProjectState Conn
  fresh st db conn = record st {
    conn = conn;
    generation = st.generation + 1;
    current_snapshot = some (snapshot_of c s rt now st db);
    wal_segments = [];
    last_durable_wal_bytes = 0;
    next_wal_segment_id = 0;
    ops_since_snapshot = 0;
    last_snapshot_at_ms = now;
  }

  replace_cache-outcome :
      (reason reason' : Text) (db : Bytes) (x y : Machine Doc Conn) (u : Unit {0})
      → IsUploaded x.state reason' db x.world.objects
      → replace_cache c s rt now reason db x ≡ (ok u, y)
      → (conn : Conn) × (open_files db [] ≡ some conn)
        × (y.state ≡ fresh x.state db conn)
        × IsUploaded x.state reason' db y.world.objects
  unfolding replace_cache append_change_log delete_all put_bytes
  replace_cache-outcome reason reason' db x y u h r = elim (Option-cases (open_files db [])) [
    | inl e ↦ absurd (ground arith)
    | inr (conn, e) ↦ (
      conn,
      e,
      ground arith,
      elim (objects_after conn e) [
        | inl o ↦
            subst (IsUploaded x.state reason' db) (sym o) (
              kept-IsUploaded x.state reason' db x.world.objects now 0 reason (change_doc reason) h)
        | inr o ↦
            subst (IsUploaded x.state reason' db) (sym o) (
              gone-IsUploaded x.state reason' db x.world.objects now 0 reason (change_doc reason) h)
      ],
    )
  ]
    where
      objects_after :
          (conn : Conn)
          → open_files db [] ≡ some conn
          → (y.world.objects
              ≡ insert
                  (change_log x.state.project_id now 0 reason)
                  (change_doc reason)
                  (remove_all (is_wal_of x.state.project_id) x.world.objects))
            ⊎ (y.world.objects
                ≡ insert
                    (change_log x.state.project_id now 0 reason)
                    (change_doc reason)
                    x.world.objects)
      objects_after conn e = ground arith

  fresh-IsDurable :
      (st : ProjectState Conn) (reason : Text) (db : Bytes) (conn : Conn)
      (objects : List (Key × Doc))
      → IsUploaded st reason db objects
      → open_files db [] ≡ some conn
      → IsDurable c s (wal_of c s (fresh st db conn)) (fresh st db conn) objects
  fresh-IsDurable st reason db conn objects h e = record {
    snap = snapshot_of c s rt now st db;
    current = refl;
    db = db;
    snap_key = inr refl;
    snap_stored = IsUploaded-IsStored st reason db objects h;
    first = 0;
    wal = [];
    chain = none_left;
    keyed = tt;
    next = refl;
    last = refl;
    covers = refl;
    reads = wal-open_files db conn e;
  }

  failed_replacement :
      (reason : Text) (db : Bytes) (x : Machine Doc Conn)
      → fault x.world.faults ≢ done
      → ((replace_cache c s rt now reason db x).1.state.conn ≡ placeholder)
        × ((replace_cache c s rt now reason db x).1.state.project_id ≡ x.state.project_id)
        × ((replace_cache c s rt now reason db x).1.state.generation ≡ x.state.generation)
  unfolding replace_cache
  failed_replacement reason db x f = ground arith

  -- A snapshot that was persisted makes recoverable what the connection held, whatever the store held
  -- before, and the new state satisfies the writer's invariant.
  pub persist_snapshot-IsRecoverable :
      (reason : Text) (x y : Machine Doc Conn) (u : Unit {0})
      → persist_snapshot c s rt now reason x ≡ (ok u, y)
      → IsRecoverable c s x.state.project_id y.world.objects (content x.state.conn)
        × IsDurable c s (wal_of c s y.state) y.state y.world.objects
        × (content y.state.conn ≡ content x.state.conn)
        × (y.state.generation ≡ x.state.generation + 1)
  unfolding persist_snapshot
  persist_snapshot-IsRecoverable reason x y u h =
      elim (run-cases (upload_snapshot c s rt now reason x)) [
        | inr (f, z, q) ↦ absurd (ground arith)
        | inl (db, z, q) ↦
            let (es, ev, up) = upload_snapshot-outcome reason db x z q in
            let up' : IsUploaded z.state reason db z.world.objects =
              subst (λ t. IsUploaded t reason db z.world.objects) (sym es) up in
            let (conn, eo, ey, kept) =
              replace_cache-outcome reason reason db z y u up' (ground arith) in
            let before : read db [] ≡ content z.state.conn =
              read-vacuum_into x.state.conn db ev
              ∙ ap (λ (t : ProjectState Conn). content t.conn) (sym es) in
            (
              subst (λ t. IsRecoverable c s t.project_id y.world.objects (content t.conn)) es
                  (IsUploaded-IsRecoverable z.state reason db y.world.objects kept before),
              subst (λ t. IsDurable c s (wal_of c s t) t y.world.objects) (sym ey)
                  (fresh-IsDurable z.state reason db conn y.world.objects kept eo),
              ap (λ (t : ProjectState Conn). content t.conn) ey
                  ∙ content-open_files db [] conn eo
                  ∙ read-vacuum_into x.state.conn db ev,
              ap (λ (t : ProjectState Conn). t.generation) ey
                  ∙ ap (λ (t : ProjectState Conn). t.generation + 1) es,
            )
      ]

  -- A writer that could not replace its local file after the new manifest was written goes on with an
  -- empty connection in memory, at the old generation. A later `persist_snapshot` of that state that
  -- succeeds (as in `hibernate`) replaces the project's content by that connection's.
  pub failed_replacement_loses_content :
      (reason reason' : Text) (db : Bytes) (x y z z' : Machine Doc Conn) (u : Unit {0})
      → fault x.world.faults ≢ done
      → (replace_cache c s rt now reason db x).1 ≡ y
      → z.state ≡ y.state
      → persist_snapshot c s rt now reason' z ≡ (ok u, z')
      → (y.state.generation ≡ x.state.generation)
        × IsRecoverable c s x.state.project_id z'.world.objects (content placeholder)
  failed_replacement_loses_content reason reason' db x y z z' u f r same h =
      let (ec, ep, eg) = failed_replacement reason db x f in
      let to_y : z.state ≡ (replace_cache c s rt now reason db x).1.state =
        same ∙ ap (λ (m : Machine Doc Conn). m.state) (sym r) in
      let conn : z.state.conn ≡ placeholder = ap (λ (t : ProjectState Conn). t.conn) to_y ∙ ec in
      let pid : z.state.project_id ≡ x.state.project_id =
        ap (λ (t : ProjectState Conn). t.project_id) to_y ∙ ep in
      (
        ap (λ (m : Machine Doc Conn). m.state.generation) (sym r) ∙ eg,
        subst (λ p. IsRecoverable c s p z'.world.objects (content placeholder)) pid
            (subst (λ v. IsRecoverable c s z.state.project_id z'.world.objects (content v)) conn
              (persist_snapshot-IsRecoverable reason' z z' u h).0),
      )
