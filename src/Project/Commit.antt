-- ===== src/Project/Commit.antt =====
-- `durabilize_wal` makes what it acknowledges recoverable.
use serverless_db.Base.{
  ℕ, ◌+◌, ◌≡◌, refl, ap, sym, subst, ◌∙◌, ◌⊎◌, inl, inr, Text, false, Option, some, List, [], ◌∷◌,
  ◌++◌, arith, if◌then◌else◌, length, length-append, drop, leb, saturating_add, Option-cases,
}
use mathlib.Core.List.{append-nil}
use serverless_db.Error.{ok}
use serverless_db.Io.{run-cases}
use serverless_db.Store.{
  Key, snapshot, snapshot_generation, manifest, wal_segment, World, insert, key_eq, put_bytes,
  exists, read_bytes,
}
use serverless_db.Store.Laws.{lookup-insert, key_eq_refl}
use serverless_db.Types.{Bytes, Codec, Runtime, SnapshotManifest, DurableManifest}
use serverless_db.Project.{Sqlite, ProjectState, Machine, load_manifest, put_manifest}
use serverless_db.Project.Durable.{
  IsDurable, IsRecoverable, Keyed-append, Apart-manifest, IsStored-insert, Chain-insert,
  Chain-Apart, Chain-append, wal_of,
}
use serverless_db.Project.Writer.{
  push_segment, segment_of, restart_chain, upload_tail, upload_wal, write_manifest, manifest_of,
  commit_wal,
}

drop-append : (xs ys : Bytes) → drop (length xs) (xs ++ ys) ≡ ys
drop-append [] ys = refl
drop-append (x ∷ xs) ys = drop-append xs ys

module _ (c : Codec) (s : Sqlite) (rt : Runtime) (now : ℕ) where
  open c use {
    Doc, raw, bytes, bytes-raw, manifest_doc, as_manifest, as_manifest-manifest_doc, sha256,
  }
  open s use {Conn, Content, content, wal_file, read}

  -- A segment that is written where the next one belongs is part of the chain.
  push_segment-IsDurable :
      (rest : Bytes) (st : ProjectState Conn) (objects : List (Key × Doc))
      → IsDurable c s rest st objects
      → IsDurable c s []
          (record (push_segment c s rt now rest st) {
            last_durable_wal_bytes = length (wal_of c s st);
          })
          (insert (wal_segment st.project_id st.next_wal_segment_id) (raw rest) objects)
  push_segment-IsDurable rest st objects h = record {
    snap = h.snap;
    current = h.current;
    db = h.db;
    snap_key = h.snap_key;
    snap_stored =
        IsStored-insert c objects _ h.snap.key (raw rest) h.snap.bytes h.snap.sha256 h.db
          (apart h.snap_key) h.snap_stored;
    first = h.first;
    wal = h.wal ++ rest;
    chain =
        Chain-append c (segment_of c s rt now st rest) rest
          (Chain-insert c (wal_segment st.project_id st.next_wal_segment_id) (raw rest) h.chain (
            Chain-Apart c st.project_id st.next_wal_segment_id h.chain h.keyed
              (omega (arith, h.next))))
          h.next (omega (arith, h.last))
          (record {
            doc = raw rest;
            found =
                rw (lookup-insert, key_eq_refl (wal_segment st.project_id st.next_wal_segment_id))
                  refl;
            content = bytes-raw rest;
            size = refl;
            checksum = refl;
          });
    keyed = Keyed-append st.project_id st.wal_segments (segment_of c s rt now st rest) h.keyed refl;
    next =
        omega (arith, h.next, length-append st.wal_segments (segment_of c s rt now st rest ∷ []));
    last = ap length h.covers;
    covers = h.covers ∙ sym (append-nil (h.wal ++ rest));
    reads = h.reads;
  }
    where
      apart :
          (h.snap.key ≡ snapshot st.project_id)
            ⊎ (h.snap.key ≡ snapshot_generation st.project_id st.generation)
          → key_eq (wal_segment st.project_id st.next_wal_segment_id) h.snap.key ≡ false
      apart (inl e) = rw e (unfold key_eq in refl)
      apart (inr e) = rw e (unfold key_eq in refl)

  -- With nothing left to upload, the state is durable up to the end of the WAL.
  nothing_left-IsDurable :
      (st : ProjectState Conn) (objects : List (Key × Doc)) (rest : Bytes)
      → rest ≡ []
      → IsDurable c s rest st objects
      → IsDurable c s [] (record st { last_durable_wal_bytes = length (wal_of c s st) }) objects
  nothing_left-IsDurable st objects rest e h = record {
    snap = h.snap;
    current = h.current;
    db = h.db;
    snap_key = h.snap_key;
    snap_stored = h.snap_stored;
    first = h.first;
    wal = h.wal;
    chain = h.chain;
    keyed = h.keyed;
    next = h.next;
    last = rw (h.covers, e, append-nil h.wal) refl;
    covers = rw (← e) h.covers;
    reads = h.reads;
  }

  -- What the upload of the WAL leaves alone.
  pub record Kept (st t : ProjectState Conn) : Type 0 where
    pub conn : t.conn ≡ st.conn
    pub project_id : t.project_id ≡ st.project_id
    pub commit_seq : t.commit_seq ≡ st.commit_seq
    pub generation : t.generation ≡ st.generation

  -- The same state and objects, in other words.
  moved :
      (st : ProjectState Conn) (objects : List (Key × Doc)) (x y : Machine Doc Conn)
      → IsDurable c s [] st objects
      → y.state ≡ st
      → y.world.objects ≡ objects
      → Kept x.state st
      → IsDurable c s [] y.state y.world.objects × Kept x.state y.state
  moved st objects x y h es eo k = (
    subst (λ o. IsDurable c s [] y.state o) (sym eo)
        (subst (λ t. IsDurable c s [] t objects) (sym es) h),
    record {
      conn = ap (λ (t : ProjectState Conn). t.conn) es ∙ k.conn;
      project_id = ap (λ (t : ProjectState Conn). t.project_id) es ∙ k.project_id;
      commit_seq = ap (λ (t : ProjectState Conn). t.commit_seq) es ∙ k.commit_seq;
      generation = ap (λ (t : ProjectState Conn). t.generation) es ∙ k.generation;
    },
  )

  pub drop_covered :
      (rest : Bytes) (x : Machine Doc Conn) (full : Bytes)
      (h : IsDurable c s rest x.state x.world.objects)
      → wal_file x.state.conn ≡ some full
      → (drop x.state.last_durable_wal_bytes full ≡ rest)
        × (length full ≡ x.state.last_durable_wal_bytes + length rest)
  drop_covered rest x full h e =
      let covers : full ≡ h.wal ++ rest = ground (arith, h.covers) in
      (
        rw (h.last, covers) (drop-append h.wal rest),
        ground (arith, ap length covers, length-append h.wal rest, h.last),
      )

  -- Uploading the WAL leaves a state that is durable to its end.
  pub upload_wal-IsDurable :
      (rest : Bytes) (x y : Machine Doc Conn) (u : Unit {0})
      → IsDurable c s rest x.state x.world.objects
      → upload_wal c s rt now (wal_file x.state.conn) x ≡ (ok u, y)
      → IsDurable c s [] y.state y.world.objects × Kept x.state y.state
  unfolding restart_chain upload_tail put_bytes
  upload_wal-IsDurable [] x y u h r =
      moved (record x.state { last_durable_wal_bytes = length (wal_of c s x.state) })
        x.world.objects x y (nothing_left-IsDurable x.state x.world.objects [] refl h)
        (elim (Option-cases (wal_file x.state.conn)) [
          | inl e ↦ ground (arith, h.last, ap length h.covers, length-append h.wal [])
          | inr (full, e) ↦ ground (arith, drop_covered [] x full h e)
        ])
        (elim (Option-cases (wal_file x.state.conn)) [
          | inl e ↦ ground arith
          | inr (full, e) ↦ ground (arith, drop_covered [] x full h e)
        ])
        (record { conn = refl; project_id = refl; commit_seq = refl; generation = refl })
  upload_wal-IsDurable (b ∷ bs) x y u h r =
      moved
        (record (push_segment c s rt now (b ∷ bs) x.state) {
          last_durable_wal_bytes = length (wal_of c s x.state);
        })
        (insert (wal_segment x.state.project_id x.state.next_wal_segment_id) (raw (b ∷ bs))
          x.world.objects)
        x y (push_segment-IsDurable (b ∷ bs) x.state x.world.objects h)
        (elim (Option-cases (wal_file x.state.conn)) [
          | inl e ↦ absurd (ground (arith, ap length h.covers, length-append h.wal (b ∷ bs)))
          | inr (full, e) ↦ ground (arith, drop_covered (b ∷ bs) x full h e)
        ])
        (elim (Option-cases (wal_file x.state.conn)) [
          | inl e ↦ absurd (ground (arith, ap length h.covers, length-append h.wal (b ∷ bs)))
          | inr (full, e) ↦ ground (arith, drop_covered (b ∷ bs) x full h e)
        ])
        (record { conn = refl; project_id = refl; commit_seq = refl; generation = refl })

  pub put_manifest-ok :
      (m : DurableManifest) (w w' : World Doc) (u : Unit {0})
      → put_manifest c m w ≡ (ok u, w')
      → w'.objects ≡ insert (manifest m.project_id) (manifest_doc m) w.objects
  unfolding put_manifest load_manifest exists read_bytes put_bytes
  put_manifest-ok m w w' u h = ground arith

  apart_manifest :
      (st : ProjectState Conn) (k : Key)
      → (k ≡ snapshot st.project_id) ⊎ (k ≡ snapshot_generation st.project_id st.generation)
      → key_eq (manifest st.project_id) k ≡ false
  apart_manifest st k (inl e) = rw e (unfold key_eq in refl)
  apart_manifest st k (inr e) = rw e (unfold key_eq in refl)

  -- The manifest of a durable state makes the content of its connection recoverable.
  pub manifest-IsRecoverable :
      (st : ProjectState Conn) (objects : List (Key × Doc)) (reason : Option Text)
      (h : IsDurable c s [] st objects)
      → IsRecoverable c s st.project_id
          (insert
            (manifest st.project_id)
            (manifest_doc (manifest_of c s rt now st reason h.snap))
            objects)
          (content st.conn)
  manifest-IsRecoverable st objects reason h = record {
    man = manifest_of c s rt now st reason h.snap;
    doc = manifest_doc (manifest_of c s rt now st reason h.snap);
    stored = rw (lookup-insert, key_eq_refl (manifest st.project_id)) refl;
    parsed = as_manifest-manifest_doc _;
    version = refl;
    project = refl;
    db = h.db;
    snap_stored =
        IsStored-insert c objects _ h.snap.key _ _ _ h.db (apart_manifest st h.snap.key h.snap_key)
          h.snap_stored;
    first = h.first;
    wal = h.wal;
    chain =
        Chain-insert c (manifest st.project_id) _ h.chain
          (Apart-manifest st.project_id st.wal_segments h.keyed);
    total = h.last;
    reads = rw (← append-nil h.wal, ← h.covers) h.reads;
  }

  -- Writing a manifest keeps the state durable.
  pub manifest-IsDurable :
      (rest : Bytes) (st : ProjectState Conn) (objects : List (Key × Doc)) (d : Doc)
      → IsDurable c s rest st objects
      → IsDurable c s rest st (insert (manifest st.project_id) d objects)
  manifest-IsDurable rest st objects d h = record {
    snap = h.snap;
    current = h.current;
    db = h.db;
    snap_key = h.snap_key;
    first = h.first;
    wal = h.wal;
    keyed = h.keyed;
    next = h.next;
    last = h.last;
    covers = h.covers;
    reads = h.reads;
    snap_stored =
        IsStored-insert c objects _ h.snap.key d _ _ h.db (apart_manifest st h.snap.key h.snap_key)
          h.snap_stored;
    chain =
        Chain-insert c (manifest st.project_id) d h.chain
          (Apart-manifest st.project_id st.wal_segments h.keyed);
  }

  -- The new count of a batch.
  abbrev pub counted : ℕ → ProjectState Conn → ProjectState Conn
  counted n st = record st {
    ops_since_snapshot = st.ops_since_snapshot + (if leb 1 n then n else 1);
    commit_seq = saturating_add st.commit_seq 1;
  }

  pub counted-IsDurable :
      (n : ℕ) (st : ProjectState Conn) (objects : List (Key × Doc))
      → IsDurable c s [] st objects
      → IsDurable c s [] (counted n st) objects
  counted-IsDurable n st objects h = record {
    snap = h.snap;
    current = h.current;
    db = h.db;
    snap_key = h.snap_key;
    snap_stored = h.snap_stored;
    first = h.first;
    wal = h.wal;
    chain = h.chain;
    keyed = h.keyed;
    next = h.next;
    last = h.last;
    covers = h.covers;
    reads = h.reads;
  }

  write_manifest-outcome :
      (reason : Text) (x y : Machine Doc Conn) (u : Unit {0}) (snap : SnapshotManifest)
      → x.state.current_snapshot ≡ some snap
      → write_manifest c s rt now (some reason) x ≡ (ok u, y)
      → (y.state ≡ x.state)
        × (y.world.objects
            ≡ insert
                (manifest x.state.project_id)
                (manifest_doc (manifest_of c s rt now x.state (some reason) snap))
                x.world.objects)
  unfolding write_manifest
  write_manifest-outcome reason x y u snap e h =
      elim (run-cases
        (put_manifest c (manifest_of c s rt now x.state (some reason) snap) x.world)) [
          | inl (a, w, r) ↦ (
            ground arith,
            ground (
              arith,
              put_manifest-ok (manifest_of c s rt now x.state (some reason) snap) x.world w a r,
            ),
          )
          | inr (x', w, r) ↦ absurd (ground arith)
        ]

  -- A batch whose `durabilize_wal` has written its manifest is recoverable: recovery gives the content
  -- that the connection had when the call began. The sequence number went up by one, and the
  -- invariant holds again, with nothing left to upload.
  pub commit_wal-IsRecoverable :
      (rest : Bytes) (reason : Text) (n : ℕ) (x y : Machine Doc Conn) (u : Unit {0})
      → IsDurable c s rest x.state x.world.objects
      → commit_wal c s rt now reason n x ≡ (ok u, y)
      → IsRecoverable c s x.state.project_id y.world.objects (content x.state.conn)
        × IsDurable c s [] y.state y.world.objects
        × (y.state.conn ≡ x.state.conn)
        × (y.state.commit_seq ≡ saturating_add x.state.commit_seq 1)
  unfolding commit_wal
  commit_wal-IsRecoverable rest reason n x y u h r =
      elim (run-cases (upload_wal c s rt now (wal_file x.state.conn) x)) [
        | inr (e, z, q) ↦ absurd (ground arith)
        | inl (a, z, q) ↦
            let (d, k) = upload_wal-IsDurable rest x z a h q in
            let z' : Machine Doc Conn = record z { state = counted n z.state } in
            let d' : IsDurable c s [] z'.state z'.world.objects =
              counted-IsDurable n z.state z.world.objects d in
            let written : List (Key × Doc) =
              insert (manifest z.state.project_id)
                (manifest_doc (manifest_of c s rt now z'.state (some reason) d'.snap))
                z'.world.objects in
            let wrote : write_manifest c s rt now (some reason) z' ≡ (ok u, y) = ground arith in
            let (es, eo) = write_manifest-outcome reason z' y u d'.snap d'.current wrote in
            (
              subst (λ o. IsRecoverable c s x.state.project_id o (content x.state.conn)) (sym eo)
                  (subst (λ p. IsRecoverable c s p written (content x.state.conn)) k.project_id
                    (subst (λ v. IsRecoverable c s z.state.project_id written (content v)) k.conn
                      (manifest-IsRecoverable z'.state z'.world.objects (some reason) d'))),
              subst (λ o. IsDurable c s [] y.state o) (sym eo)
                  (subst (λ t. IsDurable c s [] t written) (sym es)
                    (manifest-IsDurable [] z'.state z'.world.objects _ d')),
              ap (λ (t : ProjectState Conn). t.conn) es ∙ k.conn,
              ground (arith, ap (λ (t : ProjectState Conn). t.commit_seq) es, k.commit_seq),
            )
      ]
