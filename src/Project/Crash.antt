-- ===== src/Project/Crash.antt =====
-- What recovery finds when a flush is cut off.
use serverless_db.Base.{
  ℕ, String, ◌≡◌, ap, sym, subst, ◌∙◌, ◌⊎◌, inl, inr, Text, false, some, List, [], ◌∷◌, arith,
  Option-cases,
}
use serverless_db.Io.{run-cases}
use serverless_db.Store.{
  Key, manifest, wal_segment, World, insert, key_eq, put_bytes, exists, read_bytes,
}
use serverless_db.Store.Laws.{lookup-insert}
use serverless_db.Types.{Bytes, Codec, Runtime, DurableManifest}
use serverless_db.Project.{Sqlite, ProjectState, Machine, load_manifest, put_manifest}
use serverless_db.Project.Durable.{IsDurable, IsRecoverable, IsStored-insert, Chain-insert, Apart}
use serverless_db.Project.Commit.{
  drop_covered, upload_wal-IsDurable, counted, counted-IsDurable, manifest-IsRecoverable,
}
use serverless_db.Project.Writer.{
  upload_wal, restart_chain, upload_tail, write_manifest, manifest_of, commit_wal,
}

module _ (c : Codec) (s : Sqlite) (rt : Runtime) (now : ℕ) where
  open c use {Doc, raw, manifest_doc}
  open s use {Conn, Content, content, wal_file}

  -- Recovery gives the content from a manifest that does not list the segment which comes next.
  pub record IsPublished (st : ProjectState Conn) (objects : List (Key × Doc)) (v : Content)
      : Type 0 where
    pub recoverable : IsRecoverable c s st.project_id objects v
    pub unlisted :
        Apart (wal_segment st.project_id st.next_wal_segment_id) recoverable.man.wal.segments
    pub snapshot_apart :
        key_eq (wal_segment st.project_id st.next_wal_segment_id) recoverable.man.snapshot.key
        ≡ false

  -- The next segment may be written: the manifest that is there does not look at it.
  with_segment-IsRecoverable :
      (st : ProjectState Conn) (objects : List (Key × Doc)) (v : Content) (d : Doc)
      → IsPublished st objects v
      → IsRecoverable c s st.project_id
          (insert (wal_segment st.project_id st.next_wal_segment_id) d objects)
          v
  unfolding key_eq
  with_segment-IsRecoverable st objects v d p =
      let k = wal_segment st.project_id st.next_wal_segment_id in
      let h = p.recoverable in
      record {
        man = h.man;
        doc = h.doc;
        stored = rw lookup-insert h.stored;
        parsed = h.parsed;
        version = h.version;
        project = h.project;
        db = h.db;
        snap_stored =
            IsStored-insert c objects k h.man.snapshot.key d _ _ h.db p.snapshot_apart
              h.snap_stored;
        first = h.first;
        wal = h.wal;
        chain = Chain-insert c k d h.chain p.unlisted;
        total = h.total;
        reads = h.reads;
      }

  -- However the upload of the WAL ends, it leaves the objects as they were, or with the next segment.
  upload_wal-objects :
      (rest : Bytes) (x : Machine Doc Conn)
      → IsDurable c s rest x.state x.world.objects
      → ((upload_wal c s rt now (wal_file x.state.conn) x).1.world.objects ≡ x.world.objects)
        ⊎ ((upload_wal c s rt now (wal_file x.state.conn) x).1.world.objects
            ≡ insert
                (wal_segment x.state.project_id x.state.next_wal_segment_id)
                (raw rest)
                x.world.objects)
  unfolding restart_chain upload_tail put_bytes
  upload_wal-objects [] x h = elim (Option-cases (wal_file x.state.conn)) [
    | inl e ↦ ground (arith, e)
    | inr (full, e) ↦ ground (arith, e, drop_covered c s rt now [] x full h e)
  ]
  upload_wal-objects (b ∷ bs) x h = elim (Option-cases (wal_file x.state.conn)) [
    | inl e ↦ ground (arith, e)
    | inr (full, e) ↦ ground (arith, e, drop_covered c s rt now (b ∷ bs) x full h e)
  ]

  put_manifest-objects :
      (m : DurableManifest) (w : World Doc)
      → ((put_manifest c m w).1.objects ≡ w.objects)
        ⊎ ((put_manifest c m w).1.objects
            ≡ insert (manifest m.project_id) (manifest_doc m) w.objects)
  unfolding put_manifest load_manifest exists read_bytes put_bytes
  put_manifest-objects m w = ground arith

  write_manifest-objects :
      (reason : Text) (x : Machine Doc Conn) (h : IsDurable c s [] x.state x.world.objects)
      → ((write_manifest c s rt now (some reason) x).1.world.objects ≡ x.world.objects)
        ⊎ ((write_manifest c s rt now (some reason) x).1.world.objects
            ≡ insert
                (manifest x.state.project_id)
                (manifest_doc (manifest_of c s rt now x.state (some reason) h.snap))
                x.world.objects)
  unfolding write_manifest
  write_manifest-objects reason x h =
      let m = manifest_of c s rt now x.state (some reason) h.snap in
      elim (run-cases (put_manifest c m x.world)) [
        | inl (u, w, q) ↦ elim (put_manifest-objects m x.world) [
          | inl o ↦ inl (ground (arith, h.current, q, o))
          | inr o ↦ inr (ground (arith, h.current, q, o))
        ]
        | inr (e, w, q) ↦ elim (put_manifest-objects m x.world) [
          | inl o ↦ inl (ground (arith, h.current, q, o))
          | inr o ↦ inr (ground (arith, h.current, q, o))
        ]
      ]

  -- Behind the upload, recovery still gives what it gave.
  uploaded-IsRecoverable :
      (rest : Bytes) (v : Content) (x z : Machine Doc Conn)
      → IsDurable c s rest x.state x.world.objects
      → IsPublished x.state x.world.objects v
      → (upload_wal c s rt now (wal_file x.state.conn) x).1 ≡ z
      → IsRecoverable c s x.state.project_id z.world.objects v
  uploaded-IsRecoverable rest v x z h p q =
      subst (λ (y : Machine Doc Conn). IsRecoverable c s x.state.project_id y.world.objects v) q
        (elim (upload_wal-objects rest x h) [
          | inl o ↦ subst (λ m. IsRecoverable c s x.state.project_id m v) (sym o) p.recoverable
          | inr o ↦
              subst (λ m. IsRecoverable c s x.state.project_id m v) (sym o)
                (with_segment-IsRecoverable x.state x.world.objects v (raw rest) p)
        ])

  moved-IsRecoverable :
      {p q : String} {o m : List (Key × Doc)} {conn conn' : Conn}
      → p ≡ q
      → o ≡ m
      → conn ≡ conn'
      → IsRecoverable c s p o (content conn)
      → IsRecoverable c s q m (content conn')
  moved-IsRecoverable {p} {q} {o} {m} {conn} {conn'} e f g h =
      subst (λ i. IsRecoverable c s i m (content conn')) e
        (subst (λ i. IsRecoverable c s p i (content conn')) f
          (subst (λ i. IsRecoverable c s p o (content i)) g h))

  -- A flush that is cut off anywhere loses nothing that recovery gave before. Whichever calls of the
  -- store fail, with or without an effect, and whether `durabilize_wal` reaches its manifest or not,
  -- recovery gives what it gave before the flush, or all that the connection holds.
  pub commit_wal_crash :
      (rest : Bytes) (reason : Text) (n : ℕ) (x : Machine Doc Conn) (v : Content)
      → IsDurable c s rest x.state x.world.objects
      → IsPublished x.state x.world.objects v
      → IsRecoverable c s x.state.project_id (commit_wal c s rt now reason n x).1.world.objects v
        ⊎ IsRecoverable c s x.state.project_id
            (commit_wal c s rt now reason n x).1.world.objects
            (content x.state.conn)
  unfolding commit_wal
  commit_wal_crash rest reason n x v h p =
      elim (run-cases (upload_wal c s rt now (wal_file x.state.conn) x)) [
        | inr (e, z, q) ↦
            let old = uploaded-IsRecoverable rest v x z h p (ap (λ r. r.1) q) in
            let same : (commit_wal c s rt now reason n x).1 ≡ z = ground (arith, q) in
            inl (
              subst
                (λ (y : Machine Doc Conn). IsRecoverable c s x.state.project_id y.world.objects v)
                (sym same) old)
        | inl (a, z, q) ↦
            let old = uploaded-IsRecoverable rest v x z h p (ap (λ r. r.1) q) in
            let (d, k) = upload_wal-IsDurable c s rt now rest x z a h q in
            let z' : Machine Doc Conn = record z { state = counted c s rt now n z.state } in
            let d' : IsDurable c s [] z'.state z'.world.objects =
              counted-IsDurable c s rt now n z.state z.world.objects d in
            let same : (commit_wal c s rt now reason n x).1
                ≡ (write_manifest c s rt now (some reason) z').1 =
              ground (arith, q) in
            elim (write_manifest-objects reason z' d') [
              | inl o ↦ inl (
                  subst (λ m. IsRecoverable c s x.state.project_id m v)
                    (sym (ap (λ (y : Machine Doc Conn). y.world.objects) same ∙ o)) old)
              | inr o ↦
                  let there = sym (ap (λ (y : Machine Doc Conn). y.world.objects) same ∙ o) in
                  inr (
                    moved-IsRecoverable k.project_id there k.conn (
                      manifest-IsRecoverable c s rt now z'.state z'.world.objects (some reason) d'))
            ]
      ]
