-- ===== src/Project/Sequence.antt =====
-- The commit sequence number: one more for each batch that is made durable, and left alone by
-- everything else.
use serverless_db.Base.{
  ℕ, ◌≡◌, refl, ap, subst, ◌+◌, ◌∙◌, Text, Option, none, some, arith, inl, inr, saturating_add, leb,
  if◌then◌else◌,
}
use serverless_db.Error.{Result, ok, err}
use serverless_db.Io.{Io, run-cases}
use serverless_db.Io.Keeps.{Keeps, keeps_rules}
use serverless_db.Store.{World}
use serverless_db.Types.{Bytes, Codec, Runtime}
use serverless_db.Project.{Sqlite, ProjectState, Machine, attempt}
use serverless_db.Project.Writer.{
  Writer, in_world, get, modify, append_change_log, write_manifest, upload_snapshot, replace_cache,
  persist_snapshot, restart_chain, upload_tail, upload_wal, commit_wal, log_metadata,
  after_compaction, compact, durabilize_wal,
}

module _ (c : Codec) (s : Sqlite) (rt : Runtime) (now : ℕ) (n : ℕ) where
  open c use {Doc}
  open s use {Conn}

  pub record IsAt (x : Machine Doc Conn) : Type 0 where
    pub commit_seq : x.state.commit_seq ≡ n

  in_world-IsAt : {A : Type 0} (m : Io (World Doc) A) → Keeps IsAt (in_world c s m)
  in_world-IsAt m = record { at = λ x h. record { commit_seq = h.commit_seq } }

  get-IsAt : Keeps IsAt (get c s)
  get-IsAt = record { at = λ x h. h }

  modify-IsAt :
      (f : ProjectState Conn → ProjectState Conn)
      → ((st : ProjectState Conn) → (f st).commit_seq ≡ st.commit_seq)
      → Keeps IsAt (modify c s f)
  modify-IsAt f e = record { at = λ x h. record { commit_seq = e x.state ∙ h.commit_seq } }

  attempt-IsAt : {A : Type 0} (m : Writer c s A) → Keeps IsAt m → Keeps IsAt (attempt m)
  attempt-IsAt m k = record { at = λ x h. k.at x h }

  ruleset at_rules = (keeps_rules, in_world-IsAt, get-IsAt)

  append_change_log-IsAt : (t : Text) → Keeps IsAt (append_change_log c s rt now t)
  unfolding append_change_log
  append_change_log-IsAt t = search at_rules

  write_manifest-IsAt : (t : Option Text) → Keeps IsAt (write_manifest c s rt now t)
  unfolding write_manifest
  write_manifest-IsAt t = search at_rules

  upload_snapshot-IsAt : (t : Text) → Keeps IsAt (upload_snapshot c s rt now t)
  unfolding upload_snapshot
  upload_snapshot-IsAt t = search at_rules depth 12

  replace_cache-IsAt : (t : Text) (db : Bytes) → Keeps IsAt (replace_cache c s rt now t db)
  unfolding replace_cache append_change_log
  replace_cache-IsAt t db = record {
    at = λ x h. record { commit_seq = ground (arith, h.commit_seq) };
  }

  persist_snapshot-IsAt : (t : Text) → Keeps IsAt (persist_snapshot c s rt now t)
  unfolding persist_snapshot
  persist_snapshot-IsAt t = search (at_rules, upload_snapshot-IsAt, replace_cache-IsAt)

  upload_wal-IsAt : (o : Option Bytes) → Keeps IsAt (upload_wal c s rt now o)
  unfolding restart_chain upload_tail
  upload_wal-IsAt none = search at_rules
  upload_wal-IsAt (some wal) = record {
    at = λ x h. record { commit_seq = ground (arith, h.commit_seq) };
  }

  log_metadata-IsAt : (t : Text) → Keeps IsAt (log_metadata c s rt now t)
  log_metadata-IsAt t = search (at_rules, append_change_log-IsAt)

  after_compaction-IsAt : (r : Result (Unit {0})) → Keeps IsAt (after_compaction c s rt now r)
  after_compaction-IsAt (ok u) = record { at = λ x h. h }
  after_compaction-IsAt (err e) = record { at = λ x h. (append_change_log-IsAt _).at x h }

  compact-IsAt : (t : Text) → Keeps IsAt (compact c s rt now t)
  unfolding compact
  compact-IsAt t =
      search (at_rules, attempt-IsAt, persist_snapshot-IsAt, after_compaction-IsAt) depth 8

module _ (c : Codec) (s : Sqlite) (rt : Runtime) (now : ℕ) where
  open c use {Doc}
  open s use {Conn, wal_file}

  at :
      (x y : Machine Doc Conn) {A : Type 0} (m : Writer c s A)
      → ((n : ℕ) → Keeps (IsAt c s rt now n) m)
      → (m x).1 ≡ y
      → y.state.commit_seq ≡ x.state.commit_seq
  at x y m k e =
      subst (λ z. z.state.commit_seq ≡ x.state.commit_seq) e
        ((k x.state.commit_seq).at x (record { commit_seq = refl })).commit_seq

  commit_wal-commit_seq :
      (reason : Text) (k : ℕ) (x y : Machine Doc Conn) (u : Unit {0})
      → commit_wal c s rt now reason k x ≡ (ok u, y)
      → y.state.commit_seq ≡ saturating_add x.state.commit_seq 1
  unfolding commit_wal
  commit_wal-commit_seq reason k x y u h =
      elim (run-cases (upload_wal c s rt now (wal_file x.state.conn) x)) [
        | inr (e, z, q) ↦ absurd (ground arith)
        | inl (a, z, q) ↦
            let same =
              at x z (upload_wal c s rt now (wal_file x.state.conn))
                (λ n. upload_wal-IsAt c s rt now n (wal_file x.state.conn)) (ap (λ r. r.1) q) in
            let z' : Machine Doc Conn = record z {
              state = record z.state {
                ops_since_snapshot = z.state.ops_since_snapshot + (if leb 1 k then k else 1);
                commit_seq = saturating_add z.state.commit_seq 1;
              };
            } in
            let wrote : write_manifest c s rt now (some reason) z' ≡ (ok u, y) = ground arith in
            at z' y (write_manifest c s rt now (some reason))
              (λ n. write_manifest-IsAt c s rt now n (some reason)) (ap (λ r. r.1) wrote)
            ∙ ground (arith, same)
      ]

  -- A batch that `durabilize_wal` acknowledges takes the next sequence number, also where a
  -- compaction follows and whether or not that succeeds.
  pub durabilize_wal-commit_seq :
      (reason : Text) (k : ℕ) (x y : Machine Doc Conn) (u : Unit {0})
      → durabilize_wal c s rt now reason k x ≡ (ok u, y)
      → y.state.commit_seq ≡ saturating_add x.state.commit_seq 1
  unfolding durabilize_wal
  durabilize_wal-commit_seq reason k x y u h = elim (run-cases (commit_wal c s rt now reason k x)) [
    | inr (e, z, q) ↦ absurd (ground arith)
    | inl (a, z, q) ↦ elim (run-cases (log_metadata c s rt now reason z)) [
      | inr (e, v, p) ↦ absurd (ground arith)
      | inl (b, v, p) ↦
          let done : compact c s rt now reason v ≡ (ok u, y) = ground arith in
          at v y (compact c s rt now reason) (λ n. compact-IsAt c s rt now n reason)
            (ap (λ r. r.1) done)
          ∙ at z v (log_metadata c s rt now reason) (λ n. log_metadata-IsAt c s rt now n reason)
              (ap (λ r. r.1) p)
          ∙ commit_wal-commit_seq reason k x z a q
    ]
  ]
