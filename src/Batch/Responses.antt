-- ===== src/Batch/Responses.antt =====
-- What the responses of a batch promise.
use serverless_db.Base.{
  ℕ, ◌<◌, ◌≡◌, ◌≢◌, refl, ap, ◌∙◌, Text, String, true, some, List, [], codes, ◌++◌, map, arith, inl,
  inr, get_elem?, get_elem?-map, any-get_elem?, saturating_add,
}
use serverless_db.Error.{ApiError, Result, ok, err}
use serverless_db.Io.{run-cases}
use serverless_db.Bookmark.{bookmark_for_seq}
use serverless_db.Text.Decimal.{decimal}
use serverless_db.Json.{Value}
use serverless_db.Store.{writer_lease}
use serverless_db.Types.{Codec, Runtime, WriterLease}
use serverless_db.Lease.{ensure_writer_lease}
use serverless_db.Lease.Outcomes.{Holds}
use serverless_db.Lease.Exclusion.{ensure_writer_lease_refused}
use serverless_db.Project.{Sqlite, Machine, ProjectState}
use serverless_db.Project.Writer.{ensure_writer_lease_for_state}
use serverless_db.Project.Sequence.{durabilize_wal-commit_seq}
use serverless_db.Batch.{
  Engine, WriteJob, ResponseSlot, committed_ops, respond, flush, flush_slots, execute_write_batch,
  with_bookmark, bookmark_of,
}

module _ (c : Codec) (s : Sqlite) (engine : Engine c s) (text : Text → String) (rt : Runtime)
    (now : ℕ) where
  open c use {Doc}
  open s use {Conn}
  open engine use {Kind}

  lease_step :
      (x z : Machine Doc Conn) (u : Unit {0})
      → ensure_writer_lease_for_state c s rt now x ≡ (ok u, z)
      → z.state.commit_seq ≡ x.state.commit_seq
  unfolding ensure_writer_lease_for_state
  lease_step x z u h =
      elim (run-cases (
        ensure_writer_lease c rt now x.state.project_id x.state.writer_lease_fencing_token
          x.world)) [ inl (l, w, e) ↦ ground arith | inr (f, w, e) ↦ absurd (ground arith) ]

  flush-commit_seq :
      (n : ℕ) (x y : Machine Doc Conn) (u : Unit {0})
      → flush c s engine text rt now n x ≡ (ok u, y)
      → y.state.commit_seq ≡ saturating_add x.state.commit_seq 1
  unfolding flush
  flush-commit_seq n x y u h = elim (run-cases (ensure_writer_lease_for_state c s rt now x)) [
    | inr (e, z, q) ↦ absurd (ground arith)
    | inl (a, z, q) ↦
        durabilize_wal-commit_seq c s rt now (codes "group_commit:" ++ decimal 20 n ++ codes "_ops")
          n z y u (ground arith)
        ∙ ground (arith, lease_step x z a q)
  ]

  respond_committed :
      (r : Result (Unit {0})) (b : Text) (result : Result Value) (v : Value) (x : ProjectState Conn)
      → respond c s engine text r (bookmark_of c s engine text rt now r x) true result ≡ ok v
      → (r ≡ ok tt)
        × ((v₀ : Value) × (result ≡ ok v₀)
            × (v ≡ with_bookmark text v₀ (bookmark_for_seq x.commit_seq)))
  unfolding respond
  respond_committed (ok u) b (ok v₀) v x h = (refl, (v₀, refl, ground arith))
  respond_committed (ok u) b (err e) v x h = cc
  respond_committed (err f) b (ok v₀) v x h = cc
  respond_committed (err f) b (err e) v x h = cc

  -- A job that committed is answered with a value only if the batch was flushed: the lease was held
  -- and the manifest written. The value then carries the bookmark of the next sequence number.
  pub acknowledged_flushed :
      (slots : List ResponseSlot) (i : ℕ) (slot : ResponseSlot) (v : Value) (x : Machine Doc Conn)
      → get_elem? slots i ≡ some slot
      → slot.committed ≡ true
      → get_elem? (flush_slots c s engine text rt now slots x).0 i ≡ some (ok v)
      → ((flush c s engine text rt now (committed_ops c s engine text slots) x).0 ≡ ok tt)
        × ((v₀ : Value) × (slot.result ≡ ok v₀)
            × (v ≡ with_bookmark text v₀ (bookmark_for_seq (saturating_add x.state.commit_seq 1))))
  unfolding flush_slots
  acknowledged_flushed slots i slot v x e k h =
      elim (run-cases (flush c s engine text rt now n x)) [
        | inl (u, y, q) ↦
            let answer = get_elem?-map (respond_slot (ok u) y.state) slots i slot e in
            let answered : respond_slot (ok u) y.state slot ≡ ok v = ground (
              arith,
              q,
              answer,
              any-get_elem? (λ (t : ResponseSlot). t.committed) slots i slot e k,
            ) in
            let found : respond c s engine text (ok u)
                  (bookmark_of c s engine text rt now (ok u) y.state) true slot.result
                ≡ ok v =
              rw k at answered in
            let (_, (v₀, r, w)) = respond_committed (ok u) [] slot.result v y.state found in
            (ap (λ z. z.0) q, (v₀, r, rw (← flush-commit_seq n x y u q) w))
        | inr (f, y, q) ↦
            let answer = get_elem?-map (respond_slot (err f) y.state) slots i slot e in
            let answered : respond_slot (err f) y.state slot ≡ ok v = ground (
              arith,
              q,
              answer,
              any-get_elem? (λ (t : ResponseSlot). t.committed) slots i slot e k,
            ) in
            let found : respond c s engine text (err f)
                  (bookmark_of c s engine text rt now (err f) y.state) true slot.result
                ≡ ok v =
              rw k at answered in
            let (no_error, _) = respond_committed (err f) [] slot.result v y.state found in
            cc (no_error)
      ]
    where
      n : ℕ
      n = committed_ops c s engine text slots

      respond_slot : Result (Unit {0}) → ProjectState Conn → ResponseSlot → Result Value
      respond_slot r st t =
          respond c s engine text r (bookmark_of c s engine text rt now r st) t.committed t.result

  -- A runtime whose project is leased by another, unexpired, answers every job of a batch with an
  -- error, and changes neither its state nor the store, whichever calls of the store fail.
  pub fenced_batch_refused :
      (jobs : List (WriteJob Kind)) (l : WriterLease) (x : Machine Doc Conn)
      → rt.options.writer_lease_ttl_ms ≢ 0
      → Holds c (writer_lease x.state.project_id) l x.world.objects
      → l.project_id ≡ x.state.project_id
      → l.owner_id ≢ rt.runtime_id
      → now < l.expires_at_ms
      → ((e : ApiError) × ((execute_write_batch c s engine text rt now jobs x).0
            ≡ map (λ job. err e) jobs))
        × ((execute_write_batch c s engine text rt now jobs x).1.state ≡ x.state)
        × ((execute_write_batch c s engine text rt now jobs x).1.world.objects ≡ x.world.objects)
  unfolding execute_write_batch ensure_writer_lease_for_state
  fenced_batch_refused jobs l x on held p other live =
      let (same, failed, _) =
        ensure_writer_lease_refused c rt now x.state.project_id x.state.writer_lease_fencing_token l
          x.world on held p other live in
      elim (run-cases (
        ensure_writer_lease c rt now x.state.project_id x.state.writer_lease_fencing_token
          x.world)) [
            | inl (a, w, q) ↦ absurd (ground arith)
            | inr (f, w, q) ↦ ((f, ground arith), ground arith, ground (arith, same))
          ]
