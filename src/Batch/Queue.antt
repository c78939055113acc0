-- ===== src/Batch/Queue.antt =====
-- The queue in front of a project's writer, rust-core/src/runtime.rs: `submit_write_with_idempotency`
-- puts jobs into a bounded channel and `writer_loop` takes them out in batches. What becomes of a batch
-- (`execute_write_batch`) is a parameter. The jobs that are sent until the channel is closed form one
-- list, and the time at which each receive returns is a list of polls.
use mathlib.Core.List.{append_assoc}
use serverless_db.Base.{
  ℕ, zero, suc, ◌+◌, ◌-◌, ◌≤◌, ◌<◌, ◌≡◌, refl, ap, ◌∙◌, arith, Bool, Option, none, some, List, [],
  ◌∷◌, ◌++◌, length, length-append, leb, if◌then◌else◌,
}
use serverless_db.Error.{Result, ok, err, new, ◌>>=◌, writer_queue_is_full, writer_unavailable}
use serverless_db.Batch.{ensure_primary_write_allowed}
use serverless_db.Types.{Runtime}

-- Whether a receive returns a job in its time (`recv_timeout`, `try_recv`).
pub data Poll : Type 0 where
  in_time late : Poll

-- `group_commit_max_ops.max(1)` and `writer_queue_capacity.max(1)`.
abbrev pub or_one : ℕ → ℕ
or_one n = if leb 1 n then n else 1

module _ {Job : Type 0} where
  -- `try_send` into the channel, whose receiver may be gone.
  unfoldable pub try_send : ℕ → Bool → List Job → Job → Result (List Job)
  try_send capacity connected queue job =
      if connected
      then (if leb (or_one capacity) (length queue)
          then err (new 429 writer_queue_is_full)
          else ok (queue ++ job ∷ []))
      else err (new 503 writer_unavailable)

  -- `submit_write_with_idempotency` up to the wait for the response.
  unfoldable pub submit_write : Runtime → Bool → List Job → Job → Result (List Job)
  unfolding try_send ensure_primary_write_allowed
  submit_write rt connected queue job = ensure_primary_write_allowed rt >>= λ allowed.
      try_send rt.options.writer_queue_capacity connected queue job

  -- One of the two loops that fill a batch: the jobs that are taken while there is room for them, and
  -- the polls and the jobs that are left.
  unfoldable pub collect : ℕ → List Poll → List Job → List Job × List Poll × List Job
  collect zero polls jobs = ([], polls, jobs)
  collect (suc room) [] jobs = ([], [], jobs)
  collect (suc room) (late ∷ polls) jobs = ([], polls, jobs)
  collect (suc room) (in_time ∷ polls) [] = ([], polls, [])
  collect (suc room) (in_time ∷ polls) (job ∷ jobs) =
      let (taken, later, left) = collect room polls jobs in (job ∷ taken, later, left)

  -- The batch that begins with `first`: what comes in time, and then what is there.
  unfoldable pub fill : ℕ → Job → List Poll → List Job → List Job × List Poll × List Job
  unfolding collect
  fill max_ops first polls jobs =
      let (timely, p, rest) = collect (max_ops - 1) polls jobs in
      let (present, p', left) = collect (max_ops - 1 - length timely) p rest in
      (first ∷ (timely ++ present), p', left)

  module _ {R S : Type 0} (execute : List Job → S → List R × S) where
    -- The loop ends when the channel is closed and empty; `none` when the fuel runs out.
    unfoldable pub writer_loop : ℕ → ℕ → List Poll → List Job → S → Option (List R × S)
    unfolding fill
    writer_loop zero max_ops polls jobs s = none
    writer_loop (suc fuel) max_ops polls [] s = some ([], s)
    writer_loop (suc fuel) max_ops polls (first ∷ jobs) s =
        let (batch, later, left) = fill (or_one max_ops) first polls jobs in
        let (responses, t) = execute batch s in
        elim (writer_loop fuel max_ops later left t) [
          | none ↦ none
          | some (rest, u) ↦ some (responses ++ rest, u)
        ]

    -- Batches executed one behind the other.
    unfoldable pub run_batches : List (List Job) → S → List R × S
    run_batches [] s = ([], s)
    run_batches (batch ∷ batches) s =
        let (responses, t) = execute batch s in
        let (rest, u) = run_batches batches t in (responses ++ rest, u)

  abbrev pub concat : List (List Job) → List Job
  concat [] = []
  concat (batch ∷ batches) = batch ++ concat batches

  abbrev pub AreBatches : ℕ → List (List Job) → Type 0
  AreBatches max_ops [] = Unit {0}
  AreBatches max_ops (batch ∷ batches) =
      (1 ≤ length batch) × (length batch ≤ max_ops) × AreBatches max_ops batches

  collect_keeps :
      (room : ℕ) (polls : List Poll) (jobs : List Job)
      → ((collect room polls jobs).0 ++ (collect room polls jobs).2 ≡ jobs)
        × (length (collect room polls jobs).0 ≤ room)
  unfolding collect
  collect_keeps zero polls jobs = (refl, omega arith)
  collect_keeps (suc room) [] jobs = (refl, omega arith)
  collect_keeps (suc room) (late ∷ polls) jobs = (refl, omega arith)
  collect_keeps (suc room) (in_time ∷ polls) [] = (refl, omega arith)
  collect_keeps (suc room) (in_time ∷ polls) (job ∷ jobs) =
      let (same, fits) = collect_keeps room polls jobs in
      (ap (λ (js : List Job). job ∷ js) same, omega (arith, fits))

  fill_keeps :
      (max_ops : ℕ) (first : Job) (polls : List Poll) (jobs : List Job)
      → 1 ≤ max_ops
      → ((fill max_ops first polls jobs).0 ++ (fill max_ops first polls jobs).2 ≡ first ∷ jobs)
        × (1 ≤ length (fill max_ops first polls jobs).0)
        × (length (fill max_ops first polls jobs).0 ≤ max_ops)
  unfolding fill
  fill_keeps max_ops first polls jobs h =
      let (same, fits) = collect_keeps (max_ops - 1) polls jobs in
      let (timely, p, rest) = collect (max_ops - 1) polls jobs in
      let (same', fits') = collect_keeps (max_ops - 1 - length timely) p rest in
      let (present, p', left) = collect (max_ops - 1 - length timely) p rest in
      let both : length (timely ++ present) ≡ length timely + length present =
        length-append timely present in
      (
        ap (λ (js : List Job). first ∷ js)
            (append_assoc timely present left ∙ ap (λ (js : List Job). timely ++ js) same' ∙ same),
        omega arith,
        omega (arith, both, fits, fits', h),
      )

  module _ {R S : Type 0} (execute : List Job → S → List R × S) where
    -- The writer ends once the channel is closed, and has then executed every job that was sent, once
    -- and in the order in which they were sent: in batches of one job at least and as many as are
    -- configured at most, with the responses in the order of the jobs.
    pub writer_loop_total :
        (fuel max_ops : ℕ) (polls : List Poll) (jobs : List Job) (s : S)
        → length jobs < fuel
        → (batches : List (List Job)) × (concat batches ≡ jobs)
          × AreBatches (or_one max_ops) batches
          × (writer_loop execute fuel max_ops polls jobs s ≡ some (run_batches execute batches s))
    unfolding writer_loop run_batches
    writer_loop_total zero max_ops polls jobs s h = absurd (omega arith)
    writer_loop_total (suc fuel) max_ops polls [] s h = ([], refl, tt, refl)
    writer_loop_total (suc fuel) max_ops polls (first ∷ jobs) s h =
        let most_ops : ℕ = or_one max_ops in
        let (same, least, most) = fill_keeps most_ops first polls jobs (ground arith) in
        let batch : List Job = (fill most_ops first polls jobs).0 in
        let left : List Job = (fill most_ops first polls jobs).2 in
        let shorter : length left < fuel =
          omega (arith, length-append batch left, ap (length {A = Job}) same, least, h) in
        let (batches, all_jobs, bounds, run) =
          writer_loop_total fuel max_ops (fill most_ops first polls jobs).1 left (execute batch s).1
            shorter in
        (batch ∷ batches, rw all_jobs same, (least, most, bounds), rw run refl)
