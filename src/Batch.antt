-- ===== src/Batch.antt =====
-- The write path of a project, rust-core/src/runtime.rs: `execute_write_batch`, `execute_write_job`,
-- the idempotent writes and `with_bookmark` (rust-core/src/runtime_utils.rs). What each kind of job
-- does in SQL is a parameter, and so is the table of idempotency records.
pub mod Idempotency
pub mod Responses
pub mod Unflushed
pub mod Queue
use serverless_db.Base.{
  ℕ, ◌+◌, ◌≡◌, String, Text, codes, Bool, true, false, not, Option, none, some, List, [], ◌∷◌, ◌++◌,
  map, ltb, if◌then◌else◌, saturating_add, any,
}
use serverless_db.Error.{
  ApiError, Result, ok, err, new, idempotency_key_reused, idempotent_write_pending, sqlite_failed,
  read_replica_cannot_accept, json_failed,
}
use serverless_db.Io.{◌>>◌}
use serverless_db.Text.{text_eq}
use serverless_db.Ident.{WriteIdempotency, validate_idempotency}
use serverless_db.Bookmark.{bookmark_for_seq, bookmark_to_seq}
use serverless_db.Text.Decimal.{decimal}
use serverless_db.Json.{Value, object, field, end, string, insert_field}
use serverless_db.Store.{World}
use serverless_db.Types.{Codec, Runtime}
use serverless_db.Project.{Sqlite, ProjectState, Machine}
use serverless_db.Project.Writer.{
  Writer, durabilize_wal, ensure_wal_budget, ensure_writer_lease_for_state,
}

-- A row of `_sdb_idempotency`; the response is the text of its JSON.
pub record IdempotencyRecord : Type 0 where
  pub request_hash : Text
  pub response_json : Text
  pub bookmark : Text

-- The jobs, and the tables that they work on. `run` is `execute_write_kind` up to its last match:
-- the value and whether the job committed, the connection and the store that it leaves.
pub record Engine (c : Codec) (s : Sqlite) : Type 1 where
  pub Kind : Type 0
  pub run : Kind → String → s.Conn → World c.Doc → Result (Value × Bool) × s.Conn × World c.Doc
  -- `Value::to_string` and `serde_json::from_str`.
  pub to_string : Value → Text
  pub from_str : Text → Option Value
  -- SELECT and INSERT by the primary key, which may fail.
  pub record_of : s.Conn → Text → Option (Option IdempotencyRecord)
  pub add_record : s.Conn → Text → IdempotencyRecord → Option s.Conn
  pub record_of-add_record :
      (conn conn' : s.Conn) (k : Text) (r : IdempotencyRecord)
      → add_record conn k r ≡ some conn'
      → record_of conn' k ≡ some (some r)

-- The text of a value that is no object is put beside the bookmark.
unfoldable pub with_bookmark : (Text → String) → Value → Text → Value
unfolding insert_field
with_bookmark text (object fs) bookmark =
    object (insert_field "bookmark" (string (text bookmark)) fs)
with_bookmark text v bookmark =
    object (field "value" v (field "bookmark" (string (text bookmark)) end))

unfoldable pub ensure_primary_write_allowed : Runtime → Result (Unit {0})
ensure_primary_write_allowed rt =
    if rt.options.read_replica then err (new 405 read_replica_cannot_accept) else ok tt

-- A job without the channel that its response goes to; responses keep the order of the jobs.
pub record WriteJob (Kind : Type 0) : Type 0 where
  pub kind : Kind
  pub idempotency : Option WriteIdempotency

pub record ResponseSlot : Type 0 where
  pub result : Result Value
  pub committed : Bool

-- `text` makes a string of a text (bookmarks are ASCII).
module _ (c : Codec) (s : Sqlite) (engine : Engine c s) (text : Text → String) where
  open c use {Doc}
  open s use {Conn}
  open engine use {Kind, run, to_string, from_str, record_of, add_record}

  abbrev finished : Result (Value × Bool) → ResponseSlot
  finished (ok (v, committed)) = record { result = ok v; committed = committed }
  finished (err e) = record { result = err e; committed = false }

  unfoldable pub execute_write_kind : Kind → Machine Doc Conn → ResponseSlot × Machine Doc Conn
  execute_write_kind kind x =
      let (r, conn, w) = run kind x.state.project_id x.state.conn x.world in
      (finished r, record { world = w; state = record x.state { conn = conn } })

  abbrev response_of : Option Value → Result (Option Value)
  response_of none = err (new 500 json_failed)
  response_of (some v) = ok (some v)

  abbrev durable_yet : ℕ → IdempotencyRecord → Result ℕ → Result (Option Value)
  durable_yet commit_seq r (err e) = err e
  durable_yet commit_seq r (ok seq) =
      if ltb commit_seq seq
      then err (new 425 idempotent_write_pending)
      else response_of (from_str r.response_json)

  abbrev found_record :
      ℕ → WriteIdempotency → Option (Option IdempotencyRecord) → Result (Option Value)
  found_record commit_seq idempotency none = err (new 500 sqlite_failed)
  found_record commit_seq idempotency (some none) = ok none
  found_record commit_seq idempotency (some (some r)) =
      if not (text_eq r.request_hash idempotency.request_hash)
      then err (new 409 idempotency_key_reused)
      else durable_yet commit_seq r (bookmark_to_seq r.bookmark)

  unfoldable pub load_idempotency_record :
      ProjectState Conn → WriteIdempotency → Result (Option Value)
  load_idempotency_record st idempotency =
      found_record st.commit_seq idempotency (record_of st.conn idempotency.key)

  -- The result of `store_idempotency_record`, given the connection that the INSERT leaves.
  abbrev recorded : Value → Machine Doc Conn → Option Conn → ResponseSlot × Machine Doc Conn
  recorded response x none = (record { result = err (new 500 sqlite_failed); committed = true }, x)
  recorded response x (some conn) = (
    record { result = ok response; committed = true },
    record x { state = record x.state { conn = conn } },
  )

  unfoldable pub store_idempotency_record :
      WriteIdempotency → Text → Value → Machine Doc Conn → ResponseSlot × Machine Doc Conn
  store_idempotency_record idempotency bookmark response x = recorded response x (
      add_record x.state.conn idempotency.key (record {
        request_hash = idempotency.request_hash;
        response_json = to_string response;
        bookmark = bookmark;
      }))

  abbrev after_kind :
      WriteIdempotency → Text → Result Value → Machine Doc Conn → ResponseSlot × Machine Doc Conn
  after_kind idempotency pending (err e) x = (record { result = err e; committed = false }, x)
  after_kind idempotency pending (ok v) x =
      store_idempotency_record idempotency pending (with_bookmark text v pending) x

  abbrev unless_recorded :
      Kind
      → WriteIdempotency
      → Text
      → Result (Option Value)
      → Machine Doc Conn
      → ResponseSlot × Machine Doc Conn
  unless_recorded kind idempotency pending (err e) x =
      (record { result = err e; committed = false }, x)
  unless_recorded kind idempotency pending (ok (some v)) x =
      (record { result = ok v; committed = false }, x)
  unless_recorded kind idempotency pending (ok none) x =
      let (slot, y) = execute_write_kind kind x in after_kind idempotency pending slot.result y

  abbrev when_valid :
      Kind
      → WriteIdempotency
      → Text
      → Result (Unit {0})
      → Machine Doc Conn
      → ResponseSlot × Machine Doc Conn
  when_valid kind idempotency pending (err e) x = (record { result = err e; committed = false }, x)
  when_valid kind idempotency pending (ok u) x =
      unless_recorded kind idempotency pending (load_idempotency_record x.state idempotency) x

  unfoldable pub execute_idempotent_write_kind :
      Kind → WriteIdempotency → Text → Machine Doc Conn → ResponseSlot × Machine Doc Conn
  execute_idempotent_write_kind kind idempotency pending x =
      when_valid kind idempotency pending (validate_idempotency idempotency) x

  abbrev by_idempotency :
      Kind → Text → Option WriteIdempotency → Machine Doc Conn → ResponseSlot × Machine Doc Conn
  by_idempotency kind pending none x = execute_write_kind kind x
  by_idempotency kind pending (some idempotency) x =
      execute_idempotent_write_kind kind idempotency pending x

  unfoldable pub execute_write_job :
      WriteJob Kind → Text → Machine Doc Conn → ResponseSlot × Machine Doc Conn
  execute_write_job job pending x = by_idempotency job.kind pending job.idempotency x

  -- The loop over the batch.
  unfoldable pub execute_jobs :
      List (WriteJob Kind) → Machine Doc Conn → List ResponseSlot × Machine Doc Conn
  execute_jobs [] x = ([], x)
  execute_jobs (job ∷ jobs) x =
      let (slot, y) =
        execute_write_job job (bookmark_for_seq (saturating_add x.state.commit_seq 1)) x in
      let (slots, z) = execute_jobs jobs y in (slot ∷ slots, z)

  unfoldable pub committed_ops : List ResponseSlot → ℕ
  committed_ops [] = 0
  committed_ops (slot ∷ slots) = (if slot.committed then 1 else 0) + committed_ops slots

  abbrev refused : ApiError → List (WriteJob Kind) → List (Result Value)
  refused e jobs = map (λ job. err e) jobs

  -- The response of a slot, from how the flush ended and the bookmark of the batch.
  unfoldable pub respond : Result (Unit {0}) → Option Text → Bool → Result Value → Result Value
  respond (err e) bookmark true (ok v) = err e
  respond flush (some bookmark) true (ok v) = ok (with_bookmark text v bookmark)
  respond flush bookmark committed result = result

  module _ (rt : Runtime) (now : ℕ) where
    -- The lease is checked again before the batch is made durable.
    unfoldable pub flush : ℕ → Writer c s (Unit {0})
    flush n = do
      ensure_writer_lease_for_state c s rt now
      durabilize_wal c s rt now (codes "group_commit:" ++ decimal 20 n ++ codes "_ops") n

    abbrev pub bookmark_of : Result (Unit {0}) → ProjectState Conn → Option Text
    bookmark_of (ok u) st = some (bookmark_for_seq st.commit_seq)
    bookmark_of (err e) st = none

    abbrev responses :
        List ResponseSlot
        → Result (Unit {0}) × Machine Doc Conn
        → List (Result Value) × Machine Doc Conn
    responses slots (r, x) =
        (map (λ slot. respond r (bookmark_of r x.state) slot.committed slot.result) slots, x)

    -- The slots of the batch: nothing is flushed where nothing was committed.
    unfoldable pub flush_slots :
        List ResponseSlot → Machine Doc Conn → List (Result Value) × Machine Doc Conn
    flush_slots slots x =
        if any (λ slot. slot.committed) slots
        then responses slots (flush (committed_ops slots) x)
        else (map (λ slot. respond (ok tt) none slot.committed slot.result) slots, x)

    abbrev execute_batch :
        List (WriteJob Kind)
        → Result (Unit {0}) × Machine Doc Conn
        → List (Result Value) × Machine Doc Conn
    execute_batch jobs (err e, x) = (refused e jobs, x)
    execute_batch jobs (ok u, x) = let (slots, y) = execute_jobs jobs x in flush_slots slots y

    -- `execute_write_batch`, without the notification of those who wait for events. The responses
    -- are in the order of the jobs.
    unfoldable pub execute_write_batch :
        List (WriteJob Kind) → Machine Doc Conn → List (Result Value) × Machine Doc Conn
    execute_write_batch jobs x =
        execute_batch jobs
          ((do ensure_writer_lease_for_state c s rt now; ensure_wal_budget c s rt now) x)
