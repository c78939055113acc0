-- ===== src/Tests/Samples.antt =====
-- Concrete instances of what is a parameter of the model: the codec, SQLite and the jobs.
use mathlib.Core.List.{append-nil}
use serverless_db.Base.{
  ◌≡◌, refl, ap, sym, ◌∙◌, arith, String, Text, Bool, true, Option, none, some, [], ◌∷◌, ◌++◌,
  length, if◌then◌else◌,
}
use serverless_db.Error.{Result, ok}
use serverless_db.Text.{text_eq}
use serverless_db.Text.Equality.{text_eq_iff}
use serverless_db.Json.{Value, number, pos_int, object, field, string, end}
use serverless_db.Store.{snapshot, World}
use serverless_db.Types.{
  Bytes, Codec, RuntimeOptions, default_options, Runtime, WriterLease, SnapshotManifest,
  DurableManifest,
}
use serverless_db.Project.{Sqlite, ProjectState, Machine}
use serverless_db.Batch.{Engine, IdempotencyRecord}

pub data Object : Type 0 where
  bytes_object : Bytes → Object
  lease_object : WriterLease → Object
  manifest_object : DurableManifest → Object
  note_object : Text → Object

abbrev bytes_of : Object → Bytes
bytes_of (bytes_object b) = b
bytes_of _ = []

abbrev lease_in : Object → Option WriterLease
lease_in (lease_object l) = some l
lease_in _ = none

abbrev manifest_in : Object → Option DurableManifest
manifest_in (manifest_object m) = some m
manifest_in _ = none

abbrev pub codec : Codec
codec = record {
  Doc = Object;
  raw = bytes_object;
  bytes = bytes_of;
  bytes-raw = λ b. refl;
  lease_doc = lease_object;
  as_lease = lease_in;
  as_lease-lease_doc = λ l. refl;
  manifest_doc = manifest_object;
  as_manifest = manifest_in;
  as_manifest-manifest_doc = λ m. refl;
  change_doc = note_object;
  sha256 = λ b. b;
}

-- A database file, its WAL, and the rows of the table of idempotency records.
pub record Connection : Type 0 where
  pub file : Bytes
  pub log : Bytes
  pub rows : Text → Option IdempotencyRecord

abbrev pub connection : Bytes → Bytes → Connection
connection file log = record { file = file; log = log; rows = λ k. none }

pub vacuumed :
    (conn : Connection) (db : Bytes)
    → some (conn.file ++ conn.log) ≡ some db
    → db ++ [] ≡ conn.file ++ conn.log
vacuumed conn db e = append-nil db ∙ cc

pub opened_content :
    (db wal : Bytes) (conn : Connection)
    → some (connection db wal) ≡ some conn
    → conn.file ++ conn.log ≡ db ++ wal
opened_content db wal conn e = cc

pub opened_wal :
    (db : Bytes) (conn : Connection)
    → some (connection db []) ≡ some conn
    → db ++ conn.log ≡ conn.file ++ conn.log
opened_wal db conn e = cc

abbrev pub sqlite : Sqlite
sqlite = record {
  Conn = Connection;
  Content = Bytes;
  content = λ conn. conn.file ++ conn.log;
  wal_file = λ conn. some conn.log;
  read = λ db wal. db ++ wal;
  vacuum_into = λ conn. some (conn.file ++ conn.log);
  read-vacuum_into = vacuumed;
  open_files = λ db wal. some (connection db wal);
  content-open_files = opened_content;
  wal-open_files = opened_wal;
  placeholder = connection [] [];
}

abbrev with_row : Connection → Text → IdempotencyRecord → Connection
with_row conn k r = record conn {
  log = conn.log ++ k;
  rows = λ j. if text_eq j k then some r else conn.rows j;
}

row_here :
    (conn : Connection) (k : Text) (r : IdempotencyRecord) → (with_row conn k r).rows k ≡ some r
row_here conn k r = ground (arith, text_eq_iff k k)

pub row_found :
    (conn conn' : Connection) (k : Text) (r : IdempotencyRecord)
    → some (with_row conn k r) ≡ some conn'
    → conn'.rows k ≡ some r
row_found conn conn' k r e =
    let is_row : with_row conn k r ≡ conn' = cc in
    ap (λ (x : Connection). x.rows k) (sym is_row) ∙ row_here conn k r

-- A job appends its bytes to the WAL, and is answered with their number.
abbrev append_bytes :
    Bytes → String → Connection → World Object → Result (Value × Bool) × Connection × World Object
append_bytes b pid conn w =
    (ok (number (pos_int (length b)), true), record conn { log = conn.log ++ b }, w)

abbrev pub engine : Engine codec sqlite
engine = record {
  Kind = Bytes;
  run = append_bytes;
  -- One value is all that is stored.
  to_string = λ v. [];
  from_str = λ t.
      some (object (field "value" (number (pos_int 1)) (field "bookmark" (string "bookmark") end)));
  record_of = λ conn k. some (conn.rows k);
  add_record = λ conn k r. some (with_row conn k r);
  record_of-add_record = λ conn conn' k r e. ap some (row_found conn conn' k r e);
}

abbrev pub options : RuntimeOptions
options = record default_options { metadata_every_ops = 0; writer_lease_ttl_ms = 1000 }

abbrev pub alice : Runtime
alice = record { options = options; runtime_id = "alice" }

abbrev pub bob : Runtime
bob = record { options = options; runtime_id = "bob" }

abbrev pub empty_world : World Object
empty_world = record { objects = []; faults = [] }

-- A project whose first snapshot, the bytes 1 and 2, is uploaded, and whose WAL, 3 and 4, is not.
abbrev pub first_snapshot : SnapshotManifest
first_snapshot = record { key = snapshot "p"; bytes = 2; sha256 = 1 ∷ 2 ∷ [] }

abbrev pub first_state : ProjectState Connection
first_state = record {
  project_id = "p";
  conn = connection (1 ∷ 2 ∷ []) (3 ∷ 4 ∷ []);
  generation = 1;
  commit_seq = 0;
  current_snapshot = some first_snapshot;
  wal_segments = [];
  last_durable_wal_bytes = 0;
  next_wal_segment_id = 0;
  ops_since_snapshot = 0;
  last_snapshot_at_ms = 0;
  writer_lease_fencing_token = none;
}

abbrev pub first_machine : Machine Object Connection
first_machine = record {
  world = record { objects = (snapshot "p", bytes_object (1 ∷ 2 ∷ [])) ∷ []; faults = [] };
  state = first_state;
}
