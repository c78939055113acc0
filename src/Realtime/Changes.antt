-- ===== src/Realtime/Changes.antt =====
-- Changes of rows as messages, rust-core/src/realtime_protocol.rs: `outbox_event_to_postgres_changes` and
-- what it calls.
use serverless_db.Base.{
  ℕ, ◌+◌, String, Bool, true, false, ◌&&◌, Text, codes, none, List, [], ◌∷◌, map, leb,
  if◌then◌else◌,
}
use serverless_db.Fallible.{ok, err, ◌>>=◌}
use serverless_db.Json.{Value, null, object, Fields, end, field}
use serverless_db.Text.{text_eq}
use serverless_db.TreeMap.{text_ltb}
use serverless_db.Realtime.{
  MessageEnvelope, PostgresChangesPayload, PostgresChangeEvent, insert, update, delete,
  PostgresColumn, OutboxEvent, unsupported_operation, Outcome,
}

-- `to_ascii_lowercase`.
abbrev ascii_lower : ℕ → ℕ
ascii_lower c = if leb b'A' c && leb c b'Z' then c + 32 else c

unfoldable pub from_outbox_operation : Text → Outcome PostgresChangeEvent
from_outbox_operation operation =
    if text_eq (map ascii_lower operation) (codes "insert")
    then ok insert
    else if text_eq (map ascii_lower operation) (codes "update")
    then ok update
    else if text_eq (map ascii_lower operation) (codes "delete")
    then ok delete
    else err (unsupported_operation operation)

unfoldable pub insert_sorted : String → List String → List String
unfolding text_ltb
insert_sorted name [] = name ∷ []
insert_sorted name (n ∷ names) =
    let rest = insert_sorted name names in
    if text_ltb (codes n) (codes name) then n ∷ rest else name ∷ n ∷ names

-- `names.sort()` on the keys.
unfoldable pub sorted_keys : Fields → List String
unfolding insert_sorted
sorted_keys end = []
sorted_keys (field k v fields) = insert_sorted k (sorted_keys fields)

unfoldable pub infer_columns : Value → List PostgresColumn
unfolding sorted_keys
infer_columns (object fields) =
    map (λ name. record { name = name; type_name = "jsonb"; flags = [] }) (sorted_keys fields)
infer_columns _ = []

-- The row before and after a change.
abbrev pub records_of : PostgresChangeEvent → Value → Value × Value
records_of insert row = (row, null)
records_of update row = (row, null)
records_of delete row = (null, row)

abbrev is_object : Value → Bool
is_object (object fields) = true
is_object _ = false

unfoldable pub outbox_event_to_postgres_changes :
    String → List String → OutboxEvent → Outcome (MessageEnvelope PostgresChangesPayload)
unfolding from_outbox_operation infer_columns
outbox_event_to_postgres_changes topic ids e = do
  event_type ← from_outbox_operation e.operation
  ok (record {
    join_ref = none;
    ref_id = none;
    topic = topic;
    event = "postgres_changes";
    payload = record {
      ids = ids;
      change = record {
        schema = "public";
        table = e.table;
        event_type = event_type;
        commit_timestamp = e.created_at;
        columns = infer_columns (
            if is_object (records_of event_type e.row).0
            then (records_of event_type e.row).0
            else (records_of event_type e.row).1);
        new_record = (records_of event_type e.row).0;
        old_record = (records_of event_type e.row).1;
        errors = [];
      };
    };
  })
