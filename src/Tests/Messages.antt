-- ===== src/Tests/Messages.antt =====
-- The theorem on realtime frames at a concrete message.
use serverless_db.Base.{◌≡◌, refl, none, some}
use serverless_db.Fallible.{ok}
use serverless_db.Json.{Value, object, end}
use serverless_db.Realtime.{MessageEnvelope, Serde, heartbeat}
use serverless_db.Realtime.Frames.{
  encode_frame, parse_envelope, parse_frame, classify_envelope, with_payload, frame_of,
  envelope_from_value, envelope_from_array,
}
use serverless_db.Realtime.RoundTrip.{parse_envelope-encode_frame, parse_frame-IsOf, IsOf}

-- The text of a frame is its value, and no payload has a type of its own.
abbrev serde : Serde
serde = record {
  Raw = Value;
  to_string = λ v. v;
  from_str = λ v. some v;
  as_envelope = λ v. none;
  as_join = λ v. none;
  as_broadcast = λ v. none;
  as_postgres_changes = λ v. none;
  as_reply = λ v. none;
  as_error = λ v. none;
  as_outbox_event = λ v. none;
}

abbrev beat : MessageEnvelope Value
beat = record {
  join_ref = none;
  ref_id = some "7";
  topic = "phoenix";
  event = "heartbeat";
  payload = object end;
}

parse_envelope-encode_frame_example :
    (raw : Value) × (encode_frame serde (λ v. some v) beat ≡ ok raw)
    × (parse_envelope serde raw ≡ ok (with_payload beat (object end)))
parse_envelope-encode_frame_example =
    parse_envelope-encode_frame serde (λ v. some v) beat (object end) refl refl

parse_frame-IsOf_example :
    (m : MessageEnvelope Value) × (parse_envelope serde (frame_of beat (object end)) ≡ ok m)
    × IsOf serde m (heartbeat beat)
parse_frame-IsOf_example =
    parse_frame-IsOf serde (frame_of beat (object end)) (heartbeat beat)
      (unfold parse_frame envelope_from_value envelope_from_array classify_envelope in refl)
