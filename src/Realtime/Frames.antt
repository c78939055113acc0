-- ===== src/Realtime/Frames.antt =====
-- Frames and replies, rust-core/src/realtime_protocol.rs: `parse_frame`, `encode_frame`, `join_reply` and
-- what they call.
use serverless_db.Base.{
  ℕ, ◌+◌, String, Text, codes, Option, none, some, List, [], ◌∷◌, ◌++◌, str_eq, if◌then◌else◌,
}
use serverless_db.Fallible.{Fallible, ok, err, ok_or, ◌>>=◌}
use serverless_db.Json.{
  Value, null, bool, number, string, array, object, Items, nil, cons, end, field,
}
use serverless_db.Text.Decimal.{decimal}
use serverless_db.Realtime.{
  MessageEnvelope, JoinPayload, JoinResponse, PostgresChangesFilter, OutboxEvent, ReplyStatus,
  ok_status, error_status, ReplyPayload, ErrorPayload, ProtocolError, invalid_json, not_a_frame,
  wrong_length, not_a_string_or_null, not_a_string, Outcome, RealtimeMessage, join, heartbeat,
  broadcast, postgres_changes, reply_to, channel_failed, other_event, Serde,
}

abbrev pub with_payload {ℓ κ} :
    {T : Type ℓ} {U : Type κ} → MessageEnvelope T → U → MessageEnvelope U
with_payload m payload = record {
  join_ref = m.join_ref;
  ref_id = m.ref_id;
  topic = m.topic;
  event = m.event;
  payload = payload;
}

abbrev pub string_or_null : Option String → Value
string_or_null none = null
string_or_null (some s) = string s

-- The Phoenix array of a message whose payload is `payload` in JSON.
abbrev pub frame_of {ℓ} : {T : Type ℓ} → MessageEnvelope T → Value → Value
frame_of m payload = array (
    cons (string_or_null m.join_ref) (
      cons (string_or_null m.ref_id)
        (cons (string m.topic) (cons (string m.event) (cons payload nil)))))

abbrev pub optional_string : Value → String → Outcome (Option String)
optional_string null name = ok none
optional_string (string s) name = ok (some s)
optional_string _ name = err (not_a_string_or_null name)

abbrev pub required_string : Value → String → Outcome String
required_string (string s) name = ok s
required_string _ name = err (not_a_string name)

unfoldable pub envelope_from_array : Items → Outcome (MessageEnvelope Value)
envelope_from_array (cons a (cons b (cons c (cons d (cons payload nil))))) = do
  join_ref ← optional_string a "join_ref"
  ref_id ← optional_string b "ref"
  topic ← required_string c "topic"
  event ← required_string d "event"
  ok (record {
    join_ref = join_ref;
    ref_id = ref_id;
    topic = topic;
    event = event;
    payload = payload;
  })
envelope_from_array _ = err wrong_length

module _ {ℓ} {T : Type ℓ} where
  unfoldable pub reply :
      String → Option String → Option String → ReplyStatus → T → MessageEnvelope (ReplyPayload T)
  reply topic ref_id join_ref status response = record {
    join_ref = join_ref;
    ref_id = ref_id;
    topic = topic;
    event = "phx_reply";
    payload = record { status = status; response = response };
  }

unfoldable pub heartbeat_reply : MessageEnvelope Value → MessageEnvelope (ReplyPayload Value)
unfolding reply
heartbeat_reply m = reply m.topic m.ref_id m.join_ref ok_status (object end)

unfoldable pub error_reply :
    String → Option String → Option String → String → MessageEnvelope (ReplyPayload Value)
unfolding reply
error_reply topic ref_id join_ref reason =
    reply topic ref_id join_ref error_status (object (field "reason" (string reason) end))

unfoldable pub channel_error : String → Option String → String → MessageEnvelope ErrorPayload
channel_error topic join_ref reason = record {
  join_ref = join_ref;
  ref_id = none;
  topic = topic;
  event = "phx_error";
  payload = record { reason = some reason; extra = end };
}

abbrev or_star : Option Text → Text
or_star none = codes "*"
or_star (some s) = s

-- An index of a list in memory has at most 20 digits.
unfoldable pub subscription_id : PostgresChangesFilter → ℕ → Text
unfolding decimal
subscription_id filter index =
    codes "pg:"
    ++ (or_star filter.schema
        ++ (codes ":"
            ++ (or_star filter.table
                ++ (codes ":"
                    ++ (filter.event
                        ++ (codes ":"
                            ++ (or_star filter.filter ++ (codes ":" ++ decimal 20 index))))))))

abbrev id_or : Option Text → Text → Text
id_or none made = made
id_or (some id) made = id

unfoldable pub filter_with_id : PostgresChangesFilter → ℕ → PostgresChangesFilter
unfolding subscription_id
filter_with_id filter index = record filter {
  id = some (id_or filter.id (subscription_id filter index));
}

-- `enumerate` and `map`.
unfoldable pub filters_with_ids : ℕ → List PostgresChangesFilter → List PostgresChangesFilter
unfolding filter_with_id
filters_with_ids index [] = []
filters_with_ids index (filter ∷ filters) =
    filter_with_id filter index ∷ filters_with_ids (index + 1) filters

unfoldable pub join_reply :
    MessageEnvelope JoinPayload → MessageEnvelope (ReplyPayload JoinResponse)
unfolding reply filters_with_ids
join_reply m =
    reply m.topic m.ref_id m.join_ref ok_status
      (record { postgres_changes = filters_with_ids 0 m.payload.config.postgres_changes })

module _ (serde : Serde) where
  unfoldable pub envelope_from_value : Value → Outcome (MessageEnvelope Value)
  unfolding envelope_from_array
  envelope_from_value (array items) = envelope_from_array items
  envelope_from_value (object fields) = ok_or (serde.as_envelope (object fields)) invalid_json
  envelope_from_value null = err not_a_frame
  envelope_from_value (bool b) = err not_a_frame
  envelope_from_value (number n) = err not_a_frame
  envelope_from_value (string s) = err not_a_frame

  abbrev pub typed_envelope {ℓ} :
      {T : Type ℓ}
      → (Value → Option T)
      → MessageEnvelope Value
      → Fallible ProtocolError (MessageEnvelope T)
  typed_envelope as_type m = ok_or (as_type m.payload) invalid_json >>= λ p. ok (with_payload m p)

  unfoldable pub classify_envelope : MessageEnvelope Value → Outcome RealtimeMessage
  classify_envelope m =
      if str_eq m.event "phx_join"
      then (typed_envelope serde.as_join m >>= λ e. ok (join e))
      else if str_eq m.event "heartbeat"
      then ok (heartbeat m)
      else if str_eq m.event "broadcast"
      then (typed_envelope serde.as_broadcast m >>= λ e. ok (broadcast e))
      else if str_eq m.event "postgres_changes"
      then (typed_envelope serde.as_postgres_changes m >>= λ e. ok (postgres_changes e))
      else if str_eq m.event "phx_reply"
      then (typed_envelope serde.as_reply m >>= λ e. ok (reply_to e))
      else if str_eq m.event "phx_error"
      then (typed_envelope serde.as_error m >>= λ e. ok (channel_failed e))
      else ok (other_event m)

  unfoldable pub parse_envelope : serde.Raw → Outcome (MessageEnvelope Value)
  unfolding envelope_from_value
  parse_envelope raw = ok_or (serde.from_str raw) invalid_json >>= λ v. envelope_from_value v

  unfoldable pub parse_frame : serde.Raw → Outcome RealtimeMessage
  unfolding envelope_from_value classify_envelope
  parse_frame raw = do
    v ← ok_or (serde.from_str raw) invalid_json
    m ← envelope_from_value v
    classify_envelope m

  -- `to_value` is what serde derives for the payload.
  unfoldable pub encode_frame {ℓ} :
      {T : Type ℓ} → (T → Option Value) → MessageEnvelope T → Outcome serde.Raw
  encode_frame to_value m = ok_or (to_value m.payload) invalid_json >>= λ payload.
      ok (serde.to_string (frame_of m payload))

  unfoldable pub outbox_event_from_value : Value → Outcome OutboxEvent
  outbox_event_from_value value = ok_or (serde.as_outbox_event value) invalid_json
