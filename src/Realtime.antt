-- ===== src/Realtime.antt =====
-- The frames of the realtime protocol, rust-core/src/realtime_protocol.rs. What serde derives for the
-- payloads, and the text of JSON, are a parameter (`Serde`).
pub mod Frames
pub mod Changes
pub mod RoundTrip
use serverless_db.Base.{
  ℕ, suc, ◌+◌, ◌≡◌, String, Bool, true, false, ◌&&◌, Text, codes, Option, none, some, List, [], ◌∷◌,
  ◌++◌, map, leb, str_eq, if◌then◌else◌,
}
use serverless_db.Fallible.{Fallible, ok, err, ok_or, ◌>>=◌}
use serverless_db.Json.{
  Value, null, bool, number, string, array, object, Items, nil, cons, Fields, end, field,
}
use serverless_db.Sql.{ℤ}
use serverless_db.Text.{text_eq}
use serverless_db.Text.Decimal.{decimal}
use serverless_db.TreeMap.{text_ltb}

pub record MessageEnvelope {ℓ} (T : Type ℓ) : Type ℓ where
  pub join_ref : Option String
  pub ref_id : Option String
  pub topic : String
  pub event : String
  pub payload : T

pub record ReplayConfig : Type 0 where
  pub since : ℤ
  pub limit : Option ℤ
  pub extra : Fields

pub record BroadcastConfig : Type 0 where
  pub ack : Bool
  pub to_self : Bool
  pub replay : Option ReplayConfig
  pub extra : Fields

pub record PresenceConfig : Type 0 where
  pub key : Option String
  pub enabled : Bool
  pub extra : Fields

pub record PostgresChangesFilter : Type 0 where
  pub event : Text
  pub schema : Option Text
  pub table : Option Text
  pub filter : Option Text
  pub id : Option Text
  pub extra : Fields

pub record JoinConfig : Type 0 where
  pub broadcast : BroadcastConfig
  pub presence : PresenceConfig
  pub postgres_changes : List PostgresChangesFilter
  pub private : Bool
  pub extra : Fields

pub record JoinPayload : Type 0 where
  pub access_token : Option String
  pub config : JoinConfig
  pub extra : Fields

pub record BroadcastPayload : Type 0 where
  pub kind : Option String
  pub event : String
  pub payload : Value
  pub extra : Fields

pub data ReplyStatus : Type 0 where
  ok_status error_status : ReplyStatus

pub record ReplyPayload {ℓ} (T : Type ℓ) : Type ℓ where
  pub status : ReplyStatus
  pub response : T

pub record ErrorPayload : Type 0 where
  pub reason : Option String
  pub extra : Fields

pub record JoinResponse : Type 0 where
  pub postgres_changes : List PostgresChangesFilter

pub data PostgresChangeEvent : Type 0 where
  insert update delete : PostgresChangeEvent

pub record PostgresColumn : Type 0 where
  pub name : String
  pub type_name : String
  pub flags : List String

pub record PostgresChangeData : Type 0 where
  pub schema : String
  pub table : String
  pub event_type : PostgresChangeEvent
  pub commit_timestamp : String
  pub columns : List PostgresColumn
  pub new_record : Value
  pub old_record : Value
  pub errors : List String

pub record PostgresChangesPayload : Type 0 where
  pub ids : List String
  pub change : PostgresChangeData

pub record OutboxEvent : Type 0 where
  pub id : ℤ
  pub created_at : String
  pub table : String
  pub operation : Text
  pub row : Value
  pub actor_sub : Option String
  pub actor_role : Option String

pub data ProtocolError : Type 0 where
  invalid_json not_a_frame wrong_length : ProtocolError
  not_a_string_or_null not_a_string : String → ProtocolError
  unsupported_operation : Text → ProtocolError

abbrev pub Outcome : Type 0 → Type 0
Outcome A = Fallible ProtocolError A

pub data RealtimeMessage : Type 0 where
  join : MessageEnvelope JoinPayload → RealtimeMessage
  heartbeat : MessageEnvelope Value → RealtimeMessage
  broadcast : MessageEnvelope BroadcastPayload → RealtimeMessage
  postgres_changes : MessageEnvelope PostgresChangesPayload → RealtimeMessage
  reply_to : MessageEnvelope (ReplyPayload Value) → RealtimeMessage
  channel_failed : MessageEnvelope ErrorPayload → RealtimeMessage
  other_event : MessageEnvelope Value → RealtimeMessage

-- serde_json on texts, and what serde derives for the types above.
-- `Raw` is the text of a frame.
pub record Serde : Type 1 where
  pub Raw : Type 0
  pub to_string : Value → Raw
  pub from_str : Raw → Option Value
  pub as_envelope : Value → Option (MessageEnvelope Value)
  pub as_join : Value → Option JoinPayload
  pub as_broadcast : Value → Option BroadcastPayload
  pub as_postgres_changes : Value → Option PostgresChangesPayload
  pub as_reply : Value → Option (ReplyPayload Value)
  pub as_error : Value → Option ErrorPayload
  pub as_outbox_event : Value → Option OutboxEvent
