-- ===== src/Realtime/RoundTrip.antt =====
-- A frame that was encoded is read back, and a frame is classified by its event.
use serverless_db.Base.{
  ◌≡◌, ◌≢◌, refl, subst, arith, inl, inr, String, Option, none, some, Bool-cases, Option-cases,
  str_eq, str_eq-false, eq_iff,
}
use serverless_db.Fallible.{ok, ◌>>=◌, Fallible-cases}
use serverless_db.Json.{Value}
use serverless_db.Realtime.{
  MessageEnvelope, Serde, RealtimeMessage, join, heartbeat, broadcast, postgres_changes, reply_to,
  channel_failed, other_event, JoinPayload, BroadcastPayload, PostgresChangesPayload, ReplyPayload,
  ErrorPayload,
}
use serverless_db.Realtime.Frames.{
  with_payload, typed_envelope, frame_of, optional_string, string_or_null, envelope_from_array,
  envelope_from_value, parse_envelope, parse_frame, classify_envelope, encode_frame,
}

optional_string-string_or_null :
    (o : Option String) (name : String) → optional_string (string_or_null o) name ≡ ok o
optional_string-string_or_null none name = refl
optional_string-string_or_null (some s) name = refl

module _ (serde : Serde) where
  envelope_from_value-frame_of {ℓ} :
      {T : Type ℓ} (m : MessageEnvelope T) (payload : Value)
      → envelope_from_value serde (frame_of m payload) ≡ ok (with_payload m payload)
  unfolding envelope_from_value envelope_from_array
  envelope_from_value-frame_of m payload = ground (
    arith,
    optional_string-string_or_null m.join_ref "join_ref",
    optional_string-string_or_null m.ref_id "ref",
  )

  -- Every message whose frame serde_json reads back from its text is read back from it, with its
  -- payload in JSON. (The payload has a JSON value.)
  pub parse_envelope-encode_frame {ℓ} :
      {T : Type ℓ} (to_value : T → Option Value) (m : MessageEnvelope T) (payload : Value)
      → to_value m.payload ≡ some payload
      → serde.from_str (serde.to_string (frame_of m payload)) ≡ some (frame_of m payload)
      → (raw : serde.Raw) × (encode_frame serde to_value m ≡ ok raw)
        × (parse_envelope serde raw ≡ ok (with_payload m payload))
  unfolding parse_envelope encode_frame
  parse_envelope-encode_frame to_value m payload h read =
      let framed = envelope_from_value-frame_of m payload in
      (serde.to_string (frame_of m payload), ground (arith, h), ground (arith, read, framed))

  -- What an envelope is, by its event: the four of clients, the two of the server, or another one.
  pub data IsOf (m : MessageEnvelope Value) : RealtimeMessage → Type 0 where
    is_join :
        (p : JoinPayload)
        → m.event ≡ "phx_join"
        → serde.as_join m.payload ≡ some p
        → IsOf m (join (with_payload m p))
    is_heartbeat : m.event ≡ "heartbeat" → IsOf m (heartbeat m)
    is_broadcast :
        (p : BroadcastPayload)
        → m.event ≡ "broadcast"
        → serde.as_broadcast m.payload ≡ some p
        → IsOf m (broadcast (with_payload m p))
    is_changes :
        (p : PostgresChangesPayload)
        → m.event ≡ "postgres_changes"
        → serde.as_postgres_changes m.payload ≡ some p
        → IsOf m (postgres_changes (with_payload m p))
    is_reply :
        (p : ReplyPayload Value)
        → m.event ≡ "phx_reply"
        → serde.as_reply m.payload ≡ some p
        → IsOf m (reply_to (with_payload m p))
    is_error :
        (p : ErrorPayload)
        → m.event ≡ "phx_error"
        → serde.as_error m.payload ≡ some p
        → IsOf m (channel_failed (with_payload m p))
    is_other :
        m.event ≢ "phx_join"
        → m.event ≢ "heartbeat"
        → m.event ≢ "broadcast"
        → m.event ≢ "postgres_changes"
        → m.event ≢ "phx_reply"
        → m.event ≢ "phx_error"
        → IsOf m (other_event m)

  typed-ok :
      {T : Type 0} (as_type : Value → Option T) (con : MessageEnvelope T → RealtimeMessage)
      (m : MessageEnvelope Value) (r : RealtimeMessage)
      → (typed_envelope serde as_type m >>= λ e. ok (con e)) ≡ ok r
      → (p : T) × (as_type m.payload ≡ some p) × (con (with_payload m p) ≡ r)
  typed-ok as_type con m r h = elim (Option-cases (as_type m.payload)) [
    | inl q ↦ absurd (ground (arith, q, h))
    | inr (p, q) ↦ (p, q, ground (arith, q, h))
  ]

  classify_envelope-IsOf :
      (m : MessageEnvelope Value) (r : RealtimeMessage)
      → classify_envelope serde m ≡ ok r
      → IsOf m r
  unfolding classify_envelope
  classify_envelope-IsOf m r h = elim (Bool-cases (str_eq m.event "phx_join")) [
    | inl a ↦
        let (p, q, e) = typed-ok serde.as_join join m r (rw a at h) in
        subst (IsOf m) e (is_join p ((eq_iff m.event "phx_join").0 a) q)
    | inr a ↦ elim (Bool-cases (str_eq m.event "heartbeat")) [
      | inl b ↦
          let e : heartbeat m ≡ r = ground (arith, a, b, h) in
          subst (IsOf m) e (is_heartbeat ((eq_iff m.event "heartbeat").0 b))
      | inr b ↦ elim (Bool-cases (str_eq m.event "broadcast")) [
        | inl c ↦
            let (p, q, e) = typed-ok serde.as_broadcast broadcast m r (rw (a, b, c) at h) in
            subst (IsOf m) e (is_broadcast p ((eq_iff m.event "broadcast").0 c) q)
        | inr c ↦ elim (Bool-cases (str_eq m.event "postgres_changes")) [
          | inl d ↦
              let (p, q, e) =
                typed-ok serde.as_postgres_changes postgres_changes m r (rw (a, b, c, d) at h) in
              subst (IsOf m) e (is_changes p ((eq_iff m.event "postgres_changes").0 d) q)
          | inr d ↦ elim (Bool-cases (str_eq m.event "phx_reply")) [
            | inl f ↦
                let (p, q, e) = typed-ok serde.as_reply reply_to m r (rw (a, b, c, d, f) at h) in
                subst (IsOf m) e (is_reply p ((eq_iff m.event "phx_reply").0 f) q)
            | inr f ↦ elim (Bool-cases (str_eq m.event "phx_error")) [
              | inl g ↦
                  let (p, q, e) =
                    typed-ok serde.as_error channel_failed m r (rw (a, b, c, d, f, g) at h) in
                  subst (IsOf m) e (is_error p ((eq_iff m.event "phx_error").0 g) q)
              | inr g ↦
                  let e : other_event m ≡ r = cc (rw (a, b, c, d, f, g) at h) in
                  subst (IsOf m) e (
                    is_other (str_eq-false m.event "phx_join" a)
                      (str_eq-false m.event "heartbeat" b) (str_eq-false m.event "broadcast" c)
                      (str_eq-false m.event "postgres_changes" d)
                      (str_eq-false m.event "phx_reply" f) (str_eq-false m.event "phx_error" g))
            ]
          ]
        ]
      ]
    ]
  ]

  -- Every frame that is parsed as a message is one by its event: the event names which of the six kinds
  -- it is, with the payload read in that kind's type, and a frame with any other event is passed on as
  -- it is.
  pub parse_frame-IsOf :
      (raw : serde.Raw) (r : RealtimeMessage)
      → parse_frame serde raw ≡ ok r
      → (m : MessageEnvelope Value) × (parse_envelope serde raw ≡ ok m) × IsOf m r
  unfolding parse_frame parse_envelope
  parse_frame-IsOf raw r h = elim (Option-cases (serde.from_str raw)) [
    | inl q ↦ absurd (ground (arith, q, h))
    | inr (v, q) ↦ elim (Fallible-cases (envelope_from_value serde v)) [
      | inr (e, w) ↦ absurd (ground (arith, q, w, h))
      | inl (m, w) ↦ (m, ground (arith, q, w), classify_envelope-IsOf m r (ground (arith, q, w, h)))
    ]
  ]
