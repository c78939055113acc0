-- ===== src/Batch/Idempotency.antt =====
-- Writes with an idempotency key are carried out once.
use serverless_db.Base.{
  ℕ, ◌≤◌, ◌<◌, ◌^◌, ◌≡◌, ◌≢◌, refl, sym, ◌∙◌, Text, String, true, false, some, arith, inl, inr,
  Option-cases,
}
use serverless_db.Error.{
  ok, err, Result-cases, new, idempotency_key_reused, idempotent_write_pending,
}
use serverless_db.Text.Equality.{text_eq_iff}
use serverless_db.Ident.{WriteIdempotency, validate_idempotency}
use serverless_db.Bookmark.{bookmark_for_seq}
use serverless_db.Bookmark.RoundTrip.{bookmark_to_seq-bookmark_for_seq}
use serverless_db.Json.{Value}
use serverless_db.Types.{Codec}
use serverless_db.Project.{Sqlite, Machine}
use serverless_db.Batch.{
  Engine, IdempotencyRecord, ResponseSlot, load_idempotency_record, store_idempotency_record,
  execute_write_kind, execute_idempotent_write_kind, with_bookmark,
}

module _ (c : Codec) (s : Sqlite) (engine : Engine c s) (text : Text → String) where
  open c use {Doc}
  open s use {Conn}
  open engine use {Kind, to_string, from_str, record_of, add_record, record_of-add_record}

  -- A first call that committed and succeeded has left its record.
  pub committed_recorded :
      (kind : Kind) (idempotency : WriteIdempotency) (pending : Text) (x y : Machine Doc Conn)
      (v : Value)
      → execute_idempotent_write_kind c s engine text kind idempotency pending x
        ≡ (record { result = ok v; committed = true }, y)
      → record_of y.state.conn idempotency.key
        ≡ some (
            some (record {
              request_hash = idempotency.request_hash;
              response_json = to_string v;
              bookmark = pending;
            }))
  unfolding execute_idempotent_write_kind store_idempotency_record
  committed_recorded kind idempotency pending x y v h = elim (Result-cases ran.0.result) [
    | inr (e, q) ↦ absurd (ground arith)
    | inl (a, q) ↦ elim (Option-cases (add_record ran.1.state.conn idempotency.key (added a))) [
      | inl e ↦ absurd (ground arith)
      | inr (conn, e) ↦
          let stored = record_of-add_record ran.1.state.conn conn idempotency.key (added a) e in
          ground (arith, stored)
    ]
  ]
    where
      ran : ResponseSlot × Machine Doc Conn
      ran = execute_write_kind c s engine text kind x

      added : Value → IdempotencyRecord
      added a = record {
        request_hash = idempotency.request_hash;
        response_json = to_string (with_bookmark text a pending);
        bookmark = pending;
      }

  -- What the record of an earlier call answers.
  module _ (kind : Kind) (idempotency : WriteIdempotency) (pending : Text) (n : ℕ)
      (x : Machine Doc Conn) (v : Value) (hash : Text)
      (valid : validate_idempotency idempotency ≡ ok tt)
      (e : record_of x.state.conn idempotency.key
        ≡ some (
            some (record {
              request_hash = hash;
              response_json = to_string v;
              bookmark = bookmark_for_seq n;
            })))
      (fits : n < 2 ^ 64) where
    recorded_replays :
        from_str (to_string v) ≡ some v
        → hash ≡ idempotency.request_hash
        → n ≤ x.state.commit_seq
        → execute_idempotent_write_kind c s engine text kind idempotency pending x
          ≡ (record { result = ok v; committed = false }, x)
    unfolding execute_idempotent_write_kind load_idempotency_record
    recorded_replays read same durable = ground (
      arith,
      read,
      text_eq_iff hash idempotency.request_hash,
      bookmark_to_seq-bookmark_for_seq n fits,
    )

    recorded_pending :
        hash ≡ idempotency.request_hash
        → x.state.commit_seq < n
        → execute_idempotent_write_kind c s engine text kind idempotency pending x
          ≡ (record { result = err (new 425 idempotent_write_pending); committed = false }, x)
    unfolding execute_idempotent_write_kind load_idempotency_record
    recorded_pending same early =
        ground (
          arith,
          text_eq_iff hash idempotency.request_hash,
          bookmark_to_seq-bookmark_for_seq n fits,
        )

    recorded_reused :
        hash ≢ idempotency.request_hash
        → execute_idempotent_write_kind c s engine text kind idempotency pending x
          ≡ (record { result = err (new 409 idempotency_key_reused); committed = false }, x)
    unfolding execute_idempotent_write_kind load_idempotency_record
    recorded_reused other = ground (arith, text_eq_iff hash idempotency.request_hash)

  -- The setting of a retry: a first call committed and succeeded under a valid key, later the table
  -- still holds what that call left under the key, and serde_json reads back what it wrote for the
  -- response (which it does where numbers keep their values and nothing is nested too deep).
  pub record IsRetry (n : ℕ) (idempotency : WriteIdempotency) (v : Value) (z : Machine Doc Conn)
      : Type 0 where
    pub valid : validate_idempotency idempotency ≡ ok tt
    pub fits : n < 2 ^ 64
    pub first_kind : Kind
    pub before : Machine Doc Conn
    pub after : Machine Doc Conn
    pub first_call :
        execute_idempotent_write_kind c s engine text first_kind idempotency
          (bookmark_for_seq n)
          before
        ≡ (record { result = ok v; committed = true }, after)
    pub read_back : from_str (to_string v) ≡ some v
    pub kept : record_of z.state.conn idempotency.key ≡ record_of after.state.conn idempotency.key

  retry_recorded :
      (n : ℕ) (idempotency : WriteIdempotency) (v : Value) (z : Machine Doc Conn)
      (h : IsRetry n idempotency v z)
      → record_of z.state.conn idempotency.key
        ≡ some (
            some (record {
              request_hash = idempotency.request_hash;
              response_json = to_string v;
              bookmark = bookmark_for_seq n;
            }))
  retry_recorded n idempotency v z h =
      h.kept
      ∙ committed_recorded h.first_kind idempotency (bookmark_for_seq n) h.before h.after v
          h.first_call

  -- Once the first call's batch is durable, a retry with the same key and hash returns the first
  -- call's response, whatever the kind that it carries: it executes nothing and commits nothing. (The
  -- record of the first call is still in the table, and the text of its response is read back.)
  pub retry_replays :
      (kind : Kind) (idempotency : WriteIdempotency) (pending : Text) (n : ℕ) (z : Machine Doc Conn)
      (v : Value)
      → IsRetry n idempotency v z
      → n ≤ z.state.commit_seq
      → execute_idempotent_write_kind c s engine text kind idempotency pending z
        ≡ (record { result = ok v; committed = false }, z)
  retry_replays kind idempotency pending n z v h durable =
      recorded_replays kind idempotency pending n z v idempotency.request_hash h.valid
        (retry_recorded n idempotency v z h) h.fits h.read_back refl durable

  -- Before that batch is durable, a retry is refused with 425 and changes nothing.
  pub retry_pending :
      (kind : Kind) (idempotency : WriteIdempotency) (pending : Text) (n : ℕ) (z : Machine Doc Conn)
      (v : Value)
      → IsRetry n idempotency v z
      → z.state.commit_seq < n
      → execute_idempotent_write_kind c s engine text kind idempotency pending z
        ≡ (record { result = err (new 425 idempotent_write_pending); committed = false }, z)
  retry_pending kind idempotency pending n z v h early =
      recorded_pending kind idempotency pending n z v idempotency.request_hash h.valid
        (retry_recorded n idempotency v z h) h.fits refl early

  -- A key that was used with another request hash is refused with 409 and changes nothing.
  pub reused_key_refused :
      (kind : Kind) (idempotency other : WriteIdempotency) (pending : Text) (n : ℕ)
      (z : Machine Doc Conn) (v : Value)
      → IsRetry n idempotency v z
      → other.key ≡ idempotency.key
      → other.request_hash ≢ idempotency.request_hash
      → validate_idempotency other ≡ ok tt
      → execute_idempotent_write_kind c s engine text kind other pending z
        ≡ (record { result = err (new 409 idempotency_key_reused); committed = false }, z)
  reused_key_refused kind idempotency other pending n z v h same differs valid =
      recorded_reused kind other pending n z v idempotency.request_hash valid
        (rw same (retry_recorded n idempotency v z h)) h.fits (λ e. differs (sym e))
