-- ===== src/Tests/Batches.antt =====
-- The theorems on writes at concrete inputs: a write with an idempotency key, its retries, and
-- batches that are flushed or fenced off.
use mathlib.Core.List.Perm
use mathlib.Core.List.{reverse_perm}
use serverless_db.Base.{
  ℕ, zero, suc, ◌%◌, List, ap, get_elem?, ◌≡◌, ◌≢◌, refl, Text, codes, String, some, none, [], ◌∷◌,
  true, false, arith, eq_iff, reverse, map,
}
use serverless_db.Error.{ApiError, ok, err, new, idempotency_key_reused}
use serverless_db.Text.{
  trim, is_empty, is_whitespace, utf8_len, is_ascii_alphanumeric, is_ascii_hexdigit,
}
use serverless_db.Http.Reads.{HashOrder, supabase_table_uri, with_query, percent_encode, join_pairs}
use serverless_db.Http.Reads.Encoding.{AreBytes}
use serverless_db.Http.Writes.{write_idempotency_with_key, hashed_request}
use serverless_db.Http.Writes.Retries.{reordered_retry_refused}
use serverless_db.Ident.{WriteIdempotency, validate_idempotency}
use serverless_db.Bookmark.{bookmark_for_seq, bookmark_to_seq}
use serverless_db.Bookmark.RoundTrip.{bookmark_to_seq-bookmark_for_seq}
use serverless_db.Json.{Value, number, pos_int}
use serverless_db.Store.{
  done, lost, writer_lease, lookup, insert, remove, key_eq, exists, read_bytes, put_bytes,
  put_bytes_if_absent,
}
use serverless_db.Types.{WriterLease}
use serverless_db.Lease.{ensure_writer_lease, acquire, new_lease}
use serverless_db.Project.{Machine, put_manifest, load_manifest}
use serverless_db.Project.Writer.{
  upload_wal, durabilize_wal, commit_wal, restart_chain, upload_tail, write_manifest, compact,
  should_write_metadata, should_snapshot, ensure_writer_lease_for_state,
}
use serverless_db.Batch.{
  WriteJob, ResponseSlot, with_bookmark, execute_idempotent_write_kind, load_idempotency_record,
  store_idempotency_record, execute_write_kind, execute_write_batch, flush, flush_slots,
  committed_ops, respond,
}
use serverless_db.Batch.Idempotency.{IsRetry, retry_replays}
use serverless_db.Batch.Responses.{acknowledged_flushed, fenced_batch_refused}
use serverless_db.Tests.Samples.{
  codec, sqlite, engine, alice, bob, first_machine, first_state, Object, Connection, lease_object,
}

abbrev text : Text → String
text t = "bookmark"

abbrev idempotency : WriteIdempotency
idempotency = record {
  key = codes "key-1";
  request_hash = codes "0000000000000000000000000000000000000000000000000000000000000000";
}

abbrev answer : Value
answer = with_bookmark text (number (pos_int 1)) (bookmark_for_seq 1)

abbrev after_first : Machine Object Connection
after_first =
    (execute_idempotent_write_kind codec sqlite engine text (9 ∷ []) idempotency
      (bookmark_for_seq 1) first_machine).1

first_call :
    execute_idempotent_write_kind codec sqlite engine text
      (9 ∷ [])
      idempotency
      (bookmark_for_seq 1)
      first_machine
    ≡ (record { result = ok answer; committed = true }, after_first)
unfolding execute_idempotent_write_kind validate_idempotency trim is_empty is_whitespace utf8_len
    is_ascii_alphanumeric is_ascii_hexdigit load_idempotency_record store_idempotency_record
    execute_write_kind
first_call = refl

-- The state in which the retries arrive, with the sequence number of the last durable batch.
abbrev later : ℕ → Machine Object Connection
later n = record after_first { state = record after_first.state { commit_seq = n } }

a-IsRetry : (n : ℕ) → IsRetry codec sqlite engine text 1 idempotency answer (later n)
unfolding with_bookmark validate_idempotency trim is_empty is_whitespace utf8_len
    is_ascii_alphanumeric is_ascii_hexdigit
a-IsRetry n = record {
  valid = refl;
  fits = omega arith;
  first_kind = 9 ∷ [];
  before = first_machine;
  after = after_first;
  first_call = first_call;
  read_back = refl;
  kept = refl;
}

retry_replays_example :
    execute_idempotent_write_kind codec sqlite engine text
      (8 ∷ [])
      idempotency
      (bookmark_for_seq 2)
      (later 1)
    ≡ (record { result = ok answer; committed = false }, later 1)
retry_replays_example =
    retry_replays codec sqlite engine text (8 ∷ []) idempotency (bookmark_for_seq 2) 1 (later 1)
      answer (a-IsRetry 1) (omega arith)

-- A digest that looks at the first letter of the query.
abbrev nth : List ℕ → ℕ → ℕ
nth [] i = 0
nth (c ∷ s) zero = c
nth (c ∷ s) (suc i) = nth s i

abbrev zeros : ℕ → List ℕ
zeros zero = []
zeros (suc n) = 0 ∷ zeros n

abbrev digest : Text → List ℕ
digest s = (nth s 17 % 256) ∷ zeros 31

digest_bytes : (s : Text) → AreBytes (digest s)
digest_bytes s = ground arith

abbrev p : Text × Text
p = (codes "a", codes "1")

abbrev q : Text × Text
q = (codes "b", codes "2")

abbrev in_order : HashOrder
in_order = record { iterate = λ pairs. pairs; iterate-Perm = λ pairs. Perm.refl pairs }

abbrev reversed : HashOrder
reversed = record { iterate = λ pairs. reverse pairs; iterate-Perm = λ pairs. reverse_perm pairs }

abbrev sent : WriteIdempotency
sent =
    write_idempotency_with_key digest (codes "PATCH")
      (supabase_table_uri in_order (codes "t") (p ∷ q ∷ [])) (codes "k1") [] []

abbrev after_sent : Machine Object Connection
after_sent =
    (execute_idempotent_write_kind codec sqlite engine text (9 ∷ []) sent (bookmark_for_seq 1)
      first_machine).1

sent_call :
    execute_idempotent_write_kind codec sqlite engine text
      (9 ∷ [])
      sent
      (bookmark_for_seq 1)
      first_machine
    ≡ (record { result = ok answer; committed = true }, after_sent)
unfolding execute_idempotent_write_kind validate_idempotency trim is_empty is_whitespace utf8_len
    is_ascii_alphanumeric is_ascii_hexdigit load_idempotency_record store_idempotency_record
    execute_write_kind write_idempotency_with_key with_query percent_encode join_pairs
    supabase_table_uri
sent_call = refl

sent-IsRetry : IsRetry codec sqlite engine text 1 sent answer after_sent
unfolding with_bookmark validate_idempotency trim is_empty is_whitespace utf8_len
    is_ascii_alphanumeric is_ascii_hexdigit write_idempotency_with_key with_query percent_encode
    join_pairs supabase_table_uri
sent-IsRetry = record {
  valid = refl;
  fits = omega arith;
  first_kind = 9 ∷ [];
  before = first_machine;
  after = after_sent;
  first_call = sent_call;
  read_back = refl;
  kept = refl;
}

digests_differ :
    {P : Type 0}
    → digest (
        hashed_request (codes "PATCH") (supabase_table_uri reversed (codes "t") (p ∷ q ∷ [])) [] [])
      ≡ digest (
          hashed_request
            (codes "PATCH")
            (supabase_table_uri in_order (codes "t") (p ∷ q ∷ []))
            []
            [])
    → P
unfolding with_query percent_encode join_pairs supabase_table_uri
digests_differ e = absurd (omega (arith, ap (λ (s : List ℕ). nth s 0) e))

abbrev first_letter : List (Text × Text) → ℕ
first_letter [] = 0
first_letter (x ∷ pairs) = nth x.0 0

reordered_retry_refused_example :
    execute_idempotent_write_kind codec sqlite engine text
      (8 ∷ [])
      (write_idempotency_with_key digest
        (codes "PATCH")
        (supabase_table_uri reversed (codes "t") (p ∷ q ∷ []))
        (codes "k1")
        []
        [])
      (bookmark_for_seq 2)
      after_sent
    ≡ (record { result = err (new 409 idempotency_key_reused); committed = false }, after_sent)
reordered_retry_refused_example =
    reordered_retry_refused codec sqlite engine text digest (8 ∷ []) in_order reversed
      (codes "PATCH") (codes "t") (codes "k1") [] [] (bookmark_for_seq 2) (p ∷ q ∷ []) 1 after_sent
      answer digests_differ (λ a. (digest_bytes a, refl)) refl (refl, refl, (refl, refl, tt))
      (refl, refl, (refl, refl, tt)) (λ e. omega (arith, ap first_letter e)) sent-IsRetry

abbrev slot : ResponseSlot
slot = record { result = ok (number (pos_int 1)); committed = true }

answered :
    (flush_slots codec sqlite engine text alice 10 (slot ∷ []) first_machine).0 ≡ ok answer ∷ []
unfolding flush_slots flush committed_ops respond ensure_writer_lease_for_state ensure_writer_lease
    acquire put_bytes_if_absent durabilize_wal compact should_write_metadata should_snapshot
    commit_wal restart_chain upload_tail write_manifest put_manifest load_manifest exists read_bytes
    put_bytes lookup insert remove key_eq
answered = refl

acknowledged_flushed_example :
    ((flush codec sqlite engine text alice 10 1 first_machine).0 ≡ ok tt)
    × ((v : Value) × (slot.result ≡ ok v) × (answer ≡ with_bookmark text v (bookmark_for_seq 1)))
unfolding committed_ops
acknowledged_flushed_example =
    acknowledged_flushed codec sqlite engine text alice 10 (slot ∷ []) 0 slot answer first_machine
      refl refl (ap (λ rs. get_elem? rs 0) answered)

abbrev alice_lease : WriterLease
alice_lease = new_lease codec alice 10 "p" 10

abbrev fenced : Machine Object Connection
fenced = record {
  world = record { objects = (writer_lease "p", lease_object alice_lease) ∷ []; faults = [] };
  state = first_state;
}

abbrev jobs : List (WriteJob (List ℕ))
jobs = record { kind = 9 ∷ []; idempotency = none } ∷ []

alice_not_bob : ◌≢◌ {A = String} "alice" "bob"
alice_not_bob = ground (arith, eq_iff "alice" "bob")

fenced_batch_refused_example :
    ((e : ApiError) × ((execute_write_batch codec sqlite engine text bob 900 jobs fenced).0
        ≡ map (λ job. err e) jobs))
    × ((execute_write_batch codec sqlite engine text bob 900 jobs fenced).1.state ≡ fenced.state)
    × ((execute_write_batch codec sqlite engine text bob 900 jobs fenced).1.world.objects
        ≡ fenced.world.objects)
fenced_batch_refused_example =
    fenced_batch_refused codec sqlite engine text bob 900 jobs alice_lease fenced (omega arith)
      (record {
        doc = lease_object alice_lease;
        stored = unfold lookup key_eq in refl;
        parsed = refl;
      })
      refl alice_not_bob (omega arith)

bookmark_to_seq-bookmark_for_seq_example : bookmark_to_seq (bookmark_for_seq 12345) ≡ ok 12345
bookmark_to_seq-bookmark_for_seq_example = bookmark_to_seq-bookmark_for_seq 12345 (omega arith)

-- The state after the first call, where the write of the manifest will fail.
abbrev failing : Machine Object Connection
failing = record after_first {
  world = record after_first.world { faults = done ∷ done ∷ done ∷ done ∷ lost ∷ [] };
}

abbrev segment_uploaded : Machine Object Connection
segment_uploaded = (upload_wal codec sqlite alice 10 (some failing.state.conn.log) failing).1

abbrev unflushed : Machine Object Connection
unflushed = (commit_wal codec sqlite alice 10 (codes "op") 1 failing).1
