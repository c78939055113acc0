-- ===== src/Http/Writes/Retries.antt =====
-- A retry of a write, the parameters of whose query are iterated in another order.
use mathlib.Core.List.{append_cancel_left, append_cancel_right}
use serverless_db.Base.{
  ℕ, String, ◌+◌, ◌-◌, ◌*◌, ◌≡◌, ◌≢◌, refl, ap, ◌∙◌, sym, arith, true, false, Text, codes, List, [],
  ◌∷◌, ◌++◌, all, ltb, length, if◌then◌else◌,
}
use serverless_db.Batch.{Engine, execute_idempotent_write_kind}
use serverless_db.Batch.Idempotency.{IsRetry, reused_key_refused}
use serverless_db.Error.{ok, err, new, idempotency_key_reused}
use serverless_db.Http.Reads.{HashOrder, supabase_table_uri}
use serverless_db.Http.Reads.Parts.{decode_uri, ArePairsOfBytes, decode_uri-with_query}
use serverless_db.Http.Reads.Encoding.{AreBytes}
use serverless_db.Http.Writes.{hex_lower, hashed_request, write_idempotency_with_key}
use serverless_db.Ident.{validate_idempotency}
use serverless_db.Text.{is_ascii_hexdigit, is_ascii_digit, utf8_len}
use serverless_db.Text.Parts.{Lacks}
use serverless_db.Json.{Value}
use serverless_db.Project.{Sqlite, Machine}
use serverless_db.Types.{Codec}

abbrev unhex_lower : ℕ → ℕ
unhex_lower c = if ltb c b'a' then c - b'0' else c - b'a' + 10

unhexed : Text → List ℕ
unhexed [] = []
unhexed (c ∷ []) = []
unhexed (c ∷ d ∷ s) = (unhex_lower c * 16 + unhex_lower d) ∷ unhexed s

unhexed-hex_lower : (bytes : List ℕ) → AreBytes bytes → unhexed (hex_lower bytes) ≡ bytes
unfolding unhexed hex_lower
unhexed-hex_lower [] h = refl
unhexed-hex_lower (b ∷ bytes) h = ground (arith, unhexed-hex_lower bytes)

hex_lower_digits :
    (bytes : List ℕ)
    → AreBytes bytes
    → (all is_ascii_hexdigit (hex_lower bytes) ≡ true)
      × (utf8_len (hex_lower bytes) ≡ 2 * length bytes)
unfolding hex_lower is_ascii_hexdigit is_ascii_digit utf8_len
hex_lower_digits [] h = (refl, refl)
hex_lower_digits (b ∷ bytes) h = ground (arith, hex_lower_digits bytes)

-- A key that is valid with one hash is valid with another.
other_hash_valid :
    (key hash : Text) (digest : List ℕ)
    → AreBytes digest
    → length digest ≡ 32
    → validate_idempotency (record { key = key; request_hash = hash }) ≡ ok tt
    → validate_idempotency (record { key = key; request_hash = hex_lower digest }) ≡ ok tt
unfolding validate_idempotency
other_hash_valid key hash digest bytes long h =
    let (digits, len) = hex_lower_digits digest bytes in ground (arith, digits, len, long, h)

module _ (sha256 : Text → List ℕ) where
  keys_same :
      (method key content_type body u v : Text)
      → (write_idempotency_with_key sha256 method v key content_type body).key
        ≡ (write_idempotency_with_key sha256 method u key content_type body).key
  unfolding write_idempotency_with_key
  keys_same method key content_type body u v = refl

  other_valid :
      (method key content_type body u v : Text)
      → ((a : Text) → AreBytes (sha256 a) × (length (sha256 a) ≡ 32))
      → validate_idempotency (write_idempotency_with_key sha256 method u key content_type body)
        ≡ ok tt
      → validate_idempotency (write_idempotency_with_key sha256 method v key content_type body)
        ≡ ok tt
  unfolding write_idempotency_with_key
  other_valid method key content_type body u v digest h =
      let (bytes, long) = digest (hashed_request method v content_type body) in
      other_hash_valid key (hex_lower (sha256 (hashed_request method u content_type body)))
        (sha256 (hashed_request method v content_type body)) bytes long h

  -- The hash of a request tells uris apart, where SHA-256 does.
  hashes_differ :
      (method key content_type body u v : Text)
      → (sha256 (hashed_request method v content_type body)
            ≡ sha256 (hashed_request method u content_type body)
          → hashed_request method v content_type body ≡ hashed_request method u content_type body)
      → ((a : Text) → AreBytes (sha256 a))
      → u ≢ v
      → (write_idempotency_with_key sha256 method v key content_type body).request_hash
        ≢ (write_idempotency_with_key sha256 method u key content_type body).request_hash
  unfolding write_idempotency_with_key
  hashes_differ method key content_type body u v injective bytes differs e =
      let a : Text = hashed_request method v content_type body in
      let b : Text = hashed_request method u content_type body in
      let digests : sha256 a ≡ sha256 b =
        sym (unhexed-hex_lower (sha256 a) (bytes a))
        ∙ ap unhexed e
        ∙ unhexed-hex_lower (sha256 b) (bytes b) in
      let behind : Text = 10 ∷ (content_type ++ 10 ∷ body) in
      let tails =
        append_cancel_left method (10 ∷ (v ++ behind)) (10 ∷ (u ++ behind)) (injective digests) in
      let uris : v ++ behind ≡ u ++ behind = cc tails in
      differs (sym (append_cancel_right v u behind uris))

-- Uris with the same path and different pairs are not the same.
supabase_table_uri_differs :
    (order order' : HashOrder) (table : Text) (query : List (Text × Text))
    → Lacks b'?' (codes "/rest/v1/" ++ table)
    → ArePairsOfBytes (order.iterate query)
    → ArePairsOfBytes (order'.iterate query)
    → order.iterate query ≢ order'.iterate query
    → supabase_table_uri order table query ≢ supabase_table_uri order' table query
unfolding supabase_table_uri
supabase_table_uri_differs order order' table query h bytes bytes' differs e =
    let path : Text = codes "/rest/v1/" ++ table in
    let there = decode_uri-with_query path (order.iterate query) h bytes in
    let back = decode_uri-with_query path (order'.iterate query) h bytes' in
    differs (ap (λ (x : Text × List (Text × Text)). x.1) (sym there ∙ ap decode_uri e ∙ back))

module _ (c : Codec) (s : Sqlite) (engine : Engine c s) (text : Text → String)
    (sha256 : Text → List ℕ) where
  open c use {Doc}
  open s use {Conn}
  open engine use {Kind}

  -- A retry of a write with the very parameters of the first request is refused with 409 as another
  -- request, where the map that holds them is iterated in another order: the hash is taken over a uri
  -- that is written in the order of the iteration. (SHA-256 gives 32 bytes and tells the two requests
  -- apart; the path has no question mark, and the parameters are bytes.)
  pub reordered_retry_refused :
      (kind : Kind) (order order' : HashOrder) (method table key content_type body pending : Text)
      (query : List (Text × Text)) (n : ℕ) (z : Machine Doc Conn) (v : Value)
      → (sha256 (hashed_request method (supabase_table_uri order' table query) content_type body)
            ≡ sha256
                (hashed_request method (supabase_table_uri order table query) content_type body)
          → hashed_request method (supabase_table_uri order' table query) content_type body
            ≡ hashed_request method (supabase_table_uri order table query) content_type body)
      → ((a : Text) → AreBytes (sha256 a) × (length (sha256 a) ≡ 32))
      → Lacks b'?' (codes "/rest/v1/" ++ table)
      → ArePairsOfBytes (order.iterate query)
      → ArePairsOfBytes (order'.iterate query)
      → order.iterate query ≢ order'.iterate query
      → IsRetry c s engine text n
          (write_idempotency_with_key sha256 method
            (supabase_table_uri order table query)
            key
            content_type
            body)
          v
          z
      → execute_idempotent_write_kind c s engine text kind
          (write_idempotency_with_key sha256 method
            (supabase_table_uri order' table query)
            key
            content_type
            body)
          pending
          z
        ≡ (record { result = err (new 409 idempotency_key_reused); committed = false }, z)
  reordered_retry_refused kind order order' method table key content_type body pending query n z v
        injective digest h bytes bytes' differs retry =
      let u : Text = supabase_table_uri order table query in
      let w : Text = supabase_table_uri order' table query in
      reused_key_refused c s engine text kind
        (write_idempotency_with_key sha256 method u key content_type body)
        (write_idempotency_with_key sha256 method w key content_type body) pending n z v retry
        (keys_same sha256 method key content_type body u w)
        (hashes_differ sha256 method key content_type body u w injective (λ a. (digest a).0)
          (supabase_table_uri_differs order order' table query h bytes bytes' differs))
        (other_valid sha256 method key content_type body u w digest retry.valid)
