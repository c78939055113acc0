-- ===== src/Http/Writes.antt =====
-- What a write carries beside its rows, rust-core/src/http.rs: the preferences, the idempotency key
-- with the hash of the request, and the headers of the answer. SHA-256 is a parameter. Texts stand by
-- their UTF-8 bytes.
pub mod Retries
use serverless_db.Base.{
  ℕ, ◌+◌, ◌-◌, ◌/◌, ◌%◌, Bool, true, false, ◌&&◌, ◌||◌, Text, codes, Option, none, some, List, [],
  ◌∷◌, ◌++◌, ltb, leb, any, ◌==◌, if◌then◌else◌,
}
use serverless_db.Http.{HeaderMap, get, to_str, unwrap_or, idempotency_key}
use serverless_db.Ident.{WriteIdempotency}
use serverless_db.Json.{Value, null, array, Items, nil, cons}
use serverless_db.Postgrest.{CountMode, uncounted, exact, planned, estimated}
use serverless_db.Text.{starts_with, split, text_eq, is_empty, trim}
use serverless_db.Text.Decimal.{decimal}

-- `str::contains`.
unfoldable pub contains : Text → Text → Bool
unfolding starts_with
contains p [] = is_empty p
contains p (c ∷ s) = starts_with p (c ∷ s) || contains p s

pub data PreferReturn : Type 0 where
  by_default minimal representation : PreferReturn

abbrev prefers : HeaderMap → Text → Bool
prefers headers p = elim (to_str (get headers "prefer")) [ none ↦ false | some v ↦ contains p v ]

unfoldable pub prefer_return : HeaderMap → PreferReturn
unfolding contains get
prefer_return headers =
    if prefers headers (codes "return=representation")
    then representation
    else if prefers headers (codes "return=minimal")
    then minimal
    else by_default

unfoldable pub prefer_upsert : HeaderMap → Bool
unfolding contains get
prefer_upsert headers = prefers headers (codes "resolution=merge-duplicates")

unfoldable pub prefer_count : HeaderMap → CountMode
unfolding contains get
prefer_count headers =
    if prefers headers (codes "count=exact")
    then exact
    else if prefers headers (codes "count=planned")
    then planned
    else if prefers headers (codes "count=estimated")
    then estimated
    else uncounted

abbrev number_or_star : Option ℕ → Text
number_or_star none = codes "*"
number_or_star (some n) = decimal 20 n

unfoldable pub content_range_header : ℕ → Option ℕ → Option ℕ → Text
content_range_header start last total =
    (decimal 20 start ++ b'-' ∷ number_or_star last) ++ b'/' ∷ number_or_star total

abbrev first_or_null : Items → Value
first_or_null nil = null
first_or_null (cons v items) = v

abbrev single_of : Bool → Value → Value
single_of true (array items) = first_or_null items
single_of wanted value = value

unfoldable pub unwrap_single : Value → HeaderMap → Value
unfolding contains get
unwrap_single value headers =
    single_of
      (contains (codes "vnd.pgrst.object+json") (unwrap_or (to_str (get headers "accept")) []))
      value

-- The parts of SDB_CORS_ORIGINS that are not empty.
unfoldable pub trimmed_parts : List Text → List Text
unfolding trim is_empty
trimmed_parts [] = []
trimmed_parts (s ∷ parts) =
    let rest = trimmed_parts parts in if is_empty (trim s) then rest else trim s ∷ rest

abbrev pub no_parts : List Text → Bool
no_parts [] = true
no_parts (s ∷ parts) = false

unfoldable pub cors_origin : Text → Bool → HeaderMap → Text
unfolding trimmed_parts split text_eq get
cors_origin origins_var production headers =
    let allowed = trimmed_parts (split b',' origins_var) in
    let origin = unwrap_or (to_str (get headers "origin")) [] in
    if no_parts allowed && (if production then false else true)
    then codes "*"
    else if any (λ o. text_eq o origin) allowed
    then origin
    else []

abbrev pub hex_digit : ℕ → ℕ
hex_digit d = if ltb d 10 then b'0' + d else b'a' + (d - 10)

unfoldable pub hex_lower : List ℕ → Text
hex_lower [] = []
hex_lower (b ∷ bytes) = hex_digit (b / 16) ∷ hex_digit (b % 16) ∷ hex_lower bytes

-- What is hashed of a request.
abbrev pub hashed_request : Text → Text → Text → Text → Text
hashed_request method uri content_type body =
    method ++ 10 ∷ (uri ++ 10 ∷ (content_type ++ 10 ∷ body))

module _ (sha256 : Text → List ℕ) where
  unfoldable pub write_idempotency_with_key : Text → Text → Text → Text → Text → WriteIdempotency
  unfolding hex_lower
  write_idempotency_with_key method uri key content_type body = record {
    key = key;
    request_hash = hex_lower (sha256 (hashed_request method uri content_type body));
  }

  unfoldable pub write_idempotency : Text → Text → HeaderMap → Text → Text → Option WriteIdempotency
  unfolding write_idempotency_with_key idempotency_key
  write_idempotency method uri headers content_type body = elim (idempotency_key headers) [
    | none ↦ none
    | some key ↦ some (write_idempotency_with_key method uri key content_type body)
  ]

  -- The key of a row behind the first one of a request has the row's number.
  unfoldable pub supabase_write_idempotency :
      Text → Text → HeaderMap → Text → Text → ℕ → Option WriteIdempotency
  unfolding write_idempotency_with_key idempotency_key
  supabase_write_idempotency method uri headers content_type body row_index =
      elim (idempotency_key headers) [
        | none ↦ none
        | some key ↦ some (
            write_idempotency_with_key method uri
              (if row_index == 0 then key else key ++ b':' ∷ decimal 20 row_index) content_type
              body)
      ]

-- The code that stands for a status in an answer.
unfoldable pub code_of : ℕ → Text
code_of status =
    if status == 400
    then codes "22023"
    else if status == 401
    then codes "42P17"
    else if status == 403
    then codes "42501"
    else if status == 404
    then codes "42P01"
    else if status == 409
    then codes "23P01"
    else if status == 425
    then codes "55P03"
    else if status == 500
    then codes "XX000"
    else if status == 502
    then codes "08006"
    else if status == 503
    then codes "57P03"
    else if status == 504
    then codes "57014"
    else codes "XX000"
