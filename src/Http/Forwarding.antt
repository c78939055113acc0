-- ===== src/Http/Forwarding.antt =====
-- Requests that a server passes on to another one, rust-core/src/http.rs (`forward_json` and below).
-- The HTTP client, its urls and serde_json are parameters (`Client`); a sleep between two attempts
-- changes nothing here. `now` is the time at which the endpoint's health is health_after.
pub mod Retries
use serverless_db.Base.{
  ℕ, zero, suc, ◌+◌, String, Bool, true, false, not, ◌&&◌, ◌||◌, Text, codes, Option, none, some,
  List, [], ◌∷◌, ◌++◌, reverse, ltb, leb, ◌==◌, if◌then◌else◌,
}
use serverless_db.Error.{
  ApiError, Result, ok, err, new, ◌>>=◌, no_primary_url, forward_request_failed,
  invalid_forward_method, invalid_forward_url, forward_url_scheme, forward_response_not_json,
  primary_request_failed, primary_answered,
}
use serverless_db.Forward.{Health, record_forward_success, record_forward_failure, primary_url}
use serverless_db.Http.{
  HeaderMap, get, to_str, or_else, unwrap_or, is_some, header_value, idempotency_key,
}
use serverless_db.Json.{Value, null, string, object, get_field}
use serverless_db.Policy.{as_str}
use serverless_db.Postgrest.Parser.{split_once}
use serverless_db.Text.{is_empty, text_eq}
use serverless_db.Types.{RuntimeOptions}

pub data Method : Type 0 where
  get_method head post put patch delete other_method : Method

-- What is sent: the parts of the request that `forward_http_json` builds.
-- The content type goes out only with a body that is not empty, and the key
-- under both names of its header.
pub record Outgoing (Url : Type 0) : Type 0 where
  pub method : Method
  pub url : Url
  pub authorization : Option Text
  pub content_type : Text
  pub body : List ℕ
  pub trace_id : Text
  pub traceparent : Option Text
  pub request_id : Option Text
  pub key : Option Text
  pub attempt : ℕ

-- What the HTTP client reports.
pub data Sent : Type 0 where
  timed_out failed : Sent
  answered : ℕ → List ℕ → Sent

-- The code that is called: `Peer` is whatever the other server keeps.
pub record Client : Type 1 where
  pub Url : Type 0
  pub Peer : Type 0
  pub parse_method : Text → Option Method
  pub parse_url : Text → Option Url
  pub scheme : Url → Text
  pub path : Url → Text
  pub set_path_and_query : Text → Option Text → Url → Url
  pub from_slice : List ℕ → Option Value
  pub send : Outgoing Url → Peer → Sent × Peer

pub record ForwardResponse : Type 0 where
  pub status : ℕ
  pub body : Value

unfoldable pub forward_retry_allowed : Method → Bool → Bool
forward_retry_allowed get_method has_key = true
forward_retry_allowed head has_key = true
forward_retry_allowed _ has_key = has_key

-- `ProjectRuntime::forward_max_attempts`.
unfoldable pub max_attempts_of : RuntimeOptions → ℕ
max_attempts_of options =
    if leb 1 options.forward_max_attempts then options.forward_max_attempts else 1

unfoldable pub forward_attempts : RuntimeOptions → Method → Bool → ℕ
unfolding forward_retry_allowed max_attempts_of
forward_attempts options method has_key =
    if forward_retry_allowed method has_key then max_attempts_of options else 1

unfoldable pub is_forward_endpoint_failure_status : ℕ → Bool
is_forward_endpoint_failure_status status =
    status == 408 || status == 429 || status == 502 || status == 503 || status == 504

unfoldable pub should_retry_forward_response : ℕ → ℕ → ℕ → Method → Bool
unfolding forward_retry_allowed is_forward_endpoint_failure_status
should_retry_forward_response status attempt max_attempts method =
    ltb attempt max_attempts
    && forward_retry_allowed method (ltb 1 max_attempts)
    && is_forward_endpoint_failure_status status

unfoldable pub should_retry_forward_error : ApiError → ℕ → ℕ → Method → Bool
unfolding forward_retry_allowed
should_retry_forward_error e attempt max_attempts method =
    ltb attempt max_attempts
    && forward_retry_allowed method (ltb 1 max_attempts)
    && (e.status == 502 || e.status == 504)

-- Whether a read that a replica answered so is tried at the primary.
unfoldable pub should_fallback_from_replica_route : ℕ → Bool
unfolding is_forward_endpoint_failure_status
should_fallback_from_replica_route status =
    status == 404 || status == 425 || is_forward_endpoint_failure_status status

abbrev member : String → Value → Option Value
member k (object fields) = get_field k fields
member k _ = none

abbrev or_request_failed : Option String → ApiError → ApiError
or_request_failed none e = e
or_request_failed (some text) e = record e { message = primary_answered text }

-- What the caller is answered.
unfoldable pub forward_answer : ForwardResponse → Result Value
unfolding get_field
forward_answer response =
    if leb 200 response.status && ltb response.status 300
    then ok response.body
    else err (
        or_request_failed (as_str (member "error" response.body))
          (new response.status primary_request_failed))

-- `trim_start_matches` and `trim_end_matches` of one character.
unfoldable pub trim_start_char : ℕ → Text → Text
trim_start_char c [] = []
trim_start_char c (d ∷ s) = let rest = trim_start_char c s in if d == c then rest else d ∷ s

unfoldable pub join_paths : Text → Text → Text
unfolding trim_start_char
join_paths [] uri = uri
join_paths (b ∷ base) uri =
    reverse (trim_start_char b'/' (reverse (b ∷ base))) ++ b'/' ∷ trim_start_char b'/' uri

module _ (c : Client) where
  open c use {
    Url, Peer, parse_method, parse_url, scheme, path, set_path_and_query, from_slice, send,
  }

  parse_forward_method : Text → Result Method
  parse_forward_method method = elim (parse_method method) [
    | none ↦ err (new 500 invalid_forward_method)
    | some m ↦ ok m
  ]

  -- The path and the query of the uri go behind the endpoint's path.
  build_forward_url : Text → Text → Result Url
  unfolding join_paths split_once text_eq
  build_forward_url endpoint_url uri = elim (parse_url endpoint_url) [
    | none ↦ err (new 400 invalid_forward_url)
    | some url ↦
        if text_eq (scheme url) (codes "http") || text_eq (scheme url) (codes "https")
        then (let joined =
              join_paths (if text_eq (path url) (codes "/") then [] else path url) uri in
            ok (elim (split_once b'?' joined) [
              | none ↦ set_path_and_query joined none url
              | some (p, q) ↦ set_path_and_query p (some q) url
            ]))
        else err (new 400 forward_url_scheme)
  ]

  json_body : ℕ → List ℕ → Result ForwardResponse
  json_body status [] = ok (record { status = status; body = null })
  json_body status (b ∷ bytes) = elim (from_slice (b ∷ bytes)) [
    | none ↦ err (new 502 forward_response_not_json)
    | some value ↦ ok (record { status = status; body = value })
  ]

  abbrev received : Sent → Result ForwardResponse
  received timed_out = err (new 504 forward_request_failed)
  received failed = err (new 502 forward_request_failed)
  received (answered status bytes) = json_body status bytes

  -- The world, and what was sent into it so far.
  abbrev pub Net : Type 0
  Net = Peer × List (Outgoing Url)

  unfoldable pub forward_http_json : Outgoing Url → Net → Result ForwardResponse × Net
  unfolding json_body
  forward_http_json request (w, sent) =
      let (reply, after) = send request w in (received reply, (after, sent ++ request ∷ []))

  abbrev pub again : Method → ℕ → ℕ → Result ForwardResponse → Bool
  again method attempt max_attempts (ok response) =
      should_retry_forward_response response.status attempt max_attempts method
  again method attempt max_attempts (err e) =
      should_retry_forward_error e attempt max_attempts method

  -- The loop over the attempts; `none` when the fuel runs out.
  unfoldable pub forward_loop :
      ℕ → Outgoing Url → ℕ → ℕ → Net → Option (Result ForwardResponse × Net)
  unfolding forward_http_json should_retry_forward_response should_retry_forward_error
  forward_loop zero request attempt max_attempts net = none
  forward_loop (suc fuel) request attempt max_attempts net =
      let (reply, after) = forward_http_json (record request { attempt = attempt }) net in
      let later = forward_loop fuel request (attempt + 1) max_attempts after in
      if again request.method attempt max_attempts reply then later else some (reply, after)

  -- What the endpoint's health becomes.
  unfoldable pub health_after :
      RuntimeOptions → ℕ → String → Result ForwardResponse → Health → Health
  unfolding record_forward_success record_forward_failure is_forward_endpoint_failure_status
  health_after options now url (err e) health = record_forward_failure options now url health
  health_after options now url (ok response) health =
      if is_forward_endpoint_failure_status response.status
      then record_forward_failure options now url health
      else record_forward_success url health

  abbrev pub answer_of : Result ForwardResponse → Result Value
  answer_of (err e) = err e
  answer_of (ok response) = forward_answer response

  -- The request but for its attempt. `trace_id` is `forward_trace_id`'s, with the runtime's next id
  -- where no header names one.
  unfoldable pub outgoing_of : Method → Url → HeaderMap → List ℕ → Text → Outgoing Url
  unfolding get header_value idempotency_key
  outgoing_of method url headers body next_trace_id = record {
    method = method;
    url = url;
    authorization = to_str (get headers "authorization");
    content_type = unwrap_or (to_str (get headers "content-type")) (codes "application/json");
    body = body;
    trace_id =
        unwrap_or
          (or_else (header_value headers "x-sdb-forward-trace-id")
            (or_else (header_value headers "x-request-id") (header_value headers "traceparent")))
          next_trace_id;
    traceparent = header_value headers "traceparent";
    request_id = header_value headers "x-request-id";
    key = idempotency_key headers;
    attempt = 1;
  }

  unfoldable pub forward_request :
      RuntimeOptions
      → ℕ
      → String
      → Outgoing Url
      → Health
      → Net
      → Option (Result Value × Health × Net)
  unfolding forward_loop health_after forward_answer forward_attempts
  forward_request options now endpoint request health net =
      let max_attempts = forward_attempts options request.method (is_some request.key) in
      elim (forward_loop max_attempts request 1 max_attempts net) [
        | none ↦ none
        | some (reply, after) ↦
            some (answer_of reply, health_after options now endpoint reply health, after)
      ]

  unfoldable pub forward_json_to_url :
      RuntimeOptions
      → ℕ
      → Text
      → String
      → Text
      → Text
      → HeaderMap
      → List ℕ
      → Health
      → Net
      → Option (Result Value × Health × Net)
  unfolding parse_forward_method build_forward_url outgoing_of forward_request
  forward_json_to_url options now next_trace_id endpoint method uri headers body health net =
      elim (do
        m ← parse_forward_method method
        url ← build_forward_url (codes endpoint) uri
        ok (outgoing_of m url headers body next_trace_id)) [
          | err e ↦ some (err e, health, net)
          | ok request ↦ forward_request options now endpoint request health net
        ]

  unfoldable pub forward_json :
      RuntimeOptions
      → ℕ
      → Text
      → Text
      → Text
      → HeaderMap
      → List ℕ
      → Health
      → Net
      → Option (Result Value × Health × Net)
  unfolding forward_json_to_url primary_url
  forward_json options now next_trace_id method uri headers body health net =
      elim (primary_url options) [
        | none ↦ some (err (new 405 no_primary_url), health, net)
        | some endpoint ↦
            forward_json_to_url options now next_trace_id endpoint method uri headers body health
              net
      ]
