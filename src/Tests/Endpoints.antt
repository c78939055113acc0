-- ===== src/Tests/Endpoints.antt =====
-- The theorems on forwarded requests, on the endpoints for sessions and on the writer's queue at
-- concrete inputs.
use serverless_db.Base.{
  ℕ, zero, suc, ◌+◌, ◌≤◌, ◌<◌, ◌≡◌, refl, arith, String, true, false, Text, codes, Option, none,
  some, List, [], ◌∷◌, str_eq, any, if◌then◌else◌,
}
use serverless_db.Error.{Result, ok}
use serverless_db.Fallible.{Fallible}
use serverless_db.Json.{Value, null, string, object, field, end, get_field, insert_field}
use serverless_db.Sql.{pos}
use serverless_db.Policy.{as_str}
use serverless_db.Types.{default_options}
use serverless_db.AuthStore.{AuthUser, invalid_refresh_token}
use serverless_db.AuthStore.Sessions.{
  get_active_refresh_token, issue_refresh_token, upsert_session, insert_token,
}
use serverless_db.AuthStore.Users.{
  create_user, required_str, optional_str, insert_user, get_user_by_email_or_phone, matching,
}
use serverless_db.Http.RateLimit.{
  check_auth_rate_limit, check, client_ip, bucket_of, set_bucket, recent,
}
use serverless_db.Batch.Queue.{
  Poll, in_time, late, or_one, writer_loop, run_batches, concat, AreBatches, writer_loop_total,
  fill, collect,
}
use serverless_db.Http.{HeaderMap, get}
use serverless_db.Http.Accounts.{
  Server, Library, Fresh, member, session_claims, call, verify_password,
}
use serverless_db.Http.Accounts.Handlers.{
  Session, build_session, session_response, auth_token, auth_logout, limited, password_grant,
  password_fits,
}
use serverless_db.Http.Accounts.SignIn.{IsPasswordSignIn, password_sign_in}
use serverless_db.Http.Accounts.SignOut.{Carries, bearer, sign_out_ends_session}
use serverless_db.Http.Forwarding.{
  post, Outgoing, Client, Sent, timed_out, answered, ForwardResponse, forward_retry_allowed,
  max_attempts_of, forward_attempts, again, forward_request, answer_of, health_after, forward_loop,
  forward_http_json, should_retry_forward_response, should_retry_forward_error,
  is_forward_endpoint_failure_status, forward_answer,
}
use serverless_db.Http.Forwarding.Retries.{attempts, forward_request_total}
use serverless_db.Tests.Accounts.{amy, with_amy, print, parse}
use serverless_db.Tests.Requests.{crypto_for, sample-IsReadBack}
use serverless_db.Token.{payload_of, is_hs256, mint_token, b64_json, sign, jwt_secret, add_i64}
use serverless_db.Forward.{record_forward_success, remove_entry}
use serverless_db.Text.{starts_with, split, text_eq, strip_prefix, trim, trim_start, is_whitespace}

-- A server that times out as often as it counts down, and then answers.
abbrev flaky_send : ℕ → Sent × ℕ
flaky_send zero = (answered 200 [], zero)
flaky_send (suc n) = (timed_out, n)

abbrev flaky : Client
flaky = record {
  Url = Text;
  Peer = ℕ;
  parse_method = λ s. some post;
  parse_url = λ s. some s;
  scheme = λ url. codes "http";
  path = λ url. codes "/";
  set_path_and_query = λ p q url. p;
  from_slice = λ bytes. some null;
  send = λ request n. flaky_send n;
}

abbrev insert_row : Outgoing Text
insert_row = record {
  method = post;
  url = codes "/v1/projects/p/tables/t";
  authorization = none;
  content_type = codes "application/json";
  body = [];
  trace_id = codes "t1";
  traceparent = none;
  request_id = none;
  key = some (codes "k1");
  attempt = 1;
}

forward_request_total_example :
    (n : ℕ) × (reply : Result ForwardResponse) × (after : ℕ) × (forward_request flaky
        default_options 0 "http://primary" insert_row []
        (2, [])
      ≡ some (
        answer_of flaky reply,
        health_after flaky default_options 0 "http://primary" reply [],
        (after, attempts insert_row 1 (suc n)),
      ))
    × (suc n ≤ max_attempts_of default_options)
    × (0 < n → forward_retry_allowed post true ≡ true)
    × (again flaky post (suc n) (forward_attempts default_options post true) reply ≡ false)
forward_request_total_example =
    forward_request_total flaky default_options 0 "http://primary" insert_row [] 2

third_attempt_answers :
    forward_request flaky default_options 0 "http://primary" insert_row [] (2, [])
    ≡ some (ok null, [], (0, attempts insert_row 1 3))
unfolding forward_request forward_attempts forward_retry_allowed max_attempts_of forward_loop
    forward_http_json should_retry_forward_response should_retry_forward_error
    is_forward_endpoint_failure_status forward_answer health_after record_forward_success
    remove_entry
third_attempt_answers = refl

abbrev digest : String → String
digest password = if str_eq password "secret" then "h" else "x"

abbrev pick_first : List AuthUser → Option AuthUser
pick_first [] = none
pick_first (u ∷ users) = some u

abbrev amy_payload : Value
amy_payload = payload_of "u1" "authenticated" (session_claims amy "s1") (some (pos 3600)) 1

abbrev library : Library
library = record {
  crypto = crypto_for amy_payload;
  limiter = record { window_secs = 60; max_requests = 10 };
  argon2_hash = λ salt password. some "$argon2";
  argon2_verify = λ password hash. false;
  sha256_base64 = digest;
  print = print;
  parse = parse;
  pick = pick_first;
}

abbrev fresh : Fresh
fresh = record {
  now = 1;
  now_ms = 1000;
  now_iso = "1970-01-01T00:00:01Z";
  user_id = "u9";
  session_id = "s1";
  refresh_token = "r1";
  salt = "n";
}

abbrev server : Server
server = record { buckets = []; tables = with_amy; faults = [] }

abbrev session : Session
session = record {
  access_token = codes "/.0.8";
  expires_in = 3600;
  expires_at = 3601;
  refresh_token = "r1";
  user = amy;
}

abbrev credentials : Value
credentials = object (field "email" (string "amy@x") (field "password" (string "secret") end))

abbrev behind : Server
behind = (auth_token library fresh [] none credentials server).1

signs_in : auth_token library fresh [] none credentials server ≡ (ok session, behind)
unfolding build_session session_response session_claims mint_token b64_json sign jwt_secret
    payload_of add_i64 get_field insert_field issue_refresh_token upsert_session insert_token call
    create_user required_str optional_str insert_user auth_token limited check_auth_rate_limit check
    client_ip get bucket_of set_bucket recent password_grant get_user_by_email_or_phone matching
    password_fits verify_password starts_with split text_eq
signs_in = refl

password_sign_in_example : IsPasswordSignIn library fresh credentials with_amy session
password_sign_in_example =
    password_sign_in library fresh [] none credentials server behind session refl signs_in

abbrev later : Fresh
later = record fresh { now = 600; session_id = "s2"; refresh_token = "r2" }

abbrev with_bearer : HeaderMap
with_bearer = ("authorization", some (codes "Bearer /.0.8")) ∷ []

abbrev built : Server
built = (build_session library fresh amy server).1

builds : build_session library fresh amy server ≡ (ok session, built)
unfolding build_session session_response session_claims mint_token b64_json sign jwt_secret
    payload_of add_i64 get_field insert_field issue_refresh_token upsert_session insert_token call
    create_user required_str optional_str insert_user
builds = refl

no_session : any (λ se. str_eq se.id "s1") with_amy.sessions ≡ false
unfolding create_user required_str optional_str insert_user get_field
no_session = refl

no_faults : built.faults ≡ []
unfolding build_session session_response session_claims mint_token b64_json sign jwt_secret
    payload_of add_i64 get_field insert_field issue_refresh_token upsert_session insert_token call
    create_user required_str optional_str insert_user
no_faults = refl

amy_no_header : is_hs256 amy_payload ≡ false
unfolding payload_of session_claims insert_field get_field
amy_no_header = refl

amy_id : as_str (member "id" amy) ≡ some "u1"
unfolding get_field
amy_id = refl

carried : Carries with_bearer (codes "/.0.8")
unfolding get strip_prefix trim trim_start is_whitespace
carried = bearer refl refl refl

sign_out_ends_session_example :
    (n : ℕ) × (v : Server) × (auth_logout library later (some "local") with_bearer built
      ≡ (ok n, v))
    × (get_active_refresh_token parse "r1" 700 v.tables ≡ Fallible.err invalid_refresh_token)
sign_out_ends_session_example =
    sign_out_ends_session library fresh later amy "u1" with_bearer server built built session 700
      no_session (omega arith) amy_id (sample-IsReadBack amy_payload amy_no_header) builds
      (omega arith) carried refl no_faults

-- The responses are the jobs themselves, and the state counts the batches.
abbrev echo : List ℕ → ℕ → List ℕ × ℕ
echo batch n = (batch, n + 1)

abbrev polls : List Poll
polls = in_time ∷ late ∷ in_time ∷ late ∷ []

writer_loop_total_example :
    (batches : List (List ℕ)) × (concat batches ≡ 1 ∷ 2 ∷ 3 ∷ 4 ∷ 5 ∷ [])
    × AreBatches (or_one 3) batches
    × (writer_loop echo 6 3 polls (1 ∷ 2 ∷ 3 ∷ 4 ∷ 5 ∷ []) 0 ≡ some (run_batches echo batches 0))
writer_loop_total_example =
    writer_loop_total echo 6 3 polls (1 ∷ 2 ∷ 3 ∷ 4 ∷ 5 ∷ []) 0 (omega arith)

three_batches :
    writer_loop echo 6 3 polls (1 ∷ 2 ∷ 3 ∷ 4 ∷ 5 ∷ []) 0 ≡ some (1 ∷ 2 ∷ 3 ∷ 4 ∷ 5 ∷ [], 3)
unfolding writer_loop fill collect
three_batches = refl
