-- ===== src/Http/Accounts.antt =====
-- The endpoints for users and sessions, rust-core/src/http.rs (`auth_signup`, `auth_token`,
-- `auth_logout`, `auth_get_user`, `auth_update_user` and what they call) over AuthStore.antt. The
-- random values of a request, its time and Argon2 and SHA-256 are parameters. A call of the runtime may
-- be refused by the write path, before the tables change or after (`faults`, one for each call).
pub mod Handlers
pub mod SignIn
pub mod SignOut
use serverless_db.Base.{
  ℕ, ◌+◌, String, Bool, true, false, Text, codes, Option, none, some, List, [], ◌∷◌, str_eq,
  if◌then◌else◌,
}
use serverless_db.Error.{
  ApiError, Result, ok, err, new, no_such_user, already_registered, refresh_token_is_invalid,
  session_id_required, json_failed, sqlite_failed, not_authenticated, missing_email,
  missing_password, missing_email_or_phone, invalid_login_credentials, missing_refresh_token,
  refresh_token_missing_session_id, refresh_token_missing_user, unsupported_grant_type,
  no_user_with_token, unknown_logout_scope, auth_user_missing_id, failed_to_mint_access_token,
  failed_to_hash_password,
}
use serverless_db.Fallible.{Fallible}
use serverless_db.Io.{Io, pure, raise, lift, ◌>>=◌, ◌>>◌}
use serverless_db.Json.{
  Value, null, bool, string, number, pos_int, object, Fields, end, field, get_field, insert_field,
}
use serverless_db.Policy.{as_str, or_null}
use serverless_db.Access.{Actor}
use serverless_db.Sql.{pos}
use serverless_db.Text.{starts_with, is_empty}
use serverless_db.AuthStore.{
  AuthTables, AuthUser, AuthStoreError, AuthLogoutScope, global, local, others, AuthUserPatch,
}
use serverless_db.AuthStore as Store
use serverless_db.AuthStore.Users.{
  create_user, get_user_by_email_or_phone, get_user_by_id, update_user,
}
use serverless_db.AuthStore.Sessions.{
  issue_refresh_token, get_active_refresh_token, rotate_refresh_token, revoke_sessions,
}
use serverless_db.Token.{Crypto, AuthError, verify_token, actor_from_authorization}
use serverless_db.Http.{HeaderMap, get, to_str, or_else, header_value}
use serverless_db.Http.RateLimit.{RateLimiter, Buckets, check_auth_rate_limit}

-- How the runtime refuses a call.
pub data Fault : Type 0 where
  refused unflushed : ApiError → Fault

pub record Server : Type 0 where
  pub buckets : Buckets
  pub tables : AuthTables
  pub faults : List (Option Fault)

-- Argon2, SHA-256 in base64, serde_json for the users, and SQLite's choice of a row.
pub record Library : Type 0 where
  pub crypto : Crypto
  pub limiter : RateLimiter
  pub argon2_hash : String → String → Option String
  pub argon2_verify : String → String → Bool
  pub sha256_base64 : String → String
  pub print : Value → Text
  pub parse : Text → Option Value
  pub pick : List AuthUser → Option AuthUser

-- The clock and the random values that one request draws.
pub record Fresh : Type 0 where
  pub now : ℕ
  pub now_ms : ℕ
  pub now_iso : String
  pub user_id : String
  pub session_id : String
  pub refresh_token : String
  pub salt : String

abbrev pub access_token_ttl_secs : ℕ
access_token_ttl_secs = 3600

abbrev pub refresh_token_ttl_secs : ℕ
refresh_token_ttl_secs = 2_592_000

-- `impl From<AuthStoreError> for ApiError`; a panic ends the request with a 500 too.
abbrev pub api_error_of : AuthStoreError → ApiError
api_error_of Store.user_already_registered = new 400 already_registered
api_error_of Store.user_not_found = new 404 no_such_user
api_error_of Store.invalid_refresh_token = new 401 refresh_token_is_invalid
api_error_of Store.session_required = new 400 session_id_required
api_error_of Store.sqlite = new 500 sqlite_failed
api_error_of Store.json = new 500 json_failed
api_error_of Store.panicked = new 500 json_failed

abbrev pub result_of {ℓ} : {A : Type ℓ} → Fallible AuthStoreError A → Result A
result_of (Fallible.ok a) = ok a
result_of (Fallible.err e) = err (api_error_of e)

abbrev pub next_faults : List (Option Fault) → List (Option Fault)
next_faults [] = []
next_faults (fault ∷ faults) = faults

abbrev pub next_fault : List (Option Fault) → Option Fault
next_fault [] = none
next_fault (fault ∷ faults) = fault

abbrev pub answered {ℓ} :
    {A : Type ℓ}
    → Option Fault
    → Fallible AuthStoreError A × AuthTables
    → Server
    → Result A × Server
answered none (r, tables) s = (result_of r, record s { tables = tables })
answered (some (refused e)) (r, tables) s = (err e, s)
answered (some (unflushed e)) (r, tables) s = (err e, record s { tables = tables })

-- A call of the runtime that works on the tables.
unfoldable pub call {ℓ} :
    {A : Type ℓ} → (AuthTables → Fallible AuthStoreError A × AuthTables) → Io Server A
call f s = answered (next_fault s.faults) (f s.tables) (record s { faults = next_faults s.faults })

-- A call that only reads.
abbrev pub look {ℓ} : {A : Type ℓ} → (AuthTables → Fallible AuthStoreError A) → Io Server A
look f = call (λ tables. (f tables, tables))

-- `.ok_or_else(|| HttpError(e))?`.
abbrev pub require {ℓ} : {A : Type ℓ} → Option A → ApiError → Io Server A
require none e = raise e
require (some a) e = pure a

abbrev pub member : String → Value → Option Value
member k (object fields) = get_field k fields
member k _ = none

abbrev pub text_or : Option String → String → String
text_or none d = d
text_or (some s) d = s

abbrev optional_field : String → Option String → Fields → Fields
optional_field k none fields = fields
optional_field k (some s) fields = insert_field k (string s) fields

-- The claims of an access token.
unfoldable pub session_claims : Value → String → Fields
unfolding get_field insert_field
session_claims user session_id = optional_field "phone" (as_str (member "phone" user)) (
    insert_field "session_id" (string session_id)
      (insert_field "email" (string (text_or (as_str (member "email" user)) "")) end))

-- `obj.remove("password_hash")`.
unfoldable pub without : String → Fields → Fields
without k end = end
without k (field j v fields) = if str_eq j k then fields else field j v (without k fields)

unfoldable pub public_user : Value → Value
unfolding without
public_user (object fields) = object (without "password_hash" fields)
public_user value = value

abbrev pub user_to_json : Value → Value
user_to_json user = user

abbrev pub scope_or_global : Option String → String
scope_or_global scope = text_or scope "global"

unfoldable pub parse_logout_scope : Option String → Result AuthLogoutScope
parse_logout_scope scope =
    if str_eq (scope_or_global scope) "global"
    then ok global
    else if str_eq (scope_or_global scope) "local"
    then ok local
    else if str_eq (scope_or_global scope) "others"
    then ok others
    else err (new 400 unknown_logout_scope)

module _ (l : Library) where
  unfoldable pub verify_password : String → String → Bool
  unfolding starts_with
  verify_password password hash =
      if starts_with (codes "$argon2") (codes hash)
      then l.argon2_verify password hash
      else str_eq (l.sha256_base64 password) hash

  unfoldable pub hash_password : String → String → Result String
  hash_password salt password = elim (l.argon2_hash salt password) [
    | none ↦ err (new 500 failed_to_hash_password)
    | some hash ↦ ok hash
  ]

  abbrev pub unauthorized {ℓ κ} : {E : Type ℓ} {A : Type κ} → Fallible E A → Result A
  unauthorized (Fallible.ok a) = ok a
  unauthorized (Fallible.err e) = err (new 401 not_authenticated)

  unfoldable pub actor : ℕ → HeaderMap → Result Actor
  unfolding get header_value actor_from_authorization verify_token
  actor now headers = elim (to_str (get headers "authorization")) [
    | some value ↦ unauthorized (actor_from_authorization l.crypto now (some value))
    | none ↦ elim (header_value headers "apikey") [
      | some key ↦ unauthorized (verify_token l.crypto now key)
      | none ↦ unauthorized (actor_from_authorization l.crypto now none)
    ]
  ]

  abbrev pub minted : Fallible AuthError Text → Result Text
  minted (Fallible.ok t) = ok t
  minted (Fallible.err e) = err (new 500 failed_to_mint_access_token)
