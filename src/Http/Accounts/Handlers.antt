-- ===== src/Http/Accounts/Handlers.antt =====
-- The handlers of the endpoints for users and sessions, rust-core/src/http.rs.
use serverless_db.Base.{
  ℕ, ◌+◌, String, Bool, false, Text, Option, none, some, str_eq, if◌then◌else◌,
}
use serverless_db.Error.{
  Result, ok, err, new, missing_email, missing_password, missing_email_or_phone,
  invalid_login_credentials, missing_refresh_token, refresh_token_missing_session_id,
  refresh_token_missing_user, unsupported_grant_type, no_user_with_token, auth_user_missing_id,
}
use serverless_db.Fallible.{Fallible}
use serverless_db.Io.{Io, pure, raise, lift, ◌>>=◌}
use serverless_db.Json.{Value, string, object, end, field}
use serverless_db.Policy.{as_str, or_null}
use serverless_db.Access.{Actor}
use serverless_db.Sql.{pos}
use serverless_db.AuthStore.Users.{
  create_user, get_user_by_email_or_phone, get_user_by_id, update_user,
}
use serverless_db.AuthStore.Sessions.{
  issue_refresh_token, get_active_refresh_token, rotate_refresh_token, revoke_sessions,
}
use serverless_db.Token.{AuthError, mint_token}
use serverless_db.Http.{HeaderMap, or_else, unwrap_or}
use serverless_db.Http.RateLimit.{check_auth_rate_limit}
use serverless_db.Http.Accounts.{
  Server, Library, Fresh, access_token_ttl_secs, refresh_token_ttl_secs, call, look, require,
  member, text_or, session_claims, public_user, user_to_json, parse_logout_scope, verify_password,
  hash_password, actor, minted,
}

-- The answer to a sign-in; its `token_type` is always "bearer".
pub record Session : Type 0 where
  pub access_token : Text
  pub expires_in : ℕ
  pub expires_at : ℕ
  pub refresh_token : String
  pub user : Value

module _ (l : Library) where
  open l use {crypto, print, parse, pick, limiter}

  abbrev pub session_with : Value → String → ℕ → Result Text → Result Session
  session_with user refresh_token now (err e) = err e
  session_with user refresh_token now (ok access_token) = ok (record {
    access_token = access_token;
    expires_in = access_token_ttl_secs;
    expires_at = now + access_token_ttl_secs;
    refresh_token = refresh_token;
    user = user_to_json user;
  })

  abbrev pub access_token_for : Value → String → ℕ → Fallible AuthError Text
  access_token_for user session_id now =
      mint_token crypto (text_or (as_str (member "id" user)) "unknown") "authenticated"
        (session_claims user session_id) (some (pos access_token_ttl_secs)) now

  unfoldable pub session_response : Value → String → String → ℕ → Result Session
  unfolding session_claims mint_token
  session_response user refresh_token session_id now =
      session_with user refresh_token now (minted l (access_token_for user session_id now))

  -- `build_session`, with the response built before the token is issued.
  unfoldable pub build_session : Fresh → Value → Io Server Session
  unfolding session_response issue_refresh_token call
  build_session fresh user = do
    user_id ← require (as_str (member "id" user)) (new 500 auth_user_missing_id)
    response ← lift (session_response user fresh.refresh_token fresh.session_id fresh.now)
    issued ← call (
        issue_refresh_token fresh.refresh_token user_id fresh.session_id fresh.now
          (fresh.now + refresh_token_ttl_secs))
    pure response

  unfoldable pub limited : Fresh → HeaderMap → Io Server (Unit {0})
  unfolding check_auth_rate_limit
  limited fresh headers s =
      let (r, buckets) = check_auth_rate_limit limiter fresh.now_ms headers s.buckets in
      (r, record s { buckets = buckets })

  abbrev pub new_user : Fresh → String → String → Value → Value
  new_user fresh email password_hash body = object (
      field "id" (string fresh.user_id) (
        field "email" (string email) (
          field "phone" (or_null (member "phone" body)) (
            field "password_hash" (string password_hash) (
              field "user_metadata" (unwrap_or (member "data" body) (object end)) (
                field "app_metadata" (object end) (
                  field "aud" (string "authenticated") (
                    field "role" (string "authenticated") (
                      field "created_at" (string fresh.now_iso) (
                        field "email_confirmed_at" (string fresh.now_iso) (
                          field "last_sign_in_at" (string fresh.now_iso)
                            (field "updated_at" (string fresh.now_iso) end))))))))))))

  unfoldable pub auth_signup : Fresh → HeaderMap → Value → Io Server Session
  unfolding limited hash_password create_user build_session call
  auth_signup fresh headers body = do
    admitted ← limited fresh headers
    email ← require (as_str (member "email" body)) (new 400 missing_email)
    password ← require (as_str (member "password" body)) (new 400 missing_password)
    password_hash ← lift (hash_password l fresh.salt password)
    user ← call (create_user print (new_user fresh email password_hash body))
    build_session fresh user

  -- `filter(|u| u["password_hash"].as_str().map(verify).unwrap_or(false))`.
  unfoldable pub password_fits : String → Value → Bool
  unfolding verify_password
  password_fits password user = elim (as_str (member "password_hash" user)) [
    | none ↦ false
    | some hash ↦ verify_password l password hash
  ]

  abbrev pub filtered : String → Option Value → Option Value
  filtered password none = none
  filtered password (some user) = if password_fits password user then some user else none

  unfoldable pub password_grant : Fresh → Value → Io Server Session
  unfolding get_user_by_email_or_phone password_fits build_session call
  password_grant fresh body = do
    identifier ←
        require (as_str (or_else (member "email" body) (member "phone" body)))
          (new 400 missing_email_or_phone)
    password ← require (as_str (member "password" body)) (new 400 missing_password)
    found ← look (get_user_by_email_or_phone parse pick identifier)
    user ← require (filtered password found) (new 401 invalid_login_credentials)
    build_session fresh user

  unfoldable pub refresh_grant : Fresh → Value → Io Server Session
  unfolding get_active_refresh_token rotate_refresh_token session_response call
  refresh_grant fresh body = do
    refresh_token ← require (as_str (member "refresh_token" body)) (new 400 missing_refresh_token)
    current ← look (get_active_refresh_token parse refresh_token fresh.now)
    session_id ←
        require (as_str (member "session_id" current)) (new 500 refresh_token_missing_session_id)
    user ← require (member "user" current) (new 500 refresh_token_missing_user)
    session ← lift (session_response user fresh.refresh_token session_id fresh.now)
    rotated ← call (
        rotate_refresh_token parse refresh_token fresh.refresh_token fresh.now
          (fresh.now + refresh_token_ttl_secs))
    pure session

  abbrev pub by_grant : String → Fresh → Value → Io Server Session
  by_grant grant_type fresh body =
      if str_eq grant_type "password"
      then password_grant fresh body
      else if str_eq grant_type "refresh_token"
      then refresh_grant fresh body
      else raise (new 400 unsupported_grant_type)

  unfoldable pub auth_token : Fresh → HeaderMap → Option String → Value → Io Server Session
  unfolding limited password_grant refresh_grant
  auth_token fresh headers grant_type body = do
    admitted ← limited fresh headers
    by_grant (text_or grant_type "password") fresh body

  -- The user whom a request's token names.
  unfoldable pub signed_in : Fresh → HeaderMap → Io Server (Actor × String)
  unfolding actor
  signed_in fresh headers = do
    who ← lift (actor l fresh.now headers)
    user_id ← require who.sub (new 401 no_user_with_token)
    pure (who, user_id)

  -- `Ok` with the number of sessions that were ended.
  unfoldable pub auth_logout : Fresh → Option String → HeaderMap → Io Server ℕ
  unfolding signed_in parse_logout_scope revoke_sessions call
  auth_logout fresh scope headers = do
    (who, user_id) ← signed_in fresh headers
    logout_scope ← lift (parse_logout_scope scope)
    call (
        revoke_sessions user_id (as_str (member "session_id" (object who.claims))) logout_scope
          fresh.now)

  unfoldable pub auth_get_user : Fresh → HeaderMap → Io Server (Option Value)
  unfolding signed_in get_user_by_id public_user call
  auth_get_user fresh headers = do
    (who, user_id) ← signed_in fresh headers
    user ← look (get_user_by_id parse user_id)
    pure (elim user [ none ↦ none | some u ↦ some (public_user u) ])

  abbrev new_hash : Fresh → Option String → Result (Option String)
  new_hash fresh none = ok none
  new_hash fresh (some password) = elim (hash_password l fresh.salt password) [
    | err e ↦ err e
    | ok hash ↦ ok (some hash)
  ]

  unfoldable pub auth_update_user : Fresh → HeaderMap → Value → Io Server Value
  unfolding signed_in hash_password update_user public_user call
  auth_update_user fresh headers body = do
    (who, user_id) ← signed_in fresh headers
    hash ← lift (new_hash fresh (as_str (member "password" body)))
    user ← call (
        update_user print parse user_id (record {
          email = as_str (member "email" body);
          phone = as_str (member "phone" body);
          password_hash = hash;
          user_metadata = member "data" body;
          updated_at = fresh.now_iso;
        }))
    pure (public_user user)
