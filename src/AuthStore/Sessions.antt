-- ===== src/AuthStore/Sessions.antt =====
-- Sessions and refresh tokens, rust-core/src/auth_store.rs: `issue_refresh_token`,
-- `rotate_refresh_token`, `revoke_sessions` and the lookup of a token.
use serverless_db.Base.{
  ℕ, ◌+◌, String, Bool, true, false, not, ◌&&◌, Text, Option, none, some, List, [], ◌∷◌, map, any,
  ltb, str_eq, if◌then◌else◌,
}
use serverless_db.Fallible.{ok, err, ◌>>=◌}
use serverless_db.Json.{Value, string, object, end, field}
use serverless_db.AuthStore.{
  AuthLogoutScope, global, local, others, sqlite, invalid_refresh_token, session_required, AuthUser,
  AuthSession, RefreshToken, AuthTables, Outcome, transaction, holds, is_null, is_after, user_by_id,
  token_row, session_row, has_user,
}
use serverless_db.AuthStore.Users.{parsed}

-- A token that is active is neither revoked nor expired, and its session is neither.
abbrev pub is_active_row : ℕ → RefreshToken → AuthSession → Bool
is_active_row now rt se =
    is_null rt.revoked_at
    && is_after rt.expires_at now
    && is_null se.revoked_at
    && ltb now se.expires_at

abbrev pub when_active :
    ℕ
    → RefreshToken
    → Option AuthUser
    → Option AuthSession
    → Option (RefreshToken × AuthSession × AuthUser)
when_active now rt (some u) (some se) = if is_active_row now rt se then some (rt, se, u) else none
when_active now rt _ _ = none

abbrev pub joined_rows :
    ℕ → AuthTables → Option RefreshToken → Option (RefreshToken × AuthSession × AuthUser)
joined_rows now s none = none
joined_rows now s (some rt) =
    when_active now rt (user_by_id rt.user_id s) (session_row rt.session_id s)

-- The join of a token, its session and its user.
unfoldable pub active_rows :
    String → ℕ → AuthTables → Option (RefreshToken × AuthSession × AuthUser)
active_rows token now s = joined_rows now s (token_row token s)

abbrev pub session_value : String → Value → Value
session_value session_id user =
    object (field "session_id" (string session_id) (field "user" user end))

abbrev pub revoked_if : Bool → ℕ → RefreshToken → RefreshToken
revoked_if b at rt = if b then record rt { revoked_at = some at } else rt

abbrev pub expiring_if : Bool → ℕ → AuthSession → AuthSession
expiring_if b expires_at se = if b then record se { expires_at = expires_at } else se

abbrev pub ended_if : Bool → ℕ → AuthSession → AuthSession
ended_if b at se = if b then record se { revoked_at = some at } else se

-- `ON CONFLICT(id) DO UPDATE SET expires_at=excluded.expires_at`.
unfoldable pub upsert_session : String → String → ℕ → ℕ → AuthTables → Outcome AuthTables
upsert_session session_id user_id created_at expires_at s =
    if any (λ se. str_eq se.id session_id) s.sessions
    then ok (record s {
      sessions = map (λ se. expiring_if (str_eq se.id session_id) expires_at se) s.sessions;
    })
    else if has_user user_id s
    then ok (record s {
      sessions =
          record {
            id = session_id;
            user_id = user_id;
            created_at = created_at;
            expires_at = expires_at;
            revoked_at = none;
          }
          ∷ s.sessions;
    })
    else err sqlite

unfoldable pub insert_token : RefreshToken → AuthTables → Outcome AuthTables
insert_token row s =
    if any (λ rt. str_eq rt.token row.token) s.refresh_tokens
    then err sqlite
    else if has_user row.user_id s
    then ok (record s { refresh_tokens = row ∷ s.refresh_tokens })
    else err sqlite

unfoldable pub issue_refresh_token :
    String → String → String → ℕ → ℕ → AuthTables → Outcome Unit × AuthTables
unfolding upsert_session insert_token
issue_refresh_token token user_id session_id created_at expires_at s = transaction s (do
  t ← upsert_session session_id user_id created_at expires_at s
  u ←
      insert_token
        (record {
          token = token;
          user_id = user_id;
          session_id = some session_id;
          parent_token = none;
          created_at = created_at;
          expires_at = some expires_at;
          revoked_at = none;
        })
        t
  ok (tt, u))

-- The two updates of a rotation.
unfoldable pub retire : String → Option String → ℕ → ℕ → AuthTables → AuthTables
retire old_token session_id created_at expires_at s = record s {
  refresh_tokens =
      map (λ rt. revoked_if (str_eq rt.token old_token) created_at rt) s.refresh_tokens;
  sessions = map (λ se. expiring_if (holds session_id se.id) expires_at se) s.sessions;
}

-- The token that takes the place of another.
abbrev pub successor : String → RefreshToken → ℕ → ℕ → RefreshToken
successor new_token old created_at expires_at = record {
  token = new_token;
  user_id = old.user_id;
  session_id = old.session_id;
  parent_token = some old.token;
  created_at = created_at;
  expires_at = some expires_at;
  revoked_at = none;
}

abbrev pub covers_session : AuthLogoutScope → String → String → Bool
covers_session global current id = true
covers_session local current id = str_eq id current
covers_session others current id = not (str_eq id current)

-- A comparison with NULL holds in no scope but the global one.
abbrev pub covers : AuthLogoutScope → String → Option String → Bool
covers global current o = true
covers local current o = holds o current
covers others current none = false
covers others current (some id) = not (str_eq id current)

abbrev pub revokes_session : String → String → AuthLogoutScope → AuthSession → Bool
revokes_session user_id current scope se =
    str_eq se.user_id user_id && covers_session scope current se.id && is_null se.revoked_at

abbrev pub revokes_token : String → String → AuthLogoutScope → RefreshToken → Bool
revokes_token user_id current scope rt =
    str_eq rt.user_id user_id && covers scope current rt.session_id && is_null rt.revoked_at

-- How many rows a statement changes.
unfoldable pub count : (AuthSession → Bool) → List AuthSession → ℕ
count p [] = 0
count p (se ∷ sessions) = let rest = count p sessions in if p se then rest + 1 else rest

unfoldable pub revoke : String → String → AuthLogoutScope → ℕ → AuthTables → AuthTables
revoke user_id current scope at s = record s {
  sessions = map (λ se. ended_if (revokes_session user_id current scope se) at se) s.sessions;
  refresh_tokens =
      map (λ rt. revoked_if (revokes_token user_id current scope rt) at rt) s.refresh_tokens;
}

-- The session that a scope asks for.
abbrev pub current_session : AuthLogoutScope → Option String → Outcome String
current_session global o = ok ""
current_session _ none = err session_required
current_session _ (some id) = ok id

unfoldable pub revoke_sessions :
    String → Option String → AuthLogoutScope → ℕ → AuthTables → Outcome ℕ × AuthTables
unfolding revoke count
revoke_sessions user_id current_session_id scope at s = transaction s (do
  current ← current_session scope current_session_id
  ok (count (revokes_session user_id current scope) s.sessions, revoke user_id current scope at s))

module _ (parse : Text → Option Value) where
  abbrev pub found_session : Option (RefreshToken × AuthSession × AuthUser) → Outcome Value
  found_session none = err invalid_refresh_token
  found_session (some (rt, se, u)) = parsed parse u.user_json >>= λ v. ok (session_value se.id v)

  unfoldable pub get_active_refresh_token : String → ℕ → AuthTables → Outcome Value
  unfolding active_rows
  get_active_refresh_token token now s = found_session (active_rows token now s)

  -- The user is parsed behind the commit.
  abbrev pub rotated :
      String
      → String
      → ℕ
      → ℕ
      → AuthTables
      → Option (RefreshToken × AuthSession × AuthUser)
      → Outcome Value × AuthTables
  rotated old_token new_token created_at expires_at s none = (err invalid_refresh_token, s)
  rotated old_token new_token created_at expires_at s (some (rt, se, u)) =
      elim (insert_token (successor new_token rt created_at expires_at)
        (retire old_token (some se.id) created_at expires_at s)) [
          | err e ↦ (err e, s)
          | ok t ↦ (found_session (some (rt, se, u)), t)
        ]

  unfoldable pub rotate_refresh_token :
      String → String → ℕ → ℕ → AuthTables → Outcome Value × AuthTables
  unfolding active_rows insert_token retire
  rotate_refresh_token old_token new_token created_at expires_at s =
      rotated old_token new_token created_at expires_at s (active_rows old_token created_at s)
