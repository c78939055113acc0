-- ===== src/AuthStore.antt =====
-- Users, sessions and refresh tokens, rust-core/src/auth_store.rs. Each table is a list of rows, and
-- each SQL statement a function on the tables: a primary key finds one row, UNIQUE ignores NULL, and
-- foreign keys are enforced (`PRAGMA foreign_keys=ON`, runtime.rs). A statement fails by a constraint
-- only. Times are seconds, and none is negative. `print` and `parse` are those of serde_json.
pub mod Users
pub mod Sessions
pub mod Rows
pub mod Rotation
pub mod Logout
pub mod Stored
use serverless_db.Base.{
  ℕ, ◌+◌, String, Bool, true, false, not, ◌&&◌, ◌||◌, Text, Option, none, some, List, [], ◌∷◌, map,
  any, find, ltb, str_eq, if◌then◌else◌,
}
use serverless_db.Fallible.{Fallible, ok, err, ok_or, ◌>>=◌}
use serverless_db.Json.{Value, null, string, object, Fields, end, field, get_field, insert_field}
use serverless_db.Policy.{as_str}

pub data AuthLogoutScope : Type 0 where
  global local others : AuthLogoutScope

pub data AuthStoreError : Type 0 where
  sqlite json : AuthStoreError
  user_already_registered user_not_found invalid_refresh_token session_required : AuthStoreError
  -- A panic of serde_json, which is no error of the source.
  panicked : AuthStoreError

pub record AuthUserPatch : Type 0 where
  pub email : Option String
  pub phone : Option String
  pub password_hash : Option String
  pub user_metadata : Option Value
  pub updated_at : String

pub record AuthUser : Type 0 where
  pub id : String
  pub email : Option String
  pub phone : Option String
  pub password_hash : String
  pub user_json : Text
  pub created_at : String
  pub updated_at : String

pub record AuthSession : Type 0 where
  pub id : String
  pub user_id : String
  pub created_at : ℕ
  pub expires_at : ℕ
  pub revoked_at : Option ℕ

pub record RefreshToken : Type 0 where
  pub token : String
  pub user_id : String
  pub session_id : Option String
  pub parent_token : Option String
  pub created_at : ℕ
  pub expires_at : Option ℕ
  pub revoked_at : Option ℕ

-- The tables that `ensure_schema` creates.
pub record AuthTables : Type 0 where
  pub users : List AuthUser
  pub refresh_tokens : List RefreshToken
  pub sessions : List AuthSession

abbrev pub Outcome : Type 0 → Type 0
Outcome A = Fallible AuthStoreError A

-- A transaction: on an error nothing of it stays.
abbrev pub transaction {ℓ} :
    {A : Type ℓ}
    → AuthTables
    → Fallible AuthStoreError (A × AuthTables)
    → Fallible AuthStoreError A × AuthTables
transaction s (ok (a, t)) = (ok a, t)
transaction s (err e) = (err e, s)

abbrev pub holds : Option String → String → Bool
holds none s = false
holds (some t) s = str_eq t s

-- Two values that UNIQUE does not allow.
abbrev pub collides : Option String → Option String → Bool
collides none o = false
collides (some s) o = holds o s

abbrev pub is_null : Option ℕ → Bool
is_null none = true
is_null (some t) = false

abbrev pub is_after : Option ℕ → ℕ → Bool
is_after none now = false
is_after (some t) now = ltb now t

abbrev pub user_by_id : String → AuthTables → Option AuthUser
user_by_id user_id s = find (λ u. str_eq u.id user_id) s.users

abbrev pub token_row : String → AuthTables → Option RefreshToken
token_row token s = find (λ rt. str_eq rt.token token) s.refresh_tokens

abbrev pub session_row : Option String → AuthTables → Option AuthSession
session_row session_id s = find (λ se. holds session_id se.id) s.sessions

abbrev pub has_user : String → AuthTables → Bool
has_user user_id s = any (λ u. str_eq u.id user_id) s.users
