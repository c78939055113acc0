-- ===== src/Tests/Accounts.antt =====
-- The theorems on sessions and users at concrete inputs.
use serverless_db.Base.{◌≡◌, refl, arith, Text, codes, Option, none, some, []}
use serverless_db.Fallible.{ok, err}
use serverless_db.Json.{Value, string, object, end, field, get_field, insert_field}
use serverless_db.AuthStore.{
  AuthTables, AuthSession, RefreshToken, AuthUserPatch, local, invalid_refresh_token, token_row,
  session_row,
}
use serverless_db.AuthStore.Users.{
  create_user, insert_user, required_str, optional_str, update_user, patched, set_member,
  update_row, get_user_by_id,
}
use serverless_db.AuthStore.Sessions.{
  issue_refresh_token, upsert_session, insert_token, rotate_refresh_token, get_active_refresh_token,
  active_rows, retire, session_value, revoke_sessions, revoke, count,
}
use serverless_db.AuthStore.Rotation.{rotate_refresh_token-once}
use serverless_db.AuthStore.Logout.{revoke_sessions_scope, IsLeft}

abbrev pub amy : Value
amy = object (
    field "id" (string "u1") (
      field "email" (string "amy@x") (
        field "password_hash" (string "h")
          (field "created_at" (string "t0") (field "updated_at" (string "t0") end)))))

-- One user is all that is printed and parsed.
abbrev pub print : Value → Text
print v = codes "amy"

abbrev pub parse : Text → Option Value
parse t = some amy

abbrev pub empty_tables : AuthTables
empty_tables = record { users = []; refresh_tokens = []; sessions = [] }

abbrev pub with_amy : AuthTables
with_amy = (create_user print amy empty_tables).1

-- A user with a token that lives until 100.
abbrev signed_in : AuthTables
signed_in = (issue_refresh_token "r1" "u1" "s1" 1 100 with_amy).1

abbrev refreshed : AuthTables
refreshed = (rotate_refresh_token parse "r1" "r2" 50 150 signed_in).1

refreshes :
    rotate_refresh_token parse "r1" "r2" 50 150 signed_in ≡ (ok (session_value "s1" amy), refreshed)
unfolding rotate_refresh_token active_rows insert_token retire issue_refresh_token upsert_session
    create_user required_str optional_str insert_user get_field
refreshes = refl

rotate_refresh_token-once_example :
    (get_active_refresh_token parse "r1" 60 refreshed ≡ err invalid_refresh_token)
    × (get_active_refresh_token parse "r2" 120 refreshed ≡ ok (session_value "s1" amy))
rotate_refresh_token-once_example =
    rotate_refresh_token-once parse "r1" "r2" 50 150 120 60 signed_in refreshed
      (session_value "s1" amy) refreshes (omega arith)

abbrev signed_out : AuthTables
signed_out = (revoke_sessions "u1" (some "s1") local 60 signed_in).1

signs_out : revoke_sessions "u1" (some "s1") local 60 signed_in ≡ (ok 1, signed_out)
unfolding revoke_sessions revoke count issue_refresh_token upsert_session insert_token create_user
    required_str optional_str insert_user get_field
signs_out = refl

abbrev its_session : AuthSession
its_session = record {
  id = "s1";
  user_id = "u1";
  created_at = 1;
  expires_at = 100;
  revoked_at = none;
}

abbrev its_token : RefreshToken
its_token = record {
  token = "r1";
  user_id = "u1";
  session_id = some "s1";
  parent_token = none;
  created_at = 1;
  expires_at = some 100;
  revoked_at = none;
}

token_there : token_row "r1" signed_in ≡ some its_token
unfolding issue_refresh_token upsert_session insert_token create_user required_str optional_str
    insert_user get_field
token_there = refl

session_there : session_row (some "s1") signed_in ≡ some its_session
unfolding issue_refresh_token upsert_session insert_token create_user required_str optional_str
    insert_user get_field
session_there = refl

revoke_sessions_scope_example :
    IsLeft "u1" "s1" its_token
      (get_active_refresh_token parse "r1" 61 signed_in)
      local
      (get_active_refresh_token parse "r1" 61 signed_out)
revoke_sessions_scope_example =
    revoke_sessions_scope parse "u1" "s1" "r1" (some "s1") local 60 61 1 signed_in signed_out
      its_token its_session refl signs_out token_there session_there refl

abbrev patch : AuthUserPatch
patch = record {
  email = some "ann@x";
  phone = none;
  password_hash = none;
  user_metadata = none;
  updated_at = "t1";
}

abbrev renamed : Value
renamed = object (
    field "id" (string "u1") (
      field "email" (string "ann@x") (
        field "password_hash" (string "h")
          (field "created_at" (string "t0") (field "updated_at" (string "t1") end)))))

abbrev with_renamed : AuthTables
with_renamed = (update_user print parse "u1" patch with_amy).1

renames : update_user print parse "u1" patch with_amy ≡ (ok renamed, with_renamed)
unfolding update_user patched set_member update_row required_str optional_str get_user_by_id
    create_user insert_user get_field insert_field
renames = refl
