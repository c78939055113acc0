-- ===== src/AuthStore/Users.antt =====
-- Users, rust-core/src/auth_store.rs: `create_user`, `update_user` and the lookups.
use serverless_db.Base.{
  String, Bool, not, ◌&&◌, ◌||◌, Text, Option, none, some, List, [], ◌∷◌, map, any, str_eq,
  if◌then◌else◌,
}
use serverless_db.Fallible.{ok, err, ok_or, ◌>>=◌}
use serverless_db.Json.{Value, null, string, object, end, field, get_field, insert_field}
use serverless_db.Policy.{as_str}
use serverless_db.AuthStore.{
  json, user_already_registered, user_not_found, panicked, AuthUserPatch, AuthUser, AuthTables,
  Outcome, transaction, holds, collides, user_by_id,
}

abbrev member : String → Value → Option Value
member k (object fields) = get_field k fields
member k _ = none

unfoldable pub required_str : Value → String → Outcome String
unfolding get_field
required_str value k = ok_or (as_str (member k value)) json

unfoldable pub optional_str : Value → String → Option String
unfolding get_field
optional_str value k = as_str (member k value)

-- `value[key] = v`, which turns null into an object and panics where there is another value.
unfoldable pub set_member : String → Value → Value → Outcome Value
unfolding insert_field
set_member k v (object fields) = ok (object (insert_field k v fields))
set_member k v null = ok (object (field k v end))
set_member k v _ = err panicked

abbrev pub set_if : String → Option Value → Value → Outcome Value
set_if k none value = ok value
set_if k (some v) value = set_member k v value

abbrev pub as_value : Option String → Option Value
as_value none = none
as_value (some s) = some (string s)

abbrev pub conflicts : AuthUser → AuthUser → Bool
conflicts a b = str_eq b.id a.id || collides a.email b.email || collides a.phone b.phone

unfoldable pub insert_user : AuthUser → AuthTables → Outcome AuthTables
insert_user row s =
    if any (conflicts row) s.users
    then err user_already_registered
    else ok (record s { users = row ∷ s.users })

-- The user with what the patch sets.
unfoldable pub patched : AuthUserPatch → Value → Outcome Value
unfolding set_member
patched patch user = do
  a ← set_if "email" (as_value patch.email) user
  b ← set_if "phone" (as_value patch.phone) a
  c ← set_if "password_hash" (as_value patch.password_hash) b
  d ← set_if "user_metadata" patch.user_metadata c
  set_member "updated_at" (string patch.updated_at) d

abbrev pub with_columns :
    Bool → Option String → Option String → String → Text → String → AuthUser → AuthUser
with_columns b email phone password_hash user_json updated_at u =
    if b
    then record u {
      email = email;
      phone = phone;
      password_hash = password_hash;
      user_json = user_json;
      updated_at = updated_at;
    }
    else u

-- The new values for the columns; other users must not hold them.
unfoldable pub update_row :
    String
    → Option String
    → Option String
    → String
    → Text
    → String
    → AuthTables
    → Outcome AuthTables
update_row user_id email phone password_hash user_json updated_at s =
    if any (λ u. not (str_eq u.id user_id) && (collides email u.email || collides phone u.phone))
      s.users
    then err user_already_registered
    else ok (record s {
      users =
          map
            (λ u.
              with_columns (str_eq u.id user_id) email phone password_hash user_json updated_at u)
            s.users;
    })

-- The rows that an identifier selects.
unfoldable pub matching : String → List AuthUser → List AuthUser
matching identifier [] = []
matching identifier (u ∷ users) =
    let rest = matching identifier users in
    if holds u.email identifier || holds u.phone identifier then u ∷ rest else rest

-- Of a JSON text.
abbrev pub parsed : (Text → Option Value) → Text → Outcome Value
parsed parse raw = ok_or (parse raw) json

module _ (parse : Text → Option Value) where
  abbrev optional_user : Option AuthUser → Outcome (Option Value)
  optional_user none = ok none
  optional_user (some u) = parsed parse u.user_json >>= λ v. ok (some v)

  -- `pick` is SQLite's choice of one row of several.
  unfoldable pub get_user_by_email_or_phone :
      (List AuthUser → Option AuthUser) → String → AuthTables → Outcome (Option Value)
  get_user_by_email_or_phone pick identifier s = optional_user (pick (matching identifier s.users))

  unfoldable pub get_user_by_id : String → AuthTables → Outcome (Option Value)
  get_user_by_id user_id s = optional_user (user_by_id user_id s)

module _ (print : Value → Text) where
  abbrev pub row_of : Value → Outcome AuthUser
  row_of user = do
    user_id ← required_str user "id"
    password_hash ← required_str user "password_hash"
    created_at ← required_str user "created_at"
    updated_at ← required_str user "updated_at"
    ok (record {
      id = user_id;
      email = optional_str user "email";
      phone = optional_str user "phone";
      password_hash = password_hash;
      user_json = print user;
      created_at = created_at;
      updated_at = updated_at;
    })

  unfoldable pub create_user : Value → AuthTables → Outcome Value × AuthTables
  unfolding required_str optional_str insert_user
  create_user user s = transaction s (do row ← row_of user; t ← insert_user row s; ok (user, t))

module _ (print : Value → Text) (parse : Text → Option Value) where
  unfoldable pub update_user : String → AuthUserPatch → AuthTables → Outcome Value × AuthTables
  unfolding patched update_row required_str optional_str get_user_by_id
  update_user user_id patch s = transaction s (do
    found ← get_user_by_id parse user_id s
    user ← ok_or found user_not_found
    user' ← patched patch user
    password_hash ← required_str user' "password_hash"
    t ←
        update_row user_id (optional_str user' "email") (optional_str user' "phone") password_hash
          (print user') patch.updated_at s
    ok (user', t))
