-- ===== src/Access.antt =====
-- Who may read and write stored objects: `Actor` (rust-core/src/auth.rs) and the tests of
-- rust-core/src/runtime.rs, `require_storage_actor`, `authorize_storage_object` and
-- `storage_object_visible`.
pub mod Owners
use serverless_db.Base.{
  String, Bool, true, false, not, ◌&&◌, ◌||◌, Option, none, some, str_eq, if◌then◌else◌,
}
use serverless_db.Error.{
  Result, ok, err, new, storage_access_requires_authentication, object_not_owned,
}
use serverless_db.Json.{Value, string, Fields, get_field}

pub record Actor : Type 0 where
  pub sub : Option String
  pub role : String
  pub claims : Fields

unfoldable pub is_service_role : Actor → Bool
is_service_role actor = str_eq actor.role "service_role"

unfoldable pub is_admin : Actor → Bool
is_admin actor = str_eq actor.role "service_role" || str_eq actor.role "admin"

unfoldable pub is_anon : Actor → Bool
is_anon actor = str_eq actor.role "anon"

unfoldable pub is_authenticated : Actor → Bool
is_authenticated actor = not (str_eq actor.role "anon")

abbrev pub lacks_sub : Option String → Bool
lacks_sub none = true
lacks_sub (some sub) = false

unfoldable pub require_storage_actor : Actor → Result (Unit {0})
unfolding is_anon
require_storage_actor actor =
    if is_anon actor || lacks_sub actor.sub
    then err (new 403 storage_access_requires_authentication)
    else ok tt

-- `and_then(Value::as_str).unwrap_or("")`.
abbrev text_or_empty : Option Value → String
text_or_empty (some (string owner)) = owner
text_or_empty _ = ""

abbrev pub owner_id : Fields → String
owner_id meta = text_or_empty (get_field "owner_id" meta)

-- The guard of the match: the actor's `sub` is the owner, who is not empty.
abbrev pub owns : Option String → String → Bool
owns none owner = false
owns (some sub) owner = not (str_eq owner "") && str_eq sub owner

abbrev authorized : Fields → Actor → Result (Unit {0}) → Result (Unit {0})
authorized meta actor (err e) = err e
authorized meta actor (ok u) =
    if is_admin actor
    then ok tt
    else if owns actor.sub (owner_id meta)
    then ok tt
    else err (new 403 object_not_owned)

unfoldable pub authorize_storage_object : Fields → Actor → Result (Unit {0})
unfolding get_field is_admin
authorize_storage_object meta actor = authorized meta actor (require_storage_actor actor)

-- `is_some_and` on the actor's `sub`.
abbrev pub is_owner : Option String → String → Bool
is_owner none owner = false
is_owner (some sub) owner = not (str_eq owner "") && str_eq sub owner

unfoldable pub storage_object_visible : Fields → Actor → Bool
unfolding get_field is_admin
storage_object_visible meta actor =
    if is_admin actor then true else is_owner actor.sub (owner_id meta)
