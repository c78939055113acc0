-- ===== src/Tests/Readers.antt =====
-- The theorems on routing, replicas, stored objects and rows at concrete inputs.
use serverless_db.Base.{◌≡◌, ◌↔◌, refl, String, some, [], ◌∷◌, true, false, arith}
use serverless_db.Error.{ok}
use serverless_db.Types.{RoutingEndpoint, RuntimeOptions}
use serverless_db.Json.{Value, string, object, Fields, end, field, get_field, insert_field}
use serverless_db.Ident.{assert_user_ident, valid_ident}
use serverless_db.Text.{is_ascii_alphabetic, is_ascii_alphanumeric, starts_with}
use serverless_db.Forward.{
  forward_endpoint_available, replica_url_for_region, available_replicas, choose, entry_of,
}
use serverless_db.Forward.Breaker.{attempts_at, checked_failures_keep_available}
use serverless_db.Access.{
  Actor, authorize_storage_object, require_storage_actor, is_admin, is_anon, storage_object_visible,
}
use serverless_db.Access.Owners.{authorize_storage_object_iff}
use serverless_db.Rows.{normalize_row_payload, normalize_fields, normalize_value}
use serverless_db.Rows.Columns.{IsRow, normalize_row_payload-IsRow}
use serverless_db.Tests.Samples.{options}

abbrev replica : RoutingEndpoint
replica = record { role = "replica"; region = some "eu"; url = "http://r" }

abbrev routed : RuntimeOptions
routed = record options {
  routing_endpoints = replica ∷ [];
  routing_endpoint_failure_threshold = 2;
  routing_endpoint_cooldown_ms = 50;
  read_replica = true;
}

checked_failures_keep_available_example :
    (forward_endpoint_available 60 "http://r"
      (attempts_at routed "http://r" (20 ∷ 10 ∷ 5 ∷ []) [])).0
    ≡ true
checked_failures_keep_available_example =
    checked_failures_keep_available routed "http://r" 60 (20 ∷ 10 ∷ 5 ∷ []) [] (omega arith)
      (unfold entry_of in refl)

chosen : (replica_url_for_region routed 5 (some "eu") []).0 ≡ some "http://r"
unfolding replica_url_for_region available_replicas choose forward_endpoint_available entry_of
chosen = refl

abbrev ann : Actor
ann = record { sub = some "ann"; role = "authenticated"; claims = end }

abbrev meta_of_ann : Fields
meta_of_ann = field "owner_id" (string "ann") end

ann_authorized : authorize_storage_object meta_of_ann ann ≡ ok tt
unfolding authorize_storage_object require_storage_actor is_anon is_admin get_field
ann_authorized = refl

ann_no_admin : is_admin ann ≡ false
unfolding is_admin
ann_no_admin = refl

authorize_storage_object_iff_example :
    (authorize_storage_object meta_of_ann ann ≡ ok tt)
    ↔ ((require_storage_actor ann ≡ ok tt) × (storage_object_visible meta_of_ann ann ≡ true))
authorize_storage_object_iff_example = authorize_storage_object_iff meta_of_ann ann

abbrev shown : Value → String
shown v = "value"

abbrev row : Fields
row = field "title" (string "value") end

normalizes : normalize_row_payload shown (object (field "title" (object end) end)) ≡ ok row
unfolding normalize_row_payload normalize_fields normalize_value insert_field assert_user_ident
    valid_ident is_ascii_alphabetic is_ascii_alphanumeric starts_with
normalizes = refl

normalize_row_payload-IsRow_example : IsRow row
normalize_row_payload-IsRow_example =
    normalize_row_payload-IsRow shown (object (field "title" (object end) end)) row normalizes
