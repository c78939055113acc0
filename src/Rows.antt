-- ===== src/Rows.antt =====
-- The rows that users write: `normalize_row_payload`, rust-core/src/runtime_utils.rs. `to_string` is
-- that of `serde_json::Value`.
pub mod Columns
use serverless_db.Base.{String, Bool, true, false, codes}
use serverless_db.Error.{Result, ok, err, new, row_must_be_an_object, row_must_not_be_empty}
use serverless_db.Ident.{assert_user_ident}
use serverless_db.Json.{
  Number, pos_int, Value, null, bool, number, string, array, object, Fields, end, field,
  insert_field,
}

module _ (to_string : Value → String) where
  unfoldable pub normalize_value : Value → Value
  normalize_value null = null
  normalize_value (bool true) = number (pos_int 1)
  normalize_value (bool false) = number (pos_int 0)
  normalize_value (number n) = number n
  normalize_value (string s) = string s
  normalize_value (array items) = string (to_string (array items))
  normalize_value (object fields) = string (to_string (object fields))

  -- The loop, with the map that it fills.
  unfoldable pub normalize_fields : Fields → Fields → Result Fields
  normalize_fields end out = ok out
  normalize_fields (field key value fields) out =
      let rest = normalize_fields fields (insert_field key (normalize_value value) out) in
      elim (assert_user_ident (codes key)) [ ok column ↦ rest | err e ↦ err e ]

  unfoldable pub normalize_row_payload : Value → Result Fields
  normalize_row_payload (object end) = err (new 400 row_must_not_be_empty)
  normalize_row_payload (object (field key value fields)) =
      normalize_fields (field key value fields) end
  normalize_row_payload _ = err (new 400 row_must_be_an_object)
