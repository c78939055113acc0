-- ===== src/Rows/Columns.antt =====
-- What a normalized row consists of.
use serverless_db.Base.{
  ◌≡◌, inl, inr, subst, String, codes, arith, Text, Bool-cases, str_eq, true, false,
}
use serverless_db.Error.{ok, Result-cases}
use serverless_db.Ident.{assert_user_ident}
use serverless_db.Json.{
  Value, null, bool, number, string, array, object, Fields, end, field, insert_field,
}
use serverless_db.Rows.{normalize_value, normalize_fields, normalize_row_payload}

-- A number, a string or null.
abbrev pub IsScalar : Value → Type 0
IsScalar null = Unit {0}
IsScalar (bool b) = ⊥
IsScalar (number n) = Unit {0}
IsScalar (string s) = Unit {0}
IsScalar (array items) = ⊥
IsScalar (object fields) = ⊥

-- Every column is an identifier that users may use, and every value is a scalar.
abbrev pub IsRow : Fields → Type 0
IsRow end = Unit {0}
IsRow (field key value fields) =
    ((column : Text) × (assert_user_ident (codes key) ≡ ok column)) × IsScalar value × IsRow fields

insert_field-IsRow :
    (key : String) (value : Value) (fields : Fields)
    → ((column : Text) × (assert_user_ident (codes key) ≡ ok column))
    → IsScalar value
    → IsRow fields
    → IsRow (insert_field key value fields)
unfolding insert_field
insert_field-IsRow key value end k v h = (k, v, tt)
insert_field-IsRow key value (field j w fields) k v h = elim (Bool-cases (str_eq j key)) [
  | inl e ↦ rw e (h.0, v, h.2)
  | inr e ↦ rw e (h.0, h.1, insert_field-IsRow key value fields k v h.2)
]

module _ (to_string : Value → String) where
  normalize_value-IsScalar : (value : Value) → IsScalar (normalize_value to_string value)
  unfolding normalize_value
  normalize_value-IsScalar null = tt
  normalize_value-IsScalar (bool true) = tt
  normalize_value-IsScalar (bool false) = tt
  normalize_value-IsScalar (number n) = tt
  normalize_value-IsScalar (string s) = tt
  normalize_value-IsScalar (array items) = tt
  normalize_value-IsScalar (object fields) = tt

  normalize_fields-IsRow :
      (fields out row : Fields)
      → IsRow out
      → normalize_fields to_string fields out ≡ ok row
      → IsRow row
  unfolding normalize_fields
  normalize_fields-IsRow end out row h e = subst IsRow (ok_injective e) h
    where
      ok_injective : {a b : Fields} → ok a ≡ ok b → a ≡ b
      ok_injective q = cc
  normalize_fields-IsRow (field key value fields) out row h e =
      elim (Result-cases (assert_user_ident (codes key))) [
        | inr (x, q) ↦ absurd (ground (arith, q, e))
        | inl (column, q) ↦
            normalize_fields-IsRow fields (insert_field key (normalize_value to_string value) out)
              row
              (insert_field-IsRow key (normalize_value to_string value) out (column, q)
                (normalize_value-IsScalar value) h)
              (ground (arith, q, e))
      ]

  -- A row that is accepted has only columns with identifiers that users may use, which SQL may quote,
  -- and only scalars as values.
  pub normalize_row_payload-IsRow :
      (body : Value) (row : Fields) → normalize_row_payload to_string body ≡ ok row → IsRow row
  unfolding normalize_row_payload
  normalize_row_payload-IsRow (object end) row e = cc
  normalize_row_payload-IsRow (object (field key value fields)) row e =
      normalize_fields-IsRow (field key value fields) end row tt e
  normalize_row_payload-IsRow null row e = cc
  normalize_row_payload-IsRow (bool b) row e = cc
  normalize_row_payload-IsRow (number n) row e = cc
  normalize_row_payload-IsRow (string s) row e = cc
  normalize_row_payload-IsRow (array items) row e = cc
