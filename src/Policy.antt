-- ===== src/Policy.antt =====
-- Row policies, rust-core/src/policy.rs: `compile_policies` makes an SQL condition of a table's
-- rules; `evaluate_policies`, in Policy.Evaluate, tests a row that is to be written. `actor_claim` is in auth.rs.
pub mod Evaluate
pub mod WellFormed
pub mod Meaning
pub mod Granted
use serverless_db.Base.{
  ℕ, ◌^◌, String, Bool, true, false, not, ◌||◌, Text, codes, Option, none, some, List, [], ◌∷◌,
  ◌++◌, ltb, str_eq, if◌then◌else◌,
}
use serverless_db.Error.{
  ApiError, Result, ok, err, new, policy_rule_must_be_an_object, compound_policy_must_not_be_empty,
  unsupported_policy_rule, ◌>>=◌,
}
use serverless_db.Ident.{quote_ident}
use serverless_db.Json.{
  Number, pos_int, neg_int, float, Value, null, bool, number, string, array, object, Items, nil,
  cons, Fields, end, field, get_field,
}
use serverless_db.Access.{Actor}
use serverless_db.Sql.{
  ℤ, pos, negsuc, SqlValue, integer, real, text, Compiled, joined, placeholders,
}

abbrev pub as_bool : Option Value → Option Bool
as_bool (some (bool b)) = some b
as_bool _ = none

abbrev pub as_str : Option Value → Option String
as_str (some (string s)) = some s
as_str _ = none

abbrev pub as_array : Option Value → Option Items
as_array (some (array items)) = some items
as_array _ = none

abbrev pub or_null : Option Value → Value
or_null none = null
or_null (some v) = v

abbrev pub or_null_text : Option String → Value
or_null_text none = null
or_null_text (some s) = string s

unfoldable pub actor_claim : Actor → String → Value
unfolding get_field
actor_claim actor name =
    if str_eq name "sub"
    then or_null_text actor.sub
    else if str_eq name "role"
    then string actor.role
    else or_null (get_field name actor.claims)

-- `Number::as_i64`, and `as_f64` where there is none.
unfoldable pub sql_number : Number → SqlValue
sql_number (pos_int n) = if ltb n (2 ^ 63) then integer (pos n) else real (pos_int n)
sql_number (neg_int n) = integer (negsuc n)
sql_number (float n) = real (float n)

unfoldable pub json_to_sql_value : Value → Option SqlValue
unfolding sql_number
json_to_sql_value null = some SqlValue.null
json_to_sql_value (bool true) = some (integer (pos 1))
json_to_sql_value (bool false) = some (integer (pos 0))
json_to_sql_value (number n) = some (sql_number n)
json_to_sql_value (string s) = some (text (codes s))
json_to_sql_value (array items) = none
json_to_sql_value (object fields) = none

abbrev consider : Option SqlValue → List SqlValue → List SqlValue
consider none values = values
consider (some v) values = v ∷ values

-- `filter_map(json_to_sql_value)`.
unfoldable pub sql_values : Items → List SqlValue
unfolding json_to_sql_value
sql_values nil = []
sql_values (cons v items) = consider (json_to_sql_value v) (sql_values items)

is_role : String → Value → Bool
is_role role (string s) = str_eq s role
is_role role _ = false

-- `filter_map(Value::as_str).any(|role| role == actor.role)`.
unfoldable pub has_role : String → Items → Bool
unfolding is_role
has_role role nil = false
has_role role (cons v items) = is_role role v || has_role role items

abbrev pub constant : Bool → Compiled
constant true = (codes "1=1", [])
constant false = (codes "0=1", [])

abbrev pub equals_value : Text → Option SqlValue → Compiled
equals_value column_sql none = constant false
equals_value column_sql (some param) = (column_sql ++ codes " = ?", param ∷ [])

abbrev pub one_of_values : Text → List SqlValue → Compiled
one_of_values column_sql [] = constant false
one_of_values column_sql (v ∷ values) =
    (column_sql ++ (codes " IN (" ++ (placeholders (v ∷ values) ++ codes ")")), v ∷ values)

abbrev pub claimed_values : Option Items → List SqlValue
claimed_values none = []
claimed_values (some items) = sql_values items

-- The function `join`, with its operator between spaces.
unfoldable pub join_compiled : Text → List Compiled → Result Compiled
join_compiled sep [] = err (new 400 compound_policy_must_not_be_empty)
join_compiled sep (c ∷ children) = ok (joined sep (c ∷ children))

-- A rule that tests a column.
unfoldable pub compile_column : Actor → Fields → Text → Result Compiled
unfolding get_field actor_claim json_to_sql_value sql_values
compile_column actor fields column_sql = elim (as_str (get_field "equals_claim" fields)) [
  | some claim ↦ ok (equals_value column_sql (json_to_sql_value (actor_claim actor claim)))
  | none ↦ elim (as_str (get_field "in_claim" fields)) [
    | some claim ↦
        ok (one_of_values column_sql (claimed_values (as_array (some (actor_claim actor claim)))))
    | none ↦ elim (get_field "equals" fields) [
      | some v ↦ ok (equals_value column_sql (json_to_sql_value v))
      | none ↦ err (new 400 unsupported_policy_rule)
    ]
  ]
]

-- The rule of an object, given its compiled children under `and` and under `or`.
unfoldable pub compile_object :
    Actor
    → Fields
    → Option (Result (List Compiled))
    → Option (Result (List Compiled))
    → Result Compiled
unfolding get_field compile_column join_compiled has_role
compile_object actor fields under_and under_or = elim (as_bool (get_field "allow" fields)) [
  | some allow ↦ ok (constant allow)
  | none ↦ elim (as_array (get_field "role_in" fields)) [
    | some roles ↦ ok (constant (has_role actor.role roles))
    | none ↦ elim under_and [
      | some children ↦ children >>= join_compiled (codes " AND ")
      | none ↦ elim under_or [
        | some children ↦ children >>= join_compiled (codes " OR ")
        | none ↦ elim (as_str (get_field "column" fields)) [
          | some column ↦ quote_ident (codes column) >>= compile_column actor fields
          | none ↦ err (new 400 unsupported_policy_rule)
        ]
      ]
    ]
  ]
]

unfoldable mutual
  unfolding compile_object

  pub compile_rule : Actor → Value → Result Compiled
  compile_rule actor (object fields) =
      compile_object actor fields (compile_under actor "and" fields)
        (compile_under actor "or" fields)
  compile_rule actor null = err (new 400 policy_rule_must_be_an_object)
  compile_rule actor (bool b) = err (new 400 policy_rule_must_be_an_object)
  compile_rule actor (number n) = err (new 400 policy_rule_must_be_an_object)
  compile_rule actor (string s) = err (new 400 policy_rule_must_be_an_object)
  compile_rule actor (array items) = err (new 400 policy_rule_must_be_an_object)

  -- The compiled children under a key, where an array is there.
  pub compile_under : Actor → String → Fields → Option (Result (List Compiled))
  compile_under actor k end = none
  compile_under actor k (field j v fields) =
      let here = compile_array actor v in
      let rest = compile_under actor k fields in if str_eq j k then here else rest

  pub compile_array : Actor → Value → Option (Result (List Compiled))
  compile_array actor (array items) = some (compile_items actor items)
  compile_array actor null = none
  compile_array actor (bool b) = none
  compile_array actor (number n) = none
  compile_array actor (string s) = none
  compile_array actor (object fields) = none

  pub compile_items : Actor → Items → Result (List Compiled)
  compile_items actor nil = ok []
  compile_items actor (cons v items) = do
    c ← compile_rule actor v
    cs ← compile_items actor items
    ok (c ∷ cs)

unfoldable pub compile_rules : Actor → List Value → Result (List Compiled)
compile_rules actor [] = ok []
compile_rules actor (rule ∷ rules) = do
  c ← compile_rule actor rule
  cs ← compile_rules actor rules
  ok (c ∷ cs)

unfoldable pub compile_policies : List Value → Actor → Result Compiled
compile_policies [] actor = ok (codes "1=1", [])
compile_policies (rule ∷ rules) actor =
    if str_eq actor.role "service_role"
    then ok (codes "1=1", [])
    else (compile_rules actor (rule ∷ rules) >>= λ children. ok (joined (codes " OR ") children))
