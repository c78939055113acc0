-- ===== src/Tests/Queries.antt =====
-- The theorems on policies and on the SQL of queries at concrete inputs.
use serverless_db.Base.{◌≡◌, refl, ◌⊎◌, Bool, false, Text, codes, [], ◌∷◌, str_eq, some, none}
use serverless_db.Error.{ok}
use serverless_db.Text.{strip_prefix, is_ascii_alphabetic, is_ascii_alphanumeric, text_eq, is_empty}
use serverless_db.Json.{Value, string, object, Fields, end, field, get_field}
use serverless_db.Ident.{quote_ident, valid_ident}
use serverless_db.Access.{Actor}
use serverless_db.Sql.{text, integer, pos, Compiled, joined, join}
use serverless_db.Sql.Grammar.{IsCondition, Reads, Condition, disjunctive, both, either}
use serverless_db.Policy.{
  compile_policies, compile_rules, compile_rule, compile_under, compile_array, compile_object,
  compile_column, actor_claim, json_to_sql_value,
}
use serverless_db.Policy.Evaluate.{
  evaluate_policies, evaluate_rules, evaluate_rule, evaluate_under, evaluate_array, evaluate_object,
  evaluate_column,
}
use serverless_db.Policy.WellFormed.{compile_policies-IsCondition}
use serverless_db.Policy.Granted.{IsGrantedBy, evaluate_policies-IsGrantedBy}
use serverless_db.Postgrest.{
  FilterCondition, lte, FilterExpr, condition, conjunction, disjunction, nil, cons, eq,
  default_query,
}
use serverless_db.Postgrest.Compiler.{
  compile_filters, compile_children, compile_condition, compile_op, where_for_operation_postgrest,
  build_select_sql, compile_select_columns, compile_order, order_parts, as_i64,
}
use serverless_db.Postgrest.Conditions.{compile_filters-IsCondition}
use serverless_db.Postgrest.Escape.{or_filter_escapes_policy}
use serverless_db.Postgrest.Guarded.{filter_guarded_by_policy}
use serverless_db.Postgrest.RoundTrip.{parse_filter_entry-written, suffixed}
use serverless_db.Postgrest.Parser.{split_once, parse_filter_entry}

abbrev ann : Actor
ann = record { sub = some "ann"; role = "authenticated"; claims = end }

-- A row belongs to the actor whose name it holds.
abbrev own_rows : Value
own_rows = object (field "column" (string "o") (field "equals_claim" (string "sub") end))

abbrev own_condition : Compiled
own_condition = (codes "(\"o\" = ?)", text (codes "ann") ∷ [])

own_rows_compile : compile_policies (own_rows ∷ []) ann ≡ ok own_condition
unfolding compile_policies compile_rules compile_rule compile_under compile_array compile_object
    compile_column actor_claim json_to_sql_value get_field quote_ident valid_ident
    is_ascii_alphabetic is_ascii_alphanumeric joined join
own_rows_compile = refl

compile_policies-IsCondition_example : IsCondition own_condition
compile_policies-IsCondition_example =
    compile_policies-IsCondition (own_rows ∷ []) ann own_condition own_rows_compile

abbrev same_string : Value → Value → Bool
same_string (string s) (string t) = str_eq s t
same_string _ _ = false

abbrev row : Fields
row = field "o" (string "ann") end

evaluate_policies-IsGrantedBy_example : IsGrantedBy same_string ann row (own_rows ∷ [])
unfolding evaluate_policies evaluate_rules evaluate_rule evaluate_under evaluate_array
    evaluate_object evaluate_column actor_claim get_field
evaluate_policies-IsGrantedBy_example =
    evaluate_policies-IsGrantedBy same_string (own_rows ∷ []) row ann (λ e. cc) (λ e. cc) refl

-- `a=eq.1`, and both `a=eq.1` or `a=eq.2`.
abbrev same : Text → Text
same s = s

abbrev a_is : Text → FilterExpr
a_is v = condition (record { column = codes "a"; op = eq; value = v })

abbrev one_filter : FilterExpr
one_filter = conjunction (cons (a_is (codes "1")) nil)

abbrev two_filters : FilterExpr
two_filters = disjunction (cons (a_is (codes "1")) (cons (a_is (codes "2")) nil))

abbrev one_condition : Compiled
one_condition = (codes "(\"a\" = ?)", text (codes "1") ∷ [])

one_filter_compiles : compile_filters same one_filter ≡ ok one_condition
unfolding compile_filters compile_children compile_condition compile_op quote_ident valid_ident
    is_ascii_alphabetic is_ascii_alphanumeric joined join
one_filter_compiles = refl

compile_filters-IsCondition_example : IsCondition one_condition
compile_filters-IsCondition_example =
    compile_filters-IsCondition same one_filter one_condition one_filter_compiles

abbrev one_where : Compiled
one_where = (codes "(\"a\" = ?) AND ((\"o\" = ?))", text (codes "1") ∷ text (codes "ann") ∷ [])

one_where_compiles :
    where_for_operation_postgrest same one_filter (own_rows ∷ []) ann ≡ ok one_where
unfolding where_for_operation_postgrest compile_filters compile_children compile_condition
    compile_op compile_policies compile_rules compile_rule compile_under compile_array
    compile_object compile_column actor_claim json_to_sql_value get_field quote_ident valid_ident
    is_ascii_alphabetic is_ascii_alphanumeric joined join text_eq
one_where_compiles = refl

filter_guarded_by_policy_example :
    (policy : Compiled) × (p : Condition) × (compile_policies (own_rows ∷ []) ann ≡ ok policy)
    × Reads disjunctive policy.0 policy.1 p
    × ((Reads disjunctive one_where.0 one_where.1 p)
        ⊎ ((c : Condition) × Reads disjunctive one_where.0 one_where.1 (both c p)))
filter_guarded_by_policy_example =
    filter_guarded_by_policy same one_filter (own_rows ∷ []) ann one_where tt one_where_compiles

abbrev two_where : Compiled
two_where = (
  codes "(\"a\" = ?) OR (\"a\" = ?) AND ((\"o\" = ?))",
  text (codes "1") ∷ text (codes "2") ∷ text (codes "ann") ∷ [],
)

two_where_compiles :
    where_for_operation_postgrest same two_filters (own_rows ∷ []) ann ≡ ok two_where
unfolding where_for_operation_postgrest compile_filters compile_children compile_condition
    compile_op compile_policies compile_rules compile_rule compile_under compile_array
    compile_object compile_column actor_claim json_to_sql_value get_field quote_ident valid_ident
    is_ascii_alphabetic is_ascii_alphanumeric joined join text_eq
two_where_compiles = refl

or_filter_escapes_policy_example :
    (first : Compiled) × (c d : Condition) × (compile_filters same (a_is (codes "1")) ≡ ok first)
    × Reads disjunctive first.0 first.1 c
    × Reads disjunctive two_where.0 two_where.1 (either c d)
or_filter_escapes_policy_example =
    or_filter_escapes_policy same (a_is (codes "1")) (a_is (codes "2")) nil (own_rows ∷ []) ann
      two_where two_where_compiles

abbrev everything : Compiled
everything = (
  codes "SELECT * FROM \"t\" WHERE (1=1) LIMIT ? OFFSET ?",
  integer (pos 100) ∷ integer (pos 0) ∷ [],
)

everything_compiles : build_select_sql same (codes "t") default_query [] ann ≡ ok everything
unfolding build_select_sql compile_select_columns compile_filters compile_children compile_policies
    compile_order order_parts as_i64 quote_ident valid_ident is_ascii_alphabetic
    is_ascii_alphanumeric text_eq is_empty
everything_compiles = refl

abbrev small : FilterCondition
small = record { column = codes "size"; op = lte; value = codes "10" }

small_column : split_once b'.' small.column ≡ none
unfolding split_once
small_column = refl

small_value : strip_prefix (codes "not.") small.value ≡ none
unfolding strip_prefix
small_value = refl

parse_filter_entry-written_example :
    parse_filter_entry (codes "size.lte") (codes "10") ≡ ok (condition small)
parse_filter_entry-written_example =
    parse_filter_entry-written small (codes "size.lte") (codes "10") (condition small) small_column
      (suffixed small_value)
