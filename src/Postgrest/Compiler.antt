-- ===== src/Postgrest/Compiler.antt =====
-- From queries to SQL, rust-core/src/postgrest.rs: `compile_filters`, `compile_order`,
-- `compile_select_columns`, `build_select_sql`; and `where_for_operation_postgrest` of
-- rust-core/src/runtime.rs. `to_lowercase` is that of `str`.
use serverless_db.Base.{
  ℕ, ◌^◌, ◌-◌, ltb, Text, codes, List, [], ◌∷◌, ◌++◌, map, reverse, ◌==◌, if◌then◌else◌,
}
use serverless_db.Error.{Result, ok, err, new, is_filter_value, ◌>>=◌}
use serverless_db.Text.{text_eq, trim, split, is_empty}
use serverless_db.Ident.{quote_ident}
use serverless_db.Json.{Value}
use serverless_db.Access.{Actor}
use serverless_db.Sql.{
  SqlValue, text, integer, ℤ, pos, negsuc, Compiled, joined, join, placeholders, grouped,
}
use serverless_db.Policy.{compile_policies}
use serverless_db.Postgrest.{
  FilterOp, eq, neq, gt, gte, lt, lte, in_list, is, like, ilike, FilterCondition, FilterExpr,
  condition, conjunction, disjunction, negation, FilterExprs, nil, cons, OrderDirection, asc, desc,
  OrderNulls, first, last, default, OrderClause, SelectQuery,
}

-- `trim_start_matches` of one character.
unfoldable pub trim_start_matches : ℕ → Text → Text
trim_start_matches p [] = []
trim_start_matches p (c ∷ s) = let rest = trim_start_matches p s in if c == p then rest else c ∷ s

unfoldable pub trim_end_matches : ℕ → Text → Text
unfolding trim_start_matches
trim_end_matches p s = reverse (trim_start_matches p (reverse s))

-- The values of an `in` filter.
abbrev pub list_values : Text → List SqlValue
list_values value =
    map (λ s. text (trim s)) (split b',' (trim_end_matches b')' (trim_start_matches b'(' value)))

abbrev pub compared : Text → Text → Text → Result Compiled
compared column op value = ok (column ++ op, text value ∷ [])

abbrev pub one_of_list : Text → List SqlValue → Result Compiled
one_of_list column [] = ok (codes "0=1", [])
one_of_list column (v ∷ values) =
    ok (column ++ (codes " IN (" ++ (placeholders (v ∷ values) ++ codes ")")), v ∷ values)

-- The test of an `is` filter, by its value in lower case.
abbrev pub is_test : Text → Text → Text → Result Compiled
is_test column value val =
    if text_eq val (codes "null")
    then ok (column ++ codes " IS NULL", [])
    else if text_eq val (codes "not.null")
    then ok (column ++ codes " IS NOT NULL", [])
    else if text_eq val (codes "notnull")
    then ok (column ++ codes " IS NOT NULL", [])
    else if text_eq val (codes "true")
    then ok (column ++ codes " IS 1", [])
    else if text_eq val (codes "false")
    then ok (column ++ codes " IS 0", [])
    else err (new 400 (is_filter_value value))

-- A list of children under a connective; none of them is no condition.
abbrev pub joined_or_true : Text → List Compiled → Compiled
joined_or_true sep [] = (codes "1=1", [])
joined_or_true sep (c ∷ children) = joined sep (c ∷ children)

-- The condition of the filter and the one of the policies, for a `WHERE`.
abbrev pub where_text : Text → Text → Text
where_text filter_sql policy_sql =
    if text_eq filter_sql (codes "1=1")
    then grouped policy_sql
    else filter_sql ++ (codes " AND " ++ grouped policy_sql)

abbrev direction_text : OrderDirection → Text
direction_text asc = codes "ASC"
direction_text desc = codes "DESC"

abbrev nulls_text : OrderNulls → Text
nulls_text first = codes " NULLS FIRST"
nulls_text last = codes " NULLS LAST"
nulls_text default = []

unfoldable pub order_parts : List OrderClause → Result (List Text)
order_parts [] = ok []
order_parts (clause ∷ order) = do
  column ← quote_ident clause.column
  rest ← order_parts order
  ok (
      (column ++ (codes " " ++ (direction_text clause.direction ++ nulls_text clause.nulls)))
      ∷ rest)

abbrev order_text : List Text → Text
order_text [] = []
order_text (p ∷ parts) = codes "ORDER BY " ++ join (codes ", ") (p ∷ parts)

unfoldable pub compile_order : List OrderClause → Result Text
unfolding order_parts
compile_order order = order_parts order >>= λ parts. ok (order_text parts)

unfoldable pub quoted_columns : List Text → Result (List Text)
quoted_columns [] = ok []
quoted_columns (col ∷ columns) = do q ← quote_ident col; qs ← quoted_columns columns; ok (q ∷ qs)

unfoldable pub compile_select_columns : List Text → Result Text
unfolding quoted_columns
compile_select_columns [] = ok (codes "*")
compile_select_columns (col ∷ columns) =
    quoted_columns (col ∷ columns) >>= λ parts. ok (join (codes ", ") parts)

-- `limit.clamp(1, 1000)`.
abbrev pub clamped : ℕ → ℕ
clamped limit = if ltb limit 1 then 1 else if ltb 1000 limit then 1000 else limit

-- `offset as i64`, in two's complement.
unfoldable pub as_i64 : ℕ → ℤ
as_i64 n = if ltb n (2 ^ 63) then pos n else negsuc (2 ^ 64 - 1 - n)

abbrev with_order : Text → Text
with_order order_sql = if is_empty order_sql then [] else codes " " ++ order_sql

module _ (to_lowercase : Text → Text) where
  unfoldable pub compile_op : Text → FilterOp → Text → Result Compiled
  compile_op column eq value = compared column (codes " = ?") value
  compile_op column neq value = compared column (codes " != ?") value
  compile_op column gt value = compared column (codes " > ?") value
  compile_op column gte value = compared column (codes " >= ?") value
  compile_op column lt value = compared column (codes " < ?") value
  compile_op column lte value = compared column (codes " <= ?") value
  compile_op column like value = compared column (codes " LIKE ?") value
  compile_op column ilike value = compared column (codes " LIKE ? COLLATE NOCASE") value
  compile_op column in_list value = one_of_list column (list_values value)
  compile_op column is value = is_test column value (to_lowercase value)

  unfoldable pub compile_condition : FilterCondition → Result Compiled
  unfolding compile_op
  compile_condition cond =
      quote_ident cond.column >>= λ column. compile_op column cond.op cond.value

  unfoldable mutual
    unfolding compile_condition

    pub compile_filters : FilterExpr → Result Compiled
    compile_filters (condition cond) = compile_condition cond
    compile_filters (conjunction children) =
        compile_children children >>= λ cs. ok (joined_or_true (codes " AND ") cs)
    compile_filters (disjunction children) =
        compile_children children >>= λ cs. ok (joined_or_true (codes " OR ") cs)
    compile_filters (negation inner) =
        compile_filters inner >>= λ c. ok (codes "NOT " ++ grouped c.0, c.1)

    pub compile_children : FilterExprs → Result (List Compiled)
    compile_children nil = ok []
    compile_children (cons child children) = do
      c ← compile_filters child
      cs ← compile_children children
      ok (c ∷ cs)

  -- `rules` is what `policy_rules` reads from the table of policies.
  unfoldable pub where_for_operation_postgrest : FilterExpr → List Value → Actor → Result Compiled
  where_for_operation_postgrest filters rules actor = do
    f ← compile_filters filters
    p ← compile_policies rules actor
    ok (where_text f.0 p.0, f.1 ++ p.1)

  unfoldable pub build_select_sql : Text → SelectQuery → List Value → Actor → Result Compiled
  build_select_sql table query rules actor = do
    table_quoted ← quote_ident table
    columns ← compile_select_columns query.select
    f ← compile_filters query.filters
    p ← compile_policies rules actor
    order_sql ← compile_order query.order
    ok (
      codes "SELECT "
          ++ (columns
              ++ (codes " FROM "
                  ++ (table_quoted
                      ++ (codes " WHERE "
                          ++ (where_text f.0 p.0
                              ++ (with_order order_sql ++ codes " LIMIT ? OFFSET ?")))))),
      (f.1 ++ p.1) ++ integer (pos (clamped query.limit)) ∷ integer (as_i64 query.offset) ∷ [],
    )
