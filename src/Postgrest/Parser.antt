-- ===== src/Postgrest/Parser.antt =====
-- The parser of query parameters, rust-core/src/postgrest.rs: `parse_query_params` and what it calls.
-- The parameters are a list in the order in which the hash map gives them.
use serverless_db.Base.{
  ℕ, zero, suc, ◌||◌, Text, codes, Option, none, some, List, [], ◌∷◌, ◌++◌, ◌==◌, if◌then◌else◌,
}
use serverless_db.Error.{
  Result, ok, err, new, order_needs_a_column, order_direction, order_nulls,
  unsupported_filter_operator, filter_format, invalid_or_segment, invalid_and_segment, ◌>>=◌,
}
use serverless_db.Text.{text_eq, trim, split, strip_prefix, is_empty}
use serverless_db.Text.Decimal.{parse_u64}
use serverless_db.Postgrest.{
  FilterOp, eq, neq, gt, gte, lt, lte, in_list, is, like, ilike, FilterCondition, FilterExpr,
  condition, conjunction, disjunction, negation, FilterExprs, nil, cons, OrderDirection, asc, desc,
  OrderNulls, first, last, default, OrderClause, CountMode, uncounted, exact, planned, estimated,
  SelectQuery, default_query,
}

-- The text before the first separator and the text behind it.
unfoldable pub split_once : ℕ → Text → Option (Text × Text)
split_once sep [] = none
split_once sep (c ∷ s) =
    let rest = split_once sep s in
    if c == sep then some ([], s) else elim rest [ none ↦ none | some (a, b) ↦ some (c ∷ a, b) ]

-- Keeps the columns that are not empty.
unfoldable pub trimmed_columns : List Text → List Text
trimmed_columns [] = []
trimmed_columns (s ∷ parts) =
    let rest = trimmed_columns parts in if is_empty (trim s) then rest else trim s ∷ rest

unfoldable pub parse_select_param : Text → Result (List Text)
unfolding trimmed_columns
parse_select_param value =
    if is_empty value || text_eq value (codes "*")
    then ok []
    else ok (trimmed_columns (split b',' value))

abbrev direction_of : Option Text → Result OrderDirection
direction_of none = ok asc
direction_of (some s) =
    if text_eq s (codes "asc")
    then ok asc
    else if text_eq s (codes "desc")
    then ok desc
    else err (new 400 (order_direction s))

abbrev nulls_of : Option Text → Result OrderNulls
nulls_of none = ok default
nulls_of (some s) =
    if text_eq s (codes "nullsfirst")
    then ok first
    else if text_eq s (codes "nullslast")
    then ok last
    else err (new 400 (order_nulls s))

abbrev part : ℕ → List Text → Option Text
part i [] = none
part zero (p ∷ parts) = some p
part (suc i) (p ∷ parts) = part i parts

-- One clause of `order`, split at its dots.
unfoldable pub order_clause : List Text → Result OrderClause
order_clause [] = err (new 400 order_needs_a_column)
order_clause (column ∷ parts) = if is_empty column then err (new 400 order_needs_a_column) else do
  direction ← direction_of (part 0 parts)
  nulls ← nulls_of (part 1 parts)
  ok (record { column = column; direction = direction; nulls = nulls })

unfoldable pub order_clauses : List Text → Result (List OrderClause)
unfolding order_clause
order_clauses [] = ok []
order_clauses (clause ∷ clauses) = do
  c ← order_clause (split b'.' (trim clause))
  cs ← order_clauses clauses
  ok (c ∷ cs)

unfoldable pub parse_order : Text → Result (List OrderClause)
unfolding order_clauses
parse_order value = if is_empty value then ok [] else order_clauses (split b',' value)

unfoldable pub parse_op : Text → Result FilterOp
parse_op s =
    if text_eq s (codes "eq")
    then ok eq
    else if text_eq s (codes "neq")
    then ok neq
    else if text_eq s (codes "gt")
    then ok gt
    else if text_eq s (codes "gte")
    then ok gte
    else if text_eq s (codes "lt")
    then ok lt
    else if text_eq s (codes "lte")
    then ok lte
    else if text_eq s (codes "in")
    then ok in_list
    else if text_eq s (codes "is")
    then ok is
    else if text_eq s (codes "like")
    then ok like
    else if text_eq s (codes "ilike")
    then ok ilike
    else err (new 400 (unsupported_filter_operator s))

-- The loop over the operators that may stand in front of the value.
unfoldable pub condition_by_value : Text → Text → List (Text × FilterOp) → Result FilterCondition
condition_by_value key value [] = err (new 400 (filter_format key))
condition_by_value key value ((name, op) ∷ ops) =
    let later = condition_by_value key value ops in
    elim (strip_prefix (name ++ codes ".") value) [
      | some rest ↦ ok (record { column = key; op = op; value = rest })
      | none ↦ later
    ]

abbrev operators : List (Text × FilterOp)
operators =
    (codes "eq", eq)
    ∷ (codes "neq", neq)
    ∷ (codes "gt", gt)
    ∷ (codes "gte", gte)
    ∷ (codes "lt", lt)
    ∷ (codes "lte", lte)
    ∷ (codes "in", in_list)
    ∷ (codes "is", is)
    ∷ (codes "like", like)
    ∷ (codes "ilike", ilike)
    ∷ []

abbrev condition_by_key : Text → Text → Option (Text × Text) → Result FilterCondition
condition_by_key key value none = condition_by_value key value operators
condition_by_key key value (some (column, op_str)) =
    parse_op op_str >>= λ op. ok (record { column = column; op = op; value = value })

unfoldable pub parse_condition : Text → Text → Result FilterCondition
unfolding split_once condition_by_value
parse_condition key value = condition_by_key key value (split_once b'.' key)

abbrev negated_entry : Text → Text → Option Text → Result FilterExpr
negated_entry key value (some rest) = parse_condition key rest >>= λ c. ok (negation (condition c))
negated_entry key value none = parse_condition key value >>= λ c. ok (condition c)

unfoldable pub parse_filter_entry : Text → Text → Result FilterExpr
parse_filter_entry key value = negated_entry key value (strip_prefix (codes "not.") value)

-- A segment without `=`, by its parts at the first two dots.
abbrev or_segment_parts : Text → Option (Text × Text) → Result FilterExpr
or_segment_parts segment none = err (new 400 (invalid_or_segment segment))
or_segment_parts segment (some (column, rest)) = elim (split_once b'.' rest) [
  | some (op, value) ↦
      (parse_condition (column ++ (codes "." ++ op)) value >>= λ c. ok (condition c))
  | none ↦ ok (condition (record { column = column; op = eq; value = rest }))
]

abbrev or_segment : Text → Option (Text × Text) → Result FilterExpr
or_segment segment (some (key, val)) = parse_condition key val >>= λ c. ok (condition c)
or_segment segment none = or_segment_parts segment (split_once b'.' segment)

unfoldable pub parse_or_segment : Text → Result FilterExpr
unfolding split_once
parse_or_segment segment = or_segment (trim segment) (split_once b'=' (trim segment))

unfoldable pub or_segments : List Text → Result FilterExprs
or_segments [] = ok nil
or_segments (s ∷ segments) = do e ← parse_or_segment s; es ← or_segments segments; ok (cons e es)

-- The split has at least one part, so the test for none never holds.
unfoldable pub parse_or_expr : Text → Result FilterExpr
unfolding or_segments
parse_or_expr value = or_segments (split b',' value) >>= λ es. ok (disjunction es)

abbrev and_segment : Text → Option (Text × Text) → Result FilterExpr
and_segment segment none = err (new 400 (invalid_and_segment segment))
and_segment segment (some (key, val)) = parse_condition key val >>= λ c. ok (condition c)

-- The segments of the parameter `and`.
unfoldable pub and_segments : List Text → Result FilterExprs
unfolding split_once
and_segments [] = ok nil
and_segments (s ∷ segments) = do
  e ← and_segment (trim s) (split_once b'=' (trim s))
  es ← and_segments segments
  ok (cons e es)

-- What the loop over the parameters has gathered.
pub record Gathered : Type 0 where
  pub query : SelectQuery
  pub filter_conditions : List FilterExpr
  pub or_expr : Option FilterExpr

abbrev number_or : ℕ → Option ℕ → ℕ
number_or d none = d
number_or d (some n) = n

unfoldable pub count_mode : Text → CountMode
count_mode value =
    if text_eq value (codes "exact")
    then exact
    else if text_eq value (codes "planned")
    then planned
    else if text_eq value (codes "estimated")
    then estimated
    else uncounted

-- One parameter.
unfoldable pub gather : Text → Text → Gathered → Result Gathered
unfolding count_mode
gather key value g =
    if text_eq key (codes "select")
    then (do
      columns ← parse_select_param value
      ok (record g { query = record g.query { select = columns } }))
    else if text_eq key (codes "limit")
    then ok (record g { query = record g.query { limit = number_or 100 (parse_u64 value) } })
    else if text_eq key (codes "offset")
    then ok (record g { query = record g.query { offset = number_or 0 (parse_u64 value) } })
    else if text_eq key (codes "order")
    then (do order ← parse_order value; ok (record g { query = record g.query { order = order } }))
    else if text_eq key (codes "bookmark")
        || text_eq key (codes "session")
        || text_eq key (codes "route_region")
    then ok g
    else if text_eq key (codes "count")
    then ok (record g { query = record g.query { count = count_mode value } })
    else if text_eq key (codes "or")
    then (do e ← parse_or_expr value; ok (record g { or_expr = some e }))
    else if text_eq key (codes "and")
    then (do
      es ← and_segments (split b',' value)
      ok (record g { filter_conditions = g.filter_conditions ++ conjunction es ∷ [] }))
    else (do
      e ← parse_filter_entry key value
      ok (record g { filter_conditions = g.filter_conditions ++ e ∷ [] }))

unfoldable pub gather_all : List (Text × Text) → Gathered → Result Gathered
gather_all [] g = ok g
gather_all ((key, value) ∷ query) g = gather key value g >>= gather_all query

abbrev with_or : List FilterExpr → Option FilterExpr → List FilterExpr
with_or es none = es
with_or es (some e) = es ++ e ∷ []

abbrev exprs : List FilterExpr → FilterExprs
exprs [] = nil
exprs (e ∷ es) = cons e (exprs es)

-- One condition stands alone.
abbrev pub combined : List FilterExpr → FilterExpr
combined [] = conjunction nil
combined (e ∷ []) = e
combined (e ∷ f ∷ es) = conjunction (exprs (e ∷ f ∷ es))

unfoldable pub parse_query_params : List (Text × Text) → Result SelectQuery
parse_query_params query = do
  g ← gather_all query (record { query = default_query; filter_conditions = []; or_expr = none })
  ok (record g.query { filters = combined (with_or g.filter_conditions g.or_expr) })
