-- ===== src/Postgrest/RoundTrip.antt =====
-- Filters as they are written in the parameters of a request.
use serverless_db.Base.{
  ℕ, ◌≡◌, refl, inl, inr, Bool-cases, Option-cases, Text, codes, none, some, ◌∷◌, ◌++◌, [], ◌==◌,
  arith,
}
use serverless_db.Error.{ok}
use serverless_db.Text.{strip_prefix, text_eq}
use serverless_db.Postgrest.{
  FilterExpr, FilterOp, eq, neq, gt, gte, lt, lte, in_list, is, like, ilike, FilterCondition,
  condition, negation,
}
use serverless_db.Postgrest.Parser.{
  split_once, parse_op, parse_condition, condition_by_value, parse_filter_entry,
}

-- The words of the operators.
abbrev pub op_name : FilterOp → Text
op_name eq = codes "eq"
op_name neq = codes "neq"
op_name gt = codes "gt"
op_name gte = codes "gte"
op_name lt = codes "lt"
op_name lte = codes "lte"
op_name in_list = codes "in"
op_name is = codes "is"
op_name like = codes "like"
op_name ilike = codes "ilike"

abbrev pub written : FilterCondition → Text
written c = op_name c.op ++ b'.' ∷ c.value

parse_op-op_name : (op : FilterOp) → parse_op (op_name op) ≡ ok op
unfolding parse_op text_eq
parse_op-op_name eq = refl
parse_op-op_name neq = refl
parse_op-op_name gt = refl
parse_op-op_name gte = refl
parse_op-op_name lt = refl
parse_op-op_name lte = refl
parse_op-op_name in_list = refl
parse_op-op_name is = refl
parse_op-op_name like = refl
parse_op-op_name ilike = refl

parse_condition-written :
    (column : Text) (op : FilterOp) (value : Text)
    → split_once b'.' column ≡ none
    → parse_condition column (op_name op ++ b'.' ∷ value)
      ≡ ok (record { column = column; op = op; value = value })
unfolding parse_condition condition_by_value strip_prefix
parse_condition-written column eq value h = ground arith
parse_condition-written column neq value h = ground arith
parse_condition-written column gt value h = ground arith
parse_condition-written column gte value h = ground arith
parse_condition-written column lt value h = ground arith
parse_condition-written column lte value h = ground arith
parse_condition-written column in_list value h = ground arith
parse_condition-written column is value h = ground arith
parse_condition-written column like value h = ground arith
parse_condition-written column ilike value h = ground arith

written_without_not :
    (op : FilterOp) (value : Text) → strip_prefix (codes "not.") (op_name op ++ b'.' ∷ value) ≡ none
unfolding strip_prefix
written_without_not eq value = refl
written_without_not neq value = refl
written_without_not gt value = refl
written_without_not gte value = refl
written_without_not lt value = refl
written_without_not lte value = refl
written_without_not in_list value = refl
written_without_not is value = refl
written_without_not like value = refl
written_without_not ilike value = refl

split_once-++ :
    (sep : ℕ) (s t : Text) → split_once sep s ≡ none → split_once sep (s ++ sep ∷ t) ≡ some (s, t)
unfolding split_once
split_once-++ sep [] t h = ground arith
split_once-++ sep (c ∷ s) t h = elim (Bool-cases (c == sep)) [
  | inl e ↦ absurd (ground (arith, e, h))
  | inr e ↦ elim (Option-cases (split_once sep s)) [
    | inr (p, q) ↦ absurd (ground (arith, e, q, h))
    | inl q ↦ let r = split_once-++ sep s t q in ground (arith, e, r)
  ]
]

-- The four forms in which a condition is written in a parameter, and what each says: `column=op.value`,
-- `column=not.op.value`, `column.op=not.value`, and `column.op=value` where the value does not begin with
-- `not.` itself.
pub data IsWritten (c : FilterCondition) : Text → Text → FilterExpr → Type 0 where
  beside : IsWritten c c.column (written c) (condition c)
  negated : IsWritten c c.column (codes "not." ++ written c) (negation (condition c))
  suffixed :
      strip_prefix (codes "not.") c.value ≡ none
      → IsWritten c (c.column ++ b'.' ∷ op_name c.op) c.value (condition c)
  suffixed_negated :
      IsWritten c
        (c.column ++ b'.' ∷ op_name c.op)
        (codes "not." ++ c.value)
        (negation (condition c))

-- A filter in a parameter is read back as it is written, in each of its forms, where the column has no
-- dot.
pub parse_filter_entry-written :
    (c : FilterCondition) (key value : Text) (e : FilterExpr)
    → split_once b'.' c.column ≡ none
    → IsWritten c key value e
    → parse_filter_entry key value ≡ ok e
unfolding parse_filter_entry
parse_filter_entry-written c _ _ _ h beside =
    ground
      (arith, parse_condition-written c.column c.op c.value h, written_without_not c.op c.value)
parse_filter_entry-written c _ _ _ h negated =
    unfold strip_prefix in ground (arith, parse_condition-written c.column c.op c.value h)
parse_filter_entry-written c _ _ _ h (suffixed n) =
    unfold parse_condition in
    ground (arith, split_once-++ b'.' c.column (op_name c.op) h, parse_op-op_name c.op, n)
parse_filter_entry-written c _ _ _ h suffixed_negated =
    unfold strip_prefix parse_condition in
    ground (arith, split_once-++ b'.' c.column (op_name c.op) h, parse_op-op_name c.op)
