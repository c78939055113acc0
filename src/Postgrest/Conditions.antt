-- ===== src/Postgrest/Conditions.antt =====
-- Compiled filters are conditions, with their values in the order of the placeholders.
use serverless_db.Base.{
  ◌≡◌, refl, subst, inl, inr, true, Text, codes, List, [], ◌∷◌, ◌++◌, arith, Bool-cases,
}
use serverless_db.Error.{Result, ok, err, ◌>>=◌, Result-cases}
use serverless_db.Text.{text_eq}
use serverless_db.Ident.{quote_ident, valid_ident}
use serverless_db.Sql.{SqlValue, text, Compiled, grouped}
use serverless_db.Sql.Grammar
use serverless_db.Sql.Grammar.{
  Reads, tested, true_text, false_text, alone, negated, from_primary, from_unary, from_conjunctive,
  group, IsOperator, is_null, is_not_null, is_true, is_false, one_of, IsPrimary, IsCondition,
  AllConditions, AllGood, cons-AllGood, quote_ident-valid, joined-all_of, joined-any_of, quoted,
}
use serverless_db.Postgrest.{
  FilterOp, eq, neq, gt, gte, lt, lte, in_list, is, like, ilike, FilterCondition, FilterExpr,
  condition, conjunction, disjunction, negation, FilterExprs, nil, cons,
}
use serverless_db.Postgrest.Compiler.{
  one_of_list, list_values, is_test, joined_or_true, compile_op, compile_condition, compile_filters,
  compile_children,
}

-- A test of a valid column, or the text for false.
test_condition :
    (column op : Text) (values : List SqlValue) (x : Compiled)
    → valid_ident column ≡ true
    → IsOperator op values
    → (quoted column ++ op, values) ≡ x
    → IsPrimary x
unfolding text_eq
test_condition column op values x h o e =
    subst IsPrimary e
      (record { condition = _; reads = tested column op values h o; not_true = refl })

one_of_list-IsPrimary :
    (column : Text) (values : List SqlValue) (x : Compiled)
    → valid_ident column ≡ true
    → one_of_list (quoted column) values ≡ ok x
    → IsPrimary x
unfolding text_eq
one_of_list-IsPrimary column [] x h e =
    subst IsPrimary (ground (arith, e))
      (record { condition = _; reads = false_text; not_true = refl })
one_of_list-IsPrimary column (v ∷ values) x h e =
    test_condition column _ (v ∷ values) x h (one_of (v ∷ values)) (ground (arith, e))

is_test-IsPrimary :
    (column value val : Text) (x : Compiled)
    → valid_ident column ≡ true
    → is_test (quoted column) value val ≡ ok x
    → IsPrimary x
is_test-IsPrimary column value val x h e = elim (Bool-cases (text_eq val (codes "null"))) [
  | inl a ↦ test_condition column _ [] x h is_null (ground (arith, a, e))
  | inr a ↦ elim (Bool-cases (text_eq val (codes "not.null"))) [
    | inl b ↦ test_condition column _ [] x h is_not_null (ground (arith, a, b, e))
    | inr b ↦ elim (Bool-cases (text_eq val (codes "notnull"))) [
      | inl c ↦ test_condition column _ [] x h is_not_null (ground (arith, a, b, c, e))
      | inr c ↦ elim (Bool-cases (text_eq val (codes "true"))) [
        | inl d ↦ test_condition column _ [] x h is_true (ground (arith, a, b, c, d, e))
        | inr d ↦ elim (Bool-cases (text_eq val (codes "false"))) [
          | inl f ↦ test_condition column _ [] x h is_false (ground (arith, a, b, c, d, f, e))
          | inr f ↦ absurd (ground (arith, a, b, c, d, f, e))
        ]
      ]
    ]
  ]
]

ok_same : {x y : Compiled} → ok x ≡ ok y → x ≡ y
ok_same e = cc

module _ (to_lowercase : Text → Text) where
  compile_op-IsPrimary :
      (column : Text) (op : FilterOp) (value : Text) (x : Compiled)
      → valid_ident column ≡ true
      → compile_op to_lowercase (quoted column) op value ≡ ok x
      → IsPrimary x
  unfolding compile_op
  compile_op-IsPrimary column eq value x h e =
      test_condition column _ _ x h (Grammar.eq (text value)) (ok_same e)
  compile_op-IsPrimary column neq value x h e =
      test_condition column _ _ x h (Grammar.neq (text value)) (ok_same e)
  compile_op-IsPrimary column gt value x h e =
      test_condition column _ _ x h (Grammar.gt (text value)) (ok_same e)
  compile_op-IsPrimary column gte value x h e =
      test_condition column _ _ x h (Grammar.gte (text value)) (ok_same e)
  compile_op-IsPrimary column lt value x h e =
      test_condition column _ _ x h (Grammar.lt (text value)) (ok_same e)
  compile_op-IsPrimary column lte value x h e =
      test_condition column _ _ x h (Grammar.lte (text value)) (ok_same e)
  compile_op-IsPrimary column like value x h e =
      test_condition column _ _ x h (Grammar.like (text value)) (ok_same e)
  compile_op-IsPrimary column ilike value x h e =
      test_condition column _ _ x h (Grammar.ilike (text value)) (ok_same e)
  compile_op-IsPrimary column in_list value x h e =
      one_of_list-IsPrimary column (list_values value) x h e
  compile_op-IsPrimary column is value x h e =
      is_test-IsPrimary column value (to_lowercase value) x h e

  pub compile_condition-IsPrimary :
      (cond : FilterCondition) (x : Compiled)
      → compile_condition to_lowercase cond ≡ ok x
      → IsPrimary x
  unfolding compile_condition
  compile_condition-IsPrimary cond x e = elim (Result-cases (quote_ident cond.column)) [
    | inr (f, q) ↦ absurd (ground (arith, q, e))
    | inl (name, q) ↦
        let (valid, same) = quote_ident-valid cond.column name q in
        compile_op-IsPrimary cond.column cond.op cond.value x valid (rw same (rw q at e))
  ]

  all_of-IsCondition :
      (children : List Compiled)
      → AllConditions children
      → IsCondition (joined_or_true (codes " AND ") children)
  all_of-IsCondition [] h = record { condition = _; reads = alone true_text }
  all_of-IsCondition (c ∷ cs) h = record {
    condition = _;
    reads = from_conjunctive (joined-all_of c cs h.0 h.1);
  }

  any_of-IsCondition :
      (children : List Compiled)
      → AllConditions children
      → IsCondition (joined_or_true (codes " OR ") children)
  any_of-IsCondition [] h = record { condition = _; reads = alone true_text }
  any_of-IsCondition (c ∷ cs) h = record { condition = _; reads = joined-any_of c cs h.0 h.1 }

  joined-IsCondition :
      (sep : Text)
      → ((children : List Compiled)
          → AllConditions children
          → IsCondition (joined_or_true sep children))
      → (r : Result (List Compiled)) (x : Compiled) → AllGood r
      → (r >>= λ cs. ok (joined_or_true sep cs)) ≡ ok x
      → IsCondition x
  joined-IsCondition sep rule (ok cs) x h e = subst IsCondition (ok_same e) (rule cs h)
  joined-IsCondition sep rule (err f) x h e = cc

  negation-IsCondition :
      (r : Result Compiled) (x : Compiled)
      → ((y : Compiled) → r ≡ ok y → IsCondition y)
      → (r >>= λ c. ok (codes "NOT " ++ grouped c.0, c.1)) ≡ ok x
      → IsCondition x
  negation-IsCondition (ok c) x h e = subst IsCondition (ok_same e) (record {
    condition = _;
    reads = from_conjunctive (from_unary (negated (from_primary (group (h c refl).reads))));
  })
  negation-IsCondition (err f) x h e = cc

  primary-IsCondition : (x : Compiled) → IsPrimary x → IsCondition x
  primary-IsCondition x h = record { condition = h.condition; reads = alone h.reads }

  mutual
    unfolding compile_filters compile_children

    filters-IsCondition :
        (e : FilterExpr) (x : Compiled) → compile_filters to_lowercase e ≡ ok x → IsCondition x
    filters-IsCondition (condition cond) x h =
        primary-IsCondition x (compile_condition-IsPrimary cond x h)
    filters-IsCondition (conjunction children) x h =
        joined-IsCondition (codes " AND ") all_of-IsCondition
          (compile_children to_lowercase children) x (children-AllGood children) h
    filters-IsCondition (disjunction children) x h =
        joined-IsCondition (codes " OR ") any_of-IsCondition
          (compile_children to_lowercase children) x (children-AllGood children) h
    filters-IsCondition (negation inner) x h =
        negation-IsCondition (compile_filters to_lowercase inner) x (filters-IsCondition inner) h

    children-AllGood : (es : FilterExprs) → AllGood (compile_children to_lowercase es)
    children-AllGood nil = tt
    children-AllGood (cons e es) =
        cons-AllGood (compile_filters to_lowercase e) (compile_children to_lowercase es)
          (filters-IsCondition e) (children-AllGood es)

  pub compile_children-AllGood : (es : FilterExprs) → AllGood (compile_children to_lowercase es)
  compile_children-AllGood es = children-AllGood es

  -- What a filter compiles to is a condition of SQL in which columns are valid identifiers and every
  -- value that the user sent stands for one placeholder, in their order.
  pub compile_filters-IsCondition :
      (e : FilterExpr) (x : Compiled) → compile_filters to_lowercase e ≡ ok x → IsCondition x
  compile_filters-IsCondition e x h = filters-IsCondition e x h
