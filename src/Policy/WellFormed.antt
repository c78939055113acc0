-- ===== src/Policy/WellFormed.antt =====
-- Compiled policies are conditions, with their values in the order of the placeholders.
use serverless_db.Base.{
  ◌≡◌, ap, sym, ◌∙◌, subst, inl, inr, String, Bool, true, false, Text, codes, Option, none, some,
  List, [], ◌∷◌, arith, Bool-cases, Option-cases, str_eq,
}
use serverless_db.Error.{Result, ok, err, new, unsupported_policy_rule, ◌>>=◌, Result-cases}
use serverless_db.Ident.{quote_ident, valid_ident}
use serverless_db.Json.{
  Value, null, bool, number, string, array, object, Items, nil, cons, Fields, end, field, get_field,
}
use serverless_db.Access.{Actor}
use serverless_db.Sql.{SqlValue, Compiled}
use serverless_db.Sql.Grammar.{
  true_text, false_text, tested, eq, one_of, alone, from_conjunctive, IsCondition, AllConditions,
  joined-all_of, joined-any_of, quoted, AllGood, cons-AllGood, quote_ident-valid,
}
use serverless_db.Policy.{
  actor_claim, json_to_sql_value, claimed_values, has_role, as_bool, as_str, as_array, constant,
  equals_value, one_of_values, join_compiled, compile_column, compile_object, compile_rule,
  compile_under, compile_array, compile_items, compile_rules, compile_policies,
}

constant-IsCondition : (b : Bool) → IsCondition (constant b)
constant-IsCondition true = record { condition = _; reads = alone true_text }
constant-IsCondition false = record { condition = _; reads = alone false_text }

equals_value-IsCondition :
    (column : Text) (v : Option SqlValue)
    → valid_ident column ≡ true
    → IsCondition (equals_value (quoted column) v)
equals_value-IsCondition column none h = constant-IsCondition false
equals_value-IsCondition column (some v) h = record {
  condition = _;
  reads = alone (tested column _ _ h (eq v));
}

one_of_values-IsCondition :
    (column : Text) (values : List SqlValue)
    → valid_ident column ≡ true
    → IsCondition (one_of_values (quoted column) values)
one_of_values-IsCondition column [] h = constant-IsCondition false
one_of_values-IsCondition column (v ∷ values) h = record {
  condition = _;
  reads = alone (tested column _ _ h (one_of (v ∷ values)));
}

compile_column-IsCondition :
    (actor : Actor) (fields : Fields) (column : Text) (x : Compiled)
    → valid_ident column ≡ true
    → compile_column actor fields (quoted column) ≡ ok x
    → IsCondition x
unfolding compile_column
compile_column-IsCondition actor fields column x h e =
    elim (Option-cases (as_str (get_field "equals_claim" fields))) [
      | inr (claim, q) ↦
          subst IsCondition (ground (arith, q, e))
            (equals_value-IsCondition column (json_to_sql_value (actor_claim actor claim)) h)
      | inl q ↦ elim (Option-cases (as_str (get_field "in_claim" fields))) [
        | inr (claim, r) ↦ subst IsCondition (ground (arith, q, r, e)) (
            one_of_values-IsCondition column
              (claimed_values (as_array (some (actor_claim actor claim)))) h)
        | inl r ↦ elim (Option-cases (get_field "equals" fields)) [
          | inr (v, u) ↦
              subst IsCondition (ground (arith, q, r, u, e))
                (equals_value-IsCondition column (json_to_sql_value v) h)
          | inl u ↦ absurd (ground (arith, q, r, u, e))
        ]
      ]
    ]

join_compiled-all_of :
    (children : List Compiled) (x : Compiled)
    → AllConditions children
    → join_compiled (codes " AND ") children ≡ ok x
    → IsCondition x
unfolding join_compiled
join_compiled-all_of [] x hs e = cc
join_compiled-all_of (c ∷ cs) x hs e =
    subst IsCondition (ground (arith, e))
      (record { condition = _; reads = from_conjunctive (joined-all_of c cs hs.0 hs.1) })

join_compiled-any_of :
    (children : List Compiled) (x : Compiled)
    → AllConditions children
    → join_compiled (codes " OR ") children ≡ ok x
    → IsCondition x
unfolding join_compiled
join_compiled-any_of [] x hs e = cc
join_compiled-any_of (c ∷ cs) x hs e =
    subst IsCondition (ground (arith, e))
      (record { condition = _; reads = joined-any_of c cs hs.0 hs.1 })

abbrev UnderGood : Option (Result (List Compiled)) → Type 0
UnderGood none = Unit {0}
UnderGood (some children) = AllGood children

-- A rule that is neither constant nor a compound.
abbrev from_column : Actor → Fields → Option String → Result Compiled
from_column actor fields none = err (new 400 unsupported_policy_rule)
from_column actor fields (some column) = quote_ident (codes column) >>= compile_column actor fields

abbrev from_children :
    Actor
    → Fields
    → Option (Result (List Compiled))
    → Option (Result (List Compiled))
    → Result Compiled
from_children actor fields (some children) o = children >>= join_compiled (codes " AND ")
from_children actor fields none (some children) = children >>= join_compiled (codes " OR ")
from_children actor fields none none = from_column actor fields (as_str (get_field "column" fields))

from_column-IsCondition :
    (actor : Actor) (fields : Fields) (o : Option String) (x : Compiled)
    → from_column actor fields o ≡ ok x
    → IsCondition x
from_column-IsCondition actor fields none x k = cc
from_column-IsCondition actor fields (some column) x k =
    elim (Result-cases (quote_ident (codes column))) [
      | inr (f, q) ↦ absurd (ground (arith, q, k))
      | inl (name, q) ↦
          let (valid, same) = quote_ident-valid (codes column) name q in
          compile_column-IsCondition actor fields (codes column) x valid
            (ground (arith, q, k, same))
    ]

from_children-IsCondition :
    (actor : Actor) (fields : Fields) (a o : Option (Result (List Compiled))) (x : Compiled)
    → UnderGood a
    → UnderGood o
    → from_children actor fields a o ≡ ok x
    → IsCondition x
from_children-IsCondition actor fields (some (ok children)) o x ha ho k =
    join_compiled-all_of children x ha k
from_children-IsCondition actor fields (some (err f)) o x ha ho k = cc
from_children-IsCondition actor fields none (some (ok children)) x ha ho k =
    join_compiled-any_of children x ho k
from_children-IsCondition actor fields none (some (err f)) x ha ho k = cc
from_children-IsCondition actor fields none none x ha ho k =
    from_column-IsCondition actor fields (as_str (get_field "column" fields)) x k

-- Which part of `compile_object` answers.
compile_object-from_children :
    (actor : Actor) (fields : Fields) (a o : Option (Result (List Compiled)))
    → as_bool (get_field "allow" fields) ≡ none
    → as_array (get_field "role_in" fields) ≡ none
    → compile_object actor fields a o ≡ from_children actor fields a o
unfolding compile_object
compile_object-from_children actor fields (some children) o q r = ground (arith, q, r)
compile_object-from_children actor fields none (some children) q r = ground (arith, q, r)
compile_object-from_children actor fields none none q r = ground (arith, q, r)

compile_object-IsCondition :
    (actor : Actor) (fields : Fields) (a o : Option (Result (List Compiled))) (x : Compiled)
    → UnderGood a
    → UnderGood o
    → compile_object actor fields a o ≡ ok x
    → IsCondition x
compile_object-IsCondition actor fields a o x ha ho e =
    elim (Option-cases (as_bool (get_field "allow" fields))) [
      | inr (allow, q) ↦
          let same : constant allow ≡ x = unfold compile_object in ground (arith, q, e) in
          subst IsCondition same (constant-IsCondition allow)
      | inl q ↦ elim (Option-cases (as_array (get_field "role_in" fields))) [
        | inr (roles, r) ↦
            let same : constant (has_role actor.role roles) ≡ x =
              unfold compile_object in ground (arith, q, r, e) in
            subst IsCondition same (constant-IsCondition (has_role actor.role roles))
        | inl r ↦
            from_children-IsCondition actor fields a o x ha ho
              (sym (compile_object-from_children actor fields a o q r) ∙ e)
      ]
    ]

mutual
  unfolding compile_rule compile_under compile_array compile_items

  rule-IsCondition :
      (actor : Actor) (rule : Value) (x : Compiled) → compile_rule actor rule ≡ ok x → IsCondition x
  rule-IsCondition actor (object fields) x e =
      compile_object-IsCondition actor fields (compile_under actor "and" fields)
        (compile_under actor "or" fields) x (under-UnderGood actor "and" fields)
        (under-UnderGood actor "or" fields) e
  rule-IsCondition actor null x e = cc
  rule-IsCondition actor (bool b) x e = cc
  rule-IsCondition actor (number n) x e = cc
  rule-IsCondition actor (string s) x e = cc
  rule-IsCondition actor (array items) x e = cc

  under-UnderGood :
      (actor : Actor) (k : String) (fields : Fields) → UnderGood (compile_under actor k fields)
  under-UnderGood actor k end = tt
  under-UnderGood actor k (field j v fields) = elim (Bool-cases (str_eq j k)) [
    | inl e ↦ rw e (array-UnderGood actor v)
    | inr e ↦ rw e (under-UnderGood actor k fields)
  ]

  array-UnderGood : (actor : Actor) (v : Value) → UnderGood (compile_array actor v)
  array-UnderGood actor (array items) = items-AllGood actor items
  array-UnderGood actor null = tt
  array-UnderGood actor (bool b) = tt
  array-UnderGood actor (number n) = tt
  array-UnderGood actor (string s) = tt
  array-UnderGood actor (object fields) = tt

  items-AllGood : (actor : Actor) (items : Items) → AllGood (compile_items actor items)
  items-AllGood actor nil = tt
  items-AllGood actor (cons v items) =
      cons-AllGood (compile_rule actor v) (compile_items actor items) (rule-IsCondition actor v)
        (items-AllGood actor items)

rules-AllGood : (actor : Actor) (rules : List Value) → AllGood (compile_rules actor rules)
unfolding compile_rules
rules-AllGood actor [] = tt
rules-AllGood actor (rule ∷ rules) =
    cons-AllGood (compile_rule actor rule) (compile_rules actor rules) (rule-IsCondition actor rule)
      (rules-AllGood actor rules)

compile_rules-ne-nil :
    (actor : Actor) (rule : Value) (rules : List Value) (children : List Compiled)
    → compile_rules actor (rule ∷ rules) ≡ ok children
    → (c : Compiled) × (cs : List Compiled) × (children ≡ c ∷ cs)
unfolding compile_rules
compile_rules-ne-nil actor rule rules children h = elim (Result-cases (compile_rule actor rule)) [
  | inr (f, q) ↦ absurd (ground (arith, q, h))
  | inl (c, q) ↦ elim (Result-cases (compile_rules actor rules)) [
    | inr (f, r) ↦ absurd (ground (arith, q, r, h))
    | inl (cs, r) ↦ (c, cs, ground (arith, q, r, h))
  ]
]

-- What the policies of a table compile to is a condition of SQL in which columns are valid identifiers
-- and every value stands for one placeholder, in their order, whatever the rules hold.
pub compile_policies-IsCondition :
    (rules : List Value) (actor : Actor) (x : Compiled)
    → compile_policies rules actor ≡ ok x
    → IsCondition x
unfolding compile_policies
compile_policies-IsCondition [] actor x h =
    subst IsCondition (ground (arith, h)) (constant-IsCondition true)
compile_policies-IsCondition (rule ∷ rules) actor x h =
    elim (Bool-cases (str_eq actor.role "service_role")) [
      | inl e ↦ subst IsCondition (ground (arith, e, h)) (constant-IsCondition true)
      | inr e ↦ elim (Result-cases (compile_rules actor (rule ∷ rules))) [
        | inr (f, q) ↦ absurd (ground (arith, e, q, h))
        | inl (children, q) ↦
            let (c, cs, same) = compile_rules-ne-nil actor rule rules children q in
            let good : AllConditions (c ∷ cs) =
              subst AllGood (q ∙ ap ok same) (rules-AllGood actor (rule ∷ rules)) in
            subst IsCondition (ground (arith, e, q, same, h))
              (record { condition = _; reads = joined-any_of c cs good.0 good.1 })
      ]
    ]
