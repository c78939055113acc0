-- ===== src/Policy/Evaluate.antt =====
-- Rules on a row that is to be written, rust-core/src/policy.rs: `evaluate_policies` and `evaluate_rule`.
use serverless_db.Base.{
  String, Bool, true, false, ◌||◌, Option, none, some, List, [], ◌∷◌, str_eq, if◌then◌else◌,
}
use serverless_db.Error.{
  Result, ok, err, new, policy_rule_must_be_an_object, unsupported_policy_rule, ◌>>=◌,
}
use serverless_db.Json.{
  Value, null, bool, number, string, array, object, Items, nil, cons, Fields, end, field, get_field,
}
use serverless_db.Access.{Actor}
use serverless_db.Policy.{as_bool, as_str, as_array, or_null, actor_claim, has_role}

-- What a loop does behind a child: the conjunction ends at a false one, the disjunction at a true
-- one.
abbrev pub decided : Bool → Bool → Result Bool → Result Bool
decided true true rest = rest
decided true false rest = ok false
decided false true rest = ok true
decided false false rest = rest

-- `value_eq` is the equality of `serde_json::Value`.
module _ (value_eq : Value → Value → Bool) where
  abbrev pub contains : Value → Items → Bool
  contains row_value nil = false
  contains row_value (cons v items) = value_eq v row_value || contains row_value items

  abbrev pub claimed : Value → Option Items → Bool
  claimed row_value none = false
  claimed row_value (some items) = contains row_value items

  unfoldable pub evaluate_column : Actor → Fields → Value → Result Bool
  unfolding get_field actor_claim
  evaluate_column actor fields row_value = elim (as_str (get_field "equals_claim" fields)) [
    | some claim ↦ ok (value_eq row_value (actor_claim actor claim))
    | none ↦ elim (as_str (get_field "in_claim" fields)) [
      | some claim ↦ ok (claimed row_value (as_array (some (actor_claim actor claim))))
      | none ↦ elim (get_field "equals" fields) [
        | some v ↦ ok (value_eq row_value v)
        | none ↦ err (new 400 unsupported_policy_rule)
      ]
    ]
  ]

  unfoldable pub evaluate_object :
      Actor → Fields → Fields → Option (Result Bool) → Option (Result Bool) → Result Bool
  unfolding get_field evaluate_column has_role
  evaluate_object actor row fields under_and under_or = elim (as_bool (get_field "allow" fields)) [
    | some allow ↦ ok allow
    | none ↦ elim (as_array (get_field "role_in" fields)) [
      | some roles ↦ ok (has_role actor.role roles)
      | none ↦ elim under_and [
        | some all_of ↦ all_of
        | none ↦ elim under_or [
          | some any_of ↦ any_of
          | none ↦ elim (as_str (get_field "column" fields)) [
            | some column ↦ evaluate_column actor fields (or_null (get_field column row))
            | none ↦ err (new 400 unsupported_policy_rule)
          ]
        ]
      ]
    ]
  ]

  unfoldable mutual
    unfolding evaluate_object

    pub evaluate_rule : Actor → Fields → Value → Result Bool
    evaluate_rule actor row (object fields) =
        evaluate_object actor row fields (evaluate_under actor row true "and" fields)
          (evaluate_under actor row false "or" fields)
    evaluate_rule actor row null = err (new 400 policy_rule_must_be_an_object)
    evaluate_rule actor row (bool b) = err (new 400 policy_rule_must_be_an_object)
    evaluate_rule actor row (number n) = err (new 400 policy_rule_must_be_an_object)
    evaluate_rule actor row (string s) = err (new 400 policy_rule_must_be_an_object)
    evaluate_rule actor row (array items) = err (new 400 policy_rule_must_be_an_object)

    pub evaluate_under : Actor → Fields → Bool → String → Fields → Option (Result Bool)
    evaluate_under actor row conj k end = none
    evaluate_under actor row conj k (field j v fields) =
        let here = evaluate_array actor row conj v in
        let rest = evaluate_under actor row conj k fields in if str_eq j k then here else rest

    pub evaluate_array : Actor → Fields → Bool → Value → Option (Result Bool)
    evaluate_array actor row conj (array items) = some (evaluate_items actor row conj items)
    evaluate_array actor row conj null = none
    evaluate_array actor row conj (bool b) = none
    evaluate_array actor row conj (number n) = none
    evaluate_array actor row conj (string s) = none
    evaluate_array actor row conj (object fields) = none

    -- The two loops over children: one stops at the first child that is false, the other at the
    -- first that is true.
    pub evaluate_items : Actor → Fields → Bool → Items → Result Bool
    evaluate_items actor row conj nil = ok conj
    evaluate_items actor row conj (cons v items) =
        let rest = evaluate_items actor row conj items in
        evaluate_rule actor row v >>= λ b. decided conj b rest

  unfoldable pub evaluate_rules : Actor → Fields → List Value → Result Bool
  evaluate_rules actor row [] = ok false
  evaluate_rules actor row (rule ∷ rules) =
      let rest = evaluate_rules actor row rules in
      evaluate_rule actor row rule >>= λ b. if b then ok true else rest

  unfoldable pub evaluate_policies : List Value → Fields → Actor → Result Bool
  evaluate_policies [] row actor = ok true
  evaluate_policies (rule ∷ rules) row actor =
      if str_eq actor.role "service_role" then ok true else evaluate_rules actor row (rule ∷ rules)
