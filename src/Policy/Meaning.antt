-- ===== src/Policy/Meaning.antt =====
-- What it means that a rule grants a row, apart from how it is evaluated.
use serverless_db.Base.{
  ◌≡◌, refl, inl, inr, arith, ap, ◌∙◌, String, Bool, true, false, Option, some, Bool-cases,
  Option-cases, str_eq, if◌then◌else◌,
}
use serverless_db.Error.{Result, ok, Result-cases}
use serverless_db.Json.{
  Value, null, bool, number, string, array, object, Items, nil, cons, Fields, end, field, get_field,
}
use serverless_db.Access.{Actor}
use serverless_db.Policy.{as_bool, as_str, as_array, or_null, actor_claim, has_role}
use serverless_db.Policy.Evaluate.{
  decided, claimed, evaluate_column, evaluate_object, evaluate_rule, evaluate_under, evaluate_array,
  evaluate_items,
}

module _ (value_eq : Value → Value → Bool) (actor : Actor) (row : Fields) where
  -- The value of a column fits what a rule asks of it.
  pub data Fits (fields : Fields) (row_value : Value) : Type 0 where
    equals_claim :
        (claim : String)
        → as_str (get_field "equals_claim" fields) ≡ some claim
        → value_eq row_value (actor_claim actor claim) ≡ true
        → Fits fields row_value
    in_claim :
        (claim : String)
        → as_str (get_field "in_claim" fields) ≡ some claim
        → claimed value_eq row_value (as_array (some (actor_claim actor claim))) ≡ true
        → Fits fields row_value
    equals :
        (v : Value)
        → get_field "equals" fields ≡ some v
        → value_eq row_value v ≡ true
        → Fits fields row_value

  mutual
    -- A rule grants the row: outright, by the role of the actor, as a conjunction all of whose children
    -- grant it, as a disjunction one of whose children does, or by the value of a column.
    pub data Grants : Value → Type 0 where
      outright :
          (fields : Fields)
          → as_bool (get_field "allow" fields) ≡ some true
          → Grants (object fields)
      by_role :
          (fields : Fields) (roles : Items)
          → as_array (get_field "role_in" fields) ≡ some roles
          → has_role actor.role roles ≡ true
          → Grants (object fields)
      by_children :
          (fields : Fields) (conj : Bool) (items : Items)
          → as_array (get_field (if conj then "and" else "or") fields) ≡ some items
          → Children conj items
          → Grants (object fields)
      by_column :
          (fields : Fields) (column : String)
          → as_str (get_field "column" fields) ≡ some column
          → Fits fields (or_null (get_field column row))
          → Grants (object fields)

    pub data Children : Bool → Items → Type 0 where
      no_more : Children true nil
      and_more :
          (v : Value) (items : Items)
          → Grants v
          → Children true items
          → Children true (cons v items)
      this_one : (v : Value) (items : Items) → Grants v → Children false (cons v items)
      a_later_one :
          (v : Value) (items : Items) → Children false items → Children false (cons v items)

  abbrev HasChildren : Bool → String → Fields → Type 0
  HasChildren conj k fields =
      (items : Items) × (as_array (get_field k fields) ≡ some items) × Children conj items

  evaluate_column-Fits :
      (fields : Fields) (row_value : Value)
      → evaluate_column value_eq actor fields row_value ≡ ok true
      → Fits fields row_value
  unfolding evaluate_column
  evaluate_column-Fits fields row_value h =
      elim (Option-cases (as_str (get_field "equals_claim" fields))) [
        | inr (claim, q) ↦ equals_claim claim q (ground (arith, q, h))
        | inl q ↦ elim (Option-cases (as_str (get_field "in_claim" fields))) [
          | inr (claim, r) ↦ in_claim claim r (ground (arith, q, r, h))
          | inl r ↦ elim (Option-cases (get_field "equals" fields)) [
            | inr (v, s) ↦ equals v s (ground (arith, q, r, s, h))
            | inl s ↦ absurd (ground (arith, q, r, s, h))
          ]
        ]
      ]

  evaluate_object-Grants :
      (fields : Fields) (all_of any_of : Option (Result Bool))
      → (all_of ≡ some (ok true) → HasChildren true "and" fields)
      → (any_of ≡ some (ok true) → HasChildren false "or" fields)
      → evaluate_object value_eq actor row fields all_of any_of ≡ ok true
      → Grants (object fields)
  unfolding evaluate_object
  evaluate_object-Grants fields all_of any_of under_and under_or h =
      elim (Option-cases (as_bool (get_field "allow" fields))) [
        | inr (b, q) ↦ outright fields (q ∙ ap some (ground (arith, q, h)))
        | inl q ↦ elim (Option-cases (as_array (get_field "role_in" fields))) [
          | inr (roles, r) ↦ by_role fields roles r (ground (arith, q, r, h))
          | inl r ↦ elim (Option-cases all_of) [
            | inr (a, e) ↦
                let (items, s, c) = under_and (e ∙ ap some (ground (arith, q, r, e, h))) in
                by_children fields true items s c
            | inl e ↦ elim (Option-cases any_of) [
              | inr (a, f) ↦
                  let (items, s, c) = under_or (f ∙ ap some (ground (arith, q, r, e, f, h))) in
                  by_children fields false items s c
              | inl f ↦ elim (Option-cases (as_str (get_field "column" fields))) [
                | inr (column, s) ↦ by_column fields column s (
                    evaluate_column-Fits fields (or_null (get_field column row))
                      (ground (arith, q, r, e, f, s, h)))
                | inl s ↦ absurd (ground (arith, q, r, e, f, s, h))
              ]
            ]
          ]
        ]
      ]

  decided-true :
      (conj b : Bool) (rest : Result Bool)
      → decided conj b rest ≡ ok true
      → (v : Value) (items : Items) → (b ≡ true → Grants v)
      → (rest ≡ ok true → Children conj items)
      → Children conj (cons v items)
  decided-true true true rest h v items here behind = and_more v items (here refl) (behind h)
  decided-true true false rest h v items here behind = absurd (ground (arith, h))
  decided-true false true rest h v items here behind = this_one v items (here refl)
  decided-true false false rest h v items here behind = a_later_one v items (behind h)

  mutual
    unfolding evaluate_rule evaluate_under evaluate_array evaluate_items get_field

    pub evaluate_rule-Grants :
        (rule : Value) → evaluate_rule value_eq actor row rule ≡ ok true → Grants rule
    evaluate_rule-Grants (object fields) h =
        let all_of = under-Children true "and" fields in
        let any_of = under-Children false "or" fields in
        evaluate_object-Grants fields (evaluate_under value_eq actor row true "and" fields)
          (evaluate_under value_eq actor row false "or" fields) all_of any_of h
    evaluate_rule-Grants null h = cc
    evaluate_rule-Grants (bool b) h = cc
    evaluate_rule-Grants (number n) h = cc
    evaluate_rule-Grants (string s) h = cc
    evaluate_rule-Grants (array items) h = cc

    under-Children :
        (conj : Bool) (k : String) (fields : Fields)
        → evaluate_under value_eq actor row conj k fields ≡ some (ok true)
        → HasChildren conj k fields
    under-Children conj k end h = cc
    under-Children conj k (field j v fields) h =
        let here = array-Children conj v in
        let later = under-Children conj k fields in
        elim (Bool-cases (str_eq j k)) [
          | inl q ↦ let (items, e, c) = here (rw q at h) in (items, rw q e, c)
          | inr q ↦ let (items, e, c) = later (rw q at h) in (items, rw q e, c)
        ]

    array-Children :
        (conj : Bool) (v : Value)
        → evaluate_array value_eq actor row conj v ≡ some (ok true)
        → (items : Items) × (as_array (some v) ≡ some items) × Children conj items
    array-Children conj (array items) h =
        let c = items-Children conj items in (items, refl, c (ground (arith, h)))
    array-Children conj null h = cc
    array-Children conj (bool b) h = cc
    array-Children conj (number n) h = cc
    array-Children conj (string s) h = cc
    array-Children conj (object fields) h = cc

    items-Children :
        (conj : Bool) (items : Items)
        → evaluate_items value_eq actor row conj items ≡ ok true
        → Children conj items
    items-Children true nil h = no_more
    items-Children false nil h = absurd (ground (arith, h))
    items-Children conj (cons v items) h =
        let here = evaluate_rule-Grants v in
        let behind = items-Children conj items in
        elim (Result-cases (evaluate_rule value_eq actor row v)) [
          | inr (e, q) ↦ absurd (ground (arith, q, h))
          | inl (b, q) ↦
              decided-true conj b (evaluate_items value_eq actor row conj items)
                (ground (arith, q, h)) v items (λ t. here (q ∙ ap ok t)) behind
        ]
