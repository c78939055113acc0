-- ===== src/Policy/Granted.antt =====
-- A row is granted by a rule.
use serverless_db.Base.{
  ◌≡◌, ◌≢◌, refl, inl, inr, ℕ, suc, Bool, true, some, List, [], ◌∷◌, get_elem?, arith, Bool-cases,
  eq_iff,
}
use serverless_db.Error.{ok, Result-cases}
use serverless_db.Json.{Value, Fields}
use serverless_db.Access.{Actor}
use serverless_db.Policy.Meaning.{Grants, evaluate_rule-Grants}
use serverless_db.Policy.Evaluate.{evaluate_rule, evaluate_rules, evaluate_policies}

module _ (value_eq : Value → Value → Bool) where
  -- A rule of the list that grants the row.
  pub record IsGrantedBy (actor : Actor) (row : Fields) (rules : List Value) : Type 0 where
    pub index : ℕ
    pub rule : Value
    pub listed : get_elem? rules index ≡ some rule
    pub grants : Grants value_eq actor row rule

  next_rule :
      (actor : Actor) (row : Fields) (rule : Value) (rules : List Value)
      → IsGrantedBy actor row rules
      → IsGrantedBy actor row (rule ∷ rules)
  next_rule actor row rule rules h = record {
    index = suc h.index;
    rule = h.rule;
    listed = h.listed;
    grants = h.grants;
  }

  evaluate_rules-IsGrantedBy :
      (actor : Actor) (row : Fields) (rules : List Value)
      → evaluate_rules value_eq actor row rules ≡ ok true
      → IsGrantedBy actor row rules
  unfolding evaluate_rules
  evaluate_rules-IsGrantedBy actor row [] h = cc
  evaluate_rules-IsGrantedBy actor row (rule ∷ rules) h =
      elim (Result-cases (evaluate_rule value_eq actor row rule)) [
        | inr (e, q) ↦ absurd (ground (arith, q, h))
        | inl (b, q) ↦ elim (Bool-cases b) [
          | inl t ↦ record {
            index = 0;
            rule = rule;
            listed = refl;
            grants = evaluate_rule-Grants value_eq actor row rule (ground (arith, q, t));
          }
          | inr t ↦
              next_rule actor row rule rules
                (evaluate_rules-IsGrantedBy actor row rules (ground (arith, q, t, h)))
        ]
      ]

  -- Where the list of rules is not empty, a row that a user other than the service role may write is
  -- granted by one of them. What it means that a rule grants a row is said of the rule itself: outright,
  -- by the role, by all children of a conjunction, by one of a disjunction, or by the value of a column.
  pub evaluate_policies-IsGrantedBy :
      (rules : List Value) (row : Fields) (actor : Actor)
      → rules ≢ []
      → actor.role ≢ "service_role"
      → evaluate_policies value_eq rules row actor ≡ ok true
      → IsGrantedBy actor row rules
  unfolding evaluate_policies
  evaluate_policies-IsGrantedBy [] row actor some_rule user h = absurd (some_rule refl)
  evaluate_policies-IsGrantedBy (rule ∷ rules) row actor some_rule user h =
      evaluate_rules-IsGrantedBy actor row (rule ∷ rules)
        (ground (arith, h, eq_iff actor.role "service_role"))
