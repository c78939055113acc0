-- ===== src/Postgrest/Guarded.antt =====
-- Filters that the policies of a table stand beside.
use serverless_db.Base.{
  ◌≡◌, refl, ap, sym, ◌∙◌, subst, ◌⊎◌, inl, inr, false, Text, codes, List, [], ◌∷◌, ◌++◌, arith,
}
use serverless_db.Error.{Result, ok, err, ◌>>=◌}
use serverless_db.Text.{text_eq}
use serverless_db.Json.{Value}
use serverless_db.Access.{Actor}
use serverless_db.Sql.{Compiled, joined, grouped}
use serverless_db.Sql.Grammar.{
  Reads, Condition, both, disjunctive, conjunctive, group, negated, from_primary, from_unary,
  from_conjunctive, conjunction as joins_and, alone, IsCondition, AllConditions, AllGood,
  joined-all_of,
}
use serverless_db.Policy.{compile_policies}
use serverless_db.Policy.WellFormed.{compile_policies-IsCondition}
use serverless_db.Postgrest.{FilterExpr, condition, conjunction, disjunction, negation, nil, cons}
use serverless_db.Postgrest.Compiler.{
  joined_or_true, where_text, compile_filters, compile_children, where_for_operation_postgrest,
}
use serverless_db.Postgrest.Conditions.{
  compile_condition-IsPrimary, compile_filters-IsCondition, compile_children-AllGood,
}
use serverless_db.Postgrest.Escape.{where_parts}

-- Not a disjunction of several alternatives.
abbrev pub IsSingle : FilterExpr → Type 0
IsSingle (condition c) = Unit {0}
IsSingle (conjunction es) = Unit {0}
IsSingle (negation e) = Unit {0}
IsSingle (disjunction nil) = Unit {0}
IsSingle (disjunction (cons e nil)) = Unit {0}
IsSingle (disjunction (cons e (cons f es))) = ⊥

-- How a compiled filter stands beside a policy: it is the text for true, or it is a conjunct.
data Stands (f : Compiled) : Type 0 where
  nothing : f ≡ (codes "1=1", []) → Stands f
  conjunct :
      (c : Condition) → Reads conjunctive f.0 f.1 c → text_eq f.0 (codes "1=1") ≡ false → Stands f

all_of-Stands :
    (children : List Compiled)
    → AllConditions children
    → Stands (joined_or_true (codes " AND ") children)
unfolding joined text_eq
all_of-Stands [] h = nothing refl
all_of-Stands (c ∷ []) h = conjunct _ (joined-all_of c [] h.0 h.1) refl
all_of-Stands (c ∷ d ∷ cs) h = conjunct _ (joined-all_of c (d ∷ cs) h.0 h.1) refl

Stands-conjunction :
    (r : Result (List Compiled)) (f : Compiled)
    → AllGood r
    → (r >>= λ cs. ok (joined_or_true (codes " AND ") cs)) ≡ ok f
    → Stands f
Stands-conjunction (err e) f h k = cc
Stands-conjunction (ok cs) f h k =
    let same : joined_or_true (codes " AND ") cs ≡ f = cc in subst Stands same (all_of-Stands cs h)

Stands-negation :
    (r : Result Compiled) (f : Compiled)
    → ((x : Compiled) → r ≡ ok x → IsCondition x)
    → (r >>= λ c. ok (codes "NOT " ++ grouped c.0, c.1)) ≡ ok f
    → Stands f
unfolding text_eq
Stands-negation (err e) f h k = cc
Stands-negation (ok c) f h k =
    let same : (codes "NOT " ++ grouped c.0, c.1) ≡ f = ground arith in
    subst Stands same
      (conjunct _ (from_unary (negated (from_primary (group (h c refl).reads)))) refl)

Stands-one_alternative :
    (r : Result Compiled) (f : Compiled)
    → ((x : Compiled) → r ≡ ok x → IsCondition x)
    → (r >>= λ c. ok (joined (codes " OR ") (c ∷ []))) ≡ ok f
    → Stands f
unfolding joined text_eq
Stands-one_alternative (err e) f h k = cc
Stands-one_alternative (ok c) f h k =
    let same : joined (codes " OR ") (c ∷ []) ≡ f = ground arith in
    subst Stands same (conjunct _ (from_unary (from_primary (group (h c refl).reads))) refl)

module _ (to_lowercase : Text → Text) where
  compile_filters-Stands :
      (e : FilterExpr) (f : Compiled)
      → IsSingle e
      → compile_filters to_lowercase e ≡ ok f
      → Stands f
  compile_filters-Stands (condition cond) f s h =
      let p = compile_condition-IsPrimary to_lowercase cond f (unfold compile_filters in h) in
      conjunct p.condition (from_unary (from_primary p.reads)) p.not_true
  compile_filters-Stands (conjunction es) f s h =
      Stands-conjunction (compile_children to_lowercase es) f
        (compile_children-AllGood to_lowercase es) (unfold compile_filters in h)
  compile_filters-Stands (negation e) f s h =
      Stands-negation (compile_filters to_lowercase e) f
        (compile_filters-IsCondition to_lowercase e) (unfold compile_filters in h)
  compile_filters-Stands (disjunction nil) f s h =
      nothing (unfold compile_filters compile_children in ground (arith, h))
  compile_filters-Stands (disjunction (cons e nil)) f s h =
      Stands-one_alternative (compile_filters to_lowercase e) f
        (compile_filters-IsCondition to_lowercase e)
        (unfold compile_filters compile_children in ground (arith, h))
  compile_filters-Stands (disjunction (cons e (cons e' es))) f s h = elim s [ ]

  guarded :
      (f p w : Compiled) (hp : IsCondition p)
      → Stands f
      → (where_text f.0 p.0, f.1 ++ p.1) ≡ w
      → (Reads disjunctive w.0 w.1 hp.condition)
        ⊎ ((c : Condition) × Reads disjunctive w.0 w.1 (both c hp.condition))
  unfolding text_eq
  guarded f p w hp (nothing e) h =
      let same : (grouped p.0, p.1) ≡ w =
        ap (λ (g : Compiled). (where_text g.0 p.0, g.1 ++ p.1)) (sym e) ∙ h in
      inl (
        subst (λ (v : Compiled). Reads disjunctive v.0 v.1 hp.condition) same
          (alone (group hp.reads)))
  guarded f p w hp (conjunct c r e) h =
      let same : (f.0 ++ (codes " AND " ++ grouped p.0), f.1 ++ p.1) ≡ w =
        unfold text_eq in ground (arith, e, h) in
      inr (
        c,
        subst (λ (v : Compiled). Reads disjunctive v.0 v.1 (both c hp.condition)) same
            (from_conjunctive (joins_and r (from_unary (from_primary (group hp.reads))))),
      )

  -- The `WHERE` of a filter that is no disjunction of several alternatives reads as the condition of the policies, or as the filter's and that:
  -- no row is selected, updated or deleted that the rules do not allow.
  pub filter_guarded_by_policy :
      (filters : FilterExpr) (rules : List Value) (actor : Actor) (w : Compiled)
      → IsSingle filters
      → where_for_operation_postgrest to_lowercase filters rules actor ≡ ok w
      → (policy : Compiled) × (p : Condition) × (compile_policies rules actor ≡ ok policy)
        × Reads disjunctive policy.0 policy.1 p
        × ((Reads disjunctive w.0 w.1 p) ⊎ ((c : Condition) × Reads disjunctive w.0 w.1 (both c p)))
  filter_guarded_by_policy filters rules actor w s h =
      let (f, p, hf, hp, hw) = where_parts to_lowercase filters rules actor w h in
      let good = compile_policies-IsCondition rules actor p hp in
      (
        p,
        good.condition,
        hp,
        good.reads,
        guarded f p w good (compile_filters-Stands filters f s hf) hw,
      )
