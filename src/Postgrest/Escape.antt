-- ===== src/Postgrest/Escape.antt =====
-- How the policies of a table stand in a `WHERE`: beside most filters, but behind the last alternative
-- of a disjunction only.
use mathlib.Core.List.{append_assoc}
use serverless_db.Base.{
  ◌≡◌, refl, ap, sym, ◌∙◌, subst, inl, inr, Text, codes, List, [], ◌∷◌, ◌++◌, arith,
}
use serverless_db.Error.{ok, Result-cases}
use serverless_db.Text.{text_eq}
use serverless_db.Json.{Value}
use serverless_db.Access.{Actor}
use serverless_db.Sql.{SqlValue, Compiled, joined, grouped}
use serverless_db.Sql.Grammar.{
  Reads, Condition, either, both, disjunctive, group, from_primary, from_unary, from_conjunctive,
  conjunction as joins_and, disjunction as joins_or, alone, IsCondition, AllConditions, AllGood,
}
use serverless_db.Policy.{compile_policies}
use serverless_db.Policy.WellFormed.{compile_policies-IsCondition}
use serverless_db.Postgrest.{FilterExpr, disjunction, FilterExprs, cons}
use serverless_db.Postgrest.Compiler.{
  where_text, compile_filters, compile_children, where_for_operation_postgrest,
}
use serverless_db.Postgrest.Conditions.{compile_children-AllGood}

pub assoc_text : (a b j g : Text) → (a ++ (b ++ j)) ++ g ≡ a ++ (b ++ (j ++ g))
assoc_text a b j g = append_assoc a (b ++ j) g ∙ ap (λ t. a ++ t) (append_assoc b j g)

-- The alternatives of a filter with a policy behind them.
abbrev guarded_text : List Compiled → Compiled → Text
guarded_text alternatives p =
    (joined (codes " OR ") alternatives).0 ++ (codes " AND " ++ grouped p.0)

abbrev guarded_values : List Compiled → Compiled → List SqlValue
guarded_values alternatives p = (joined (codes " OR ") alternatives).1 ++ p.1

one_more_alternative :
    (y z : Compiled) (zs : List Compiled) (p : Compiled) (hy : IsCondition y) (d : Condition)
    → Reads disjunctive (guarded_text (z ∷ zs) p) (guarded_values (z ∷ zs) p) d
    → Reads disjunctive
        (guarded_text (y ∷ z ∷ zs) p)
        (guarded_values (y ∷ z ∷ zs) p)
        (either hy.condition d)
unfolding joined
one_more_alternative y z zs p hy d r =
    subst (λ s. Reads disjunctive s (guarded_values (y ∷ z ∷ zs) p) (either hy.condition d))
      (sym (
        assoc_text (grouped y.0) (codes " OR ") (joined (codes " OR ") (z ∷ zs)).0
          (codes " AND " ++ grouped p.0)))
      (subst
        (λ ps.
          Reads disjunctive (grouped y.0 ++ (codes " OR " ++ guarded_text (z ∷ zs) p)) ps
            (either hy.condition d))
        (sym (append_assoc y.1 (joined (codes " OR ") (z ∷ zs)).1 p.1))
        (joins_or (alone (group hy.reads)) r))

-- The policy belongs to the last alternative.
last_guarded :
    (y : Compiled) (ys : List Compiled) (p : Compiled)
    → IsCondition y
    → AllConditions ys
    → IsCondition p
    → (d : Condition) × Reads disjunctive (guarded_text (y ∷ ys) p) (guarded_values (y ∷ ys) p) d
unfolding joined
last_guarded y [] p hy hs hp = (
  both hy.condition hp.condition,
  from_conjunctive (
      joins_and (from_unary (from_primary (group hy.reads)))
        (from_unary (from_primary (group hp.reads)))),
)
last_guarded y (z ∷ zs) p hy hs hp =
    let (d, r) = last_guarded z zs p hs.0 hs.1 hp in
    (either hy.condition d, one_more_alternative y z zs p hy d r)

-- A joined text begins with a parenthesis.
where_text-joined :
    (y z : Compiled) (zs : List Compiled) (p : Compiled)
    → where_text (joined (codes " OR ") (y ∷ z ∷ zs)).0 p.0 ≡ guarded_text (y ∷ z ∷ zs) p
unfolding joined text_eq
where_text-joined y z zs p = refl

compile_children-cons :
    (to_lowercase : Text → Text) (x : FilterExpr) (es : FilterExprs) (children : List Compiled)
    → compile_children to_lowercase (cons x es) ≡ ok children
    → (c : Compiled) × (cs : List Compiled) × (compile_filters to_lowercase x ≡ ok c)
      × (compile_children to_lowercase es ≡ ok cs)
      × (children ≡ c ∷ cs)
unfolding compile_children
compile_children-cons to_lowercase x es children h =
    elim (Result-cases (compile_filters to_lowercase x)) [
      | inr (f, q) ↦ absurd (ground (arith, q, h))
      | inl (c, q) ↦ elim (Result-cases (compile_children to_lowercase es)) [
        | inr (f, r) ↦ absurd (ground (arith, q, r, h))
        | inl (cs, r) ↦ (c, cs, q, r, ground (arith, q, r, h))
      ]
    ]

pub where_parts :
    (to_lowercase : Text → Text) (filters : FilterExpr) (rules : List Value) (actor : Actor)
    (w : Compiled)
    → where_for_operation_postgrest to_lowercase filters rules actor ≡ ok w
    → (f p : Compiled) × (compile_filters to_lowercase filters ≡ ok f)
      × (compile_policies rules actor ≡ ok p)
      × ((where_text f.0 p.0, f.1 ++ p.1) ≡ w)
unfolding where_for_operation_postgrest
where_parts to_lowercase filters rules actor w h =
    elim (Result-cases (compile_filters to_lowercase filters)) [
      | inr (e, q) ↦ absurd (ground (arith, q, h))
      | inl (f, q) ↦ elim (Result-cases (compile_policies rules actor)) [
        | inr (e, r) ↦ absurd (ground (arith, q, r, h))
        | inl (p, r) ↦ (f, p, q, r, ground (arith, q, r, h))
      ]
    ]

-- A filter with several alternatives escapes the policies: whatever the rules are, the `WHERE` that is
-- made for it reads as the first alternative or something else, so that each row which satisfies that
-- alternative is selected (updated, deleted), though no rule allows it.
pub or_filter_escapes_policy :
    (to_lowercase : Text → Text) (x y : FilterExpr) (rest : FilterExprs) (rules : List Value)
    (actor : Actor) (w : Compiled)
    → where_for_operation_postgrest to_lowercase (disjunction (cons x (cons y rest))) rules actor
      ≡ ok w
    → (first : Compiled) × (c d : Condition) × (compile_filters to_lowercase x ≡ ok first)
      × Reads disjunctive first.0 first.1 c
      × Reads disjunctive w.0 w.1 (either c d)
or_filter_escapes_policy to_lowercase x y rest rules actor w h =
    let (f, p, hf, hp, hw) =
      where_parts to_lowercase (disjunction (cons x (cons y rest))) rules actor w h in
    elim (Result-cases (compile_children to_lowercase (cons x (cons y rest)))) [
      | inr (e, q) ↦ absurd (unfold compile_filters in ground (arith, q, hf))
      | inl (children, q) ↦
          let (cx, cs, qx, qs, same) =
            compile_children-cons to_lowercase x (cons y rest) children q in
          let (cy, cs', qy, qs', same') = compile_children-cons to_lowercase y rest cs qs in
          let all : children ≡ cx ∷ cy ∷ cs' = same ∙ ap (λ l. cx ∷ l) same' in
          let good : AllConditions (cx ∷ cy ∷ cs') =
            subst AllGood (q ∙ ap ok all)
              (compile_children-AllGood to_lowercase (cons x (cons y rest))) in
          let is_f : joined (codes " OR ") (cx ∷ cy ∷ cs') ≡ f =
            unfold compile_filters in ground (arith, q, all, hf) in
          let p_good = compile_policies-IsCondition rules actor p hp in
          let (d, r) = last_guarded cy cs' p good.1.0 good.1.1 p_good in
          let is_w : (guarded_text (cx ∷ cy ∷ cs') p, guarded_values (cx ∷ cy ∷ cs') p) ≡ w =
            ap (λ t. (t, guarded_values (cx ∷ cy ∷ cs') p)) (sym (where_text-joined cx cy cs' p))
            ∙ ap (λ (g : Compiled). (where_text g.0 p.0, g.1 ++ p.1)) is_f
            ∙ hw in
          (
            cx,
            good.0.condition,
            d,
            qx,
            good.0.reads,
            subst (λ (v : Compiled). Reads disjunctive v.0 v.1 (either good.0.condition d)) is_w
                (one_more_alternative cx cy cs' p good.0 d r),
          )
    ]
