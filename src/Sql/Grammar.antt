-- ===== src/Sql/Grammar.antt =====
-- How SQL reads a condition: the part of SQLite's grammar that compiled conditions use, with its
-- precedence. `NOT` binds tighter than `AND`, and `AND` tighter than `OR`.
use serverless_db.Base.{◌≡◌, refl, arith, true, false, Text, codes, List, [], ◌∷◌, ◌++◌}
use serverless_db.Error.{Result, ok, err, ◌>>=◌}
use serverless_db.Text.{text_eq}
use serverless_db.Ident.{valid_ident, quote_ident}
use serverless_db.Sql.{SqlValue, Compiled, placeholders, joined, grouped}

pub data Condition : Type 0 where
  always never : Condition
  -- A column, an operator as it is written, and the values of its placeholders.
  test : Text → Text → List SqlValue → Condition
  both either : Condition → Condition → Condition
  negation : Condition → Condition

-- The operators behind a column, and their values.
pub data IsOperator : Text → List SqlValue → Type 0 where
  eq : (v : SqlValue) → IsOperator (codes " = ?") (v ∷ [])
  neq : (v : SqlValue) → IsOperator (codes " != ?") (v ∷ [])
  gt : (v : SqlValue) → IsOperator (codes " > ?") (v ∷ [])
  gte : (v : SqlValue) → IsOperator (codes " >= ?") (v ∷ [])
  lt : (v : SqlValue) → IsOperator (codes " < ?") (v ∷ [])
  lte : (v : SqlValue) → IsOperator (codes " <= ?") (v ∷ [])
  like : (v : SqlValue) → IsOperator (codes " LIKE ?") (v ∷ [])
  ilike : (v : SqlValue) → IsOperator (codes " LIKE ? COLLATE NOCASE") (v ∷ [])
  one_of :
      (values : List SqlValue)
      → IsOperator (codes " IN (" ++ (placeholders values ++ codes ")")) values
  is_null : IsOperator (codes " IS NULL") []
  is_not_null : IsOperator (codes " IS NOT NULL") []
  is_true : IsOperator (codes " IS 1") []
  is_false : IsOperator (codes " IS 0") []

pub data Level : Type 0 where
  disjunctive conjunctive unary primary : Level

abbrev pub quoted : Text → Text
quoted column = b'"' ∷ column ++ b'"' ∷ []

-- A text with values for its placeholders, in their order, reads as a condition.
pub data Reads : Level → Text → List SqlValue → Condition → Type 0 where
  true_text : Reads primary (codes "1=1") [] always
  false_text : Reads primary (codes "0=1") [] never
  tested :
      (column op : Text) (values : List SqlValue)
      → valid_ident column ≡ true
      → IsOperator op values
      → Reads primary (quoted column ++ op) values (test column op values)
  group :
      {s : Text} {ps : List SqlValue} {c : Condition}
      → Reads disjunctive s ps c
      → Reads primary (grouped s) ps c
  from_primary :
      {s : Text} {ps : List SqlValue} {c : Condition} → Reads primary s ps c → Reads unary s ps c
  negated :
      {s : Text} {ps : List SqlValue} {c : Condition}
      → Reads unary s ps c
      → Reads unary (codes "NOT " ++ s) ps (negation c)
  from_unary :
      {s : Text} {ps : List SqlValue} {c : Condition}
      → Reads unary s ps c
      → Reads conjunctive s ps c
  conjunction :
      {s t : Text} {ps qs : List SqlValue} {c d : Condition}
      → Reads conjunctive s ps c
      → Reads conjunctive t qs d
      → Reads conjunctive (s ++ (codes " AND " ++ t)) (ps ++ qs) (both c d)
  from_conjunctive :
      {s : Text} {ps : List SqlValue} {c : Condition}
      → Reads conjunctive s ps c
      → Reads disjunctive s ps c
  disjunction :
      {s t : Text} {ps qs : List SqlValue} {c d : Condition}
      → Reads disjunctive s ps c
      → Reads disjunctive t qs d
      → Reads disjunctive (s ++ (codes " OR " ++ t)) (ps ++ qs) (either c d)

-- Any primary stands alone as a condition.
pub alone :
    {s : Text} {ps : List SqlValue} {c : Condition}
    → Reads primary s ps c
    → Reads disjunctive s ps c
alone r = from_conjunctive (from_unary (from_primary r))

-- A compiled text that is a condition.
pub record IsCondition (x : Compiled) : Type 0 where
  pub condition : Condition
  pub reads : Reads disjunctive x.0 x.1 condition

-- A compiled text that stands by itself beside `AND`, and is not the text for true.
pub record IsPrimary (x : Compiled) : Type 0 where
  pub condition : Condition
  pub reads : Reads primary x.0 x.1 condition
  pub not_true : text_eq x.0 (codes "1=1") ≡ false

abbrev pub AllConditions : List Compiled → Type 0
AllConditions [] = Unit {0}
AllConditions (x ∷ xs) = IsCondition x × AllConditions xs

-- The conditions of children, under one connective.
abbrev pub all_of :
    (x : Compiled) (xs : List Compiled) → IsCondition x → AllConditions xs → Condition
all_of x [] h hs = h.condition
all_of x (y ∷ ys) h hs = both h.condition (all_of y ys hs.0 hs.1)

abbrev pub any_of :
    (x : Compiled) (xs : List Compiled) → IsCondition x → AllConditions xs → Condition
any_of x [] h hs = h.condition
any_of x (y ∷ ys) h hs = either h.condition (any_of y ys hs.0 hs.1)

pub joined-all_of :
    (x : Compiled) (xs : List Compiled) (h : IsCondition x) (hs : AllConditions xs)
    → Reads conjunctive
        (joined (codes " AND ") (x ∷ xs)).0
        (joined (codes " AND ") (x ∷ xs)).1
        (all_of x xs h hs)
unfolding joined
joined-all_of x [] h hs = from_unary (from_primary (group h.reads))
joined-all_of x (y ∷ ys) h hs =
    conjunction (from_unary (from_primary (group h.reads))) (joined-all_of y ys hs.0 hs.1)

pub joined-any_of :
    (x : Compiled) (xs : List Compiled) (h : IsCondition x) (hs : AllConditions xs)
    → Reads disjunctive
        (joined (codes " OR ") (x ∷ xs)).0
        (joined (codes " OR ") (x ∷ xs)).1
        (any_of x xs h hs)
unfolding joined
joined-any_of x [] h hs = alone (group h.reads)
joined-any_of x (y ∷ ys) h hs = disjunction (alone (group h.reads)) (joined-any_of y ys hs.0 hs.1)

-- Children that compiled are conditions.
abbrev pub AllGood : Result (List Compiled) → Type 0
AllGood (err e) = Unit {0}
AllGood (ok children) = AllConditions children

pub cons-AllGood :
    (r : Result Compiled) (rs : Result (List Compiled))
    → ((x : Compiled) → r ≡ ok x → IsCondition x)
    → AllGood rs
    → AllGood (r >>= λ c. rs >>= λ cs. ok (c ∷ cs))
cons-AllGood (ok c) (ok cs) h hs = (h c refl, hs)
cons-AllGood (ok c) (err e) h hs = tt
cons-AllGood (err e) rs h hs = tt

-- An identifier that was quoted is valid.
pub quote_ident-valid :
    (name quoted_name : Text)
    → quote_ident name ≡ ok quoted_name
    → (valid_ident name ≡ true) × (quoted name ≡ quoted_name)
unfolding quote_ident
quote_ident-valid name quoted_name h = (ground arith, ground arith)
