-- ===== src/Sql.antt =====
-- SQL text with its parameters, as rust-core/src/policy.rs and rust-core/src/postgrest.rs compile it.
pub mod Grammar
use serverless_db.Base.{ℕ, zero, suc, Text, codes, List, [], ◌∷◌, ◌++◌, map}
use serverless_db.Json.{Number}

pub data ℤ : Type 0 where
  pos negsuc : ℕ → ℤ

-- `rusqlite::types::Value`; a real is given by the JSON number that it comes from.
pub data SqlValue : Type 0 where
  null : SqlValue
  integer : ℤ → SqlValue
  real : Number → SqlValue
  text : Text → SqlValue

abbrev pub Compiled : Type 0
Compiled = Text × List SqlValue

-- `[..].join(sep)`.
unfoldable pub join : Text → List Text → Text
join sep [] = []
join sep (x ∷ []) = x
join sep (x ∷ y ∷ ys) = x ++ (sep ++ join sep (y ∷ ys))

abbrev pub concat : List (List SqlValue) → List SqlValue
concat [] = []
concat (ps ∷ []) = ps
concat (ps ∷ qs ∷ rest) = ps ++ concat (qs ∷ rest)

abbrev pub grouped : Text → Text
grouped sql = codes "(" ++ (sql ++ codes ")")

-- One question mark for each value, with commas.
unfoldable pub placeholders : List SqlValue → Text
unfolding join
placeholders values = join (codes ",") (map (λ v. codes "?") values)

-- The loop of `join` (policy.rs) and of `compile_filters` over compiled children.
unfoldable pub joined : Text → List Compiled → Compiled
unfolding join
joined sep children = (join sep (map (λ c. grouped c.0) children), concat (map (λ c. c.1) children))
