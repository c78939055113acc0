-- ===== src/Postgrest.antt =====
-- PostgREST queries, rust-core/src/postgrest.rs: the query itself. `Postgrest.Parser` reads it from the
-- parameters of a request, `Postgrest.Compiler` makes SQL of it.
pub mod Parser
pub mod Compiler
pub mod Conditions
pub mod Guarded
pub mod Escape
pub mod Limits
pub mod RoundTrip
use serverless_db.Base.{ℕ, Text, List, []}

pub data FilterOp : Type 0 where
  eq neq gt gte lt lte in_list is like ilike : FilterOp

pub record FilterCondition : Type 0 where
  pub column : Text
  pub op : FilterOp
  pub value : Text

-- `FilterExprs` is the list inside a conjunction and a disjunction.
mutual
  pub data FilterExpr : Type 0 where
    condition : FilterCondition → FilterExpr
    conjunction disjunction : FilterExprs → FilterExpr
    negation : FilterExpr → FilterExpr

  pub data FilterExprs : Type 0 where
    nil : FilterExprs
    cons : FilterExpr → FilterExprs → FilterExprs

pub data OrderDirection : Type 0 where
  asc desc : OrderDirection

pub data OrderNulls : Type 0 where
  first last default : OrderNulls

pub record OrderClause : Type 0 where
  pub column : Text
  pub direction : OrderDirection
  pub nulls : OrderNulls

pub data CountMode : Type 0 where
  uncounted exact planned estimated : CountMode

pub record SelectQuery : Type 0 where
  pub filters : FilterExpr
  pub limit : ℕ
  pub offset : ℕ
  pub order : List OrderClause
  pub select : List Text
  pub count : CountMode

-- `SelectQuery::default`.
abbrev pub default_query : SelectQuery
default_query = record {
  filters = conjunction nil;
  limit = 100;
  offset = 0;
  order = [];
  select = [];
  count = uncounted;
}
