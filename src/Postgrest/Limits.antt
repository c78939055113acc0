-- ===== src/Postgrest/Limits.antt =====
-- The values behind a compiled query.
use serverless_db.Base.{ℕ, ◌≤◌, ◌≡◌, inl, inr, Text, List, [], ◌∷◌, ◌++◌, arith}
use serverless_db.Error.{ok, Result-cases}
use serverless_db.Ident.{quote_ident}
use serverless_db.Json.{Value}
use serverless_db.Access.{Actor}
use serverless_db.Sql.{SqlValue, integer, ℤ, pos, Compiled}
use serverless_db.Policy.{compile_policies}
use serverless_db.Postgrest.{SelectQuery}
use serverless_db.Postgrest.Compiler.{
  build_select_sql, compile_select_columns, compile_filters, compile_order, clamped, as_i64,
}

-- Whatever limit a request asks for, the query that is compiled for it asks SQLite for at least one row
-- and at most 1000: the value before the last is the limit.
pub build_select_sql-limit :
    (to_lowercase : Text → Text) (table : Text) (query : SelectQuery) (rules : List Value)
    (actor : Actor) (x : Compiled)
    → build_select_sql to_lowercase table query rules actor ≡ ok x
    → (front : List SqlValue) × (n : ℕ) × (m : ℤ) × (x.1
        ≡ front ++ integer (pos n) ∷ integer m ∷ [])
      × (1 ≤ n)
      × (n ≤ 1000)
unfolding build_select_sql
build_select_sql-limit to_lowercase table query rules actor x h =
    elim (Result-cases (quote_ident table)) [
      | inr (e, q) ↦ absurd (ground (arith, q, h))
      | inl (t, q) ↦ elim (Result-cases (compile_select_columns query.select)) [
        | inr (e, r) ↦ absurd (ground (arith, q, r, h))
        | inl (columns, r) ↦ elim (Result-cases (compile_filters to_lowercase query.filters)) [
          | inr (e, u) ↦ absurd (ground (arith, q, r, u, h))
          | inl (f, u) ↦ elim (Result-cases (compile_policies rules actor)) [
            | inr (e, v) ↦ absurd (ground (arith, q, r, u, v, h))
            | inl (p, v) ↦ elim (Result-cases (compile_order query.order)) [
              | inr (e, w) ↦ absurd (ground (arith, q, r, u, v, w, h))
              | inl (o, w) ↦ (
                f.1 ++ p.1,
                clamped query.limit,
                as_i64 query.offset,
                ground (arith, q, r, u, v, w, h),
                ground arith,
                ground arith,
              )
            ]
          ]
        ]
      ]
    ]
