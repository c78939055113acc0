-- ===== src/AuthStore/Stored.antt =====
-- The columns of a user and its JSON.
use mathlib.Core.Option
use serverless_db.Base.{
  ◌≡◌, refl, ap, ◌∙◌, subst, inl, inr, arith, String, Bool, true, false, Text, Option, some, map,
  str_eq, Option-cases,
}
use serverless_db.Fallible.{ok, Fallible-cases}
use serverless_db.Json.{Value}
use serverless_db.AuthStore.{AuthUser, AuthUserPatch, AuthTables, user_by_id}
use serverless_db.AuthStore.Users.{
  required_str, optional_str, patched, with_columns, update_row, update_user, get_user_by_id,
}
use serverless_db.AuthStore.Rows.{find-map, find_holds}

-- The row of a user: its columns are those of the JSON that it holds.
pub record IsRowOf (print : Value → Text) (v : Value) (row : AuthUser) : Type 0 where
  pub email : row.email ≡ optional_str v "email"
  pub phone : row.phone ≡ optional_str v "phone"
  pub password_hash : required_str v "password_hash" ≡ ok row.password_hash
  pub user_json : row.user_json ≡ print v

with_columns-id :
    (b : Bool) (e p : Option String) (h : String) (j : Text) (at : String) (u : AuthUser)
    → (with_columns b e p h j at u).id ≡ u.id
with_columns-id true e p h j at u = refl
with_columns-id false e p h j at u = refl

update_row_found :
    (user_id : String) (e p : Option String) (h : String) (j : Text) (at : String)
    (s t : AuthTables) (u : AuthUser)
    → user_by_id user_id s ≡ some u
    → update_row user_id e p h j at s ≡ ok t
    → user_by_id user_id t ≡ some (with_columns true e p h j at u)
unfolding update_row
update_row_found user_id e p h j at s t u q r =
    let f = λ (x : AuthUser). with_columns (str_eq x.id user_id) e p h j at x in
    let is_t : record s { users = map f s.users } ≡ t = ground (arith, r) in
    let found =
      find-map (λ (x : AuthUser). str_eq x.id user_id) f s.users
        (λ x. ap (λ i. str_eq i user_id) (with_columns-id (str_eq x.id user_id) e p h j at x))
      ∙ ap (Option.map f) q in
    let is_id : str_eq u.id user_id ≡ true =
      find_holds (λ (x : AuthUser). str_eq x.id user_id) s.users u q in
    subst (λ w. user_by_id user_id w ≡ some (with_columns true e p h j at u)) is_t
      (found ∙ ap (λ b. some (with_columns b e p h j at u)) is_id)

module _ (print : Value → Text) (parse : Text → Option Value) where
  -- A user that was updated is stored as it was answered: its row holds the JSON of the answer, and the
  -- columns that a login is looked up by are those of that JSON.
  pub update_user-IsRowOf :
      (user_id : String) (patch : AuthUserPatch) (s t : AuthTables) (v : Value)
      → update_user print parse user_id patch s ≡ (ok v, t)
      → (row : AuthUser) × (user_by_id user_id t ≡ some row) × IsRowOf print v row
  unfolding update_user get_user_by_id
  update_user-IsRowOf user_id patch s t v h = elim (Option-cases (user_by_id user_id s)) [
    | inl q ↦ absurd (ground (arith, q, h))
    | inr (u, q) ↦ elim (Option-cases (parse u.user_json)) [
      | inl r ↦ absurd (ground (arith, q, r, h))
      | inr (x, r) ↦ elim (Fallible-cases (patched patch x)) [
        | inr (e, a) ↦ absurd (ground (arith, q, r, a, h))
        | inl (y, a) ↦ elim (Fallible-cases (required_str y "password_hash")) [
          | inr (e, b) ↦ absurd (ground (arith, q, r, a, b, h))
          | inl (hash, b) ↦
              elim (Fallible-cases (
                update_row user_id (optional_str y "email") (optional_str y "phone") hash (print y)
                  patch.updated_at s)) [
                    | inr (e, c) ↦ absurd (ground (arith, q, r, a, b, c, h))
                    | inl (t', c) ↦
                        let same_v : y ≡ v = ground (arith, q, r, a, b, c, h) in
                        let same_t : t' ≡ t = ground (arith, q, r, a, b, c, h) in
                        let found =
                          update_row_found user_id (optional_str y "email") (optional_str y "phone")
                            hash (print y) patch.updated_at s t' u q c in
                        subst
                          (λ (w : Value).
                            (row : AuthUser) × (user_by_id user_id t ≡ some row)
                            × IsRowOf print w row)
                          same_v
                          (
                            _,
                            subst
                                (λ w.
                                  user_by_id user_id w
                                  ≡ some (
                                      with_columns true (optional_str y "email")
                                        (optional_str y "phone") hash (print y) patch.updated_at u))
                                same_t found,
                            record {
                              email = refl;
                              phone = refl;
                              password_hash = b;
                              user_json = refl;
                            },
                          )
                  ]
        ]
      ]
    ]
  ]
