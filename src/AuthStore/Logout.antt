-- ===== src/AuthStore/Logout.antt =====
-- What a logout revokes.
use mathlib.Core.Option
use serverless_db.Base.{
  ℕ, ◌≡◌, ◌≢◌, subst, refl, sym, ap, ◌∙◌, inl, inr, arith, String, Bool, true, false, ◌&&◌, Text,
  Option, none, some, str_eq, eq_iff, str_eq-false, Bool-cases, Option-cases, if◌then◌else◌,
}
use serverless_db.Fallible.{ok, err}
use serverless_db.Json.{Value}
use serverless_db.AuthStore.{
  Outcome, AuthLogoutScope, global, local, others, AuthSession, RefreshToken, AuthTables,
  invalid_refresh_token, holds, is_null, user_by_id, token_row, session_row,
}
use serverless_db.AuthStore.Sessions.{
  active_rows, found_session, revoked_if, ended_if, covers, covers_session, revokes_token,
  revokes_session, revoke, current_session, revoke_sessions, get_active_refresh_token,
}
use serverless_db.AuthStore.Rows.{find-map, find_holds}
use serverless_db.AuthStore.Rotation.{revoked_if-token, revoked-inactive}

holds_sound : (o : Option String) (id : String) → holds o id ≡ true → o ≡ some id
holds_sound none id h = cc
holds_sound (some t) id h = ap some ((eq_iff t id).0 h)

ended_if-id : (b : Bool) (at : ℕ) (se : AuthSession) → (ended_if b at se).id ≡ se.id
ended_if-id true at se = refl
ended_if-id false at se = refl

covers-some :
    (scope : AuthLogoutScope) (current id : String)
    → covers scope current (some id) ≡ covers_session scope current id
covers-some global current id = refl
covers-some local current id = refl
covers-some others current id = refl

-- A token that a scope covers is revoked afterwards, whether or not it was before.
revoked_if-revokes_token :
    (user_id current : String) (scope : AuthLogoutScope) (at : ℕ) (rt : RefreshToken)
    → (str_eq rt.user_id user_id && covers scope current rt.session_id) ≡ true
    → is_null (revoked_if (revokes_token user_id current scope rt) at rt).revoked_at ≡ false
revoked_if-revokes_token user_id current scope at rt h = elim (Bool-cases (is_null rt.revoked_at)) [
  | inl e ↦ ground (arith, h, e)
  | inr e ↦ ground (arith, h, e)
]

active_rows_same :
    (token : String) (now : ℕ) (s t : AuthTables) (rt : RefreshToken) (se : AuthSession)
    → token_row token s ≡ some rt
    → token_row token t ≡ some rt
    → session_row rt.session_id s ≡ some se
    → session_row rt.session_id t ≡ some se
    → user_by_id rt.user_id t ≡ user_by_id rt.user_id s
    → active_rows token now t ≡ active_rows token now s
unfolding active_rows
active_rows_same token now s t rt se a b c d e = elim (Option-cases (user_by_id rt.user_id s)) [
  | inl q ↦ ground (arith, a, b, c, d, e, q)
  | inr (u, q) ↦ ground (arith, a, b, c, d, e, q)
]

-- What a scope does not cover stays.
kept_token :
    (user_id current : String) (scope : AuthLogoutScope) (at : ℕ) (rt : RefreshToken)
    → (str_eq rt.user_id user_id && covers scope current rt.session_id) ≡ false
    → revoked_if (revokes_token user_id current scope rt) at rt ≡ rt
kept_token user_id current scope at rt h = ground (arith, h)

kept_session :
    (user_id current : String) (scope : AuthLogoutScope) (at : ℕ) (se : AuthSession)
    → (str_eq se.user_id user_id && covers_session scope current se.id) ≡ false
    → ended_if (revokes_session user_id current scope se) at se ≡ se
kept_session user_id current scope at se h = ground (arith, h)

module _ (user_id current : String) (scope : AuthLogoutScope) (at : ℕ) (s : AuthTables) where
  token_row-revoke :
      (token : String) (rt : RefreshToken)
      → token_row token s ≡ some rt
      → token_row token (revoke user_id current scope at s)
        ≡ some (revoked_if (revokes_token user_id current scope rt) at rt)
  unfolding revoke
  token_row-revoke token rt h =
      find-map (λ x. str_eq x.token token)
        (λ x. revoked_if (revokes_token user_id current scope x) at x) s.refresh_tokens
        (λ x.
          ap (λ t. str_eq t token) (revoked_if-token (revokes_token user_id current scope x) at x))
      ∙ ap (Option.map (λ x. revoked_if (revokes_token user_id current scope x) at x)) h

  session_row-revoke :
      (session_id : Option String) (se : AuthSession)
      → session_row session_id s ≡ some se
      → session_row session_id (revoke user_id current scope at s)
        ≡ some (ended_if (revokes_session user_id current scope se) at se)
  unfolding revoke
  session_row-revoke session_id se h =
      find-map (λ x. holds session_id x.id)
        (λ x. ended_if (revokes_session user_id current scope x) at x) s.sessions
        (λ x. ap (holds session_id) (ended_if-id (revokes_session user_id current scope x) at x))
      ∙ ap (Option.map (λ x. ended_if (revokes_session user_id current scope x) at x)) h

  users-revoke : (id : String) → user_by_id id (revoke user_id current scope at s) ≡ user_by_id id s
  unfolding revoke
  users-revoke id = refl

  active_rows-revoke :
      (token : String) (now : ℕ) (rt : RefreshToken) (se : AuthSession)
      → token_row token s ≡ some rt
      → session_row rt.session_id s ≡ some se
      → se.user_id ≡ rt.user_id
      → active_rows token now (revoke user_id current scope at s) ≡ (
          if str_eq rt.user_id user_id && covers scope current rt.session_id
          then none
          else active_rows token now s)
  active_rows-revoke token now rt se h k same =
      elim (Bool-cases (str_eq rt.user_id user_id && covers scope current rt.session_id)) [
        | inl c ↦ rw c (
            revoked-inactive token now (revoke user_id current scope at s) _
              (token_row-revoke token rt h)
              (revoked_if-revokes_token user_id current scope at rt c))
        | inr c ↦
            let its_session : rt.session_id ≡ some se.id =
              holds_sound rt.session_id se.id
                (find_holds (λ x. holds rt.session_id x.id) s.sessions se k) in
            let uncovered : (str_eq se.user_id user_id && covers_session scope current se.id)
                ≡ false =
              ap (λ i. str_eq i user_id && covers_session scope current se.id) same
              ∙ ap (λ b. str_eq rt.user_id user_id && b)
                  (sym (ap (covers scope current) its_session ∙ covers-some scope current se.id))
              ∙ c in
            rw c (
              active_rows_same token now s (revoke user_id current scope at s) rt se h
                (token_row-revoke token rt h ∙ ap some (kept_token user_id current scope at rt c)) k
                (session_row-revoke rt.session_id se k
                  ∙ ap some (kept_session user_id current scope at se uncovered))
                (users-revoke rt.user_id))
      ]

-- What becomes of a token by a logout of a user: it is refused, or answered as before.
pub data IsLeft (user_id current : String) (rt : RefreshToken) (before : Outcome Value)
    : AuthLogoutScope → Outcome Value → Type 0 where
  all_ended :
      rt.user_id ≡ user_id → IsLeft user_id current rt before global (err invalid_refresh_token)
  current_ended :
      rt.user_id ≡ user_id
      → rt.session_id ≡ some current
      → IsLeft user_id current rt before local (err invalid_refresh_token)
  other_kept : rt.session_id ≢ some current → IsLeft user_id current rt before local before
  other_ended :
      (id : String)
      → rt.user_id ≡ user_id
      → rt.session_id ≡ some id
      → id ≢ current
      → IsLeft user_id current rt before others (err invalid_refresh_token)
  current_kept : rt.session_id ≡ some current → IsLeft user_id current rt before others before
  no_session_kept : rt.session_id ≡ none → IsLeft user_id current rt before others before
  foreign_kept :
      (scope : AuthLogoutScope)
      → rt.user_id ≢ user_id
      → IsLeft user_id current rt before scope before

some_injective : (a b : String) → Option.some a ≡ some b → a ≡ b
some_injective a b e = cc

module _ (user_id current : String) (rt : RefreshToken) (before : Outcome Value)
    (mine : rt.user_id ≡ user_id) where
  own-IsLeft :
      (scope : AuthLogoutScope) (o : Option String)
      → rt.session_id ≡ o
      → IsLeft user_id current rt before scope
          (if covers scope current o then err invalid_refresh_token else before)
  own-IsLeft global o h = all_ended mine
  own-IsLeft local none h = other_kept (λ e. cc (h, e))
  own-IsLeft local (some id) h = elim (Bool-cases (str_eq id current)) [
    | inl q ↦ rw q (current_ended mine (h ∙ ap some ((eq_iff id current).0 q)))
    | inr q ↦
        rw q (other_kept (λ e. str_eq-false id current q (some_injective id current (sym h ∙ e))))
  ]
  own-IsLeft others none h = no_session_kept h
  own-IsLeft others (some id) h = elim (Bool-cases (str_eq id current)) [
    | inl q ↦ rw q (current_kept (h ∙ ap some ((eq_iff id current).0 q)))
    | inr q ↦ rw q (other_ended id mine h (str_eq-false id current q))
  ]

scope-IsLeft :
    (user_id current : String) (rt : RefreshToken) (before : Outcome Value)
    (scope : AuthLogoutScope)
    → IsLeft user_id current rt before scope (
        if str_eq rt.user_id user_id && covers scope current rt.session_id
        then err invalid_refresh_token
        else before)
scope-IsLeft user_id current rt before scope = elim (Bool-cases (str_eq rt.user_id user_id)) [
  | inr u ↦ rw u (foreign_kept scope (str_eq-false rt.user_id user_id u))
  | inl u ↦ rw u (
      own-IsLeft user_id current rt before ((eq_iff rt.user_id user_id).0 u) scope rt.session_id
        refl)
]

module _ (parse : Text → Option Value) where
  pub revoke_sessions-covers :
      (user_id current token : String) (current_session_id : Option String)
      (scope : AuthLogoutScope) (at now n : ℕ) (s t : AuthTables) (rt : RefreshToken)
      (se : AuthSession)
      → current_session scope current_session_id ≡ ok current
      → revoke_sessions user_id current_session_id scope at s ≡ (ok n, t)
      → token_row token s ≡ some rt
      → session_row rt.session_id s ≡ some se
      → se.user_id ≡ rt.user_id
      → get_active_refresh_token parse token now t ≡ (
          if str_eq rt.user_id user_id && covers scope current rt.session_id
          then err invalid_refresh_token
          else get_active_refresh_token parse token now s)
  unfolding revoke_sessions get_active_refresh_token
  revoke_sessions-covers user_id current token current_session_id scope at now n s t rt se c h tr sr
        same =
      let is_t : revoke user_id current scope at s ≡ t = ground (arith, c, h) in
      let rows = active_rows-revoke user_id current scope at s token now rt se tr sr same in
      ap (λ (w : AuthTables). found_session parse (active_rows token now w)) (sym is_t)
      ∙ ap (found_session parse) rows
      ∙ choice (str_eq rt.user_id user_id && covers scope current rt.session_id)
    where
      choice :
          (b : Bool)
          → found_session parse (if b then none else active_rows token now s) ≡ (
              if b
              then err invalid_refresh_token
              else found_session parse (active_rows token now s))
      choice true = refl
      choice false = refl

  -- A logout ends exactly the tokens of the user that its scope names: the global scope all of them, the
  -- local one those of the current session, and the scope of the others those of every other session.
  -- Any other token is as active as it was, and so is every token of another user. (The session of the
  -- token is one of the token's own user.)
  pub revoke_sessions_scope :
      (user_id current token : String) (current_session_id : Option String)
      (scope : AuthLogoutScope) (at now n : ℕ) (s t : AuthTables) (rt : RefreshToken)
      (se : AuthSession)
      → current_session scope current_session_id ≡ ok current
      → revoke_sessions user_id current_session_id scope at s ≡ (ok n, t)
      → token_row token s ≡ some rt
      → session_row rt.session_id s ≡ some se
      → se.user_id ≡ rt.user_id
      → IsLeft user_id current rt
          (get_active_refresh_token parse token now s)
          scope
          (get_active_refresh_token parse token now t)
  revoke_sessions_scope user_id current token current_session_id scope at now n s t rt se c h tr sr
        same =
      subst (IsLeft user_id current rt (get_active_refresh_token parse token now s) scope)
        (sym (
          revoke_sessions-covers user_id current token current_session_id scope at now n s t rt se c
            h tr sr same))
        (scope-IsLeft user_id current rt (get_active_refresh_token parse token now s) scope)
