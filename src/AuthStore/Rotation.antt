-- ===== src/AuthStore/Rotation.antt =====
-- A refresh token is used once.
use serverless_db.Base.{
  ℕ, ◌<◌, ◌≡◌, refl, sym, ap, ◌∙◌, subst, inl, inr, arith, String, Bool, true, false, Text, Option,
  none, some, ◌∷◌, any, str_eq, eq_iff, Bool-cases, Option-cases, str_eq_refl,
}
use serverless_db.Fallible.{ok, err, Fallible-cases}
use serverless_db.Json.{Value}
use serverless_db.AuthStore.{
  AuthUser, AuthSession, RefreshToken, AuthTables, invalid_refresh_token, holds, is_null,
  user_by_id, token_row, session_row,
}
use serverless_db.AuthStore.Sessions.{
  revoked_if, expiring_if, is_active_row, active_rows, retire, successor, insert_token,
  found_session, rotate_refresh_token, get_active_refresh_token,
}
use serverless_db.AuthStore.Rows.{find-map, find_holds, any-find}

-- The rows of an active token.
pub record AreActive (token : String) (now : ℕ) (s : AuthTables) (rt : RefreshToken)
    (se : AuthSession) (u : AuthUser) : Type 0 where
  pub token_found : token_row token s ≡ some rt
  pub user_found : user_by_id rt.user_id s ≡ some u
  pub session_found : session_row rt.session_id s ≡ some se
  pub active : is_active_row now rt se ≡ true

pub active_rows-AreActive :
    (token : String) (now : ℕ) (s : AuthTables) (rt : RefreshToken) (se : AuthSession)
    (u : AuthUser)
    → active_rows token now s ≡ some (rt, se, u)
    → AreActive token now s rt se u
unfolding active_rows
active_rows-AreActive token now s rt se u h = elim (Option-cases (token_row token s)) [
  | inl q ↦ absurd (ground (arith, q, h))
  | inr (x, q) ↦ elim (Option-cases (user_by_id x.user_id s)) [
    | inl r ↦ absurd (ground (arith, q, r, h))
    | inr (y, r) ↦ elim (Option-cases (session_row x.session_id s)) [
      | inl v ↦ absurd (ground (arith, q, r, v, h))
      | inr (z, v) ↦ elim (Bool-cases (is_active_row now x z)) [
        | inr b ↦ absurd (ground (arith, q, r, v, b, h))
        | inl b ↦
            let same : (x, z, y) ≡ (rt, se, u) = ground (arith, q, r, v, b, h) in
            subst (λ (w : RefreshToken × AuthSession × AuthUser). AreActive token now s w.0 w.1 w.2)
              same (record { token_found = q; user_found = r; session_found = v; active = b })
      ]
    ]
  ]
]

AreActive-active_rows :
    (token : String) (now : ℕ) (s : AuthTables) (rt : RefreshToken) (se : AuthSession)
    (u : AuthUser)
    → AreActive token now s rt se u
    → active_rows token now s ≡ some (rt, se, u)
unfolding active_rows
AreActive-active_rows token now s rt se u h =
    ground (arith, h.token_found, h.user_found, h.session_found, h.active)

-- A token whose row is revoked is not active.
pub revoked-inactive :
    (token : String) (now : ℕ) (s : AuthTables) (rt : RefreshToken)
    → token_row token s ≡ some rt
    → is_null rt.revoked_at ≡ false
    → active_rows token now s ≡ none
unfolding active_rows
revoked-inactive token now s rt h n = elim (Option-cases (user_by_id rt.user_id s)) [
  | inl r ↦ ground (arith, h, r)
  | inr (y, r) ↦ elim (Option-cases (session_row rt.session_id s)) [
    | inl v ↦ ground (arith, h, r, v)
    | inr (z, v) ↦ ground (arith, h, r, v, n)
  ]
]

-- An inserted token is in front, and no other row holds it.
insert_token-cons :
    (row : RefreshToken) (s t : AuthTables)
    → insert_token row s ≡ ok t
    → (any (λ rt. str_eq rt.token row.token) s.refresh_tokens ≡ false)
      × (t ≡ record s { refresh_tokens = row ∷ s.refresh_tokens })
unfolding insert_token
insert_token-cons row s t h = (ground (arith, h), ground (arith, h))

-- The tables behind a rotation.
abbrev after_rotation :
    String → String → RefreshToken → AuthSession → ℕ → ℕ → AuthTables → AuthTables
after_rotation old_token new_token rt se created_at expires_at s =
    let t = retire old_token (some se.id) created_at expires_at s in
    record t { refresh_tokens = successor new_token rt created_at expires_at ∷ t.refresh_tokens }

pub revoked_if-token :
    (b : Bool) (at : ℕ) (rt : RefreshToken) → (revoked_if b at rt).token ≡ rt.token
revoked_if-token true at rt = refl
revoked_if-token false at rt = refl

expiring_if-id :
    (b : Bool) (expires_at : ℕ) (se : AuthSession) → (expiring_if b expires_at se).id ≡ se.id
expiring_if-id true expires_at se = refl
expiring_if-id false expires_at se = refl

module _ (old_token new_token : String) (created_at expires_at : ℕ) (s : AuthTables)
    (rt : RefreshToken) (se : AuthSession) (u : AuthUser)
    (h : AreActive old_token created_at s rt se u) where
  retired_row :
      token_row old_token (retire old_token (some se.id) created_at expires_at s)
      ≡ some (record rt { revoked_at = some created_at })
  unfolding retire
  retired_row =
      let p = λ (x : RefreshToken). str_eq x.token old_token in
      let step =
        find-map p (λ x. revoked_if (p x) created_at x) s.refresh_tokens
          (λ x. ap (λ t. str_eq t old_token) (revoked_if-token (p x) created_at x)) in
      let is_old : p rt ≡ true = find_holds p s.refresh_tokens rt h.token_found in
      step ∙ ground (arith, h.token_found, is_old)

  old_revoked :
      any
          (λ x. str_eq x.token new_token)
          (retire old_token (some se.id) created_at expires_at s).refresh_tokens
        ≡ false
      → token_row old_token (after_rotation old_token new_token rt se created_at expires_at s)
        ≡ some (record rt { revoked_at = some created_at })
  old_revoked n = elim (Bool-cases (str_eq new_token old_token)) [
    | inr e ↦ ground (arith, e, retired_row)
    | inl e ↦
        let same : old_token ≡ new_token = sym ((eq_iff new_token old_token).0 e) in
        let found =
          any-find (λ x. str_eq x.token old_token)
            (retire old_token (some se.id) created_at expires_at s).refresh_tokens _ retired_row in
        let clash : true ≡ false =
          sym found
          ∙ subst
              (λ t.
                any (λ x. str_eq x.token t)
                  (retire old_token (some se.id) created_at expires_at s).refresh_tokens
                ≡ false)
              (sym same) n in
        absurd cc
  ]

  extended_session :
      session_row rt.session_id (retire old_token (some se.id) created_at expires_at s)
      ≡ some (record se { expires_at = expires_at })
  unfolding retire
  extended_session =
      let p = λ (x : AuthSession). holds rt.session_id x.id in
      let f = λ (x : AuthSession). expiring_if (str_eq se.id x.id) expires_at x in
      let step =
        find-map p f s.sessions
          (λ x. ap (holds rt.session_id) (expiring_if-id (str_eq se.id x.id) expires_at x)) in
      step ∙ ground (arith, h.session_found, str_eq_refl se.id)

  new_user_found :
      user_by_id rt.user_id (after_rotation old_token new_token rt se created_at expires_at s)
      ≡ some u
  unfolding retire
  new_user_found = h.user_found

  new_active :
      (now : ℕ)
      → now < expires_at
      → active_rows new_token now (after_rotation old_token new_token rt se created_at expires_at s)
        ≡ some
            (successor new_token rt created_at expires_at, record se { expires_at = expires_at }, u)
  new_active now l =
      AreActive-active_rows new_token now
        (after_rotation old_token new_token rt se created_at expires_at s)
        (successor new_token rt created_at expires_at) (record se { expires_at = expires_at }) u
        (record {
          token_found = ground (arith, str_eq_refl new_token);
          user_found = new_user_found;
          session_found = extended_session;
          active = ground (arith, h.active);
        })

module _ (parse : Text → Option Value) where
  -- A refresh token is used once. Behind a rotation that succeeds the old token is never active again,
  -- and the new one stands for the same session and the same user until its own expiry.
  pub rotate_refresh_token-once :
      (old_token new_token : String) (created_at expires_at now later : ℕ) (s t : AuthTables)
      (v : Value)
      → rotate_refresh_token parse old_token new_token created_at expires_at s ≡ (ok v, t)
      → now < expires_at
      → (get_active_refresh_token parse old_token later t ≡ err invalid_refresh_token)
        × (get_active_refresh_token parse new_token now t ≡ ok v)
  unfolding rotate_refresh_token get_active_refresh_token
  rotate_refresh_token-once old_token new_token created_at expires_at now later s t v h l =
      elim (Option-cases (active_rows old_token created_at s)) [
        | inl q ↦ absurd (ground (arith, q, h))
        | inr ((rt, se, u), q) ↦
            elim (Fallible-cases (
              insert_token (successor new_token rt created_at expires_at)
                (retire old_token (some se.id) created_at expires_at s))) [
                  | inr (e, r) ↦ absurd (ground (arith, q, r, h))
                  | inl (t', r) ↦
                      let a = active_rows-AreActive old_token created_at s rt se u q in
                      let (fresh, is_t) =
                        insert_token-cons (successor new_token rt created_at expires_at)
                          (retire old_token (some se.id) created_at expires_at s) t' r in
                      let dead =
                        old_revoked old_token new_token created_at expires_at s rt se u a fresh in
                      let none_left =
                        revoked-inactive old_token later
                          (after_rotation old_token new_token rt se created_at expires_at s) _ dead
                          refl in
                      let alive =
                        new_active old_token new_token created_at expires_at s rt se u a now l in
                      let value : found_session parse (some (rt, se, u)) ≡ ok v =
                        ground (arith, q, r, h) in
                      let state : t' ≡ t = ground (arith, q, r, h) in
                      subst
                        (λ (w : AuthTables).
                          (get_active_refresh_token parse old_token later w
                            ≡ err invalid_refresh_token)
                          × (get_active_refresh_token parse new_token now w ≡ ok v))
                        (sym is_t ∙ state)
                        (ap (found_session parse) none_left, ap (found_session parse) alive ∙ value)
                ]
      ]
