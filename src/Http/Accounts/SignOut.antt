-- ===== src/Http/Accounts/SignOut.antt =====
-- A session from its beginning to its end: what a sign-in issues, a logout ends.
use serverless_db.Base.{
  ℕ, ◌+◌, ◌^◌, ◌≤◌, ◌<◌, ◌≡◌, refl, ap, subst, ◌∙◌, sym, arith, inl, inr, String, false, Text,
  Option, none, some, [], ◌++◌, suc, true, codes, length, str_eq, str_eq_refl, any, Option-cases,
}
use serverless_db.Error.{ok}
use serverless_db.Fallible.{Fallible}
use serverless_db.Json.{Value, object, get_field, insert_field}
use serverless_db.Policy.{as_str}
use serverless_db.Access.{Actor}
use serverless_db.AuthStore.{
  AuthTables, RefreshToken, AuthSession, invalid_refresh_token, local, token_row, session_row,
}
use serverless_db.AuthStore.Sessions.{
  issue_refresh_token, upsert_session, insert_token, get_active_refresh_token, revoke_sessions,
  revoke, count, revokes_session,
}
use serverless_db.AuthStore.Logout.{revoke_sessions-covers}
use serverless_db.Sql.{pos}
use serverless_db.Text.{strip_prefix, starts_with, trim}
use serverless_db.Token.{
  mint_token, verify_token, payload_of, trim_start_matches, actor_from_authorization,
}
use serverless_db.Token.Laws.{IsReadBack, Tells-alive, minted_for, verify_token-mint_token}
use serverless_db.Http.{HeaderMap, get, to_str, header_value}
use serverless_db.Http.Accounts.{
  Server, Library, Fresh, call, member, text_or, session_claims, parse_logout_scope, actor,
  unauthorized, access_token_ttl_secs, refresh_token_ttl_secs,
}
use serverless_db.Http.Accounts.Handlers.{
  Session, access_token_for, build_session, signed_in, auth_logout,
}
use serverless_db.Http.Accounts.SignIn.{build_session-ok}

-- The headers of a request carry a token: as a bearer token, or as the apikey where there is no header
-- for authorization. (A token has no white space at its ends and does not begin with `Bearer `.)
pub data Carries (headers : HeaderMap) (token : Text) : Type 0 where
  bearer :
      to_str (get headers "authorization") ≡ some (codes "Bearer " ++ token)
      → strip_prefix (codes "Bearer ") token ≡ none
      → trim token ≡ token
      → Carries headers token
  apikey :
      to_str (get headers "authorization") ≡ none
      → header_value headers "apikey" ≡ some token
      → Carries headers token

trim_start_matches-strip :
    (n : ℕ) (p s t : Text)
    → strip_prefix p s ≡ some t
    → trim_start_matches (suc n) p s ≡ trim_start_matches n p t
unfolding trim_start_matches
trim_start_matches-strip n p s t h = rw (trim_start_matches, h) refl

trim_start_matches-stop :
    (n : ℕ) (p s : Text) → strip_prefix p s ≡ none → trim_start_matches (suc n) p s ≡ s
unfolding trim_start_matches
trim_start_matches-stop n p s h = rw (trim_start_matches, h) refl

trim_start_matches-bearer :
    (n : ℕ) (token : Text)
    → strip_prefix (codes "Bearer ") token ≡ none
    → trim_start_matches (suc (suc n)) (codes "Bearer ") (codes "Bearer " ++ token) ≡ token
trim_start_matches-bearer n token h =
    trim_start_matches-strip (suc n) (codes "Bearer ") (codes "Bearer " ++ token) token
      (unfold strip_prefix in refl)
    ∙ trim_start_matches-stop n (codes "Bearer ") token h

-- The rows that a token is issued with.
abbrev new_token : String → String → String → ℕ → ℕ → RefreshToken
new_token token user_id session_id created_at expires_at = record {
  token = token;
  user_id = user_id;
  session_id = some session_id;
  parent_token = none;
  created_at = created_at;
  expires_at = some expires_at;
  revoked_at = none;
}

abbrev new_session : String → String → ℕ → ℕ → AuthSession
new_session user_id session_id created_at expires_at = record {
  id = session_id;
  user_id = user_id;
  created_at = created_at;
  expires_at = expires_at;
  revoked_at = none;
}

issue_refresh_token-rows :
    (token user_id session_id : String) (created_at expires_at : ℕ) (s t : AuthTables)
    → any (λ se. str_eq se.id session_id) s.sessions ≡ false
    → (issue_refresh_token token user_id session_id created_at expires_at s).0 ≡ Fallible.ok tt
    → (issue_refresh_token token user_id session_id created_at expires_at s).1 ≡ t
    → (token_row token t ≡ some (new_token token user_id session_id created_at expires_at))
      × (session_row (some session_id) t
          ≡ some (new_session user_id session_id created_at expires_at))
unfolding issue_refresh_token upsert_session insert_token
issue_refresh_token-rows token user_id session_id created_at expires_at s t fresh h k =
    ground (arith, str_eq_refl token, str_eq_refl session_id)

-- A session's claims name the session.
session_claims-session_id :
    (user : Value) (session_id : String)
    → as_str (member "session_id" (object (session_claims user session_id))) ≡ some session_id
unfolding session_claims insert_field get_field
session_claims-session_id user session_id = elim (Option-cases (as_str (member "phone" user))) [
  | inl e ↦ rw e refl
  | inr (phone, e) ↦ rw e refl
]

-- The rows that a request issued.
abbrev IsIssued : String → Fresh → AuthTables → Type 0
IsIssued user_id fresh tables =
    (token_row fresh.refresh_token tables
      ≡ some (
          new_token fresh.refresh_token user_id fresh.session_id fresh.now
            (fresh.now + refresh_token_ttl_secs)))
    × (session_row (some fresh.session_id) tables
        ≡ some
            (new_session user_id fresh.session_id fresh.now (fresh.now + refresh_token_ttl_secs)))

revoked-refused :
    (parse : Text → Option Value) (token user_id session_id : String)
    (created_at expires_at at now : ℕ) (s : AuthTables)
    → token_row token s ≡ some (new_token token user_id session_id created_at expires_at)
    → session_row (some session_id) s ≡ some (new_session user_id session_id created_at expires_at)
    → get_active_refresh_token parse token now (revoke user_id session_id local at s)
      ≡ Fallible.err invalid_refresh_token
unfolding revoke_sessions
revoked-refused parse token user_id session_id created_at expires_at at now s tr sr =
    let scope =
      revoke_sessions-covers parse user_id session_id token (some session_id) local at now
        (count (revokes_session user_id session_id local) s.sessions) s
        (revoke user_id session_id local at s)
        (new_token token user_id session_id created_at expires_at)
        (new_session user_id session_id created_at expires_at) refl refl tr sr refl in
    rw (str_eq_refl user_id, str_eq_refl session_id) at scope

module _ (l : Library) where
  auth_logout-local :
      (fresh : Fresh) (headers : HeaderMap) (s : Server) (who : Actor) (user_id session_id : String)
      → actor l fresh.now headers ≡ ok who
      → who.sub ≡ some user_id
      → as_str (member "session_id" (object who.claims)) ≡ some session_id
      → s.faults ≡ []
      → auth_logout l fresh (some "local") headers s ≡ (
        ok (count (revokes_session user_id session_id local) s.tables.sessions),
        record s { tables = revoke user_id session_id local fresh.now s.tables; faults = [] },
      )
  unfolding auth_logout signed_in parse_logout_scope call revoke_sessions
  auth_logout-local fresh headers s who user_id session_id a b d f = ground (arith, a, b, d, f)

  actor-apikey :
      (now : ℕ) (headers : HeaderMap) (token : Text)
      → to_str (get headers "authorization") ≡ none
      → header_value headers "apikey" ≡ some token
      → actor l now headers ≡ unauthorized l (verify_token l.crypto now token)
  unfolding actor
  actor-apikey now headers token a k = ground (arith, a, k)

  actor-authorization :
      (now : ℕ) (headers : HeaderMap) (value : Text)
      → to_str (get headers "authorization") ≡ some value
      → actor l now headers ≡ unauthorized l (actor_from_authorization l.crypto now (some value))
  unfolding actor
  actor-authorization now headers value a = ground (arith, a)

  actor_from_authorization-bearer :
      (now : ℕ) (value token : Text)
      → starts_with (codes "Bearer ") value ≡ true
      → trim_start_matches (length value) (codes "Bearer ") value ≡ token
      → trim token ≡ token
      → actor_from_authorization l.crypto now (some value) ≡ verify_token l.crypto now token
  unfolding actor_from_authorization
  actor_from_authorization-bearer now value token a b t =
      rw a (ap (verify_token l.crypto now) (ap trim b ∙ t))

  actor-bearer :
      (now : ℕ) (headers : HeaderMap) (token : Text)
      → to_str (get headers "authorization") ≡ some (codes "Bearer " ++ token)
      → strip_prefix (codes "Bearer ") token ≡ none
      → trim token ≡ token
      → actor l now headers ≡ unauthorized l (verify_token l.crypto now token)
  actor-bearer now headers token a b t =
      actor-authorization now headers (codes "Bearer " ++ token) a
      ∙ ap (unauthorized l) (
          actor_from_authorization-bearer now (codes "Bearer " ++ token) token
            (unfold starts_with in refl)
            (trim_start_matches-bearer (suc (suc (suc (suc (suc (length token)))))) token b) t)

  actor-Carries :
      (now : ℕ) (headers : HeaderMap) (token : Text)
      → Carries headers token
      → actor l now headers ≡ unauthorized l (verify_token l.crypto now token)
  actor-Carries now headers token (bearer a b t) = actor-bearer now headers token a b t
  actor-Carries now headers token (apikey a k) = actor-apikey now headers token a k

  -- The access token of a session names the session and its user for as long as it lives.
  access_token_for-actor :
      (user : Value) (user_id session_id : String) (issued now : ℕ) (token : Text)
      → as_str (member "id" user) ≡ some user_id
      → issued + access_token_ttl_secs < 2 ^ 63
      → now ≤ issued + access_token_ttl_secs
      → IsReadBack l.crypto (
          payload_of user_id "authenticated"
            (session_claims user session_id)
            (some (pos access_token_ttl_secs))
            issued)
      → access_token_for l user session_id issued ≡ Fallible.ok token
      → verify_token l.crypto now token
        ≡ Fallible.ok (minted_for user_id "authenticated" (session_claims user session_id))
  access_token_for-actor user user_id session_id issued now token id_found fits alive read h =
      Tells-alive alive (
        verify_token-mint_token l.crypto user_id "authenticated" (session_claims user session_id)
          (some (pos access_token_ttl_secs)) issued now token fits read
          (subst
            (λ (o : Option String).
              mint_token l.crypto (text_or o "unknown") "authenticated"
                (session_claims user session_id) (some (pos access_token_ttl_secs)) issued
              ≡ Fallible.ok token)
            id_found h))

  -- A session that was opened is closed by a local logout with its access token, for as long as this
  -- lives, whether the token is sent as a bearer token or as the apikey: the logout succeeds, and the
  -- session's refresh token is refused from then on. (The id of the session is new, what was encoded in
  -- the token is read back, the tables are those behind the sign-in, and no fault comes up in the
  -- logout.)
  pub sign_out_ends_session :
      (fresh later : Fresh) (user : Value) (user_id : String) (headers : HeaderMap) (s t u : Server)
      (session : Session) (now : ℕ)
      → any (λ se. str_eq se.id fresh.session_id) s.tables.sessions ≡ false
      → fresh.now + access_token_ttl_secs < 2 ^ 63
      → as_str (member "id" user) ≡ some user_id
      → IsReadBack l.crypto (
          payload_of user_id "authenticated"
            (session_claims user fresh.session_id)
            (some (pos access_token_ttl_secs))
            fresh.now)
      → build_session l fresh user s ≡ (ok session, t)
      → later.now ≤ fresh.now + access_token_ttl_secs
      → Carries headers session.access_token
      → u.tables ≡ t.tables
      → u.faults ≡ []
      → (n : ℕ) × (v : Server) × (auth_logout l later (some "local") headers u ≡ (ok n, v))
        × (get_active_refresh_token l.parse session.refresh_token now v.tables
            ≡ Fallible.err invalid_refresh_token)
  sign_out_ends_session fresh later user given headers s t u session now new fits has_id read h
        alive carried same calm =
      let (user_id, id_found, token, kept, refresh_kept, issued, after) =
        build_session-ok l fresh user s t session h in
      let (token_found, session_found) =
        issue_refresh_token-rows fresh.refresh_token user_id fresh.session_id fresh.now
          (fresh.now + refresh_token_ttl_secs) s.tables t.tables new issued after in
      let same_id : given ≡ user_id = ground (arith, has_id, id_found) in
      let read' =
        subst
          (λ (i : String). IsReadBack l.crypto (
            payload_of i "authenticated" (session_claims user fresh.session_id)
              (some (pos access_token_ttl_secs)) fresh.now))
          same_id read in
      let who : Actor = minted_for user_id "authenticated" (session_claims user fresh.session_id) in
      let is_who : actor l later.now headers ≡ ok who =
        actor-Carries later.now headers session.access_token carried
        ∙ ap (unauthorized l) (
            access_token_for-actor user user_id fresh.session_id fresh.now later.now
              session.access_token id_found fits alive read' token) in
      let out =
        auth_logout-local later headers u who user_id fresh.session_id is_who refl
          (session_claims-session_id user fresh.session_id) calm in
      let rows : IsIssued user_id fresh u.tables =
        subst (IsIssued user_id fresh) (sym same) (token_found, session_found) in
      (
        count (revokes_session user_id fresh.session_id local) u.tables.sessions,
        record u { tables = revoke user_id fresh.session_id local later.now u.tables; faults = [] },
        out,
        subst
            (λ (token : String).
              get_active_refresh_token l.parse token now
                (revoke user_id fresh.session_id local later.now u.tables)
              ≡ Fallible.err invalid_refresh_token)
            (sym refresh_kept)
            (revoked-refused l.parse fresh.refresh_token user_id fresh.session_id fresh.now
              (fresh.now + refresh_token_ttl_secs) later.now now u.tables rows.0 rows.1),
      )
