-- ===== src/Http/Accounts/SignIn.antt =====
-- Who is signed in, and what a sign-in answers.
use serverless_db.Base.{
  ℕ, ◌+◌, ◌≡◌, refl, ap, subst, ◌∙◌, sym, arith, inl, inr, String, true, Text, Option, none, some,
  str_eq, Bool-cases, Option-cases,
}
use serverless_db.Error.{ApiError, Result, ok, err}
use serverless_db.Fallible.{Fallible}
use serverless_db.Io.{Io, lift, ◌>>=◌, >>=-eq-ok}
use serverless_db.Json.{Value}
use serverless_db.Policy.{as_str}
use serverless_db.AuthStore.{AuthTables, AuthStoreError}
use serverless_db.AuthStore.Users.{get_user_by_email_or_phone}
use serverless_db.AuthStore.Sessions.{issue_refresh_token}
use serverless_db.Token.{AuthError}
use serverless_db.Http.{HeaderMap, or_else}
use serverless_db.Http.Accounts.{
  Server, Library, Fresh, Fault, refused, unflushed, call, look, require, member, text_or,
  verify_password, answered, next_fault, minted, refresh_token_ttl_secs,
}
use serverless_db.Http.Accounts.Handlers.{
  Session, session_with, access_token_for, session_response, build_session, limited, password_fits,
  filtered, password_grant, auth_token,
}

require-ok {ℓ} :
    {A : Type ℓ} (o : Option A) (e : ApiError) (s : Server) (a : A) (t : Server)
    → require o e s ≡ (ok a, t)
    → (o ≡ some a) × (t ≡ s)
require-ok none e s a t h = cc
require-ok (some b) e s a t h = ground arith

answered-ok {ℓ} :
    {A : Type ℓ} (fault : Option Fault) (r : Fallible AuthStoreError A) (tables : AuthTables)
    (s : Server) (a : A) (t : Server)
    → answered fault (r, tables) s ≡ (ok a, t)
    → (r ≡ Fallible.ok a) × (t.tables ≡ tables)
answered-ok none (Fallible.ok b) tables s a t h = ground arith
answered-ok none (Fallible.err e) tables s a t h = cc
answered-ok (some (refused e)) r tables s a t h = cc
answered-ok (some (unflushed e)) r tables s a t h = cc

call-ok {ℓ} :
    {A : Type ℓ} (f : AuthTables → Fallible AuthStoreError A × AuthTables) (s : Server) (a : A)
    (t : Server)
    → call f s ≡ (ok a, t)
    → ((f s.tables).0 ≡ Fallible.ok a) × (t.tables ≡ (f s.tables).1)
unfolding call
call-ok f s a t h = answered-ok (next_fault s.faults) (f s.tables).0 (f s.tables).1 _ a t h

-- Inversion of a step that succeeded, with what follows it.
require->>= {ℓ κ} :
    {A : Type ℓ} {B : Type κ} (o : Option A) (e : ApiError) (f : A → Io Server B) (s : Server)
    (b : B) (t : Server)
    → (require o e >>= f) s ≡ (ok b, t)
    → (a : A) × (o ≡ some a) × (f a s ≡ (ok b, t))
require->>= none e f s b t h = cc
require->>= (some a) e f s b t h = (a, refl, h)

look->>= {ℓ κ} :
    {A : Type ℓ} {B : Type κ} (g : AuthTables → Fallible AuthStoreError A) (f : A → Io Server B)
    (s : Server) (b : B) (t : Server)
    → (look g >>= f) s ≡ (ok b, t)
    → (a : A) × (u : Server) × (g s.tables ≡ Fallible.ok a)
      × (u.tables ≡ s.tables)
      × (f a u ≡ (ok b, t))
look->>= g f s b t h =
    let (a, u, e, h') = >>=-eq-ok (look g) f s h in
    let (q, k) = call-ok (λ tables. (g tables, tables)) s a u e in (a, u, q, k, h')

lift-ok {ℓ} :
    {A : Type ℓ} (r : Result A) (s : Server) (a : A) (t : Server)
    → lift r s ≡ (ok a, t)
    → (r ≡ ok a) × (t ≡ s)
lift-ok (ok b) s a t h = ground arith
lift-ok (err e) s a t h = cc

module _ (l : Library) where
  filtered-some :
      (password : String) (found : Option Value) (user : Value)
      → filtered l password found ≡ some user
      → (found ≡ some user) × (password_fits l password user ≡ true)
  filtered-some password none user h = cc
  filtered-some password (some u) user h = elim (Bool-cases (password_fits l password u)) [
    | inl e ↦ let same : u ≡ user = cc (rw e at h) in (ap some same, rw (← same) e)
    | inr e ↦ cc (rw e at h)
  ]

  password_fits-hash :
      (password : String) (user : Value)
      → password_fits l password user ≡ true
      → (hash : String) × (as_str (member "password_hash" user) ≡ some hash)
        × (verify_password l password hash ≡ true)
  unfolding password_fits
  password_fits-hash password user h = elim (Option-cases (as_str (member "password_hash" user))) [
    | inl e ↦ absurd (ground (arith, e, h))
    | inr (hash, e) ↦ (hash, e, rw (password_fits, e) at h)
  ]

  session_with-ok :
      (user : Value) (refresh_token : String) (now : ℕ) (r : Fallible AuthError Text)
      (session : Session)
      → session_with l user refresh_token now (minted l r) ≡ ok session
      → (r ≡ Fallible.ok session.access_token)
        × (session.user ≡ user)
        × (session.refresh_token ≡ refresh_token)
  session_with-ok user refresh_token now (Fallible.ok token) session h = ground arith
  session_with-ok user refresh_token now (Fallible.err e) session h = cc

  -- What a session that was built stands for.
  pub build_session-ok :
      (fresh : Fresh) (user : Value) (s t : Server) (session : Session)
      → build_session l fresh user s ≡ (ok session, t)
      → (user_id : String) × (as_str (member "id" user) ≡ some user_id)
        × (access_token_for l user fresh.session_id fresh.now ≡ Fallible.ok session.access_token)
        × (session.user ≡ user)
        × (session.refresh_token ≡ fresh.refresh_token)
        × ((issue_refresh_token fresh.refresh_token user_id fresh.session_id fresh.now
              (fresh.now + refresh_token_ttl_secs)
              s.tables).0
            ≡ Fallible.ok tt)
        × ((issue_refresh_token fresh.refresh_token user_id fresh.session_id fresh.now
              (fresh.now + refresh_token_ttl_secs)
              s.tables).1
            ≡ t.tables)
  unfolding build_session session_response
  build_session-ok fresh user s t session h =
      let (user_id, s1, e1, h1) = >>=-eq-ok (require (as_str (member "id" user)) _) _ s h in
      let (id_found, keeps) = require-ok (as_str (member "id" user)) _ s user_id s1 e1 in
      let (resp, s2, e2, h2) =
        >>=-eq-ok (lift (session_response l user fresh.refresh_token fresh.session_id fresh.now)) _
          s1 h1 in
      let (answer, same) = lift-ok _ s1 resp s2 e2 in
      let issue : AuthTables → Fallible AuthStoreError Unit × AuthTables =
        issue_refresh_token fresh.refresh_token user_id fresh.session_id fresh.now
          (fresh.now + refresh_token_ttl_secs) in
      let (issued, s3, e3, h3) = >>=-eq-ok (call issue) _ s2 h2 in
      let (done, after) = call-ok issue s2 issued s3 e3 in
      let (this, last) = lift-ok (ok resp) s3 session t h3 in
      let (token, user_kept, refresh_kept) =
        session_with-ok user fresh.refresh_token fresh.now
          (access_token_for l user fresh.session_id fresh.now) session (answer ∙ this) in
      let tables : s2.tables ≡ s.tables = ap (λ x. x.tables) (same ∙ keeps) in
      (
        user_id,
        id_found,
        token,
        user_kept,
        refresh_kept,
        ap (λ (x : AuthTables). (issue x).0) (sym tables) ∙ done,
        ap (λ (x : AuthTables). (issue x).1) (sym tables)
            ∙ sym after
            ∙ ap (λ x. x.tables) (sym last),
      )

  limited-tables :
      (fresh : Fresh) (headers : HeaderMap) (s : Server) (u : Unit {0}) (t : Server)
      → limited l fresh headers s ≡ (ok u, t)
      → t.tables ≡ s.tables
  unfolding limited
  limited-tables fresh headers s u t h = ground arith

  -- That `session` answers who gave the password of a user, whom the email or the phone number in the
  -- body selects from the tables.
  pub record IsPasswordSignIn (fresh : Fresh) (body : Value) (tables : AuthTables)
      (session : Session) : Type 0 where
    pub identifier : String
    pub password : String
    pub hash : String
    pub identified : as_str (or_else (member "email" body) (member "phone" body)) ≡ some identifier
    pub given : as_str (member "password" body) ≡ some password
    pub found :
        get_user_by_email_or_phone l.parse l.pick identifier tables
        ≡ Fallible.ok (some session.user)
    pub hashed : as_str (member "password_hash" session.user) ≡ some hash
    pub password_verified : verify_password l password hash ≡ true
    pub minted_for_user :
        access_token_for l session.user fresh.session_id fresh.now
        ≡ Fallible.ok session.access_token

  sign_in_of :
      (fresh : Fresh) (body : Value) (tables : AuthTables) (session : Session)
      (identifier password : String) (user : Value)
      → as_str (or_else (member "email" body) (member "phone" body)) ≡ some identifier
      → as_str (member "password" body) ≡ some password
      → get_user_by_email_or_phone l.parse l.pick identifier tables ≡ Fallible.ok (some user)
      → password_fits l password user ≡ true
      → session.user ≡ user
      → access_token_for l user fresh.session_id fresh.now ≡ Fallible.ok session.access_token
      → IsPasswordSignIn fresh body tables session
  sign_in_of fresh body tables session identifier password user q1 q2 q3 fits same token =
      let fits' : password_fits l password session.user ≡ true = rw same fits in
      let (hash, hashed, password_verified) = password_fits-hash password session.user fits' in
      record {
        identifier = identifier;
        password = password;
        hash = hash;
        identified = q1;
        given = q2;
        found = rw same q3;
        hashed = hashed;
        password_verified = password_verified;
        minted_for_user =
            subst
              (λ (u : Value).
                access_token_for l u fresh.session_id fresh.now ≡ Fallible.ok session.access_token)
              (sym same) token;
      }

  password_grant-IsPasswordSignIn :
      (fresh : Fresh) (body : Value) (s t : Server) (session : Session)
      → password_grant l fresh body s ≡ (ok session, t)
      → IsPasswordSignIn fresh body s.tables session
  unfolding password_grant
  password_grant-IsPasswordSignIn fresh body s t session h =
      let (identifier, q1, h1) =
        require->>= (as_str (or_else (member "email" body) (member "phone" body))) _ _ s session t
          h in
      let (password, q2, h2) = require->>= (as_str (member "password" body)) _ _ s session t h1 in
      let (found, s3, q3, k3, h3) =
        look->>= (get_user_by_email_or_phone l.parse l.pick identifier) _ s session t h2 in
      let (user, q4, h4) = require->>= (filtered l password found) _ _ s3 session t h3 in
      let (q5, fits) = filtered-some password found user q4 in
      let (user_id, id_found, token, kept, refresh_kept, issued, after) =
        build_session-ok fresh user s3 t session h4 in
      sign_in_of fresh body s.tables session identifier password user q1 q2 (q3 ∙ ap Fallible.ok q5)
        fits kept token

  -- A sign-in by password is answered only to who gives the password of the user found by the email or
  -- the phone number; the session that is answered is this user's. The user in it is the stored one as
  -- it is, the hash of the password included.
  pub password_sign_in :
      (fresh : Fresh) (headers : HeaderMap) (grant : Option String) (body : Value) (s t : Server)
      (session : Session)
      → str_eq (text_or grant "password") "password" ≡ true
      → auth_token l fresh headers grant body s ≡ (ok session, t)
      → IsPasswordSignIn fresh body s.tables session
  unfolding auth_token
  password_sign_in fresh headers grant body s t session g h =
      let (admitted, s0, e0, h0) = >>=-eq-ok (limited l fresh headers) _ s h in
      let h0' : password_grant l fresh body s0 ≡ (ok session, t) = rw g at h0 in
      subst (λ (tables : AuthTables). IsPasswordSignIn fresh body tables session)
        (limited-tables fresh headers s admitted s0 e0)
        (password_grant-IsPasswordSignIn fresh body s0 t session h0')
