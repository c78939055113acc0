-- ===== src/Token/Laws.antt =====
-- What a token that was minted says, and what a token must be to be accepted.
use serverless_db.Base.{
  ℕ, ◌+◌, ◌≤◌, ◌<◌, ◌^◌, ◌≡◌, refl, sym, arith, String, Bool, true, inl, inr, Option-cases, subst,
  lt_cases, Text, Option, none, some, List, ◌∷◌, ◌++◌, all, not, ◌==◌,
}
use serverless_db.Access.{Actor}
use serverless_db.Fallible.{ok, err, Fallible-cases}
use serverless_db.Json.{Value, Fields, get_field}
use serverless_db.Sql.{ℤ, pos, negsuc}
use serverless_db.Text.Equality.{text_eq_iff}
use serverless_db.Text.Parts.{split-three}
use serverless_db.Token.{
  Crypto, Outcome, token_expired, add_i64, payload_of, jwt_header, actor_of_payload, sign,
  jwt_secret, b64_json, decode_json, mint_token, verify_parts, verify_token,
}

abbrev pub dotless : Text → Bool
dotless s = all (λ ch. not (ch == b'.')) s

abbrev pub minted_for : String → String → Fields → Actor
minted_for sub role claims = record { sub = some sub; role = role; claims = claims }

-- What a token tells at a time, of the actor that it was minted for: whoever it was given no time
-- for is told at any time; else the time since its issue is compared with the time given, which may
-- be negative.
pub data Tells (issued now : ℕ) (who : Actor) : Option ℤ → Outcome Actor → Type 0 where
  unlimited : Tells issued now who none (ok who)
  alive : (ttl : ℕ) → now ≤ issued + ttl → Tells issued now who (some (pos ttl)) (ok who)
  lapsed :
      (ttl : ℕ) → issued + ttl < now → Tells issued now who (some (pos ttl)) (err token_expired)
  backdated_alive :
      (k : ℕ) → now + (1 + k) ≤ issued → Tells issued now who (some (negsuc k)) (ok who)
  backdated_lapsed :
      (k : ℕ) → issued < now + (1 + k) → Tells issued now who (some (negsuc k)) (err token_expired)

abbrev pub added : Option ℤ → ℕ
added none = 0
added (some (pos ttl)) = ttl
added (some (negsuc k)) = 0

-- Until its time has passed a token stands for its actor.
pub Tells-alive :
    {issued now ttl : ℕ} {who : Actor} {r : Outcome Actor}
    → now ≤ issued + ttl
    → Tells issued now who (some (pos ttl)) r
    → r ≡ ok who
Tells-alive h (alive _ _) = refl
Tells-alive h (lapsed _ k) = absurd (omega (arith, h, k))

actor_of_payload-payload_of :
    (now issued : ℕ) (sub role : String) (claims : Fields) (expires_in : Option ℤ)
    → issued + added expires_in < 2 ^ 63
    → Tells issued now
        (minted_for sub role claims)
        expires_in
        (actor_of_payload now (payload_of sub role claims expires_in issued))
actor_of_payload-payload_of now issued sub role claims none h =
    let e : actor_of_payload now (payload_of sub role claims none issued)
        ≡ ok (minted_for sub role claims) =
      unfold actor_of_payload payload_of get_field add_i64 in ground arith in
    subst (Tells issued now (minted_for sub role claims) none) (sym e) unlimited
actor_of_payload-payload_of now issued sub role claims (some (pos ttl)) h =
    elim (lt_cases (issued + ttl) now) [
      | inl k ↦
          let e : actor_of_payload now (payload_of sub role claims (some (pos ttl)) issued)
              ≡ err token_expired =
            unfold actor_of_payload payload_of get_field add_i64 in ground arith in
          subst (Tells issued now (minted_for sub role claims) (some (pos ttl))) (sym e)
            (lapsed ttl k)
      | inr k ↦
          let e : actor_of_payload now (payload_of sub role claims (some (pos ttl)) issued)
              ≡ ok (minted_for sub role claims) =
            unfold actor_of_payload payload_of get_field add_i64 in ground arith in
          subst (Tells issued now (minted_for sub role claims) (some (pos ttl))) (sym e)
            (alive ttl k)
    ]
actor_of_payload-payload_of now issued sub role claims (some (negsuc k)) h =
    elim (lt_cases issued (now + (1 + k))) [
      | inl l ↦
          let e : actor_of_payload now (payload_of sub role claims (some (negsuc k)) issued)
              ≡ err token_expired =
            unfold actor_of_payload payload_of get_field add_i64 in ground arith in
          subst (Tells issued now (minted_for sub role claims) (some (negsuc k))) (sym e)
            (backdated_lapsed k l)
      | inr l ↦
          let e : actor_of_payload now (payload_of sub role claims (some (negsuc k)) issued)
              ≡ ok (minted_for sub role claims) =
            unfold actor_of_payload payload_of get_field add_i64 in ground arith in
          subst (Tells issued now (minted_for sub role claims) (some (negsuc k))) (sym e)
            (backdated_alive k l)
    ]

module _ (c : Crypto) where
  -- Where serde_json reads back what it wrote for this value.
  decode_json-b64_json :
      (value : Value) (s : Text)
      → ((bytes : List ℕ) → c.unbase64 (c.base64 bytes) ≡ some bytes)
      → ((bytes : List ℕ) → c.to_vec value ≡ some bytes → c.from_slice bytes ≡ some value)
      → b64_json c value ≡ ok s
      → decode_json c s ≡ ok value
  unfolding decode_json b64_json
  decode_json-b64_json value s h64 hjson h = elim (Option-cases (c.to_vec value)) [
    | inl e ↦ cc (rw e at h)
    | inr (bytes, e) ↦ ground (arith, h64 bytes, hjson bytes e, e, h)
  ]

  b64_json-dotless :
      (value : Value) (s : Text)
      → ((bytes : List ℕ) → dotless (c.base64 bytes) ≡ true)
      → b64_json c value ≡ ok s
      → dotless s ≡ true
  unfolding b64_json
  b64_json-dotless value s hdot h = elim (Option-cases (c.to_vec value)) [
    | inl e ↦ cc (rw e at h)
    | inr (bytes, e) ↦ ground (arith, hdot bytes, e, h)
  ]

  sign-dotless :
      (input s : Text)
      → ((bytes : List ℕ) → dotless (c.base64 bytes) ≡ true)
      → sign c input ≡ ok s
      → dotless s ≡ true
  unfolding sign
  sign-dotless input s hdot h = elim (Fallible-cases (jwt_secret c)) [
    | inr (e, q) ↦ cc (rw q at h)
    | inl (secret, q) ↦ elim (Option-cases (c.hmac secret input)) [
      | inl m ↦ cc (rw (q, m) at h)
      | inr (mac, m) ↦ ground (arith, hdot mac, q, m, h)
    ]
  ]

  verify_parts-signed :
      (now : ℕ) (first second third : Text) (payload : Value)
      → sign c (first ++ b'.' ∷ second) ≡ ok third
      → decode_json c first ≡ ok jwt_header
      → decode_json c second ≡ ok payload
      → verify_parts c now first second third ≡ actor_of_payload now payload
  unfolding verify_parts get_field
  verify_parts-signed now first second third payload s h p =
      let same = (text_eq_iff third third).1 refl in rw (s, same, h, p) refl

  -- The token's text is read back: base64 is, and has no dot, and serde_json reads back the header and
  -- the payload.
  pub record IsReadBack (payload : Value) : Type 0 where
    pub unbase64-base64 : (bytes : List ℕ) → c.unbase64 (c.base64 bytes) ≡ some bytes
    pub base64_dotless : (bytes : List ℕ) → dotless (c.base64 bytes) ≡ true
    pub header_read :
        (bytes : List ℕ) → c.to_vec jwt_header ≡ some bytes → c.from_slice bytes ≡ some jwt_header
    pub payload_read :
        (bytes : List ℕ) → c.to_vec payload ≡ some bytes → c.from_slice bytes ≡ some payload

  -- A token that was minted is verified at any time: it is refused as expired once the time that it
  -- was given has passed since it was issued, and until then, or where it was given none, it stands for
  -- the actor whom it was minted for. (The time of expiry is an i64, and what was encoded is read back.)
  pub verify_token-mint_token :
      (sub role : String) (claims : Fields) (expires_in : Option ℤ) (issued now : ℕ) (token : Text)
      → issued + added expires_in < 2 ^ 63
      → IsReadBack (payload_of sub role claims expires_in issued)
      → mint_token c sub role claims expires_in issued ≡ ok token
      → Tells issued now (minted_for sub role claims) expires_in (verify_token c now token)
  unfolding mint_token verify_token
  verify_token-mint_token sub role claims expires_in issued now token hnow read h =
      let body : Value = payload_of sub role claims expires_in issued in
      elim (Fallible-cases (b64_json c jwt_header)) [
        | inr (e, q) ↦ cc (rw q at h)
        | inl (first, q) ↦ elim (Fallible-cases (b64_json c body)) [
          | inr (e, r) ↦ cc (rw (q, r) at h)
          | inl (second, r) ↦ elim (Fallible-cases (sign c (first ++ b'.' ∷ second))) [
            | inr (e, g) ↦ cc (rw (q, r, g) at h)
            | inl (third, g) ↦
                let hdot = read.base64_dotless in
                let parts =
                  split-three b'.' first second third (b64_json-dotless _ first hdot q)
                    (b64_json-dotless body second hdot r) (sign-dotless _ third hdot g) in
                let signed =
                  verify_parts-signed now first second third body g
                    (decode_json-b64_json jwt_header first read.unbase64-base64 read.header_read q)
                    (decode_json-b64_json body second read.unbase64-base64 read.payload_read r) in
                let e : token ≡ (first ++ b'.' ∷ second) ++ b'.' ∷ third = cc (rw (q, r, g) at h) in
                subst (Tells issued now (minted_for sub role claims) expires_in)
                  (sym (unfold verify_token in rw (e, parts, signed) refl))
                  (actor_of_payload-payload_of now issued sub role claims expires_in hnow)
          ]
        ]
      ]
