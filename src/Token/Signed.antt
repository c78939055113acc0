-- ===== src/Token/Signed.antt =====
-- What a token must be to be accepted.
use serverless_db.Base.{
  ℕ, ◌≤◌, ◌≡◌, refl, ap, ◌∙◌, arith, true, inl, inr, Option-cases, Text, Option, none, some, List,
  [], ◌∷◌, ◌++◌, Bool-cases, eq_iff,
}
use serverless_db.Access.{Actor}
use serverless_db.Fallible.{ok, Fallible-cases}
use serverless_db.Json.{Value, get_field}
use serverless_db.Policy.{as_str}
use serverless_db.Sql.{ℤ, pos, negsuc}
use serverless_db.Text.{split, text_eq}
use serverless_db.Text.Equality.{text_eq_iff}
use serverless_db.Text.Parts.{split_three}
use serverless_db.Token.{
  Crypto, i64_of, member, as_object, or_authenticated, is_hs256, actor_of_payload, sign, jwt_secret,
  decode_json, verify_parts, by_parts, verify_token,
}

-- A payload without a time of expiry, or with one that is not before now.
pub data IsUnexpired (now : ℕ) (exp : Option ℤ) : Type 0 where
  unlimited : exp ≡ none → IsUnexpired now exp
  until : (at : ℕ) → exp ≡ some (pos at) → now ≤ at → IsUnexpired now exp

actor_of_payload-ok :
    (now : ℕ) (payload : Value) (actor : Actor)
    → actor_of_payload now payload ≡ ok actor
    → IsUnexpired now (i64_of (member "exp" payload))
      × (actor ≡ record {
        sub = as_str (member "sub" payload);
        role = or_authenticated (as_str (member "role" payload));
        claims = as_object (member "claims" payload);
      })
unfolding actor_of_payload get_field
actor_of_payload-ok now payload actor h = elim (Option-cases (i64_of (member "exp" payload))) [
  | inl q ↦ (unlimited q, ground (arith, q, h))
  | inr (negsuc k, q) ↦ absurd (ground (arith, q, h))
  | inr (pos at, q) ↦ (until at q (ground (arith, q, h)), ground (arith, q, h))
]

is_hs256_sound :
    (header : Value) → is_hs256 header ≡ true → as_str (member "alg" header) ≡ some "HS256"
is_hs256_sound header h = elim (Option-cases (as_str (member "alg" header))) [
  | inl q ↦ absurd (ground (arith, q, h))
  | inr (alg, q) ↦ q ∙ ap some ((eq_iff alg "HS256").0 (ground (arith, q, h)))
]

module _ (c : Crypto) where
  sign-ok :
      (input sig : Text)
      → sign c input ≡ ok sig
      → (secret : Text) × (mac : List ℕ) × (jwt_secret c ≡ ok secret)
        × (c.hmac secret input ≡ some mac)
        × (sig ≡ c.base64 mac)
  unfolding sign
  sign-ok input sig h = elim (Fallible-cases (jwt_secret c)) [
    | inr (e, q) ↦ absurd (ground (arith, q, h))
    | inl (secret, q) ↦ elim (Option-cases (c.hmac secret input)) [
      | inl m ↦ absurd (ground (arith, q, m, h))
      | inr (mac, m) ↦ (secret, mac, q, m, ground (arith, q, m, h))
    ]
  ]

  verify_parts-ok :
      (now : ℕ) (first second third : Text) (actor : Actor)
      → verify_parts c now first second third ≡ ok actor
      → (header payload : Value) × (sign c (first ++ b'.' ∷ second) ≡ ok third)
        × (decode_json c first ≡ ok header)
        × (is_hs256 header ≡ true)
        × (decode_json c second ≡ ok payload)
        × (actor_of_payload now payload ≡ ok actor)
  unfolding verify_parts get_field
  verify_parts-ok now first second third actor h =
      elim (Fallible-cases (sign c (first ++ b'.' ∷ second))) [
        | inr (e, g) ↦ cc (rw g at h)
        | inl (sig, g) ↦ elim (Bool-cases (text_eq sig third)) [
          | inr t ↦ cc (rw (g, t) at h)
          | inl t ↦ elim (Fallible-cases (decode_json c first)) [
            | inr (e, q) ↦ cc (rw (g, t, q) at h)
            | inl (header, q) ↦ elim (Bool-cases (is_hs256 header)) [
              | inr a ↦ cc (rw (g, t, q, a) at h)
              | inl a ↦ elim (Fallible-cases (decode_json c second)) [
                | inr (e, r) ↦ cc (rw (g, t, q, a, r) at h)
                | inl (payload, r) ↦ (
                  header,
                  payload,
                  g ∙ ap ok ((text_eq_iff sig third).0 t),
                  q,
                  a,
                  r,
                  rw (g, t, q, a, r) at h,
                )
              ]
            ]
          ]
        ]
      ]

  by_parts-ok :
      (now : ℕ) (parts : List Text) (actor : Actor)
      → by_parts c now parts ≡ ok actor
      → (first second third : Text) × (parts ≡ first ∷ second ∷ third ∷ [])
        × (verify_parts c now first second third ≡ ok actor)
  by_parts-ok now [] actor h = cc
  by_parts-ok now (a ∷ []) actor h = cc
  by_parts-ok now (a ∷ b ∷ []) actor h = cc
  by_parts-ok now (first ∷ second ∷ third ∷ []) actor h = (first, second, third, refl, h)
  by_parts-ok now (a ∷ b ∷ d ∷ e ∷ parts) actor h = cc

  -- A token that the server may trust at a time, and whom it stands for.
  pub record IsGenuine (now : ℕ) (token : Text) (actor : Actor) : Type 0 where
    pub first : Text
    pub second : Text
    pub secret : Text
    pub mac : List ℕ
    pub header : Value
    pub payload : Value
    pub keyed : jwt_secret c ≡ ok secret
    pub authentic : c.hmac secret (first ++ b'.' ∷ second) ≡ some mac
    pub parts : token ≡ first ++ b'.' ∷ (second ++ b'.' ∷ c.base64 mac)
    pub header_read : decode_json c first ≡ ok header
    pub algorithm : as_str (member "alg" header) ≡ some "HS256"
    pub payload_read : decode_json c second ≡ ok payload
    pub unexpired : IsUnexpired now (i64_of (member "exp" payload))
    pub claimed : actor ≡ record {
      sub = as_str (member "sub" payload);
      role = or_authenticated (as_str (member "role" payload));
      claims = as_object (member "claims" payload);
    }

  -- Every token that is accepted has three parts, the third of which is the base64 text of the HMAC of
  -- the first two under the server's secret; its header names HS256, its payload has no time of expiry
  -- or one that is not before now, and the actor is what the payload says.
  pub verify_token_signed :
      (now : ℕ) (token : Text) (actor : Actor)
      → verify_token c now token ≡ ok actor
      → IsGenuine now token actor
  unfolding verify_token
  verify_token_signed now token actor h =
      let (first, second, third, e, v) = by_parts-ok now (split b'.' token) actor h in
      let (header, payload, g, q, a, r, p) = verify_parts-ok now first second third actor v in
      let (secret, mac, k, m, t) = sign-ok (first ++ b'.' ∷ second) third g in
      let (unexpired, claimed) = actor_of_payload-ok now payload actor p in
      record {
        first = first;
        second = second;
        secret = secret;
        mac = mac;
        header = header;
        payload = payload;
        keyed = k;
        authentic = m;
        parts =
            split_three b'.' token first second third e
            ∙ ap (λ (x : Text). first ++ b'.' ∷ (second ++ b'.' ∷ x)) t;
        header_read = q;
        algorithm = is_hs256_sound header a;
        payload_read = r;
        unexpired = unexpired;
        claimed = claimed;
      }
