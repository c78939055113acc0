-- ===== src/Token.antt =====
-- Tokens, rust-core/src/auth.rs: how they are minted and verified. The process environment, the clock
-- (in seconds), HMAC-SHA256, base64 and serde_json are parameters. The payload's fields are those of
-- the source; the order of an object's fields is not.
pub mod Laws
pub mod Signed
use serverless_db.Base.{
  ℕ, zero, suc, ◌+◌, ◌-◌, ◌^◌, String, Bool, true, false, Text, codes, Option, none, some, List, [],
  ◌∷◌, ◌++◌, length, ltb, str_eq, if◌then◌else◌,
}
use serverless_db.Access.{Actor}
use serverless_db.Fallible.{Fallible, ok, err, ok_or, ◌>>=◌}
use serverless_db.Json.{
  Number, pos_int, neg_int, float, Value, null, string, number, object, Fields, end, field,
  get_field,
}
use serverless_db.Policy.{as_str, or_null}
use serverless_db.Sql.{ℤ, pos, negsuc}
use serverless_db.Text.{split, starts_with, strip_prefix, text_eq, trim}

-- The messages that `AuthError` carries.
pub data AuthError : Type 0 where
  authorization_must_use_bearer invalid_token_format invalid_token_signature : AuthError
  unsupported_token_algorithm token_expired failed_to_encode_token : AuthError
  invalid_token_payload jwt_secret_required invalid_secret : AuthError

abbrev pub Outcome : Type 0 → Type 0
Outcome A = Fallible AuthError A

-- The variables SDB_JWT_SECRET and SDB_ENV, and the code that auth.rs calls.
pub record Crypto : Type 0 where
  pub jwt_secret_var : Option Text
  pub sdb_env : Option Text
  pub hmac : Text → Text → Option (List ℕ)
  pub base64 : List ℕ → Text
  pub unbase64 : Text → Option (List ℕ)
  pub to_vec : Value → Option (List ℕ)
  pub from_slice : List ℕ → Option Value

-- `i64` addition in a release build, of a number that is not negative.
abbrev wrap_i64 : ℕ → ℤ
wrap_i64 n = if ltb n (2 ^ 63) then pos n else negsuc (2 ^ 64 - 1 - n)

unfoldable pub add_i64 : ℕ → ℤ → ℤ
add_i64 now (pos k) = wrap_i64 (now + k)
add_i64 now (negsuc k) = if ltb k now then pos (now - suc k) else negsuc (k - now)

abbrev pub number_of_i64 : ℤ → Value
number_of_i64 (pos n) = number (pos_int n)
number_of_i64 (negsuc n) = number (neg_int n)

-- `Value::i64_of`.
abbrev pub i64_of : Option Value → Option ℤ
i64_of (some (number (pos_int n))) = if ltb n (2 ^ 63) then some (pos n) else none
i64_of (some (number (neg_int n))) = some (negsuc n)
i64_of _ = none

abbrev pub is_past : ℕ → Option ℤ → Bool
is_past now none = false
is_past now (some (pos exp)) = ltb exp now
is_past now (some (negsuc exp)) = true

abbrev pub member : String → Value → Option Value
member k (object fields) = get_field k fields
member k _ = none

abbrev pub as_object : Option Value → Fields
as_object (some (object fields)) = fields
as_object _ = end

abbrev pub or_authenticated : Option String → String
or_authenticated none = "authenticated"
or_authenticated (some role) = role

abbrev exp_field : ℕ → Option ℤ → Fields
exp_field now none = end
exp_field now (some expires_in) = field "exp" (number_of_i64 (add_i64 now expires_in)) end

unfoldable pub payload_of : String → String → Fields → Option ℤ → ℕ → Value
unfolding add_i64
payload_of sub role claims expires_in now = object (
    field "sub" (string sub) (
      field "role" (string role) (
        field "claims" (object claims)
          (field "iat" (number (pos_int now)) (exp_field now expires_in)))))

abbrev pub jwt_header : Value
jwt_header = object (field "alg" (string "HS256") (field "typ" (string "JWT") end))

-- The claims of a payload, when its time has not passed.
unfoldable pub actor_of_payload : ℕ → Value → Outcome Actor
unfolding get_field
actor_of_payload now payload =
    if is_past now (i64_of (member "exp" payload))
    then err token_expired
    else ok (record {
      sub = as_str (member "sub" payload);
      role = or_authenticated (as_str (member "role" payload));
      claims = as_object (member "claims" payload);
    })

abbrev pub is_hs256 : Value → Bool
is_hs256 header = elim (as_str (member "alg" header)) [
  | none ↦ false
  | some alg ↦ str_eq alg "HS256"
]

-- `str::trim_start_matches`; the length of the text is fuel enough.
unfoldable pub trim_start_matches : ℕ → Text → Text → Text
trim_start_matches zero p s = s
trim_start_matches (suc fuel) p s = elim (strip_prefix p s) [
  | none ↦ s
  | some rest ↦ trim_start_matches fuel p rest
]

-- An early return with an error where the test fails.
abbrev pub ensure : Bool → AuthError → Outcome (Unit {0})
ensure true e = ok tt
ensure false e = err e

abbrev pub no_fields : Fields
no_fields = end

module _ (c : Crypto) where
  unfoldable pub is_production : Bool
  is_production = elim c.sdb_env [ none ↦ false | some v ↦ text_eq v (codes "production") ]

  unfoldable pub jwt_secret : Outcome Text
  unfolding is_production
  jwt_secret = elim c.jwt_secret_var [
    | some (b ∷ secret) ↦ ok (b ∷ secret)
    | _ ↦ if is_production then err jwt_secret_required else ok (codes "dev-secret-change-me")
  ]

  unfoldable pub sign : Text → Outcome Text
  sign input = do
    secret ← jwt_secret
    mac ← ok_or (c.hmac secret input) invalid_secret
    ok (c.base64 mac)

  unfoldable pub b64_json : Value → Outcome Text
  b64_json value = do bytes ← ok_or (c.to_vec value) failed_to_encode_token; ok (c.base64 bytes)

  unfoldable pub decode_json : Text → Outcome Value
  decode_json input = do
    bytes ← ok_or (c.unbase64 input) invalid_token_payload
    ok_or (c.from_slice bytes) invalid_token_payload

  unfoldable pub mint_token : String → String → Fields → Option ℤ → ℕ → Outcome Text
  mint_token sub role claims expires_in now = do
    header ← b64_json jwt_header
    payload ← b64_json (payload_of sub role claims expires_in now)
    sig ← sign (header ++ b'.' ∷ payload)
    ok ((header ++ b'.' ∷ payload) ++ b'.' ∷ sig)

  -- The checks behind the split.
  unfoldable pub verify_parts : ℕ → Text → Text → Text → Outcome Actor
  verify_parts now first second third = do
    expected ← sign (first ++ b'.' ∷ second)
    same ← ensure (text_eq expected third) invalid_token_signature
    header ← decode_json first
    hs256 ← ensure (is_hs256 header) unsupported_token_algorithm
    payload ← decode_json second
    actor_of_payload now payload

  abbrev pub by_parts : ℕ → List Text → Outcome Actor
  by_parts now (first ∷ second ∷ third ∷ []) = verify_parts now first second third
  by_parts now _ = err invalid_token_format

  unfoldable pub verify_token : ℕ → Text → Outcome Actor
  verify_token now token = by_parts now (split b'.' token)

  unfoldable pub actor_from_authorization : ℕ → Option Text → Outcome Actor
  unfolding trim_start_matches
  actor_from_authorization now none = ok (record { sub = none; role = "anon"; claims = no_fields })
  actor_from_authorization now (some value) =
      if starts_with (codes "Bearer ") value
      then verify_token now (trim (trim_start_matches (length value) (codes "Bearer ") value))
      else err authorization_must_use_bearer
