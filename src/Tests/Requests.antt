-- ===== src/Tests/Requests.antt =====
-- The theorems on the HTTP server and its tokens at concrete inputs.
use serverless_db.Base.{
  ℕ, zero, ◌+◌, ◌-◌, ◌≤◌, ◌≡◌, refl, sym, ap, arith, true, false, Text, codes, Option, none, some,
  List, [], ◌∷◌, ◌<◌, ◌*◌, map, if◌then◌else◌,
}
use serverless_db.Fallible.{ok}
use serverless_db.Json.{Value, end, get_field}
use serverless_db.Sql.{pos}
use serverless_db.Http.RateLimit.{RateLimiter, check, bucket_of, set_bucket, recent}
use serverless_db.Text.{text_eq}
use serverless_db.Http.RateLimit.Window.{count_within, granted, granted_bounded}
use serverless_db.Http.Calendar.{DateTime, unix_to_datetime}
use serverless_db.Http.Calendar.Laws.{IsDate, days_to_date, unix_to_datetime_total}
use serverless_db.Token.{
  Crypto, jwt_header, is_hs256, payload_of, mint_token, verify_token, sign, add_i64, b64_json,
  jwt_secret,
}
use serverless_db.Token.Laws.{
  IsReadBack, dotless, Tells, Tells-alive, minted_for, verify_token-mint_token,
}
use serverless_db.Token.Signed.{IsGenuine, verify_token_signed}

-- Every byte is written as a character behind the dot, and one payload is all that is encoded.
abbrev pub encoded : List ℕ → Text
encoded bytes = map (λ b. b + 47) bytes

abbrev pub vec_of : Value → Option (List ℕ)
vec_of v = some (if is_hs256 v then 0 ∷ [] else 1 ∷ [])

abbrev pub slice_of : Value → List ℕ → Option Value
slice_of payload (zero ∷ bytes) = some jwt_header
slice_of payload bytes = some payload

abbrev pub crypto_for : Value → Crypto
crypto_for payload = record {
  jwt_secret_var = some (codes "s");
  sdb_env = none;
  hmac = λ secret input. some (9 ∷ []);
  base64 = encoded;
  unbase64 = λ s. some (map (λ c. c - 47) s);
  to_vec = vec_of;
  from_slice = slice_of payload;
}

encoded-dotless : (bytes : List ℕ) → dotless (encoded bytes) ≡ true
encoded-dotless [] = refl
encoded-dotless (b ∷ bytes) = ground (arith, encoded-dotless bytes)

decoded-encoded : (bytes : List ℕ) → map (λ c. c - 47) (encoded bytes) ≡ bytes
decoded-encoded [] = refl
decoded-encoded (b ∷ bytes) = ground (arith, decoded-encoded bytes)

abbrev read_vec : Value → Option (List ℕ) → Option Value
read_vec payload none = none
read_vec payload (some bytes) = slice_of payload bytes

pub sample-IsReadBack :
    (payload : Value) → is_hs256 payload ≡ false → IsReadBack (crypto_for payload) payload
unfolding get_field
sample-IsReadBack payload h = record {
  unbase64-base64 = λ bytes. ap some (decoded-encoded bytes);
  base64_dotless = encoded-dotless;
  header_read = λ bytes e. sym (ap (read_vec payload) e);
  payload_read = λ bytes e. rw h at (sym (ap (read_vec payload) e));
}

abbrev payload : Value
payload = payload_of "u1" "authenticated" end (some (pos 3600)) 100

abbrev crypto : Crypto
crypto = crypto_for payload

-- The header, the payload and the signature, each one character long.
abbrev token : Text
token = codes "/.0.8"

payload_no_header : is_hs256 payload ≡ false
unfolding payload_of get_field
payload_no_header = refl

minted_token : mint_token crypto "u1" "authenticated" end (some (pos 3600)) 100 ≡ ok token
unfolding mint_token b64_json sign jwt_secret payload_of add_i64 get_field
minted_token = refl

verify_token-mint_token_example :
    Tells 100 200
      (minted_for "u1" "authenticated" end)
      (some (pos 3600))
      (verify_token crypto 200 token)
verify_token-mint_token_example =
    verify_token-mint_token crypto "u1" "authenticated" end (some (pos 3600)) 100 200 token
      (omega arith) (sample-IsReadBack payload payload_no_header) minted_token

accepted : verify_token crypto 200 token ≡ ok (minted_for "u1" "authenticated" end)
accepted = Tells-alive (omega arith) verify_token-mint_token_example

verify_token_signed_example : IsGenuine crypto 200 token (minted_for "u1" "authenticated" end)
verify_token_signed_example =
    verify_token_signed crypto 200 token (minted_for "u1" "authenticated" end) accepted

-- 2024-02-29 12:34:56
unix_to_datetime_total_example :
    (t : DateTime) × (unix_to_datetime 1_709_210_096 ≡ some t)
    × IsDate t.year t.month t.day
    × (t.hour < 24)
    × (t.minute < 60)
    × (t.second < 60)
    × (((days_to_date t.year t.month t.day * 24 + t.hour) * 60 + t.minute) * 60 + t.second
        ≡ 1_709_210_096)
unix_to_datetime_total_example = unix_to_datetime_total 1_709_210_096

abbrev limiter : RateLimiter
limiter = record { window_secs = 60; max_requests = 2 }

abbrev requests : List (ℕ × Text)
requests =
    (0, codes "a")
    ∷ (1000, codes "b")
    ∷ (2000, codes "a")
    ∷ (3000, codes "a")
    ∷ (61_000, codes "a")
    ∷ []

granted_bounded_example : count_within 60_000 0 (granted limiter (codes "a") [] requests) ≤ 2
granted_bounded_example = granted_bounded limiter (codes "a") requests 0 0 (omega arith)

let_through : granted limiter (codes "a") [] requests ≡ 0 ∷ 2000 ∷ 61_000 ∷ []
unfolding granted check bucket_of set_bucket recent text_eq
let_through = refl
