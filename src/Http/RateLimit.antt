-- ===== src/Http/RateLimit.antt =====
-- The limit on requests for authentication, rust-core/src/http.rs: `RateLimiter`, `client_ip` and
-- `check_auth_rate_limit`. An `Instant` is a number of milliseconds.
pub mod Window
use serverless_db.Base.{
  ℕ, ◌*◌, ◌-◌, Bool, true, false, Text, codes, Option, none, some, List, [], ◌∷◌, ◌++◌, length, ltb,
  leb, if◌then◌else◌,
}
use serverless_db.Error.{Result, ok, err, new, too_many_auth_requests}
use serverless_db.Http.{HeaderMap, get, to_str, or_else, unwrap_or}
use serverless_db.Text.{split, text_eq, trim}

pub record RateLimiter : Type 0 where
  pub window_secs : ℕ
  pub max_requests : ℕ

-- The map behind the mutex: the times at which each client was let through.
abbrev pub Buckets : Type 0
Buckets = List (Text × List ℕ)

-- `entry(key).or_default()`.
unfoldable pub bucket_of : Text → Buckets → List ℕ
bucket_of key [] = []
bucket_of key ((k, times) ∷ buckets) = if text_eq k key then times else bucket_of key buckets

unfoldable pub set_bucket : Text → List ℕ → Buckets → Buckets
set_bucket key times [] = (key, times) ∷ []
set_bucket key times ((k, old) ∷ buckets) =
    let rest = set_bucket key times buckets in
    if text_eq k key then (k, times) ∷ buckets else (k, old) ∷ rest

-- `retain(|t| now.duration_since(*t) < window)`.
unfoldable pub recent : ℕ → ℕ → List ℕ → List ℕ
recent window now [] = []
recent window now (t ∷ times) =
    let rest = recent window now times in if ltb (now - t) window then t ∷ rest else rest

module _ (limiter : RateLimiter) where
  abbrev pub window_ms : ℕ
  window_ms = limiter.window_secs * 1000

  unfoldable pub check : ℕ → Text → Buckets → Bool × Buckets
  unfolding bucket_of set_bucket recent
  check now key buckets =
      let entries = recent window_ms now (bucket_of key buckets) in
      if leb limiter.max_requests (length entries)
      then (false, set_bucket key entries buckets)
      else (true, set_bucket key (entries ++ now ∷ []) buckets)

-- The text before the first comma.
abbrev first_part : List Text → Text
first_part [] = []
first_part (part ∷ parts) = part

abbrev forwarded : Option Text → Option Text
forwarded none = none
forwarded (some s) = some (trim (first_part (split b',' s)))

unfoldable pub client_ip : HeaderMap → Text
unfolding get
client_ip headers =
    unwrap_or
      (or_else (forwarded (to_str (get headers "x-forwarded-for")))
        (to_str (get headers "x-real-ip")))
      (codes "unknown")

unfoldable pub check_auth_rate_limit :
    RateLimiter → ℕ → HeaderMap → Buckets → Result (Unit {0}) × Buckets
unfolding check client_ip
check_auth_rate_limit limiter now headers buckets =
    let (allowed, after) = check limiter now (client_ip headers) buckets in
    (if allowed then ok tt else err (new 429 too_many_auth_requests), after)
