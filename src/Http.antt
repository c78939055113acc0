-- ===== src/Http.antt =====
-- The HTTP server, rust-core/src/http.rs, without the framework that it runs in: the values that it
-- reads from a request's headers.
pub mod Calendar
pub mod RateLimit
pub mod Forwarding
pub mod Accounts
pub mod Reads
pub mod Writes
use serverless_db.Base.{
  String, Bool, true, false, Text, Option, none, some, List, [], ◌∷◌, str_eq, if◌then◌else◌,
}
use serverless_db.Text.{is_empty}

-- The headers by their lower-case names; a value that `to_str` refuses is `none`.
abbrev pub HeaderMap : Type 0
HeaderMap = List (String × Option Text)

-- `headers.get(name)`, the first value.
unfoldable pub get : HeaderMap → String → Option (Option Text)
get [] name = none
get ((k, value) ∷ headers) name = if str_eq k name then some value else get headers name

-- `.and_then(|value| value.to_str().ok())`.
abbrev pub to_str : Option (Option Text) → Option Text
to_str none = none
to_str (some value) = value

-- `.filter(|value| !value.is_empty())`.
abbrev pub non_empty : Option Text → Option Text
non_empty none = none
non_empty (some value) = if is_empty value then none else some value

abbrev pub or_else {ℓ} : {A : Type ℓ} → Option A → Option A → Option A
or_else none other = other
or_else (some value) other = some value

abbrev pub unwrap_or {ℓ} : {A : Type ℓ} → Option A → A → A
unwrap_or none d = d
unwrap_or (some value) d = value

abbrev pub is_some {ℓ} : {A : Type ℓ} → Option A → Bool
is_some none = false
is_some (some value) = true

unfoldable pub header_value : HeaderMap → String → Option Text
unfolding get is_empty
header_value headers name = non_empty (to_str (get headers name))

unfoldable pub idempotency_key : HeaderMap → Option Text
unfolding header_value
idempotency_key headers =
    or_else (header_value headers "idempotency-key") (header_value headers "x-sdb-idempotency-key")
