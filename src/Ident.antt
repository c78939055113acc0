-- ===== src/Ident.antt =====
-- Identifiers and keys that users choose: rust-core/src/runtime_utils.rs and policy.rs
-- (`valid_ident`, `quote_ident`), and `validate_idempotency` of runtime.rs.
use serverless_db.Base.{
  ℕ, Bool, false, not, ◌&&◌, ◌||◌, [], ◌∷◌, ◌++◌, Text, codes, ltb, ◌==◌, if◌then◌else◌, all, any,
}
use serverless_db.Error.{
  Result, ok, err, new, project_id_must_match, invalid_object_key, object_key_dot_segments,
  invalid_user_identifier, invalid_identifier, idempotency_key_length, idempotency_key_characters,
  idempotency_request_hash,
}
use serverless_db.Text.{
  is_ascii_alphabetic, is_ascii_alphanumeric, is_ascii_hexdigit, starts_with, trim, split, text_eq,
  is_empty, utf8_len,
}

unfoldable pub valid_ident : Text → Bool
valid_ident [] = false
valid_ident (ch ∷ chars) =
    (ch == b'_' || is_ascii_alphabetic ch) && all (λ c. c == b'_' || is_ascii_alphanumeric c) chars

-- The identifier between double quotes.
unfoldable pub quote_ident : Text → Result Text
quote_ident name =
    if valid_ident name
    then ok (b'"' ∷ name ++ b'"' ∷ [])
    else err (new 400 (invalid_identifier name))

unfoldable pub assert_user_ident : Text → Result Text
assert_user_ident name =
    if not (valid_ident name)
      || starts_with (codes "_sdb_") name
      || starts_with (codes "sqlite_") name
    then err (new 400 (invalid_user_identifier name))
    else ok name

unfoldable pub safe_project_id : Text → Result Text
safe_project_id [] = err (new 400 project_id_must_match)
safe_project_id (first ∷ chars) =
    if not (is_ascii_alphanumeric first)
      || ltb 64 (utf8_len (first ∷ chars))
      || not (all (λ c. is_ascii_alphanumeric c || c == b'_' || c == b'-') chars)
    then err (new 400 project_id_must_match)
    else ok (first ∷ chars)

unfoldable pub safe_object_key : Text → Result Text
safe_object_key key =
    if is_empty key || starts_with (codes "/") key || any (λ c. c == 0) key
    then err (new 400 invalid_object_key)
    else if any (λ part. text_eq part (codes ".") || text_eq part (codes "..")) (split b'/' key)
    then err (new 400 object_key_dot_segments)
    else ok key

pub record WriteIdempotency : Type 0 where
  pub key : Text
  pub request_hash : Text

abbrev key_byte : ℕ → Bool
key_byte c = is_ascii_alphanumeric c || c == b'-' || c == b'_' || c == b'.' || c == b':'

validate_hash : Text → Result (Unit {0})
validate_hash hash =
    if not (utf8_len hash == 64) || not (all is_ascii_hexdigit hash)
    then err (new 400 idempotency_request_hash)
    else ok tt

unfoldable pub validate_idempotency : WriteIdempotency → Result (Unit {0})
unfolding validate_hash
validate_idempotency idempotency =
    let key = trim idempotency.key in
    if is_empty key || ltb 256 (utf8_len key)
    then err (new 400 idempotency_key_length)
    else if not (all key_byte key)
    then err (new 400 idempotency_key_characters)
    else validate_hash idempotency.request_hash
