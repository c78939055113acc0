-- ===== src/Error.antt =====
-- `ApiError` (rust-core/src/runtime.rs): the HTTP status, and in place of the message text its
-- template with the values that the code formats into it.
use serverless_db.Base.{◌≡◌, refl, ◌⊎◌, inl, inr, Bool, true, false, ℕ, String, Text}

pub data Message : Type 0 where
  -- runtime_utils.rs
  invalid_bookmark : Text → Message
  project_id_must_match invalid_object_key object_key_dot_segments : Message
  invalid_user_identifier : Text → Message
  -- policy.rs
  invalid_identifier : Text → Message
  no_such_user already_registered refresh_token_is_invalid session_id_required : Message
  json_failed not_authenticated missing_email missing_password : Message
  missing_email_or_phone invalid_login_credentials missing_refresh_token : Message
  refresh_token_missing_session_id refresh_token_missing_user : Message
  unsupported_grant_type no_user_with_token unknown_logout_scope : Message
  auth_user_missing_id failed_to_mint_access_token failed_to_hash_password : Message
  unknown_read_session insert_body_array insert_body : Message
  too_many_auth_requests no_primary_url forward_request_failed : Message
  invalid_forward_method invalid_forward_url forward_url_scheme : Message
  forward_response_not_json primary_request_failed : Message
  primary_answered : String → Message
  policy_rule_must_be_an_object compound_policy_must_not_be_empty : Message
  unsupported_policy_rule : Message
  -- runtime.rs, the object store and what it holds
  object_store_failed : Message
  invalid_writer_lease invalid_writer_lease_claim : Message
  writer_lease_claim_project_mismatch writer_lease_project_mismatch : Message
  takeover_is_held takeover_kept_changing lease_changed_while_acquiring : Message
  lease_was_lost lease_is_held cannot_renew_lease : Message
  invalid_durable_manifest unsupported_schema_version manifest_project_mismatch : Message
  failed_to_read length_mismatch checksum_mismatch : Message
  non_contiguous_id non_contiguous_offset wal_byte_mismatch : Message
  no_snapshot generation_regression generation_conflict : Message
  wal_budget_exceeded local_file_failed sqlite_failed : Message
  -- runtime.rs, the write path
  idempotency_key_length idempotency_key_characters idempotency_request_hash : Message
  idempotency_key_reused idempotent_write_pending : Message
  read_replica_cannot_accept writer_queue_is_full writer_unavailable : Message
  order_needs_a_column : Message
  order_direction order_nulls unsupported_filter_operator filter_format : Text → Message
  invalid_or_segment invalid_and_segment is_filter_value : Text → Message
  row_must_be_an_object row_must_not_be_empty : Message
  invalid_legacy_key legacy_size_mismatch : Message
  not_on_replica : Message
  bookmark_not_available storage_access_requires_authentication object_not_owned : Message

pub record ApiError : Type 0 where
  pub status : ℕ
  pub message : Message

-- `ApiError::new`.
abbrev pub new : ℕ → Message → ApiError
new status message = record { status = status; message = message }

pub data Result {ℓ} (A : Type ℓ) : Type ℓ where
  ok : A → Result A
  err : ApiError → Result A

abbrev pub is_err {ℓ} : {A : Type ℓ} → Result A → Bool
is_err (ok a) = false
is_err (err e) = true

pub Result-cases {ℓ} :
    {A : Type ℓ} (r : Result A) → ((a : A) × (r ≡ ok a)) ⊎ ((e : ApiError) × (r ≡ err e))
Result-cases (ok a) = inl (a, refl)
Result-cases (err e) = inr (e, refl)

-- Chains of results, for `?` in code without a state.
infixl 5 ◌>>=◌
abbrev pub ◌>>=◌ {ℓ κ} : {A : Type ℓ} {B : Type κ} → Result A → (A → Result B) → Result B
ok a >>= f = f a
err e >>= f = err e

infixl 5 ◌>>◌
abbrev pub ◌>>◌ {ℓ κ} : {A : Type ℓ} {B : Type κ} → Result A → Result B → Result B
m >> n = m >>= λ _. n
