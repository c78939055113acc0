-- ===== src/Lease.antt =====
-- The writer lease of a project, rust-core/src/runtime.rs: `load_writer_lease`,
-- `claim_expired_writer_lease`, `ensure_writer_lease`, `renew_lease`, `release_writer_lease` and the
-- garbage collection of claims. `now` is what `now_ms()` returns in the call.
pub mod Outcomes
pub mod Exclusion
pub mod Fencing
use serverless_db.Base.{
  ℕ, zero, suc, ◌+◌, ◌/◌, ◌%◌, ◌^◌, String, Bool, true, false, not, ◌&&◌, Option, none, some, List,
  [], ◌∷◌, ltb, leb, ◌==◌, str_eq, if◌then◌else◌, saturating_add,
}
use serverless_db.Error.{
  ApiError, Result, ok, err, new, invalid_writer_lease, invalid_writer_lease_claim,
  writer_lease_claim_project_mismatch, takeover_is_held, takeover_kept_changing,
  lease_changed_while_acquiring, writer_lease_project_mismatch, lease_was_lost, lease_is_held,
  cannot_renew_lease,
}
use serverless_db.Io.{Io, pure, raise, lift, ◌>>=◌, ◌>>◌}
use serverless_db.Store.{
  Key, writer_lease, writer_lease_claim, lease_audit, World, exists, read_bytes, put_bytes,
  put_bytes_if_absent, delete, list_all, ignore,
}
use serverless_db.Types.{Codec, Runtime, WriterLease}

module _ (c : Codec) where
  open c use {Doc, as_lease, lease_doc}

  abbrev parsed : ApiError → Option WriterLease → Result WriterLease
  parsed e none = err e
  parsed e (some l) = ok l

  unfoldable pub load_writer_lease : String → Io (World Doc) (Option WriterLease)
  load_writer_lease pid = do
    found ← exists (writer_lease pid)
    if not found then pure none else do
      bytes ← read_bytes (writer_lease pid)
      lease ← lift (parsed (new 503 invalid_writer_lease) (as_lease bytes))
      pure (some lease)

  unfoldable pub load_writer_lease_claim : Key → Io (World Doc) WriterLease
  load_writer_lease_claim key = do
    bytes ← read_bytes key
    lift (parsed (new 503 invalid_writer_lease_claim) (as_lease bytes))

  module _ (rt : Runtime) (now : ℕ) where
    -- The lease that this runtime would hold from now on.
    abbrev pub new_lease : String → ℕ → WriterLease
    new_lease pid token = record {
      schema_version = 1;
      project_id = pid;
      owner_id = rt.runtime_id;
      fencing_token = token;
      acquired_at_ms = now;
      expires_at_ms = now + rt.options.writer_lease_ttl_ms;
    }

    abbrev pub next_claim : String → WriterLease → WriterLease
    next_claim pid base = new_lease pid (saturating_add base.fencing_token 1)

    -- What a round does with a claim that is already there; `retry` is the next round.
    unfoldable pub settle_claim :
        String → WriterLease → Io (World Doc) WriterLease → Io (World Doc) WriterLease
    settle_claim pid claimed retry =
        if not (str_eq claimed.project_id pid)
        then raise (new 503 writer_lease_claim_project_mismatch)
        else if str_eq claimed.owner_id rt.runtime_id
        then (do put_bytes (writer_lease pid) (lease_doc claimed); pure claimed)
        else if ltb now claimed.expires_at_ms
        then raise (new 423 takeover_is_held)
        else retry

    -- One round of the loop; `retry` is the rounds after it, from the claim that was found.
    unfoldable pub claim_round :
        (WriterLease → Io (World Doc) WriterLease)
        → String
        → WriterLease
        → Io (World Doc) WriterLease
    unfolding settle_claim
    claim_round retry pid base = do
      let lease = next_claim pid base
      let claim_key = writer_lease_claim pid lease.fencing_token
      created ← put_bytes_if_absent claim_key (lease_doc lease)
      if created then (do put_bytes (writer_lease pid) (lease_doc lease); pure lease) else do
        claimed ← load_writer_lease_claim claim_key
        settle_claim pid claimed (retry claimed)

    -- `for _ in 0..4`, with the rounds that are left.
    unfoldable pub claim_rounds : ℕ → String → WriterLease → Io (World Doc) WriterLease
    claim_rounds zero pid base = raise (new 423 takeover_kept_changing)
    claim_rounds (suc n) pid base = claim_round (claim_rounds n pid) pid base

    unfoldable pub claim_expired_writer_lease : String → WriterLease → Io (World Doc) WriterLease
    unfolding claim_rounds
    claim_expired_writer_lease pid base = claim_rounds 4 pid base

    abbrev is_lost : Option ℕ → WriterLease → Bool
    is_lost none current = false
    is_lost (some known) current = not (str_eq current.owner_id rt.runtime_id)

    -- The part of `ensure_writer_lease` that has found a lease in the store.
    unfoldable pub settle_lease : String → Option ℕ → WriterLease → Io (World Doc) WriterLease
    settle_lease pid known current =
        if not (str_eq current.project_id pid)
        then raise (new 503 writer_lease_project_mismatch)
        else if str_eq current.owner_id rt.runtime_id && ltb now current.expires_at_ms
        then (do
          let renewed = new_lease pid (saturating_add current.fencing_token 1)
          put_bytes (writer_lease pid) (lease_doc renewed)
          pure renewed)
        else if leb current.expires_at_ms now
        then (if is_lost known current
            then raise (new 423 lease_was_lost)
            else claim_expired_writer_lease pid current)
        else raise (new 423 lease_is_held)

    -- The part that found a lease, and then none: it was released in between.
    abbrev pub retry_absent : String → Io (World Doc) WriterLease
    retry_absent pid = do
      let retry_lease = new_lease pid (now % 2 ^ 64 + 1)
      created ← put_bytes_if_absent (writer_lease pid) (lease_doc retry_lease)
      if created then pure retry_lease else raise (new 423 lease_changed_while_acquiring)

    abbrev pub found_or_absent : String → Option ℕ → Option WriterLease → Io (World Doc) WriterLease
    found_or_absent pid known none = retry_absent pid
    found_or_absent pid known (some current) = settle_lease pid known current

    unfoldable pub acquire : String → Option ℕ → Io (World Doc) WriterLease
    acquire pid known = do
      let first_lease = new_lease pid (now % 2 ^ 64)
      created ← put_bytes_if_absent (writer_lease pid) (lease_doc first_lease)
      if created
          then pure first_lease
          else do loaded ← load_writer_lease pid; found_or_absent pid known loaded

    unfoldable pub ensure_writer_lease : String → Option ℕ → Io (World Doc) (Option WriterLease)
    ensure_writer_lease pid known =
        if rt.options.writer_lease_ttl_ms == 0
        then pure none
        else (do lease ← acquire pid known; pure (some lease))

    -- `audit_lease_conflict`: the record is written, and a failure is ignored. Its fields are not
    -- modelled: `audit` stands for the document.
    abbrev audit_lease_conflict : String → Doc → Io (World Doc) (Unit {0})
    audit_lease_conflict pid audit = ignore (put_bytes (lease_audit pid now) audit)

    abbrev renew_found : String → Doc → Option WriterLease → Io (World Doc) (Unit {0})
    renew_found pid audit none = pure tt
    renew_found pid audit (some current) =
        if not (str_eq current.owner_id rt.runtime_id)
        then (do audit_lease_conflict pid audit; raise (new 423 cannot_renew_lease))
        else put_bytes (writer_lease pid) (
            lease_doc (record (new_lease pid current.fencing_token) {
              acquired_at_ms = current.acquired_at_ms;
            }))

    unfoldable pub renew_lease : String → Doc → Io (World Doc) (Unit {0})
    renew_lease pid audit = do current ← load_writer_lease pid; renew_found pid audit current

    abbrev release_found : String → Option WriterLease → Io (World Doc) (Unit {0})
    release_found pid none = pure tt
    release_found pid (some current) =
        if str_eq current.owner_id rt.runtime_id then delete (writer_lease pid) else pure tt

    unfoldable pub release_writer_lease : String → Io (World Doc) (Unit {0})
    release_writer_lease pid =
        if rt.options.writer_lease_ttl_ms == 0
        then pure tt
        else (do current ← load_writer_lease pid; release_found pid current)

    -- The test of one round of `lease_renewer_loop`, on the token that the writer holds and on
    -- what `load_writer_lease` returned.
    unfoldable pub needs_renew : Option ℕ → Result (Option WriterLease) → Bool
    needs_renew none loaded = false
    needs_renew (some token) (ok (some lease)) =
        str_eq lease.owner_id rt.runtime_id
        && ltb lease.expires_at_ms (now + rt.options.writer_lease_ttl_ms / 2)
    needs_renew (some token) _ = false

    is_claim_of : String → Key → Bool
    is_claim_of pid (writer_lease_claim q t) = str_eq q pid
    is_claim_of pid _ = false

    abbrev is_stale : Option WriterLease → Bool
    is_stale none = true
    is_stale (some lease) = ltb (lease.expires_at_ms + 3600000) now

    gc_claims : List (Key × Doc) → ℕ → Io (World Doc) ℕ
    gc_claims [] removed = pure removed
    gc_claims ((key, d) ∷ claims) removed = do
      bytes ← read_bytes key
      if is_stale (as_lease bytes)
          then (do ignore (delete key); gc_claims claims (removed + 1))
          else gc_claims claims removed

    unfoldable pub gc_lease_claims : String → Io (World Doc) ℕ
    unfolding gc_claims is_claim_of
    gc_lease_claims pid = do claims ← list_all (is_claim_of pid); gc_claims claims 0
