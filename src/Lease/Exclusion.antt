-- ===== src/Lease/Exclusion.antt =====
-- Who may write: a lease of another runtime that has not expired keeps this one out, and a lease
-- that is handed out is the one in the store.
use serverless_db.Base.{
  ℕ, ◌<◌, String, ◌≡◌, ◌≢◌, refl, true, Option, some, List, [], zero, suc, sym, ◌∙◌, arith, eq_iff,
}
use serverless_db.Error.{ok, err, is_err, new, lease_is_held}
use serverless_db.Store.{
  Key, writer_lease, World, lookup, insert, exists, read_bytes, put_bytes_if_absent,
}
use serverless_db.Store.Laws.{lookup-insert, key_eq_refl}
use serverless_db.Types.{Codec, Runtime, WriterLease}
use serverless_db.Lease.Outcomes.{
  Holds, Round, created, reclaimed, retried, claim_round-Round, Acquisition, fresh, renewed,
  taken_over, ensure-Acquisition,
}
use serverless_db.Lease.{
  load_writer_lease, claim_rounds, claim_expired_writer_lease, settle_lease, acquire,
  ensure_writer_lease,
}

module _ (c : Codec) where
  open c use {Doc, as_lease, lease_doc, as_lease-lease_doc}

  module _ (rt : Runtime) (now : ℕ) (pid : String) (known : Option ℕ) where
    -- While another runtime's lease is stored and has not expired, a call is refused and leaves the
    -- store as it was, whichever calls of the store fail; where none fails, the status is 423.
    pub ensure_writer_lease_refused :
        (l : WriterLease) (w : World Doc)
        → rt.options.writer_lease_ttl_ms ≢ 0
        → Holds c (writer_lease pid) l w.objects
        → l.project_id ≡ pid
        → l.owner_id ≢ rt.runtime_id
        → now < l.expires_at_ms
        → ((ensure_writer_lease c rt now pid known w).1.objects ≡ w.objects)
          × (is_err (ensure_writer_lease c rt now pid known w).0 ≡ true)
          × (w.faults ≡ []
              → (ensure_writer_lease c rt now pid known w).0 ≡ err (new 423 lease_is_held))
    unfolding ensure_writer_lease acquire load_writer_lease settle_lease put_bytes_if_absent exists
        read_bytes
    ensure_writer_lease_refused l w on h p other live = (
      ground (arith, eq_iff l.owner_id rt.runtime_id, eq_iff l.project_id pid),
      ground (arith, eq_iff l.owner_id rt.runtime_id, eq_iff l.project_id pid),
      λ e. ground (arith, eq_iff l.owner_id rt.runtime_id, eq_iff l.project_id pid),
    )

  -- The lease is this runtime's, for this project, and is the one stored.
  pub record IsAcquired (rt : Runtime) (pid : String) (l : WriterLease) (objects : List (Key × Doc))
      : Type 0 where
    pub stored : lookup (writer_lease pid) objects ≡ some (lease_doc l)
    pub owner : l.owner_id ≡ rt.runtime_id
    pub project : l.project_id ≡ pid

  module _ (rt : Runtime) (now : ℕ) (pid : String) where
    stored_after :
        (l : WriterLease) (before objects : List (Key × Doc))
        → objects ≡ insert (writer_lease pid) (lease_doc l) before
        → lookup (writer_lease pid) objects ≡ some (lease_doc l)
    stored_after l before objects e = rw (e, lookup-insert, key_eq_refl (writer_lease pid)) refl

    claim_rounds-IsAcquired :
        (n : ℕ) (base l : WriterLease) (w w' : World Doc)
        → claim_rounds c rt now n pid base w ≡ (ok l, w')
        → IsAcquired rt pid l w'.objects
    unfolding claim_rounds
    claim_rounds-IsAcquired zero base l w w' h = cc
    claim_rounds-IsAcquired (suc n) base l w w' h =
        after (claim_round-Round c rt now pid (claim_rounds c rt now n pid) base l w w' h)
          (claim_rounds-IsAcquired n)
      where
        after :
            Round c rt now pid (claim_rounds c rt now n pid) base l w w'
            → ((b m : WriterLease) (v v' : World Doc)
                → claim_rounds c rt now n pid b v ≡ (ok m, v')
                → IsAcquired rt pid m v'.objects)
            → IsAcquired rt pid l w'.objects
        after (created e _ o) ih = record {
          stored = stored_after l _ _ o;
          owner = rw e;
          project = rw e;
        }
        after (reclaimed _ me p o) ih = record {
          stored = stored_after l _ _ o;
          owner = me;
          project = p;
        }
        after (retried b v _ _ _ r) ih = ih b l v w' r

    -- A call that hands out a lease has stored it, for this project and under this runtime's name.
    pub ensure_writer_lease-IsAcquired :
        (known : Option ℕ) (l : WriterLease) (w w' : World Doc)
        → ensure_writer_lease c rt now pid known w ≡ (ok (some l), w')
        → IsAcquired rt pid l w'.objects
    unfolding claim_expired_writer_lease
    ensure_writer_lease-IsAcquired known l w w' h =
        after (ensure-Acquisition c rt now pid known l w w' h)
      where
        after : Acquisition c rt now pid known l w w' → IsAcquired rt pid l w'.objects
        after (fresh _ e o) = record { stored = stored_after l _ _ o; owner = rw e; project = rw e }
        after (renewed _ _ _ _ _ e o) = record {
          stored = stored_after l _ _ o;
          owner = rw e;
          project = rw e;
        }
        after (taken_over current v _ _ _ _ _ r) = claim_rounds-IsAcquired 4 current l v w' r

  -- One writer at a time: once a runtime was handed a lease, any other runtime with leases that asks
  -- before it expires is refused and changes nothing, whatever else was written to the store in between,
  -- as long as the lease itself is stored as it was (it was neither released nor renewed).
  pub single_writer :
      (a b : Runtime) (now later : ℕ) (pid : String) (known known' : Option ℕ) (l : WriterLease)
      (w w' v : World Doc)
      → ensure_writer_lease c a now pid known w ≡ (ok (some l), w')
      → lookup (writer_lease pid) v.objects ≡ lookup (writer_lease pid) w'.objects
      → b.runtime_id ≢ a.runtime_id
      → b.options.writer_lease_ttl_ms ≢ 0
      → later < l.expires_at_ms
      → ((ensure_writer_lease c b later pid known' v).1.objects ≡ v.objects)
        × (is_err (ensure_writer_lease c b later pid known' v).0 ≡ true)
  single_writer a b now later pid known known' l w w' v h same other on live =
      let got = ensure_writer_lease-IsAcquired a now pid known l w w' h in
      let refused =
        ensure_writer_lease_refused b later pid known' l v on
          (record { doc = lease_doc l; stored = same ∙ got.stored; parsed = as_lease-lease_doc l })
          got.project (λ e. other (sym e ∙ got.owner)) live in
      (refused.0, refused.1)
