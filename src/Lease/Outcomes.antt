-- ===== src/Lease/Outcomes.antt =====
-- What a successful call of the lease functions did, case by case.
use serverless_db.Base.{
  ℕ, ◌≤◌, ◌<◌, ◌%◌, ◌^◌, String, ◌≡◌, refl, ◌⊎◌, inl, inr, Option, none, some, List, arith, eq_iff,
  str_eq, leb, saturating_add, Bool-cases, Option-cases,
}
use serverless_db.Error.{ok}
use serverless_db.Io.{Io}
use serverless_db.Store.{
  Key, writer_lease, writer_lease_claim, World, lookup, insert, exists, read_bytes, put_bytes,
  put_bytes_if_absent, tail,
}
use serverless_db.Types.{Codec, Runtime, WriterLease}
use serverless_db.Lease.{
  load_writer_lease, load_writer_lease_claim, claim_round, claim_expired_writer_lease, settle_lease,
  new_lease, next_claim, acquire, ensure_writer_lease,
}

module _ (c : Codec) where
  open c use {Doc, as_lease, lease_doc}

  -- The store holds this lease under the key.
  pub record Holds (k : Key) (l : WriterLease) (objects : List (Key × Doc)) : Type 0 where
    pub doc : Doc
    pub stored : lookup k objects ≡ some doc
    pub parsed : as_lease doc ≡ some l

  module _ (rt : Runtime) (now : ℕ) (pid : String) where
    -- How a round of the takeover loop comes to its result.
    pub data Round (retry : WriterLease → Io (World Doc) WriterLease) (base l : WriterLease)
        (w w' : World Doc) : Type 0 where
      created :
          l ≡ next_claim c rt now pid base
          → lookup (writer_lease_claim pid l.fencing_token) w.objects ≡ none
          → w'.objects
            ≡ insert
                (writer_lease pid)
                (lease_doc l)
                (insert (writer_lease_claim pid l.fencing_token) (lease_doc l) w.objects)
          → Round retry base l w w'
      reclaimed :
          Holds (writer_lease_claim pid (saturating_add base.fencing_token 1)) l w.objects
          → l.owner_id ≡ rt.runtime_id
          → l.project_id ≡ pid
          → w'.objects ≡ insert (writer_lease pid) (lease_doc l) w.objects
          → Round retry base l w w'
      retried :
          (claimed : WriterLease) (v : World Doc)
          → Holds (writer_lease_claim pid (saturating_add base.fencing_token 1)) claimed w.objects
          → claimed.expires_at_ms ≤ now
          → v.objects ≡ w.objects
          → retry claimed v ≡ (ok l, w')
          → Round retry base l w w'

    pub claim_round-Round :
        (retry : WriterLease → Io (World Doc) WriterLease) (base l : WriterLease) (w w' : World Doc)
        → claim_round c rt now retry pid base w ≡ (ok l, w')
        → Round retry base l w w'
    unfolding claim_round put_bytes_if_absent put_bytes load_writer_lease_claim read_bytes
    claim_round-Round retry base l w w' h = elim (Option-cases (lookup key w.objects)) [
      | inl e ↦ created (ground arith) (ground arith) (ground arith)
      | inr (d, e) ↦ elim (Option-cases (as_lease d)) [
        | inl x ↦ absurd (ground arith)
        | inr (claimed, x) ↦ elim (Bool-cases (str_eq claimed.owner_id rt.runtime_id)) [
          | inl mine ↦
              reclaimed (record { doc = d; stored = e; parsed = ground arith })
                (ground (arith, eq_iff claimed.owner_id rt.runtime_id))
                (ground (arith, eq_iff claimed.project_id pid)) (ground arith)
          | inr other ↦
              retried claimed (record w { faults = tail (tail w.faults) })
                (record { doc = d; stored = e; parsed = x }) (ground arith) refl (ground arith)
        ]
      ]
    ]
      where
        key : Key
        key = writer_lease_claim pid (saturating_add base.fencing_token 1)

    -- How a call of `ensure_writer_lease` that asks the store comes to a lease.
    pub data Acquisition (known : Option ℕ) (l : WriterLease) (w w' : World Doc) : Type 0 where
      fresh :
          lookup (writer_lease pid) w.objects ≡ none
          → l ≡ new_lease c rt now pid (now % 2 ^ 64)
          → w'.objects ≡ insert (writer_lease pid) (lease_doc l) w.objects
          → Acquisition known l w w'
      renewed :
          (current : WriterLease)
          → Holds (writer_lease pid) current w.objects
          → current.owner_id ≡ rt.runtime_id
          → current.project_id ≡ pid
          → now < current.expires_at_ms
          → l ≡ next_claim c rt now pid current
          → w'.objects ≡ insert (writer_lease pid) (lease_doc l) w.objects
          → Acquisition known l w w'
      taken_over :
          (current : WriterLease) (v : World Doc)
          → Holds (writer_lease pid) current w.objects
          → current.project_id ≡ pid
          → current.expires_at_ms ≤ now
          → (known ≡ none) ⊎ (current.owner_id ≡ rt.runtime_id)
          → v.objects ≡ w.objects
          → claim_expired_writer_lease c rt now pid current v ≡ (ok l, w')
          → Acquisition known l w w'

    acquire-Acquisition :
        (known : Option ℕ) (l : WriterLease) (w w' : World Doc)
        → acquire c rt now pid known w ≡ (ok l, w')
        → Acquisition known l w w'
    unfolding acquire settle_lease load_writer_lease put_bytes_if_absent put_bytes exists read_bytes
    acquire-Acquisition known l w w' h = elim (Option-cases (lookup (writer_lease pid) w.objects)) [
      | inl e ↦ fresh e (ground arith) (ground arith)
      | inr (d, e) ↦ elim (Option-cases (as_lease d)) [
        | inl x ↦ absurd (ground arith)
        | inr (current, x) ↦ elim (Bool-cases (leb current.expires_at_ms now)) [
          | inl expired ↦
              taken_over current (record w { faults = tail (tail (tail w.faults)) })
                (record { doc = d; stored = e; parsed = x })
                (ground (arith, eq_iff current.project_id pid)) (ground arith)
                (ground (arith, eq_iff current.owner_id rt.runtime_id)) refl (ground arith)
          | inr live ↦
              renewed current (record { doc = d; stored = e; parsed = x })
                (ground (arith, eq_iff current.owner_id rt.runtime_id))
                (ground (arith, eq_iff current.project_id pid)) (ground arith) (ground arith)
                (ground arith)
        ]
      ]
    ]

    pub ensure-Acquisition :
        (known : Option ℕ) (l : WriterLease) (w w' : World Doc)
        → ensure_writer_lease c rt now pid known w ≡ (ok (some l), w')
        → Acquisition known l w w'
    unfolding ensure_writer_lease
    ensure-Acquisition known l w w' h = acquire-Acquisition known l w w' (ground arith)
