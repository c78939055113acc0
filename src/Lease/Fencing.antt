-- ===== src/Lease/Fencing.antt =====
-- Fencing tokens: claims are numbered by their tokens, and a lease that replaces another one has a
-- larger token.
use serverless_db.Base.{
  ℕ, zero, suc, ◌+◌, ◌≤◌, ◌<◌, String, ◌≡◌, ap, subst, Option, none, some, arith, eq_iff,
  saturating_add, u64_max,
}
use serverless_db.Error.{ok}
use serverless_db.Io.{Io}
use serverless_db.Io.Keeps.{Keeps, keeps_rules}
use serverless_db.Store.{
  Key, writer_lease, writer_lease_claim, World, lookup, exists, read_bytes, put_bytes,
  put_bytes_if_absent, key_eq,
}
use serverless_db.Store.Laws.{lookup-insert, exists-objects, read-objects}
use serverless_db.Types.{Codec, Runtime, WriterLease}
use serverless_db.Lease.Outcomes.{
  Holds, Round, created, reclaimed, retried, claim_round-Round, Acquisition, fresh, renewed,
  taken_over, ensure-Acquisition,
}
use serverless_db.Lease.{
  load_writer_lease, load_writer_lease_claim, claim_round, claim_rounds, claim_expired_writer_lease,
  settle_lease, acquire, found_or_absent, ensure_writer_lease,
}

module _ (c : Codec) where
  open c use {Doc, as_lease, lease_doc, as_lease-lease_doc}

  -- Every claim in the store carries the token that its key names.
  pub record IsNumbered (w : World Doc) : Type 0 where
    pub token :
        (pid : String) (t : ℕ) (d : Doc) (l : WriterLease)
        → lookup (writer_lease_claim pid t) w.objects ≡ some d
        → as_lease d ≡ some l
        → l.fencing_token ≡ t

  exists-IsNumbered : (k : Key) → Keeps IsNumbered (exists k)
  exists-IsNumbered k = record {
    at = λ w h. record {
      token = λ p t d l e x.
          h.token p t d l
            (subst (λ m. lookup (writer_lease_claim p t) m ≡ some d) (exists-objects k w) e) x;
    };
  }

  read_bytes-IsNumbered : (k : Key) → Keeps IsNumbered (read_bytes k)
  read_bytes-IsNumbered k = record {
    at = λ w h. record {
      token = λ p t d l e x.
          h.token p t d l
            (subst (λ m. lookup (writer_lease_claim p t) m ≡ some d) (read-objects k w) e) x;
    };
  }

  put_lease-IsNumbered :
      (pid : String) (d : Doc) → Keeps IsNumbered (put_bytes (writer_lease pid) d)
  unfolding put_bytes key_eq
  put_lease-IsNumbered pid d = record {
    at = λ w h. record {
      token = λ p t d' l e x. ground (
        arith,
        h.token p t d' l,
        lookup-insert (writer_lease pid) (writer_lease_claim p t) d w.objects,
      );
    };
  }

  create_lease-IsNumbered :
      (pid : String) (d : Doc) → Keeps IsNumbered (put_bytes_if_absent (writer_lease pid) d)
  unfolding put_bytes_if_absent key_eq
  create_lease-IsNumbered pid d = record {
    at = λ w h. record {
      token = λ p t d' l e x. ground (
        arith,
        h.token p t d' l,
        lookup-insert (writer_lease pid) (writer_lease_claim p t) d w.objects,
      );
    };
  }

  create_claim-IsNumbered :
      (pid : String) (m : WriterLease)
      → Keeps IsNumbered
          (put_bytes_if_absent (writer_lease_claim pid m.fencing_token) (lease_doc m))
  unfolding put_bytes_if_absent key_eq
  create_claim-IsNumbered pid m = record {
    at = λ w h. record {
      token = λ p t d' l e x. ground (
        arith,
        h.token p t d' l,
        eq_iff pid p,
        as_lease-lease_doc m,
        lookup-insert (writer_lease_claim pid m.fencing_token) (writer_lease_claim p t)
            (lease_doc m) w.objects,
      );
    };
  }

  ruleset numbered_rules = (
    keeps_rules, exists-IsNumbered, read_bytes-IsNumbered, put_lease-IsNumbered,
    create_lease-IsNumbered, create_claim-IsNumbered,
  )

  module _ (rt : Runtime) (now : ℕ) (pid : String) where
    load_writer_lease-IsNumbered : Keeps IsNumbered (load_writer_lease c pid)
    unfolding load_writer_lease
    load_writer_lease-IsNumbered = search numbered_rules

    claim_round-IsNumbered :
        (retry : WriterLease → Io (World Doc) WriterLease) (base : WriterLease)
        → ((m : WriterLease) → Keeps IsNumbered (retry m))
        → Keeps IsNumbered (claim_round c rt now retry pid base)
    unfolding claim_round load_writer_lease_claim
    claim_round-IsNumbered retry base k = search numbered_rules depth 12

    claim_rounds-IsNumbered :
        (n : ℕ) (base : WriterLease) → Keeps IsNumbered (claim_rounds c rt now n pid base)
    unfolding claim_rounds
    claim_rounds-IsNumbered zero base = search keeps_rules
    claim_rounds-IsNumbered (suc n) base =
        claim_round-IsNumbered (claim_rounds c rt now n pid) base (claim_rounds-IsNumbered n)

    settle_lease-IsNumbered :
        (known : Option ℕ) (current : WriterLease)
        → Keeps IsNumbered (settle_lease c rt now pid known current)
    unfolding settle_lease claim_expired_writer_lease
    settle_lease-IsNumbered known current =
        search (numbered_rules, claim_rounds-IsNumbered) depth 10

    found_or_absent-IsNumbered :
        (known : Option ℕ) (o : Option WriterLease)
        → Keeps IsNumbered (found_or_absent c rt now pid known o)
    found_or_absent-IsNumbered known none = search numbered_rules depth 8
    found_or_absent-IsNumbered known (some current) = settle_lease-IsNumbered known current

    acquire-IsNumbered : (known : Option ℕ) → Keeps IsNumbered (acquire c rt now pid known)
    unfolding acquire
    acquire-IsNumbered known =
        search (numbered_rules, load_writer_lease-IsNumbered, found_or_absent-IsNumbered) depth 8

    ensure_writer_lease-Keeps :
        (known : Option ℕ) → Keeps IsNumbered (ensure_writer_lease c rt now pid known)
    unfolding ensure_writer_lease
    ensure_writer_lease-Keeps known = search (keeps_rules, acquire-IsNumbered) depth 8

    -- Whatever a call of `ensure_writer_lease` returns, and whichever calls of the store fail, claims
    -- stay numbered by their tokens.
    pub ensure_writer_lease-IsNumbered :
        (known : Option ℕ) (w : World Doc)
        → IsNumbered w
        → IsNumbered (ensure_writer_lease c rt now pid known w).1
    ensure_writer_lease-IsNumbered known w h = (ensure_writer_lease-Keeps known).at w h

    same_objects : (v w : World Doc) → v.objects ≡ w.objects → IsNumbered w → IsNumbered v
    same_objects v w e h = record {
      token = λ p t d l x y.
          h.token p t d l (subst (λ m. lookup (writer_lease_claim p t) m ≡ some d) e x) y;
    }

    claim_rounds-token :
        (n : ℕ) (base l : WriterLease) (w w' : World Doc)
        → IsNumbered w
        → base.fencing_token + n ≤ u64_max
        → claim_rounds c rt now n pid base w ≡ (ok l, w')
        → base.fencing_token < l.fencing_token
    unfolding claim_rounds
    claim_rounds-token zero base l w w' k room h = cc
    claim_rounds-token (suc n) base l w w' k room h =
        after (claim_round-Round c rt now pid (claim_rounds c rt now n pid) base l w w' h)
          (claim_rounds-token n)
      where
        after :
            Round c rt now pid (claim_rounds c rt now n pid) base l w w'
            → ((b m : WriterLease) (v v' : World Doc)
                → IsNumbered v
                → b.fencing_token + n ≤ u64_max
                → claim_rounds c rt now n pid b v ≡ (ok m, v')
                → b.fencing_token < m.fencing_token)
            → base.fencing_token < l.fencing_token
        after (created e _ _) ih = rw e (ground arith)
        after (reclaimed held _ _ _) ih = ground (
          arith,
          k.token pid (saturating_add base.fencing_token 1) held.doc l held.stored held.parsed,
        )
        after (retried b v held _ same r) ih =
            let numbered : b.fencing_token ≡ saturating_add base.fencing_token 1 =
              k.token pid _ held.doc b held.stored held.parsed in
            let next : b.fencing_token ≡ base.fencing_token + 1 = ground (arith, numbered) in
            omega (arith, ih b l v w' (same_objects v w same k) (omega arith) r)

    -- A lease that replaces a stored one has a larger fencing token, below the end of u64.
    pub ensure_writer_lease-token :
        (known : Option ℕ) (current l : WriterLease) (w w' : World Doc)
        → IsNumbered w
        → Holds c (writer_lease pid) current w.objects
        → current.fencing_token + 4 ≤ u64_max
        → ensure_writer_lease c rt now pid known w ≡ (ok (some l), w')
        → current.fencing_token < l.fencing_token
    unfolding claim_expired_writer_lease
    ensure_writer_lease-token known current l w w' k held room h =
        after (ensure-Acquisition c rt now pid known l w w' h)
      where
        same_current : (m : WriterLease) → Holds c (writer_lease pid) m w.objects → m ≡ current
        same_current m o = cc (o.stored, o.parsed, held.stored, held.parsed)

        after : Acquisition c rt now pid known l w w' → current.fencing_token < l.fencing_token
        after (fresh absent _ _) = cc (absent, held.stored)
        after (renewed m o _ _ _ e _) = rw (e, same_current m o) (ground arith)
        after (taken_over m v o _ _ _ same r) =
            let e = ap (λ (x : WriterLease). x.fencing_token) (same_current m o) in
            omega (
              arith,
              e,
              claim_rounds-token 4 m l v w' (same_objects v w same k) (omega (arith, e)) r,
            )
