-- ===== src/Tests/Leases.antt =====
-- The theorems on leases at concrete inputs: `alice` takes the free lease of the project at time 10,
-- `bob` asks before and after it expires.
use serverless_db.Base.{◌≡◌, ◌≢◌, ◌<◌, refl, String, none, some, [], ◌∷◌, true, arith, eq_iff}
use serverless_db.Error.{ok, is_err}
use serverless_db.Store.{
  World, writer_lease, lookup, insert, remove, key_eq, exists, read_bytes, put_bytes,
  put_bytes_if_absent,
}
use serverless_db.Types.{WriterLease}
use serverless_db.Lease.{
  ensure_writer_lease, new_lease, acquire, settle_lease, load_writer_lease,
  claim_expired_writer_lease, claim_rounds, claim_round,
}
use serverless_db.Lease.Exclusion.{single_writer}
use serverless_db.Lease.Fencing.{
  ensure_writer_lease-token, ensure_writer_lease-IsNumbered, IsNumbered,
}
use serverless_db.Tests.Samples.{codec, alice, bob, empty_world, Object, lease_object}

abbrev first_lease : WriterLease
first_lease = new_lease codec alice 10 "p" 10

abbrev leased : World Object
leased = record { objects = (writer_lease "p", lease_object first_lease) ∷ []; faults = [] }

alice_first :
    ensure_writer_lease codec alice 10 "p" none empty_world ≡ (ok (some first_lease), leased)
unfolding ensure_writer_lease acquire put_bytes_if_absent lookup insert remove
alice_first = refl

bob_not_alice : ◌≢◌ {A = String} "bob" "alice"
bob_not_alice = ground (arith, eq_iff "bob" "alice")

single_writer_example :
    ((ensure_writer_lease codec bob 900 "p" none leased).1.objects ≡ leased.objects)
    × (is_err (ensure_writer_lease codec bob 900 "p" none leased).0 ≡ true)
single_writer_example =
    single_writer codec alice bob 10 900 "p" none none first_lease empty_world leased leased
      alice_first refl bob_not_alice (omega arith) (omega arith)

-- After the lease has expired, `bob` takes the project over.
abbrev second_lease : WriterLease
second_lease = new_lease codec bob 2000 "p" 11

abbrev taken : World Object
taken = (ensure_writer_lease codec bob 2000 "p" none leased).1

bob_takes_over :
    ensure_writer_lease codec bob 2000 "p" none leased ≡ (ok (some second_lease), taken)
unfolding ensure_writer_lease acquire put_bytes_if_absent lookup insert remove key_eq exists
    read_bytes load_writer_lease settle_lease claim_expired_writer_lease claim_rounds claim_round
    put_bytes
bob_takes_over = refl

no_claims : IsNumbered codec leased
unfolding lookup key_eq
no_claims = record { token = λ p t d l e x. ground (arith, e) }

ensure_writer_lease-token_example : first_lease.fencing_token < second_lease.fencing_token
ensure_writer_lease-token_example =
    ensure_writer_lease-token codec bob 2000 "p" none first_lease second_lease leased taken
      no_claims
      (record {
        doc = lease_object first_lease;
        stored = unfold lookup key_eq in refl;
        parsed = refl;
      })
      (omega arith) bob_takes_over

ensure_writer_lease-IsNumbered_example : IsNumbered codec taken
ensure_writer_lease-IsNumbered_example =
    ensure_writer_lease-IsNumbered codec bob 2000 "p" none leased no_claims
