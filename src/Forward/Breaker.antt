-- ===== src/Forward/Breaker.antt =====
-- When the circuit breaker opens: after failures in a row, unless each is preceded by a look.
use serverless_db.Base.{
  ℕ, ◌+◌, ◌-◌, ◌^◌, ◌≤◌, ◌<◌, ◌≡◌, ◌⊎◌, inl, inr, refl, String, false, true, Option, none, some, ap,
  ◌∙◌, List, [], ◌∷◌, arith, length, str_eq_refl,
}
use serverless_db.Types.{RuntimeOptions}
use serverless_db.Forward.Replicas.{entry_of-remove_entry}
use serverless_db.Forward.{
  Health, EndpointHealth, entry_of, failed_entry, failures_of, record_forward_failure,
  forward_endpoint_available,
}

entry_of-record_forward_failure :
    (options : RuntimeOptions) (now : ℕ) (url : String) (health : Health)
    → entry_of url (record_forward_failure options now url health)
      ≡ some (failed_entry options now (entry_of url health))
unfolding record_forward_failure entry_of
entry_of-record_forward_failure options now url health = rw (str_eq_refl url) refl

-- Failures of one endpoint at these times, the first one last in the list.
unfoldable pub failures_at : RuntimeOptions → String → List ℕ → Health → Health
failures_at options url [] health = health
failures_at options url (now ∷ times) health =
    record_forward_failure options now url (failures_at options url times health)

count_failures :
    (options : RuntimeOptions) (url : String) (times : List ℕ) (health : Health)
    → (length times ≤ failures_of (entry_of url (failures_at options url times health)))
      ⊎ (failures_of (entry_of url (failures_at options url times health)) ≡ 2 ^ 32 - 1)
unfolding failures_at
count_failures options url [] health = inl (omega arith)
count_failures options url (now ∷ times) health =
    rw (entry_of-record_forward_failure options now url (failures_at options url times health))
      (elim (count_failures options url times health) [
        | inl h ↦ ground arith
        | inr h ↦ ground arith
      ])

-- Once an endpoint has failed as often in a row as the threshold says, it is not available until
-- the cooldown after the last failure has passed, whatever its health was before.
pub failures_open_breaker :
    (options : RuntimeOptions) (url : String) (now later : ℕ) (times : List ℕ) (health : Health)
    → options.routing_endpoint_failure_threshold < 2 ^ 32
    → options.routing_endpoint_failure_threshold ≤ length (now ∷ times)
    → later < now + options.routing_endpoint_cooldown_ms
    → (forward_endpoint_available later url (failures_at options url (now ∷ times) health)).0
      ≡ false
unfolding forward_endpoint_available failures_at
failures_open_breaker options url now later times health fits enough soon =
    rw (entry_of-record_forward_failure options now url (failures_at options url times health))
      (elim (count_failures options url times health) [
        | inl h ↦ ground arith
        | inr h ↦ ground arith
      ])

-- Failed attempts at these times, the first one last in the list: before each of them the endpoint is
-- looked up, as `replica_url_for_region` does before a request is forwarded, and then its failure is
-- recorded.
unfoldable pub attempts_at : RuntimeOptions → String → List ℕ → Health → Health
attempts_at options url [] health = health
attempts_at options url (now ∷ times) health =
    record_forward_failure options now url
      (forward_endpoint_available now url (attempts_at options url times health)).1

abbrev one_failure : EndpointHealth
one_failure = record { consecutive_failures = 1; open_until = none }

abbrev IsClosed : Option EndpointHealth → Type 0
IsClosed entry = (entry ≡ none) ⊎ (entry ≡ some one_failure)

look_forgets :
    (now : ℕ) (url : String) (health : Health)
    → IsClosed (entry_of url health)
    → ((forward_endpoint_available now url health).0 ≡ true)
      × (entry_of url (forward_endpoint_available now url health).1 ≡ none)
unfolding forward_endpoint_available
look_forgets now url health (inl h) = (rw h refl, rw h h)
look_forgets now url health (inr h) =
    (rw h refl, rw h (entry_of-remove_entry url url health ∙ rw (str_eq_refl url) refl))

attempts-IsClosed :
    (options : RuntimeOptions) (url : String) (times : List ℕ) (health : Health)
    → 2 ≤ options.routing_endpoint_failure_threshold
    → entry_of url health ≡ none
    → IsClosed (entry_of url (attempts_at options url times health))
unfolding attempts_at
attempts-IsClosed options url [] health two h = inl h
attempts-IsClosed options url (now ∷ times) health two h =
    let before : Health = attempts_at options url times health in
    let (up, none_left) =
      look_forgets now url before (attempts-IsClosed options url times health two h) in
    inr (
      entry_of-record_forward_failure options now url (forward_endpoint_available now url before).1
      ∙ ap (λ o. some (failed_entry options now o)) none_left
      ∙ ground (arith, two))

-- An endpoint that has not failed yet stays available however often it fails, where every failure is
-- preceded by a look whether it is available and the threshold is two, as it is by default, or more: the
-- look forgets the failure that was counted, and the breaker does not open.
pub checked_failures_keep_available :
    (options : RuntimeOptions) (url : String) (later : ℕ) (times : List ℕ) (health : Health)
    → 2 ≤ options.routing_endpoint_failure_threshold
    → entry_of url health ≡ none
    → (forward_endpoint_available later url (attempts_at options url times health)).0 ≡ true
checked_failures_keep_available options url later times health two h =
    (look_forgets later url (attempts_at options url times health)
      (attempts-IsClosed options url times health two h)).0
