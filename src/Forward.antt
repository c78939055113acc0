-- ===== src/Forward.antt =====
-- Where a runtime forwards requests to, rust-core/src/runtime.rs: the circuit breaker of the
-- endpoints (`record_forward_success`, `record_forward_failure`, `forward_endpoint_available`) and
-- the choice of an endpoint. `now` is `Instant::now()`, in milliseconds.
pub mod Breaker
pub mod Replicas
use serverless_db.Base.{
  ℕ, ◌+◌, String, Bool, true, false, Option, none, some, List, [], ◌∷◌, ltb, leb, ◌^◌, ◌-◌, str_eq,
  if◌then◌else◌, find,
}
use serverless_db.Types.{RoutingEndpoint, RuntimeOptions}

pub record EndpointHealth : Type 0 where
  pub consecutive_failures : ℕ
  pub open_until : Option ℕ

-- The map behind the mutex, by url.
abbrev pub Health : Type 0
Health = List (String × EndpointHealth)

unfoldable pub entry_of : String → Health → Option EndpointHealth
entry_of url [] = none
entry_of url ((u, entry) ∷ health) = if str_eq u url then some entry else entry_of url health

unfoldable pub remove_entry : String → Health → Health
remove_entry url [] = []
remove_entry url ((u, entry) ∷ health) =
    let rest = remove_entry url health in if str_eq u url then rest else (u, entry) ∷ rest

unfoldable pub record_forward_success : String → Health → Health
record_forward_success url health = remove_entry url health

abbrev pub failures_of : Option EndpointHealth → ℕ
failures_of none = 0
failures_of (some entry) = entry.consecutive_failures

abbrev open_until_of : Option EndpointHealth → Option ℕ
open_until_of none = none
open_until_of (some entry) = entry.open_until

-- `u32::saturating_add(1)`.
abbrev pub one_more : ℕ → ℕ
one_more n = if leb (n + 1) (2 ^ 32 - 1) then n + 1 else 2 ^ 32 - 1

abbrev pub threshold_of : RuntimeOptions → ℕ
threshold_of options =
    if leb 1 options.routing_endpoint_failure_threshold
    then options.routing_endpoint_failure_threshold
    else 1

-- The entry of the endpoint behind one more failure.
abbrev pub failed_entry : RuntimeOptions → ℕ → Option EndpointHealth → EndpointHealth
failed_entry options now entry =
    let failures = one_more (failures_of entry) in
    record {
      consecutive_failures = failures;
      open_until =
          if leb (threshold_of options) failures
          then some (now + options.routing_endpoint_cooldown_ms)
          else open_until_of entry;
    }

unfoldable pub record_forward_failure : RuntimeOptions → ℕ → String → Health → Health
unfolding remove_entry entry_of
record_forward_failure options now url health =
    (url, failed_entry options now (entry_of url health)) ∷ remove_entry url health

abbrev is_open : ℕ → Option ℕ → Bool
is_open now none = false
is_open now (some open_until) = ltb now open_until

abbrev available_entry : ℕ → String → Health → Option EndpointHealth → Bool × Health
available_entry now url health none = (true, health)
available_entry now url health (some entry) =
    if is_open now entry.open_until then (false, health) else (true, remove_entry url health)

unfoldable pub forward_endpoint_available : ℕ → String → Health → Bool × Health
forward_endpoint_available now url health = available_entry now url health (entry_of url health)

abbrev url_of : Option RoutingEndpoint → Option String
url_of none = none
url_of (some endpoint) = some endpoint.url

abbrev or_else : Option String → Option String → Option String
or_else none other = other
or_else (some url) other = some url

unfoldable pub primary_url : RuntimeOptions → Option String
primary_url options =
    or_else (url_of (find (λ endpoint. str_eq endpoint.role "primary") options.routing_endpoints))
      options.primary_url

-- The replicas that are available, with the health that the calls leave.
unfoldable pub available_replicas :
    ℕ → List RoutingEndpoint → Health → List RoutingEndpoint × Health
available_replicas now [] health = ([], health)
available_replicas now (endpoint ∷ endpoints) health =
    if str_eq endpoint.role "replica"
    then (let (available, after) = forward_endpoint_available now endpoint.url health in
        let (replicas, last) = available_replicas now endpoints after in
        (if available then endpoint ∷ replicas else replicas, last))
    else available_replicas now endpoints health

abbrev pub in_region : String → RoutingEndpoint → Bool
in_region region endpoint = elim endpoint.region [ none ↦ false | some r ↦ str_eq r region ]

abbrev pub preferred : Option String → List RoutingEndpoint → Option RoutingEndpoint
preferred none replicas = none
preferred (some region) replicas =
    if str_eq region "" then none else find (in_region region) replicas

abbrev local : Option String → List RoutingEndpoint → Option RoutingEndpoint
local none replicas = none
local (some region) replicas = find (in_region region) replicas

abbrev first_of : List RoutingEndpoint → Option RoutingEndpoint
first_of [] = none
first_of (endpoint ∷ replicas) = some endpoint

abbrev first_some : Option RoutingEndpoint → Option RoutingEndpoint → Option RoutingEndpoint
first_some none other = other
first_some (some endpoint) other = some endpoint

-- The replica of the preferred region, of the local one, or the first.
unfoldable pub choose :
    Option String → Option String → List RoutingEndpoint → Option RoutingEndpoint
choose wanted here replicas =
    first_some (preferred wanted replicas) (first_some (local here replicas) (first_of replicas))

unfoldable pub replica_url_for_region :
    RuntimeOptions → ℕ → Option String → Health → Option String × Health
replica_url_for_region options now wanted health =
    let (replicas, after) = available_replicas now options.routing_endpoints health in
    (url_of (choose wanted options.routing_region replicas), after)
