-- ===== src/Forward/Replicas.antt =====
-- The choice of a replica.
use serverless_db.Base.{
  ℕ, zero, suc, ◌≡◌, refl, sym, subst, ◌∙◌, inl, inr, String, Bool, true, Option, none, some, List,
  [], ◌∷◌, arith, eq_iff, str_eq, find, get_elem?, Bool-cases, Option-cases, if◌then◌else◌,
}
use serverless_db.Types.{RoutingEndpoint, RuntimeOptions}
use serverless_db.Forward.{
  Health, entry_of, remove_entry, forward_endpoint_available, available_replicas, choose, preferred,
  in_region, replica_url_for_region,
}

pub entry_of-remove_entry :
    (u v : String) (health : Health)
    → entry_of u (remove_entry v health) ≡ (if str_eq v u then none else entry_of u health)
unfolding entry_of remove_entry
entry_of-remove_entry u v [] = elim (Bool-cases (str_eq v u)) [
  | inl e ↦ rw e refl
  | inr e ↦ rw e refl
]
entry_of-remove_entry u v ((x, entry) ∷ health) =
    ground (arith, entry_of-remove_entry u v health, eq_iff x v, eq_iff x u, eq_iff v u)

-- To ask for one endpoint does not change the answer for another.
available_again :
    (now : ℕ) (u v : String) (health : Health)
    → (forward_endpoint_available now u (forward_endpoint_available now v health).1).0
      ≡ (forward_endpoint_available now u health).0
unfolding forward_endpoint_available
available_again now u v health = ground (arith, entry_of-remove_entry u v health, eq_iff v u)

-- A replica among the endpoints that is available.
pub record IsAvailableReplica (now : ℕ) (health : Health) (endpoints : List RoutingEndpoint)
    (endpoint : RoutingEndpoint) : Type 0 where
  pub index : ℕ
  pub listed : get_elem? endpoints index ≡ some endpoint
  pub role : endpoint.role ≡ "replica"
  pub available : (forward_endpoint_available now endpoint.url health).0 ≡ true

later_endpoint :
    (now : ℕ) (health after : Health) (head e : RoutingEndpoint) (endpoints : List RoutingEndpoint)
    → (forward_endpoint_available now e.url after).0
      ≡ (forward_endpoint_available now e.url health).0
    → IsAvailableReplica now after endpoints e
    → IsAvailableReplica now health (head ∷ endpoints) e
later_endpoint now health after head e endpoints same h = record {
  index = suc h.index;
  listed = h.listed;
  role = h.role;
  available = sym same ∙ h.available;
}

available_replicas-IsAvailableReplica :
    (now : ℕ) (endpoints : List RoutingEndpoint) (health : Health) (j : ℕ) (e : RoutingEndpoint)
    → get_elem? (available_replicas now endpoints health).0 j ≡ some e
    → IsAvailableReplica now health endpoints e
unfolding available_replicas
available_replicas-IsAvailableReplica now [] health j e h = cc
available_replicas-IsAvailableReplica now (x ∷ endpoints) health j e h =
    elim (Bool-cases (str_eq x.role "replica")) [
      | inr r ↦
          later_endpoint now health health x e endpoints refl
            (available_replicas-IsAvailableReplica now endpoints health j e (rw r at h))
      | inl r ↦
          let after = (forward_endpoint_available now x.url health).1 in
          elim (Bool-cases (forward_endpoint_available now x.url health).0) [
            | inr a ↦
                later_endpoint now health after x e endpoints
                  (available_again now e.url x.url health)
                  (available_replicas-IsAvailableReplica now endpoints after j e
                    (ground (arith, h)))
            | inl a ↦
                first_or_later after (available_again now e.url x.url health) a r
                  (available_replicas-IsAvailableReplica now endpoints after) j (ground (arith, h))
          ]
    ]
  where
    first_or_later :
        (after : Health)
        → (forward_endpoint_available now e.url after).0
          ≡ (forward_endpoint_available now e.url health).0
        → (forward_endpoint_available now x.url health).0 ≡ true
        → str_eq x.role "replica" ≡ true
        → ((i : ℕ) (y : RoutingEndpoint)
            → get_elem? (available_replicas now endpoints after).0 i ≡ some y
            → IsAvailableReplica now after endpoints y)
        → (i : ℕ) → get_elem? (x ∷ (available_replicas now endpoints after).0) i ≡ some e
        → IsAvailableReplica now health (x ∷ endpoints) e
    first_or_later after same a r ih zero h =
        let here : x ≡ e = cc in
        subst (IsAvailableReplica now health (x ∷ endpoints)) here
          (record { index = 0; listed = refl; role = (eq_iff x.role "replica").0 r; available = a })
    first_or_later after same a r ih (suc i) h =
        later_endpoint now health after x e endpoints same (ih i e h)

found_at {ℓ} :
    {A : Type ℓ} (p : A → Bool) (xs : List A) (x : A)
    → find p xs ≡ some x
    → (i : ℕ) × (get_elem? xs i ≡ some x)
found_at p [] x h = cc
found_at p (y ∷ xs) x h = elim (Bool-cases (p y)) [
  | inl e ↦ (0, rw e at h)
  | inr e ↦ let (i, k) = found_at p xs x (rw e at h) in (suc i, k)
]

local_or_first :
    (here : Option String) (replicas : List RoutingEndpoint) (e : RoutingEndpoint)
    → choose none here replicas ≡ some e
    → (j : ℕ) × (get_elem? replicas j ≡ some e)
unfolding choose
local_or_first none [] e h = cc
local_or_first none (x ∷ replicas) e h = (0, h)
local_or_first (some here) [] e h = cc
local_or_first (some here) (x ∷ replicas) e h =
    elim (Option-cases (find (in_region here) (x ∷ replicas))) [
      | inl q ↦ (0, ground (arith, q))
      | inr (y, q) ↦ found_at (in_region here) (x ∷ replicas) e (ground (arith, q))
    ]

choose_listed :
    (wanted here : Option String) (replicas : List RoutingEndpoint) (e : RoutingEndpoint)
    → choose wanted here replicas ≡ some e
    → (j : ℕ) × (get_elem? replicas j ≡ some e)
unfolding choose
choose_listed none here replicas e h = local_or_first here replicas e h
choose_listed (some wanted) here replicas e h =
    elim (Option-cases (preferred (some wanted) replicas)) [
      | inl q ↦ local_or_first here replicas e (ground (arith, q))
      | inr (y, q) ↦ found_at (in_region wanted) replicas e (ground (arith, q))
    ]

-- The url that a request for reading is forwarded to is that of a replica among the configured
-- endpoints that the circuit breaker lets through, whatever regions are preferred.
pub replica_url_for_region-IsAvailableReplica :
    (options : RuntimeOptions) (now : ℕ) (wanted : Option String) (health : Health) (url : String)
    → (replica_url_for_region options now wanted health).0 ≡ some url
    → (e : RoutingEndpoint) × IsAvailableReplica now health options.routing_endpoints e
      × (e.url ≡ url)
unfolding replica_url_for_region
replica_url_for_region-IsAvailableReplica options now wanted health url h =
    let replicas = (available_replicas now options.routing_endpoints health).0 in
    elim (Option-cases (choose wanted options.routing_region replicas)) [
      | inl q ↦ absurd (ground (arith, q))
      | inr (e, q) ↦
          let (j, k) = choose_listed wanted options.routing_region replicas e q in
          (
            e,
            available_replicas-IsAvailableReplica now options.routing_endpoints health j e k,
            ground (arith, q),
          )
    ]
