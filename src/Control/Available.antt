-- ===== src/Control/Available.antt =====
-- Requests that can be served are.
use mathlib.Core.List.{Memᴰ}
use serverless_db.Base.{
  ◌≡◌, ◌≢◌, inl, inr, arith, String, true, ◌&&◌, Option, some, List, [], ◌∷◌, Bool-cases,
  Option-cases,
}
use serverless_db.Fallible.{ok}
use serverless_db.TreeMap.{TreeMap, get, values}
use serverless_db.Control.{
  ProjectServingState, active, cold, ProjectCatalogEntry, WorkerEndpoint, PlacementIntent, read,
  write, PlacementRequest, primary, replica, PlacementAction, route, wake_project,
  PlacementDecision, ControlPlaneState,
}
use serverless_db.Control.Decision.{
  healthy_worker, choose_endpoint, healthy_workers, choose_worker, can_wake,
  choose_cold_start_worker, place, ◌or◌, decide_placement,
}
use serverless_db.Control.Workers.{IsUp, choose_endpoint-none}

-- What a project needs to be served, by its state.
pub data CanServe (workers : TreeMap WorkerEndpoint) : ProjectServingState → Type 0 where
  primary_up :
      (primary_worker_id : String) (replica_worker_ids : List String) (e : WorkerEndpoint)
      → IsUp workers primary_worker_id e
      → CanServe workers (active primary_worker_id replica_worker_ids)
  waker_up :
      (wakeup_region : Option String) (e : WorkerEndpoint)
      → Memᴰ e (values workers)
      → e.healthy ≡ true
      → e.can_start_cold_project ≡ true
      → CanServe workers (cold wakeup_region)

can_wake_some :
    (endpoints : List WorkerEndpoint) (e : WorkerEndpoint)
    → Memᴰ e endpoints
    → e.healthy ≡ true
    → e.can_start_cold_project ≡ true
    → can_wake endpoints ≢ []
unfolding can_wake
can_wake_some [] e m a b = elim m [ ]
can_wake_some (x ∷ endpoints) e (Memᴰ.head same) a b = ground (arith, same, a, b)
can_wake_some (x ∷ endpoints) e (Memᴰ.tail m) a b =
    elim (Bool-cases (x.healthy && x.can_start_cold_project)) [
      | inl q ↦ λ h. ground (arith, q, h)
      | inr q ↦ λ h. can_wake_some endpoints e m a b (rw q at h)
    ]

module _ (workers : TreeMap WorkerEndpoint) (request : PlacementRequest)
    (p : ProjectCatalogEntry) where
  place_available :
      (serving : ProjectServingState) (intent : PlacementIntent)
      → CanServe workers serving
      → (action : PlacementAction) × (place workers p request serving intent ≡ ok action)
  unfolding place choose_worker choose_cold_start_worker healthy_worker
  place_available _ write (primary_up i ids e up) =
      (route e primary, ground (arith, up.registered, up.healthy))
  place_available _ read (primary_up i ids e up) =
      elim (Option-cases (choose_endpoint (healthy_workers workers ids) request.preferred_region)) [
        | inl q ↦ (route e primary, ground (arith, q, up.registered, up.healthy))
        | inr (x, q) ↦ (route x replica, ground (arith, q))
      ]
  place_available _ intent (waker_up r e m a b) =
      let wanted = request.preferred_region or r or p.default_region in
      elim (Option-cases (choose_endpoint (can_wake (values workers)) wanted)) [
        | inl q ↦ absurd (
            can_wake_some (values workers) e m a b
              (choose_endpoint-none (can_wake (values workers)) wanted q))
        | inr (x, q) ↦ (wake_project x, ground (arith, q))
      ]

-- Every request for a project that can be served is placed: for an active project a healthy primary is
-- enough, for a cold one any healthy worker that can start it.
pub decide_placement_available :
    (request : PlacementRequest) (s : ControlPlaneState) (p : ProjectCatalogEntry)
    → get request.project_id s.projects ≡ some p
    → CanServe s.workers p.serving_state
    → (d : PlacementDecision) × (decide_placement request s ≡ ok d)
unfolding decide_placement
decide_placement_available request s p h c =
    let (a, q) = place_available s.workers request p p.serving_state request.intent c in
    (
      record { project_id = p.project_id; project_state = p.serving_state; action = a },
      ground (arith, h, q),
    )
