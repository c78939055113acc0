-- ===== src/Control/Decision.antt =====
-- The placement of requests, rust-core/src/control_plane.rs: `decide_placement`, and how it chooses a worker.
use serverless_db.Base.{
  String, Bool, false, ◌&&◌, Option, none, some, List, [], ◌∷◌, find, str_eq, if◌then◌else◌,
}
use serverless_db.Fallible.{ok, ok_or, ◌>>=◌}
use serverless_db.TreeMap.{TreeMap, get, values}
use serverless_db.Control.{
  ProjectServingState, active, cold, ProjectCatalogEntry, WorkerEndpoint, PlacementIntent, read,
  write, PlacementRequest, primary, replica, PlacementAction, route, wake_project,
  PlacementDecision, project_not_found, no_healthy_worker, ControlPlaneState, Outcome,
}

-- `filter(|endpoint| endpoint.healthy)` of an option.
abbrev pub if_healthy : Option WorkerEndpoint → Option WorkerEndpoint
if_healthy none = none
if_healthy (some e) = if e.healthy then some e else none

unfoldable pub healthy_worker : TreeMap WorkerEndpoint → String → Option WorkerEndpoint
healthy_worker workers worker_id = if_healthy (get worker_id workers)

abbrev pub in_region : String → WorkerEndpoint → Bool
in_region region e = elim e.region [ none ↦ false | some r ↦ str_eq r region ]

abbrev pub first : List WorkerEndpoint → Option WorkerEndpoint
first [] = none
first (e ∷ endpoints) = some e

abbrev pub or_first : List WorkerEndpoint → Option WorkerEndpoint → Option WorkerEndpoint
or_first endpoints none = first endpoints
or_first endpoints (some e) = some e

unfoldable pub choose_endpoint : List WorkerEndpoint → Option String → Option WorkerEndpoint
choose_endpoint endpoints none = first endpoints
choose_endpoint endpoints (some region) =
    if str_eq region ""
    then first endpoints
    else or_first endpoints (find (in_region region) endpoints)

abbrev pub healthy_among : Option WorkerEndpoint → List WorkerEndpoint → List WorkerEndpoint
healthy_among none endpoints = endpoints
healthy_among (some e) endpoints = e ∷ endpoints

-- `filter_map(|worker_id| healthy_worker(workers, worker_id))`.
unfoldable pub healthy_workers : TreeMap WorkerEndpoint → List String → List WorkerEndpoint
unfolding healthy_worker
healthy_workers workers [] = []
healthy_workers workers (worker_id ∷ worker_ids) =
    healthy_among (healthy_worker workers worker_id) (healthy_workers workers worker_ids)

unfoldable pub choose_worker :
    TreeMap WorkerEndpoint → List String → Option String → Option WorkerEndpoint
unfolding healthy_workers choose_endpoint
choose_worker workers worker_ids preferred_region =
    choose_endpoint (healthy_workers workers worker_ids) preferred_region

-- The endpoints that may wake a project.
unfoldable pub can_wake : List WorkerEndpoint → List WorkerEndpoint
can_wake [] = []
can_wake (e ∷ endpoints) =
    let rest = can_wake endpoints in
    if e.healthy && e.can_start_cold_project then e ∷ rest else rest

unfoldable pub choose_cold_start_worker :
    TreeMap WorkerEndpoint → Option String → Option WorkerEndpoint
unfolding can_wake choose_endpoint
choose_cold_start_worker workers preferred_region =
    choose_endpoint (can_wake (values workers)) preferred_region

-- `Option::or`.
infixr 20 ◌or◌
abbrev pub ◌or◌ : Option String → Option String → Option String
none or o = o
some s or o = some s

abbrev route_primary :
    TreeMap WorkerEndpoint → ProjectCatalogEntry → String → Outcome PlacementAction
route_primary workers p primary_worker_id =
    ok_or (healthy_worker workers primary_worker_id) (no_healthy_worker p.project_id) >>= λ e.
    ok (route e primary)

abbrev or_primary :
    TreeMap WorkerEndpoint
    → ProjectCatalogEntry
    → String
    → Option WorkerEndpoint
    → Outcome PlacementAction
or_primary workers p primary_worker_id (some e) = ok (route e replica)
or_primary workers p primary_worker_id none = route_primary workers p primary_worker_id

-- What is done with a request for a project, by the state in which it is served.
unfoldable pub place :
    TreeMap WorkerEndpoint
    → ProjectCatalogEntry
    → PlacementRequest
    → ProjectServingState
    → PlacementIntent
    → Outcome PlacementAction
unfolding choose_worker choose_cold_start_worker healthy_worker
place workers p request (active primary_worker_id replica_worker_ids) write =
    route_primary workers p primary_worker_id
place workers p request (active primary_worker_id replica_worker_ids) read =
    or_primary workers p primary_worker_id
      (choose_worker workers replica_worker_ids request.preferred_region)
place workers p request (cold wakeup_region) _ =
    ok_or
      (choose_cold_start_worker workers
        (request.preferred_region or wakeup_region or p.default_region))
      (no_healthy_worker p.project_id)
    >>= λ e. ok (wake_project e)

unfoldable pub decide_placement : PlacementRequest → ControlPlaneState → Outcome PlacementDecision
unfolding place
decide_placement request s = do
  p ← ok_or (get request.project_id s.projects) (project_not_found request.project_id)
  action ← place s.workers p request p.serving_state request.intent
  ok (record { project_id = p.project_id; project_state = p.serving_state; action = action })
