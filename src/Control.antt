-- ===== src/Control.antt =====
-- The control plane, rust-core/src/control_plane.rs: the catalog of projects, their API keys, the
-- workers, and the placement of requests. The state behind the mutex is passed explicitly.
pub mod Decision
pub mod Workers
pub mod Placement
pub mod Available
pub mod Steps
use serverless_db.Base.{
  String, Bool, true, false, ◌&&◌, Option, none, some, List, [], ◌∷◌, find, str_eq, if◌then◌else◌,
}
use serverless_db.Fallible.{Fallible, ok, err, ok_or, ◌>>=◌}
use serverless_db.TreeMap.{TreeMap, get, insert, update, values}

pub data ProjectServingState : Type 0 where
  -- The worker of the primary, and those of the replicas.
  active : String → List String → ProjectServingState
  -- The region in which the project is woken.
  cold : Option String → ProjectServingState

pub record ProjectCatalogEntry : Type 0 where
  pub project_id : String
  pub object_store_prefix : String
  pub default_region : Option String
  pub serving_state : ProjectServingState

pub data ApiKeyKind : Type 0 where
  anon service_role : ApiKeyKind

pub record ApiKeyRecord : Type 0 where
  pub project_id : String
  pub key_id : String
  pub kind : ApiKeyKind

abbrev pub is_service_role : ApiKeyKind → Bool
is_service_role anon = false
is_service_role service_role = true

abbrev pub is_browser_safe : ApiKeyKind → Bool
is_browser_safe anon = true
is_browser_safe service_role = false

pub record ApiKeyRoute : Type 0 where
  pub project_id : String
  pub key_id : String
  pub kind : ApiKeyKind
  pub service_role : Bool
  pub browser_safe : Bool

pub record WorkerEndpoint : Type 0 where
  pub worker_id : String
  pub region : Option String
  pub url : String
  pub healthy : Bool
  pub can_start_cold_project : Bool

pub data PlacementIntent : Type 0 where
  read write : PlacementIntent

pub record PlacementRequest : Type 0 where
  pub project_id : String
  pub intent : PlacementIntent
  pub preferred_region : Option String

pub data PlacementRole : Type 0 where
  primary replica : PlacementRole

pub data PlacementAction : Type 0 where
  route : WorkerEndpoint → PlacementRole → PlacementAction
  wake_project : WorkerEndpoint → PlacementAction

pub record PlacementDecision : Type 0 where
  pub project_id : String
  pub project_state : ProjectServingState
  pub action : PlacementAction

pub data ControlPlaneError : Type 0 where
  project_not_found : String → ControlPlaneError
  api_key_not_found : ControlPlaneError
  worker_not_found : String → ControlPlaneError
  no_healthy_worker : String → ControlPlaneError

pub record ControlPlaneState : Type 0 where
  pub projects : TreeMap ProjectCatalogEntry
  pub api_keys : TreeMap ApiKeyRecord
  pub workers : TreeMap WorkerEndpoint

abbrev pub Outcome : Type 0 → Type 0
Outcome A = Fallible ControlPlaneError A

abbrev pub active_project :
    String → String → Option String → String → List String → ProjectCatalogEntry
active_project project_id prefix default_region primary_worker_id replica_worker_ids = record {
  project_id = project_id;
  object_store_prefix = prefix;
  default_region = default_region;
  serving_state = active primary_worker_id replica_worker_ids;
}

abbrev pub cold_project : String → String → Option String → Option String → ProjectCatalogEntry
cold_project project_id prefix default_region wakeup_region = record {
  project_id = project_id;
  object_store_prefix = prefix;
  default_region = default_region;
  serving_state = cold wakeup_region;
}

abbrev pub anon_key : String → String → ApiKeyRecord
anon_key project_id key_id = record { project_id = project_id; key_id = key_id; kind = anon }

abbrev pub new_worker : String → Option String → String → WorkerEndpoint
new_worker worker_id region url = record {
  worker_id = worker_id;
  region = region;
  url = url;
  healthy = true;
  can_start_cold_project = true;
}

abbrev pub read_request : String → PlacementRequest
read_request project_id = record { project_id = project_id; intent = read; preferred_region = none }

abbrev pub write_request : String → PlacementRequest
write_request project_id = record {
  project_id = project_id;
  intent = write;
  preferred_region = none;
}

-- `InMemoryControlPlane::new`.
abbrev pub empty_control_plane : ControlPlaneState
empty_control_plane = record { projects = []; api_keys = []; workers = [] }

unfoldable pub upsert_project :
    ProjectCatalogEntry → ControlPlaneState → Outcome Unit × ControlPlaneState
upsert_project p s = (ok tt, record s { projects = insert p.project_id p s.projects })

unfoldable pub project : String → ControlPlaneState → Outcome ProjectCatalogEntry
project project_id s = ok_or (get project_id s.projects) (project_not_found project_id)

abbrev registered :
    String
    → ApiKeyRecord
    → ControlPlaneState
    → Outcome ProjectCatalogEntry
    → Outcome Unit × ControlPlaneState
registered api_key r s (err e) = (err e, s)
registered api_key r s (ok p) = (ok tt, record s { api_keys = insert api_key r s.api_keys })

unfoldable pub register_api_key :
    String → ApiKeyRecord → ControlPlaneState → Outcome Unit × ControlPlaneState
unfolding project
register_api_key api_key r s = registered api_key r s (project r.project_id s)

abbrev pub route_of : ApiKeyRecord → ApiKeyRoute
route_of r = record {
  project_id = r.project_id;
  key_id = r.key_id;
  kind = r.kind;
  service_role = is_service_role r.kind;
  browser_safe = is_browser_safe r.kind;
}

unfoldable pub resolve_api_key : String → ControlPlaneState → Outcome ApiKeyRoute
unfolding get
resolve_api_key api_key s = do
  r ← ok_or (get api_key s.api_keys) api_key_not_found
  _ ← ok_or (get r.project_id s.projects) (project_not_found r.project_id)
  ok (route_of r)

unfoldable pub register_worker :
    WorkerEndpoint → ControlPlaneState → Outcome Unit × ControlPlaneState
register_worker endpoint s =
    (ok tt, record s { workers = insert endpoint.worker_id endpoint s.workers })

unfoldable pub set_worker_health :
    String → Bool → ControlPlaneState → Outcome Unit × ControlPlaneState
set_worker_health worker_id healthy s = elim (get worker_id s.workers) [
  | none ↦ (err (worker_not_found worker_id), s)
  | some w ↦ (
    ok tt,
    record s { workers = update worker_id (λ e. record e { healthy = healthy }) s.workers },
  )
]
