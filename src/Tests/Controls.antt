-- ===== src/Tests/Controls.antt =====
-- The theorems on the control plane at concrete inputs.
use serverless_db.Base.{◌≡◌, refl, none, some, [], ◌∷◌}
use serverless_db.Fallible.{ok}
use serverless_db.TreeMap.{get, insert, text_ltb}
use serverless_db.Control.{
  ProjectCatalogEntry, WorkerEndpoint, ControlPlaneState, PlacementDecision, empty_control_plane,
  active_project, anon_key, new_worker, read_request, write_request, upsert_project,
  register_worker, register_api_key, project, route, replica,
}
use serverless_db.Control.Decision.{
  decide_placement, place, choose_worker, choose_endpoint, healthy_workers, healthy_worker,
}
use serverless_db.Control.Workers.{IsUp}
use serverless_db.Control.Placement.{IsPlacement, decide_placement-IsPlacement}
use serverless_db.Control.Available.{primary_up, decide_placement_available}
use serverless_db.Control.Steps.{
  IsReachable, start, after, upserts, registers_worker, registers_key, IsConsistent,
  IsReachable-IsConsistent,
}

abbrev demo : ProjectCatalogEntry
demo = active_project "demo" "/data" none "w1" ("w2" ∷ [])

abbrev eu : WorkerEndpoint
eu = new_worker "w2" (some "eu") "http://w2"

-- A project with a primary and a replica, and a key.
abbrev s1 : ControlPlaneState
s1 = (upsert_project demo empty_control_plane).1

abbrev s2 : ControlPlaneState
s2 = (register_worker (new_worker "w1" none "http://w1") s1).1

abbrev s3 : ControlPlaneState
s3 = (register_worker eu s2).1

abbrev s4 : ControlPlaneState
s4 = (register_api_key "anon-key" (anon_key "demo" "k1") s3).1

s4-IsReachable : IsReachable s4
s4-IsReachable =
    after
      (after
        (after (after start (upserts demo)) (registers_worker (new_worker "w1" none "http://w1")))
        (registers_worker eu))
      (registers_key "anon-key" (anon_key "demo" "k1"))

IsReachable-IsConsistent_example : IsConsistent s4
IsReachable-IsConsistent_example = IsReachable-IsConsistent s4 s4-IsReachable

abbrev to_replica : PlacementDecision
to_replica = record {
  project_id = "demo";
  project_state = demo.serving_state;
  action = route eu replica;
}

to_replica_decided : decide_placement (read_request "demo") s4 ≡ ok to_replica
unfolding decide_placement place choose_worker choose_endpoint healthy_workers healthy_worker get
    insert upsert_project register_worker register_api_key project text_ltb
to_replica_decided = refl

decide_placement-IsPlacement_example :
    (p : ProjectCatalogEntry) × (get "demo" s4.projects ≡ some p)
    × (demo.serving_state ≡ p.serving_state)
    × IsPlacement s4.workers (read_request "demo") p p.serving_state (route eu replica)
decide_placement-IsPlacement_example =
    decide_placement-IsPlacement (read_request "demo") s4 to_replica to_replica_decided

demo_listed : get "demo" s4.projects ≡ some demo
unfolding get insert upsert_project register_worker register_api_key project text_ltb
demo_listed = refl

w1-IsUp : IsUp s4.workers "w1" (new_worker "w1" none "http://w1")
unfolding get insert upsert_project register_worker register_api_key project text_ltb
w1-IsUp = record { registered = refl; healthy = refl }

decide_placement_available_example :
    (d : PlacementDecision) × (decide_placement (write_request "demo") s4 ≡ ok d)
decide_placement_available_example =
    decide_placement_available (write_request "demo") s4 demo demo_listed
      (primary_up "w1" ("w2" ∷ []) (new_worker "w1" none "http://w1") w1-IsUp)
