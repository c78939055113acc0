-- ===== src/Control/Placement.antt =====
-- Where a request is placed.
use mathlib.Core.List.{Memᴰ}
use serverless_db.Base.{
  ◌≡◌, ◌⊎◌, refl, subst, inl, inr, arith, String, true, false, Option, some, List, [], Option-cases,
}
use serverless_db.Fallible.{ok, Fallible-cases}
use serverless_db.TreeMap.{TreeMap, get, values}
use serverless_db.Control.{
  ProjectServingState, active, cold, ProjectCatalogEntry, WorkerEndpoint, PlacementIntent, read,
  write, PlacementRequest, primary, replica, PlacementAction, route, wake_project,
  PlacementDecision, ControlPlaneState,
}
use serverless_db.Control.Decision.{
  healthy_worker, choose_endpoint, healthy_workers, choose_worker, can_wake,
  choose_cold_start_worker, place, ◌or◌, decide_placement,
}
use serverless_db.Control.Workers.{
  is_wanted, IsUp, IsChosen, IsChosen-best, healthy_workers-complete, can_wake-complete,
  choose_endpoint-IsChosen, healthy_worker-IsUp, healthy_workers-IsUp, can_wake_sound,
  choose_endpoint-none,
}

-- What a placement may do for a project, by how it is served: write to a primary that is up, read from
-- a replica that is up or, where none is, from such a primary, and wake it on a worker that can.
pub data IsPlacement (workers : TreeMap WorkerEndpoint) (request : PlacementRequest)
    (p : ProjectCatalogEntry) : ProjectServingState → PlacementAction → Type 0 where
  writes :
      (primary_worker_id : String) (replica_worker_ids : List String) (e : WorkerEndpoint)
      → request.intent ≡ write
      → IsUp workers primary_worker_id e
      → IsPlacement workers request p
          (active primary_worker_id replica_worker_ids)
          (route e primary)
  reads_replica :
      (primary_worker_id : String) (replica_worker_ids : List String) (worker_id : String)
      (e : WorkerEndpoint)
      → request.intent ≡ read
      → Memᴰ worker_id replica_worker_ids
      → IsUp workers worker_id e
      → (is_wanted request.preferred_region e ≡ true)
        ⊎ ((i : String) (x : WorkerEndpoint)
            → Memᴰ i replica_worker_ids
            → IsUp workers i x
            → is_wanted request.preferred_region x ≡ false)
      → IsPlacement workers request p
          (active primary_worker_id replica_worker_ids)
          (route e replica)
  reads_primary :
      (primary_worker_id : String) (replica_worker_ids : List String) (e : WorkerEndpoint)
      → request.intent ≡ read
      → ((i : String) (x : WorkerEndpoint) → Memᴰ i replica_worker_ids → ¬ IsUp workers i x)
      → IsUp workers primary_worker_id e
      → IsPlacement workers request p
          (active primary_worker_id replica_worker_ids)
          (route e primary)
  wakes :
      (wakeup_region : Option String) (e : WorkerEndpoint)
      → Memᴰ e (values workers)
      → e.healthy ≡ true
      → e.can_start_cold_project ≡ true
      → (is_wanted (request.preferred_region or wakeup_region or p.default_region) e ≡ true)
        ⊎ ((x : WorkerEndpoint)
            → Memᴰ x (values workers)
            → x.healthy ≡ true
            → x.can_start_cold_project ≡ true
            → is_wanted (request.preferred_region or wakeup_region or p.default_region) x ≡ false)
      → IsPlacement workers request p (cold wakeup_region) (wake_project e)

module _ (workers : TreeMap WorkerEndpoint) (request : PlacementRequest)
    (p : ProjectCatalogEntry) where
  none-IsUp :
      (worker_ids : List String)
      → healthy_workers workers worker_ids ≡ []
      → (i : String) (x : WorkerEndpoint) → Memᴰ i worker_ids
      → ¬ IsUp workers i x
  none-IsUp worker_ids h i x m up =
      elim (subst (Memᴰ x) h (healthy_workers-complete workers worker_ids i x m up)) [ ]

  best_replica :
      (worker_ids : List String) (e : WorkerEndpoint)
      → IsChosen (healthy_workers workers worker_ids) request.preferred_region e
      → (is_wanted request.preferred_region e ≡ true)
        ⊎ ((i : String) (x : WorkerEndpoint)
            → Memᴰ i worker_ids
            → IsUp workers i x
            → is_wanted request.preferred_region x ≡ false)
  best_replica worker_ids e c =
      elim (IsChosen-best (healthy_workers workers worker_ids) request.preferred_region e c) [
        | inl q ↦ inl q
        | inr q ↦ inr (λ i x m up. q x (healthy_workers-complete workers worker_ids i x m up))
      ]

  best_wake :
      (wanted : Option String) (e : WorkerEndpoint)
      → IsChosen (can_wake (values workers)) wanted e
      → (is_wanted wanted e ≡ true)
        ⊎ ((x : WorkerEndpoint)
            → Memᴰ x (values workers)
            → x.healthy ≡ true
            → x.can_start_cold_project ≡ true
            → is_wanted wanted x ≡ false)
  best_wake wanted e c = elim (IsChosen-best (can_wake (values workers)) wanted e c) [
    | inl q ↦ inl q
    | inr q ↦ inr (λ x m a b. q x (can_wake-complete (values workers) x m a b))
  ]

  place-IsPlacement :
      (serving : ProjectServingState) (intent : PlacementIntent) (action : PlacementAction)
      → request.intent ≡ intent
      → place workers p request serving intent ≡ ok action
      → IsPlacement workers request p serving action
  unfolding place choose_worker choose_cold_start_worker
  place-IsPlacement (active primary_worker_id replica_worker_ids) write action i h =
      elim (Option-cases (healthy_worker workers primary_worker_id)) [
        | inl q ↦ absurd (ground (arith, q, h))
        | inr (e, q) ↦
            let same : route e primary ≡ action = ground (arith, q, h) in
            subst (IsPlacement workers request p (active primary_worker_id replica_worker_ids)) same
              (writes primary_worker_id replica_worker_ids e i
                (healthy_worker-IsUp workers primary_worker_id e q))
      ]
  place-IsPlacement (active primary_worker_id replica_worker_ids) read action i h =
      let candidates = healthy_workers workers replica_worker_ids in
      elim (Option-cases (choose_endpoint candidates request.preferred_region)) [
        | inr (e, q) ↦
            let same : route e replica ≡ action = ground (arith, q, h) in
            let c = choose_endpoint-IsChosen candidates request.preferred_region e q in
            let (w, m, up) = healthy_workers-IsUp workers replica_worker_ids e c.member in
            subst (IsPlacement workers request p (active primary_worker_id replica_worker_ids)) same
              (reads_replica primary_worker_id replica_worker_ids w e i m up
                (best_replica replica_worker_ids e c))
        | inl q ↦ elim (Option-cases (healthy_worker workers primary_worker_id)) [
          | inl r ↦ absurd (ground (arith, q, r, h))
          | inr (e, r) ↦
              let same : route e primary ≡ action = ground (arith, q, r, h) in
              subst (IsPlacement workers request p (active primary_worker_id replica_worker_ids))
                same
                (reads_primary primary_worker_id replica_worker_ids e i
                  (none-IsUp replica_worker_ids
                    (choose_endpoint-none candidates request.preferred_region q))
                  (healthy_worker-IsUp workers primary_worker_id e r))
        ]
      ]
  place-IsPlacement (cold wakeup_region) intent action i h =
      let wanted = request.preferred_region or wakeup_region or p.default_region in
      elim (Option-cases (choose_endpoint (can_wake (values workers)) wanted)) [
        | inl q ↦ absurd (ground (arith, q, h))
        | inr (e, q) ↦
            let same : wake_project e ≡ action = ground (arith, q, h) in
            let c = choose_endpoint-IsChosen (can_wake (values workers)) wanted e q in
            let (m, a, b) = can_wake_sound (values workers) e c.member in
            subst (IsPlacement workers request p (cold wakeup_region)) same
              (wakes wakeup_region e m a b (best_wake wanted e c))
      ]

-- A request is placed where its project says: a write goes only to the primary; a read goes to a
-- replica of the project, and to the primary only where no replica is healthy; a cold project is woken
-- on a worker that can. Each worker is registered and healthy, and in the preferred region unless no
-- healthy one of those that come into question is.
pub decide_placement-IsPlacement :
    (request : PlacementRequest) (s : ControlPlaneState) (d : PlacementDecision)
    → decide_placement request s ≡ ok d
    → (p : ProjectCatalogEntry) × (get request.project_id s.projects ≡ some p)
      × (d.project_state ≡ p.serving_state)
      × IsPlacement s.workers request p p.serving_state d.action
unfolding decide_placement
decide_placement-IsPlacement request s d h =
    elim (Option-cases (get request.project_id s.projects)) [
      | inl q ↦ absurd (ground (arith, q, h))
      | inr (p, q) ↦
          elim (Fallible-cases (place s.workers p request p.serving_state request.intent)) [
            | inr (e, r) ↦ absurd (ground (arith, q, r, h))
            | inl (a, r) ↦
                let same : a ≡ d.action = ground (arith, q, r, h) in
                (
                  p,
                  q,
                  ground (arith, q, r, h),
                  subst (IsPlacement s.workers request p p.serving_state) same (
                      place-IsPlacement s.workers request p p.serving_state request.intent a refl
                        r),
                )
          ]
    ]
