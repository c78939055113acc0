-- ===== src/Control/Steps.antt =====
-- The control plane as its operations leave it.
use serverless_db.Base.{
  ◌≡◌, refl, ◌∙◌, subst, inl, inr, arith, String, Bool, some, str_eq, eq_iff, Bool-cases,
  Option-cases,
}
use serverless_db.Fallible.{ok, ok_or, ◌>>=◌}
use serverless_db.TreeMap.{get, insert, update}
use serverless_db.TreeMap.Laws.{get-insert, get-update}
use serverless_db.Control.{
  ProjectCatalogEntry, ApiKeyRecord, WorkerEndpoint, ControlPlaneState, api_key_not_found,
  empty_control_plane, upsert_project, project, register_api_key, route_of, resolve_api_key,
  register_worker, set_worker_health,
}

-- One operation, whether or not it succeeds.
pub data Step : ControlPlaneState → ControlPlaneState → Type 0 where
  upserts : {s : ControlPlaneState} (p : ProjectCatalogEntry) → Step s (upsert_project p s).1
  registers_key :
      {s : ControlPlaneState} (api_key : String) (r : ApiKeyRecord)
      → Step s (register_api_key api_key r s).1
  registers_worker : {s : ControlPlaneState} (e : WorkerEndpoint) → Step s (register_worker e s).1
  sets_health :
      {s : ControlPlaneState} (worker_id : String) (healthy : Bool)
      → Step s (set_worker_health worker_id healthy s).1

pub data IsReachable : ControlPlaneState → Type 0 where
  start : IsReachable empty_control_plane
  after : {s t : ControlPlaneState} → IsReachable s → Step s t → IsReachable t

-- Entries stand under their own names, and a key belongs to a project that is there.
pub record IsConsistent (s : ControlPlaneState) : Type 0 where
  pub projects :
      (k : String) (p : ProjectCatalogEntry) → get k s.projects ≡ some p → p.project_id ≡ k
  pub workers : (k : String) (e : WorkerEndpoint) → get k s.workers ≡ some e → e.worker_id ≡ k
  pub keys :
      (k : String) (r : ApiKeyRecord)
      → get k s.api_keys ≡ some r
      → (p : ProjectCatalogEntry) × (get r.project_id s.projects ≡ some p)

with_key-IsConsistent :
    (s : ControlPlaneState) (api_key : String) (r : ApiKeyRecord) (p : ProjectCatalogEntry)
    → get r.project_id s.projects ≡ some p
    → IsConsistent s
    → IsConsistent (record s { api_keys = insert api_key r s.api_keys })
with_key-IsConsistent s api_key r p q c = record {
  projects = c.projects;
  workers = c.workers;
  keys = λ k x h. elim (Bool-cases (str_eq api_key k)) [
    | inl e ↦
        let same : r ≡ x = ground (arith, get-insert k api_key r s.api_keys, e, h) in
        subst (λ y. (z : ProjectCatalogEntry) × (get y.project_id s.projects ≡ some z)) same (p, q)
    | inr e ↦ c.keys k x (ground (arith, get-insert k api_key r s.api_keys, e, h))
  ];
}

with_health-IsConsistent :
    (s : ControlPlaneState) (worker_id : String) (healthy : Bool)
    → IsConsistent s
    → IsConsistent
        (record s { workers = update worker_id (λ e. record e { healthy = healthy }) s.workers })
with_health-IsConsistent s worker_id healthy c = record {
  projects = c.projects;
  workers = λ k e h. elim (Option-cases (get k s.workers)) [
    | inl q ↦ absurd (
        ground
          (arith, get-update k worker_id (λ e. record e { healthy = healthy }) s.workers, q, h))
    | inr (x, q) ↦ ground (
      arith,
      get-update k worker_id (λ e. record e { healthy = healthy }) s.workers,
      q,
      h,
      c.workers k x q,
    )
  ];
  keys = c.keys;
}

Step-IsConsistent : {s t : ControlPlaneState} → Step s t → IsConsistent s → IsConsistent t
unfolding upsert_project register_api_key register_worker set_worker_health project
Step-IsConsistent {s} (upserts p) c = record {
  projects = λ k q h.
      ground
        (arith, get-insert k p.project_id p s.projects, eq_iff p.project_id k, c.projects k q, h);
  workers = c.workers;
  keys = λ k r h. elim (Bool-cases (str_eq p.project_id r.project_id)) [
    | inl e ↦ (p, get-insert r.project_id p.project_id p s.projects ∙ rw e refl)
    | inr e ↦
        let (q, g) = c.keys k r h in (q, get-insert r.project_id p.project_id p s.projects ∙ rw e g)
  ];
}
Step-IsConsistent {s} (registers_worker e) c = record {
  projects = c.projects;
  workers = λ k q h.
      ground (arith, get-insert k e.worker_id e s.workers, eq_iff e.worker_id k, c.workers k q, h);
  keys = c.keys;
}
Step-IsConsistent {s} (registers_key api_key r) c =
    elim (Option-cases (get r.project_id s.projects)) [
      | inl q ↦ subst IsConsistent (ground (arith, q)) c
      | inr (p, q) ↦
          subst IsConsistent (ground (arith, q)) (with_key-IsConsistent s api_key r p q c)
    ]
Step-IsConsistent {s} (sets_health worker_id healthy) c =
    elim (Option-cases (get worker_id s.workers)) [
      | inl q ↦ subst IsConsistent (ground (arith, q)) c
      | inr (e, q) ↦
          subst IsConsistent (ground (arith, q)) (with_health-IsConsistent s worker_id healthy c)
    ]

-- After any operations, in whatever order and whether or not they succeed, each project and each
-- worker stands under its own id, and each API key belongs to a project of the catalog.
pub IsReachable-IsConsistent : (s : ControlPlaneState) → IsReachable s → IsConsistent s
unfolding get
IsReachable-IsConsistent _ start = record {
  projects = λ k p h. absurd cc;
  workers = λ k e h. absurd cc;
  keys = λ k r h. absurd cc;
}
IsReachable-IsConsistent _ (after r step) = Step-IsConsistent step (IsReachable-IsConsistent _ r)

-- In every state that operations lead to, an API key resolves to the route of its record, and only a
-- key that is not registered fails to: the check that its project exists never fails.
pub resolve_api_key_complete :
    (s : ControlPlaneState) (api_key : String)
    → IsReachable s
    → resolve_api_key api_key s
      ≡ (ok_or (get api_key s.api_keys) api_key_not_found >>= λ r. ok (route_of r))
unfolding resolve_api_key
resolve_api_key_complete s api_key h = elim (Option-cases (get api_key s.api_keys)) [
  | inl q ↦ ground (arith, q)
  | inr (r, q) ↦
      let (p, g) = (IsReachable-IsConsistent s h).keys api_key r q in ground (arith, q, g)
]
