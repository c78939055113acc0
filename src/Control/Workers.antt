-- ===== src/Control/Workers.antt =====
-- The choice of a worker among the healthy ones.
use mathlib.Core.List.{Memᴰ}
use serverless_db.Base.{
  ◌≡◌, refl, sym, ap, ◌∙◌, subst, inl, inr, arith, String, Bool, true, false, ◌&&◌, Option, none,
  some, List, [], ◌∷◌, find, any, str_eq, ◌⊎◌, Bool-cases, Option-cases, if◌then◌else◌,
}
use serverless_db.TreeMap.{TreeMap, get}
use serverless_db.Control.{WorkerEndpoint}
use serverless_db.Control.Decision.{
  healthy_worker, if_healthy, in_region, choose_endpoint, first, healthy_workers, healthy_among,
  can_wake,
}

-- In the preferred region, if there is one.
abbrev pub is_wanted : Option String → WorkerEndpoint → Bool
is_wanted none e = false
is_wanted (some region) e = if str_eq region "" then false else in_region region e

-- One of the endpoints, in the preferred region exactly if any of them is.
pub record IsChosen (endpoints : List WorkerEndpoint) (preferred_region : Option String)
    (e : WorkerEndpoint) : Type 0 where
  pub member : Memᴰ e endpoints
  pub wanted : is_wanted preferred_region e ≡ any (is_wanted preferred_region) endpoints

none_wanted : (endpoints : List WorkerEndpoint) → any (λ e. false) endpoints ≡ false
none_wanted [] = refl
none_wanted (e ∷ endpoints) = none_wanted endpoints

first-Memᴰ :
    (endpoints : List WorkerEndpoint) (e : WorkerEndpoint)
    → first endpoints ≡ some e
    → Memᴰ e endpoints
first-Memᴰ [] e h = cc
first-Memᴰ (x ∷ endpoints) e h = Memᴰ.head cc

find_sound :
    (p : WorkerEndpoint → Bool) (endpoints : List WorkerEndpoint) (e : WorkerEndpoint)
    → find p endpoints ≡ some e
    → Memᴰ e endpoints × (p e ≡ true) × (any p endpoints ≡ true)
find_sound p [] e h = cc
find_sound p (x ∷ endpoints) e h = elim (Bool-cases (p x)) [
  | inl q ↦
      let same : e ≡ x = ground (arith, q, h) in
      (Memᴰ.head same, subst (λ y. p y ≡ true) (sym same) q, rw q refl)
  | inr q ↦
      let (m, y, a) = find_sound p endpoints e (rw q at h) in (Memᴰ.tail m, y, ground (arith, a))
]

find-none :
    (p : WorkerEndpoint → Bool) (endpoints : List WorkerEndpoint)
    → find p endpoints ≡ none
    → any p endpoints ≡ false
find-none p [] h = refl
find-none p (x ∷ endpoints) h = elim (Bool-cases (p x)) [
  | inl q ↦ absurd (ground (arith, q, h))
  | inr q ↦ let r = find-none p endpoints (rw q at h) in ground (arith, q, r)
]

none_of :
    (p : WorkerEndpoint → Bool) (endpoints : List WorkerEndpoint) (e : WorkerEndpoint)
    → any p endpoints ≡ false
    → Memᴰ e endpoints
    → p e ≡ false
none_of p [] e h m = elim m [ ]
none_of p (x ∷ endpoints) e h (Memᴰ.head q) = ap p q ∙ ground (arith, h)
none_of p (x ∷ endpoints) e h (Memᴰ.tail m) = none_of p endpoints e (ground (arith, h)) m

first-IsChosen :
    (endpoints : List WorkerEndpoint) (preferred_region : Option String) (e : WorkerEndpoint)
    → any (is_wanted preferred_region) endpoints ≡ false
    → first endpoints ≡ some e
    → IsChosen endpoints preferred_region e
first-IsChosen endpoints preferred_region e n h =
    let m = first-Memᴰ endpoints e h in
    record { member = m; wanted = none_of (is_wanted preferred_region) endpoints e n m ∙ sym n }

any-is_wanted :
    (region : String) (endpoints : List WorkerEndpoint) (b : Bool)
    → any (λ e. if b then false else in_region region e) endpoints
      ≡ (if b then false else any (in_region region) endpoints)
any-is_wanted region endpoints true = none_wanted endpoints
any-is_wanted region endpoints false = refl

pub choose_endpoint-IsChosen :
    (endpoints : List WorkerEndpoint) (preferred_region : Option String) (e : WorkerEndpoint)
    → choose_endpoint endpoints preferred_region ≡ some e
    → IsChosen endpoints preferred_region e
unfolding choose_endpoint
choose_endpoint-IsChosen endpoints none e h =
    first-IsChosen endpoints none e (none_wanted endpoints) h
choose_endpoint-IsChosen endpoints (some region) e h = elim (Bool-cases (str_eq region "")) [
  | inl q ↦
      let nothing : any (is_wanted (some region)) endpoints ≡ false =
        any-is_wanted region endpoints (str_eq region "") ∙ rw q refl in
      first-IsChosen endpoints (some region) e nothing (rw q at h)
  | inr q ↦ elim (Option-cases (find (in_region region) endpoints)) [
    | inl r ↦
        let nothing : any (is_wanted (some region)) endpoints ≡ false =
          any-is_wanted region endpoints (str_eq region "")
          ∙ rw q (find-none (in_region region) endpoints r) in
        first-IsChosen endpoints (some region) e nothing (ground (arith, q, r, h))
    | inr (x, r) ↦
        let (m, y, a) = find_sound (in_region region) endpoints e (ground (arith, q, r, h)) in
        let here : is_wanted (some region) e ≡ true = rw q y in
        let there : any (is_wanted (some region)) endpoints ≡ true =
          any-is_wanted region endpoints (str_eq region "") ∙ rw q a in
        record { member = m; wanted = here ∙ sym there }
  ]
]

-- A worker that is registered under an id, and healthy.
pub record IsUp (workers : TreeMap WorkerEndpoint) (worker_id : String) (e : WorkerEndpoint)
    : Type 0 where
  pub registered : get worker_id workers ≡ some e
  pub healthy : e.healthy ≡ true

pub healthy_worker-IsUp :
    (workers : TreeMap WorkerEndpoint) (worker_id : String) (e : WorkerEndpoint)
    → healthy_worker workers worker_id ≡ some e
    → IsUp workers worker_id e
unfolding healthy_worker
healthy_worker-IsUp workers worker_id e h = elim (Option-cases (get worker_id workers)) [
  | inl q ↦ absurd (ground (arith, q, h))
  | inr (x, q) ↦ elim (Bool-cases x.healthy) [
    | inl r ↦
        let same : x ≡ e = ground (arith, q, r, h) in
        subst (IsUp workers worker_id) same (record { registered = q; healthy = r })
    | inr r ↦ absurd (ground (arith, q, r, h))
  ]
]

pub healthy_workers-IsUp :
    (workers : TreeMap WorkerEndpoint) (worker_ids : List String) (e : WorkerEndpoint)
    → Memᴰ e (healthy_workers workers worker_ids)
    → (worker_id : String) × Memᴰ worker_id worker_ids × IsUp workers worker_id e
unfolding healthy_workers
healthy_workers-IsUp workers [] e m = elim m [ ]
healthy_workers-IsUp workers (w ∷ worker_ids) e m = elim (Option-cases (healthy_worker workers w)) [
  | inl q ↦ later (
      healthy_workers-IsUp workers worker_ids e
        (subst (λ o. Memᴰ e (healthy_among o (healthy_workers workers worker_ids))) q m))
  | inr (x, q) ↦
      elim (subst (λ o. Memᴰ e (healthy_among o (healthy_workers workers worker_ids))) q m) [
        | Memᴰ.head same ↦
            (w, Memᴰ.head refl, healthy_worker-IsUp workers w e (q ∙ ap some (sym same)))
        | Memᴰ.tail n ↦ later (healthy_workers-IsUp workers worker_ids e n)
      ]
]
  where
    later :
        (worker_id : String) × Memᴰ worker_id worker_ids × IsUp workers worker_id e
        → (worker_id : String) × Memᴰ worker_id (w ∷ worker_ids) × IsUp workers worker_id e
    later (i, n, up) = (i, Memᴰ.tail n, up)

pub can_wake_sound :
    (endpoints : List WorkerEndpoint) (e : WorkerEndpoint)
    → Memᴰ e (can_wake endpoints)
    → Memᴰ e endpoints × (e.healthy ≡ true) × (e.can_start_cold_project ≡ true)
unfolding can_wake
can_wake_sound [] e m = elim m [ ]
can_wake_sound (x ∷ endpoints) e m = elim (Bool-cases (x.healthy && x.can_start_cold_project)) [
  | inr q ↦ let (n, a, b) = can_wake_sound endpoints e (rw q at m) in (Memᴰ.tail n, a, b)
  | inl q ↦ elim (rw q at m) [
    | Memᴰ.head same ↦ (Memᴰ.head same, ground arith, ground arith)
    | Memᴰ.tail r ↦ let (n, a, b) = can_wake_sound endpoints e r in (Memᴰ.tail n, a, b)
  ]
]

pub choose_endpoint-none :
    (endpoints : List WorkerEndpoint) (preferred_region : Option String)
    → choose_endpoint endpoints preferred_region ≡ none
    → endpoints ≡ []
unfolding choose_endpoint
choose_endpoint-none [] preferred_region h = refl
choose_endpoint-none (x ∷ endpoints) none h = cc
choose_endpoint-none (x ∷ endpoints) (some region) h = elim (Bool-cases (str_eq region "")) [
  | inl q ↦ absurd (ground (arith, q, h))
  | inr q ↦ elim (Option-cases (find (in_region region) (x ∷ endpoints))) [
    | inl r ↦ absurd (ground (arith, q, r, h))
    | inr (y, r) ↦ absurd (ground (arith, q, r, h))
  ]
]

-- Every worker that is up comes into question.
pub healthy_workers-complete :
    (workers : TreeMap WorkerEndpoint) (worker_ids : List String) (worker_id : String)
    (e : WorkerEndpoint)
    → Memᴰ worker_id worker_ids
    → IsUp workers worker_id e
    → Memᴰ e (healthy_workers workers worker_ids)
unfolding healthy_workers
healthy_workers-complete workers [] worker_id e m up = elim m [ ]
healthy_workers-complete workers (w ∷ worker_ids) worker_id e (Memᴰ.head same) up =
    let found : healthy_worker workers w ≡ some e =
      unfold healthy_worker in
      ap (λ i. if_healthy (get i workers)) (sym same)
      ∙ ap if_healthy up.registered
      ∙ rw up.healthy refl in
    subst (λ o. Memᴰ e (healthy_among o (healthy_workers workers worker_ids))) (sym found)
      (Memᴰ.head refl)
healthy_workers-complete workers (w ∷ worker_ids) worker_id e (Memᴰ.tail m) up =
    behind (healthy_worker workers w) (healthy_workers-complete workers worker_ids worker_id e m up)
  where
    behind :
        (o : Option WorkerEndpoint)
        → Memᴰ e (healthy_workers workers worker_ids)
        → Memᴰ e (healthy_among o (healthy_workers workers worker_ids))
    behind none n = n
    behind (some x) n = Memᴰ.tail n

pub can_wake-complete :
    (endpoints : List WorkerEndpoint) (e : WorkerEndpoint)
    → Memᴰ e endpoints
    → e.healthy ≡ true
    → e.can_start_cold_project ≡ true
    → Memᴰ e (can_wake endpoints)
unfolding can_wake
can_wake-complete [] e m a b = elim m [ ]
can_wake-complete (x ∷ endpoints) e (Memᴰ.head same) a b =
    let both : (x.healthy && x.can_start_cold_project) ≡ true =
      subst (λ (y : WorkerEndpoint). (y.healthy && y.can_start_cold_project) ≡ true) same
        (ground (arith, a, b)) in
    rw both (Memᴰ.head same)
can_wake-complete (x ∷ endpoints) e (Memᴰ.tail m) a b =
    let n = can_wake-complete endpoints e m a b in
    elim (Bool-cases (x.healthy && x.can_start_cold_project)) [
      | inl q ↦ rw q (Memᴰ.tail n)
      | inr q ↦ rw q n
    ]

-- A chosen worker is in the preferred region, or no worker that comes into question is.
pub IsChosen-best :
    (endpoints : List WorkerEndpoint) (preferred_region : Option String) (e : WorkerEndpoint)
    → IsChosen endpoints preferred_region e
    → (is_wanted preferred_region e ≡ true)
      ⊎ ((x : WorkerEndpoint) → Memᴰ x endpoints → is_wanted preferred_region x ≡ false)
IsChosen-best endpoints preferred_region e h = elim (Bool-cases (is_wanted preferred_region e)) [
  | inl q ↦ inl q
  | inr q ↦ inr (λ x m. none_of (is_wanted preferred_region) endpoints x (sym h.wanted ∙ q) m)
]
