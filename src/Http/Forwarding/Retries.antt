-- ===== src/Http/Forwarding/Retries.antt =====
-- A forwarded request is answered after at most the configured number of attempts, and is repeated
-- only where that is safe.
use mathlib.Core.List.{append_assoc}
use serverless_db.Base.{
  ℕ, zero, suc, ◌+◌, ◌≤◌, ◌<◌, ◌≡◌, refl, arith, inl, inr, Bool, true, false, Bool-cases, some,
  String, List, [], ◌∷◌, ◌++◌,
}
use serverless_db.Error.{Result, ok, err}
use serverless_db.Forward.{Health}
use serverless_db.Http.{is_some}
use serverless_db.Http.Forwarding.{
  Method, Outgoing, Client, ForwardResponse, forward_retry_allowed, max_attempts_of,
  forward_attempts, should_retry_forward_response, should_retry_forward_error, forward_http_json,
  again, forward_loop, health_after, answer_of, forward_request,
}
use serverless_db.Types.{RuntimeOptions}

-- A request with its attempts numbered from `from`.
abbrev pub attempts : {U : Type 0} → Outgoing U → ℕ → ℕ → List (Outgoing U)
attempts request from zero = []
attempts request from (suc n) = record request { attempt = from } ∷ attempts request (from + 1) n

forward_attempts_bounds :
    (o : RuntimeOptions) (method : Method) (has_key : Bool)
    → (1 ≤ forward_attempts o method has_key)
      × (forward_attempts o method has_key ≤ max_attempts_of o)
      × (1 < forward_attempts o method has_key → forward_retry_allowed method has_key ≡ true)
unfolding forward_attempts max_attempts_of
forward_attempts_bounds o method has_key = ground arith

module _ (c : Client) where
  open c use {Url, Peer}

  again_below :
      (method : Method) (attempt max_attempts : ℕ) (reply : Result ForwardResponse)
      → again c method attempt max_attempts reply ≡ true
      → attempt < max_attempts
  unfolding should_retry_forward_response should_retry_forward_error
  again_below method attempt max_attempts (ok response) h = ground arith
  again_below method attempt max_attempts (err e) h = ground arith

  forward_loop_total :
      (fuel : ℕ) (request : Outgoing Url) (attempt max_attempts : ℕ) (w : Peer)
      (sent : List (Outgoing Url))
      → attempt ≤ max_attempts
      → max_attempts < attempt + fuel
      → (n : ℕ) × (reply : Result ForwardResponse) × (after : Peer) × (forward_loop c fuel request
            attempt max_attempts
            (w, sent)
          ≡ some (reply, (after, sent ++ attempts request attempt (suc n))))
        × (attempt + n ≤ max_attempts)
        × (again c request.method (attempt + n) max_attempts reply ≡ false)
  unfolding forward_loop
  forward_loop_total zero request attempt max_attempts w sent h k = absurd (omega arith)
  forward_loop_total (suc fuel) request attempt max_attempts w sent h k =
      let this : Outgoing Url = record request { attempt = attempt } in
      let reply : Result ForwardResponse = (forward_http_json c this (w, sent)).0 in
      elim (Bool-cases (again c request.method attempt max_attempts reply)) [
        | inr e ↦
            let z : attempt + 0 ≡ attempt = omega arith in
            (0, reply, (c.send this w).1, rw e refl, omega arith, rw z e)
        | inl e ↦
            let (n, r, after, run, le, last) =
              forward_loop_total fuel request (attempt + 1) max_attempts (c.send this w).1
                (sent ++ this ∷ [])
                (omega (arith, again_below request.method attempt max_attempts reply e))
                (omega arith) in
            let z : attempt + suc n ≡ attempt + 1 + n = omega arith in
            (
              suc n,
              r,
              after,
              rw e (
                  rw (append_assoc sent (this ∷ []) (attempts request (attempt + 1) (suc n))) at
                    run),
              omega (arith, le),
              rw z last,
            )
      ]

  -- A request that is forwarded is answered, whatever the other server does, after at most as many
  -- attempts as are configured. The attempts are the same request, the idempotency key with it, numbered
  -- from 1, and a second one is made only of a GET or HEAD request or of one with such a key. The last
  -- answer is the caller's, and no answer that would be tried again.
  pub forward_request_total :
      (o : RuntimeOptions) (now : ℕ) (endpoint : String) (request : Outgoing Url) (health : Health)
      (w : Peer)
      → (n : ℕ) × (reply : Result ForwardResponse) × (after : Peer) × (forward_request c o now
            endpoint request health
            (w, [])
          ≡ some (
            answer_of c reply,
            health_after c o now endpoint reply health,
            (after, attempts request 1 (suc n)),
          ))
        × (suc n ≤ max_attempts_of o)
        × (0 < n → forward_retry_allowed request.method (is_some request.key) ≡ true)
        × (again c request.method
              (suc n)
              (forward_attempts o request.method (is_some request.key))
              reply
            ≡ false)
  unfolding forward_request
  forward_request_total o now endpoint request health w =
      let m : ℕ = forward_attempts o request.method (is_some request.key) in
      let (n, reply, after, run, le, last) =
        forward_loop_total m request 1 m w []
          (forward_attempts_bounds o request.method (is_some request.key)).0 (omega arith) in
      let z : suc n ≡ 1 + n = omega arith in
      let (least, most, safe) = forward_attempts_bounds o request.method (is_some request.key) in
      (
        n,
        reply,
        after,
        rw (run, forward_request) refl,
        omega (arith, le, most),
        λ (more : 0 < n). safe (omega (arith, le, more)),
        rw z last,
      )
