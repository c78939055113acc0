-- ===== src/Http/RateLimit/Window.antt =====
-- In no window of time are more requests of a client let through than the limit.
use mathlib.Core.List.{append_assoc, append-nil}
use serverless_db.Base.{
  ℕ, ◌+◌, ◌≤◌, ◌<◌, ◌≡◌, refl, sym, subst, ap, ◌∙◌, arith, inl, inr, true, false, ◌&&◌, Bool-cases,
  Text, List, [], ◌∷◌, ◌++◌, length, ltb, leb, if◌then◌else◌,
}
use serverless_db.Http.RateLimit.{
  RateLimiter, Buckets, bucket_of, set_bucket, recent, window_ms, check,
}
use serverless_db.Text.{text_eq}
use serverless_db.Text.Equality.{text_eq_iff}

-- How many times lie in the window that starts at `start`.
unfoldable pub count_within : ℕ → ℕ → List ℕ → ℕ
count_within window start [] = 0
count_within window start (t ∷ times) =
    (if leb start t && ltb t (start + window) then 1 else 0) + count_within window start times

count_within-append :
    (window start : ℕ) (xs ys : List ℕ)
    → count_within window start (xs ++ ys)
      ≡ count_within window start xs + count_within window start ys
unfolding count_within
count_within-append window start [] ys = omega arith
count_within-append window start (t ∷ xs) ys =
    ground (arith, count_within-append window start xs ys)

recent-append :
    (window now : ℕ) (xs ys : List ℕ)
    → recent window now (xs ++ ys) ≡ recent window now xs ++ recent window now ys
unfolding recent
recent-append window now [] ys = refl
recent-append window now (t ∷ xs) ys = ground (arith, recent-append window now xs ys)

-- What is recent later was recent before.
recent-recent :
    (window before now : ℕ) (xs : List ℕ)
    → before ≤ now
    → recent window now (recent window before xs) ≡ recent window now xs
unfolding recent
recent-recent window before now [] h = refl
recent-recent window before now (t ∷ xs) h = ground (arith, recent-recent window before now xs h)

count_within-le-recent :
    (window start now : ℕ) (xs : List ℕ)
    → start ≤ now
    → now < start + window
    → count_within window start xs ≤ length (recent window now xs)
unfolding count_within recent
count_within-le-recent window start now [] h k = omega arith
count_within-le-recent window start now (t ∷ xs) h k =
    ground (arith, count_within-le-recent window start now xs h k)

bucket_of-set_bucket :
    (key : Text) (times : List ℕ) (buckets : Buckets)
    → bucket_of key (set_bucket key times buckets) ≡ times
unfolding bucket_of set_bucket
bucket_of-set_bucket key times [] = rw ((text_eq_iff key key).1 refl) refl
bucket_of-set_bucket key times ((k, old) ∷ buckets) =
    ground (arith, bucket_of-set_bucket key times buckets)

bucket_of-set_bucket_ne :
    (key other : Text) (times : List ℕ) (buckets : Buckets)
    → text_eq key other ≡ false
    → bucket_of other (set_bucket key times buckets) ≡ bucket_of other buckets
unfolding bucket_of set_bucket
bucket_of-set_bucket_ne key other times [] h = rw h refl
bucket_of-set_bucket_ne key other times ((k, old) ∷ buckets) h = elim (Bool-cases (text_eq k key)) [
  | inl e ↦
      let e' : k ≡ key = (text_eq_iff k key).0 e in
      let n : text_eq k other ≡ false = rw e' h in ground (arith, e, n)
  | inr e ↦ ground (arith, bucket_of-set_bucket_ne key other times buckets h, e)
]

module _ (limiter : RateLimiter) where
  -- The times at which requests of the client `key` are let through.
  unfoldable pub granted : Text → Buckets → List (ℕ × Text) → List ℕ
  unfolding check
  granted key buckets [] = []
  granted key buckets ((now, k) ∷ requests) =
      let rest = granted key (check limiter now k buckets).1 requests in
      if text_eq k key && (check limiter now k buckets).0 then now ∷ rest else rest

  -- The requests come in the order of their times, none before `from`.
  abbrev pub AreOrdered : ℕ → List (ℕ × Text) → Type 0
  AreOrdered from [] = Unit {0}
  AreOrdered from ((now, k) ∷ requests) = (from ≤ now) × AreOrdered now requests

  -- What a bucket keeps is what counts of the times let through, now and later.
  Agrees : ℕ → List ℕ → List ℕ → Type 0
  Agrees from past entries =
      (now : ℕ)
      → from ≤ now
      → recent (window_ms limiter) now entries ≡ recent (window_ms limiter) now past

  AreWithinLimit : List ℕ → Type 0
  AreWithinLimit past =
      (start : ℕ) → count_within (window_ms limiter) start past ≤ limiter.max_requests

  recent-Agrees :
      (from now : ℕ) (past entries : List ℕ)
      → from ≤ now
      → Agrees from past entries
      → Agrees now past (recent (window_ms limiter) now entries)
  unfolding Agrees
  recent-Agrees from now past entries h a later k =
      recent-recent (window_ms limiter) now later entries k ∙ a later (omega (arith, h, k))

  append-Agrees :
      (now : ℕ) (past entries : List ℕ)
      → Agrees now past entries
      → Agrees now (past ++ now ∷ []) (entries ++ now ∷ [])
  unfolding Agrees
  append-Agrees now past entries a later k =
      let w : ℕ = window_ms limiter in
      rw
        (recent-append w later entries (now ∷ []), recent-append w later past (now ∷ []), a later k)
        refl

  append-AreWithinLimit :
      (now : ℕ) (past : List ℕ)
      → length (recent (window_ms limiter) now past) < limiter.max_requests
      → AreWithinLimit past
      → AreWithinLimit (past ++ now ∷ [])
  unfolding AreWithinLimit count_within
  append-AreWithinLimit now past h b start =
      let w : ℕ = window_ms limiter in
      ground (
        arith,
        count_within-append w start past (now ∷ []),
        count_within-le-recent w start now past,
        b start,
      )

  entries_now : ℕ → Text → Buckets → List ℕ
  entries_now now key buckets = recent (window_ms limiter) now (bucket_of key buckets)

  check-denied :
      (now : ℕ) (key k : Text) (buckets : Buckets)
      → k ≡ key
      → leb limiter.max_requests (length (entries_now now key buckets)) ≡ true
      → check limiter now k buckets ≡ (false, set_bucket key (entries_now now key buckets) buckets)
  unfolding check entries_now
  check-denied now key k buckets e h = rw e (rw h refl)

  check-granted :
      (now : ℕ) (key k : Text) (buckets : Buckets)
      → k ≡ key
      → leb limiter.max_requests (length (entries_now now key buckets)) ≡ false
      → check limiter now k buckets
        ≡ (true, set_bucket key (entries_now now key buckets ++ now ∷ []) buckets)
  unfolding check entries_now
  check-granted now key k buckets e h = rw e (rw h refl)

  bucket_of-check_ne :
      (now : ℕ) (key k : Text) (buckets : Buckets)
      → text_eq k key ≡ false
      → bucket_of key (check limiter now k buckets).1 ≡ bucket_of key buckets
  unfolding check
  bucket_of-check_ne now key k buckets h =
      let entries : List ℕ = recent (window_ms limiter) now (bucket_of k buckets) in
      ground (
        arith,
        bucket_of-set_bucket_ne k key entries buckets h,
        bucket_of-set_bucket_ne k key (entries ++ now ∷ []) buckets h,
      )

  entries_now-Agrees :
      (from now : ℕ) (key : Text) (past : List ℕ) (buckets : Buckets)
      → from ≤ now
      → Agrees from past (bucket_of key buckets)
      → Agrees now past (entries_now now key buckets)
  unfolding entries_now
  entries_now-Agrees from now key past buckets = recent-Agrees from now past (bucket_of key buckets)

  length-entries_now :
      (from now : ℕ) (key : Text) (past : List ℕ) (buckets : Buckets)
      → from ≤ now
      → Agrees from past (bucket_of key buckets)
      → leb limiter.max_requests (length (entries_now now key buckets)) ≡ false
      → length (recent (window_ms limiter) now past) < limiter.max_requests
  unfolding entries_now Agrees
  length-entries_now from now key past buckets h a e =
      let q = ap length (a now h) in ground (arith, q, e)

  granted-AreWithinLimit :
      (key : Text) (requests : List (ℕ × Text)) (from : ℕ) (past : List ℕ) (buckets : Buckets)
      → AreOrdered from requests
      → Agrees from past (bucket_of key buckets)
      → AreWithinLimit past
      → AreWithinLimit (past ++ granted key buckets requests)
  unfolding granted Agrees
  granted-AreWithinLimit key [] from past buckets o a b = rw (append-nil past) b
  granted-AreWithinLimit key ((now, k) ∷ requests) from past buckets (h, o) a b =
      elim (Bool-cases (text_eq k key)) [
        | inr e ↦
            let a' = subst (Agrees from past) (sym (bucket_of-check_ne now key k buckets e)) a in
            rw e (
              granted-AreWithinLimit key requests now past (check limiter now k buckets).1 o
                (λ later l. a' later (omega (arith, h, l))) b)
        | inl e ↦
            let same = (text_eq_iff k key).0 e in
            let entries : List ℕ = entries_now now key buckets in
            let kept = entries_now-Agrees from now key past buckets h a in
            elim (Bool-cases (leb limiter.max_requests (length entries))) [
              | inl d ↦
                  rw (e, check-denied now key k buckets same d)
                    (granted-AreWithinLimit key requests now past (set_bucket key entries buckets) o
                      (subst (Agrees now past) (sym (bucket_of-set_bucket key entries buckets))
                        kept)
                      b)
              | inr d ↦
                  let more : List ℕ = entries ++ now ∷ [] in
                  rw (e, check-granted now key k buckets same d)
                    (rw
                      (← append_assoc past (now ∷ [])
                        (granted key (set_bucket key more buckets) requests))
                      (granted-AreWithinLimit key requests now (past ++ now ∷ [])
                        (set_bucket key more buckets) o
                        (subst (Agrees now (past ++ now ∷ []))
                          (sym (bucket_of-set_bucket key more buckets))
                          (append-Agrees now past entries kept))
                        (append-AreWithinLimit now past
                          (length-entries_now from now key past buckets h a d) b)))
            ]
      ]

  -- Of the requests of one client, whatever others ask in between, no more than the limit are let
  -- through in any window of time. (The clock does not go back.)
  pub granted_bounded :
      (key : Text) (requests : List (ℕ × Text)) (from start : ℕ)
      → AreOrdered from requests
      → count_within (window_ms limiter) start (granted key [] requests) ≤ limiter.max_requests
  unfolding bucket_of Agrees AreWithinLimit count_within
  granted_bounded key requests from start o =
      granted-AreWithinLimit key requests from [] [] o (λ now h. refl) (λ s. omega arith) start
