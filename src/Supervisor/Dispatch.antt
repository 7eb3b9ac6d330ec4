-- ===== src/Supervisor/Dispatch.antt =====
-- src/deliverySupervisor.ts: the queue of requests, the stream that pulls them and the permits of
-- dispatch, in any order of the fibers' steps.
use engineering_with_effect.Prelude.{
  ℕ, zero, suc, ◌+◌, ◌≤◌, ◌≡◌, refl, sym, ap, ◌∙◌, inl, inr, Bool, List, [], ◌∷◌, ◌++◌, arith, ltb,
  if◌then◌else◌, Bool-cases, length, length-append, take, drop, Result-cases,
}
use mathlib.Core.List.{append_assoc}
use engineering_with_effect.Services.{ClaimedDelivery}
use engineering_with_effect.Contract.Repository.{Repository}
use engineering_with_effect.Admission.{Semaphores, Capacities}
use engineering_with_effect.Admission.Concurrency.Permits.{took}
use engineering_with_effect.Worker.{Job}
use engineering_with_effect.Contract.Calls.{releases}
use engineering_with_effect.Supervisor
use engineering_with_effect.Supervisor.{
  make_supervisor, offers, pulls, dispatches, ends, elsewhere, done, later, offer_claimed, job_of,
}

-- How many jobs of a list pass a test.
unfoldable pub count : (Job → Bool) → List Job → ℕ
count p [] = 0
count p (j ∷ js) = (if p j then 1 else 0) + count p js

count-append : (p : Job → Bool) (xs ys : List Job) → count p (xs ++ ys) ≡ count p xs + count p ys
unfolding count
count-append p [] ys = omega arith
count-append p (x ∷ xs) ys = ground (arith, count-append p xs ys)

take-drop : (n : ℕ) (xs : List Job) → take n xs ++ drop n xs ≡ xs
take-drop zero xs = refl
take-drop (suc n) [] = refl
take-drop (suc n) (x ∷ xs) = ap (λ r. x ∷ r) (take-drop n xs)

appended : (a b c d : List Job) → (a ++ (b ++ c)) ++ d ≡ a ++ (b ++ (c ++ d))
appended a b c d = append_assoc a (b ++ c) d ∙ ap (λ r. a ++ r) (append_assoc b c d)

length-take-drop : (n : ℕ) (xs : List Job) → length (take n xs) + length (drop n xs) ≡ length xs
length-take-drop n xs = sym (length-append (take n xs) (drop n xs)) ∙ ap length (take-drop n xs)

module _ (repo : Repository) (sems : Semaphores) (k : Capacities) where
  open repo use {State}
  open sems use {available}

  abbrev World : Type 0
  World = Supervisor.World repo sems k

  -- Every job that the queue has taken is dispatched, pulled or queued, in the order of the offers; the
  -- queue is within its capacity, and so are the jobs that run, each of which was dispatched and has
  -- not ended.
  pub record IsOrderly (w : World) : Type 0 where
    pub in_order : w.offered ≡ w.started ++ (w.supervisor.pulled ++ w.supervisor.requests)
    pub queued : length w.supervisor.requests ≤ k.total
    pub chunk : length w.supervisor.pulled ≤ k.total
    pub permits : available w.supervisor.dispatch_permits + length w.supervisor.deliveries ≡ k.total
    pub accounted :
        (p : Job → Bool) → count p w.started ≡ count p w.supervisor.deliveries + count p w.ended

  offer_claimed-left :
      (claimed : ClaimedDelivery) (d : _) (s : Supervisor.Supervisor repo sems k)
      → (let t = (offer_claimed repo sems k claimed d s).1 in
          (t.pulled ≡ s.pulled)
          × (t.dispatch_permits ≡ s.dispatch_permits)
          × (t.deliveries ≡ s.deliveries)
          × (t.requests ≡ (
              if ltb (length s.requests) k.total
              then s.requests ++ job_of claimed d ∷ []
              else s.requests)))
  unfolding offer_claimed
  offer_claimed-left claimed d s = elim (Bool-cases (ltb (length s.requests) k.total)) [
    | inl y ↦ rw y (refl, refl, refl, refl)
    | inr n ↦
        elim (Result-cases (repo.perform (releases claimed.delivery.id claimed.claim) s.store).0) [
          | inl (e, h) ↦ rw (n, h) (refl, refl, refl, refl)
          | inr (u, h) ↦ rw (n, h) (refl, refl, refl, refl)
        ]
  ]

  moved-IsOrderly : (w v : World) → Supervisor.Step repo sems k w v → IsOrderly w → IsOrderly v
  unfolding count
  moved-IsOrderly w _ (offers claimed d) o =
      let (p, q, r, t) = offer_claimed-left claimed d w.supervisor in
      elim (Bool-cases (ltb (length w.supervisor.requests) k.total)) [
        | inl y ↦ rw y (record {
          in_order =
              rw (p, t, y, o.in_order)
                (appended w.started w.supervisor.pulled w.supervisor.requests
                  (job_of claimed d ∷ []));
          queued =
              rw (t, y)
                (ground (arith, length-append w.supervisor.requests (job_of claimed d ∷ [])));
          chunk = rw p o.chunk;
          permits = rw (q, r) o.permits;
          accounted = λ c. rw r (o.accounted c);
        })
        | inr n ↦ rw n (record {
          in_order = rw (p, t, n) o.in_order;
          queued = rw (t, n) o.queued;
          chunk = rw p o.chunk;
          permits = rw (q, r) o.permits;
          accounted = λ c. rw r (o.accounted c);
        })
      ]
  moved-IsOrderly w _ (pulls n e) o = record {
    in_order = o.in_order ∙ rw (e, take-drop n w.supervisor.requests) refl;
    queued = ground (arith, o.queued, length-take-drop n w.supervisor.requests);
    chunk = ground (arith, o.queued, length-take-drop n w.supervisor.requests);
    permits = o.permits;
    accounted = o.accounted;
  }
  moved-IsOrderly w _ (dispatches job rest permits e h) o = record {
    in_order =
        o.in_order ∙ rw (e, append_assoc w.started (job ∷ []) (rest ++ w.supervisor.requests)) refl;
    queued = o.queued;
    chunk = ground (arith, o.chunk, ap length e);
    permits = ground (arith, o.permits, took sems k w.supervisor.dispatch_permits permits h);
    accounted = λ c. ground (arith, o.accounted c, count-append c w.started (job ∷ []));
  }
  moved-IsOrderly w _ (ends before job after e) o = record {
    in_order = o.in_order;
    queued = o.queued;
    chunk = o.chunk;
    permits = ground (
      arith,
      o.permits,
      ap length e,
      length-append before (job ∷ after),
      length-append before after,
      sems.available-release_one w.supervisor.dispatch_permits,
    );
    accounted = λ c. ground (
      arith,
      o.accounted c,
      ap (count c) e,
      count-append c before (job ∷ after),
      count-append c before after,
      count-append c w.ended (job ∷ []),
    );
  }
  moved-IsOrderly w _ (elsewhere store gate) o = record {
    in_order = o.in_order;
    queued = o.queued;
    chunk = o.chunk;
    permits = o.permits;
    accounted = o.accounted;
  }

  -- Whatever the store does and in whatever order the fibers of the supervisor step: the jobs that its
  -- queue has taken are those dispatched, followed by those pulled and those queued, in the order in
  -- which they were offered; no more jobs are queued, pulled or running than the capacity; every permit
  -- of dispatch is free or held by one running job; and the dispatched jobs are, each as often, those
  -- that run and those that have ended.
  pub dispatched_in_order :
      (s : State) (w : World)
      → Supervisor.Steps repo sems k (Supervisor.idle repo sems k s) w
      → IsOrderly w
  unfolding make_supervisor count
  dispatched_in_order s _ done = record {
    in_order = refl;
    queued = omega arith;
    chunk = omega arith;
    permits = ground (arith, sems.available-make k.total);
    accounted = λ c. omega arith;
  }
  dispatched_in_order s w (later {v = v} steps step) =
      moved-IsOrderly v w step (dispatched_in_order s v steps)
