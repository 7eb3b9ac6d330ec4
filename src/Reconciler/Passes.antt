-- ===== src/Reconciler/Passes.antt =====
-- src/reconciler.ts over the in-memory repository and the supervisor: what a pass does to each claim.
use engineering_with_effect.Prelude.{
  ℕ, ◌≤◌, ◌<◌, ◌≡◌, refl, List, [], ◌∷◌, length, All, Result, ok, err, Action,
}
use engineering_with_effect.Model.Ids.{DestinationId, WorkerId}
use engineering_with_effect.Model.Event.{Destination}
use engineering_with_effect.Model.Results.{DeliveryResult}
use engineering_with_effect.Errors.{RepositoryFailure}
use engineering_with_effect.Services.{ClaimedDelivery}
use engineering_with_effect.Memory.Claims
use engineering_with_effect.Memory.Claimed.{IsEntry, claim_pending-IsEntry}
use engineering_with_effect.Memory.History.{memory, claim_pending-IsValid}
use engineering_with_effect.Admission.{Semaphores, Capacities}
use engineering_with_effect.Worker.{Job}
use engineering_with_effect.Worker.Sessions.{Admits}
use engineering_with_effect.Supervisor
use engineering_with_effect.Supervisor.{
  OfferFailure, awaited, Work, offer_claimed, resume_claimed, submit_claimed, destination_for,
  job_of,
}
use engineering_with_effect.Supervisor.Offers.{
  Handled, offer_claimed-Handled, offer_claimed-IsValid,
}
use engineering_with_effect.Reconciler.{reconcile_once, resume_all}

reconcile_once-claimed :
    {S F : Type 0}
    → (resume : ClaimedDelivery → Action S F DeliveryResult)
      (scan : Action S RepositoryFailure (List ClaimedDelivery)) (s : S)
      (out : List ClaimedDelivery)
    → (scan s).0 ≡ ok out
    → reconcile_once resume scan s ≡ (ok (length out), resume_all resume out (scan s).1)
unfolding reconcile_once
reconcile_once-claimed resume scan s out e = rw (reconcile_once, e) refl

module _ (admits : Admits memory) (sems : Semaphores) (k : Capacities)
    (await : Job → Work memory sems k DeliveryResult) (configured : Destination) where
  abbrev Supervised : Type 0
  Supervised = Supervisor.Supervisor memory sems k

  abbrev resume : ClaimedDelivery → Work memory sems k DeliveryResult
  resume = resume_claimed memory sems k await configured

  -- One claim after the other is offered along its route and queued or given up, and awaited if queued.
  pub data Turns : List ClaimedDelivery → Supervised → Supervised → Type 0 where
    last : {s : Supervised} → Turns [] s s
    turn :
        {c : ClaimedDelivery} {cs : List ClaimedDelivery} {s t : Supervised}
        → Handled memory admits sems k c
            (destination_for c configured)
            s
            (offer_claimed memory sems k c (destination_for c configured) s)
        → Turns cs (resume c s).1 t
        → Turns (c ∷ cs) s t

  -- The scan, as an action of the supervisor's world.
  abbrev pub scan :
      ℕ
      → WorkerId
      → DestinationId
      → ℕ
      → ℕ
      → Supervised
      → Result RepositoryFailure (List ClaimedDelivery) × Supervised
  scan now owner destination limit lease s =
      let (r, store) = Claims.claim_pending now owner destination limit lease s.store in
      (r, record s { store = store })

  module _
      (keeps : (j : Job) (s : Supervised)
        → memory.IsValid s.store
        → memory.IsValid (await j s).1.store) where
    awaited-IsValid :
        (j : Job) (x : Result OfferFailure (Unit {0}) × Supervised)
        → memory.IsValid x.1.store
        → memory.IsValid (awaited memory sems k await j x).1.store
    unfolding awaited
    awaited-IsValid j (ok u, t) v = keeps j t v
    awaited-IsValid j (err e, t) v = v

    resume-IsValid :
        (c : ClaimedDelivery) (s : Supervised)
        → memory.IsValid s.store
        → memory.IsValid (resume c s).1.store
    unfolding resume_claimed submit_claimed
    resume-IsValid c s v =
        let d = destination_for c configured in
        awaited-IsValid (job_of c d) (offer_claimed memory sems k c d s)
          (offer_claimed-IsValid memory admits sems k c d s v)

    resume_all-Turns :
        (cs : List ClaimedDelivery) (s : Supervised)
        → memory.IsValid s.store
        → Turns cs s (resume_all resume cs s)
    unfolding resume_all
    resume_all-Turns [] s v = last
    resume_all-Turns (c ∷ cs) s v =
        turn (offer_claimed-Handled memory admits sems k c (destination_for c configured) s v)
          (resume_all-Turns cs (resume c s).1 (resume-IsValid c s v))

    -- Over a valid in-memory repository, with a lease that takes time, and where the jobs that are awaited
    -- keep the repository valid, a pass never fails: it reports its claims, at most a batch; each is a
    -- pending delivery for the destination with the claim that the scan gave it; and one after the other
    -- each is offered along its own route, and its job is queued, or the full queue had it given up, so
    -- that nobody holds it under that claim.
    pub reconcile_once-Turns :
        (now : ℕ) (owner : WorkerId) (destination : DestinationId) (limit lease : ℕ)
        (s : Supervised)
        → memory.IsValid s.store
        → 0 < lease
        → (claims : List ClaimedDelivery) × ((reconcile_once resume
              (scan now owner destination limit lease)
              s).0
            ≡ ok (length claims))
          × (length claims ≤ limit)
          × All
              (IsEntry now owner destination limit lease
                (scan now owner destination limit lease s).1.store)
              claims
          × Turns claims
              (scan now owner destination limit lease s).1
              (reconcile_once resume (scan now owner destination limit lease) s).1
    reconcile_once-Turns now owner destination limit lease s v l =
        let (out, e, entries, most) =
          claim_pending-IsEntry now owner destination limit lease s.store v.keyed l in
        let w = claim_pending-IsValid now owner destination limit lease s.store v in
        let turns = resume_all-Turns out (scan now owner destination limit lease s).1 w in
        let run =
          reconcile_once-claimed resume (scan now owner destination limit lease) s out
            (rw e refl) in
        (out, rw run refl, most, entries, rw run turns)
