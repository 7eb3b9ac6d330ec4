-- ===== src/Worker/Jobs.antt =====
-- src/deliveryWorker.ts: how a job ends, and what it leaves in the repository.
use engineering_with_effect.Prelude.{
  length-map, All-mapped, ℕ, ◌+◌, ◌-◌, ◌≤◌, ◌<◌, ◌≡◌, refl, sym, ap, ◌∙◌, inl, inr, Bool, false,
  ◌&&◌, Option, none, some, List, [], ◌∷◌, ◌++◌, map, arith, Bool-cases, length, All, err,
  Result-cases,
}
use engineering_with_effect.Model.Ids.{DeliveryId}
use engineering_with_effect.Model.Event.{DeliveryClaim}
use engineering_with_effect.Model.State.{is_pending}
use engineering_with_effect.Model.Attempt.{DeliveryAttempt, AttemptTraceCorrelation}
use engineering_with_effect.Model.Results.{DeliveryResult, result_fields}
use engineering_with_effect.Policy.{delivery_state_from_result}
use engineering_with_effect.Contract
use engineering_with_effect.Contract.Laws.{IsWellFormed}
use engineering_with_effect.Contract.{Cell, answer, after, fits}
use engineering_with_effect.Errors.{ClaimOperation, claim_lost}
use engineering_with_effect.Contract.Calls.{renews, releases, transition}
use engineering_with_effect.Contract.Repository.{Repository}
use engineering_with_effect.Engine.Schedule.{Schedules, Resilience}
use engineering_with_effect.Engine.{Ending, finished, failed, running, observe_delivery_attempt}
use engineering_with_effect.Engine.Run.{IsHonest, run_delivery_with_retry-EndsWell}
use engineering_with_effect.Engine.Endings.{Closes, EndsWell}
use engineering_with_effect.Engine.Recorded.{Kept, Records, run_delivery_with_retry-Kept}
use engineering_with_effect.Worker.{
  Tick, renewal, tick, Job, JobFailure, repository_failed, interrupted, Session, Turn, Exit,
  success, failure, unfinished, renew_lease, meanwhile, round_of, give_up, conclude, process,
}
use engineering_with_effect.Worker.Sessions.{
  Admits, IsOurs, Follows, IsTame, renew_lease-Goes, meanwhile-Goes,
}
use engineering_with_effect.Worker.Recording.{
  last_attempt, last_attempt-append, HasAttempt, Recorded, round_of-Records,
}

-- After a release nobody holds the delivery under that claim, whether or not the release has succeeded.
pub release_unfits :
    (id : DeliveryId) (claim : DeliveryClaim) (found : Option Cell) (c : Cell)
    → ((b : Cell) → found ≡ some b → IsWellFormed b)
    → after found (transition (releases id claim) found) ≡ some c
    → fits c.claim claim.owner_id claim.generation ≡ false
unfolding transition Contract.release_claim
release_unfits id claim none c w h = absurd (ground arith)
release_unfits id claim (some b) c w h =
    elim (Bool-cases
      (is_pending b.delivery.state && fits b.claim claim.owner_id claim.generation)) [
        | inl y ↦ ground arith
        | inr n ↦ elim (w b refl).held [ inl p ↦ ground arith | inr q ↦ ground arith ]
      ]

module _ (repo : Repository) (admits : Admits repo) where
  open repo use {State, IsValid, view, perform}

  module _ (lib : Schedules) (resilience : Resilience) (lease : ℕ) (job : Job)
      (trace : AttemptTraceCorrelation) where
    abbrev Holds : List DeliveryAttempt → Session State → Type 0
    Holds = Recorded repo admits lib resilience lease job trace

    abbrev Ours : Session State → Type 0
    Ours = IsOurs repo admits lib resilience lease job trace

    -- A repository in which the delivery is in the result's state, nobody holds it, and the result's
    -- attempts are in its history.
    abbrev Settled : DeliveryResult → State → Type 0
    Settled r t =
        (c : Cell) × (view t job.delivery_id ≡ some c)
        × (c.delivery.state ≡ delivery_state_from_result r)
        × (c.claim ≡ none)
        × All (HasAttempt repo admits lib resilience lease job trace c) (result_fields r).attempts

    -- What a job that has ended leaves: with a result, a repository that follows one in which the
    -- result was settled; with a failure, nobody holds the delivery under the job's claim.
    abbrev pub Outcome : Exit × Session State → Type 0
    Outcome (success r, w) =
        (t : State) × Settled r t × Follows repo admits lib resilience lease job trace t w.store
    Outcome (failure e, w) =
        (c : Cell)
        → view w.store job.delivery_id ≡ some c
        → fits c.claim job.claim.owner_id job.claim.generation ≡ false
    Outcome (unfinished, w) = ⊥

    give_up-Outcome :
        (e : JobFailure) (w : Session State)
        → Ours w
        → Outcome (give_up repo lib resilience lease job trace e w)
    unfolding give_up
    give_up-Outcome e w o c v =
        let q = admits.releases_any job.delivery_id w.claim in
        let found = view w.store job.delivery_id in
        let acted = repo.acts (releases job.delivery_id w.claim) w.store o.valid q in
        let u =
          release_unfits job.delivery_id w.claim found c
            (λ b h. repo.formed w.store job.delivery_id b o.valid h) (sym acted ∙ v) in
        rw (← o.owner_id, ← o.generation) u

    finished-Outcome :
        (n next : ℕ) (r : DeliveryResult) (w : Session State)
        → Closes n next [] r
        → Holds (result_fields r).attempts w
        → Settled r w.store
    unfolding Recorded last_attempt
    finished-Outcome n next r w k (o, inl e) =
        let last = ap last_attempt (k.attempts) ∙ last_attempt-append k.earlier k.last in
        absurd (ground (arith, last, ap last_attempt e))
    finished-Outcome n next r w k (o, inr (c, v, d)) =
        let last = ap last_attempt (k.attempts) ∙ last_attempt-append k.earlier k.last in
        let (s, free) =
          d.settled k.last last (delivery_state_from_result r)
            (λ claim. k.decided job.delivery_id claim trace) in
        (c, v, s, free, d.all)

    conclude-Outcome :
        (late : List (Tick repo)) (n next : ℕ) (x : Ending (Session State) JobFailure)
        → 0 < lease
        → All (IsTame repo admits lib resilience lease job trace) late
        → EndsWell n next [] x
        → Kept Holds Ours x
        → Outcome (conclude repo lib resilience lease job trace late x)
    unfolding conclude Recorded
    conclude-Outcome late n next (finished r w) l a k p =
        let m = meanwhile repo lib resilience lease job trace late w in
        let (o, f) = meanwhile-Goes repo admits lib resilience lease job trace late w l a p.0 in
        elim (Result-cases m.0) [
          | inr (e, q) ↦ rw (q, conclude) (give_up-Outcome e m.1 o)
          | inl (u, q) ↦ rw (q, conclude) (w.store, finished-Outcome n next r w k p, f)
        ]
    conclude-Outcome late n next (failed e w) l a k o = give_up-Outcome e w o
    conclude-Outcome late n next (running h w) l a k p = k

    -- A turn's second reading of the clock is no earlier than its first, and its ticks are allowed.
    pub record IsTurn (turn : Turn repo) : Type 0 where
      pub forward : turn.reading.capped_at_nanos ≤ turn.reading.checked_at_nanos
      pub tame : All (IsTame repo admits lib resilience lease job trace) turn.ticks

    round_of-IsHonest :
        (deadline : ℕ) (turn : Turn repo)
        → IsTurn turn
        → IsHonest lib job.delivery_id job.destination.id deadline
            (round_of repo lib resilience lease job trace turn)
    unfolding round_of observe_delivery_attempt
    round_of-IsHonest deadline turn k = record { numbers = λ o s. refl; forward = k.forward }

    -- Over every repository that keeps the contract, in a valid state, with a lease that takes time, a
    -- clock that does not step back in a turn and as many turns as attempts are allowed, whatever
    -- renewals, cancellations and admitted steps of other sessions come in between: a job ends. With a
    -- result, the repository follows one in which the delivery is in that result's state,
    -- nobody holds it, and each of the result's attempts is in its history. With a failure, nobody holds
    -- the delivery under the job's claim.
    pub process-Outcome :
        (was_cancelled : Bool) (now started : ℕ) (turns : List (Turn repo))
        (late : List (Tick repo)) (w : Session State)
        → IsValid w.store
        → 0 < lease
        → All IsTurn turns
        → All (IsTame repo admits lib resilience lease job trace) late
        → resilience.max_attempts - 1 < length turns
        → Outcome
            (process repo lib resilience lease job trace was_cancelled now started turns late w)
    unfolding process Recorded
    process-Outcome was_cancelled now started turns late w v l k a n =
        let w0 = record w { claim = job.claim } in
        let r = renew_lease repo lib resilience lease job trace now w0 in
        let (o, f) =
          renew_lease-Goes repo admits lib resilience lease job trace now w0 l
            (record { valid = v; owner_id = refl; generation = refl }) in
        let rounds = map (round_of repo lib resilience lease job trace) turns in
        let honest =
          All-mapped (round_of repo lib resilience lease job trace)
            (IsHonest lib job.delivery_id job.destination.id (started + resilience.max_elapsed))
            IsTurn (round_of-IsHonest (started + resilience.max_elapsed)) turns k in
        let recording =
          All-mapped (round_of repo lib resilience lease job trace) (Records Holds Ours) IsTurn
            (λ a b. round_of-Records repo admits lib resilience lease job trace a l b.tame) turns
            k in
        let e =
          run_delivery_with_retry-EndsWell lib job.delivery_id job.destination.id resilience started
            job.next_attempt_ordinal rounds r.1 honest
            (omega (arith, n, length-map (round_of repo lib resilience lease job trace) turns)) in
        let p =
          run_delivery_with_retry-Kept Holds Ours lib job.delivery_id job.destination.id resilience
            started job.next_attempt_ordinal rounds r.1 recording (o, inl refl) in
        elim (Result-cases r.0) [
          | inr (x, q) ↦ rw (q, process) (give_up-Outcome x r.1 o)
          | inl (u, q) ↦ elim (Bool-cases was_cancelled) [
            | inl y ↦ rw (q, y, process) (give_up-Outcome interrupted r.1 o)
            | inr m ↦
                rw (q, m, process)
                  (conclude-Outcome late (resilience.max_attempts - 1)
                    (job.next_attempt_ordinal - 1) _ l a e p)
          ]
        ]

    unheld-renewal :
        (now : ℕ) (claim : DeliveryClaim) (c : Cell)
        → c.claim ≡ none
        → answer (transition (renews now job.delivery_id claim lease) (some c))
          ≡ err (claim_lost ClaimOperation.renew job.delivery_id claim.owner_id claim.generation)
    unfolding transition Contract.renew_claim
    unheld-renewal now claim c h = ground arith

    -- Over a repository that keeps the contract, in a valid state, with a lease that takes time: where a
    -- renewal comes due after the last attempt has settled the delivery and before the result is
    -- published, the job fails with a lost claim and counts a fencing rejection, although the delivery
    -- is settled; nothing is published.
    pub late_renewal-failure :
        (now : ℕ) (late : List (Tick repo)) (r : DeliveryResult) (w : Session State)
        → IsValid w.store
        → 0 < lease
        → Settled r w.store
        → (let x =
              conclude repo lib resilience lease job trace (renewal now ∷ late) (finished r w) in
            (x.0
              ≡ failure (
                  repository_failed (
                    claim_lost ClaimOperation.renew job.delivery_id w.claim.owner_id
                      w.claim.generation)))
            × (x.1.fencing_rejections ≡ w.fencing_rejections ++ ClaimOperation.renew ∷ [])
            × (x.1.published ≡ w.published))
    unfolding conclude meanwhile tick renew_lease give_up
    late_renewal-failure now late r w v l (c, h, s, f, a) =
        let call = renews now job.delivery_id w.claim lease in
        let e : (perform call w.store).0
            ≡ err (
                claim_lost ClaimOperation.renew job.delivery_id w.claim.owner_id
                  w.claim.generation) =
          repo.answers call w.store v (admits.renewals now job.delivery_id w.claim lease l)
          ∙ rw h (unheld-renewal now w.claim c f) in
        (ground (arith, e), ground (arith, e), ground (arith, e))
