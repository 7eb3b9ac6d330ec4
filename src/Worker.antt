-- ===== src/Worker.antt =====
-- src/deliveryWorker.ts: a job under its lease. What happens while an attempt is made (renewals by the
-- forked fiber, other sessions of the repository, a cancellation) stands before the attempt's
-- recording; the first failure ends the race. Hooks, logs and spans are left out.
pub mod Sessions
pub mod Recording
pub mod Jobs
use engineering_with_effect.Prelude.{
  ℕ, ◌+◌, min, Bool, not, ◌&&◌, Option, none, some, List, [], ◌∷◌, ◌++◌, map, if◌then◌else◌, Text,
  ok, err, Action,
}
use engineering_with_effect.Model.Ids.{DeliveryId, is_trace_hex}
use engineering_with_effect.Model.Event.{DeliveryClaim, RelayEvent, Destination}
use engineering_with_effect.Model.State.{
  DeadLetterReason, provider_protocol_failure, retry_budget_exhausted,
}
use engineering_with_effect.Model.Attempt.{
  DeliveryAttempt, AttemptTraceCorrelation, make_delivery_attempt_record,
}
use engineering_with_effect.Model.Results.{DeliveryResult}
use engineering_with_effect.Errors.{RepositoryFailure, ClaimOperation, claim_lost}
use engineering_with_effect.Contract.Calls.{renews, records, releases}
use engineering_with_effect.Contract.Repository.{Repository}
use engineering_with_effect.Contract.Fencing.{Step, apply}
use engineering_with_effect.Engine.Schedule.{Schedules, Resilience, Reading}
use engineering_with_effect.Engine.{
  Sent, Round, Ending, finished, failed, running, observe_delivery_attempt, run_delivery_with_retry,
}

-- `DeliveryJob`; its deferred values are what `process` returns and the ticks of a cancellation.
pub record Job : Type 0 where
  pub claim : DeliveryClaim
  pub delivery_id : DeliveryId
  pub destination : Destination
  pub event : RelayEvent
  pub next_attempt_ordinal : ℕ

-- A failure of the repository, an interruption, or a schema's `make` that has thrown.
pub data JobFailure : Type 0 where
  repository_failed : RepositoryFailure → JobFailure
  interrupted defect : JobFailure

-- The span's identifiers, where both meet their pattern.
unfoldable pub trace_of : Text → Text → AttemptTraceCorrelation
trace_of trace_id span_id =
    if is_trace_hex 32 trace_id && is_trace_hex 16 span_id
    then record { trace_id = some trace_id; span_id = some span_id }
    else record { trace_id = none; span_id = none }

-- What a result that is a dead letter is counted under.
abbrev pub dead_letter_reason : DeliveryResult → Option DeadLetterReason
dead_letter_reason (DeliveryResult.protocol_failure f s) = some provider_protocol_failure
dead_letter_reason (DeliveryResult.exhausted f o) = some retry_budget_exhausted
dead_letter_reason _ = none

abbrev pub fencing_rejection : JobFailure → Option ClaimOperation
fencing_rejection (repository_failed (claim_lost operation id owner generation)) = some operation
fencing_rejection _ = none

abbrev noted : {A : Type 0} → Option A → List A → List A
noted none xs = xs
noted (some x) xs = xs ++ x ∷ []

-- The state of a job: the reference to its claim, the repository, and what was counted and published.
pub record Session (S : Type 0) : Type 0 where
  pub claim : DeliveryClaim
  pub store : S
  pub attempts : List DeliveryAttempt
  pub dead_letters : List DeadLetterReason
  pub fencing_rejections : List ClaimOperation
  pub published : List DeliveryResult

pub data Exit : Type 0 where
  success : DeliveryResult → Exit
  failure : JobFailure → Exit
  -- More rounds are needed.
  unfinished : Exit

module _ (repo : Repository) where
  open repo use {State, perform}

  -- What happens while the job waits for an attempt or between two.
  pub data Tick : Type 0 where
    renewal : ℕ → Tick
    elsewhere : Step repo → Tick
    cancellation : Tick

  -- One attempt: the host's clocks and draw, how the sending under a timeout ends, and the ticks before
  -- its recording.
  pub record Turn : Type 0 where
    pub attempt_started_at_nanos : ℕ
    pub started_at_millis : ℕ
    pub completed_at_millis : ℕ
    pub send : ℕ → Sent
    pub ticks : List Tick
    pub recorded_at : ℕ
    pub reading : Reading

  module _ (lib : Schedules) (resilience : Resilience) (lease : ℕ) (job : Job)
      (trace : AttemptTraceCorrelation) where
    abbrev pub Work : Type 0
    Work = Action (Session State) JobFailure (Unit {0})

    unfoldable pub renew_lease : ℕ → Work
    renew_lease now w =
        let (r, s) = perform (renews now job.delivery_id w.claim lease) w.store in
        elim r [
          | err e ↦ (err (repository_failed e), record w { store = s })
          | ok u ↦ (
            ok tt,
            record w {
              claim = record w.claim { lease_expires_at_millis = now + lease };
              store = s;
            },
          )
        ]

    unfoldable pub record_attempt : ℕ → DeliveryAttempt → Work
    record_attempt now a w = elim (make_delivery_attempt_record job.delivery_id w.claim a trace) [
      | none ↦ (err defect, w)
      | some made ↦
          let (r, s) = perform (records now made) w.store in
          elim r [
            | err e ↦ (err (repository_failed e), record w { store = s })
            | ok u ↦ (ok tt, record w { store = s; attempts = w.attempts ++ a ∷ [] })
          ]
    ]

    unfoldable pub tick : Tick → Work
    unfolding renew_lease
    tick (renewal now) w = renew_lease now w
    tick (elsewhere x) w = (ok tt, record w { store = apply repo x w.store })
    tick cancellation w = (err interrupted, w)

    -- The ticks in order, up to the first failure.
    unfoldable pub meanwhile : List Tick → Work
    unfolding tick
    meanwhile [] w = (ok tt, w)
    meanwhile (x ∷ xs) w =
        let (r, w') = tick x w in elim r [ ok u ↦ meanwhile xs w' | err e ↦ (err e, w') ]

    unfoldable pub ticks_then_record : Turn → DeliveryAttempt → Work
    unfolding meanwhile record_attempt
    ticks_then_record turn a w =
        let (r, w') = meanwhile turn.ticks w in
        elim r [ ok u ↦ record_attempt turn.recorded_at a w' | err e ↦ (err e, w') ]

    -- A turn as the engine's loop sees it.
    unfoldable pub round_of : Turn → Round (Session State) JobFailure
    unfolding ticks_then_record
    round_of turn = record {
      attempt_started_at_nanos = turn.attempt_started_at_nanos;
      execute_attempt = λ ordinal remaining.
          observe_delivery_attempt ordinal job.destination.id turn.started_at_millis
            (turn.send (min resilience.attempt_timeout remaining)) turn.completed_at_millis;
      on_attempt = ticks_then_record turn;
      reading = turn.reading;
    }

    -- A failure is counted where it is a fencing rejection, and the claim is released, whether or not
    -- that succeeds.
    unfoldable pub give_up : JobFailure → Session State → Exit × Session State
    give_up e w = (
      failure e,
      record w {
        fencing_rejections = noted (fencing_rejection e) w.fencing_rejections;
        store = (perform (releases job.delivery_id w.claim) w.store).1;
      },
    )

    -- The race is over once the result is published, which may wait: ticks may still come in between.
    unfoldable pub conclude : List Tick → Ending (Session State) JobFailure → Exit × Session State
    unfolding meanwhile give_up
    conclude late (finished r w) =
        let (x, w') = meanwhile late w in
        elim x [
          | err e ↦ give_up e w'
          | ok u ↦ (
            success r,
            record w' {
              published = w'.published ++ r ∷ [];
              dead_letters = noted (dead_letter_reason r) w'.dead_letters;
            },
          )
        ]
    conclude late (failed e w) = give_up e w
    conclude late (running h w) = (unfinished, w)

    -- `process`: one renewal, then the race. A job that was cancelled before is interrupted at once.
    unfoldable pub process :
        Bool → ℕ → ℕ → List Turn → List Tick → Session State → Exit × Session State
    unfolding renew_lease round_of give_up conclude
    process was_cancelled now started_at_nanos turns late w =
        let (r, w') = renew_lease now (record w { claim = job.claim }) in
        elim r [
          | err e ↦ give_up e w'
          | ok u ↦
              if was_cancelled
              then give_up interrupted w'
              else conclude late (
                  run_delivery_with_retry lib job.delivery_id job.destination.id resilience
                    started_at_nanos job.next_attempt_ordinal (map round_of turns) w')
        ]
