-- ===== src/Tests/WorkerCases.antt =====
-- The properties of the worker at concrete jobs, over the in-memory repository.
use engineering_with_effect.Prelude.{◌≡◌, refl, false, none, some, [], ◌∷◌, arith, codes, same_text}
use engineering_with_effect.Model.Attempt.{AttemptTraceCorrelation}
use engineering_with_effect.Model.Outcome.{DeliveryOutcome}
use engineering_with_effect.Contract.Fencing.{claims}
use engineering_with_effect.Model.State.{DeliveryState}
use engineering_with_effect.Policy.{delivery_state_from_result}
use engineering_with_effect.Errors.{ClaimOperation, claim_lost}
use engineering_with_effect.Prelude.Maps
use engineering_with_effect.Contract.{Cell}
use engineering_with_effect.Contract.Calls.{completes}
use engineering_with_effect.Contract.Fencing.{run}
use engineering_with_effect.Memory.{complete_claim, owns, holds}
use engineering_with_effect.Memory.Intake
use engineering_with_effect.Memory.View.{view}
use engineering_with_effect.Memory.Calls.{perform}
use engineering_with_effect.Memory.History.{memory, enter, perform-IsValid}
use engineering_with_effect.Engine.{answered, finished}
use engineering_with_effect.Worker.{
  Job, Session, Turn, renewal, elsewhere, trace_of, process, conclude, failure, repository_failed,
}
use engineering_with_effect.Worker.Sessions.{Admits}
use engineering_with_effect.Worker.Jobs.{Outcome, IsTurn, process-Outcome, late_renewal-failure}
use engineering_with_effect.Tests.Samples.{
  delivery_id, destination, other_worker, event, claim, result, cell,
}
use engineering_with_effect.Tests.MemoryCases.{accepted_store, accepted_store-IsValid}
use engineering_with_effect.Tests.Schedules.{trees, resilience, reading}

pub memory-Admits : Admits memory
memory-Admits = record {
  records_made = λ now a v c. tt;
  renewals = λ now id claim lease l. tt;
  releases_any = λ id claim. tt;
}

abbrev pub job : Job
job = record {
  claim = claim;
  delivery_id = delivery_id;
  destination = record {
    id = destination;
    endpoint = codes "https://crm.test/";
    authorization = [];
  };
  event = event;
  next_attempt_ordinal = 1;
}

abbrev session : Session memory.State
session = record {
  claim = claim;
  store = accepted_store;
  attempts = [];
  dead_letters = [];
  fencing_rejections = [];
  published = [];
}

-- A renewal and another worker's scan come before the answer is recorded.
abbrev turn : Turn memory
turn = record {
  attempt_started_at_nanos = 10000000;
  started_at_millis = 1110;
  completed_at_millis = 1120;
  send = λ timeout. answered (DeliveryOutcome.delivered destination 204);
  ticks = renewal 1115 ∷ elsewhere (claims 1116 other_worker destination 10 500) ∷ [];
  recorded_at = 1121;
  reading = reading;
}

abbrev trace : AttemptTraceCorrelation
trace = trace_of (codes "") (codes "")

turn-IsTurn : IsTurn memory memory-Admits trees resilience 500 job trace turn
turn-IsTurn = record { forward = omega arith; tame = (tt, (omega arith, tt)) }

process-Outcome_example :
    Outcome memory memory-Admits trees resilience 500 job trace
      (process memory trees resilience 500 job trace false 1100 0 (turn ∷ turn ∷ []) [] session)
process-Outcome_example =
    process-Outcome memory memory-Admits trees resilience 500 job trace false 1100 0
      (turn ∷ turn ∷ []) [] session accepted_store-IsValid (omega arith)
      (turn-IsTurn, (turn-IsTurn, tt)) tt (omega arith)

abbrev settled_session : Session memory.State
settled_session = record session {
  store = (perform (completes 1200 delivery_id claim result) accepted_store).1;
}

abbrev settled : Cell
settled = record cell {
  delivery = record cell.delivery { state = DeliveryState.delivered 200 };
  claim = none;
}

settled_view : view settled_session.store delivery_id ≡ some settled
unfolding view run perform enter Intake.accept complete_claim owns holds Maps.get Maps.set
    Maps.delete same_text delivery_state_from_result
settled_view = refl

late_renewal-failure_example :
    let x =
      conclude memory trees resilience 500 job trace
        (renewal 1300 ∷ [])
        (finished result settled_session) in
    (x.0
      ≡ failure (repository_failed (claim_lost ClaimOperation.renew delivery_id claim.owner_id 1)))
    × (x.1.fencing_rejections ≡ ClaimOperation.renew ∷ [])
    × (x.1.published ≡ [])
unfolding delivery_state_from_result
late_renewal-failure_example =
    late_renewal-failure memory memory-Admits trees resilience 500 job trace 1300 [] result
      settled_session
      (perform-IsValid (completes 1200 delivery_id claim result) accepted_store
        accepted_store-IsValid)
      (omega arith) (settled, settled_view, refl, refl, tt)
