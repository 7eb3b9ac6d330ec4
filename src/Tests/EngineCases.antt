-- ===== src/Tests/EngineCases.antt =====
-- The properties of src/deliveryEngine.ts with a concrete schedule library and concrete rounds.
use engineering_with_effect.Prelude.{ℕ, Text, Option, none, refl, some, [], ◌∷◌, arith, ok}
use engineering_with_effect.Model.Outcome.{
  DeliveryOutcome, ℤ, DeliveryResponseEvidence, classify_delivery_response, provider_failure,
}
use engineering_with_effect.Engine.Schedule.{
  AttemptObservation, Step, limited, within_deadline, cap_at_deadline, honour_retry_after, jitter,
}
use engineering_with_effect.Engine.Bounds.{IsScheduled, limited-IsScheduled}
use engineering_with_effect.Engine.{Round, run_delivery_with_retry}
use engineering_with_effect.Engine.Run.{IsHonest, run_delivery_with_retry-EndsWell}
use engineering_with_effect.Engine.Endings.{EndsWell}
use engineering_with_effect.Tests.Schedules.{
  next_step, exponential_tree, trees, resilience, reading,
}
use engineering_with_effect.Tests.Samples.{delivery_id, destination}

-- A destination that is busy, and asks for a wait of 40 ms.
abbrev observed : ℕ → AttemptObservation
observed ordinal = record {
  ordinal = ordinal;
  started_at_millis = 1;
  completed_at_millis = 2;
  outcome = DeliveryOutcome.retryable destination 503 provider_failure (some 40);
}

abbrev given : Step
given = record { input = observed 1; reading = reading }

abbrev busy_round : Round ℕ ℕ
busy_round = record {
  attempt_started_at_nanos = 10000000;
  execute_attempt = λ ordinal left. observed ordinal;
  on_attempt = λ a s. (ok tt, s);
  reading = reading;
}

limited-IsScheduled_example :
    IsScheduled trees 2000000000 1
      (exponential_tree 10000000)
      given
      40000000
      (limited trees 2000000000 0 (exponential_tree 20000000))
unfolding limited next_step within_deadline cap_at_deadline honour_retry_after jitter
limited-IsScheduled_example =
    limited-IsScheduled trees 2000000000 1 (exponential_tree 10000000)
      (limited trees 2000000000 0 (exponential_tree 20000000)) given 40000000 (omega arith) refl

busy_round-IsHonest : IsHonest trees delivery_id destination 2000000000 busy_round
busy_round-IsHonest = record { numbers = λ o t. refl; forward = omega arith }

run_delivery_with_retry-EndsWell_example : EndsWell 1 0 [] (
    run_delivery_with_retry trees delivery_id destination resilience 0 1
      (busy_round ∷ busy_round ∷ [])
      0)
run_delivery_with_retry-EndsWell_example =
    run_delivery_with_retry-EndsWell trees delivery_id destination resilience 0 1
      (busy_round ∷ busy_round ∷ []) 0 (busy_round-IsHonest, (busy_round-IsHonest, tt))
      (omega arith)

abbrev never_parsed : Text → Option ℤ
never_parsed t = none

-- A destination that is overloaded.
abbrev overloaded : DeliveryResponseEvidence
overloaded = record { status = 503; retry_after = none }

abbrev overloaded_round : Round ℕ ℕ
overloaded_round = record busy_round {
  execute_attempt = λ ordinal left. record (observed ordinal) {
    outcome = classify_delivery_response never_parsed destination overloaded 0;
  };
}
