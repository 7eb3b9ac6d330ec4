-- ===== src/Engine/Endings.antt =====
-- How a run of `runDeliveryWithRetry` in src/deliveryEngine.ts may end: the statements of Engine/Run.
use engineering_with_effect.Prelude.{
  ℕ, ◌+◌, ◌≤◌, ◌≡◌, Bool, true, false, some, List, [], ◌∷◌, ◌++◌, arith, length, All,
}
use engineering_with_effect.Model.Ids.{DeliveryId, DestinationId}
use engineering_with_effect.Model.Event.{DeliveryClaim}
use engineering_with_effect.Model.Outcome.{DeliveryOutcome}
use engineering_with_effect.Model.Attempt.{
  DeliveryAttempt, DeliveryAttemptDecision, AttemptTraceCorrelation, attempt_fields,
}
use engineering_with_effect.Model.Results.{DeliveryResult, result_fields}
use engineering_with_effect.Policy.{delivery_state_from_result, terminal_state_from_attempt}
use engineering_with_effect.Engine.{terminal_result, Ending, finished, failed, running}

abbrev is_retry : DeliveryAttemptDecision → Bool
is_retry (DeliveryAttemptDecision.retry_scheduled d) = true
is_retry _ = false

-- Consecutive ordinals, the first one after `next`.
abbrev Numbered : ℕ → List DeliveryAttempt → Type 0
Numbered next [] = Unit {0}
Numbered next (a ∷ h) = (a.ordinal ≡ next + 1) × Numbered (next + 1) h

-- The state that a recorded attempt leads to is the state of the result.
abbrev pub Agrees : DeliveryAttempt → DeliveryResult → Type 0
Agrees a r =
    (id : DeliveryId) (claim : DeliveryClaim) (trace : AttemptTraceCorrelation)
    → terminal_state_from_attempt (attempt_fields id claim a trace)
      ≡ some (delivery_state_from_result r)

-- A finished run: at most `n` attempts that schedule a retry, then one that decides.
pub record Closes (n next : ℕ) (history : List DeliveryAttempt) (r : DeliveryResult) : Type 0 where
  pub earlier : List DeliveryAttempt
  pub last : DeliveryAttempt
  pub attempts : (result_fields r).attempts ≡ history ++ (earlier ++ last ∷ [])
  pub retried : All (λ a. is_retry a.decision ≡ true) earlier
  pub decided : Agrees last r
  pub numbered : Numbered next (earlier ++ last ∷ [])
  pub counted : length earlier ≤ n

-- With enough rounds a run ends: it finishes as above, or recording an attempt fails.
abbrev pub EndsWell : {S E : Type 0} → ℕ → ℕ → List DeliveryAttempt → Ending S E → Type 0
EndsWell n next history (finished r s) = Closes n next history r
EndsWell n next history (failed e s) = Unit {0}
EndsWell n next history (running h s) = ⊥

pub terminal_result-attempts :
    (id : DeliveryId) (destination : DestinationId) (outcome : DeliveryOutcome)
    (attempts : List DeliveryAttempt)
    → (result_fields (terminal_result id destination outcome attempts)).attempts ≡ attempts
unfolding terminal_result
terminal_result-attempts id destination outcome attempts = ground arith
