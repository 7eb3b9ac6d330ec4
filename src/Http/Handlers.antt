-- ===== src/Http/Handlers.antt =====
-- src/httpServer.ts: the handlers of the deliveries, the events and the operations. What the services
-- do is a parameter.
use engineering_with_effect.Prelude.{
  ℕ, Bool, false, not, Option, none, some, List, if◌then◌else◌, Result, ok, err, Action,
}
use engineering_with_effect.Model.Ids.{DeliveryId, DestinationId, IngestionKey}
use engineering_with_effect.Model.Event.{EventAcceptance, Destination}
use engineering_with_effect.Model.Results.{DeliveryResult, result_fields}
use engineering_with_effect.Errors.{
  RepositoryFailure, claim_lost, dead_letter_recovery, destination_mismatch, repository_error,
  RecoveryReason, ingestion_conflict, intake_store_error,
}
use engineering_with_effect.Services.{DeliveryStatus}
use engineering_with_effect.Contract.Calls.{Call}
use engineering_with_effect.Operations
use engineering_with_effect.EventIntake.{Failure}
use engineering_with_effect.Supervisor.{DeliveryFailure, OfferFailure}
use engineering_with_effect.Http.{Problem, HttpExit, response, failed, died, HttpEffect}

pub data OutcomeTag : Type 0 where
  delivered rejected protocol_failure exhausted : OutcomeTag

abbrev pub outcome_tag : DeliveryResult → OutcomeTag
outcome_tag (DeliveryResult.delivered f status) = OutcomeTag.delivered
outcome_tag (DeliveryResult.rejected f status) = OutcomeTag.rejected
outcome_tag (DeliveryResult.protocol_failure f status) = OutcomeTag.protocol_failure
outcome_tag (DeliveryResult.exhausted f last) = OutcomeTag.exhausted

record DeliveryHttpResult : Type 0 where
  pub delivery_id : DeliveryId
  pub destination_id : DestinationId
  pub outcome : OutcomeTag

abbrev to_http_result : DeliveryResult → DeliveryHttpResult
to_http_result r = record {
  delivery_id = (result_fields r).delivery_id;
  destination_id = (result_fields r).destination_id;
  outcome = outcome_tag r;
}

-- A failure that no `catchTag` names ends as the host's 500, here a defect; the types leave none.
abbrev uncaught : {A : Type 0} → HttpExit A
uncaught = died false

-- The claim's failures, as both submissions catch them.
abbrev claim_exit : {A : Type 0} → RepositoryFailure → HttpExit A
claim_exit (claim_lost operation id owner generation) = failed Problem.internal_error
claim_exit (repository_error operation) = failed Problem.internal_error
claim_exit _ = uncaught

unfoldable delivery_exit : Result DeliveryFailure DeliveryResult → HttpExit DeliveryHttpResult
delivery_exit (ok r) = response 200 (to_http_result r)
delivery_exit (err (DeliveryFailure.invalid_event summary)) = failed Problem.invalid_event
delivery_exit (err (DeliveryFailure.delivery_identity id)) = failed Problem.internal_error
delivery_exit (err (DeliveryFailure.offer_failed (OfferFailure.overloaded o))) =
    failed Problem.overloaded
delivery_exit (err (DeliveryFailure.offer_failed (OfferFailure.claim_failed e))) = claim_exit e
delivery_exit (err (DeliveryFailure.store_failed (intake_store_error operation))) =
    failed Problem.internal_error
delivery_exit (err (DeliveryFailure.store_failed (ingestion_conflict key event))) = uncaught

unfoldable pub event_exit : Result Failure EventAcceptance → HttpExit EventAcceptance
event_exit (ok a) = response 202 a
event_exit (err (Failure.invalid_event summary)) = failed Problem.invalid_event
event_exit (err (Failure.event_identity operation)) = failed Problem.internal_error
event_exit (err (Failure.store_failed (intake_store_error operation))) =
    failed Problem.internal_error
event_exit (err (Failure.store_failed (ingestion_conflict key event))) =
    failed Problem.idempotency_conflict
event_exit (err (Failure.hand_over_failed e)) = claim_exit e

-- The two submissions read first whether the host is ready.
module _ {S C : Type 0} (ready : Bool) where
  unfoldable submit_delivery :
      (C → Action S DeliveryFailure DeliveryResult) → C → HttpEffect S DeliveryHttpResult
  unfolding delivery_exit
  submit_delivery deliver payload s =
      if not ready
      then (failed Problem.not_ready, s)
      else (let (r, s') = deliver payload s in (delivery_exit r, s'))

  unfoldable pub submit_event :
      (IngestionKey → C → Action S Failure EventAcceptance)
      → IngestionKey
      → C
      → HttpEffect S EventAcceptance
  unfolding event_exit
  submit_event accept key payload s =
      if not ready
      then (failed Problem.not_ready, s)
      else (let (r, s') = accept key payload s in (event_exit r, s'))

abbrev recovery_problem : RecoveryReason → Problem
recovery_problem RecoveryReason.not_found = Problem.delivery_not_found
recovery_problem RecoveryReason.not_dead_lettered = Problem.not_dead_lettered

-- Where only `DeliveryRepositoryError` is caught.
unfoldable repository_exit : {A : Type 0} → Result RepositoryFailure A → HttpExit A
repository_exit (ok a) = response 200 a
repository_exit (err (repository_error operation)) = failed Problem.internal_error
repository_exit (err _) = uncaught

-- `retryDeadLetter` and `terminateDeadLetter`.
unfoldable pub recovery_exit : Result RepositoryFailure DeliveryStatus → HttpExit DeliveryStatus
recovery_exit (ok status) = response 200 status
recovery_exit (err (dead_letter_recovery id reason)) = failed (recovery_problem reason)
recovery_exit (err (repository_error operation)) = failed Problem.internal_error
recovery_exit (err _) = uncaught

-- `repairDeadLetter` catches a third failure.
unfoldable pub repair_exit : Result RepositoryFailure DeliveryStatus → HttpExit DeliveryStatus
repair_exit (ok status) = response 200 status
repair_exit (err (destination_mismatch id expected actual)) = failed Problem.destination_mismatch
repair_exit (err (dead_letter_recovery id reason)) = failed (recovery_problem reason)
repair_exit (err (repository_error operation)) = failed Problem.internal_error
repair_exit (err (claim_lost operation id owner generation)) = uncaught

module _ {S : Type 0} where
  unfoldable inspect :
      (DeliveryId → Action S RepositoryFailure (Option DeliveryStatus))
      → DeliveryId
      → HttpEffect S DeliveryStatus
  unfolding repository_exit
  inspect find_status id s =
      let (r, s') = find_status id s in
      (
        elim r [
          | err e ↦ repository_exit (err e)
          | ok none ↦ failed Problem.delivery_not_found
          | ok (some status) ↦ response 200 status
        ],
        s',
      )

  unfoldable pub list_dead_letters :
      (ℕ → Action S RepositoryFailure (List DeliveryStatus)) → HttpEffect S (List DeliveryStatus)
  unfolding repository_exit
  list_dead_letters listing s = let (r, s') = listing 50 s in (repository_exit r, s')

  unfoldable pub act :
      {A B : Type 0}
      → (Result RepositoryFailure A → HttpExit B)
      → Action S RepositoryFailure A
      → HttpEffect S B
  act exit action s = let (r, s') = action s in (exit r, s')

  -- A reconciliation is answered with the number of claims.
  unfoldable reconcile : Action S RepositoryFailure ℕ → HttpEffect S ℕ
  unfolding act repository_exit
  reconcile reconcile_once = act repository_exit reconcile_once

  module _ (find_status : DeliveryId → Action S RepositoryFailure (Option DeliveryStatus))
      (perform : Call → Action S RepositoryFailure (Unit {0})) (destination : Destination)
      (configuration_version : ℕ) where
    unfoldable pub retry_dead_letter : ℕ → DeliveryId → HttpEffect S DeliveryStatus
    unfolding act recovery_exit Operations.retry_dead_letter
    retry_dead_letter now id =
        act recovery_exit (
          Operations.retry_dead_letter find_status perform destination configuration_version now id)

    unfoldable pub repair_dead_letter : ℕ → DeliveryId → HttpEffect S DeliveryStatus
    unfolding act repair_exit Operations.repair_dead_letter
    repair_dead_letter now id =
        act repair_exit (
          Operations.repair_dead_letter find_status perform destination configuration_version now
            id)

    unfoldable pub terminate_dead_letter : DeliveryId → HttpEffect S DeliveryStatus
    unfolding act recovery_exit Operations.terminate_dead_letter
    terminate_dead_letter id =
        act recovery_exit (
          Operations.terminate_dead_letter find_status perform destination configuration_version id)
