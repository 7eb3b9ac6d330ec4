-- ===== src/Operations.antt =====
-- src/deliveryOperations.ts: an operator's action on a dead letter, over a repository's `findStatus`
-- and its mutation. Metrics and logs are left out.
pub mod Answers
use engineering_with_effect.Prelude.{ℕ, Option, none, some, ok, err, Action}
use engineering_with_effect.Model.Ids.{DeliveryId}
use engineering_with_effect.Model.Event.{DeliveryRouteSnapshot, Destination}
use engineering_with_effect.Errors.{RepositoryFailure, RepositoryOperation, repository_error}
use engineering_with_effect.Services.{DeliveryStatus}
use engineering_with_effect.Contract.Calls.{Call, retries, repairs, terminates}

module _ {S : Type 0}
    (find_status : DeliveryId → Action S RepositoryFailure (Option DeliveryStatus)) where
  -- The status after the mutation; a delivery that is gone is a failure.
  abbrev read_after : DeliveryId → Action S RepositoryFailure DeliveryStatus
  read_after id s =
      let (r, s') = find_status id s in
      (
        elim r [
          | err e ↦ err e
          | ok none ↦ err (repository_error RepositoryOperation.find_status)
          | ok (some status) ↦ ok status
        ],
        s',
      )

  -- `applyAction`: the first reading is for the log, but where it fails so does the action.
  unfoldable pub apply_action :
      DeliveryId → Action S RepositoryFailure (Unit {0}) → Action S RepositoryFailure DeliveryStatus
  apply_action id mutation s =
      let (before, s1) = find_status id s in
      elim before [
        | err e ↦ (err e, s1)
        | ok b ↦
            let (done, s2) = mutation s1 in
            elim done [ err e ↦ (err e, s2) | ok u ↦ read_after id s2 ]
      ]

  module _ (perform : Call → Action S RepositoryFailure (Unit {0})) (destination : Destination)
      (configuration_version : ℕ) where
    -- The configured destination, as the route of a repair.
    abbrev pub configured_route : DeliveryRouteSnapshot
    configured_route = record {
      destination_id = destination.id;
      endpoint = destination.endpoint;
      configuration_version = configuration_version;
    }

    unfoldable pub retry_dead_letter : ℕ → DeliveryId → Action S RepositoryFailure DeliveryStatus
    unfolding apply_action
    retry_dead_letter now id = apply_action id (perform (retries now id))

    unfoldable pub repair_dead_letter : ℕ → DeliveryId → Action S RepositoryFailure DeliveryStatus
    unfolding apply_action
    repair_dead_letter now id = apply_action id (perform (repairs now id configured_route))

    unfoldable pub terminate_dead_letter : DeliveryId → Action S RepositoryFailure DeliveryStatus
    unfolding apply_action
    terminate_dead_letter id = apply_action id (perform (terminates id))
