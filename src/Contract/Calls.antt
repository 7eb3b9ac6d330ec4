-- ===== src/Contract/Calls.antt =====
-- The calls that change one delivery, as data, and the transition that the contract gives each.
use engineering_with_effect.Prelude.{ℕ, Option, none, some, Text}
use engineering_with_effect.Model.Ids.{DeliveryId}
use engineering_with_effect.Model.Event.{DeliveryClaim, DeliveryRouteSnapshot}
use engineering_with_effect.Model.Attempt.{DeliveryAttemptRecord}
use engineering_with_effect.Model.Results.{DeliveryResult}
use engineering_with_effect.Policy.{delivery_state_from_result}
use engineering_with_effect.Contract
use engineering_with_effect.Contract.{Cell, Reply}

pub data Call : Type 0 where
  records : ℕ → DeliveryAttemptRecord → Call
  retries : ℕ → DeliveryId → Call
  repairs : ℕ → DeliveryId → DeliveryRouteSnapshot → Call
  terminates : DeliveryId → Call
  renews : ℕ → DeliveryId → DeliveryClaim → ℕ → Call
  completes : ℕ → DeliveryId → DeliveryClaim → DeliveryResult → Call
  releases : DeliveryId → DeliveryClaim → Call

-- The delivery that a call names.
abbrev pub target : Call → DeliveryId
target (records now a) = a.delivery_id
target (retries now id) = id
target (repairs now id route) = id
target (terminates id) = id
target (renews now id claim lease) = id
target (completes now id claim result) = id
target (releases id claim) = id

unfoldable pub transition : Call → Option Cell → Reply
unfolding Contract.record_attempt Contract.retry_dead_letter Contract.repair_dead_letter
    Contract.terminate_dead_letter Contract.renew_claim Contract.complete_claim
    Contract.release_claim
transition (records now a) = Contract.record_attempt now a
transition (retries now id) = Contract.retry_dead_letter now id
transition (repairs now id route) = Contract.repair_dead_letter now id route
transition (terminates id) = Contract.terminate_dead_letter id
transition (renews now id claim lease) = Contract.renew_claim now id claim lease
transition (completes now id claim result) =
    Contract.complete_claim now id claim (delivery_state_from_result result)
transition (releases id claim) = Contract.release_claim id claim

-- The owner and the generation under which a call acts, for the four calls that are fenced.
abbrev pub fence : Call → Option (Text × ℕ)
fence (records now a) = some (a.worker_id, a.claim_generation)
fence (renews now id claim lease) = some (claim.owner_id, claim.generation)
fence (completes now id claim result) = some (claim.owner_id, claim.generation)
fence (releases id claim) = some (claim.owner_id, claim.generation)
fence _ = none
