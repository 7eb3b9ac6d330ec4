-- ===== src/Memory/Claims.antt =====
-- src/adapters/memoryPersistence.ts: `claimPending` and the rounds of its loop.
use engineering_with_effect.Prelude.{
  ℕ, ◌+◌, ◌-◌, max, Bool, false, not, ◌||◌, Option, none, some, List, [], ◌∷◌, ◌++◌, ltb, leb,
  if◌then◌else◌, or_else, length, same_text, ok, Action,
}
use engineering_with_effect.Prelude.Maps
use engineering_with_effect.Prelude.Maps.{Map}
use engineering_with_effect.Model.Ids.{DestinationId, WorkerId}
use engineering_with_effect.Model.Event.{DeliveryClaim, RelayEvent}
use engineering_with_effect.Model.State.{Delivery, is_pending}
use engineering_with_effect.Model.Attempt.{DeliveryAttemptRecord}
use engineering_with_effect.Errors.{RepositoryFailure}
use engineering_with_effect.Services.{ClaimedDelivery}
use engineering_with_effect.Memory.{Store}

abbrev max_ordinal : List DeliveryAttemptRecord → ℕ
max_ordinal [] = 0
max_ordinal (a ∷ as_) = max a.ordinal (max_ordinal as_)

abbrev pub lease_blocks : Option DeliveryClaim → ℕ → Bool
lease_blocks none now = false
lease_blocks (some c) now = ltb now c.lease_expires_at_millis

-- One round of the loop of `claimPending`, with the deliveries claimed so far.
module _ (now : ℕ) (owner_id : WorkerId) (destination_id : DestinationId) (limit lease : ℕ) where
  unfoldable pub skips : Delivery → List ClaimedDelivery → Store → Bool
  skips delivery claimed s =
      leb limit (length claimed)
      || not (is_pending delivery.state)
      || not (same_text delivery.destination_id destination_id)
      || ltb now (or_else (Maps.get s.next_eligible_at delivery.id) 0)
      || lease_blocks (Maps.get s.claims delivery.id) now

  unfoldable pub take_claim :
      Delivery → RelayEvent → List ClaimedDelivery → Store → List ClaimedDelivery × Store
  take_claim delivery event claimed s =
      let generation : ℕ = or_else (Maps.get s.generations delivery.id) 0 + 1 in
      let claim : DeliveryClaim = record {
        owner_id = owner_id;
        generation = generation;
        lease_expires_at_millis = now + lease;
      } in
      let entry : ClaimedDelivery = record {
        claim = claim;
        delivery = delivery;
        event = event;
        claim_lag_millis = now - or_else (Maps.get s.next_eligible_at delivery.id) now;
        next_attempt_ordinal = max_ordinal (or_else (Maps.get s.attempts delivery.id) []) + 1;
        route = Maps.get s.routes delivery.id;
      } in
      (
        claimed ++ entry ∷ [],
        record s {
          generations = Maps.set s.generations delivery.id generation;
          claims = Maps.set s.claims delivery.id claim;
        },
      )

  unfoldable pub claim_round :
      Delivery → List ClaimedDelivery → Store → List ClaimedDelivery × Store
  unfolding skips take_claim
  claim_round delivery claimed s =
      if skips delivery claimed s
      then (claimed, s)
      else elim (Maps.get s.events delivery.event_id) [
        | none ↦ (claimed, s)
        | some event ↦ take_claim delivery event claimed s
      ]

  unfoldable pub claim_rounds :
      List Delivery → List ClaimedDelivery → Store → List ClaimedDelivery × Store
  unfolding claim_round
  claim_rounds [] claimed s = (claimed, s)
  claim_rounds (d ∷ ds) claimed s =
      let (claimed', s') = claim_round d claimed s in claim_rounds ds claimed' s'

  unfoldable pub claim_pending : Action Store RepositoryFailure (List ClaimedDelivery)
  unfolding claim_rounds
  claim_pending s =
      let (claimed, s') = claim_rounds (Maps.values s.records) [] s in (ok claimed, s')
