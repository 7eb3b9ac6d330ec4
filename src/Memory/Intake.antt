-- ===== src/Memory/Intake.antt =====
-- src/adapters/memoryPersistence.ts: the intake store, which shares the repository's maps.
use engineering_with_effect.Prelude.{
  ℕ, ◌+◌, not, none, some, if◌then◌else◌, same_text, ok, err, Action,
}
use engineering_with_effect.Prelude.Maps
use engineering_with_effect.Model.Ids.{DeliveryId, DestinationId}
use engineering_with_effect.Model.Event.{DeliveryClaim, RelayEvent}
use engineering_with_effect.Model.State.{Delivery, DeliveryState}
use engineering_with_effect.Errors.{IntakeFailure, ingestion_conflict}
use engineering_with_effect.Services.{
  ClaimedDelivery, ClaimRequest, IntakeRecord, IntakeDecisionFields, IntakeDecision, accepted,
  replay,
}
use engineering_with_effect.Memory.{Store}

unfoldable pub pending_delivery : DeliveryId → RelayEvent → DestinationId → Delivery
pending_delivery id event destination_id = record {
  id = id;
  event_id = event.id;
  destination_id = destination_id;
  state = DeliveryState.pending;
}

unfoldable pub first_claim : ℕ → ClaimRequest → DeliveryClaim
first_claim now request = record {
  owner_id = request.owner_id;
  generation = 1;
  lease_expires_at_millis = now + request.lease_duration_millis;
}

unfoldable pub accept_new : ℕ → IntakeRecord → Action Store IntakeFailure IntakeDecision
unfolding pending_delivery first_claim
accept_new now r s =
    let delivery = pending_delivery r.delivery_id r.event r.route.destination_id in
    let decision : IntakeDecisionFields = record {
      event = r.event;
      delivery = delivery;
      route = r.route;
      accepted_at_millis = r.accepted_at_millis;
    } in
    let claim = first_claim now r.claim in
    (
      ok (accepted decision claim),
      record {
        events = Maps.set s.events r.event.id r.event;
        records = Maps.set s.records delivery.id delivery;
        routes = Maps.set s.routes delivery.id r.route;
        generations = Maps.set s.generations delivery.id 1;
        claims = Maps.set s.claims delivery.id claim;
        attempts = s.attempts;
        next_eligible_at = Maps.set s.next_eligible_at delivery.id r.accepted_at_millis;
        intakes =
            Maps.set s.intakes r.ingestion_key
              (record { request_fingerprint = r.request_fingerprint; decision = decision });
      },
    )

unfoldable pub accept : ℕ → IntakeRecord → Action Store IntakeFailure IntakeDecision
unfolding accept_new
accept now r s = elim (Maps.get s.intakes r.ingestion_key) [
  | none ↦ accept_new now r s
  | some existing ↦
      if not (same_text existing.request_fingerprint r.request_fingerprint)
      then (err (ingestion_conflict r.ingestion_key existing.decision.event.id), s)
      else (ok (replay existing.decision), s)
]

unfoldable pub save_pending :
    ℕ
    → RelayEvent
    → DeliveryId
    → DestinationId
    → ClaimRequest
    → Action Store IntakeFailure ClaimedDelivery
unfolding pending_delivery first_claim
save_pending now event id destination_id request s =
    let delivery = pending_delivery id event destination_id in
    let claim = first_claim now request in
    let claimed : ClaimedDelivery = record {
      claim = claim;
      claim_lag_millis = 0;
      delivery = delivery;
      event = event;
      next_attempt_ordinal = 1;
      route = none;
    } in
    (
      ok claimed,
      record s {
        events = Maps.set s.events event.id event;
        records = Maps.set s.records delivery.id delivery;
        next_eligible_at = Maps.set s.next_eligible_at delivery.id now;
        generations = Maps.set s.generations delivery.id 1;
        claims = Maps.set s.claims delivery.id claim;
      },
    )
