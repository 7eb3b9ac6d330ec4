-- ===== src/Postgres/Intake.antt =====
-- src/adapters/postgres/intakeStore.ts: acceptance and storing as transactions, which a failure rolls
-- back as a whole. `now` is the reading of the database's clock.
use engineering_with_effect.Prelude.{
  ℕ, ◌+◌, Bool, false, not, ◌&&◌, Option, none, some, List, [], ◌∷◌, if◌then◌else◌, sort_by, select,
  Text, same_text, Result, ok, err, Action,
}
use engineering_with_effect.Prelude.Maps
use engineering_with_effect.Model.Ids.{DeliveryId, DestinationId, IngestionKey}
use engineering_with_effect.Model.Event.{RelayEvent, DeliveryRouteSnapshot, DeliveryClaim}
use engineering_with_effect.Model.State.{Delivery, DeliveryState}
use engineering_with_effect.Errors.{
  IntakeFailure, IntakeOperation, intake_store_error, ingestion_conflict,
}
use engineering_with_effect.Services.{
  ClaimRequest, ClaimedDelivery, IntakeRecord, IntakeDecision, IntakeDecisionFields, accepted,
  replay,
}
use engineering_with_effect.Postgres.Rows.{encode_state, delivery_to_row, route_of}
use engineering_with_effect.Postgres.Tables.{
  Tables, EventTableRow, DeliveryTableRow, meets_checks, meets_event_checks,
}

abbrev pub pending_delivery : DeliveryId → RelayEvent → DestinationId → Delivery
pending_delivery id event destination = record {
  id = id;
  event_id = event.id;
  destination_id = destination;
  state = DeliveryState.pending;
}

-- The first claim, as `RETURNING` gives it back.
abbrev first_claim : ℕ → ClaimRequest → DeliveryClaim
first_claim now q = record {
  owner_id = q.owner_id;
  generation = 1;
  lease_expires_at_millis = now + q.lease_duration_millis;
}

-- `INSERT INTO deliveries`, with the route or without; `next_eligible_at_ms` takes its default.
unfoldable pub new_delivery_row :
    ℕ → Delivery → Option DeliveryRouteSnapshot → ClaimRequest → DeliveryTableRow
unfolding delivery_to_row
new_delivery_row now d route q = record {
  delivery_id = d.id;
  event_id = d.event_id;
  destination_id = d.destination_id;
  columns = encode_state (delivery_to_row d);
  destination_url = elim route [ none ↦ none | some r ↦ some r.endpoint ];
  configuration_version = elim route [ none ↦ none | some r ↦ some r.configuration_version ];
  claim_owner = some q.owner_id;
  claim_generation = 1;
  lease_expires_at_ms = some (now + q.lease_duration_millis);
  next_eligible_at_ms = now;
}

unfoldable pub accepted_event_row : IntakeRecord → EventTableRow
accepted_event_row r = record {
  event_id = r.event.id;
  event_type = r.event.event_type;
  invoice_id = r.event.invoice_id;
  amount_cents = r.event.amount_cents;
  ingestion_key = some r.ingestion_key;
  request_fingerprint = some r.request_fingerprint;
  accepted_at_ms = some r.accepted_at_millis;
}

unfoldable pub saved_event_row : RelayEvent → EventTableRow
saved_event_row e = record {
  event_id = e.id;
  event_type = e.event_type;
  invoice_id = e.invoice_id;
  amount_cents = e.amount_cents;
  ingestion_key = none;
  request_fingerprint = none;
  accepted_at_ms = none;
}

-- Both insertions of one transaction; `none` where one breaks a constraint.
unfoldable pub insert_both : EventTableRow → DeliveryTableRow → Tables → Option Tables
unfolding Maps.has
insert_both e d t =
    if not (Maps.has t.relay_events e.event_id)
      && meets_event_checks e
      && not (Maps.has t.deliveries d.delivery_id)
      && meets_checks d
    then some (record t {
      relay_events = Maps.set t.relay_events e.event_id e;
      deliveries = Maps.set t.deliveries d.delivery_id d;
    })
    else none

abbrev pub has_key : Option IngestionKey → IngestionKey → Bool
has_key none key = false
has_key (some k) key = same_text k key

-- The row that has the key, which is unique among the rows.
unfoldable pub event_with_key : List EventTableRow → IngestionKey → Option EventTableRow
event_with_key [] key = none
event_with_key (e ∷ es) key = if has_key e.ingestion_key key then some e else event_with_key es key

abbrev pub first_row : List DeliveryTableRow → Option DeliveryTableRow
first_row [] = none
first_row (r ∷ rs) = some r

-- The schema `ExistingIntakeRow` of the joined row, and the decision made of it.
existing_decision :
    EventTableRow
    → DeliveryTableRow
    → Option Text
    → Option ℕ
    → Option DeliveryRouteSnapshot
    → Option (Text × IntakeDecisionFields)
existing_decision e d (some fingerprint) (some accepted_at) (some route) = some (
  fingerprint,
  record {
    event = record {
      id = e.event_id;
      event_type = e.event_type;
      invoice_id = e.invoice_id;
      amount_cents = e.amount_cents;
    };
    delivery = record {
      id = d.delivery_id;
      event_id = e.event_id;
      destination_id = d.destination_id;
      state = DeliveryState.pending;
    };
    route = route;
    accepted_at_millis = accepted_at;
  },
)
existing_decision e d fingerprint accepted_at route = none

-- What is answered where the key is taken.
unfoldable pub existing_answer :
    (Text → Text → Bool)
    → EventTableRow
    → IntakeRecord
    → Tables
    → Result IntakeFailure IntakeDecision
unfolding existing_decision
existing_answer collates e r t =
    let failed : Result IntakeFailure IntakeDecision =
      err (intake_store_error IntakeOperation.accept) in
    elim (first_row (
      sort_by (λ x y. collates x.delivery_id y.delivery_id)
        (select (λ d. same_text d.event_id e.event_id) (Maps.values t.deliveries)))) [
          | none ↦ failed
          | some d ↦
              elim (existing_decision e d e.request_fingerprint e.accepted_at_ms
                (route_of d.destination_id d.destination_url d.configuration_version)) [
                  | none ↦ failed
                  | some (fingerprint, f) ↦
                      if not (same_text fingerprint r.request_fingerprint)
                      then err (ingestion_conflict r.ingestion_key e.event_id)
                      else ok (replay f)
                ]
        ]

unfoldable pub accept :
    (Text → Text → Bool) → ℕ → IntakeRecord → Action Tables IntakeFailure IntakeDecision
unfolding event_with_key insert_both existing_answer new_delivery_row accepted_event_row
accept collates now r t =
    let delivery = pending_delivery r.delivery_id r.event r.route.destination_id in
    elim (event_with_key (Maps.values t.relay_events) r.ingestion_key) [
      | some e ↦ (existing_answer collates e r t, t)
      | none ↦
          elim (insert_both (accepted_event_row r)
            (new_delivery_row now delivery (some r.route) r.claim) t) [
              | none ↦ (err (intake_store_error IntakeOperation.accept), t)
              | some t' ↦ (
                ok (
                    accepted
                      (record {
                        event = r.event;
                        delivery = delivery;
                        route = r.route;
                        accepted_at_millis = r.accepted_at_millis;
                      })
                      (first_claim now r.claim)),
                t',
              )
            ]
    ]

unfoldable pub save_pending :
    ℕ
    → RelayEvent
    → DeliveryId
    → DestinationId
    → ClaimRequest
    → Action Tables IntakeFailure ClaimedDelivery
unfolding insert_both new_delivery_row saved_event_row
save_pending now event id destination q t =
    let delivery = pending_delivery id event destination in
    elim (insert_both (saved_event_row event) (new_delivery_row now delivery none q) t) [
      | none ↦ (err (intake_store_error IntakeOperation.save_pending), t)
      | some t' ↦ (
        ok (record {
          claim = first_claim now q;
          delivery = delivery;
          event = event;
          claim_lag_millis = 0;
          next_attempt_ordinal = 1;
          route = none;
        }),
        t',
      )
    ]
