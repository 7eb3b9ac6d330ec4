-- ===== src/Tests/Samples.antt =====
-- The sample values of the tests.
use engineering_with_effect.Prelude.{none, some, [], codes}
use engineering_with_effect.Model.Ids.{DeliveryId, WorkerId, DestinationId}
use engineering_with_effect.Model.Event.{
  RelayEvent, invoice_created, DeliveryClaim, DeliveryRouteSnapshot,
}
use engineering_with_effect.Model.State.{DeliveryState, Delivery}
use engineering_with_effect.Model.Attempt.{AttemptOutcome, AttemptDecision, DeliveryAttemptRecord}
use engineering_with_effect.Model.Results.{DeliveryResult}
use engineering_with_effect.Services.{ClaimRequest, IntakeRecord}
use engineering_with_effect.Contract.{Cell}

abbrev pub delivery_id : DeliveryId
delivery_id = codes "dlv-1"

abbrev pub other_id : DeliveryId
other_id = codes "dlv-2"

abbrev pub worker : WorkerId
worker = codes "wrk-a"

abbrev pub other_worker : WorkerId
other_worker = codes "wrk-b"

abbrev pub destination : DestinationId
destination = codes "dst-crm"

abbrev pub event : RelayEvent
event = record {
  id = codes "evt-1";
  event_type = invoice_created;
  invoice_id = codes "inv-1";
  amount_cents = 1200;
}

abbrev pub route : DeliveryRouteSnapshot
route = record {
  destination_id = destination;
  endpoint = codes "https://crm.test/";
  configuration_version = 1;
}

abbrev claim_request : ClaimRequest
claim_request = record { owner_id = worker; lease_duration_millis = 500 }

abbrev pub intake : IntakeRecord
intake = record {
  ingestion_key = codes "key-1";
  request_fingerprint = codes "aa";
  event = event;
  delivery_id = delivery_id;
  route = route;
  accepted_at_millis = 1000;
  claim = claim_request;
}

-- With a fingerprint of 64 hexadecimal digits.
abbrev pub first : IntakeRecord
first = record intake {
  request_fingerprint = codes "0123456789abcdef0123456789abcdef0123456789abcdef0123456789abcdef";
}

abbrev pub other_intake : IntakeRecord
other_intake = record intake { request_fingerprint = codes "bb"; delivery_id = other_id }

abbrev pub claim : DeliveryClaim
claim = record { owner_id = worker; generation = 1; lease_expires_at_millis = 1500 }

abbrev pub delivery : Delivery
delivery = record {
  id = delivery_id;
  event_id = event.id;
  destination_id = destination;
  state = DeliveryState.pending;
}

abbrev pub attempt : DeliveryAttemptRecord
attempt = record {
  delivery_id = delivery_id;
  ordinal = 1;
  worker_id = worker;
  claim_generation = 1;
  started_at_millis = 1010;
  completed_at_millis = 1050;
  outcome = AttemptOutcome.retryable;
  decision = AttemptDecision.retry_scheduled;
  status = some 503;
  retry_delay_millis = some 100;
  trace_id = none;
  span_id = none;
}

abbrev pub cell : Cell
cell = record {
  delivery = delivery;
  claim = some claim;
  generation = 1;
  route = some route;
  attempts = [];
  next_eligible_at = 1000;
}

abbrev pub result : DeliveryResult
result =
    DeliveryResult.delivered
      (record { delivery_id = delivery_id; destination_id = destination; attempts = [] }) 200
