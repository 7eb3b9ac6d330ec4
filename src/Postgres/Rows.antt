-- ===== src/Postgres/Rows.antt =====
-- src/adapters/postgres/deliveryRepository.ts: deliveries and attempts as rows, and back.
use engineering_with_effect.Prelude.{ℕ, ◌≡◌, Option, none, some, arith, Text}
use engineering_with_effect.Model.Ids.{DeliveryId, EventId, DestinationId, WorkerId, Url}
use engineering_with_effect.Model.Event.{DeliveryClaim, EventType, DeliveryRouteSnapshot}
use engineering_with_effect.Model.State.{Delivery, DeliveryState, DeadLetterReason}
use engineering_with_effect.Model.Attempt.{DeliveryAttemptRecord, AttemptOutcome, AttemptDecision}
use engineering_with_effect.Model.Results.{DeliveryResult}
use engineering_with_effect.Policy.{delivery_state_from_result}
use engineering_with_effect.Services.{ClaimedDelivery}

-- The names that the column `state` may hold.
pub data StateName : Type 0 where
  pending delivered rejected dead_lettered terminated : StateName

pub record DeliveryRowFields : Type 0 where
  pub delivery_id : DeliveryId
  pub event_id : EventId
  pub destination_id : DestinationId

-- The union of the five kinds of row, each with the columns that are not null.
pub data DeliveryRow : Type 0 where
  pending : DeliveryRowFields → DeliveryRow
  delivered : DeliveryRowFields → ℕ → DeliveryRow
  rejected : DeliveryRowFields → ℕ → DeliveryRow
  dead_lettered : DeliveryRowFields → DeadLetterReason → DeliveryRow
  terminated : DeliveryRowFields → DeliveryRow

abbrev pub row_fields : DeliveryRow → DeliveryRowFields
row_fields (DeliveryRow.pending f) = f
row_fields (DeliveryRow.delivered f status) = f
row_fields (DeliveryRow.rejected f status) = f
row_fields (DeliveryRow.dead_lettered f reason) = f
row_fields (DeliveryRow.terminated f) = f

-- The columns `state`, `status` and `dead_letter_reason`.
pub record StateColumns : Type 0 where
  pub state : StateName
  pub status : Option ℕ
  pub dead_letter_reason : Option DeadLetterReason

abbrev pub encode_state : DeliveryRow → StateColumns
encode_state (DeliveryRow.pending f) = record {
  state = StateName.pending;
  status = none;
  dead_letter_reason = none;
}
encode_state (DeliveryRow.delivered f s) = record {
  state = StateName.delivered;
  status = some s;
  dead_letter_reason = none;
}
encode_state (DeliveryRow.rejected f s) = record {
  state = StateName.rejected;
  status = some s;
  dead_letter_reason = none;
}
encode_state (DeliveryRow.dead_lettered f r) = record {
  state = StateName.dead_lettered;
  status = none;
  dead_letter_reason = some r;
}
encode_state (DeliveryRow.terminated f) = record {
  state = StateName.terminated;
  status = none;
  dead_letter_reason = none;
}

decode_columns :
    DeliveryRowFields → StateName → Option ℕ → Option DeadLetterReason → Option DeliveryRow
decode_columns f StateName.pending none none = some (DeliveryRow.pending f)
decode_columns f StateName.delivered (some s) none = some (DeliveryRow.delivered f s)
decode_columns f StateName.rejected (some s) none = some (DeliveryRow.rejected f s)
decode_columns f StateName.dead_lettered none (some r) = some (DeliveryRow.dead_lettered f r)
decode_columns f StateName.terminated none none = some (DeliveryRow.terminated f)
decode_columns f state status reason = none

-- The schema `DeliveryRow`, read: `none` where no member of the union fits.
unfoldable pub decode_row : DeliveryRowFields → StateColumns → Option DeliveryRow
unfolding decode_columns
decode_row f c = decode_columns f c.state c.status c.dead_letter_reason

state_row : DeliveryRowFields → DeliveryState → DeliveryRow
state_row f DeliveryState.pending = DeliveryRow.pending f
state_row f (DeliveryState.delivered s) = DeliveryRow.delivered f s
state_row f (DeliveryState.rejected s) = DeliveryRow.rejected f s
state_row f (DeliveryState.dead_lettered r) = DeliveryRow.dead_lettered f r
state_row f DeliveryState.terminated = DeliveryRow.terminated f

unfoldable pub delivery_to_row : Delivery → DeliveryRow
unfolding state_row
delivery_to_row d =
    state_row
      (record { delivery_id = d.id; event_id = d.event_id; destination_id = d.destination_id })
      d.state

unfoldable row_state : DeliveryRow → DeliveryState
row_state (DeliveryRow.pending f) = DeliveryState.pending
row_state (DeliveryRow.delivered f s) = DeliveryState.delivered s
row_state (DeliveryRow.rejected f s) = DeliveryState.rejected s
row_state (DeliveryRow.dead_lettered f r) = DeliveryState.dead_lettered r
row_state (DeliveryRow.terminated f) = DeliveryState.terminated

unfoldable pub row_to_delivery : DeliveryRow → Delivery
unfolding row_state
row_to_delivery r = record {
  id = (row_fields r).delivery_id;
  event_id = (row_fields r).event_id;
  destination_id = (row_fields r).destination_id;
  state = row_state r;
}

pub record DeliveryClaimRow : Type 0 where
  pub claim_owner : WorkerId
  pub claim_generation : ℕ
  pub lease_expires_at_ms : ℕ

unfoldable pub row_to_claim : DeliveryClaimRow → DeliveryClaim
row_to_claim r = record {
  owner_id = r.claim_owner;
  generation = r.claim_generation;
  lease_expires_at_millis = r.lease_expires_at_ms;
}

pub record ClaimedDeliveryRow : Type 0 where
  pub fields : DeliveryRowFields
  pub event_type : EventType
  pub invoice_id : Text
  pub amount_cents : ℕ
  pub destination_url : Option Url
  pub configuration_version : Option ℕ
  pub claim_lag_ms : ℕ
  pub next_attempt_ordinal : ℕ
  pub claim : DeliveryClaimRow

abbrev pub route_of : DestinationId → Option Url → Option ℕ → Option DeliveryRouteSnapshot
route_of id (some url) (some version) =
    some (record { destination_id = id; endpoint = url; configuration_version = version })
route_of id url version = none

unfoldable pub row_to_claimed_delivery : ClaimedDeliveryRow → ClaimedDelivery
unfolding row_to_claim
row_to_claimed_delivery r = record {
  claim = row_to_claim r.claim;
  delivery = record {
    id = r.fields.delivery_id;
    event_id = r.fields.event_id;
    destination_id = r.fields.destination_id;
    state = DeliveryState.pending;
  };
  event = record {
    id = r.fields.event_id;
    event_type = r.event_type;
    invoice_id = r.invoice_id;
    amount_cents = r.amount_cents;
  };
  claim_lag_millis = r.claim_lag_ms;
  next_attempt_ordinal = r.next_attempt_ordinal;
  route = route_of r.fields.destination_id r.destination_url r.configuration_version;
}

pub record DeliveryCompletionRow : Type 0 where
  pub delivery_id : DeliveryId
  pub claim_owner : WorkerId
  pub claim_generation : ℕ
  pub columns : StateColumns

abbrev completion_columns : DeliveryState → StateColumns
completion_columns DeliveryState.pending = record {
  state = StateName.pending;
  status = none;
  dead_letter_reason = none;
}
completion_columns (DeliveryState.delivered s) = record {
  state = StateName.delivered;
  status = some s;
  dead_letter_reason = none;
}
completion_columns (DeliveryState.rejected s) = record {
  state = StateName.rejected;
  status = some s;
  dead_letter_reason = none;
}
completion_columns (DeliveryState.dead_lettered r) = record {
  state = StateName.dead_lettered;
  status = none;
  dead_letter_reason = some r;
}
completion_columns DeliveryState.terminated = record {
  state = StateName.pending;
  status = none;
  dead_letter_reason = none;
}

unfoldable pub delivery_completion_row :
    DeliveryId → DeliveryClaim → DeliveryResult → DeliveryCompletionRow
unfolding delivery_state_from_result
delivery_completion_row id claim result = record {
  delivery_id = id;
  claim_owner = claim.owner_id;
  claim_generation = claim.generation;
  columns = completion_columns (delivery_state_from_result result);
}

pub record DeliveryAttemptRow : Type 0 where
  pub delivery_id : DeliveryId
  pub ordinal : ℕ
  pub claim_owner : WorkerId
  pub claim_generation : ℕ
  pub started_at_ms : ℕ
  pub completed_at_ms : ℕ
  pub outcome : AttemptOutcome
  pub decision : AttemptDecision
  pub status : Option ℕ
  pub retry_delay_ms : Option ℕ
  pub trace_id : Option Text
  pub span_id : Option Text

unfoldable pub attempt_to_row : DeliveryAttemptRecord → DeliveryAttemptRow
attempt_to_row a = record {
  delivery_id = a.delivery_id;
  ordinal = a.ordinal;
  claim_owner = a.worker_id;
  claim_generation = a.claim_generation;
  started_at_ms = a.started_at_millis;
  completed_at_ms = a.completed_at_millis;
  outcome = a.outcome;
  decision = a.decision;
  status = a.status;
  retry_delay_ms = a.retry_delay_millis;
  trace_id = a.trace_id;
  span_id = a.span_id;
}

unfoldable pub row_to_attempt : DeliveryAttemptRow → DeliveryAttemptRecord
row_to_attempt r = record {
  delivery_id = r.delivery_id;
  ordinal = r.ordinal;
  worker_id = r.claim_owner;
  claim_generation = r.claim_generation;
  started_at_millis = r.started_at_ms;
  completed_at_millis = r.completed_at_ms;
  outcome = r.outcome;
  decision = r.decision;
  status = r.status;
  retry_delay_millis = r.retry_delay_ms;
  trace_id = r.trace_id;
  span_id = r.span_id;
}

-- A delivery comes back from its row, through the columns and the schema that reads them.
pub delivery_row_round_trip :
    (d : Delivery)
    → (r : DeliveryRow) × (decode_row
          (row_fields (delivery_to_row d))
          (encode_state (delivery_to_row d))
        ≡ some r)
      × (row_to_delivery r ≡ d)
unfolding decode_row delivery_to_row row_to_delivery
delivery_row_round_trip d = (delivery_to_row d, ground arith, ground arith)
