-- ===== src/Postgres/Tables.antt =====
-- src/adapters/postgres/migrations.ts: the tables after every migration, with their constraints.
use engineering_with_effect.Prelude.{
  ℕ, Bool, true, false, not, ◌&&◌, ◌||◌, Option, none, some, List, [], ◌∷◌, ltb, leb, ◌==◌,
  if◌then◌else◌, is_some, Text, same_text, Result, ok, err, Action,
}
use engineering_with_effect.Prelude.Maps
use engineering_with_effect.Model.Ids.{
  DeliveryId, EventId, DestinationId, WorkerId, InvoiceId, IngestionKey, RequestFingerprint, Url,
  is_worker_id, is_trace_hex, is_request_fingerprint,
}
use engineering_with_effect.Model.Event.{EventType}
use engineering_with_effect.Model.State.{DeadLetterReason}
use engineering_with_effect.Model.Attempt.{
  carries_status, is_retryable_tag, is_retry_scheduled, is_terminal,
}
use engineering_with_effect.Postgres.Rows.{StateName, StateColumns, DeliveryAttemptRow}

pub record EventTableRow : Type 0 where
  pub event_id : EventId
  pub event_type : EventType
  pub invoice_id : InvoiceId
  pub amount_cents : ℕ
  pub ingestion_key : Option IngestionKey
  pub request_fingerprint : Option RequestFingerprint
  pub accepted_at_ms : Option ℕ

pub record DeliveryTableRow : Type 0 where
  pub delivery_id : DeliveryId
  pub event_id : EventId
  pub destination_id : DestinationId
  pub columns : StateColumns
  pub destination_url : Option Url
  pub configuration_version : Option ℕ
  pub claim_owner : Option WorkerId
  pub claim_generation : ℕ
  pub lease_expires_at_ms : Option ℕ
  pub next_eligible_at_ms : ℕ

-- `deliveries` and `relay_events` by primary key, and `delivery_attempts` in the order of insertion.
pub record Tables : Type 0 where
  pub relay_events : Maps.Map EventTableRow
  pub deliveries : Maps.Map DeliveryTableRow
  pub delivery_attempts : List DeliveryAttemptRow

abbrev pub empty_tables : Tables
empty_tables = record { relay_events = []; deliveries = []; delivery_attempts = [] }

abbrev pub is_pending_name : StateName → Bool
is_pending_name StateName.pending = true
is_pending_name _ = false

abbrev pub is_dead_lettered_name : StateName → Bool
is_dead_lettered_name StateName.dead_lettered = true
is_dead_lettered_name _ = false

-- `deliveries_state_status_check`. A check that comes to null passes: `IN` on a null reason does, so
-- that a dead letter without a reason is let through.
state_status_check : StateName → Option ℕ → Option DeadLetterReason → Bool
state_status_check StateName.pending none none = true
state_status_check StateName.terminated none none = true
state_status_check StateName.delivered (some s) none = true
state_status_check StateName.rejected (some s) none = true
state_status_check StateName.dead_lettered none reason = true
state_status_check state status reason = false

-- `deliveries_claim_lease_complete_check`: AND binds before OR.
claim_lease_check : Option WorkerId → ℕ → Option ℕ → StateName → Bool
claim_lease_check none generation none state = true
claim_lease_check (some owner) generation (some expiry) state =
    is_worker_id owner && ltb 0 generation && is_pending_name state
claim_lease_check owner generation expiry state = false

-- `deliveries_route_snapshot_check`
route_snapshot_check : Option Url → Option ℕ → Bool
route_snapshot_check none none = true
route_snapshot_check (some url) (some version) = ltb 0 version
route_snapshot_check url version = false

-- The checks of `deliveries`.
unfoldable pub meets_checks : DeliveryTableRow → Bool
unfolding state_status_check claim_lease_check route_snapshot_check
meets_checks r =
    state_status_check r.columns.state r.columns.status r.columns.dead_letter_reason
    && claim_lease_check r.claim_owner r.claim_generation r.lease_expires_at_ms r.columns.state
    && route_snapshot_check r.destination_url r.configuration_version

-- `delivery_attempts_trace_check`, which comes to null, and passes, where only one identifier is there
-- and its own conditions hold.
trace_check : Option Text → Option Text → Bool
trace_check none none = true
trace_check (some t) (some s) = is_trace_hex 32 t && is_trace_hex 16 s
trace_check (some t) none = is_trace_hex 32 t
trace_check none (some s) = is_trace_hex 16 s

-- The checks of `delivery_attempts`.
unfoldable pub meets_attempt_checks : DeliveryAttemptRow → Bool
unfolding trace_check
meets_attempt_checks a =
    ltb 0 a.ordinal
    && ltb 0 a.claim_generation
    && leb a.started_at_ms a.completed_at_ms
    && (if is_retry_scheduled a.decision
        then is_some a.retry_delay_ms
        else not (is_some a.retry_delay_ms))
    && (if carries_status a.outcome then is_some a.status else not (is_some a.status))
    && (if is_terminal a.decision
        then not (is_retryable_tag a.outcome)
        else is_retryable_tag a.outcome)
    && trace_check a.trace_id a.span_id

-- The primary key `(delivery_id, ordinal)`.
unfoldable pub has_attempt : List DeliveryAttemptRow → DeliveryId → ℕ → Bool
has_attempt [] id ordinal = false
has_attempt (a ∷ as_) id ordinal =
    (same_text a.delivery_id id && a.ordinal == ordinal) || has_attempt as_ id ordinal

-- `relay_events_amount_check` and `relay_events_intake_complete_check`
intake_check : Option IngestionKey → Option RequestFingerprint → Option ℕ → Bool
intake_check none none none = true
intake_check (some key) (some fingerprint) (some accepted) = is_request_fingerprint fingerprint
intake_check key fingerprint accepted = false

unfoldable pub meets_event_checks : EventTableRow → Bool
unfolding intake_check
meets_event_checks e =
    ltb 0 e.amount_cents && intake_check e.ingestion_key e.request_fingerprint e.accepted_at_ms

-- What a statement that breaks a constraint fails with; it changes nothing.
pub data SqlError : Type 0 where
  constraint_violation : SqlError

-- A statement: its rows, or an error, and the tables that it leaves.
abbrev pub Statement : Type 0 → Type 0
Statement A = Action Tables SqlError A

-- `UPDATE deliveries … WHERE delivery_id = id AND condition RETURNING …`, which a broken check
-- undoes.
abbrev changed : DeliveryTableRow → Tables → Result SqlError (List DeliveryTableRow) × Tables
changed r t =
    if meets_checks r
    then (ok (r ∷ []), record t { deliveries = Maps.set t.deliveries r.delivery_id r })
    else (err constraint_violation, t)

unfoldable pub update_delivery :
    DeliveryId
    → (DeliveryTableRow → Bool)
    → (DeliveryTableRow → DeliveryTableRow)
    → Statement (List DeliveryTableRow)
update_delivery id condition change t = elim (Maps.get t.deliveries id) [
  | none ↦ (ok [], t)
  | some r ↦ if condition r then changed (change r) t else (ok [], t)
]

-- `column = value`, which a null does not meet.
abbrev pub is_text : Option Text → Text → Bool
is_text none v = false
is_text (some u) v = same_text u v

abbrev pub is_after : Option ℕ → ℕ → Bool
is_after none now = false
is_after (some expiry) now = ltb now expiry
