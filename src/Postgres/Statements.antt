-- ===== src/Postgres/Statements.antt =====
-- src/adapters/postgres/deliveryRepository.ts: the SQL statements. `now` is the reading of the
-- database's clock, `claim_clock.now_ms`.
use engineering_with_effect.Prelude.{
  ℕ, ◌+◌, Bool, not, ◌&&◌, Option, none, some, List, [], ◌∷◌, ◌++◌, leb, ◌==◌, if◌then◌else◌,
  or_else, take, sort_by, select, Text, same_text, Result, ok, err,
}
use engineering_with_effect.Prelude.Maps
use engineering_with_effect.Model.Ids.{DeliveryId, DestinationId, WorkerId, Url}
use engineering_with_effect.Model.State.{
  DeadLetterReason, provider_protocol_failure, retry_budget_exhausted,
}
use engineering_with_effect.Model.Attempt.{AttemptOutcome, AttemptDecision}
use engineering_with_effect.Postgres.Rows.{
  StateName, StateColumns, DeliveryRow, DeliveryAttemptRow, DeliveryCompletionRow, row_fields,
  encode_state,
}
use engineering_with_effect.Postgres.Tables.{
  Tables, SqlError, DeliveryTableRow, Statement, constraint_violation, meets_checks,
  meets_attempt_checks, has_attempt, update_delivery, is_text, is_after, is_pending_name,
  is_dead_lettered_name,
}

-- The inserted row: the claim's columns take their defaults.
unfoldable pub saved_row : ℕ → DeliveryRow → DeliveryTableRow
saved_row now row = record {
  delivery_id = (row_fields row).delivery_id;
  event_id = (row_fields row).event_id;
  destination_id = (row_fields row).destination_id;
  columns = encode_state row;
  destination_url = none;
  configuration_version = none;
  claim_owner = none;
  claim_generation = 0;
  lease_expires_at_ms = none;
  next_eligible_at_ms = now;
}

-- `INSERT … ON CONFLICT (delivery_id) DO NOTHING`; `event_id` refers to `relay_events`.
unfoldable pub save : ℕ → DeliveryRow → Statement Unit
unfolding saved_row Maps.has
save now row t =
    let f = row_fields row in
    if Maps.has t.deliveries f.delivery_id
    then (ok tt, t)
    else if Maps.has t.relay_events f.event_id && meets_checks (saved_row now row)
    then (ok tt, record t { deliveries = Maps.set t.deliveries f.delivery_id (saved_row now row) })
    else (err constraint_violation, t)

unfoldable pub find_by_id : DeliveryId → Statement (List DeliveryTableRow)
find_by_id id t = (ok (elim (Maps.get t.deliveries id) [ none ↦ [] | some r ↦ r ∷ [] ]), t)

-- `WHERE delivery_id = id`, in the order of insertion.
abbrev pub attempts_of : Tables → DeliveryId → List DeliveryAttemptRow
attempts_of t id = select (λ a. same_text a.delivery_id id) t.delivery_attempts

unfoldable pub find_attempts : DeliveryId → Statement (List DeliveryAttemptRow)
find_attempts id t = (ok (sort_by (λ l r. leb l.ordinal r.ordinal) (attempts_of t id)), t)

-- The `CASE` expressions of `recordAttempt`.
abbrev case_state : AttemptDecision → AttemptOutcome → StateName → StateName
case_state AttemptDecision.terminal AttemptOutcome.delivered state = StateName.delivered
case_state AttemptDecision.terminal AttemptOutcome.rejected state = StateName.rejected
case_state AttemptDecision.terminal AttemptOutcome.protocol_failure state = StateName.dead_lettered
case_state AttemptDecision.exhausted outcome state = StateName.dead_lettered
case_state decision outcome state = state

abbrev case_status : AttemptDecision → AttemptOutcome → Option ℕ → Option ℕ → Option ℕ
case_status AttemptDecision.terminal AttemptOutcome.delivered status old = status
case_status AttemptDecision.terminal AttemptOutcome.rejected status old = status
case_status decision outcome status old = old

abbrev case_reason :
    AttemptDecision → AttemptOutcome → Option DeadLetterReason → Option DeadLetterReason
case_reason AttemptDecision.terminal AttemptOutcome.protocol_failure old =
    some provider_protocol_failure
case_reason AttemptDecision.exhausted outcome old = some retry_budget_exhausted
case_reason decision outcome old = old

-- A null delay would make the sum null, which the column refuses: the schema excludes it.
abbrev case_eligible : DeliveryAttemptRow → AttemptDecision → ℕ → ℕ
case_eligible a AttemptDecision.retry_scheduled old = a.completed_at_ms + or_else a.retry_delay_ms 0
case_eligible a decision old = old

abbrev case_claim : AttemptDecision → {A : Type 0} → Option A → Option A
case_claim AttemptDecision.retry_scheduled old = old
case_claim decision old = none

unfoldable pub recorded_row : DeliveryAttemptRow → DeliveryTableRow → DeliveryTableRow
recorded_row a r = record r {
  columns = record {
    state = case_state a.decision a.outcome r.columns.state;
    status = case_status a.decision a.outcome a.status r.columns.status;
    dead_letter_reason = case_reason a.decision a.outcome r.columns.dead_letter_reason;
  };
  next_eligible_at_ms = case_eligible a a.decision r.next_eligible_at_ms;
  claim_owner = case_claim a.decision r.claim_owner;
  lease_expires_at_ms = case_claim a.decision r.lease_expires_at_ms;
}

-- `state = 'Pending'`, with the claim's owner and generation.
abbrev is_owned : WorkerId → ℕ → DeliveryTableRow → Bool
is_owned owner generation r =
    is_pending_name r.columns.state
    && is_text r.claim_owner owner
    && r.claim_generation == generation

abbrev pub is_leased : WorkerId → ℕ → ℕ → DeliveryTableRow → Bool
is_leased owner generation now r = is_owned owner generation r && is_after r.lease_expires_at_ms now

-- `INSERT INTO delivery_attempts … SELECT … FROM owned_delivery`
insert_attempt :
    DeliveryAttemptRow
    → Tables
    → List DeliveryTableRow
    → Tables
    → Result SqlError (List DeliveryId) × Tables
insert_attempt a before [] t = (ok [], t)
insert_attempt a before (r ∷ rs) t =
    if meets_attempt_checks a && not (has_attempt t.delivery_attempts a.delivery_id a.ordinal)
    then (ok (a.delivery_id ∷ []), record t { delivery_attempts = t.delivery_attempts ++ a ∷ [] })
    else (err constraint_violation, before)

-- One statement: where the insertion fails, the update is undone with it.
unfoldable pub record_attempt : ℕ → DeliveryAttemptRow → Statement (List DeliveryId)
unfolding update_delivery recorded_row insert_attempt
record_attempt now a t =
    let (r, t') =
      update_delivery a.delivery_id (is_leased a.claim_owner a.claim_generation now)
        (recorded_row a) t in
    elim r [ err e ↦ (err e, t) | ok rows ↦ insert_attempt a t rows t' ]

-- The collation of the database orders the identifiers.
unfoldable pub list_dead_letters : (Text → Text → Bool) → ℕ → Statement (List DeliveryTableRow)
list_dead_letters collates limit t = (
  ok (
      take limit (
        sort_by (λ l r. collates l.delivery_id r.delivery_id)
          (select (λ r. is_dead_lettered_name r.columns.state) (Maps.values t.deliveries)))),
  t,
)

abbrev cleared : StateName → StateColumns
cleared name = record { state = name; status = none; dead_letter_reason = none }

abbrev is_dead : DeliveryTableRow → Bool
is_dead r = is_dead_lettered_name r.columns.state

unfoldable pub retry_dead_letter : ℕ → DeliveryId → Statement (List DeliveryTableRow)
unfolding update_delivery
retry_dead_letter now id = update_delivery id is_dead (λ r. record r {
  columns = cleared StateName.pending;
  claim_owner = none;
  lease_expires_at_ms = none;
  next_eligible_at_ms = now;
})

pub record DeadLetterRepairRequest : Type 0 where
  pub delivery_id : DeliveryId
  pub destination_id : DestinationId
  pub destination_url : Url
  pub configuration_version : ℕ

unfoldable pub repair_dead_letter : ℕ → DeadLetterRepairRequest → Statement (List DeliveryTableRow)
unfolding update_delivery
repair_dead_letter now q =
    update_delivery q.delivery_id (λ r. same_text r.destination_id q.destination_id && is_dead r)
      (λ r. record r {
        columns = cleared StateName.pending;
        destination_url = some q.destination_url;
        configuration_version = some q.configuration_version;
        claim_owner = none;
        lease_expires_at_ms = none;
        next_eligible_at_ms = now;
      })

unfoldable pub terminate_dead_letter : DeliveryId → Statement (List DeliveryTableRow)
unfolding update_delivery
terminate_dead_letter id = update_delivery id is_dead (λ r. record r {
  columns = cleared StateName.terminated;
  claim_owner = none;
  lease_expires_at_ms = none;
})

unfoldable pub renew_claim : ℕ → DeliveryId → WorkerId → ℕ → ℕ → Statement (List DeliveryTableRow)
unfolding update_delivery
renew_claim now id owner generation lease =
    update_delivery id (is_leased owner generation now)
      (λ r. record r { lease_expires_at_ms = some (now + lease) })

unfoldable pub complete_claim : ℕ → DeliveryCompletionRow → Statement (List DeliveryTableRow)
unfolding update_delivery
complete_claim now q =
    update_delivery q.delivery_id (is_leased q.claim_owner q.claim_generation now)
      (λ r. record r { columns = q.columns; claim_owner = none; lease_expires_at_ms = none })

unfoldable pub release_claim : DeliveryId → WorkerId → ℕ → Statement (List DeliveryTableRow)
unfolding update_delivery
release_claim id owner generation =
    update_delivery id (is_owned owner generation)
      (λ r. record r { claim_owner = none; lease_expires_at_ms = none })
