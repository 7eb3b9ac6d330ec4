-- ===== src/Postgres/View.antt =====
-- The durable facts of one delivery in the tables, and the invariant of its row.
use engineering_with_effect.Prelude.{
  Bool, ◌&&◌, is_some, arith, ◌<◌, ◌≡◌, true, Option, none, some, List, map, Action,
}
use engineering_with_effect.Prelude.Maps
use engineering_with_effect.Model.Ids.{DeliveryId}
use engineering_with_effect.Model.Event.{DeliveryClaim}
use engineering_with_effect.Model.Attempt.{DeliveryAttemptRecord, has_valid_fields, is_consistent}
use engineering_with_effect.Errors.{RepositoryFailure}
use engineering_with_effect.Memory.Calls.{void}
use engineering_with_effect.Contract.{Cell}
use engineering_with_effect.Contract.Calls.{
  Call, records, retries, repairs, terminates, renews, completes, releases,
}
use engineering_with_effect.Model.State.{DeadLetterReason}
use engineering_with_effect.Postgres.Rows.{
  StateName, DeliveryRow, DeliveryClaimRow, row_to_delivery, row_to_claim, row_to_attempt, route_of,
  decode_row,
}
use engineering_with_effect.Postgres.Tables.{Tables, DeliveryTableRow, meets_checks}
use engineering_with_effect.Postgres.Statements.{attempts_of}
use engineering_with_effect.Postgres.Adapter
use engineering_with_effect.Postgres.Adapter.{decode_delivery, decode_claim}

abbrev claim_in : Option DeliveryClaimRow → Option DeliveryClaim
claim_in none = none
claim_in (some r) = some (row_to_claim r)

abbrev pub history_of : Tables → DeliveryId → List DeliveryAttemptRecord
history_of t id = map row_to_attempt (attempts_of t id)

abbrev pub cell_with : List DeliveryAttemptRecord → DeliveryTableRow → DeliveryRow → Cell
cell_with history r d = record {
  delivery = row_to_delivery d;
  claim = claim_in (decode_claim r);
  generation = r.claim_generation;
  route = route_of r.destination_id r.destination_url r.configuration_version;
  attempts = history;
  next_eligible_at = r.next_eligible_at_ms;
}

abbrev pub row_view : List DeliveryAttemptRecord → DeliveryTableRow → Option Cell
row_view history r = elim (decode_delivery r) [
  | none ↦ none
  | some d ↦ some (cell_with history r d)
]

unfoldable pub view : Tables → DeliveryId → Option Cell
unfolding decode_row row_to_delivery row_to_claim row_to_attempt
view t id = elim (Maps.get t.deliveries id) [
  | none ↦ none
  | some r ↦ row_view (history_of t r.delivery_id) r
]

-- A dead letter has its reason, which the checks of the table do not ask for.
has_reason : StateName → Option DeadLetterReason → Bool
has_reason StateName.dead_lettered reason = is_some reason
has_reason state reason = true

-- A row that meets the checks and says which state its delivery is in.
unfoldable pub is_whole : DeliveryTableRow → Bool
unfolding meets_checks has_reason
is_whole r = meets_checks r && has_reason r.columns.state r.columns.dead_letter_reason

pub is_whole-meets_checks : (r : DeliveryTableRow) → is_whole r ≡ true → meets_checks r ≡ true
unfolding is_whole
is_whole-meets_checks r w = ground arith

-- A delivery's row stands under its identifier and is whole.
pub record IsSound (t : Tables) (id : DeliveryId) : Type 0 where
  pub named : (r : DeliveryTableRow) → Maps.get t.deliveries id ≡ some r → r.delivery_id ≡ id
  pub checked : (r : DeliveryTableRow) → Maps.get t.deliveries id ≡ some r → is_whole r ≡ true

-- What the schemas of the requests ask of the arguments of a call.
abbrev pub IsRequest : Call → Type 0
IsRequest (records now a) = (has_valid_fields a ≡ true) × (is_consistent a ≡ true)
IsRequest (repairs now id route) = 0 < route.configuration_version
IsRequest (renews now id claim lease) = 0 < lease
IsRequest _ = Unit {0}

-- A call of the repository, with no other session between its statements.
unfoldable pub perform : Call → Action Tables RepositoryFailure Unit
unfolding Adapter.record_attempt Adapter.retry_dead_letter Adapter.repair_dead_letter
    Adapter.terminate_dead_letter Adapter.renew_claim Adapter.complete_claim Adapter.release_claim
perform (records now a) t = Adapter.record_attempt now a t
perform (retries now id) t = Adapter.retry_dead_letter now (λ u. u) id t
perform (repairs now id route) t = Adapter.repair_dead_letter now (λ u. u) id route t
perform (terminates id) t = Adapter.terminate_dead_letter (λ u. u) id t
perform (renews now id claim lease) t =
    let (r, t') = Adapter.renew_claim now id claim lease t in (void r, t')
perform (completes now id claim result) t = Adapter.complete_claim now id claim result t
perform (releases id claim) t = Adapter.release_claim id claim t
