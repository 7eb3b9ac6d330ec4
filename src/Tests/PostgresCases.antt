-- ===== src/Tests/PostgresCases.antt =====
-- The properties of the SQL adapter at concrete tables.
use engineering_with_effect.Prelude.{
  Text, Bool, ◌≡◌, refl, inl, inr, true, false, none, some, List, [], ◌∷◌, arith, Bool-cases,
  select, same_text, eq_of_same_text, same_text_iff,
}
use engineering_with_effect.Prelude.Maps
use engineering_with_effect.Model.Ids.{DeliveryId, is_worker_id}
use engineering_with_effect.Contract.Calls.{Call, transition, records, renews, completes, retries}
use engineering_with_effect.Memory.View as MemoryView
use engineering_with_effect.Memory.Calls
use engineering_with_effect.Memory.Intake
use engineering_with_effect.Contract.Fencing.{Step, run, calls, claims, enters}
use engineering_with_effect.Memory.History.{memory, enter}
use engineering_with_effect.Model.Attempt.{is_consistent, has_valid_fields}
use engineering_with_effect.Postgres.Rows.{
  StateName, DeliveryRow, decode_row, row_to_delivery, delivery_to_row, encode_state, row_fields,
  delivery_row_round_trip,
}
use engineering_with_effect.Postgres.Tables.{Tables, empty_tables, DeliveryTableRow}
use engineering_with_effect.Contract.{answer}
use engineering_with_effect.Postgres.View
use engineering_with_effect.Postgres.Refines.{FollowsContract, perform-FollowsContract}
use engineering_with_effect.Contract.Claims.{Claims}
use engineering_with_effect.Contract.Parity.{Matches, play}
use engineering_with_effect.Postgres.Claiming.{claim_pending}
use engineering_with_effect.Postgres.Claimed.{claim_pending-view-Claims}
use engineering_with_effect.Postgres.Entering.{IsValid, accepts}
use engineering_with_effect.Postgres.History.{postgres, run-empty_tables-IsValid}
use engineering_with_effect.Postgres.Parity.{adapters_agree}
use engineering_with_effect.Tests.Samples.{
  first, delivery_id, delivery, worker, other_worker, destination, event, route, claim, attempt,
  result,
}
use engineering_with_effect.Tests.MemoryCases.{accepted_store, accepted_store-IsValid}

abbrev accepted_row : DeliveryTableRow
accepted_row = record {
  delivery_id = delivery_id;
  event_id = event.id;
  destination_id = destination;
  columns = record { state = StateName.pending; status = none; dead_letter_reason = none };
  destination_url = some route.endpoint;
  configuration_version = some route.configuration_version;
  claim_owner = some worker;
  claim_generation = 1;
  lease_expires_at_ms = some 1500;
  next_eligible_at_ms = 1000;
}

abbrev tables : Tables
tables = record {
  relay_events = [];
  deliveries = (delivery_id, accepted_row) ∷ [];
  delivery_attempts = [];
}

is_whole-accepted_row : View.is_whole accepted_row ≡ true
unfolding View.is_whole is_worker_id
is_whole-accepted_row = refl

tables-IsSound : (j : DeliveryId) → View.IsSound tables j
unfolding Maps.get
tables-IsSound j = record {
  named = λ r h. ground (arith, same_text_iff delivery_id j);
  checked = λ r h. ground (arith, is_whole-accepted_row);
}

attempt-IsRequest : View.IsRequest (records 1100 attempt)
unfolding is_consistent has_valid_fields
attempt-IsRequest = (refl, refl)

perform-FollowsContract_example : FollowsContract (records 1100 attempt) tables
perform-FollowsContract_example =
    perform-FollowsContract (records 1100 attempt) tables tables-IsSound attempt-IsRequest

tables-IsValid : IsValid tables
unfolding Maps.get
tables-IsValid = record { keyed = (refl, refl, tt); sound = tables-IsSound }

shown_here : MemoryView.view accepted_store delivery_id ≡ View.view tables delivery_id
unfolding Maps.get Maps.set same_text MemoryView.view View.view run Intake.accept select enter
shown_here = refl

shown_elsewhere :
    (j : DeliveryId)
    → same_text delivery_id j ≡ false
    → MemoryView.view accepted_store j ≡ View.view tables j
unfolding Maps.get Maps.set MemoryView.view View.view run Intake.accept enter
shown_elsewhere j n = ground arith

accepted-Matches : Matches memory (postgres (λ x y. true) (λ j. false)) accepted_store tables
accepted-Matches j = elim (Bool-cases (same_text delivery_id j)) [
  | inl y ↦ rw (← eq_of_same_text delivery_id j y) shown_here
  | inr n ↦ shown_elsewhere j n
]

abbrev played : List Call
played =
    records 1100 attempt
    ∷ renews 1200 delivery_id claim 500
    ∷ completes 1300 delivery_id claim result
    ∷ retries 1400 delivery_id
    ∷ []

-- Identifiers as they come, and no lock.
abbrev collates : Text → Text → Bool
collates x y = true

abbrev locked : DeliveryId → Bool
locked j = false

adapters_agree_example :
    ((play Calls.perform played accepted_store).0 ≡ (play View.perform played tables).0)
    × Matches memory
        (postgres collates locked)
        (play Calls.perform played accepted_store).1
        (play View.perform played tables).1
adapters_agree_example =
    adapters_agree collates locked played accepted_store tables accepted_store-IsValid
      tables-IsValid (attempt-IsRequest, (omega arith, (tt, (tt, tt)))) accepted-Matches

claim_pending-view-Claims_example :
    Claims 2000 other_worker destination 500 (View.view tables delivery_id) (
      View.view
        (claim_pending collates locked 2000 other_worker destination 10 500 tables).1
        delivery_id)
claim_pending-view-Claims_example =
    claim_pending-view-Claims collates locked 2000 other_worker destination 10 500 tables
      delivery_id tables-IsValid.keyed (tables-IsSound delivery_id)

abbrev steps : List (Step (postgres collates locked))
steps =
    enters (accepts 1000 first)
    ∷ calls (records 1100 attempt)
    ∷ claims 2000 other_worker destination 10 500
    ∷ []

run-empty_tables-IsValid_example :
    let t = run (postgres collates locked) steps empty_tables in
    let call =
      completes 2100 delivery_id
        (record claim { owner_id = other_worker; generation = 2 })
        result in
    IsValid t × ((View.perform call t).0 ≡ answer (transition call (View.view t delivery_id)))
run-empty_tables-IsValid_example =
    run-empty_tables-IsValid collates locked steps
      (completes 2100 delivery_id (record claim { owner_id = other_worker; generation = 2 }) result)
      tt

delivery_row_round_trip_example :
    (r : DeliveryRow) × (decode_row
        (row_fields (delivery_to_row delivery))
        (encode_state (delivery_to_row delivery))
      ≡ some r)
    × (row_to_delivery r ≡ delivery)
delivery_row_round_trip_example = delivery_row_round_trip delivery
