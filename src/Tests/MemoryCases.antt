-- ===== src/Tests/MemoryCases.antt =====
-- The properties of the in-memory adapter at concrete histories.
use engineering_with_effect.Prelude.{
  ℕ, ◌⊎◌, ◌≤◌, ◌≡◌, refl, some, List, [], ◌∷◌, arith, if◌then◌else◌, length, All, Text, same_text,
  ok, err,
}
use engineering_with_effect.Prelude.Maps
use engineering_with_effect.Errors.{RepositoryFailure, ingestion_conflict}
use engineering_with_effect.Services.{ClaimedDelivery, accepted, replay}
use engineering_with_effect.Contract.{Cell, claimed}
use engineering_with_effect.Contract.Calls.{records, renews, completes}
use engineering_with_effect.Memory.{Store, empty_store, owns, holds, renew_claim, complete_claim}
use engineering_with_effect.Memory.Claims.{claim_pending, claim_rounds}
use engineering_with_effect.Memory.Intake
use engineering_with_effect.Memory.View.{view}
use engineering_with_effect.Memory.Calls.{perform}
use engineering_with_effect.Memory.Refines.{Implements, perform-Implements}
use engineering_with_effect.Contract.Claims.{Claims}
use engineering_with_effect.Contract.Owners.{one_owner}
use engineering_with_effect.Memory.Claiming.{claim_pending-Claims}
use engineering_with_effect.Memory.Exhaustive.{claim_pending_exhaustive}
use engineering_with_effect.Memory.Claimed.{IsEntry, claim_pending-IsEntry}
use engineering_with_effect.Contract.Fencing.{
  Step, calls, claims, enters, run, Evolves, run-Evolves, stale_fenced,
}
use engineering_with_effect.Memory.History.{
  memory, accepts, enter, IsValid, run-empty_store-IsValid,
}
use engineering_with_effect.Memory.Idempotency.{accept_idempotent}
use engineering_with_effect.Tests.Samples.{
  delivery_id, worker, other_worker, destination, claim, attempt, cell, intake, other_intake,
  result,
}

-- One accepted delivery, whose first claim runs out at 1500.
abbrev pub accepted_store : Store
accepted_store = run memory (enters (accepts 1000 intake) ∷ []) empty_store

pub accepted_store-IsValid : IsValid accepted_store
accepted_store-IsValid = run-empty_store-IsValid (enters (accepts 1000 intake) ∷ [])

run-empty_store-IsValid_example :
    IsValid
      (run memory (enters (accepts 1000 intake) ∷ calls (records 1100 attempt) ∷ []) empty_store)
run-empty_store-IsValid_example =
    run-empty_store-IsValid (enters (accepts 1000 intake) ∷ calls (records 1100 attempt) ∷ [])

perform-Implements_example : Implements (records 1100 attempt) accepted_store
perform-Implements_example =
    perform-Implements (records 1100 attempt) accepted_store
      (accepted_store-IsValid.sound delivery_id)

claim_pending-Claims_example :
    Claims 2000 other_worker destination 500
      (view accepted_store delivery_id)
      (view (claim_pending 2000 other_worker destination 10 500 accepted_store).1 delivery_id)
claim_pending-Claims_example =
    claim_pending-Claims 2000 other_worker destination 10 500 accepted_store delivery_id
      accepted_store-IsValid.keyed (omega arith)

abbrev returned : List ClaimedDelivery
returned =
    (claim_rounds 2000 other_worker destination 10 500 (Maps.values accepted_store.records) []
      accepted_store).0

claim_pending_exhaustive_example :
    (view (claim_pending 2000 other_worker destination 10 500 accepted_store).1 delivery_id
      ≡ some (claimed 2000 other_worker 500 cell))
    ⊎ (10 ≤ length returned)
unfolding run enter Intake.accept claim_pending Maps.get Maps.set same_text
claim_pending_exhaustive_example =
    claim_pending_exhaustive 2000 other_worker destination 10 500 cell.delivery intake.event
      accepted_store returned accepted_store-IsValid.keyed (omega arith) refl refl refl refl

claim_pending-IsEntry_example :
    (out : List ClaimedDelivery) × ((claim_pending 2000 other_worker destination 10 500
        accepted_store).0
      ≡ ok out)
    × All
        (IsEntry 2000 other_worker destination 10 500
          (claim_pending 2000 other_worker destination 10 500 accepted_store).1)
        out
    × (length out ≤ 10)
claim_pending-IsEntry_example =
    claim_pending-IsEntry 2000 other_worker destination 10 500 accepted_store
      accepted_store-IsValid.keyed (omega arith)

accepted_view : view accepted_store delivery_id ≡ some cell
unfolding view run Maps.get Maps.set same_text Intake.accept enter
accepted_view = refl

abbrev reclaims : Step memory
reclaims = claims 2000 other_worker destination 10 500

run-Evolves_example :
    (c : Cell) × (view (run memory (reclaims ∷ []) accepted_store) delivery_id ≡ some c)
    × Evolves cell c
run-Evolves_example =
    run-Evolves memory (reclaims ∷ []) accepted_store delivery_id cell accepted_store-IsValid
      (omega arith, tt) accepted_view

-- The first worker's claim has been superseded.
abbrev reclaimed_store : Store
reclaimed_store = run memory (enters (accepts 1000 intake) ∷ reclaims ∷ []) empty_store

abbrev reclaimed : Cell
reclaimed = record cell {
  generation = 2;
  claim = some (record { owner_id = other_worker; generation = 2; lease_expires_at_millis = 2500 });
}

reclaimed-view : view reclaimed_store delivery_id ≡ some reclaimed
unfolding view run Maps.get Maps.set same_text claim_pending Intake.accept enter
reclaimed-view = refl

stale_fenced_example :
    let t = run memory (enters (accepts 2100 other_intake) ∷ []) reclaimed_store in
    ((e : RepositoryFailure) × ((perform (completes 2200 delivery_id claim result) t).0 ≡ err e))
    × ((j : Text) → view (perform (completes 2200 delivery_id claim result) t).1 j ≡ view t j)
unfolding same_text
stale_fenced_example =
    stale_fenced memory (enters (accepts 2100 other_intake) ∷ [])
      (completes 2200 delivery_id claim result) reclaimed_store worker 1 reclaimed
      (run-empty_store-IsValid (enters (accepts 1000 intake) ∷ reclaims ∷ [])) (refl, tt) tt
      reclaimed-view refl (omega arith)

renewal_succeeds : (perform (renews 1200 delivery_id claim 500) accepted_store).0 ≡ ok tt
unfolding run perform enter Intake.accept renew_claim owns holds Maps.get Maps.set same_text
renewal_succeeds = refl

completion_succeeds : (perform (completes 1200 delivery_id claim result) accepted_store).0 ≡ ok tt
unfolding run perform enter Intake.accept complete_claim owns holds Maps.get Maps.set same_text
completion_succeeds = refl

one_owner_example : (worker ≡ worker) × (◌≡◌ {A = ℕ} 1 1)
one_owner_example =
    one_owner memory accepted_store (renews 1200 delivery_id claim 500)
      (completes 1200 delivery_id claim result) worker worker 1 1 accepted_store-IsValid tt tt refl
      refl refl renewal_succeeds completion_succeeds

first_acceptance :
    (Intake.accept 1000 intake empty_store).0
    ≡ ok (
        accepted
          (record {
            event = intake.event;
            delivery = cell.delivery;
            route = intake.route;
            accepted_at_millis = 1000;
          })
          claim)
unfolding Intake.accept Maps.get
first_acceptance = refl

accept_idempotent_example :
    let t = run memory (reclaims ∷ []) (Intake.accept 1000 intake empty_store).1 in
    Intake.accept 3000 other_intake t ≡ (
      if same_text intake.request_fingerprint other_intake.request_fingerprint
      then (
        ok (
            replay (record {
              event = intake.event;
              delivery = cell.delivery;
              route = intake.route;
              accepted_at_millis = 1000;
            })),
        t,
      )
      else (err (ingestion_conflict other_intake.ingestion_key intake.event.id), t))
accept_idempotent_example =
    accept_idempotent (reclaims ∷ []) 1000 3000 intake other_intake empty_store _ first_acceptance
      refl
