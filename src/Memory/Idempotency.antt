-- ===== src/Memory/Idempotency.antt =====
-- Idempotent acceptance by the intake store of src/adapters/memoryPersistence.ts.
use engineering_with_effect.Prelude.{
  ℕ, ◌≡◌, refl, ◌∙◌, some, List, [], ◌∷◌, arith, if◌then◌else◌, Text, same_text, same_text_iff, ok,
  err,
}
use engineering_with_effect.Prelude.Maps
use engineering_with_effect.Prelude.Maps.{map_laws}
use engineering_with_effect.Model.Ids.{DestinationId, WorkerId}
use engineering_with_effect.Model.State.{Delivery}
use engineering_with_effect.Errors.{ingestion_conflict}
use engineering_with_effect.Contract.Calls.{Call, records}
use engineering_with_effect.Services.{
  ClaimedDelivery, IntakeRecord, IntakeDecision, replay, decision_fields,
}
use engineering_with_effect.Memory
use engineering_with_effect.Memory.{Store, StoredIntake}
use engineering_with_effect.Memory.Claims.{claim_round, claim_rounds, claim_pending}
use engineering_with_effect.Memory.Intake
use engineering_with_effect.Memory.Calls.{perform}
use engineering_with_effect.Contract.Fencing.{Step, calls, claims, enters, apply, run}
use engineering_with_effect.Memory.History.{memory, Entry, saves, accepts, saves_pending, enter}

perform-intakes : (call : Call) (s : Store) → (perform call s).1.intakes ≡ s.intakes
unfolding perform
perform-intakes (records now a) s = ground arith
perform-intakes _ s = ground arith

module _ (now : ℕ) (owner : WorkerId) (destination : DestinationId) (limit lease : ℕ) where
  round-intakes :
      (d : Delivery) (out : List ClaimedDelivery) (s : Store)
      → (claim_round now owner destination limit lease d out s).1.intakes ≡ s.intakes
  unfolding claim_round
  round-intakes d out s = ground arith

  rounds-intakes :
      (ds : List Delivery) (out : List ClaimedDelivery) (s : Store)
      → (claim_rounds now owner destination limit lease ds out s).1.intakes ≡ s.intakes
  unfolding claim_rounds
  rounds-intakes [] out s = refl
  rounds-intakes (d ∷ ds) out s =
      let r = claim_round now owner destination limit lease d out s in
      rounds-intakes ds r.0 r.1 ∙ round-intakes d out s

accept-intakes :
    (now : ℕ) (r : IntakeRecord) (s : Store) (key : Text) (x : StoredIntake)
    → Maps.get s.intakes key ≡ some x
    → Maps.get (Intake.accept now r s).1.intakes key ≡ some x
unfolding Intake.accept
accept-intakes now r s key x h = grind (arith, map_laws, same_text_iff)

enter-intakes :
    (x : Entry) (s : Store) (key : Text) (v : StoredIntake)
    → Maps.get s.intakes key ≡ some v
    → Maps.get (enter x s).intakes key ≡ some v
unfolding enter Memory.save Intake.save_pending
enter-intakes (saves now d) s key v h = ground arith
enter-intakes (accepts now r) s key v h = accept-intakes now r s key v h
enter-intakes (saves_pending now event id destination request) s key v h = h

apply-intakes :
    (op : Step memory) (s : Store) (key : Text) (x : StoredIntake)
    → Maps.get s.intakes key ≡ some x
    → Maps.get (apply memory op s).intakes key ≡ some x
unfolding apply claim_pending
apply-intakes (calls c) s key x h = rw (perform-intakes c s) h
apply-intakes (claims now owner destination limit lease) s key x h =
    rw (rounds-intakes now owner destination limit lease (Maps.values s.records) [] s) h
apply-intakes (enters e) s key x h = enter-intakes e s key x h

run-intakes :
    (ops : List (Step memory)) (s : Store) (key : Text) (x : StoredIntake)
    → Maps.get s.intakes key ≡ some x
    → Maps.get (run memory ops s).intakes key ≡ some x
unfolding run
run-intakes [] s key x h = h
run-intakes (op ∷ ops) s key x h =
    run-intakes ops (apply memory op s) key x (apply-intakes op s key x h)

-- What a successful acceptance stores under its key.
accept-stored :
    (now : ℕ) (r : IntakeRecord) (s : Store) (d : IntakeDecision)
    → (Intake.accept now r s).0 ≡ ok d
    → Maps.get (Intake.accept now r s).1.intakes r.ingestion_key
      ≡ some (record { request_fingerprint = r.request_fingerprint; decision = decision_fields d })
unfolding Intake.accept
accept-stored now r s d h = grind (arith, map_laws, same_text_iff)

accept_again :
    (now : ℕ) (r : IntakeRecord) (s : Store) (x : StoredIntake)
    → Maps.get s.intakes r.ingestion_key ≡ some x
    → Intake.accept now r s ≡ (
        if same_text x.request_fingerprint r.request_fingerprint
        then (ok (replay x.decision), s)
        else (err (ingestion_conflict r.ingestion_key x.decision.event.id), s))
unfolding Intake.accept
accept_again now r s x h = ground arith

-- Once a key has been accepted, then after any further history a submission under that key changes
-- nothing: with the same fingerprint it replays the first event, delivery, route and time, and with
-- another it fails with a conflict that names the first event.
pub accept_idempotent :
    (ops : List (Step memory)) (now later : ℕ) (first r : IntakeRecord) (s : Store)
    (d : IntakeDecision)
    → (Intake.accept now first s).0 ≡ ok d
    → r.ingestion_key ≡ first.ingestion_key
    → (let t = run memory ops (Intake.accept now first s).1 in
        Intake.accept later r t ≡ (
          if same_text first.request_fingerprint r.request_fingerprint
          then (ok (replay (decision_fields d)), t)
          else (err (ingestion_conflict r.ingestion_key (decision_fields d).event.id), t)))
accept_idempotent ops now later first r s d h e =
    accept_again later r _ _
      (rw e (run-intakes ops _ first.ingestion_key _ (accept-stored now first s d h)))
