-- ===== src/Postgres/Invariant.antt =====
-- Every statement of src/adapters/postgres/deliveryRepository.ts leaves rows that stand under their
-- keys, meet the checks of src/adapters/postgres/migrations.ts and say which state a delivery is in.
use engineering_with_effect.Prelude.{
  ℕ, ◌≡◌, true, some, arith, same_text_iff, Option-cases, inl, inr,
}
use engineering_with_effect.Prelude.Maps
use engineering_with_effect.Prelude.Maps.{map_laws}
use engineering_with_effect.Model.Ids.{DeliveryId}
use engineering_with_effect.Model.Attempt.{DeliveryAttemptRecord}
use engineering_with_effect.Contract.Calls.{Call, records, target}
use engineering_with_effect.Postgres.Rows.{DeliveryAttemptRow, attempt_to_row}
use engineering_with_effect.Postgres.Tables.{Tables, DeliveryTableRow, meets_checks}
use engineering_with_effect.Postgres.Statements
use engineering_with_effect.Postgres.View.{is_whole, perform, IsSound}

named :
    (call : Call) (t : Tables) (j : DeliveryId)
    → IsSound t (target call)
    → IsSound t j
    → (r : DeliveryTableRow) → Maps.get (perform call t).1.deliveries j ≡ some r
    → r.delivery_id ≡ j
unfolding perform Statements.record_attempt Statements.recorded_row attempt_to_row
named (records now a) t j v w r h = grind (arith, map_laws, same_text_iff, v.named, w.named)
named _ t j v w r h = grind (arith, map_laws, same_text_iff, v.named, w.named)

-- Where recording makes a dead letter, it gives the reason.
is_whole-recorded :
    (a : DeliveryAttemptRow) (r : DeliveryTableRow)
    → is_whole r ≡ true
    → meets_checks (Statements.recorded_row a r) ≡ true
    → is_whole (Statements.recorded_row a r) ≡ true
unfolding is_whole Statements.recorded_row
is_whole-recorded a r w m = ground arith

records-checked :
    (now : ℕ) (a : DeliveryAttemptRecord) (t : Tables) (j : DeliveryId)
    → IsSound t a.delivery_id
    → IsSound t j
    → (r : DeliveryTableRow) → Maps.get (perform (records now a) t).1.deliveries j ≡ some r
    → is_whole r ≡ true
unfolding perform Statements.record_attempt attempt_to_row
records-checked now a t j v w r h = elim (Option-cases (Maps.get t.deliveries a.delivery_id)) [
  | inl n ↦ grind (arith, map_laws, same_text_iff, w.checked)
  | inr (x, e) ↦
      let k = is_whole-recorded (attempt_to_row a) x (v.checked x e) in
      grind (arith, map_laws, same_text_iff, w.checked)
]

checked :
    (call : Call) (t : Tables) (j : DeliveryId)
    → IsSound t (target call)
    → IsSound t j
    → (r : DeliveryTableRow) → Maps.get (perform call t).1.deliveries j ≡ some r
    → is_whole r ≡ true
unfolding is_whole perform Statements.record_attempt Statements.recorded_row attempt_to_row
checked (records now a) t j v w r h = records-checked now a t j v w r h
checked call t j v w r h = elim (Option-cases (Maps.get t.deliveries (target call))) [
  | inl n ↦ grind (arith, map_laws, same_text_iff, w.checked)
  | inr (x, e) ↦ let k = v.checked x e in grind (arith, map_laws, same_text_iff, w.checked)
]

-- Whatever the call, and whether or not it succeeds, every row still stands under its key and is
-- whole.
pub perform-IsSound :
    (call : Call) (t : Tables)
    → ((j : DeliveryId) → IsSound t j)
    → (j : DeliveryId) → IsSound (perform call t).1 j
perform-IsSound call t v j = record {
  named = named call t j (v (target call)) (v j);
  checked = checked call t j (v (target call)) (v j);
}
