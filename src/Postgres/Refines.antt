-- ===== src/Postgres/Refines.antt =====
-- The SQL adapter of src/adapters/postgres/deliveryRepository.ts implements the contract.
use engineering_with_effect.Prelude.{
  ◌≡◌, inl, inr, true, false, none, some, arith, Option-cases, same_text, same_text_refl,
  same_text_iff,
}
use engineering_with_effect.Prelude.Maps
use engineering_with_effect.Prelude.Maps.{map_laws}
use engineering_with_effect.Postgres.Recording.{records_row, records-frames, records_answer}
use engineering_with_effect.Model.Ids.{DeliveryId}
use engineering_with_effect.Contract.{after, answer}
use engineering_with_effect.Contract.Calls.{
  Call, records, retries, repairs, terminates, renews, completes, releases, target, transition,
}
use engineering_with_effect.Postgres.Tables.{Tables, DeliveryTableRow}
use engineering_with_effect.Postgres.View.{is_whole, view, perform, IsSound, IsRequest}

perform-acts :
    (call : Call) (t : Tables)
    → IsSound t (target call)
    → IsRequest call
    → view (perform call t).1 (target call)
      ≡ after (view t (target call)) (transition call (view t (target call)))
unfolding view perform transition is_whole
perform-acts (records now a) t s q = elim (Option-cases (Maps.get t.deliveries a.delivery_id)) [
  | inl n ↦ ground arith
  | inr (r, e) ↦ records_row now a t r e (s.checked r e) (s.named r e) q.0 q.1
]
perform-acts (retries now id) t s q = grind (arith, map_laws, s.named, s.checked, same_text_refl)
perform-acts (repairs now id route) t s q =
    grind (arith, map_laws, s.named, s.checked, same_text_iff)
perform-acts (terminates id) t s q = grind (arith, map_laws, s.named, s.checked, same_text_refl)
perform-acts (renews now id claim lease) t s q =
    grind (arith, map_laws, s.named, s.checked, same_text_iff)
perform-acts (completes now id claim result) t s q =
    grind (arith, map_laws, s.named, s.checked, same_text_refl)
perform-acts (releases id claim) t s q = grind (arith, map_laws, s.named, s.checked, same_text_refl)

perform-frames :
    (call : Call) (t : Tables) (j : DeliveryId)
    → IsSound t (target call)
    → IsSound t j
    → IsRequest call
    → same_text (target call) j ≡ false
    → view (perform call t).1 j ≡ view t j
unfolding view perform
perform-frames (records now a) t j s w q h = records-frames now a t j s w q h
perform-frames _ t j s w q h = grind (arith, map_laws, s.named)

answers_row :
    (call : Call) (t : Tables) (r : DeliveryTableRow)
    → Maps.get t.deliveries (target call) ≡ some r
    → r.delivery_id ≡ target call
    → is_whole r ≡ true
    → IsRequest call
    → (perform call t).0 ≡ answer (transition call (view t (target call)))
unfolding view perform transition is_whole
answers_row (records now a) t r e n m q = records_answer now a t r e n m q.0 q.1
answers_row _ t r e n m q = ground arith

answers_none :
    (call : Call) (t : Tables)
    → Maps.get t.deliveries (target call) ≡ none
    → IsRequest call
    → (perform call t).0 ≡ answer (transition call (view t (target call)))
unfolding view perform transition
answers_none (records now a) t n q = ground arith
answers_none _ t n q = ground arith

-- What a call does is what the contract says: on the delivery that it names, on every other, and in
-- its answer.
pub record FollowsContract (call : Call) (t : Tables) : Type 0 where
  pub acts :
      view (perform call t).1 (target call)
      ≡ after (view t (target call)) (transition call (view t (target call)))
  pub frames :
      (j : DeliveryId) → same_text (target call) j ≡ false → view (perform call t).1 j ≡ view t j
  pub answers : (perform call t).0 ≡ answer (transition call (view t (target call)))

perform-answers :
    (call : Call) (t : Tables)
    → IsSound t (target call)
    → IsRequest call
    → (perform call t).0 ≡ answer (transition call (view t (target call)))
perform-answers call t s q = elim (Option-cases (Maps.get t.deliveries (target call))) [
  | inl n ↦ answers_none call t n q
  | inr (r, e) ↦ answers_row call t r e (s.named r e) (s.checked r e) q
]

-- On tables whose rows stand under their keys and meet the checks, with a reason for each dead letter,
-- each request that its schema admits is, on the delivery that it names, the contract's transition,
-- changes no other delivery, and is answered as the contract says.
pub perform-FollowsContract :
    (call : Call) (t : Tables)
    → ((j : DeliveryId) → IsSound t j)
    → IsRequest call
    → FollowsContract call t
perform-FollowsContract call t s q = record {
  acts = perform-acts call t (s (target call)) q;
  frames = λ j h. perform-frames call t j (s (target call)) (s j) q h;
  answers = perform-answers call t (s (target call)) q;
}
