-- ===== src/Memory/Invariant.antt =====
-- The invariant of the in-memory maps, kept by every operation of the repository and the intake
-- store.
use engineering_with_effect.Prelude.{
  ℕ, ◌≡◌, refl, ◌⊎◌, inl, inr, true, none, some, List, arith, Bool-cases, Option-cases, Text,
  same_text, same_text_iff,
}
use engineering_with_effect.Prelude.Maps
use engineering_with_effect.Prelude.Maps.{map_laws}
use engineering_with_effect.Model.Ids.{DeliveryId, DestinationId, WorkerId}
use engineering_with_effect.Model.Event.{DeliveryClaim, RelayEvent}
use engineering_with_effect.Model.State.{Delivery, is_pending}
use engineering_with_effect.Contract.Calls.{Call, records, renews, target}
use engineering_with_effect.Services.{ClaimedDelivery, ClaimRequest, IntakeRecord}
use engineering_with_effect.Memory
use engineering_with_effect.Memory.{Store}
use engineering_with_effect.Memory.Claims.{claim_round}
use engineering_with_effect.Memory.Intake
use engineering_with_effect.Memory.Calls.{perform}
use engineering_with_effect.Memory.View.{IsSound}

perform-held :
    (call : Call) (s : Store) (j : Text)
    → IsSound s j
    → (Maps.get (perform call s).1.claims j ≡ none)
      ⊎ ((d : Delivery) × (Maps.get (perform call s).1.records j ≡ some d)
          × (is_pending d.state ≡ true))
unfolding perform
perform-held (records now a) s j v = grind (arith, map_laws, same_text_iff)
perform-held (renews now id claim lease) s j v = grind (arith, map_laws, same_text_iff)
perform-held _ s j v = grind (arith, map_laws, same_text_iff)

perform-current :
    (call : Call) (s : Store) (j : Text)
    → IsSound s j
    → (k : DeliveryClaim) → Maps.get (perform call s).1.claims j ≡ some k
    → Maps.get (perform call s).1.generations j ≡ some k.generation
unfolding perform
perform-current (records now a) s j v k h = grind (arith, map_laws, same_text_iff, v.current)
perform-current (renews now id claim lease) s j v k h =
    grind (arith, map_laws, same_text_iff, v.current)
perform-current _ s j v k h = grind (arith, map_laws, same_text_iff, v.current)

perform-named :
    (call : Call) (s : Store) (j : Text)
    → IsSound s j
    → (d : Delivery) → Maps.get (perform call s).1.records j ≡ some d
    → d.id ≡ j
unfolding perform
perform-named (records now a) s j v d h = grind (arith, map_laws, same_text_iff, v.named)
perform-named _ s j v d h = grind (arith, map_laws, same_text_iff, v.named)

pub perform-IsSound :
    (call : Call) (s : Store) (j : Text) → IsSound s j → IsSound (perform call s).1 j
perform-IsSound call s j v = record {
  held = perform-held call s j v;
  current = perform-current call s j v;
  named = perform-named call s j v;
}

pub save-IsSound :
    (now : ℕ) (d : Delivery) (s : Store) (j : Text)
    → IsSound s j
    → IsSound (Memory.save now d s).1 j
unfolding Memory.save Maps.has
save-IsSound now d s j v = record {
  held = grind (arith, map_laws, same_text_iff);
  current = λ k h. grind (arith, map_laws, same_text_iff, v.current, v.held);
  named = λ e h. grind (arith, map_laws, same_text_iff, v.named);
}

accept_new-IsSound :
    (now : ℕ) (r : IntakeRecord) (s : Store) (j : Text)
    → IsSound s j
    → IsSound (Intake.accept_new now r s).1 j
unfolding Intake.accept_new
accept_new-IsSound now r s j v = record {
  held = elim (Bool-cases (same_text r.delivery_id j)) [
    | inl y ↦ inr (
      Intake.pending_delivery r.delivery_id r.event r.route.destination_id,
      rw Maps.get-set (rw y),
      refl,
    )
    | inr n ↦ grind (arith, map_laws)
  ];
  current = λ k h. grind (arith, map_laws, same_text_iff, v.current);
  named = λ e h. grind (arith, map_laws, same_text_iff, v.named);
}

-- A replay and a conflict change nothing.
accept_cases :
    (now : ℕ) (r : IntakeRecord) (s : Store)
    → ((Intake.accept now r s).1 ≡ s) ⊎ (Intake.accept now r s ≡ Intake.accept_new now r s)
unfolding Intake.accept
accept_cases now r s = elim (Option-cases (Maps.get s.intakes r.ingestion_key)) [
  | inl n ↦ inr (ground arith)
  | inr (x, e) ↦ inl (ground arith)
]

pub accept-IsSound :
    (now : ℕ) (r : IntakeRecord) (s : Store) (j : Text)
    → IsSound s j
    → IsSound (Intake.accept now r s).1 j
accept-IsSound now r s j v = elim (accept_cases now r s) [
  | inl e ↦ rw e v
  | inr e ↦ rw e (accept_new-IsSound now r s j v)
]

pub save_pending-IsSound :
    (now : ℕ) (event : RelayEvent) (id : DeliveryId) (destination : DestinationId)
    (request : ClaimRequest) (s : Store) (j : Text)
    → IsSound s j
    → IsSound (Intake.save_pending now event id destination request s).1 j
unfolding Intake.save_pending
save_pending-IsSound now event id destination request s j v = record {
  held = elim (Bool-cases (same_text id j)) [
    | inl y ↦ inr (Intake.pending_delivery id event destination, rw Maps.get-set (rw y), refl)
    | inr n ↦ grind (arith, map_laws)
  ];
  current = λ k h. grind (arith, map_laws, same_text_iff, v.current);
  named = λ e h. grind (arith, map_laws, same_text_iff, v.named);
}

module _ (now : ℕ) (owner : WorkerId) (destination : DestinationId) (limit lease : ℕ) where
  pub claim_round-IsSound :
      (d : Delivery) (out : List ClaimedDelivery) (s : Store) (j : Text)
      → Maps.get s.records d.id ≡ some d
      → IsSound s j
      → IsSound (claim_round now owner destination limit lease d out s).1 j
  unfolding claim_round
  claim_round-IsSound d out s j h v = record {
    held = grind (arith, map_laws, same_text_iff);
    current = λ k e. grind (arith, map_laws, same_text_iff, v.current);
    named = λ e q. grind (arith, map_laws, same_text_iff, v.named);
  }

-- The deliveries stand under their own identifiers, each once.
abbrev pub IsKeyed : Store → Type 0
IsKeyed s = Maps.Keyed (λ (d : Delivery). d.id) s.records

records-put :
    (m : Maps.Map Delivery) (id : Text) (d : Delivery)
    → Maps.Keyed (λ (d : Delivery). d.id) m
    → d.id ≡ id
    → Maps.Keyed (λ (d : Delivery). d.id) (Maps.set m id d)
records-put m id d k e = Maps.Keyed-set (λ (d : Delivery). d.id) m id d e k

pub perform-IsKeyed :
    (call : Call) (s : Store) → IsSound s (target call) → IsKeyed s → IsKeyed (perform call s).1
unfolding perform
perform-IsKeyed (records now a) s v k = grind (arith, records-put, v.named)
perform-IsKeyed _ s v k = grind (arith, records-put, v.named)

pub save-IsKeyed :
    (now : ℕ) (d : Delivery) (s : Store) → IsKeyed s → IsKeyed (Memory.save now d s).1
unfolding Memory.save Maps.has
save-IsKeyed now d s k = grind (arith, records-put)

pub accept-IsKeyed :
    (now : ℕ) (r : IntakeRecord) (s : Store) → IsKeyed s → IsKeyed (Intake.accept now r s).1
unfolding Intake.accept_new
accept-IsKeyed now r s k = elim (accept_cases now r s) [
  | inl e ↦ rw e k
  | inr e ↦ rw e (records-put s.records _ _ k refl)
]

pub save_pending-IsKeyed :
    (now : ℕ) (event : RelayEvent) (id : DeliveryId) (destination : DestinationId)
    (request : ClaimRequest) (s : Store)
    → IsKeyed s
    → IsKeyed (Intake.save_pending now event id destination request s).1
unfolding Intake.save_pending
save_pending-IsKeyed now event id destination request s k = records-put s.records _ _ k refl

module _ (now : ℕ) (owner : WorkerId) (destination : DestinationId) (limit lease : ℕ) where
  pub claim_round-IsKeyed :
      (d : Delivery) (out : List ClaimedDelivery) (s : Store)
      → IsKeyed s
      → IsKeyed (claim_round now owner destination limit lease d out s).1
  unfolding claim_round
  claim_round-IsKeyed d out s k = ground arith
