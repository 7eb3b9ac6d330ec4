-- ===== src/Memory/History.antt =====
-- The in-memory adapter of src/adapters/memoryPersistence.ts as a repository of the contract, and the
-- invariant that holds after every history.
use engineering_with_effect.Prelude.{
  ℕ, ◌≡◌, refl, ◌∙◌, inl, false, some, List, [], arith, Text, same_text, same_text_iff,
}
use engineering_with_effect.Prelude.Maps
use engineering_with_effect.Prelude.Maps.{map_laws}
use engineering_with_effect.Model.Ids.{DeliveryId, DestinationId, WorkerId}
use engineering_with_effect.Model.Event.{RelayEvent}
use engineering_with_effect.Model.State.{Delivery}
use engineering_with_effect.Contract.{Cell}
use engineering_with_effect.Contract.Calls.{Call, target}
use engineering_with_effect.Contract.Laws.{IsWellFormed}
use engineering_with_effect.Contract.Repository.{Repository}
use engineering_with_effect.Contract.Fencing.{Step, run, run-IsValid}
use engineering_with_effect.Services.{ClaimRequest, IntakeRecord}
use engineering_with_effect.Memory
use engineering_with_effect.Memory.{Store, empty_store}
use engineering_with_effect.Memory.Claims.{claim_pending}
use engineering_with_effect.Memory.Intake
use engineering_with_effect.Memory.Calls.{perform}
use engineering_with_effect.Memory.View.{view, IsSound}
use engineering_with_effect.Memory.Refines.{perform-Implements}
use engineering_with_effect.Memory.Claiming.{claim_pending-Claims, claim_rounds_inv}
use engineering_with_effect.Memory.Invariant.{
  IsKeyed, perform-IsSound, perform-IsKeyed, save-IsSound, save-IsKeyed, accept-IsSound,
  accept-IsKeyed, save_pending-IsSound, save_pending-IsKeyed, claim_round-IsSound,
  claim_round-IsKeyed,
}

-- The operations that store a delivery, with the clock that they read.
pub data Entry : Type 0 where
  saves : ℕ → Delivery → Entry
  accepts : ℕ → IntakeRecord → Entry
  saves_pending : ℕ → RelayEvent → DeliveryId → DestinationId → ClaimRequest → Entry

unfoldable pub enter : Entry → Store → Store
enter (saves now d) s = (Memory.save now d s).1
enter (accepts now r) s = (Intake.accept now r s).1
enter (saves_pending now event id destination request) s =
    (Intake.save_pending now event id destination request s).1

-- The intake store takes the identifier that it is given for a new one.
abbrev pub IsFresh : DeliveryId → Entry → Type 0
IsFresh j (saves now d) = Unit {0}
IsFresh j (accepts now r) = same_text r.delivery_id j ≡ false
IsFresh j (saves_pending now event id destination request) = same_text id j ≡ false

pub record IsValid (s : Store) : Type 0 where
  pub keyed : IsKeyed s
  pub sound : (j : Text) → IsSound s j

pub empty_store-IsValid : IsValid empty_store
unfolding Maps.get
empty_store-IsValid = record {
  keyed = tt;
  sound = λ j. record { held = inl refl; current = λ k h. cc; named = λ d h. cc };
}

pub claim_pending-IsValid :
    (now : ℕ) (owner : WorkerId) (destination : DestinationId) (limit lease : ℕ) (s : Store)
    → IsValid s
    → IsValid (claim_pending now owner destination limit lease s).1
unfolding claim_pending
claim_pending-IsValid now owner destination limit lease s v =
    claim_rounds_inv now owner destination limit lease (λ _ t. IsValid t)
      (λ d out t h w. record {
        keyed = claim_round-IsKeyed now owner destination limit lease d out t w.keyed;
        sound = λ j. claim_round-IsSound now owner destination limit lease d out t j h (w.sound j);
      })
      (Maps.values s.records) [] s (Maps.All-values (λ (d : Delivery). d.id) s.records v.keyed) v

pub enter-IsValid : (x : Entry) (s : Store) → IsValid s → IsValid (enter x s)
unfolding enter
enter-IsValid (saves now d) s v = record {
  keyed = save-IsKeyed now d s v.keyed;
  sound = λ j. save-IsSound now d s j (v.sound j);
}
enter-IsValid (accepts now r) s v = record {
  keyed = accept-IsKeyed now r s v.keyed;
  sound = λ j. accept-IsSound now r s j (v.sound j);
}
enter-IsValid (saves_pending now event id destination request) s v = record {
  keyed = save_pending-IsKeyed now event id destination request s v.keyed;
  sound = λ j. save_pending-IsSound now event id destination request s j (v.sound j);
}

pub perform-IsValid : (call : Call) (s : Store) → IsValid s → IsValid (perform call s).1
perform-IsValid c s v = record {
  keyed = perform-IsKeyed c s (v.sound (target c)) v.keyed;
  sound = λ j. perform-IsSound c s j (v.sound j);
}

save-view :
    (now : ℕ) (d : Delivery) (s : Store) (j : Text) (c : Cell)
    → view s j ≡ some c
    → view (Memory.save now d s).1 j ≡ some c
unfolding view Memory.save Maps.has
save-view now d s j c h = grind (arith, map_laws, same_text_iff)

accept-view :
    (now : ℕ) (r : IntakeRecord) (s : Store) (j : Text)
    → same_text r.delivery_id j ≡ false
    → view (Intake.accept now r s).1 j ≡ view s j
unfolding view Intake.accept
accept-view now r s j h = grind (arith, map_laws)

save_pending-view :
    (now : ℕ) (event : RelayEvent) (id : DeliveryId) (destination : DestinationId)
    (request : ClaimRequest) (s : Store) (j : Text)
    → same_text id j ≡ false
    → view (Intake.save_pending now event id destination request s).1 j ≡ view s j
unfolding view Intake.save_pending
save_pending-view now event id destination request s j h = grind (arith, map_laws)

pub enter-view :
    (x : Entry) (s : Store) (j : DeliveryId) (c : Cell)
    → IsFresh j x
    → view s j ≡ some c
    → view (enter x s) j ≡ some c
unfolding enter
enter-view (saves now d) s j c f h = save-view now d s j c h
enter-view (accepts now r) s j c f h = accept-view now r s j f ∙ h
enter-view (saves_pending now event id destination request) s j c f h =
    save_pending-view now event id destination request s j f ∙ h

pub IsSound-IsWellFormed :
    (s : Store) (j : Text) (c : Cell) → IsSound s j → view s j ≡ some c → IsWellFormed c
unfolding view
IsSound-IsWellFormed s j c v h = record {
  held = grind arith;
  current = λ k e. grind (arith, v.current);
}

-- The in-memory adapter keeps the contract.
abbrev pub memory : Repository
memory = record {
  State = Store;
  IsValid = IsValid;
  view = view;
  IsRequest = λ call. Unit {0};
  perform = perform;
  claim =
      λ now owner destination limit lease s. (claim_pending now owner destination limit lease s).1;
  Entry = Entry;
  enter = enter;
  IsFresh = IsFresh;
  acts = λ call s v q. (perform-Implements call s (v.sound (target call))).acts;
  frames = λ call s j v q n. (perform-Implements call s (v.sound (target call))).frames j n;
  answers = λ call s v q. (perform-Implements call s (v.sound (target call))).answers;
  claims = λ now owner destination limit lease s j v l.
      claim_pending-Claims now owner destination limit lease s j v.keyed l;
  enters = enter-view;
  formed = λ s j c v h. IsSound-IsWellFormed s j c (v.sound j) h;
  perform-valid = perform-IsValid;
  claim-valid = claim_pending-IsValid;
  enter-valid = enter-IsValid;
}

-- After every history of calls, claims, saves and intakes from empty maps, a claim is held only by
-- a pending delivery and has its generation, and each delivery stands once, under its own
-- identifier.
pub run-empty_store-IsValid : (xs : List (Step memory)) → IsValid (run memory xs empty_store)
run-empty_store-IsValid xs = run-IsValid memory xs empty_store empty_store-IsValid
