-- ===== src/Memory/Refines.antt =====
-- The in-memory adapter implements the repository's contract: on the delivery it names each
-- operation is the contract's transition, and it leaves every other delivery as it was.
use engineering_with_effect.Prelude.{◌≡◌, false, arith, Text, same_text, same_text_refl}
use engineering_with_effect.Prelude.Maps.{map_laws}
use engineering_with_effect.Contract.{after, answer}
use engineering_with_effect.Memory.{Store}
use engineering_with_effect.Contract.Calls.{Call, records, renews, target, transition}
use engineering_with_effect.Memory.Calls.{perform}
use engineering_with_effect.Memory.View.{view, IsSound}

-- What a call does is what the contract says: on the delivery that it names, on every other, and in
-- its answer.
pub record Implements (call : Call) (s : Store) : Type 0 where
  pub acts :
      view (perform call s).1 (target call)
      ≡ after (view s (target call)) (transition call (view s (target call)))
  pub frames : (j : Text) → same_text (target call) j ≡ false → view (perform call s).1 j ≡ view s j
  pub answers : (perform call s).0 ≡ answer (transition call (view s (target call)))

perform-acts :
    (call : Call) (s : Store)
    → IsSound s (target call)
    → view (perform call s).1 (target call)
      ≡ after (view s (target call)) (transition call (view s (target call)))
unfolding view perform transition
perform-acts (records now a) s v = grind (arith, map_laws, same_text_refl)
perform-acts (renews now id claim lease) s v = grind (arith, map_laws, same_text_refl)
perform-acts _ s v = grind (arith, map_laws, same_text_refl)

perform-frames :
    (call : Call) (s : Store) (j : Text)
    → same_text (target call) j ≡ false
    → view (perform call s).1 j ≡ view s j
unfolding view perform
perform-frames (records now a) s j h = grind (arith, map_laws)
perform-frames _ s j h = grind (arith, map_laws)

perform-answers :
    (call : Call) (s : Store)
    → IsSound s (target call)
    → (perform call s).0 ≡ answer (transition call (view s (target call)))
unfolding view perform transition
perform-answers (records now a) s v = ground arith
perform-answers _ s v = ground arith

-- From a sound store each call of the in-memory repository is the contract's transition on the
-- delivery that it names, changes no other delivery, and answers as the contract does.
pub perform-Implements : (call : Call) (s : Store) → IsSound s (target call) → Implements call s
perform-Implements call s v = record {
  acts = perform-acts call s v;
  frames = perform-frames call s;
  answers = perform-answers call s v;
}
