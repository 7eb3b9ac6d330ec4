-- ===== src/Contract/Repository.antt =====
-- The `DeliveryRepository` service of src/services.ts as an interface: what an adapter has, and the
-- laws that its clients rely on. The memory adapter and the SQL adapter are its two instances.
use engineering_with_effect.Prelude.{ℕ, ◌<◌, ◌≡◌, false, Option, some, same_text, Action}
use engineering_with_effect.Model.Ids.{DeliveryId, WorkerId, DestinationId}
use engineering_with_effect.Errors.{RepositoryFailure}
use engineering_with_effect.Contract.{Cell, after, answer}
use engineering_with_effect.Contract.Calls.{Call, target, transition}
use engineering_with_effect.Contract.Laws.{IsWellFormed}
use engineering_with_effect.Contract.Claims.{Claims}

pub record Repository : Type 1 where
  pub State : Type 0
  pub IsValid : State → Type 0
  pub view : State → DeliveryId → Option Cell
  -- The calls whose arguments the adapter admits.
  pub IsRequest : Call → Type 0
  pub perform : Call → Action State RepositoryFailure (Unit {0})
  -- The state after a claim: clock, owner, destination, limit and lease.
  pub claim : ℕ → WorkerId → DestinationId → ℕ → ℕ → State → State
  -- The ways in which a delivery enters, and those that leave a given delivery alone.
  pub Entry : Type 0
  pub enter : Entry → State → State
  pub IsFresh : DeliveryId → Entry → Type 0
  pub acts :
      (call : Call) (s : State)
      → IsValid s
      → IsRequest call
      → view (perform call s).1 (target call)
        ≡ after (view s (target call)) (transition call (view s (target call)))
  pub frames :
      (call : Call) (s : State) (j : DeliveryId)
      → IsValid s
      → IsRequest call
      → same_text (target call) j ≡ false
      → view (perform call s).1 j ≡ view s j
  pub answers :
      (call : Call) (s : State)
      → IsValid s
      → IsRequest call
      → (perform call s).0 ≡ answer (transition call (view s (target call)))
  pub claims :
      (now : ℕ) (owner : WorkerId) (destination : DestinationId) (limit lease : ℕ) (s : State)
      (j : DeliveryId)
      → IsValid s
      → 0 < lease
      → Claims now owner destination lease
          (view s j)
          (view (claim now owner destination limit lease s) j)
  pub enters :
      (x : Entry) (s : State) (j : DeliveryId) (c : Cell)
      → IsFresh j x
      → view s j ≡ some c
      → view (enter x s) j ≡ some c
  pub formed :
      (s : State) (j : DeliveryId) (c : Cell) → IsValid s → view s j ≡ some c → IsWellFormed c
  pub perform-valid : (call : Call) (s : State) → IsValid s → IsValid (perform call s).1
  pub claim-valid :
      (now : ℕ) (owner : WorkerId) (destination : DestinationId) (limit lease : ℕ) (s : State)
      → IsValid s
      → IsValid (claim now owner destination limit lease s)
  pub enter-valid : (x : Entry) (s : State) → IsValid s → IsValid (enter x s)
