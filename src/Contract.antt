-- ===== src/Contract.antt =====
-- What a delivery repository promises (the `DeliveryRepository` service of src/services.ts), for
-- one delivery at a time and free of maps, tables and columns: the memory adapter and the SQL
-- adapter are both proved to implement these transitions.
pub mod Calls
pub mod Laws
pub mod Claims
pub mod Repository
pub mod Fencing
pub mod Owners
pub mod Parity
use engineering_with_effect.Prelude.{
  ℕ, ◌+◌, Bool, false, not, ◌&&◌, Option, none, some, List, [], ◌∷◌, ◌++◌, ltb, leb, ◌==◌,
  if◌then◌else◌, or_else, any, Text, same_text, Result, ok, err,
}
use engineering_with_effect.Model.Ids.{DeliveryId}
use engineering_with_effect.Model.Event.{DeliveryClaim, DeliveryRouteSnapshot}
use engineering_with_effect.Model.State.{Delivery, DeliveryState, is_pending, is_dead_lettered}
use engineering_with_effect.Model.Attempt.{DeliveryAttemptRecord, AttemptDecision}
use engineering_with_effect.Policy.{terminal_state_from_attempt}
use engineering_with_effect.Errors.{
  ClaimOperation, RepositoryOperation, RepositoryFailure, claim_lost, dead_letter_recovery,
  destination_mismatch, repository_error, not_found, not_dead_lettered,
}

-- The durable facts of one delivery.
pub record Cell : Type 0 where
  pub delivery : Delivery
  pub claim : Option DeliveryClaim
  pub generation : ℕ
  pub route : Option DeliveryRouteSnapshot
  pub attempts : List DeliveryAttemptRecord
  pub next_eligible_at : ℕ

-- A failure with the cell as it was, or success with the new cell.
abbrev pub Reply : Type 0
Reply = Result RepositoryFailure Cell

-- The cell behind a reply: a failure changes nothing.
abbrev pub after : Option Cell → Reply → Option Cell
after before (ok c) = some c
after before (err e) = before

-- The claim is the current one: same owner, same generation.
abbrev pub fits : Option DeliveryClaim → Text → ℕ → Bool
fits none owner generation = false
fits (some c) owner generation = same_text c.owner_id owner && c.generation == generation

abbrev unexpired : Option DeliveryClaim → ℕ → Bool
unexpired none now = false
unexpired (some c) now = ltb now c.lease_expires_at_millis

abbrev refuse : ClaimOperation → DeliveryId → Text → ℕ → Reply
refuse operation id owner generation = err (claim_lost operation id owner generation)

abbrev pub settle : Cell → DeliveryState → Cell
settle c state = record c { delivery = record c.delivery { state = state }; claim = none }

record_fenced : DeliveryAttemptRecord → Cell → AttemptDecision → Option DeliveryState → Reply
record_fenced a c AttemptDecision.retry_scheduled state = ok (record c {
  attempts = c.attempts ++ a ∷ [];
  next_eligible_at = a.completed_at_millis + or_else a.retry_delay_millis 0;
})
record_fenced a c decision none = err (repository_error RepositoryOperation.record_attempt)
record_fenced a c decision (some state) =
    ok (record (settle c state) { attempts = c.attempts ++ a ∷ [] })

-- Only the current, unexpired claim of a pending delivery may record an attempt, once per ordinal.
unfoldable pub record_attempt : ℕ → DeliveryAttemptRecord → Option Cell → Reply
unfolding record_fenced
record_attempt now a none =
    refuse ClaimOperation.record_attempt a.delivery_id a.worker_id a.claim_generation
record_attempt now a (some c) =
    if is_pending c.delivery.state
      && fits c.claim a.worker_id a.claim_generation
      && unexpired c.claim now
    then (if any (λ b. b.ordinal == a.ordinal) c.attempts
        then err (repository_error RepositoryOperation.record_attempt)
        else record_fenced a c a.decision (terminal_state_from_attempt a))
    else refuse ClaimOperation.record_attempt a.delivery_id a.worker_id a.claim_generation

abbrev dead_letter : DeliveryId → Option Cell → (Cell → Reply) → Reply
dead_letter id none action = err (dead_letter_recovery id not_found)
dead_letter id (some c) action =
    if is_dead_lettered c.delivery.state
    then action c
    else err (dead_letter_recovery id not_dead_lettered)

abbrev pub revive : ℕ → Cell → Cell
revive now c = record (settle c DeliveryState.pending) { next_eligible_at = now }

unfoldable pub retry_dead_letter : ℕ → DeliveryId → Option Cell → Reply
retry_dead_letter now id o = dead_letter id o (λ c. ok (revive now c))

unfoldable pub repair_dead_letter : ℕ → DeliveryId → DeliveryRouteSnapshot → Option Cell → Reply
repair_dead_letter now id route o = dead_letter id o (λ c.
    if same_text c.delivery.destination_id route.destination_id
    then ok (record (revive now c) { route = some route })
    else err (destination_mismatch id c.delivery.destination_id route.destination_id))

unfoldable pub terminate_dead_letter : DeliveryId → Option Cell → Reply
terminate_dead_letter id o = dead_letter id o (λ c. ok (settle c DeliveryState.terminated))

-- May a worker claim this delivery for a destination now?
abbrev pub is_claimable : ℕ → Text → Cell → Bool
is_claimable now destination c =
    is_pending c.delivery.state
    && same_text c.delivery.destination_id destination
    && leb c.next_eligible_at now
    && not (unexpired c.claim now)

-- Claiming raises the generation by one and starts a lease.
abbrev pub claimed : ℕ → Text → ℕ → Cell → Cell
claimed now owner lease c = record c {
  generation = c.generation + 1;
  claim = some (record {
    owner_id = owner;
    generation = c.generation + 1;
    lease_expires_at_millis = now + lease;
  });
}

unfoldable pub renew_claim : ℕ → DeliveryId → DeliveryClaim → ℕ → Option Cell → Reply
renew_claim now id claim lease none = refuse ClaimOperation.renew id claim.owner_id claim.generation
renew_claim now id claim lease (some c) =
    if is_pending c.delivery.state
      && fits c.claim claim.owner_id claim.generation
      && unexpired c.claim now
    then ok (record c { claim = some (record claim { lease_expires_at_millis = now + lease }) })
    else refuse ClaimOperation.renew id claim.owner_id claim.generation

unfoldable pub complete_claim : ℕ → DeliveryId → DeliveryClaim → DeliveryState → Option Cell → Reply
complete_claim now id claim state none =
    refuse ClaimOperation.complete id claim.owner_id claim.generation
complete_claim now id claim state (some c) =
    if is_pending c.delivery.state
      && fits c.claim claim.owner_id claim.generation
      && unexpired c.claim now
    then ok (settle c state)
    else refuse ClaimOperation.complete id claim.owner_id claim.generation

-- A release needs the claim, and no running lease.
unfoldable pub release_claim : DeliveryId → DeliveryClaim → Option Cell → Reply
release_claim id claim none = refuse ClaimOperation.release id claim.owner_id claim.generation
release_claim id claim (some c) =
    if is_pending c.delivery.state && fits c.claim claim.owner_id claim.generation
    then ok (record c { claim = none })
    else refuse ClaimOperation.release id claim.owner_id claim.generation

-- `void`, or the failure, as an adapter returns it.
abbrev pub answer : Reply → Result RepositoryFailure (Unit {0})
answer (ok c) = ok tt
answer (err e) = err e
