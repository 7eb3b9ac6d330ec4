-- ===== src/Contract/Laws.antt =====
-- What holds of every transition of the contract.
use engineering_with_effect.Prelude.{
  ℕ, ◌+◌, ◌<◌, ◌≡◌, refl, ◌≢◌, ◌⊎◌, inl, inr, Bool, true, false, ◌||◌, Option, none, some, List, [],
  ◌∷◌, ◌++◌, arith, ◌==◌, any, Text, same_text, same_text_iff, ok, err, Result-cases,
}
use engineering_with_effect.Model.Ids.{DeliveryId}
use engineering_with_effect.Model.Event.{DeliveryClaim}
use engineering_with_effect.Model.State.{DeliveryState, is_pending}
use engineering_with_effect.Model.Attempt.{DeliveryAttemptRecord}
use engineering_with_effect.Errors.{RepositoryFailure}
use engineering_with_effect.Contract
use engineering_with_effect.Contract.{Cell, fits}
use engineering_with_effect.Contract.Calls.{
  Call, records, retries, repairs, terminates, renews, completes, releases, transition, fence,
}
use engineering_with_effect.Policy.{delivery_state_from_result, terminal_state_from_attempt}

-- Only a pending delivery holds a claim, and the claim has the delivery's generation.
pub record IsWellFormed (c : Cell) : Type 0 where
  pub held : (is_pending c.delivery.state ≡ true) ⊎ (c.claim ≡ none)
  pub current : (k : DeliveryClaim) → c.claim ≡ some k → k.generation ≡ c.generation

-- A delivery is settled for good once it is delivered, rejected or terminated.
abbrev pub IsFinal : DeliveryState → Type 0
IsFinal (DeliveryState.delivered s) = Unit {0}
IsFinal (DeliveryState.rejected s) = Unit {0}
IsFinal DeliveryState.terminated = Unit {0}
IsFinal _ = ⊥

-- The moves that the state machine of a delivery allows.
abbrev Moves : DeliveryState → DeliveryState → Type 0
Moves DeliveryState.pending DeliveryState.terminated = ⊥
Moves DeliveryState.pending t = Unit {0}
Moves (DeliveryState.dead_lettered r) DeliveryState.pending = Unit {0}
Moves (DeliveryState.dead_lettered r) DeliveryState.terminated = Unit {0}
Moves s t = s ≡ t

-- No ordinal occurs twice in a history.
abbrev pub Distinct : List DeliveryAttemptRecord → Type 0
Distinct [] = Unit {0}
Distinct (a ∷ h) = (any (λ b. b.ordinal == a.ordinal) h ≡ false) × Distinct h

-- What one successful transition may change.
pub record Advances (c c' : Cell) : Type 0 where
  pub state : Moves c.delivery.state c'.delivery.state
  pub id : c'.delivery.id ≡ c.delivery.id
  pub event_id : c'.delivery.event_id ≡ c.delivery.event_id
  pub destination_id : c'.delivery.destination_id ≡ c.delivery.destination_id
  pub generation : c'.generation ≡ c.generation
  pub history :
      (c'.attempts ≡ c.attempts)
      ⊎ ((a : DeliveryAttemptRecord) × (c'.attempts ≡ c.attempts ++ a ∷ []))

any-append :
    (p : DeliveryAttemptRecord → Bool) (h : List DeliveryAttemptRecord) (a : DeliveryAttemptRecord)
    → any p (h ++ a ∷ []) ≡ (any p h || p a)
any-append p [] a = ground arith
any-append p (b ∷ h) a = ground (arith, any-append p h a)

Distinct-append :
    (h : List DeliveryAttemptRecord) (a : DeliveryAttemptRecord)
    → Distinct h
    → any (λ b. b.ordinal == a.ordinal) h ≡ false
    → Distinct (h ++ a ∷ [])
Distinct-append [] a d n = (refl, tt)
Distinct-append (b ∷ h) a d n = (
  rw (any-append (λ c. c.ordinal == b.ordinal) h a) (ground arith),
  Distinct-append h a d.1 (ground arith),
)

-- A claim that fits is there, with that generation.
fits-some :
    (o : Option DeliveryClaim) (owner : Text) (g : ℕ)
    → fits o owner g ≡ true
    → (k : DeliveryClaim) × (o ≡ some k) × (same_text k.owner_id owner ≡ true) × (k.generation ≡ g)
fits-some none owner g h = cc
fits-some (some k) owner g h = (k, refl, ground arith, ground arith)

record_attempt-history :
    (now : ℕ) (a : DeliveryAttemptRecord) (c c' : Cell)
    → Contract.record_attempt now a (some c) ≡ ok c'
    → c'.attempts ≡ c.attempts ++ a ∷ []
unfolding Contract.record_attempt
record_attempt-history now a c c' h = ground arith

renew_claim-fits :
    (now : ℕ) (id : DeliveryId) (claim : DeliveryClaim) (lease : ℕ) (c c' : Cell)
    → Contract.renew_claim now id claim lease (some c) ≡ ok c'
    → (fits c.claim claim.owner_id claim.generation ≡ true)
      × (c'.generation ≡ c.generation)
      × (c'.claim ≡ some (record claim { lease_expires_at_millis = now + lease }))
      × (is_pending c'.delivery.state ≡ true)
unfolding Contract.renew_claim
renew_claim-fits now id claim lease c c' h = ground arith

module _ (c c' : Cell) where
  -- A call that succeeds moves the delivery along its state machine, leaves its identifiers and its
  -- generation as they are, and adds at most one attempt at the end of its history.
  pub transition-Advances : (call : Call) → transition call (some c) ≡ ok c' → Advances c c'
  unfolding transition delivery_state_from_result terminal_state_from_attempt
  transition-Advances (records now a) h = record {
    state = ground arith;
    id = ground arith;
    event_id = ground arith;
    destination_id = ground arith;
    generation = ground arith;
    history = inr (a, record_attempt-history now a c c' h);
  }
  transition-Advances (retries now id) h = ground arith
  transition-Advances (repairs now id route) h = ground arith
  transition-Advances (terminates id) h = ground arith
  transition-Advances (renews now id claim lease) h = ground arith
  transition-Advances (completes now id claim r) h = ground arith
  transition-Advances (releases id claim) h = ground arith

  -- A call that succeeds keeps the ordinals of the history distinct.
  pub transition-Distinct :
      (call : Call) → transition call (some c) ≡ ok c' → Distinct c.attempts → Distinct c'.attempts
  unfolding transition
  transition-Distinct (records now a) h d = ground (arith, Distinct-append c.attempts a d)
  transition-Distinct _ h d = ground arith

  -- A call that succeeds keeps the claim to pending deliveries and to the current generation.
  pub transition-IsWellFormed :
      (call : Call) → transition call (some c) ≡ ok c' → IsWellFormed c → IsWellFormed c'
  unfolding transition
  transition-IsWellFormed (records now a) h w = record {
    held = ground (arith);
    current = λ k e. ground (arith, w.current k);
  }
  transition-IsWellFormed (renews now id claim lease) h w =
      let (f, g, k', p) = renew_claim-fits now id claim lease c c' h in
      let (k, e, o, n) = fits-some c.claim claim.owner_id claim.generation f in
      record { held = inl p; current = λ m q. ground (arith, w.current k e) }
  transition-IsWellFormed _ h w = record {
    held = ground arith;
    current = λ k e. ground (arith, w.current k);
  }

final_refuses :
    (call : Call) (c c' : Cell) → IsFinal c.delivery.state → transition call (some c) ≢ ok c'
unfolding transition
final_refuses (records now a) c c' h = ground arith
final_refuses _ c c' h = ground arith

-- On a delivery that is delivered, rejected or terminated every call fails.
pub transition_final :
    (call : Call) (c : Cell)
    → IsFinal c.delivery.state
    → (e : RepositoryFailure) × (transition call (some c) ≡ err e)
transition_final call c h = elim (Result-cases (transition call (some c))) [
  | inl (c', e) ↦ absurd (final_refuses call c c' h e)
  | inr p ↦ p
]

-- A fenced call that succeeds names the current claim.
fenced_fits :
    (call : Call) (owner : Text) (g : ℕ) (c c' : Cell)
    → fence call ≡ some (owner, g)
    → transition call (some c) ≡ ok c'
    → fits c.claim owner g ≡ true
unfolding transition
fenced_fits (records now a) owner g c c' f h = ground arith
fenced_fits _ owner g c c' f h = ground arith

-- On a well-formed delivery whoever acts under an older generation than the delivery's is refused,
-- whichever of the fenced calls it is.
pub stale_refused :
    (call : Call) (owner : Text) (g : ℕ) (c : Cell)
    → fence call ≡ some (owner, g)
    → IsWellFormed c
    → g < c.generation
    → (e : RepositoryFailure) × (transition call (some c) ≡ err e)
stale_refused call owner g c f w lt = elim (Result-cases (transition call (some c))) [
  | inl (c', e) ↦
      let (k, q, o, n) = fits-some c.claim owner g (fenced_fits call owner g c c' f e) in
      absurd (omega (arith, w.current k q))
  | inr p ↦ p
]

-- At most one owner: two fenced calls that would both succeed on a delivery name the same owner and
-- the same generation.
pub fenced_exclusive :
    (x y : Call) (o p : Text) (g h : ℕ) (c c' c'' : Cell)
    → fence x ≡ some (o, g)
    → fence y ≡ some (p, h)
    → transition x (some c) ≡ ok c'
    → transition y (some c) ≡ ok c''
    → (o ≡ p) × (g ≡ h)
fenced_exclusive x y o p g h c c' c'' fx fy ex ey =
    let (k, kq, ko, kn) = fits-some c.claim o g (fenced_fits x o g c c' fx ex) in
    let (m, mq, mo, mn) = fits-some c.claim p h (fenced_fits y p h c c'' fy ey) in
    ground (arith, same_text_iff k.owner_id o, same_text_iff m.owner_id p)
