-- ===== src/Worker/Sessions.antt =====
-- src/deliveryWorker.ts: what ticks and recordings make of the session and of the delivery, in any
-- repository that keeps the contract.
use engineering_with_effect.Prelude.{
  ℕ, ◌<◌, ◌≡◌, ap, ◌∙◌, inl, inr, Bool, true, ◌&&◌, none, some, List, [], ◌∷◌, ◌++◌, arith,
  if◌then◌else◌, Bool-cases, All, ok, Result-cases,
}
use engineering_with_effect.Model.Ids.{DeliveryId}
use engineering_with_effect.Model.Event.{DeliveryClaim}
use engineering_with_effect.Model.State.{DeliveryState}
use engineering_with_effect.Model.Attempt.{
  DeliveryAttempt, DeliveryAttemptRecord, AttemptTraceCorrelation, attempt_fields,
  make_delivery_attempt_record, has_valid_fields, is_consistent,
}
use engineering_with_effect.Policy.{terminal_state_from_attempt}
use engineering_with_effect.Contract
use engineering_with_effect.Contract.{Cell}
use engineering_with_effect.Contract.Calls.{Call, records, renews, releases, transition}
use engineering_with_effect.Contract.Repository.{Repository}
use engineering_with_effect.Contract.Fencing.{
  Step, calls, apply, run, IsAllowed, Evolves, Evolves-refl, Evolves-trans, run-Evolves,
  run-IsValid,
}
use engineering_with_effect.Engine.Schedule.{Schedules, Resilience}
use engineering_with_effect.Worker.{
  Job, Session, Tick, renewal, elsewhere, cancellation, renew_lease, tick, meanwhile,
}

-- What the job needs of the repository's admission of arguments.
pub record Admits (repo : Repository) : Type 0 where
  pub records_made :
      (now : ℕ) (a : DeliveryAttemptRecord)
      → has_valid_fields a ≡ true
      → is_consistent a ≡ true
      → repo.IsRequest (records now a)
  pub renewals :
      (now : ℕ) (id : DeliveryId) (claim : DeliveryClaim) (lease : ℕ)
      → 0 < lease
      → repo.IsRequest (renews now id claim lease)
  pub releases_any : (id : DeliveryId) (claim : DeliveryClaim) → repo.IsRequest (releases id claim)

-- What is kept under a test has met it.
tested :
    (v c : DeliveryAttemptRecord → Bool) (f x : DeliveryAttemptRecord)
    → (if v f && c f then some f else none) ≡ some x
    → (x ≡ f) × (v x ≡ true) × (c x ≡ true)
tested v c f x h = elim (Bool-cases (v f && c f)) [
  | inl y ↦ let e : x ≡ f = ground arith in (e, ap v e ∙ ground arith, ap c e ∙ ground arith)
  | inr n ↦ absurd (ground arith)
]

-- A record that is made has its attempt's fields, and meets the checks.
pub made-fields :
    (id : DeliveryId) (claim : DeliveryClaim) (a : DeliveryAttempt)
    (trace : AttemptTraceCorrelation) (x : DeliveryAttemptRecord)
    → make_delivery_attempt_record id claim a trace ≡ some x
    → (x ≡ attempt_fields id claim a trace) × (has_valid_fields x ≡ true) × (is_consistent x ≡ true)
unfolding make_delivery_attempt_record
made-fields id claim a trace x h =
    tested has_valid_fields is_consistent (attempt_fields id claim a trace) x h

-- What a recording that succeeds makes of the delivery.
pub recorded_cell :
    (now : ℕ) (x : DeliveryAttemptRecord) (c c' : Cell)
    → transition (records now x) (some c) ≡ ok c'
    → (c'.attempts ≡ c.attempts ++ x ∷ [])
      × ((s : DeliveryState)
          → terminal_state_from_attempt x ≡ some s
          → (c'.delivery.state ≡ s) × (c'.claim ≡ none))
unfolding transition Contract.record_attempt terminal_state_from_attempt
recorded_cell now x c c' h = (ground arith, λ s e. ground arith)

module _ (repo : Repository) (admits : Admits repo) where
  open repo use {State, IsValid, view, perform}

  module _ (lib : Schedules) (resilience : Resilience) (lease : ℕ) (job : Job)
      (trace : AttemptTraceCorrelation) where
    -- The session's claim is the job's but for the lease, on a valid state.
    pub record IsOurs (w : Session State) : Type 0 where
      pub valid : IsValid w.store
      pub owner_id : w.claim.owner_id ≡ job.claim.owner_id
      pub generation : w.claim.generation ≡ job.claim.generation

    -- The delivery as it evolves from one state to another.
    abbrev pub Follows : State → State → Type 0
    Follows s t =
        (c : Cell)
        → view s job.delivery_id ≡ some c
        → (c' : Cell) × (view t job.delivery_id ≡ some c') × Evolves c c'

    Follows-trans : (s t u : State) → Follows s t → Follows t u → Follows s u
    Follows-trans s t u f g c h =
        let (d, p, e) = f c h in let (b, q, r) = g d p in (b, q, Evolves-trans c d b e r)

    applied :
        (x : Step repo) (s : State)
        → IsValid s
        → IsAllowed repo job.delivery_id x
        → IsValid (apply repo x s) × Follows s (apply repo x s)
    unfolding run
    applied x s v a = (
      run-IsValid repo (x ∷ []) s v,
      λ c h. run-Evolves repo (x ∷ []) s job.delivery_id c v (a, tt) h,
    )

    pub performed :
        (call : Call) (s : State)
        → IsValid s
        → repo.IsRequest call
        → IsValid (perform call s).1 × Follows s (perform call s).1
    unfolding apply
    performed call s v q = applied (calls call) s v q

    -- What a tick needs to be allowed.
    abbrev pub IsTame : Tick repo → Type 0
    IsTame (elsewhere x) = IsAllowed repo job.delivery_id x
    IsTame _ = Unit {0}

    abbrev Goes : Session State → Session State → Type 0
    Goes w t = IsOurs t × Follows w.store t.store

    pub renew_lease-Goes :
        (now : ℕ) (w : Session State)
        → 0 < lease
        → IsOurs w
        → Goes w (renew_lease repo lib resilience lease job trace now w).1
    unfolding renew_lease
    renew_lease-Goes now w l o =
        let call = renews now job.delivery_id w.claim lease in
        let (v, f) =
          performed call w.store o.valid (admits.renewals now job.delivery_id w.claim lease l) in
        elim (Result-cases (perform call w.store).0) [
          | inl (u, e) ↦
              rw (e, renew_lease)
                (record { valid = v; owner_id = o.owner_id; generation = o.generation }, f)
          | inr (x, e) ↦
              rw (e, renew_lease)
                (record { valid = v; owner_id = o.owner_id; generation = o.generation }, f)
        ]

    tick-Goes :
        (x : Tick repo) (w : Session State)
        → 0 < lease
        → IsTame x
        → IsOurs w
        → Goes w (tick repo lib resilience lease job trace x w).1
    unfolding tick
    tick-Goes (renewal now) w l a o = renew_lease-Goes now w l o
    tick-Goes (elsewhere x) w l a o =
        let (v, f) = applied x w.store o.valid a in
        (record { valid = v; owner_id = o.owner_id; generation = o.generation }, f)
    tick-Goes cancellation w l a o = (o, λ c h. (c, h, Evolves-refl c))

    pub meanwhile-Goes :
        (xs : List (Tick repo)) (w : Session State)
        → 0 < lease
        → All IsTame xs
        → IsOurs w
        → Goes w (meanwhile repo lib resilience lease job trace xs w).1
    unfolding meanwhile
    meanwhile-Goes [] w l a o = (o, λ c h. (c, h, Evolves-refl c))
    meanwhile-Goes (x ∷ xs) w l a o =
        let t = (tick repo lib resilience lease job trace x w).1 in
        let (p, f) = tick-Goes x w l a.0 o in
        elim (Result-cases (tick repo lib resilience lease job trace x w).0) [
          | inl (u, e) ↦
              let (q, g) = meanwhile-Goes xs t l a.1 p in
              rw (e, meanwhile) (q, Follows-trans w.store t.store _ f g)
          | inr (y, e) ↦ rw (e, meanwhile) (p, f)
        ]
