-- ===== src/Memory.antt =====
-- src/adapters/memoryPersistence.ts: the in-memory repository and intake store over shared maps.
-- The operations stand here, and what is proved of them in the modules below.
pub mod Intake
pub mod Calls
pub mod View
pub mod Claims
pub mod Claiming
pub mod Idempotency
pub mod History
pub mod Invariant
pub mod Claimed
pub mod Exhaustive
pub mod Refines
use engineering_with_effect.Prelude.{
  select, ℕ, ◌+◌, ◌-◌, max, Bool, true, false, not, ◌&&◌, ◌||◌, Option, none, some, List, [], ◌∷◌,
  ◌++◌, map, ltb, leb, ◌==◌, if◌then◌else◌, or_else, length, take, any, sort_by, Text, same_text,
  Result, ok, err, Action,
}
use engineering_with_effect.Prelude.Maps
use engineering_with_effect.Prelude.Maps.{Map}
use engineering_with_effect.Model.Ids.{DeliveryId, DestinationId, WorkerId}
use engineering_with_effect.Model.Event.{DeliveryClaim, RelayEvent, DeliveryRouteSnapshot}
use engineering_with_effect.Model.State.{Delivery, DeliveryState, is_pending, is_dead_lettered}
use engineering_with_effect.Model.Attempt.{DeliveryAttemptRecord, AttemptDecision}
use engineering_with_effect.Model.Results.{DeliveryResult}
use engineering_with_effect.Policy.{delivery_state_from_result, terminal_state_from_attempt}
use engineering_with_effect.Errors.{
  ClaimOperation, RepositoryOperation, RepositoryFailure, claim_lost, dead_letter_recovery,
  destination_mismatch, repository_error, not_found, not_dead_lettered,
}
use engineering_with_effect.Services.{ClaimedDelivery, DeliveryStatus, IntakeDecisionFields}

pub record StoredIntake : Type 0 where
  pub request_fingerprint : Text
  pub decision : IntakeDecisionFields

pub record Store : Type 0 where
  pub events : Map RelayEvent
  pub records : Map Delivery
  pub claims : Map DeliveryClaim
  pub generations : Map ℕ
  pub routes : Map DeliveryRouteSnapshot
  pub attempts : Map (List DeliveryAttemptRecord)
  pub next_eligible_at : Map ℕ
  pub intakes : Map StoredIntake

abbrev pub empty_store : Store
empty_store = record {
  events = [];
  records = [];
  claims = [];
  generations = [];
  routes = [];
  attempts = [];
  next_eligible_at = [];
  intakes = [];
}

unfoldable pub lost :
    {A : Type 0} → ClaimOperation → DeliveryId → DeliveryClaim → Result RepositoryFailure A
lost operation delivery_id claim =
    err (claim_lost operation delivery_id claim.owner_id claim.generation)

-- `nowMillis === undefined || expiry > nowMillis`
abbrev lease_running : ℕ → Option ℕ → Bool
lease_running expiry none = true
lease_running expiry (some now) = ltb now expiry

unfoldable pub holds : Option DeliveryClaim → DeliveryClaim → Option ℕ → Bool
holds none expected now = false
holds (some current) expected now =
    same_text current.owner_id expected.owner_id
    && current.generation == expected.generation
    && lease_running current.lease_expires_at_millis now

unfoldable pub owns : Store → DeliveryId → DeliveryClaim → Option ℕ → Bool
unfolding holds
owns s delivery_id expected now = holds (Maps.get s.claims delivery_id) expected now

unfoldable pub save : ℕ → Delivery → Action Store RepositoryFailure Unit
save now delivery s = if Maps.has s.records delivery.id then (ok tt, s) else (
  ok tt,
  record s {
    records = Maps.set s.records delivery.id delivery;
    generations = Maps.set s.generations delivery.id 0;
    next_eligible_at = Maps.set s.next_eligible_at delivery.id now;
  },
)

unfoldable pub find_by_id : DeliveryId → Action Store RepositoryFailure (Option Delivery)
find_by_id id s = (ok (Maps.get s.records id), s)

unfoldable status_for : Store → Delivery → DeliveryStatus
status_for s delivery = record {
  delivery = delivery;
  attempts =
      sort_by (λ l r. leb l.ordinal r.ordinal) (or_else (Maps.get s.attempts delivery.id) []);
}

unfoldable pub find_status : DeliveryId → Action Store RepositoryFailure (Option DeliveryStatus)
unfolding status_for
find_status id s =
    (ok (elim (Maps.get s.records id) [ none ↦ none | some d ↦ some (status_for s d) ]), s)

-- What the guards of `recordAttempt` leave to do.
unfoldable record_owned :
    DeliveryAttemptRecord
    → Delivery
    → List DeliveryAttemptRecord
    → Option DeliveryState
    → AttemptDecision
    → Action Store RepositoryFailure Unit
record_owned attempt delivery history terminal_state AttemptDecision.retry_scheduled s = (
  ok tt,
  record s {
    attempts = Maps.set s.attempts attempt.delivery_id (history ++ attempt ∷ []);
    next_eligible_at =
        Maps.set s.next_eligible_at attempt.delivery_id
          (attempt.completed_at_millis + or_else attempt.retry_delay_millis 0);
  },
)
record_owned attempt delivery history none decision s =
    (err (repository_error RepositoryOperation.record_attempt), s)
record_owned attempt delivery history (some state) decision s = (
  ok tt,
  record s {
    attempts = Maps.set s.attempts attempt.delivery_id (history ++ attempt ∷ []);
    records = Maps.set s.records attempt.delivery_id (record delivery { state = state });
    claims = Maps.delete s.claims attempt.delivery_id;
  },
)

-- `DeliveryClaim.make` of the claim that an attempt names.
abbrev attempt_claim : DeliveryAttemptRecord → DeliveryClaim
attempt_claim attempt = record {
  owner_id = attempt.worker_id;
  generation = attempt.claim_generation;
  lease_expires_at_millis = 0;
}

unfoldable pub record_attempt : ℕ → DeliveryAttemptRecord → Action Store RepositoryFailure Unit
unfolding lost owns record_owned
record_attempt now attempt s =
    let refused : Result RepositoryFailure Unit × Store =
      (lost ClaimOperation.record_attempt attempt.delivery_id (attempt_claim attempt), s) in
    elim (Maps.get s.records attempt.delivery_id) [
      | none ↦ refused
      | some delivery ↦
          if not (is_pending delivery.state)
            || not (owns s attempt.delivery_id (attempt_claim attempt) (some now))
          then refused
          else (let history = or_else (Maps.get s.attempts attempt.delivery_id) [] in
              if any (λ a. a.ordinal == attempt.ordinal) history
              then (err (repository_error RepositoryOperation.record_attempt), s)
              else record_owned attempt delivery history (terminal_state_from_attempt attempt)
                  attempt.decision s)
    ]

-- `localeCompare` is the host's: `locale_le l r` stands for an answer of at most 0.
unfoldable pub list_dead_letters :
    (Text → Text → Bool) → ℕ → Action Store RepositoryFailure (List DeliveryStatus)
unfolding status_for
list_dead_letters locale_le limit s = (
  ok (
      map (status_for s) (
        take limit (
          sort_by (λ l r. locale_le l.id r.id)
            (select (λ d. is_dead_lettered d.state) (Maps.values s.records))))),
  s,
)

unfoldable pub retry_dead_letter : ℕ → DeliveryId → Action Store RepositoryFailure Unit
retry_dead_letter now id s = elim (Maps.get s.records id) [
  | none ↦ (err (dead_letter_recovery id not_found), s)
  | some current ↦
      if not (is_dead_lettered current.state)
      then (err (dead_letter_recovery id not_dead_lettered), s)
      else (
        ok tt,
        record s {
          records = Maps.set s.records id (record current { state = DeliveryState.pending });
          claims = Maps.delete s.claims id;
          next_eligible_at = Maps.set s.next_eligible_at id now;
        },
      )
]

unfoldable pub repair_dead_letter :
    ℕ → DeliveryId → DeliveryRouteSnapshot → Action Store RepositoryFailure Unit
repair_dead_letter now id route s = elim (Maps.get s.records id) [
  | none ↦ (err (dead_letter_recovery id not_found), s)
  | some current ↦
      if not (is_dead_lettered current.state)
      then (err (dead_letter_recovery id not_dead_lettered), s)
      else if not (same_text current.destination_id route.destination_id)
      then (err (destination_mismatch id current.destination_id route.destination_id), s)
      else (
        ok tt,
        record s {
          records = Maps.set s.records id (record current { state = DeliveryState.pending });
          routes = Maps.set s.routes id route;
          claims = Maps.delete s.claims id;
          next_eligible_at = Maps.set s.next_eligible_at id now;
        },
      )
]

unfoldable pub terminate_dead_letter : DeliveryId → Action Store RepositoryFailure Unit
terminate_dead_letter id s = elim (Maps.get s.records id) [
  | none ↦ (err (dead_letter_recovery id not_found), s)
  | some current ↦
      if not (is_dead_lettered current.state)
      then (err (dead_letter_recovery id not_dead_lettered), s)
      else (
        ok tt,
        record s {
          records = Maps.set s.records id (record current { state = DeliveryState.terminated });
          claims = Maps.delete s.claims id;
        },
      )
]

unfoldable pub renew_claim :
    ℕ → DeliveryId → DeliveryClaim → ℕ → Action Store RepositoryFailure DeliveryClaim
unfolding lost owns
renew_claim now delivery_id claim lease s =
    if not (owns s delivery_id claim (some now))
    then (lost ClaimOperation.renew delivery_id claim, s)
    else (let renewed : DeliveryClaim = record claim { lease_expires_at_millis = now + lease } in
        (ok renewed, record s { claims = Maps.set s.claims delivery_id renewed }))

unfoldable pub complete_claim :
    ℕ → DeliveryId → DeliveryClaim → DeliveryResult → Action Store RepositoryFailure Unit
unfolding lost owns
complete_claim now delivery_id claim result s = elim (Maps.get s.records delivery_id) [
  | none ↦ (lost ClaimOperation.complete delivery_id claim, s)
  | some current ↦
      if not (is_pending current.state) || not (owns s delivery_id claim (some now))
      then (lost ClaimOperation.complete delivery_id claim, s)
      else (
        ok tt,
        record s {
          records =
              Maps.set s.records delivery_id
                (record current { state = delivery_state_from_result result });
          claims = Maps.delete s.claims delivery_id;
        },
      )
]

unfoldable pub release_claim : DeliveryId → DeliveryClaim → Action Store RepositoryFailure Unit
unfolding lost owns
release_claim delivery_id claim s = elim (Maps.get s.records delivery_id) [
  | none ↦ (lost ClaimOperation.release delivery_id claim, s)
  | some current ↦
      if not (is_pending current.state) || not (owns s delivery_id claim none)
      then (lost ClaimOperation.release delivery_id claim, s)
      else (ok tt, record s { claims = Maps.delete s.claims delivery_id })
]
