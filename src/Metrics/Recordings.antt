-- ===== src/Metrics/Recordings.antt =====
-- The calls of the recorders of src/deliveryMetrics.ts, and which of them a series counts.
use engineering_with_effect.Prelude.{
  ℕ, ◌+◌, Bool, true, false, ◌&&◌, List, [], ◌∷◌, if◌then◌else◌, Text, same_text,
}
use engineering_with_effect.Model.State.{DeadLetterReason}
use engineering_with_effect.Model.Attempt.{
  DeliveryAttempt, AttemptOutcome, AttemptDecision, outcome_tag, decision_tag,
}
use engineering_with_effect.Metrics.{
  DeliverySaturationSnapshot, Series, Meters, same_outcome, same_decision, same_reason,
  record_admission_rejection, record_attempt, record_dead_letter, record_fencing_rejection,
  set_active_attempts, set_admitted_deliveries, set_saturation,
}

-- A call of one of the recorders.
pub data Recording : Type 0 where
  attempt : DeliveryAttempt → Recording
  dead_letter : DeadLetterReason → Recording
  fencing_rejection : Text → Recording
  admission_rejection : Recording
  active_attempts admitted_deliveries : ℕ → Recording
  saturation : DeliverySaturationSnapshot → Recording

abbrev pub tally : (Recording → Bool) → List Recording → ℕ
tally p [] = 0
tally p (x ∷ xs) = (if p x then 1 else 0) + tally p xs

abbrev has_tags : AttemptDecision → AttemptOutcome → Recording → Bool
has_tags d o (Recording.attempt a) =
    same_decision (decision_tag a.decision) d && same_outcome (outcome_tag a.outcome) o
has_tags d o _ = false

abbrev has_outcome : AttemptOutcome → Recording → Bool
has_outcome o (Recording.attempt a) = same_outcome (outcome_tag a.outcome) o
has_outcome o _ = false

abbrev is_for : DeadLetterReason → Recording → Bool
is_for reason (Recording.dead_letter r) = same_reason r reason
is_for reason _ = false

abbrev is_fencing : Text → Recording → Bool
is_fencing operation (Recording.fencing_rejection o) = same_text o operation
is_fencing operation _ = false

abbrev is_rejection : Recording → Bool
is_rejection Recording.admission_rejection = true
is_rejection _ = false

-- The recordings that a series counts: of a counter its occasions, of a histogram its observations,
-- of a limit none.
abbrev pub picks : Series → Recording → Bool
picks (Series.attempts d o) = has_tags d o
picks (Series.attempt_duration o) = has_outcome o
picks (Series.retry_delay o) = has_tags AttemptDecision.retry_scheduled o
picks (Series.dead_letters reason) = is_for reason
picks (Series.fencing_rejections operation) = is_fencing operation
picks Series.admission_rejections = is_rejection
picks _ = λ x. false

-- The gauges that recordings set.
abbrev pub is_current : Series → Bool
is_current Series.admitted_deliveries = true
is_current Series.active_attempts = true
is_current Series.request_queue_depth = true
is_current _ = false

module _ (host : Meters) where
  open host use {Registry, update, reading}

  unfoldable pub perform : Recording → Registry → Registry
  unfolding record_admission_rejection record_attempt record_dead_letter record_fencing_rejection
      set_active_attempts set_admitted_deliveries set_saturation
  perform (Recording.attempt a) = record_attempt host a
  perform (Recording.dead_letter reason) = record_dead_letter host reason
  perform (Recording.fencing_rejection operation) = record_fencing_rejection host operation
  perform Recording.admission_rejection = record_admission_rejection host
  perform (Recording.active_attempts n) = set_active_attempts host n
  perform (Recording.admitted_deliveries n) = set_admitted_deliveries host n
  perform (Recording.saturation snapshot) = set_saturation host snapshot

  abbrev pub run : List Recording → Registry → Registry
  run [] r = r
  run (x ∷ xs) r = run xs (perform x r)
