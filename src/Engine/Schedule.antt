-- ===== src/Engine/Schedule.antt =====
-- src/deliveryEngine.ts: `makeRetrySchedule`, over the combinators of the library `effect`.
use engineering_with_effect.Prelude.{
  ℕ, suc, ◌+◌, ◌-◌, ◌*◌, ◌/◌, ◌^◌, max, min, ◌≡◌, Bool, Option, none, some, ltb, if◌then◌else◌,
  or_else,
}
use engineering_with_effect.Model.Outcome.{DeliveryOutcome}

pub record AttemptObservation : Type 0 where
  pub ordinal : ℕ
  pub started_at_millis : ℕ
  pub completed_at_millis : ℕ
  pub outcome : DeliveryOutcome

-- `DeliveryResilience` of src/configuration.ts, durations in nanoseconds.
pub record Resilience : Type 0 where
  pub attempt_timeout : ℕ
  pub max_attempts : ℕ
  pub max_elapsed : ℕ
  pub base_delay : ℕ
  pub max_delay : ℕ

abbrev pub nanos_per_milli : ℕ
nanos_per_milli = 1000000

-- `Random.next` as the numerator of a fraction over 2 ^ 53, and the two readings of the clock.
pub record Reading : Type 0 where
  pub fraction : ℕ
  pub capped_at_nanos : ℕ
  pub checked_at_nanos : ℕ

abbrev pub fraction_unit : ℕ
fraction_unit = 2 ^ 53

-- What a step of the schedule is given.
pub record Step : Type 0 where
  pub input : AttemptObservation
  pub reading : Reading

-- The combinators of `Schedule` that the program uses, with what its documentation says of a step:
-- it gives the delay before the next recurrence, and the schedule from there on, or is done.
pub record Schedules : Type 1 where
  pub Schedule : Type 0
  pub exponential : ℕ → Schedule
  pub spaced : ℕ → Schedule
  pub min_of : Schedule → Schedule → Schedule
  pub modify_delay : (ℕ → Step → ℕ) → Schedule → Schedule
  pub up_to : ℕ → Schedule → Schedule
  pub while_holds : (ℕ → Step → Bool) → Schedule → Schedule
  pub step : Schedule → Step → Option (ℕ × Schedule)
  pub modify_delay_done :
      (f : ℕ → Step → ℕ) (s : Schedule) (i : Step)
      → step s i ≡ none
      → step (modify_delay f s) i ≡ none
  pub modify_delay_step :
      (f : ℕ → Step → ℕ) (s s' : Schedule) (i : Step) (d : ℕ)
      → step s i ≡ some (d, s')
      → step (modify_delay f s) i ≡ some (f d i, modify_delay f s')
  pub up_to_zero : (s : Schedule) (i : Step) → step (up_to 0 s) i ≡ none
  pub up_to_done : (n : ℕ) (s : Schedule) (i : Step) → step s i ≡ none → step (up_to n s) i ≡ none
  pub up_to_step :
      (n : ℕ) (s s' : Schedule) (i : Step) (d : ℕ)
      → step s i ≡ some (d, s')
      → step (up_to (suc n) s) i ≡ some (d, up_to n s')
  pub while_done :
      (p : ℕ → Step → Bool) (s : Schedule) (i : Step)
      → step s i ≡ none
      → step (while_holds p s) i ≡ none
  pub while_step :
      (p : ℕ → Step → Bool) (s s' : Schedule) (i : Step) (d : ℕ)
      → step s i ≡ some (d, s')
      → step (while_holds p s) i ≡ (if p d i then some (d, while_holds p s') else none)

-- `Duration.millis(Math.floor(Duration.toMillis(duration) * fraction))`
unfoldable pub jitter : ℕ → Step → ℕ
jitter duration i =
    nanos_per_milli * (duration * i.reading.fraction / (nanos_per_milli * fraction_unit))

abbrev pub retry_after_of : DeliveryOutcome → ℕ
retry_after_of (DeliveryOutcome.retryable d s r m) = or_else m 0
retry_after_of _ = 0

unfoldable pub honour_retry_after : ℕ → Step → ℕ
honour_retry_after duration i = max duration (nanos_per_milli * retry_after_of i.input.outcome)

unfoldable pub cap_at_deadline : ℕ → ℕ → Step → ℕ
cap_at_deadline deadline duration i = min duration (deadline - i.reading.capped_at_nanos)

unfoldable pub within_deadline : ℕ → ℕ → Step → Bool
within_deadline deadline duration i = ltb (i.reading.checked_at_nanos + duration) deadline

module _ (lib : Schedules) where
  open lib use {Schedule, exponential, spaced, min_of, modify_delay, up_to, while_holds}

  unfoldable pub capped_backoff : Resilience → Schedule
  capped_backoff r = min_of (exponential r.base_delay) (spaced r.max_delay)

  -- From the backoff on: what the pipe adds, with `times` recurrences left.
  unfoldable pub limited : ℕ → ℕ → Schedule → Schedule
  limited deadline times backoff = while_holds (within_deadline deadline) (
      up_to times (
        modify_delay (cap_at_deadline deadline)
          (modify_delay honour_retry_after (modify_delay jitter backoff))))

  unfoldable pub make_retry_schedule : Resilience → ℕ → Schedule
  unfolding capped_backoff limited
  make_retry_schedule r started_at_nanos =
      limited (started_at_nanos + r.max_elapsed) (r.max_attempts - 1) (capped_backoff r)
