-- ===== src/Engine/Run.antt =====
-- The loop of `runDeliveryWithRetry` in src/deliveryEngine.ts: how it ends and what its history is.
use engineering_with_effect.Prelude.{
  ℕ, suc, ◌+◌, ◌-◌, ◌/◌, ◌≤◌, ◌<◌, ◌≡◌, refl, sym, subst, ◌∙◌, inl, inr, true, false, none, some,
  List, [], ◌∷◌, ◌++◌, arith, Bool-cases, Option-cases, length, All, Result-cases,
}
use mathlib.Core.List.{append_assoc}
use engineering_with_effect.Model.Ids.{DeliveryId, DestinationId}
use engineering_with_effect.Model.Attempt.{DeliveryAttempt, DeliveryAttemptDecision}
use engineering_with_effect.Model.Results.{DeliveryResult, result_fields}
use engineering_with_effect.Policy.{delivery_state_from_result, terminal_state_from_attempt}
use engineering_with_effect.Engine.Schedule.{
  AttemptObservation, Schedules, Resilience, Step, limited, capped_backoff, make_retry_schedule,
  nanos_per_milli,
}
use engineering_with_effect.Engine.Bounds.{limited-IsScheduled}
use engineering_with_effect.Engine.{
  with_decision, is_retryable, terminal_result, fields_of, then_record, Round, Ending, finished,
  failed, running, attempts_from, run_delivery_with_retry,
}
use engineering_with_effect.Engine.Endings.{Agrees, Closes, EndsWell, terminal_result-attempts}

module _ (lib : Schedules) {S E : Type 0} (delivery_id : DeliveryId)
    (destination_id : DestinationId) (deadline : ℕ) where
  open lib use {Schedule, step}

  -- The host numbers the attempt as it was told, and its second reading of the clock is no earlier
  -- than its first.
  pub record IsHonest (round : Round S E) : Type 0 where
    pub numbers : (o t : ℕ) → (round.execute_attempt o t).ordinal ≡ o
    pub forward : round.reading.capped_at_nanos ≤ round.reading.checked_at_nanos

  module _ (round : Round S E) (rounds : List (Round S E)) (n next : ℕ)
      (history : List DeliveryAttempt) (b : Schedule) (h : IsHonest round) (s : S) where
    attempt : AttemptObservation
    attempt = round.execute_attempt (next + 1) (deadline - round.attempt_started_at_nanos)

    numbered : attempt.ordinal ≡ next + 1
    unfolding attempt
    numbered = h.numbers (next + 1) (deadline - round.attempt_started_at_nanos)

    terminal-Agrees :
        is_retryable attempt.outcome ≡ false
        → (attempts : List DeliveryAttempt)
        → Agrees
            (with_decision attempt DeliveryAttemptDecision.terminal)
            (terminal_result delivery_id destination_id attempt.outcome attempts)
    unfolding with_decision terminal_result is_retryable terminal_state_from_attempt
        delivery_state_from_result
    terminal-Agrees e attempts id claim trace = ground arith

    exhausted-Agrees :
        (attempts : List DeliveryAttempt)
        → Agrees (with_decision attempt DeliveryAttemptDecision.exhausted) (
            DeliveryResult.exhausted
              (fields_of delivery_id destination_id attempts)
              attempt.outcome)
    unfolding with_decision terminal_state_from_attempt delivery_state_from_result
    exhausted-Agrees attempts id claim trace = refl

    -- The next round, if a retry is scheduled.
    again : ℕ → DeliveryAttempt
    unfolding attempt with_decision
    again delay =
        with_decision attempt (DeliveryAttemptDecision.retry_scheduled (delay / nanos_per_milli))

    Closes-now :
        (d : DeliveryAttemptDecision) (r : DeliveryResult)
        → (result_fields r).attempts ≡ history ++ with_decision attempt d ∷ []
        → Agrees (with_decision attempt d) r
        → Closes n next history r
    unfolding with_decision
    Closes-now d r e a = record {
      earlier = [];
      last = with_decision attempt d;
      attempts = e;
      retried = tt;
      decided = a;
      numbered = (numbered, tt);
      counted = omega arith;
    }

    Closes-later :
        (m delay : ℕ) (r : DeliveryResult)
        → n ≡ suc m
        → Closes m (next + 1) (history ++ again delay ∷ []) r
        → Closes n next history r
    unfolding again
    Closes-later m delay r e c = record {
      earlier = again delay ∷ c.earlier;
      last = c.last;
      attempts = c.attempts ∙ append_assoc history (again delay ∷ []) (c.earlier ++ c.last ∷ []);
      retried = (refl, c.retried);
      decided = c.decided;
      numbered = (numbered, c.numbered);
      counted = omega (arith, c.counted);
    }

    ends_later :
        (m delay : ℕ) (x : Ending S E)
        → n ≡ suc m
        → EndsWell m (next + 1) (history ++ again delay ∷ []) x
        → EndsWell n next history x
    ends_later m delay (finished r t) e c = Closes-later m delay r e c
    ends_later m delay (failed f t) e c = tt
    ends_later m delay (running l t) e c = c

    recorded :
        (a : DeliveryAttempt) (x : S → Ending S E)
        → ((t : S) → EndsWell n next history (x t))
        → EndsWell n next history (then_record lib delivery_id destination_id deadline round a x s)
    recorded a x w =
        let t = (round.on_attempt a s).1 in
        elim (Result-cases (round.on_attempt a s).0) [
          | inl (u, e) ↦
              let q : then_record lib delivery_id destination_id deadline round a x s ≡ x t =
                rw (e, then_record) refl in
              subst (EndsWell n next history) (sym q) (w t)
          | inr (f, e) ↦
              let q : then_record lib delivery_id destination_id deadline round a x s ≡ failed f t =
                rw (e, then_record) refl in
              subst (EndsWell n next history) (sym q) tt
        ]

    step_input : Step
    unfolding attempt
    step_input = record { input = attempt; reading = round.reading }

    step_forward : step_input.reading.capped_at_nanos ≤ step_input.reading.checked_at_nanos
    unfolding step_input
    step_forward = h.forward

    looped : Ending S E
    looped =
        attempts_from lib delivery_id destination_id deadline (round ∷ rounds) next history
          (limited lib deadline n b) s

    looped-terminal :
        is_retryable attempt.outcome ≡ false
        → let done = with_decision attempt DeliveryAttemptDecision.terminal in
          looped
          ≡ then_record lib delivery_id destination_id deadline round done
              (finished
                (terminal_result delivery_id destination_id attempt.outcome (history ++ done ∷ [])))
              s
    unfolding looped attempts_from attempt
    looped-terminal e = rw (e, looped, attempts_from) refl

    looped-exhausted :
        is_retryable attempt.outcome ≡ true
        → step (limited lib deadline n b) step_input ≡ none
        → let done = with_decision attempt DeliveryAttemptDecision.exhausted in
          looped
          ≡ then_record lib delivery_id destination_id deadline round done
              (finished (
                DeliveryResult.exhausted
                  (fields_of delivery_id destination_id (history ++ done ∷ []))
                  attempt.outcome))
              s
    unfolding looped attempts_from step_input attempt
    looped-exhausted e f = rw (e, f, looped, attempts_from) refl

    looped-retried :
        (delay : ℕ) (next_schedule : Schedule)
        → is_retryable attempt.outcome ≡ true
        → step (limited lib deadline n b) step_input ≡ some (delay, next_schedule)
        → looped
          ≡ then_record lib delivery_id destination_id deadline round
              (again delay)
              (attempts_from lib delivery_id destination_id deadline rounds
                (next + 1)
                (history ++ again delay ∷ [])
                next_schedule)
              s
    unfolding looped attempts_from step_input again attempt
    looped-retried delay next_schedule e f = rw (e, f, looped, attempts_from) refl

    ends_now : is_retryable attempt.outcome ≡ false → EndsWell n next history looped
    ends_now e =
        let done = with_decision attempt DeliveryAttemptDecision.terminal in
        let attempts = history ++ done ∷ [] in
        subst (EndsWell n next history) (sym (looped-terminal e)) (
          recorded done
            (λ t. finished (terminal_result delivery_id destination_id attempt.outcome attempts) t)
            (λ t.
              Closes-now DeliveryAttemptDecision.terminal _
                (terminal_result-attempts delivery_id destination_id attempt.outcome attempts)
                (terminal-Agrees e attempts)))

    ends_exhausted :
        is_retryable attempt.outcome ≡ true
        → step (limited lib deadline n b) step_input ≡ none
        → EndsWell n next history looped
    ends_exhausted e f =
        let done = with_decision attempt DeliveryAttemptDecision.exhausted in
        let attempts = history ++ done ∷ [] in
        subst (EndsWell n next history) (sym (looped-exhausted e f)) (
          recorded done
            (λ t.
              finished
                (DeliveryResult.exhausted (fields_of delivery_id destination_id attempts)
                  attempt.outcome)
                t)
            (λ t. Closes-now DeliveryAttemptDecision.exhausted _ refl (exhausted-Agrees attempts)))

    ends_retried :
        (m delay : ℕ) (next_schedule : Schedule)
        → is_retryable attempt.outcome ≡ true
        → step (limited lib deadline n b) step_input ≡ some (delay, next_schedule)
        → n ≡ suc m
        → ((t : S)
            → EndsWell m (next + 1) (history ++ again delay ∷ []) (
                attempts_from lib delivery_id destination_id deadline rounds
                  (next + 1)
                  (history ++ again delay ∷ [])
                  next_schedule
                  t))
        → EndsWell n next history looped
    ends_retried m delay next_schedule e f q w =
        subst (EndsWell n next history) (sym (looped-retried delay next_schedule e f))
          (recorded (again delay) _ (λ t. ends_later m delay _ q (w t)))

  attempts_from-EndsWell :
      (rounds : List (Round S E)) (n next : ℕ) (history : List DeliveryAttempt) (b : Schedule)
      (s : S)
      → All IsHonest rounds
      → n < length rounds
      → EndsWell n next history (
          attempts_from lib delivery_id destination_id deadline rounds next history
            (limited lib deadline n b)
            s)
  unfolding looped
  attempts_from-EndsWell [] n next history b s a l = absurd (omega arith)
  attempts_from-EndsWell (round ∷ rounds) n next history b s (h, a) l =
      elim (Bool-cases (is_retryable (attempt round rounds n next history b h s).outcome)) [
        | inr e ↦ ends_now round rounds n next history b h s e
        | inl e ↦
            elim (Option-cases
              (step (limited lib deadline n b) (step_input round rounds n next history b h s))) [
                | inl f ↦ ends_exhausted round rounds n next history b h s e f
                | inr ((delay, next_schedule), f) ↦
                    let k =
                      limited-IsScheduled lib deadline n b next_schedule
                        (step_input round rounds n next history b h s) delay
                        (step_forward round rounds n next history b h s) f in
                    let (m, b', q, r) = k.counted in
                    let history' = history ++ again round rounds n next history b h s delay ∷ [] in
                    let left = λ (s' : Schedule).
                      (t : S)
                      → EndsWell m (next + 1) history' (
                          attempts_from lib delivery_id destination_id deadline rounds (next + 1)
                            history' s' t) in
                    ends_retried round rounds n next history b h s m delay next_schedule e f q (
                      subst left (sym r) (λ t.
                        attempts_from-EndsWell rounds m (next + 1) history' b' t a (omega arith)))
              ]
      ]

-- With enough honest rounds, a delivery under the retry policy ends: either recording an attempt
-- fails, or it gives a result whose attempts are numbered from `first_ordinal` on, are at most
-- `max_attempts` (and one at least), all schedule a retry but the last, and the last leads a
-- recorded delivery to the very state that the result does.
pub run_delivery_with_retry-EndsWell :
    (lib : Schedules) {S E : Type 0} (id : DeliveryId) (destination : DestinationId)
    (r : Resilience) (started first_ordinal : ℕ) (rounds : List (Round S E)) (s : S)
    → All (IsHonest lib id destination (started + r.max_elapsed)) rounds
    → r.max_attempts - 1 < length rounds
    → EndsWell
        (r.max_attempts - 1)
        (first_ordinal - 1)
        []
        (run_delivery_with_retry lib id destination r started first_ordinal rounds s)
unfolding run_delivery_with_retry make_retry_schedule
run_delivery_with_retry-EndsWell lib id destination r started first_ordinal rounds s a l =
    attempts_from-EndsWell lib id destination (started + r.max_elapsed) rounds (r.max_attempts - 1)
      (first_ordinal - 1) [] (capped_backoff lib r) s a l
