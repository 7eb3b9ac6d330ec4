-- ===== src/Engine/Recorded.antt =====
-- What the recordings of `runDeliveryWithRetry` in src/deliveryEngine.ts make of the state.
use engineering_with_effect.Prelude.{
  ℕ, ◌+◌, ◌-◌, ◌/◌, ◌≡◌, refl, sym, subst, inl, inr, List, [], ◌∷◌, ◌++◌, Bool-cases, Option-cases,
  All, ok, err, Result-cases,
}
use engineering_with_effect.Model.Ids.{DeliveryId, DestinationId}
use engineering_with_effect.Model.Attempt.{DeliveryAttempt, DeliveryAttemptDecision}
use engineering_with_effect.Model.Results.{DeliveryResult, result_fields}
use engineering_with_effect.Engine.Schedule.{
  Schedules, Resilience, make_retry_schedule, nanos_per_milli,
}
use engineering_with_effect.Engine.Endings.{terminal_result-attempts}
use engineering_with_effect.Engine.{
  with_decision, is_retryable, terminal_result, fields_of, then_record, Round, Ending, finished,
  failed, running, attempts_from, run_delivery_with_retry,
}

-- What holds of the attempts that were recorded and of the state, and what of a state in which a
-- recording has failed.
abbrev pub Kept {κ} :
    {S E : Type 0} → (List DeliveryAttempt → S → Type κ) → (S → Type κ) → Ending S E → Type κ
Kept P F (finished r s) = P (result_fields r).attempts s
Kept P F (failed e s) = F s
Kept P F (running h s) = P h s

module _ {κ} {S E : Type 0} (P : List DeliveryAttempt → S → Type κ) (F : S → Type κ) where
  -- A recording that succeeds adds the attempt, and one that fails leads to a failed state.
  pub record Records (round : Round S E) : Type κ where
    pub adds :
        (h : List DeliveryAttempt) (a : DeliveryAttempt) (s : S)
        → P h s
        → (round.on_attempt a s).0 ≡ ok tt
        → P (h ++ a ∷ []) (round.on_attempt a s).1
    pub fails :
        (h : List DeliveryAttempt) (a : DeliveryAttempt) (s : S) (e : E)
        → P h s
        → (round.on_attempt a s).0 ≡ err e
        → F (round.on_attempt a s).1

  module _ (lib : Schedules) (id : DeliveryId) (destination : DestinationId) (deadline : ℕ) where
    open lib use {Schedule, step}

    then_record-Kept :
        (round : Round S E) (h : List DeliveryAttempt) (a : DeliveryAttempt) (next : S → Ending S E)
        (s : S)
        → Records round
        → P h s
        → ((t : S) → P (h ++ a ∷ []) t → Kept P F (next t))
        → Kept P F (then_record lib id destination deadline round a next s)
    then_record-Kept round h a next s k p w =
        let t = (round.on_attempt a s).1 in
        elim (Result-cases (round.on_attempt a s).0) [
          | inl (u, e) ↦
              let q : then_record lib id destination deadline round a next s ≡ next t =
                rw (e, then_record) refl in
              subst (Kept P F) (sym q) (w t (k.adds h a s p e))
          | inr (f, e) ↦
              let q : then_record lib id destination deadline round a next s ≡ failed f t =
                rw (e, then_record) refl in
              subst (Kept P F) (sym q) (k.fails h a s f p e)
        ]

    pub attempts_from-Kept :
        (rounds : List (Round S E)) (next : ℕ) (h : List DeliveryAttempt) (schedule : Schedule)
        (s : S)
        → All Records rounds
        → P h s
        → Kept P F (attempts_from lib id destination deadline rounds next h schedule s)
    unfolding attempts_from
    attempts_from-Kept [] next h schedule s k p = p
    attempts_from-Kept (round ∷ rounds) next h schedule s (k, ks) p =
        let attempt =
          round.execute_attempt (next + 1) (deadline - round.attempt_started_at_nanos) in
        elim (Bool-cases (is_retryable attempt.outcome)) [
          | inr e ↦
              let done = with_decision attempt DeliveryAttemptDecision.terminal in
              rw (e, attempts_from)
                (then_record-Kept round h done
                  (finished (terminal_result id destination attempt.outcome (h ++ done ∷ []))) s k p
                  (λ t q.
                    subst (λ x. P x t)
                      (sym
                        (terminal_result-attempts id destination attempt.outcome (h ++ done ∷ [])))
                      q))
          | inl e ↦
              elim (Option-cases
                (step schedule (record { input = attempt; reading = round.reading }))) [
                  | inl f ↦
                      let done = with_decision attempt DeliveryAttemptDecision.exhausted in
                      rw (e, f, attempts_from)
                        (then_record-Kept round h done
                          (finished (
                            DeliveryResult.exhausted (fields_of id destination (h ++ done ∷ []))
                              attempt.outcome))
                          s k p (λ t q. q))
                  | inr ((delay, later), f) ↦
                      let again =
                        with_decision attempt
                          (DeliveryAttemptDecision.retry_scheduled (delay / nanos_per_milli)) in
                      rw (e, f, attempts_from)
                        (then_record-Kept round h again
                          (attempts_from lib id destination deadline rounds (next + 1)
                            (h ++ again ∷ []) later)
                          s k p
                          (λ t q.
                            attempts_from-Kept rounds (next + 1) (h ++ again ∷ []) later t ks q))
                ]
        ]

  pub run_delivery_with_retry-Kept :
      (lib : Schedules) (id : DeliveryId) (destination : DestinationId) (r : Resilience)
      (started first_ordinal : ℕ) (rounds : List (Round S E)) (s : S)
      → All Records rounds
      → P [] s
      → Kept P F (run_delivery_with_retry lib id destination r started first_ordinal rounds s)
  unfolding run_delivery_with_retry
  run_delivery_with_retry-Kept lib id destination r started first_ordinal rounds s k p =
      attempts_from-Kept lib id destination (started + r.max_elapsed) rounds (first_ordinal - 1) []
        (make_retry_schedule lib r started) s k p
