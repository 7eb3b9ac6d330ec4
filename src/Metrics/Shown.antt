-- ===== src/Metrics/Shown.antt =====
-- What every series of src/deliveryMetrics.ts shows after any recordings.
use engineering_with_effect.Prelude.{
  ℕ, ◌+◌, ◌≡◌, refl, ◌∙◌, inl, inr, true, false, List, arith, Bool-cases,
}
use engineering_with_effect.Metrics.{DeliverySaturationSnapshot, Series, Amount, Meters, initialize}
use engineering_with_effect.Metrics.Recordings.{Recording, is_current, run, picks, tally}
use engineering_with_effect.Metrics.Counts.{starts, run-initialize}
use engineering_with_effect.Metrics.Gauges.{latest, run-latest}

module _ (host : Meters) where
  open host use {Registry, update, reading}

  abbrev pub shown : DeliverySaturationSnapshot → List Recording → Registry → Series → ℕ
  shown snapshot xs r Series.active_attempts =
      latest Series.active_attempts xs snapshot.active_attempts
  shown snapshot xs r Series.admitted_deliveries =
      latest Series.admitted_deliveries xs snapshot.admitted_deliveries
  shown snapshot xs r Series.request_queue_depth =
      latest Series.request_queue_depth xs snapshot.request_queue_depth
  shown snapshot xs r t = starts host snapshot r t + tally (picks t) xs

  module _ (snapshot : DeliverySaturationSnapshot) (r : Registry) where
    -- The registry before the last three updates of `initialize`.
    with_limits : Registry
    with_limits =
        let r1 = update Series.admission_rejections (Amount.whole 0) r in
        let r2 = update Series.admission_capacity (Amount.whole snapshot.admission_capacity) r1 in
        let r3 =
          update Series.active_attempt_limit (Amount.whole snapshot.active_attempt_limit) r2 in
        update Series.request_queue_capacity (Amount.whole snapshot.request_queue_capacity) r3

    initialize-current :
        (t : Series)
        → is_current t ≡ true
        → (xs : List Recording)
        → latest t xs (reading (initialize host snapshot r) t) ≡ shown snapshot xs r t
    unfolding initialize with_limits
    initialize-current t current xs =
        let r5 =
          update Series.admitted_deliveries (Amount.whole snapshot.admitted_deliveries)
            with_limits in
        let r6 = update Series.active_attempts (Amount.whole snapshot.active_attempts) r5 in
        grind (
          arith,
          host.gauged Series.admitted_deliveries snapshot.admitted_deliveries with_limits t refl,
          host.gauged Series.active_attempts snapshot.active_attempts r5 t refl,
          host.gauged Series.request_queue_depth snapshot.request_queue_depth r6 t refl,
        )

  shown-apart :
      (snapshot : DeliverySaturationSnapshot) (xs : List Recording) (r : Registry) (t : Series)
      → is_current t ≡ false
      → starts host snapshot r t + tally (picks t) xs ≡ shown snapshot xs r t
  shown-apart snapshot xs r t apart = ground arith

  -- After the metrics are initialized and any recordings are made, each of the three current gauges
  -- shows the value it was set to last; a limit shows the snapshot's; and a counter or a histogram
  -- shows what it did before and one more for each recording of its own: an attempt counts under
  -- its decision and outcome, its duration under its outcome, and a retry's delay exactly where the
  -- attempt schedules a retry.
  pub run-shown :
      (snapshot : DeliverySaturationSnapshot) (xs : List Recording) (r : Registry) (t : Series)
      → reading (run host xs (initialize host snapshot r)) t ≡ shown snapshot xs r t
  run-shown snapshot xs r t = elim (Bool-cases (is_current t)) [
    | inl current ↦
        run-latest host t current xs (initialize host snapshot r)
        ∙ initialize-current snapshot r t current xs
    | inr apart ↦ run-initialize host snapshot xs r t apart ∙ shown-apart snapshot xs r t apart
  ]
