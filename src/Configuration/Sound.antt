-- ===== src/Configuration/Sound.antt =====
-- src/configuration.ts: what a configuration that was read can be relied on for.
use engineering_with_effect.Prelude.{ℕ, ◌≤◌, ◌<◌, ◌≡◌, refl, true, Option, some, arith, Text, codes}
use engineering_with_effect.Prelude.Maps
use engineering_with_effect.Model.Ids.{Url, is_destination_id}
use engineering_with_effect.Model.Event.{Destination}
use engineering_with_effect.Model.Outcome.{ℤ}
use engineering_with_effect.Engine.Schedule.{Resilience}
use engineering_with_effect.Configuration.{
  DeliveryFlow, DeliveryRecovery, FlowVariables, flow, decode_flow, decode_recovery,
}
use engineering_with_effect.Configuration.Variables.{
  ◌>>=◌, AppConfiguration, DeliveryConcurrency, Duration, positive, positive_finite, integer,
  duration, own_capacity, endpoint_setting, authorization_setting, read_destination,
  read_concurrency, read_flow, read_resilience, read_recovery, app_configuration,
}
use engineering_with_effect.Configuration.Readings.{
  Ensures, bind-Ensures, then-Ensures, given, positive-Ensures, positive_finite-Ensures,
  setting-Ensures, checked-Ensures,
}

-- What the engine, the admission and the recovery rely on.
pub record IsSoundFlow (f : DeliveryFlow) : Type 0 where
  pub per_destination : 0 < f.delivery_requests_per_destination_capacity
  pub requests : f.delivery_requests_per_destination_capacity ≤ f.delivery_requests_capacity
  pub events : 0 < f.delivery_events_capacity

pub record IsSoundRecovery (r : DeliveryRecovery) : Type 0 where
  pub batch : 0 < r.claim_batch_size
  pub renewal : 0 < r.claim_renew_interval
  pub lease : r.claim_renew_interval < r.claim_lease_duration
  pub poll : 0 < r.poll_interval

pub record IsSoundResilience (r : Resilience) : Type 0 where
  pub timeout : 0 < r.attempt_timeout
  pub attempts : 0 < r.max_attempts
  pub elapsed : 0 < r.max_elapsed
  pub base : 0 < r.base_delay
  pub delay : 0 < r.max_delay

pub record IsSound (c : AppConfiguration) : Type 0 where
  pub destination : is_destination_id c.destination.id ≡ true
  pub version : 0 < c.destination_configuration_version
  pub concurrency : (0 < c.concurrency.global) × (0 < c.concurrency.per_destination)
  pub flow : IsSoundFlow c.flow
  pub recovery : IsSoundRecovery c.recovery
  pub resilience : IsSoundResilience c.resilience

flow-Ensures : (v : FlowVariables) → Ensures IsSoundFlow (flow v)
unfolding flow decode_flow
flow-Ensures v =
    checked-Ensures IsSoundFlow _ _ (λ y. record {
      per_destination = ground arith;
      requests = ground arith;
      events = ground arith;
    })

decode_recovery-Ensures :
    (r : DeliveryRecovery)
    → 0 < r.claim_renew_interval
    → 0 < r.poll_interval
    → Ensures IsSoundRecovery (decode_recovery r)
unfolding decode_recovery
decode_recovery-Ensures r n p =
    checked-Ensures IsSoundRecovery _ _
      (λ y. record { batch = ground arith; renewal = n; lease = ground arith; poll = p })

primary : is_destination_id (codes "dst-primary") ≡ true
unfolding is_destination_id
primary = refl

module _ (int_of : Text → Option ℤ) (duration_of : Text → Option Duration)
    (url_of : Text → Option Url) (env : Maps.Map Text) where
  abbrev IsPositive : ℕ → Type 0
  IsPositive n = 0 < n

  integer-Ensures :
      (name : Text) (default : ℕ)
      → 0 < default
      → Ensures IsPositive (integer int_of duration_of url_of env name default)
  integer-Ensures name default p =
      setting-Ensures IsPositive env (λ t. int_of t >>= positive) name (some default) p
        (λ t. then-Ensures IsPositive (int_of t) positive positive-Ensures)

  duration-Ensures :
      (name : Text) (default : ℕ)
      → 0 < default
      → Ensures IsPositive (duration int_of duration_of url_of env name default)
  duration-Ensures name default p =
      setting-Ensures IsPositive env (λ t. duration_of t >>= positive_finite) name (some default) p
        (λ t. then-Ensures IsPositive (duration_of t) positive_finite positive_finite-Ensures)

  resilience-Ensures : Ensures IsSoundResilience (read_resilience int_of duration_of url_of env)
  unfolding read_resilience
  resilience-Ensures =
      bind-Ensures IsPositive IsSoundResilience _ _ (duration-Ensures _ 30000 (omega arith))
        (λ timeout t.
          bind-Ensures IsPositive IsSoundResilience _ _ (integer-Ensures _ 8 (omega arith))
            (λ attempts a.
              bind-Ensures IsPositive IsSoundResilience _ _
                (duration-Ensures _ 86400000 (omega arith))
                (λ elapsed e.
                  bind-Ensures IsPositive IsSoundResilience _ _
                    (duration-Ensures _ 1000 (omega arith))
                    (λ base b.
                      bind-Ensures IsPositive IsSoundResilience _ _
                        (duration-Ensures _ 900000 (omega arith))
                        (λ delay d. record {
                          timeout = omega arith;
                          attempts = a;
                          elapsed = omega arith;
                          base = omega arith;
                          delay = omega arith;
                        })))))

  recovery-Ensures : Ensures IsSoundRecovery (read_recovery int_of duration_of url_of env)
  unfolding read_recovery
  recovery-Ensures =
      bind-Ensures IsPositive IsSoundRecovery _ _ (integer-Ensures _ 64 (omega arith)) (λ batch b.
        bind-Ensures IsPositive IsSoundRecovery _ _ (duration-Ensures _ 30000 (omega arith))
          (λ lease l.
            bind-Ensures IsPositive IsSoundRecovery _ _ (duration-Ensures _ 10000 (omega arith))
              (λ renew n.
                bind-Ensures IsPositive IsSoundRecovery _ _ (duration-Ensures _ 1000 (omega arith))
                  (λ poll p. decode_recovery-Ensures _ n p))))

  read_flow-Ensures : Ensures IsSoundFlow (read_flow int_of duration_of url_of env)
  unfolding read_flow
  read_flow-Ensures =
      bind-Ensures IsPositive IsSoundFlow _ _ (integer-Ensures _ 1024 (omega arith)) (λ capacity c.
        then-Ensures IsSoundFlow (own_capacity int_of duration_of url_of env) _ (λ own.
          bind-Ensures IsPositive IsSoundFlow _ _ (integer-Ensures _ 64 (omega arith)) (λ events e.
            flow-Ensures (record {
              capacity = capacity;
              per_destination_capacity = own;
              events_capacity = events;
            }))))

  abbrev IsConcurrent : DeliveryConcurrency → Type 0
  IsConcurrent c = (0 < c.global) × (0 < c.per_destination)

  concurrency-Ensures : Ensures IsConcurrent (read_concurrency int_of duration_of url_of env)
  unfolding read_concurrency
  concurrency-Ensures =
      bind-Ensures IsPositive IsConcurrent _ _ (integer-Ensures _ 64 (omega arith)) (λ global g.
        bind-Ensures IsPositive IsConcurrent _ _ (integer-Ensures _ 4 (omega arith))
          (λ own o. (g, o)))

  abbrev IsAddressed : Destination → Type 0
  IsAddressed d = is_destination_id d.id ≡ true

  destination-Ensures : Ensures IsAddressed (read_destination int_of duration_of url_of env)
  unfolding read_destination
  destination-Ensures =
      bind-Ensures (λ i. is_destination_id i ≡ true) IsAddressed _ _
        (setting-Ensures _ env _ _ _ primary
          (λ t. checked-Ensures (λ i. is_destination_id i ≡ true) (is_destination_id t) t (λ y. y)))
        (λ id v.
          then-Ensures IsAddressed (endpoint_setting int_of duration_of url_of env) _ (λ endpoint.
            then-Ensures IsAddressed (authorization_setting int_of duration_of url_of env) _
              (λ authorization. v)))

  -- A configuration that was read from any environment, whatever its texts parse to, is sound: the
  -- destination's identifier meets its pattern; the version, both limits of concurrency, the batch and
  -- the number of attempts are positive, and so are all durations; a claim is renewed before its lease
  -- ends; and the capacities are positive, none of a destination above the shared one.
  pub app_configuration-IsSound :
      (c : AppConfiguration) → app_configuration int_of duration_of url_of env ≡ some c → IsSound c
  unfolding app_configuration
  app_configuration-IsSound c h =
      given IsSound (app_configuration int_of duration_of url_of env) c
        (bind-Ensures IsAddressed IsSound _ _ destination-Ensures (λ destination d.
          bind-Ensures IsPositive IsSound _ _ (integer-Ensures _ 1 (omega arith)) (λ version v.
            bind-Ensures IsConcurrent IsSound _ _ concurrency-Ensures (λ concurrency o.
              bind-Ensures IsSoundFlow IsSound _ _ read_flow-Ensures (λ flow f.
                bind-Ensures IsSoundRecovery IsSound _ _ recovery-Ensures (λ recovery r.
                  bind-Ensures IsSoundResilience IsSound _ _ resilience-Ensures (λ resilience q.
                    record {
                      destination = d;
                      version = v;
                      concurrency = o;
                      flow = f;
                      recovery = r;
                      resilience = q;
                    })))))))
        h
