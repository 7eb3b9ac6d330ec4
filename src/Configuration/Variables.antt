-- ===== src/Configuration/Variables.antt =====
-- src/configuration.ts: `AppConfigurationLive`, from the variables of the environment. Parsing one text
-- as an integer, a duration in whole milliseconds or a URL is a parameter.
use engineering_with_effect.Prelude.{ℕ, ◌*◌, Option, none, some, ltb, if◌then◌else◌, Text, codes}
use engineering_with_effect.Prelude.Maps
use engineering_with_effect.Model.Ids.{Url, is_destination_id}
use engineering_with_effect.Model.Event.{Destination}
use engineering_with_effect.Model.Outcome.{ℤ, pos, negsuc}
use engineering_with_effect.Engine.Schedule.{Resilience, nanos_per_milli}
use engineering_with_effect.Configuration.{DeliveryFlow, DeliveryRecovery, flow, decode_recovery}

pub record DeliveryConcurrency : Type 0 where
  pub global : ℕ
  pub per_destination : ℕ

pub record AppConfiguration : Type 0 where
  pub destination : Destination
  pub destination_configuration_version : ℕ
  pub concurrency : DeliveryConcurrency
  pub flow : DeliveryFlow
  pub recovery : DeliveryRecovery
  pub resilience : Resilience

pub data Duration : Type 0 where
  infinite : Duration
  millis : ℤ → Duration

-- `PositiveInteger`
abbrev pub positive : ℤ → Option ℕ
positive (pos n) = if ltb 0 n then some n else none
positive (negsuc n) = none

-- `PositiveFiniteDuration`
abbrev pub positive_finite : Duration → Option ℕ
positive_finite infinite = none
positive_finite (millis t) = positive t

infixl 20 ◌>>=◌
abbrev pub ◌>>=◌ : {A B : Type 0} → Option A → (A → Option B) → Option B
◌>>=◌ none f = none
◌>>=◌ (some a) f = f a

-- A variable that is missing has the default, if there is one; one that does not decode is an error.
unfoldable pub setting :
    {A : Type 0} → Maps.Map Text → (Text → Option A) → Text → Option A → Option A
setting env decode name default = elim (Maps.get env name) [
  | none ↦ default
  | some text ↦ decode text
]

module _ (int_of : Text → Option ℤ) (duration_of : Text → Option Duration)
    (url_of : Text → Option Url) (env : Maps.Map Text) where
  abbrev pub integer : Text → ℕ → Option ℕ
  integer name default = setting env (λ t. int_of t >>= positive) name (some default)

  abbrev pub duration : Text → ℕ → Option ℕ
  duration name default = setting env (λ t. duration_of t >>= positive_finite) name (some default)

  abbrev pub endpoint_setting : Option Url
  endpoint_setting = setting env url_of (codes "RELAY_DESTINATION_URL") none

  abbrev pub authorization_setting : Option Text
  authorization_setting = setting env (λ t. some t) (codes "RELAY_DESTINATION_AUTHORIZATION") none

  unfoldable pub read_destination : Option Destination
  unfolding setting
  read_destination = do
    id ←
        setting env (λ t. if is_destination_id t then some t else none)
          (codes "RELAY_DESTINATION_ID") (some (codes "dst-primary"))
    endpoint ← endpoint_setting
    authorization ← authorization_setting
    some (record { id = id; endpoint = endpoint; authorization = authorization })

  unfoldable pub read_concurrency : Option DeliveryConcurrency
  unfolding setting
  read_concurrency = do
    global ← integer (codes "RELAY_GLOBAL_CONCURRENCY") 64
    per_destination ← integer (codes "RELAY_DESTINATION_CONCURRENCY") 4
    some (record { global = global; per_destination = per_destination })

  -- `Config.option` makes a missing variable `None`.
  abbrev pub own_capacity : Option (Option ℕ)
  own_capacity =
      setting env (λ t. int_of t >>= positive >>= (λ n. some (some n)))
        (codes "RELAY_DELIVERY_REQUESTS_PER_DESTINATION_CAPACITY") (some none)

  unfoldable pub read_flow : Option DeliveryFlow
  unfolding setting flow
  read_flow = do
    capacity ← integer (codes "RELAY_DELIVERY_REQUESTS_CAPACITY") 1024
    own ← own_capacity
    events ← integer (codes "RELAY_DELIVERY_EVENTS_CAPACITY") 64
    flow (record { capacity = capacity; per_destination_capacity = own; events_capacity = events })

  unfoldable pub read_resilience : Option Resilience
  unfolding setting
  read_resilience = do
    timeout ← duration (codes "RELAY_ATTEMPT_TIMEOUT") 30000
    attempts ← integer (codes "RELAY_RETRY_MAX_ATTEMPTS") 8
    elapsed ← duration (codes "RELAY_RETRY_MAX_ELAPSED") 86400000
    base ← duration (codes "RELAY_RETRY_BASE_DELAY") 1000
    delay ← duration (codes "RELAY_RETRY_MAX_DELAY") 900000
    some (record {
      attempt_timeout = timeout * nanos_per_milli;
      max_attempts = attempts;
      max_elapsed = elapsed * nanos_per_milli;
      base_delay = base * nanos_per_milli;
      max_delay = delay * nanos_per_milli;
    })

  unfoldable pub read_recovery : Option DeliveryRecovery
  unfolding setting decode_recovery
  read_recovery = do
    batch ← integer (codes "RELAY_RECOVERY_CLAIM_BATCH_SIZE") 64
    lease ← duration (codes "RELAY_RECOVERY_CLAIM_LEASE") 30000
    renew ← duration (codes "RELAY_RECOVERY_CLAIM_RENEW_INTERVAL") 10000
    poll ← duration (codes "RELAY_RECOVERY_POLL_INTERVAL") 1000
    decode_recovery (record {
      claim_batch_size = batch;
      claim_lease_duration = lease;
      claim_renew_interval = renew;
      poll_interval = poll;
    })

  -- `AppConfigurationLive`
  unfoldable pub app_configuration : Option AppConfiguration
  unfolding read_destination read_concurrency read_flow read_recovery read_resilience setting
  app_configuration = do
    destination ← read_destination
    version ← integer (codes "RELAY_DESTINATION_CONFIGURATION_VERSION") 1
    concurrency ← read_concurrency
    flow ← read_flow
    recovery ← read_recovery
    resilience ← read_resilience
    some (record {
      destination = destination;
      destination_configuration_version = version;
      concurrency = concurrency;
      flow = flow;
      recovery = recovery;
      resilience = resilience;
    })
