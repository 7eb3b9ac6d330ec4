-- ===== src/Configuration.antt =====
-- src/configuration.ts: the checks on the flow and on the recovery policy, durations in milliseconds.
-- How the variables are read is in Variables.
pub mod Renewal
pub mod Variables
pub mod Readings
pub mod Sound
use engineering_with_effect.Prelude.{
  ℕ, ◌≤◌, ◌<◌, min, ◌≡◌, ◌&&◌, Option, none, some, arith, ltb, leb, if◌then◌else◌, or_else,
}

pub record DeliveryFlow : Type 0 where
  pub delivery_requests_capacity : ℕ
  pub delivery_requests_per_destination_capacity : ℕ
  pub delivery_events_capacity : ℕ

abbrev default_per_destination_capacity : ℕ
default_per_destination_capacity = 256

-- `DeliveryFlowSchema`
unfoldable pub decode_flow : DeliveryFlow → Option DeliveryFlow
decode_flow f =
    if ltb 0 f.delivery_requests_capacity
      && ltb 0 f.delivery_requests_per_destination_capacity
      && ltb 0 f.delivery_events_capacity
      && leb f.delivery_requests_per_destination_capacity f.delivery_requests_capacity
    then some f
    else none

-- What the three variables hold, defaults put in for two of them; each is positive where it is read.
pub record FlowVariables : Type 0 where
  pub capacity : ℕ
  pub per_destination_capacity : Option ℕ
  pub events_capacity : ℕ

unfoldable pub flow : FlowVariables → Option DeliveryFlow
unfolding decode_flow
flow v = decode_flow (record {
  delivery_requests_capacity = v.capacity;
  delivery_requests_per_destination_capacity =
      or_else v.per_destination_capacity (min default_per_destination_capacity v.capacity);
  delivery_events_capacity = v.events_capacity;
})

pub record DeliveryRecovery : Type 0 where
  pub claim_batch_size : ℕ
  pub claim_lease_duration : ℕ
  pub claim_renew_interval : ℕ
  pub poll_interval : ℕ

-- `DeliveryRecoverySchema`
unfoldable pub decode_recovery : DeliveryRecovery → Option DeliveryRecovery
decode_recovery r =
    if ltb 0 r.claim_batch_size && ltb r.claim_renew_interval r.claim_lease_duration
    then some r
    else none

-- A flow that is accepted has the capacities that were given, all are positive, and no destination's
-- capacity is above the shared one.
flow_sound :
    (v : FlowVariables) (f : DeliveryFlow)
    → flow v ≡ some f
    → (f.delivery_requests_capacity ≡ v.capacity)
      × (f.delivery_events_capacity ≡ v.events_capacity)
      × (0 < f.delivery_requests_per_destination_capacity)
      × (0 < f.delivery_events_capacity)
      × (f.delivery_requests_per_destination_capacity ≤ f.delivery_requests_capacity)
unfolding flow decode_flow
flow_sound v f h = ground arith

-- Where no capacity per destination is given, every positive shared capacity and events capacity is
-- accepted: the default is lowered to the shared capacity where it is above it.
flow_default :
    (v : FlowVariables)
    → 0 < v.capacity
    → 0 < v.events_capacity
    → v.per_destination_capacity ≡ none
    → flow v
      ≡ some (record {
        delivery_requests_capacity = v.capacity;
        delivery_requests_per_destination_capacity = min 256 v.capacity;
        delivery_events_capacity = v.events_capacity;
      })
unfolding flow decode_flow
flow_default v c e n = ground arith
