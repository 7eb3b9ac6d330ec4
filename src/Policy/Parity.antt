-- ===== src/Policy/Parity.antt =====
-- The two truth tables of src/deliveryPolicy.ts agree on every attempt that the engine decides.
use engineering_with_effect.Prelude.{◌≡◌, true, not, arith, is_some}
use engineering_with_effect.Model.Attempt.{DeliveryAttemptRecord, is_consistent, is_retry_scheduled}
use engineering_with_effect.Policy.{terminal_state_from_attempt}

-- A recorded attempt that meets the schema's filter has a terminal state exactly when it does not
-- schedule a retry.
pub terminal_state_iff :
    (a : DeliveryAttemptRecord)
    → is_consistent a ≡ true
    → is_some (terminal_state_from_attempt a) ≡ not (is_retry_scheduled a.decision)
unfolding is_consistent terminal_state_from_attempt
terminal_state_iff a h = ground arith
