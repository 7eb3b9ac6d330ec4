-- ===== src/Tests/ContractCases.antt =====
-- The properties of the policy at concrete deliveries.
use engineering_with_effect.Prelude.{◌≡◌, refl, not, is_some}
use engineering_with_effect.Policy.Parity.{terminal_state_iff}
use engineering_with_effect.Policy.{terminal_state_from_attempt}
use engineering_with_effect.Model.Attempt.{is_consistent, is_retry_scheduled}
use engineering_with_effect.Tests.Samples.{attempt}

terminal_state_iff_example :
    is_some (terminal_state_from_attempt attempt) ≡ not (is_retry_scheduled attempt.decision)
unfolding is_consistent
terminal_state_iff_example = terminal_state_iff attempt refl
