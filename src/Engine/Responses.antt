-- ===== src/Engine/Responses.antt =====
-- From a response to the state of its delivery: src/model.ts, src/deliveryEngine.ts and
-- src/deliveryPolicy.ts together.
use engineering_with_effect.Prelude.{
  ℕ, ◌≡◌, Bool, true, false, ◌&&◌, ◌||◌, ltb, leb, ◌==◌, if◌then◌else◌,
}
use engineering_with_effect.Model.State.{
  DeliveryState, provider_protocol_failure, retry_budget_exhausted,
}
use engineering_with_effect.Policy.{delivery_state_from_result}
use engineering_with_effect.Engine.{Ending, finished, failed, running}

-- The statuses that are worth another attempt.
abbrev pub is_transient : ℕ → Bool
is_transient s = s == 408 || s == 425 || s == 429 || (leb 500 s && ltb s 600)

-- The state that a status which is not transient settles a delivery in.
abbrev pub settled_state : ℕ → DeliveryState
settled_state s =
    if leb 200 s && ltb s 300
    then DeliveryState.delivered s
    else if leb 300 s && ltb s 500
    then DeliveryState.rejected s
    else DeliveryState.dead_lettered provider_protocol_failure

-- The end of one round, by the status that was answered and whether the schedule goes on.
abbrev pub Verdict : {S E : Type 0} → ℕ → Bool → Ending S E → Type 0
Verdict status goes_on (finished result s) =
    ((is_transient status && goes_on) ≡ false)
    × (delivery_state_from_result result ≡ (
        if is_transient status
        then DeliveryState.dead_lettered retry_budget_exhausted
        else settled_state status))
Verdict status goes_on (running history s) = (is_transient status && goes_on) ≡ true
Verdict status goes_on (failed e s) = ⊥
