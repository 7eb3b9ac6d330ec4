-- ===== src/Tests/ServiceCases.antt =====
-- The properties of admission, operations, analysis, configuration and responses at concrete inputs.
use engineering_with_effect.Prelude.{
  ℕ, ◌≤◌, ◌≡◌, refl, none, some, List, [], ◌∷◌, arith, ltb, or_else, is_some, length, Text, codes,
  same_text, Result, ok, err,
}
use engineering_with_effect.Prelude.Maps
use engineering_with_effect.Model.State.{DeliveryState, retry_budget_exhausted}
use engineering_with_effect.Contract.{Cell}
use engineering_with_effect.Contract.Calls.{renews, transition}
use engineering_with_effect.Services.{DeliveryStatus}
use engineering_with_effect.Admission.Bounds.{count_of, without}
use engineering_with_effect.Admission.Concurrency
use engineering_with_effect.Admission.Concurrency.{Steps, holds, starts, done, later}
use engineering_with_effect.Admission.Concurrency.Limits.{attempts_bounded, start_attempt_iff}
use engineering_with_effect.Admission.Histories.{
  Event, arrives, leaves, start, history, history_bounds,
}
use engineering_with_effect.Analyst.{
  IncidentEvidence, IncidentSuggestion, IncidentAnalysisReport, suggestion_of, last_of,
  audit_capacity, model, StateTag,
}
use engineering_with_effect.Analyst.Reports.{append_all, append_all_audit}
use engineering_with_effect.Configuration.{DeliveryRecovery, decode_recovery}
use engineering_with_effect.Configuration.Renewal.{renewed_again}
use engineering_with_effect.Tests.Samples.{delivery_id, destination, claim, attempt, cell, delivery}
use engineering_with_effect.Tests.Permits.{take_permit, permits, capacities}

abbrev events : List Event
events = arrives destination ∷ arrives destination ∷ leaves destination ∷ arrives destination ∷ []

history_bounds_example :
    let w = history permits capacities events (start permits capacities) in
    (length w.running ≤ 2)
    × (count_of destination w.running ≤ 1)
    × (w.gate.counts.total ≡ length w.running)
    × (or_else (Maps.get w.gate.counts.by_destination destination) 0
        ≡ count_of destination w.running)
history_bounds_example = history_bounds permits capacities events destination

abbrev status : DeliveryStatus
status = record {
  delivery = record delivery { state = DeliveryState.dead_lettered retry_budget_exhausted };
  attempts = attempt ∷ [];
}

abbrev unavailable : IncidentEvidence → Result Text IncidentSuggestion
unavailable e = err (codes "InternalProviderError")

abbrev sample_report : IncidentAnalysisReport
sample_report = record {
  delivery_id = delivery_id;
  generated_at_millis = 2000;
  observed_state = StateTag.pending;
  observed_attempt_count = 0;
  source = model;
  model_failure = none;
  suggestion = suggestion_of (codes "All is well.");
}

append_all_audit_example :
    append_all (sample_report ∷ sample_report ∷ []) []
    ≡ last_of audit_capacity (sample_report ∷ sample_report ∷ [])
append_all_audit_example = append_all_audit (sample_report ∷ sample_report ∷ [])

abbrev recovery : DeliveryRecovery
recovery = record {
  claim_batch_size = 64;
  claim_lease_duration = 30000;
  claim_renew_interval = 10000;
  poll_interval = 1000;
}

accepted_recovery : decode_recovery recovery ≡ some recovery
unfolding decode_recovery
accepted_recovery = refl

abbrev renewed : Cell
renewed = record cell { claim = some (record claim { lease_expires_at_millis = 31200 }) }

renews_claim : transition (renews 1200 delivery_id claim 30000) (some cell) ≡ ok renewed
unfolding transition same_text
renews_claim = refl

renewed_again_example :
    transition
      (renews 11200 delivery_id (record claim { lease_expires_at_millis = 31200 }) 30000)
      (some renewed)
    ≡ ok (record renewed { claim = some (record claim { lease_expires_at_millis = 41200 }) })
renewed_again_example =
    renewed_again recovery recovery 1200 delivery_id claim cell renewed accepted_recovery
      renews_claim

abbrev one_holding : Concurrency.World permits capacities
one_holding = record {
  pool = record (Concurrency.make_pool permits capacities) {
    destination_capacities = (destination, 0) ∷ [];
  };
  holding = destination ∷ [];
  running = [];
}

abbrev one_running : Concurrency.World permits capacities
one_running = record {
  pool = record {
    global_capacity = 1;
    destination_capacities = (destination, 0) ∷ [];
    active = record { total = 1; by_destination = (destination, 1) ∷ [] };
  };
  holding = [];
  running = destination ∷ [];
}

attempt_runs : Steps permits capacities (Concurrency.idle permits capacities) one_running
unfolding Concurrency.take_destination Concurrency.start_attempt Concurrency.make_pool take_permit
    without count_of same_text Maps.get Maps.set
attempt_runs =
    later
      (later {v = Concurrency.idle permits capacities} done
        (holds destination one_holding.pool refl))
      (starts destination one_running.pool (omega arith) refl)

attempts_bounded_example :
    (1 ≤ 2)
    × (count_of destination (destination ∷ []) ≤ 1)
    × (◌≡◌ {A = ℕ} 1 1)
    × (or_else (Maps.get one_running.pool.active.by_destination destination) 0
        ≡ count_of destination (destination ∷ []))
attempts_bounded_example = attempts_bounded permits capacities one_running destination attempt_runs

start_attempt_iff_example :
    is_some (Concurrency.start_attempt permits capacities destination one_running.pool) ≡ ltb 1 2
start_attempt_iff_example =
    start_attempt_iff permits capacities one_running destination attempt_runs
