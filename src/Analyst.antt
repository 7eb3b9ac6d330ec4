-- ===== src/Analyst.antt =====
-- src/incidentAnalyst.ts: the evidence of an incident, its analysis with a fallback, and the audit of
-- the reports.
pub mod Reports
use engineering_with_effect.Prelude.{
  ℕ, ◌+◌, ◌-◌, Bool, ◌&&◌, Option, none, some, List, [], ◌∷◌, ◌++◌, map, ltb, leb, if◌then◌else◌,
  length, drop, Text, codes, Result, ok, err, Action,
}
use engineering_with_effect.Prelude.Decimals.{number_text}
use engineering_with_effect.Model.Ids.{DeliveryId, DestinationId}
use engineering_with_effect.Model.State.{
  DeliveryState, DeadLetterReason, provider_protocol_failure, retry_budget_exhausted,
}
use engineering_with_effect.Model.Attempt.{AttemptOutcome, AttemptDecision, DeliveryAttemptRecord}
use engineering_with_effect.Services.{DeliveryStatus}
use engineering_with_effect.Errors.{RepositoryFailure}

-- `DeliveryState["_tag"]`
pub data StateTag : Type 0 where
  pending delivered rejected dead_lettered terminated : StateTag

abbrev pub state_tag : DeliveryState → StateTag
state_tag DeliveryState.pending = StateTag.pending
state_tag (DeliveryState.delivered s) = StateTag.delivered
state_tag (DeliveryState.rejected s) = StateTag.rejected
state_tag (DeliveryState.dead_lettered r) = StateTag.dead_lettered
state_tag DeliveryState.terminated = StateTag.terminated

abbrev pub tag_text : StateTag → Text
tag_text StateTag.pending = codes "Pending"
tag_text StateTag.delivered = codes "Delivered"
tag_text StateTag.rejected = codes "Rejected"
tag_text StateTag.dead_lettered = codes "DeadLettered"
tag_text StateTag.terminated = codes "Terminated"

abbrev reason_text : DeadLetterReason → Text
reason_text provider_protocol_failure = codes "ProviderProtocolFailure"
reason_text retry_budget_exhausted = codes "RetryBudgetExhausted"

unfoldable state_detail : DeliveryState → Option Text
unfolding number_text
state_detail DeliveryState.pending = none
state_detail (DeliveryState.delivered s) = some (codes "status:" ++ number_text s)
state_detail (DeliveryState.rejected s) = some (codes "status:" ++ number_text s)
state_detail (DeliveryState.dead_lettered r) = some (codes "reason:" ++ reason_text r)
state_detail DeliveryState.terminated = some (codes "reason:OperatorTerminated")

pub record AttemptEvidence : Type 0 where
  pub ordinal : ℕ
  pub outcome : AttemptOutcome
  pub decision : AttemptDecision
  pub status : Option ℕ
  pub retry_delay_millis : Option ℕ

pub record IncidentEvidence : Type 0 where
  pub delivery_id : DeliveryId
  pub destination_id : DestinationId
  pub state : StateTag
  pub state_detail : Option Text
  pub recorded_attempt_count : ℕ
  pub recent_attempts : List AttemptEvidence

-- `xs.slice(-n)` for a positive `n`
abbrev pub last_of : {A : Type 0} → ℕ → List A → List A
last_of n xs = drop (length xs - n) xs

abbrev attempt_evidence : DeliveryAttemptRecord → AttemptEvidence
attempt_evidence a = record {
  ordinal = a.ordinal;
  outcome = a.outcome;
  decision = a.decision;
  status = a.status;
  retry_delay_millis = a.retry_delay_millis;
}

unfoldable pub make_evidence : DeliveryStatus → IncidentEvidence
unfolding state_detail
make_evidence s = record {
  delivery_id = s.delivery.id;
  destination_id = s.delivery.destination_id;
  state = state_tag s.delivery.state;
  state_detail = state_detail s.delivery.state;
  recorded_attempt_count = length s.attempts;
  recent_attempts = map attempt_evidence (last_of 20 s.attempts);
}

pub record IncidentSuggestion : Type 0 where
  pub summary : Text
  pub first_check : Text
  pub second_check : Text

-- `BoundedAnalysisText`. A text of a suggestion stands for its UTF-16 units, which its length counts;
-- those of a fallback are ASCII, and have a unit for each code point.
abbrev pub is_bounded : Text → Bool
is_bounded t = leb 1 (length t) && leb (length t) 500

unfoldable pub summary_text : Text → Text → Text → Text
summary_text id state count =
    codes "Automated analysis is unavailable. Delivery "
    ++ (id
        ++ (codes " is "
            ++ (state ++ (codes " with " ++ (count ++ codes " recorded attempt(s).")))))

unfoldable pub fallback_summary : IncidentEvidence → Text
unfolding summary_text number_text
fallback_summary e =
    summary_text e.delivery_id (tag_text e.state) (number_text e.recorded_attempt_count)

abbrev pub suggestion_of : Text → IncidentSuggestion
suggestion_of summary = record {
  summary = summary;
  first_check = codes "Inspect the ordered attempt history and its last classified outcome.";
  second_check = codes "Follow the recovery runbook before changing durable delivery state.";
}

-- The schema `IncidentSuggestion`.
abbrev pub is_valid_suggestion : IncidentSuggestion → Bool
is_valid_suggestion s =
    is_bounded s.summary && is_bounded s.first_check && is_bounded s.second_check

-- `none`: the schema's `make` throws.
unfoldable pub fallback_suggestion : IncidentEvidence → Option IncidentSuggestion
unfolding fallback_summary
fallback_suggestion e =
    let s = suggestion_of (fallback_summary e) in if is_valid_suggestion s then some s else none

pub data Source : Type 0 where
  model deterministic_fallback : Source

pub record IncidentAnalysisReport : Type 0 where
  pub delivery_id : DeliveryId
  pub generated_at_millis : ℕ
  pub observed_state : StateTag
  pub observed_attempt_count : ℕ
  pub source : Source
  pub model_failure : Option Text
  pub suggestion : IncidentSuggestion

abbrev pub audit_capacity : ℕ
audit_capacity = 100

unfoldable pub append :
    IncidentAnalysisReport → List IncidentAnalysisReport → List IncidentAnalysisReport
append report current =
    (if ltb (length current) audit_capacity
      then current
      else drop (length current - audit_capacity + 1) current)
    ++ report ∷ []

pub data AnalysisFailure : Type 0 where
  not_found : DeliveryId → AnalysisFailure
  repository_failed : RepositoryFailure → AnalysisFailure
  -- A schema's `make` has thrown.
  defect : AnalysisFailure

abbrev pub report_of :
    IncidentEvidence → ℕ → Source → Option Text → IncidentSuggestion → IncidentAnalysisReport
report_of e now source failure suggestion = record {
  delivery_id = e.delivery_id;
  generated_at_millis = now;
  observed_state = e.state;
  observed_attempt_count = e.recorded_attempt_count;
  source = source;
  model_failure = failure;
  suggestion = suggestion;
}

-- `IncidentAnalysisReport.make`, which throws (`none`) on a suggestion out of bounds. The other fields
-- meet their schemas by their types.
unfoldable pub make_report :
    IncidentEvidence → ℕ → Source → Option Text → IncidentSuggestion → Option IncidentAnalysisReport
make_report e now source failure suggestion =
    if is_valid_suggestion suggestion
    then some (report_of e now source failure suggestion)
    else none

unfoldable pub generated :
    IncidentEvidence → ℕ → Result Text IncidentSuggestion → Option IncidentAnalysisReport
unfolding fallback_suggestion make_report
generated e now (ok suggestion) = make_report e now model none suggestion
generated e now (err reason) = elim (fallback_suggestion e) [
  | none ↦ none
  | some s ↦ make_report e now deterministic_fallback (some reason) s
]

-- `analyze`: what the repository answers, then what the model makes of the evidence.
unfoldable pub analyze :
    DeliveryId
    → Result RepositoryFailure (Option DeliveryStatus)
    → (IncidentEvidence → Result Text IncidentSuggestion)
    → ℕ
    → Action (List IncidentAnalysisReport) AnalysisFailure IncidentAnalysisReport
unfolding make_evidence generated append
analyze id (err e) ask now audit = (err (repository_failed e), audit)
analyze id (ok none) ask now audit = (err (not_found id), audit)
analyze id (ok (some status)) ask now audit =
    let e = make_evidence status in
    elim (generated e now (ask e)) [ none ↦ (err defect, audit) | some r ↦ (ok r, append r audit) ]
