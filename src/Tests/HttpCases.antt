-- ===== src/Tests/HttpCases.antt =====
-- The properties of the requests at concrete ones.
use engineering_with_effect.Prelude.{
  ℕ, ◌+◌, ◌≡◌, refl, Bool, true, ◌&&◌, Option, none, some, List, [], arith, ◌==◌, if◌then◌else◌,
  length, Text, codes, same_text,
}
use engineering_with_effect.Model.Outcome.{trim}
use engineering_with_effect.Model.State.{DeliveryState}
use engineering_with_effect.Services.{replay, decision_fields}
use engineering_with_effect.Contract.{revive, settle}
use engineering_with_effect.Contract.Fencing.{run}
use engineering_with_effect.Memory
use engineering_with_effect.Memory.{empty_store}
use engineering_with_effect.Memory.Intake
use engineering_with_effect.Memory.Calls.{perform}
use engineering_with_effect.Memory.View.{view}
use engineering_with_effect.Memory.History.{memory}
use engineering_with_effect.EventIntake.{acceptance}
use engineering_with_effect.Http.{
  Problem, response, failed, HttpEffect, authorize, request_contract, contract_exit, is_json,
}
use engineering_with_effect.Http.Guards.{IsTurnedAway, guarded}
use engineering_with_effect.Http.Handlers.{
  retry_dead_letter, repair_dead_letter, terminate_dead_letter,
}
use engineering_with_effect.Http.Operators.{Obeys, ruling, granted, repaired, operator_answers}
use engineering_with_effect.Http.Events.{post_event, screened, post_event-replay}
use engineering_with_effect.Operations.{configured_route}
use engineering_with_effect.Tests.Samples.{delivery_id, intake}
use engineering_with_effect.Tests.MemoryCases.{accepted_store, accepted_store-IsValid}
use engineering_with_effect.Tests.WorkerCases.{job}
use engineering_with_effect.Tests.IntakeCases.{
  submission, decode, digest, ignore, settings, decision, intake_accepted, digested,
}

-- A comparison that throws on different lengths, and code points as bytes.
timing_safe_equal : List ℕ → List ℕ → Option Bool
timing_safe_equal a b = if length a == length b then some (same_text a b) else none

timing_safe_equal-same_text :
    (a b : List ℕ) → length a ≡ length b → timing_safe_equal a b ≡ some (same_text a b)
unfolding timing_safe_equal
timing_safe_equal-same_text a b h = ground arith

abbrev bytes : Text → List ℕ
bytes t = t

abbrev handler : HttpEffect ℕ ℕ
handler s = (response 202 7, s + 1)

abbrev json : Option Text
json = some (codes " Application/JSON ; charset=utf-8")

json-is_json : is_json json ≡ true
unfolding is_json same_text trim
json-is_json = refl

guarded_example :
    let outer =
      authorize timing_safe_equal bytes
        (codes "token")
        (codes "token")
        (request_contract json handler)
        0 in
    let within =
      request_contract json
        (authorize timing_safe_equal bytes (codes "token") (codes "token") handler)
        0 in
    if same_text (codes "token") (codes "token") && is_json json
    then (outer ≡ (contract_exit (handler 0).0, (handler 0).1))
      × (within ≡ (contract_exit (handler 0).0, (handler 0).1))
    else (IsTurnedAway 0 outer × IsTurnedAway 0 within)
guarded_example =
    guarded timing_safe_equal bytes timing_safe_equal-same_text (codes "token") (codes "token") json
      handler 0

operator_answers_example :
    Obeys accepted_store delivery_id
      (retry_dead_letter Memory.find_status perform job.destination 2 1700 delivery_id
        accepted_store)
      (ruling (λ c. granted (revive 1700 c)) (view accepted_store delivery_id))
    × Obeys accepted_store delivery_id
        (repair_dead_letter Memory.find_status perform job.destination 2 1700 delivery_id
          accepted_store)
        (ruling
          (repaired 1700 (configured_route Memory.find_status perform job.destination 2))
          (view accepted_store delivery_id))
    × Obeys accepted_store delivery_id
        (terminate_dead_letter Memory.find_status perform job.destination 2 delivery_id
          accepted_store)
        (ruling
          (λ c. granted (settle c DeliveryState.terminated))
          (view accepted_store delivery_id))
operator_answers_example =
    operator_answers job.destination 2 1700 delivery_id accepted_store accepted_store-IsValid

post_event-replay_example :
    let t = run memory [] (Intake.accept 1000 intake empty_store).1 in
    post_event timing_safe_equal bytes timing_safe_equal-same_text decode digest ignore settings
      (codes "token")
      true
      (codes "token")
      json
      (codes "0")
      (codes "1")
      3000
      intake.ingestion_key
      submission
      t
    ≡ (
      screened (same_text (codes "token") (codes "token")) (is_json json) true (
          if same_text intake.request_fingerprint (codes "re")
          then response 202 (acceptance (replay (decision_fields decision)))
          else failed Problem.idempotency_conflict),
      t,
    )
post_event-replay_example =
    post_event-replay timing_safe_equal bytes timing_safe_equal-same_text decode digest ignore
      settings (codes "token") [] 1000 3000 intake empty_store decision (codes "0") (codes "1")
      submission submission (codes "re") true (codes "token") json intake_accepted refl digested
