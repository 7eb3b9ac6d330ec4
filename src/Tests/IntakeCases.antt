-- ===== src/Tests/IntakeCases.antt =====
-- The properties of the event intake at concrete submissions.
use engineering_with_effect.Prelude.{
  ℕ, ◌≡◌, refl, true, Option, some, [], arith, if◌then◌else◌, take, Text, codes, same_text, Result,
  ok, err, Action,
}
use engineering_with_effect.Model.Ids.{is_invoice_id}
use engineering_with_effect.Model.Event.{invoice_created, EventSubmission}
use engineering_with_effect.Errors.{RepositoryFailure, ingestion_conflict}
use engineering_with_effect.Services.{ClaimedDelivery, IntakeDecision, replay, decision_fields}
use engineering_with_effect.Contract.Fencing.{run}
use engineering_with_effect.Memory.{Store, empty_store}
use engineering_with_effect.Memory.Intake
use engineering_with_effect.Prelude.Maps
use engineering_with_effect.Memory.History.{memory}
use engineering_with_effect.EventIntake.{store_failed, normalized, Settings, acceptance, accept}
use engineering_with_effect.EventIntake.Replays.{normalized_injective, accept_replays}
use engineering_with_effect.Tests.Samples.{worker, destination, claim, cell, intake}

abbrev pub submission : EventSubmission
submission = record { topic = invoice_created; invoice_id = codes "inv-1"; amount_cents = 1200 }

valid_invoice_id : is_invoice_id (codes "inv-1") ≡ true
unfolding is_invoice_id
valid_invoice_id = refl

normalized_lines : normalized submission ≡ codes "relay-intake-v1\ninvoice.created\ninv-1\n1200"
unfolding normalized
normalized_lines = refl

normalized_injective_example : (codes "inv-1" ≡ codes "inv-1") × (◌≡◌ {A = ℕ} 1200 1200)
normalized_injective_example =
    normalized_injective submission submission valid_invoice_id valid_invoice_id (omega arith)
      (omega arith) refl

abbrev pub decode : EventSubmission → Result Text EventSubmission
decode s = ok s

abbrev pub digest : Text → Option Text
digest t = some (take 2 t)

abbrev pub ignore : ClaimedDelivery → Action Store RepositoryFailure (Unit {0})
ignore c s = (ok tt, s)

abbrev pub settings : Settings
settings = record {
  destination = record {
    id = destination;
    endpoint = codes "https://crm.test/";
    authorization = [];
  };
  configuration_version = 1;
  worker_id = worker;
  claim_lease_millis = 500;
}

abbrev pub decision : IntakeDecision
decision =
    IntakeDecision.accepted
      (record {
        event = intake.event;
        delivery = cell.delivery;
        route = intake.route;
        accepted_at_millis = 1000;
      })
      claim

pub intake_accepted : (Intake.accept 1000 intake empty_store).0 ≡ ok decision
unfolding Intake.accept Maps.get
intake_accepted = refl

pub digested : digest (normalized submission) ≡ some (codes "re")
unfolding normalized
digested = refl

accept_replays_example :
    let t = run memory [] (Intake.accept 1000 intake empty_store).1 in
    accept decode digest
      (Intake.accept 3000)
      ignore
      settings
      (some (codes "0"))
      (some (codes "1"))
      3000
      intake.ingestion_key
      submission
      t
    ≡ (if same_text intake.request_fingerprint (codes "re")
        then (ok (acceptance (replay (decision_fields decision))), t)
        else (
          err (
              store_failed
                (ingestion_conflict intake.ingestion_key (decision_fields decision).event.id)),
          t,
        ))
accept_replays_example =
    accept_replays decode digest ignore settings [] 1000 3000 intake empty_store decision
      (codes "0") (codes "1") submission submission (codes "re") intake_accepted refl digested
