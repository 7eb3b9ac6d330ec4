-- ===== src/Tests/AcceptedCases.antt =====
-- A first submission at a concrete supervisor.
use engineering_with_effect.Prelude.{none, ◌≡◌, refl, false, some, [], codes, ok}
use engineering_with_effect.Prelude.Maps
use engineering_with_effect.Memory.{empty_store}
use engineering_with_effect.Memory.History.{memory, empty_store-IsValid}
use engineering_with_effect.Admission.{make_gate}
use engineering_with_effect.Supervisor
use engineering_with_effect.Supervisor.{job_of, enqueue_claimed}
use engineering_with_effect.EventIntake.{intake_record, accept}
use engineering_with_effect.EventIntake.Accepted.{store_accept, IsTaken, claimed_of, accept-IsTaken}
use engineering_with_effect.Tests.Permits.{permits, capacities}
use engineering_with_effect.Tests.IntakeCases.{submission, decode, digest, settings, digested}

abbrev start : Supervisor.Supervisor memory permits capacities
start = record {
  store = empty_store;
  admission = make_gate permits capacities;
  requests = [];
  pulled = [];
  dispatch_permits = 2;
  deliveries = [];
}

new_key : Maps.get empty_store.intakes (codes "key-1") ≡ none
unfolding Maps.get
new_key = refl

accept-IsTaken_example :
    let r =
      intake_record settings
        (codes "key-1")
        submission
        (codes "re")
        (codes "evt-0")
        (codes "dlv-1")
        3000 in
    let x =
      accept decode digest
        (store_accept permits capacities 3000)
        (enqueue_claimed memory permits capacities settings.destination)
        settings
        (some (codes "0"))
        (some (codes "1"))
        3000
        (codes "key-1")
        submission
        start in
    (x.0
      ≡ ok (record {
        event_id = codes "evt-0";
        delivery_id = codes "dlv-1";
        accepted_at_millis = 3000;
        replayed = false;
      }))
    × IsTaken permits capacities 3000 r
        (job_of (claimed_of permits capacities decode digest settings 3000 r) settings.destination)
        start
        x.1
accept-IsTaken_example =
    accept-IsTaken permits capacities decode digest settings (codes "0") (codes "1") 3000
      (codes "key-1") submission start submission (codes "re") empty_store-IsValid new_key refl
      digested
