-- ===== src/Tests/SqlIntakeCases.antt =====
-- The idempotency of the SQL intake at a concrete history.
use engineering_with_effect.Prelude.{Text, Bool, ◌≡◌, refl, true, false, none, [], ◌∷◌, ok}
use engineering_with_effect.Prelude.Maps
use engineering_with_effect.Model.Ids.{DeliveryId, is_worker_id, is_request_fingerprint}
use engineering_with_effect.Services.{IntakeRecord, IntakeDecision}
use engineering_with_effect.Contract.Fencing.{run, claims}
use engineering_with_effect.Postgres.Intake
use engineering_with_effect.Postgres.Intake.{event_with_key, pending_delivery}
use engineering_with_effect.Postgres.Tables.{empty_tables, meets_checks, meets_event_checks}
use engineering_with_effect.Postgres.History.{postgres}
use engineering_with_effect.Postgres.Idempotency.{repeated, accept-repeated}
use engineering_with_effect.Tests.Samples.{first, other_id, other_worker, destination, claim}

abbrev collates : Text → Text → Bool
collates x y = true

abbrev locked : DeliveryId → Bool
locked j = false

abbrev again : IntakeRecord
again = record first { delivery_id = other_id; accepted_at_millis = 3000 }

abbrev decision : IntakeDecision
decision =
    IntakeDecision.accepted
      (record {
        event = first.event;
        delivery = pending_delivery first.delivery_id first.event first.route.destination_id;
        route = first.route;
        accepted_at_millis = first.accepted_at_millis;
      })
      claim

first_accepted : (Intake.accept collates 1000 first empty_tables).0 ≡ ok decision
unfolding Intake.accept meets_checks meets_event_checks is_worker_id is_request_fingerprint Maps.get
first_accepted = refl

new_key : event_with_key (Maps.values empty_tables.relay_events) first.ingestion_key ≡ none
unfolding event_with_key
new_key = refl

-- Another worker claims the delivery in between.
accept-repeated_example :
    let ops = claims 1700 other_worker destination 10 500 ∷ [] in
    let u = run (postgres collates locked) ops (Intake.accept collates 1000 first empty_tables).1 in
    Intake.accept collates 3000 again u ≡ (repeated collates first again u, u)
accept-repeated_example =
    accept-repeated collates locked (claims 1700 other_worker destination 10 500 ∷ []) 1000 3000
      first again empty_tables decision new_key first_accepted refl
