-- ===== src/EventIntake.antt =====
-- src/eventIntake.ts and src/identifiers.ts: a submission is checked, fingerprinted, stored under its
-- key, and handed to the supervisor when it is new. The schema's decoder, the digest in hexadecimal,
-- the store and the supervisor are parameters.
pub mod Replays
pub mod Accepted
use engineering_with_effect.Prelude.{
  ℕ, Bool, true, false, not, Option, none, some, ◌∷◌, ◌++◌, Text, codes, Result, ok, err, Action,
}
use engineering_with_effect.Prelude.Decimals.{number_text}
use engineering_with_effect.Model.Ids.{
  EventId, DeliveryId, WorkerId, IngestionKey, RequestFingerprint,
}
use engineering_with_effect.Model.Event.{
  EventType, invoice_created, EventSubmission, EventAcceptance, Destination,
}
use engineering_with_effect.Errors.{RepositoryFailure, IntakeFailure}
use engineering_with_effect.Services.{
  ClaimedDelivery, IntakeRecord, IntakeDecision, accepted, replay, decision_fields,
}

pub data IdentityOperation : Type 0 where
  fingerprint event_id delivery_id : IdentityOperation

-- `EventIntakeFailure`
pub data Failure : Type 0 where
  invalid_event : Text → Failure
  event_identity : IdentityOperation → Failure
  store_failed : IntakeFailure → Failure
  hand_over_failed : RepositoryFailure → Failure

abbrev pub topic_text : EventType → Text
topic_text invoice_created = codes "invoice.created"

-- The text that is digested: four lines.
unfoldable pub normalized : EventSubmission → Text
unfolding number_text
normalized s =
    codes "relay-intake-v1"
    ++ (b'\n'
        ∷ (topic_text s.topic ++ (b'\n' ∷ (s.invoice_id ++ (b'\n' ∷ number_text s.amount_cents)))))

-- `generateEventId` and `generateDeliveryId`, from a UUID if one can be drawn.
abbrev generate_event_id : Option Text → Option EventId
generate_event_id none = none
generate_event_id (some uuid) = some (codes "evt-" ++ uuid)

abbrev generate_delivery_id : Option Text → Option DeliveryId
generate_delivery_id none = none
generate_delivery_id (some uuid) = some (codes "dlv-" ++ uuid)

-- What the intake reads of the configuration and of the worker's identity.
pub record Settings : Type 0 where
  pub destination : Destination
  pub configuration_version : ℕ
  pub worker_id : WorkerId
  pub claim_lease_millis : ℕ

abbrev pub intake_record :
    Settings
    → IngestionKey
    → EventSubmission
    → RequestFingerprint
    → EventId
    → DeliveryId
    → ℕ
    → IntakeRecord
intake_record k key submission print event delivery now = record {
  ingestion_key = key;
  request_fingerprint = print;
  event = record {
    id = event;
    event_type = invoice_created;
    invoice_id = submission.invoice_id;
    amount_cents = submission.amount_cents;
  };
  delivery_id = delivery;
  route = record {
    destination_id = k.destination.id;
    endpoint = k.destination.endpoint;
    configuration_version = k.configuration_version;
  };
  accepted_at_millis = now;
  claim = record { owner_id = k.worker_id; lease_duration_millis = k.claim_lease_millis };
}

abbrev is_replay : IntakeDecision → Bool
is_replay (accepted f c) = false
is_replay (replay f) = true

abbrev pub acceptance : IntakeDecision → EventAcceptance
acceptance d =
    let f = decision_fields d in
    record {
      event_id = f.event.id;
      delivery_id = f.delivery.id;
      accepted_at_millis = f.accepted_at_millis;
      replayed = is_replay d;
    }

module _ {C S : Type 0} (decode : C → Result Text EventSubmission) (digest : Text → Option Text)
    (store_accept : IntakeRecord → Action S IntakeFailure IntakeDecision)
    (enqueue_claimed : ClaimedDelivery → Action S RepositoryFailure (Unit {0})) (k : Settings) where
  -- A new delivery is handed over under its claim; a replay is not.
  unfoldable pub hand_over : IntakeDecision → Action S RepositoryFailure (Unit {0})
  hand_over (replay f) s = (ok tt, s)
  hand_over (accepted f claim) s =
      enqueue_claimed
        (record {
          claim = claim;
          claim_lag_millis = 0;
          delivery = f.delivery;
          event = f.event;
          next_attempt_ordinal = 1;
          route = some f.route;
        })
        s

  unfoldable pub store_and_hand_over : IntakeRecord → Action S Failure EventAcceptance
  unfolding hand_over
  store_and_hand_over r s =
      let (decided, s1) = store_accept r s in
      elim decided [
        | err e ↦ (err (store_failed e), s1)
        | ok d ↦
            let (handed, s2) = hand_over d s1 in
            elim handed [ err e ↦ (err (hand_over_failed e), s2) | ok u ↦ (ok (acceptance d), s2) ]
      ]

  -- `accept`, with the two UUIDs that it draws, and the clock.
  unfoldable pub accept :
      Option Text → Option Text → ℕ → IngestionKey → C → Action S Failure EventAcceptance
  unfolding store_and_hand_over normalized
  accept event_uuid delivery_uuid now key candidate s = elim (decode candidate) [
    | err summary ↦ (err (invalid_event summary), s)
    | ok submission ↦ elim (digest (normalized submission)) [
      | none ↦ (err (event_identity fingerprint), s)
      | some print ↦ elim (generate_event_id event_uuid) [
        | none ↦ (err (event_identity event_id), s)
        | some event ↦ elim (generate_delivery_id delivery_uuid) [
          | none ↦ (err (event_identity delivery_id), s)
          | some delivery ↦
              store_and_hand_over (intake_record k key submission print event delivery now) s
        ]
      ]
    ]
  ]
