-- ===== src/Postgres/Idempotency.antt =====
-- src/adapters/postgres/intakeStore.ts: an accepted key stays with its first event.
use engineering_with_effect.Prelude.{
  ℕ, ◌≡◌, refl, ap, ◌∙◌, inl, inr, Bool, Option, none, some, List, arith, if◌then◌else◌, Bool-cases,
  Option-cases, sort_by, select, Text, same_text, same_text_refl, Result, ok, err,
}
use engineering_with_effect.Prelude.Maps
use engineering_with_effect.Model.Ids.{DeliveryId, EventId}
use engineering_with_effect.Errors.{
  IntakeFailure, ingestion_conflict, intake_store_error, IntakeOperation,
}
use engineering_with_effect.Services.{IntakeRecord, IntakeDecision, replay}
use engineering_with_effect.Contract.Fencing.{Step, run}
use engineering_with_effect.Postgres.Rows.{route_of}
use engineering_with_effect.Postgres.Tables.{Tables, EventTableRow, DeliveryTableRow}
use engineering_with_effect.Postgres.Intake
use engineering_with_effect.Postgres.Intake.{
  insert_both, event_with_key, has_key, first_row, existing_answer, accepted_event_row,
  saved_event_row, new_delivery_row, pending_delivery,
}
use engineering_with_effect.Postgres.History.{postgres}
use engineering_with_effect.Postgres.Keys.{event_with_key-last, inserted-events, keyed, run-keyed}

module _ (collates : Text → Text → Bool) where
  -- What the first acceptance of a key has stored.
  accepted-keyed :
      (now : ℕ) (r : IntakeRecord) (t : Tables) (d : IntakeDecision)
      → keyed t r.ingestion_key ≡ none
      → (Intake.accept collates now r t).0 ≡ ok d
      → keyed (Intake.accept collates now r t).1 r.ingestion_key ≡ some (accepted_event_row r)
  unfolding accepted_event_row Intake.accept
  accepted-keyed now r t d n h =
      let e = accepted_event_row r in
      let x =
        new_delivery_row now (pending_delivery r.delivery_id r.event r.route.destination_id)
          (some r.route) r.claim in
      elim (Option-cases (insert_both e x t)) [
        | inl m ↦
            let refused : (Intake.accept collates now r t).0
                ≡ err (intake_store_error IntakeOperation.accept) =
              rw (Intake.accept, n, m) refl in
            absurd (ground (arith, h, refused))
        | inr (u, i) ↦
            let state : (Intake.accept collates now r t).1 ≡ u = rw (Intake.accept, n, i) refl in
            rw (state, inserted-events e x t u i)
              (event_with_key-last (Maps.values t.relay_events) r.ingestion_key e n
                (same_text_refl r.ingestion_key))
      ]

  -- The first delivery of an event, in the order of their identifiers.
  abbrev first_delivery : EventId → Tables → Option DeliveryTableRow
  first_delivery id t = first_row (
      sort_by (λ x y. collates x.delivery_id y.delivery_id)
        (select (λ d. same_text d.event_id id) (Maps.values t.deliveries)))

  -- What a repeated submission is to be answered, by the first one and the deliveries of its event.
  abbrev pub repeated : IntakeRecord → IntakeRecord → Tables → Result IntakeFailure IntakeDecision
  repeated first r t =
      let failed : Result IntakeFailure IntakeDecision =
        err (intake_store_error IntakeOperation.accept) in
      elim (first_delivery first.event.id t) [
        | none ↦ failed
        | some d ↦ elim (route_of d.destination_id d.destination_url d.configuration_version) [
          | none ↦ failed
          | some route ↦
              if same_text first.request_fingerprint r.request_fingerprint
              then ok (
                  replay (record {
                    event = first.event;
                    delivery = pending_delivery d.delivery_id first.event d.destination_id;
                    route = route;
                    accepted_at_millis = first.accepted_at_millis;
                  }))
              else err (ingestion_conflict r.ingestion_key first.event.id)
        ]
      ]

  existing_answer-repeated :
      (first r : IntakeRecord) (t : Tables)
      → existing_answer collates (accepted_event_row first) r t ≡ repeated first r t
  unfolding existing_answer accepted_event_row
  existing_answer-repeated first r t = elim (Option-cases (first_delivery first.event.id t)) [
    | inl n ↦ rw (existing_answer, repeated, n) refl
    | inr (d, e) ↦
        elim (Option-cases (route_of d.destination_id d.destination_url d.configuration_version)) [
          | inl n ↦ rw (existing_answer, repeated, e, n) refl
          | inr (route, f) ↦
              elim (Bool-cases (same_text first.request_fingerprint r.request_fingerprint)) [
                | inl y ↦ rw (existing_answer, repeated, e, f, y) refl
                | inr m ↦ rw (existing_answer, repeated, e, f, m) refl
              ]
        ]
  ]

  accept-keyed :
      (now : ℕ) (r : IntakeRecord) (t : Tables) (e : EventTableRow)
      → keyed t r.ingestion_key ≡ some e
      → Intake.accept collates now r t ≡ (existing_answer collates e r t, t)
  unfolding Intake.accept
  accept-keyed now r t e h = rw (Intake.accept, h) refl

  -- Once a key that no row had has been accepted over SQL, then after any further history, with whatever
  -- rows other sessions hold, a submission under that key changes nothing and is answered by the first
  -- one: with its event and its time, and the first delivery and the route that the event then has, where
  -- the fingerprint is the first's, and else with a conflict that names its event. The store fails only
  -- where that delivery is missing or has no route.
  pub accept-repeated :
      (locked : DeliveryId → Bool) (ops : List (Step (postgres collates locked))) (now later : ℕ)
      (first r : IntakeRecord) (t : Tables) (d : IntakeDecision)
      → event_with_key (Maps.values t.relay_events) first.ingestion_key ≡ none
      → (Intake.accept collates now first t).0 ≡ ok d
      → r.ingestion_key ≡ first.ingestion_key
      → (let u = run (postgres collates locked) ops (Intake.accept collates now first t).1 in
          Intake.accept collates later r u ≡ (repeated first r u, u))
  accept-repeated locked ops now later first r t d n h e =
      let t' = (Intake.accept collates now first t).1 in
      let u = run (postgres collates locked) ops t' in
      let k =
        run-keyed collates locked ops t' first.ingestion_key (accepted_event_row first)
          (accepted-keyed now first t d n h) in
      accept-keyed later r u (accepted_event_row first) (rw e k)
      ∙ ap (λ a. (a, u)) (existing_answer-repeated first r u)
