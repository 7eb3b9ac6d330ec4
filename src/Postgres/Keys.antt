-- ===== src/Postgres/Keys.antt =====
-- src/adapters/postgres/intakeStore.ts: the event row that has a key keeps it, whatever happens.
use engineering_with_effect.Prelude.{
  ℕ, ◌≡◌, refl, ap, ◌∙◌, ◌⊎◌, inl, inr, Bool, true, Option, none, some, List, [], ◌∷◌, ◌++◌, arith,
  Bool-cases, Option-cases, Text,
}
use engineering_with_effect.Prelude.Maps
use engineering_with_effect.Model.Ids.{DeliveryId, DestinationId, IngestionKey}
use engineering_with_effect.Model.Event.{RelayEvent}
use engineering_with_effect.Model.State.{Delivery}
use engineering_with_effect.Services.{IntakeRecord, ClaimRequest}
use engineering_with_effect.Contract.Calls.{Call, records}
use engineering_with_effect.Contract.Fencing.{Step, calls, claims, enters, apply, run}
use engineering_with_effect.Postgres.Tables.{Tables, EventTableRow, DeliveryTableRow}
use engineering_with_effect.Postgres.Statements
use engineering_with_effect.Postgres.Adapter
use engineering_with_effect.Postgres.Intake
use engineering_with_effect.Postgres.Intake.{
  insert_both, event_with_key, has_key, first_row, existing_answer, accepted_event_row,
  saved_event_row, new_delivery_row, pending_delivery,
}
use engineering_with_effect.Postgres.View.{perform}
use engineering_with_effect.Postgres.Entering.{Entry, saves, accepts, saves_pending, enter}
use engineering_with_effect.Postgres.Claiming.{claim_pending}
use engineering_with_effect.Postgres.Claimed.{claim_pending_cases}
use engineering_with_effect.Postgres.History.{postgres}

event_with_key-append :
    (xs ys : List EventTableRow) (key : IngestionKey) (e : EventTableRow)
    → event_with_key xs key ≡ some e
    → event_with_key (xs ++ ys) key ≡ some e
unfolding event_with_key
event_with_key-append [] ys key e h = absurd (ground arith)
event_with_key-append (x ∷ xs) ys key e h = elim (Bool-cases (has_key x.ingestion_key key)) [
  | inl y ↦ rw y (ground arith)
  | inr n ↦ rw n (event_with_key-append xs ys key e (ground arith))
]

pub event_with_key-last :
    (xs : List EventTableRow) (key : IngestionKey) (e : EventTableRow)
    → event_with_key xs key ≡ none
    → has_key e.ingestion_key key ≡ true
    → event_with_key (xs ++ e ∷ []) key ≡ some e
unfolding event_with_key
event_with_key-last [] key e h k = rw k refl
event_with_key-last (x ∷ xs) key e h k = elim (Bool-cases (has_key x.ingestion_key key)) [
  | inl y ↦ absurd (ground arith)
  | inr n ↦ rw n (event_with_key-last xs key e (ground arith) k)
]

-- The row that has the key.
abbrev pub keyed : Tables → IngestionKey → Option EventTableRow
keyed t key = event_with_key (Maps.values t.relay_events) key

pub inserted-events :
    (e : EventTableRow) (d : DeliveryTableRow) (t u : Tables)
    → insert_both e d t ≡ some u
    → Maps.values u.relay_events ≡ Maps.values t.relay_events ++ e ∷ []
unfolding insert_both Maps.has
inserted-events e d t u h = elim (Option-cases (Maps.get t.relay_events e.event_id)) [
  | inr (x, f) ↦ absurd (ground arith)
  | inl n ↦
      let same : u.relay_events ≡ Maps.set t.relay_events e.event_id e = ground arith in
      ap Maps.values same ∙ Maps.values-set t.relay_events e.event_id e n
]

inserted-keyed :
    (e : EventTableRow) (d : DeliveryTableRow) (t u : Tables) (key : IngestionKey)
    (x : EventTableRow)
    → insert_both e d t ≡ some u
    → keyed t key ≡ some x
    → keyed u key ≡ some x
inserted-keyed e d t u key x h k =
    rw (inserted-events e d t u h)
      (event_with_key-append (Maps.values t.relay_events) (e ∷ []) key x k)

perform-events : (call : Call) (t : Tables) → (perform call t).1.relay_events ≡ t.relay_events
unfolding perform
perform-events (records now a) t = ground arith
perform-events _ t = ground arith

module _ (collates : Text → Text → Bool) where
  -- An acceptance finds the key and changes nothing, or inserts, or fails and changes nothing.
  accept-cases :
      (now : ℕ) (r : IntakeRecord) (t : Tables)
      → ((Intake.accept collates now r t).1 ≡ t)
        ⊎ (insert_both
              (accepted_event_row r)
              (new_delivery_row now
                (pending_delivery r.delivery_id r.event r.route.destination_id)
                (some r.route)
                r.claim)
              t
            ≡ some (Intake.accept collates now r t).1)
  unfolding Intake.accept
  accept-cases now r t = elim (Option-cases (keyed t r.ingestion_key)) [
    | inr (x, e) ↦ inl (rw (Intake.accept, e) refl)
    | inl n ↦
        elim (Option-cases (
          insert_both (accepted_event_row r)
            (new_delivery_row now (pending_delivery r.delivery_id r.event r.route.destination_id)
              (some r.route) r.claim)
            t)) [
              | inl m ↦ inl (rw (Intake.accept, n, m) refl)
              | inr (u, e) ↦ inr (rw (Intake.accept, n, e) refl)
            ]
  ]

  save_pending-cases :
      (now : ℕ) (event : RelayEvent) (id : DeliveryId) (d : DestinationId) (q : ClaimRequest)
      (t : Tables)
      → ((Intake.save_pending now event id d q t).1 ≡ t)
        ⊎ (insert_both
              (saved_event_row event)
              (new_delivery_row now (pending_delivery id event d) none q)
              t
            ≡ some (Intake.save_pending now event id d q t).1)
  unfolding Intake.save_pending
  save_pending-cases now event id d q t =
      elim (Option-cases (
        insert_both (saved_event_row event)
          (new_delivery_row now (pending_delivery id event d) none q) t)) [
            | inl m ↦ inl (rw (Intake.save_pending, m) refl)
            | inr (u, e) ↦ inr (rw (Intake.save_pending, e) refl)
          ]

  save-events :
      (now : ℕ) (d : Delivery) (t : Tables) → (Adapter.save now d t).1.relay_events ≡ t.relay_events
  unfolding Adapter.save Statements.save
  save-events now d t = ground arith

  enter-keyed :
      (x : Entry) (t : Tables) (key : IngestionKey) (e : EventTableRow)
      → keyed t key ≡ some e
      → keyed (enter collates x t) key ≡ some e
  unfolding enter
  enter-keyed (saves now d) t key e h = rw (save-events now d t) h
  enter-keyed (accepts now r) t key e h = elim (accept-cases now r t) [
    | inl same ↦ rw same h
    | inr i ↦ inserted-keyed _ _ t (Intake.accept collates now r t).1 key e i h
  ]
  enter-keyed (saves_pending now event id d q) t key e h =
      elim (save_pending-cases now event id d q t) [
        | inl same ↦ rw same h
        | inr i ↦ inserted-keyed _ _ t (Intake.save_pending now event id d q t).1 key e i h
      ]

  module _ (locked : DeliveryId → Bool) where
    pub run-keyed :
        (ops : List (Step (postgres collates locked))) (t : Tables) (key : IngestionKey)
        (e : EventTableRow)
        → keyed t key ≡ some e
        → keyed (run (postgres collates locked) ops t) key ≡ some e
    unfolding run apply
    run-keyed [] t key e h = h
    run-keyed (calls c ∷ ops) t key e h =
        run-keyed ops (perform c t).1 key e (rw (perform-events c t) h)
    run-keyed (claims now owner d limit lease ∷ ops) t key e h =
        run-keyed ops (claim_pending collates locked now owner d limit lease t).1 key e
          (elim (claim_pending_cases collates locked now owner d limit lease t) [
            | inl same ↦ rw same h
            | inr (m, same) ↦ rw same h
          ])
    run-keyed (enters x ∷ ops) t key e h =
        run-keyed ops (enter collates x t) key e (enter-keyed x t key e h)
