-- ===== src/Postgres/Entering.antt =====
-- How deliveries enter the tables of src/adapters/postgres: saves and the intake store.
use engineering_with_effect.Prelude.{
  ℕ, ◌≡◌, refl, subst, ◌⊎◌, inl, inr, Bool, true, ◌&&◌, none, some, arith, Bool-cases, Option-cases,
  Text, same_text_iff,
}
use engineering_with_effect.Prelude.Maps
use engineering_with_effect.Prelude.Maps.{map_laws}
use engineering_with_effect.Model.Ids.{DeliveryId, DestinationId}
use engineering_with_effect.Model.Event.{RelayEvent}
use engineering_with_effect.Model.State.{Delivery}
use engineering_with_effect.Contract.{Cell}
use engineering_with_effect.Services.{ClaimRequest, IntakeRecord}
use engineering_with_effect.Postgres.Rows.{DeliveryRow, delivery_to_row, row_fields}
use engineering_with_effect.Postgres.Tables.{
  Tables, DeliveryTableRow, EventTableRow, empty_tables, meets_checks, is_pending_name,
}
use engineering_with_effect.Postgres.Statements
use engineering_with_effect.Postgres.Adapter
use engineering_with_effect.Postgres.Intake
use engineering_with_effect.Postgres.View.{is_whole, view, IsSound}
use engineering_with_effect.Postgres.Claimed.{IsKeyed}

pub record IsValid (t : Tables) : Type 0 where
  pub keyed : IsKeyed t
  pub sound : (j : DeliveryId) → IsSound t j

pub empty_tables-IsValid : IsValid empty_tables
unfolding Maps.get
empty_tables-IsValid = record {
  keyed = tt;
  sound = λ j. record { named = λ r h. cc; checked = λ r h. cc };
}

-- A row set under its own key.
pub put-Keyed :
    (m : Maps.Map DeliveryTableRow) (id : DeliveryId) (r : DeliveryTableRow)
    → Maps.Keyed (λ (r : DeliveryTableRow). r.delivery_id) m
    → r.delivery_id ≡ id
    → Maps.Keyed (λ (r : DeliveryTableRow). r.delivery_id) (Maps.set m id r)
put-Keyed m id r k e = Maps.Keyed-set (λ (r : DeliveryTableRow). r.delivery_id) m id r e k

-- A whole row, set under its own key.
pub put-IsValid :
    (t : Tables) (es : Maps.Map EventTableRow) (r : DeliveryTableRow)
    → is_whole r ≡ true
    → IsValid t
    → IsValid (record t { relay_events = es; deliveries = Maps.set t.deliveries r.delivery_id r })
put-IsValid t es r m v = record {
  keyed = put-Keyed t.deliveries r.delivery_id r v.keyed refl;
  sound = λ j.
      let w = v.sound j in
      record {
        named = λ x h. grind (arith, map_laws, same_text_iff, w.named);
        checked = λ x h. grind (arith, map_laws, same_text_iff, w.checked);
      };
}

pub data Entry : Type 0 where
  saves : ℕ → Delivery → Entry
  accepts : ℕ → IntakeRecord → Entry
  saves_pending : ℕ → RelayEvent → DeliveryId → DestinationId → ClaimRequest → Entry

unfoldable pub enter : (Text → Text → Bool) → Entry → Tables → Tables
enter collates (saves now d) t = (Adapter.save now d t).1
enter collates (accepts now r) t = (Intake.accept collates now r t).1
enter collates (saves_pending now event id destination q) t =
    (Intake.save_pending now event id destination q t).1

-- Two tables: the same, or one whole row more, where there was none.
abbrev Adds : Tables → Tables → Type 0
Adds t u =
    (u ≡ t)
    ⊎ ((es : Maps.Map EventTableRow) × (r : DeliveryTableRow) × (is_whole r ≡ true)
        × (Maps.get t.deliveries r.delivery_id ≡ none)
        × (u ≡ record t { relay_events = es; deliveries = Maps.set t.deliveries r.delivery_id r }))

is_whole-saved_row :
    (now : ℕ) (row : DeliveryRow)
    → meets_checks (Statements.saved_row now row) ≡ true
    → is_whole (Statements.saved_row now row) ≡ true
unfolding is_whole Statements.saved_row
is_whole-saved_row now row m = ground arith

save-Adds : (now : ℕ) (row : DeliveryRow) (t : Tables) → Adds t (Statements.save now row t).1
unfolding Statements.save Statements.saved_row Maps.has
save-Adds now row t = elim (Option-cases (Maps.get t.deliveries (row_fields row).delivery_id)) [
  | inr (x, e) ↦ inl (ground arith)
  | inl n ↦
      elim (Bool-cases (
        Maps.has t.relay_events (row_fields row).event_id
        && meets_checks (Statements.saved_row now row))) [
          | inl y ↦ inr (
            t.relay_events,
            Statements.saved_row now row,
            is_whole-saved_row now row (ground arith),
            n,
            ground arith,
          )
          | inr f ↦ inl (ground arith)
        ]
]

insert_both-Adds :
    (e : EventTableRow) (d : DeliveryTableRow) (t u : Tables)
    → is_pending_name d.columns.state ≡ true
    → Intake.insert_both e d t ≡ some u
    → Adds t u
unfolding is_whole Intake.insert_both Maps.has
insert_both-Adds e d t u q h =
    inr (Maps.set t.relay_events e.event_id e, d, ground arith, ground arith, ground arith)

accept-Adds :
    (collates : Text → Text → Bool) (now : ℕ) (r : IntakeRecord) (t : Tables)
    → Adds t (Intake.accept collates now r t).1
unfolding Intake.accept
accept-Adds collates now r t =
    elim (Option-cases (Intake.event_with_key (Maps.values t.relay_events) r.ingestion_key)) [
      | inr (x, e) ↦ inl (ground arith)
      | inl n ↦
          let d =
            Intake.new_delivery_row now
              (Intake.pending_delivery r.delivery_id r.event r.route.destination_id) (some r.route)
              r.claim in
          elim (Option-cases (Intake.insert_both (Intake.accepted_event_row r) d t)) [
            | inl m ↦ inl (ground arith)
            | inr (u, p) ↦
                subst (Adds t) (ground arith)
                  (insert_both-Adds (Intake.accepted_event_row r) d t u refl p)
          ]
    ]

save_pending-Adds :
    (now : ℕ) (event : RelayEvent) (id : DeliveryId) (destination : DestinationId)
    (q : ClaimRequest) (t : Tables)
    → Adds t (Intake.save_pending now event id destination q t).1
unfolding Intake.save_pending
save_pending-Adds now event id destination q t =
    let d = Intake.new_delivery_row now (Intake.pending_delivery id event destination) none q in
    elim (Option-cases (Intake.insert_both (Intake.saved_event_row event) d t)) [
      | inl m ↦ inl (ground arith)
      | inr (u, p) ↦
          subst (Adds t) (ground arith)
            (insert_both-Adds (Intake.saved_event_row event) d t u refl p)
    ]

enter-Adds : (collates : Text → Text → Bool) (x : Entry) (t : Tables) → Adds t (enter collates x t)
unfolding enter Adapter.save
enter-Adds collates (saves now d) t = save-Adds now (delivery_to_row d) t
enter-Adds collates (accepts now r) t = accept-Adds collates now r t
enter-Adds collates (saves_pending now event id destination q) t =
    save_pending-Adds now event id destination q t

pub enter-IsValid :
    (collates : Text → Text → Bool) (x : Entry) (t : Tables)
    → IsValid t
    → IsValid (enter collates x t)
enter-IsValid collates x t v = elim (enter-Adds collates x t) [
  | inl e ↦ rw e v
  | inr (es, r, m, n, e) ↦ rw e (put-IsValid t es r m v)
]

Adds-view :
    (t u : Tables) (j : DeliveryId) (c : Cell) → Adds t u → view t j ≡ some c → view u j ≡ some c
unfolding view
Adds-view t u j c (inl e) h = ground arith
Adds-view t u j c (inr (es, r, m, n, e)) h = grind (arith, map_laws, same_text_iff)

pub enter-view :
    (collates : Text → Text → Bool) (x : Entry) (t : Tables) (j : DeliveryId) (c : Cell)
    → view t j ≡ some c
    → view (enter collates x t) j ≡ some c
enter-view collates x t j c h = Adds-view t (enter collates x t) j c (enter-Adds collates x t) h
