-- ===== src/Postgres/Claiming.antt =====
-- src/adapters/postgres/deliveryRepository.ts: `claimPending`, its statement and the adapter over it.
use engineering_with_effect.Prelude.{
  ℕ, ◌+◌, ◌-◌, max, Bool, true, false, not, ◌&&◌, Option, none, some, List, [], ◌∷◌, ◌++◌, map, ltb,
  leb, if◌then◌else◌, take, sort_by, select, Text, same_text, ok, err, Action,
}
use engineering_with_effect.Prelude.Maps
use engineering_with_effect.Model.Ids.{DeliveryId, DestinationId, WorkerId}
use engineering_with_effect.Errors.{RepositoryFailure, RepositoryOperation, repository_error}
use engineering_with_effect.Services.{ClaimedDelivery}
use engineering_with_effect.Postgres.Rows.{
  ClaimedDeliveryRow, DeliveryAttemptRow, row_to_claimed_delivery,
}
use engineering_with_effect.Postgres.Tables.{
  Tables, DeliveryTableRow, EventTableRow, Statement, constraint_violation, meets_checks,
  is_pending_name,
}
use engineering_with_effect.Postgres.Statements.{attempts_of}
use engineering_with_effect.Postgres.Adapter.{decode_claim, find_all}

-- `claim_owner IS NULL OR lease_expires_at_ms <= now_ms`; no null meets a comparison.
abbrev lease_ended : Option WorkerId → Option ℕ → ℕ → Bool
lease_ended none expiry now = true
lease_ended (some owner) none now = false
lease_ended (some owner) (some expiry) now = leb expiry now

unfoldable pub is_candidate : ℕ → DestinationId → DeliveryTableRow → Bool
is_candidate now destination r =
    is_pending_name r.columns.state
    && same_text r.destination_id destination
    && leb r.next_eligible_at_ms now
    && lease_ended r.claim_owner r.lease_expires_at_ms now

-- What `claimed_deliveries` sets.
unfoldable pub claimed_row : ℕ → WorkerId → ℕ → DeliveryTableRow → DeliveryTableRow
claimed_row now owner lease r = record r {
  claim_owner = some owner;
  claim_generation = r.claim_generation + 1;
  lease_expires_at_ms = some (now + lease);
}

-- `COALESCE(MAX(ordinal) + 1, 1)`
abbrev next_ordinal : List DeliveryAttemptRow → ℕ
next_ordinal [] = 1
next_ordinal (a ∷ as_) = max (a.ordinal + 1) (next_ordinal as_)

-- A row of the answer.
record JoinedRow : Type 0 where
  pub delivery : DeliveryTableRow
  pub event : EventTableRow
  pub claim_lag_ms : ℕ
  pub next_attempt_ordinal : ℕ

-- `INNER JOIN relay_events USING (event_id)`
abbrev joined : ℕ → Tables → DeliveryTableRow → List JoinedRow
joined now t r = elim (Maps.get t.relay_events r.event_id) [
  | none ↦ []
  | some e ↦
      record {
        delivery = r;
        event = e;
        claim_lag_ms = now - r.next_eligible_at_ms;
        next_attempt_ordinal = next_ordinal (attempts_of t r.delivery_id);
      }
      ∷ []
]

abbrev join_all : ℕ → Tables → List DeliveryTableRow → List JoinedRow
join_all now t [] = []
join_all now t (r ∷ rs) = joined now t r ++ join_all now t rs

-- `UPDATE … FROM candidates`, row by row.
abbrev pub set_rows : List DeliveryTableRow → Maps.Map DeliveryTableRow → Maps.Map DeliveryTableRow
set_rows [] m = m
set_rows (r ∷ rs) m = set_rows rs (Maps.set m r.delivery_id r)

abbrev pub all_meet : List DeliveryTableRow → Bool
all_meet [] = true
all_meet (r ∷ rs) = meets_checks r && all_meet rs

-- `locked`: the rows that another session holds, which `SKIP LOCKED` passes over.
module _ (collates : Text → Text → Bool) (locked : DeliveryId → Bool) (now : ℕ) (owner : WorkerId)
    (destination : DestinationId) (limit lease : ℕ) where
  unfoldable pub candidates : Tables → List DeliveryTableRow
  unfolding is_candidate
  candidates t = take limit (
      sort_by (λ l r. collates l.delivery_id r.delivery_id)
        (select (λ r. is_candidate now destination r && not (locked r.delivery_id))
          (Maps.values t.deliveries)))

  unfoldable claim_statement : Statement (List JoinedRow)
  unfolding candidates claimed_row
  claim_statement t =
      let rows = map (claimed_row now owner lease) (candidates t) in
      if all_meet rows
      then (ok (join_all now t rows), record t { deliveries = set_rows rows t.deliveries })
      else (err constraint_violation, t)

  -- The schema `ClaimedDeliveryRow`.
  abbrev decode_joined : JoinedRow → Option ClaimedDeliveryRow
  decode_joined j = elim (decode_claim j.delivery) [
    | none ↦ none
    | some c ↦ some (record {
      fields = record {
        delivery_id = j.delivery.delivery_id;
        event_id = j.delivery.event_id;
        destination_id = j.delivery.destination_id;
      };
      event_type = j.event.event_type;
      invoice_id = j.event.invoice_id;
      amount_cents = j.event.amount_cents;
      destination_url = j.delivery.destination_url;
      configuration_version = j.delivery.configuration_version;
      claim_lag_ms = j.claim_lag_ms;
      next_attempt_ordinal = j.next_attempt_ordinal;
      claim = c;
    })
  ]

  unfoldable pub claim_pending : Action Tables RepositoryFailure (List ClaimedDelivery)
  unfolding claim_statement row_to_claimed_delivery
  claim_pending t =
      if ltb 0 limit && ltb 0 lease
      then (let (r, t') = claim_statement t in
          (
            elim (find_all RepositoryOperation.claim_pending decode_joined r) [
              | err e ↦ err e
              | ok rows ↦ ok (map row_to_claimed_delivery rows)
            ],
            t',
          ))
      else (err (repository_error RepositoryOperation.claim_pending), t)
