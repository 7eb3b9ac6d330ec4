-- ===== src/Postgres/Claimed.antt =====
-- What `claimPending` of src/adapters/postgres/deliveryRepository.ts does to the tables.
use engineering_with_effect.Prelude.{
  ℕ, ◌≡◌, refl, ap, ◌⊎◌, inl, inr, Bool, true, not, ◌&&◌, Option, some, List, [], ◌∷◌, map, arith,
  ltb, Bool-cases, All, All-map, All-take, All-select, All-sort_by, select, Text, same_text,
  eq_of_same_text,
}
use engineering_with_effect.Prelude.Maps
use engineering_with_effect.Model.Ids.{DeliveryId, DestinationId, WorkerId}
use engineering_with_effect.Model.Attempt.{DeliveryAttemptRecord}
use engineering_with_effect.Contract.{Cell}
use engineering_with_effect.Contract.Claims.{Claims}
use engineering_with_effect.Postgres.Tables.{Tables, DeliveryTableRow}
use engineering_with_effect.Postgres.View.{is_whole, view, IsSound, row_view, history_of, cell_with}
use engineering_with_effect.Postgres.Rows.{DeliveryRow}
use engineering_with_effect.Postgres.Claiming.{
  is_candidate, claimed_row, candidates, claim_pending, set_rows, all_meet,
}

-- Every row stands under its own identifier, once.
abbrev pub IsKeyed : Tables → Type 0
IsKeyed t = Maps.Keyed (λ (r : DeliveryTableRow). r.delivery_id) t.deliveries

module _ (now : ℕ) (owner : WorkerId) (destination : DestinationId) (lease : ℕ) where
  abbrev claim_of : DeliveryTableRow → DeliveryTableRow
  claim_of = claimed_row now owner lease

  -- A candidate shows a claimable delivery, and its new row shows the contract's claim.
  claimed_row-view :
      (h : List DeliveryAttemptRecord) (r : DeliveryTableRow)
      → is_whole r ≡ true
      → is_candidate now destination r ≡ true
      → Claims now owner destination lease (row_view h r) (row_view h (claim_of r))
  unfolding view is_whole is_candidate claimed_row
  claimed_row-view h r m c =
      let d = DeliveryRow.pending (record {
        delivery_id = r.delivery_id;
        event_id = r.event_id;
        destination_id = r.destination_id;
      }) in
      inr (cell_with h r d, ground arith, ground arith, ground arith)

  Claims-at :
      (o u : Option Cell) (h : List DeliveryAttemptRecord) (r : DeliveryTableRow)
      → o ≡ row_view h r
      → u ≡ row_view h (claim_of r)
      → is_whole r ≡ true
      → is_candidate now destination r ≡ true
      → Claims now owner destination lease o u
  Claims-at o u h r p q m c = rw p (rw q (claimed_row-view h r m c))

  module _ (before : Maps.Map DeliveryTableRow) where
    -- A candidate, as the table has it.
    abbrev pub Candidate : DeliveryTableRow → Type 0
    Candidate r = (Maps.get before r.delivery_id ≡ some r) × (is_candidate now destination r ≡ true)

    abbrev Updated : DeliveryId → Maps.Map DeliveryTableRow → Type 0
    Updated j m =
        (Maps.get m j ≡ Maps.get before j)
        ⊎ ((r : DeliveryTableRow) × Candidate r
            × (r.delivery_id ≡ j)
            × (Maps.get m j ≡ some (claim_of r)))

    set_rows-Updated :
        (rs : List DeliveryTableRow) (m : Maps.Map DeliveryTableRow) (j : DeliveryId)
        → All Candidate rs
        → Updated j m
        → Updated j (set_rows (map claim_of rs) m)
    unfolding claimed_row
    set_rows-Updated [] m j a u = u
    set_rows-Updated (r ∷ rs) m j a u =
        set_rows-Updated rs (Maps.set m r.delivery_id (claim_of r)) j a.1
          (elim (Bool-cases (same_text r.delivery_id j)) [
            | inl y ↦ inr (r, a.0, eq_of_same_text r.delivery_id j y, rw Maps.get-set (rw y))
            | inr n ↦ rw Maps.get-set (rw n u)
          ])

module _ (collates : Text → Text → Bool) (locked : DeliveryId → Bool) (now : ℕ) (owner : WorkerId)
    (destination : DestinationId) (limit lease : ℕ) where
  pub candidates-Candidate :
      (t : Tables)
      → IsKeyed t
      → All
          (Candidate now owner destination lease t.deliveries)
          (candidates collates locked now owner destination limit lease t)
  unfolding candidates
  candidates-Candidate t k =
      let of_id = λ (r : DeliveryTableRow). r.delivery_id in
      let P = λ (r : DeliveryTableRow). Maps.get t.deliveries r.delivery_id ≡ some r in
      let Q = Candidate now owner destination lease t.deliveries in
      let p =
        λ (r : DeliveryTableRow). is_candidate now destination r && not (locked r.delivery_id) in
      let a = All-select P p (Maps.values t.deliveries) (Maps.All-values of_id t.deliveries k) in
      let b =
        All-map {Q = Q} (λ r h. (h.0, ground arith)) (select p (Maps.values t.deliveries)) a in
      All-take Q limit _ (All-sort_by Q (λ l r. collates l.delivery_id r.delivery_id) _ b)

  -- What the call does to the table: nothing, or it sets the candidates' rows.
  pub claim_pending_cases :
      (t : Tables)
      → let u = (claim_pending collates locked now owner destination limit lease t).1 in
        let rows =
          map
            (claimed_row now owner lease)
            (candidates collates locked now owner destination limit lease t) in
        (u ≡ t)
        ⊎ ((all_meet rows ≡ true) × (u ≡ record t { deliveries = set_rows rows t.deliveries }))
  unfolding claim_pending
  claim_pending_cases t = elim (Bool-cases (ltb 0 limit && ltb 0 lease)) [
    | inl y ↦
        elim (Bool-cases (
          all_meet (
            map (claimed_row now owner lease)
              (candidates collates locked now owner destination limit lease t)))) [
                | inl m ↦ inr (m, ground arith)
                | inr m ↦ inl (ground arith)
              ]
    | inr n ↦ inl (ground arith)
  ]

  Updated-Claims :
      (t : Tables) (m : Maps.Map DeliveryTableRow) (j : DeliveryId)
      → IsSound t j
      → Updated now owner destination lease t.deliveries j m
      → Claims now owner destination lease (view t j) (view (record t { deliveries = m }) j)
  unfolding view claimed_row
  Updated-Claims t m j s (inl e) = inl (ground arith)
  Updated-Claims t m j s (inr (r, (e, c), n, u)) =
      let f : Maps.get t.deliveries j ≡ some r = rw (← n) e in
      Claims-at now owner destination lease _ _ (history_of t r.delivery_id) r (ground arith)
        (ground arith) (s.checked r f) c

  -- On tables whose rows stand under their keys, once each, and where the delivery's row meets the
  -- checks, with a reason where it is a dead letter: claiming over SQL leaves the delivery as it was,
  -- or the delivery was claimable, and has the contract's new claim, under a generation that is one
  -- higher.
  pub claim_pending-view-Claims :
      (t : Tables) (j : DeliveryId)
      → IsKeyed t
      → IsSound t j
      → Claims now owner destination lease
          (view t j)
          (view (claim_pending collates locked now owner destination limit lease t).1 j)
  claim_pending-view-Claims t j k s = elim (claim_pending_cases t) [
    | inl e ↦ inl (ap (λ (u : Tables). view u j) e)
    | inr (m, e) ↦ rw e (
        Updated-Claims t _ j s (
          set_rows-Updated now owner destination lease t.deliveries
            (candidates collates locked now owner destination limit lease t) t.deliveries j
            (candidates-Candidate t k) (inl refl)))
  ]
