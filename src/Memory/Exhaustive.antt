-- ===== src/Memory/Exhaustive.antt =====
-- `claimPending` of src/adapters/memoryPersistence.ts leaves nothing behind while there is room.
use engineering_with_effect.Prelude.{
  ℕ, ◌≤◌, ◌<◌, ◌≡◌, sym, ap, subst, ◌∙◌, ◌⊎◌, inl, inr, true, false, some, List, [], ◌∷◌, arith,
  ltb, leb, Bool-cases, or_else, length, Text, same_text, same_text_refl, ok,
}
use engineering_with_effect.Prelude.Maps
use engineering_with_effect.Prelude.Maps.{map_laws}
use engineering_with_effect.Model.Ids.{DestinationId, WorkerId}
use engineering_with_effect.Model.Event.{RelayEvent}
use engineering_with_effect.Model.State.{Delivery, is_pending}
use engineering_with_effect.Services.{ClaimedDelivery}
use engineering_with_effect.Contract.{Cell, is_claimable, claimed}
use engineering_with_effect.Memory.{Store}
use engineering_with_effect.Memory.Claims.{
  lease_blocks, skips, take_claim, claim_round, claim_rounds, claim_pending,
}
use engineering_with_effect.Memory.View.{view, cell_of, view-some}
use engineering_with_effect.Memory.Claiming.{claim_pending-Claims}

module _ (now : ℕ) (owner : WorkerId) (destination : DestinationId) (limit lease : ℕ) (d : Delivery)
    (v : RelayEvent) where
  -- What the loop asks of the delivery, but for its lease.
  record IsReady (s : Store) : Type 0 where
    pending : is_pending d.state ≡ true
    addressed : same_text d.destination_id destination ≡ true
    eligible : ltb now (or_else (Maps.get s.next_eligible_at d.id) 0) ≡ false
    event : Maps.get s.events d.event_id ≡ some v

  -- There is no room, or the delivery has a running lease.
  abbrev IsDone : List ClaimedDelivery × Store → Type 0
  IsDone r = (limit ≤ length r.0) ⊎ (lease_blocks (Maps.get r.1.claims d.id) now ≡ true)

  round-IsReady :
      (x : Delivery) (out : List ClaimedDelivery) (s : Store)
      → IsReady s
      → IsReady (claim_round now owner destination limit lease x out s).1
  unfolding claim_round
  round-IsReady x out s r = record {
    pending = r.pending;
    addressed = r.addressed;
    eligible = ground (arith, r.eligible);
    event = ground (arith, r.event);
  }

  round-keeps :
      (x : Delivery) (out : List ClaimedDelivery) (s : Store)
      → 0 < lease
      → IsDone (out, s)
      → IsDone (claim_round now owner destination limit lease x out s)
  unfolding claim_round take_claim
  round-keeps x out s l (inl n) = inl (ground (arith, n))
  round-keeps x out s l (inr b) = inr (grind (arith, map_laws))

  rounds-keep :
      (xs : List Delivery) (out : List ClaimedDelivery) (s : Store)
      → 0 < lease
      → IsDone (out, s)
      → IsDone (claim_rounds now owner destination limit lease xs out s)
  unfolding claim_rounds
  rounds-keep [] out s l h = h
  rounds-keep (x ∷ xs) out s l h =
      let r = claim_round now owner destination limit lease x out s in
      rounds-keep xs r.0 r.1 l (round-keeps x out s l h)

  round-IsDone :
      (out : List ClaimedDelivery) (s : Store)
      → 0 < lease
      → IsReady s
      → IsDone (claim_round now owner destination limit lease d out s)
  unfolding claim_round take_claim skips
  round-IsDone out s l r = elim (Bool-cases (leb limit (length out))) [
    | inl y ↦ round-keeps d out s l (inl (ground arith))
    | inr n ↦ elim (Bool-cases (lease_blocks (Maps.get s.claims d.id) now)) [
      | inl y ↦ round-keeps d out s l (inr y)
      | inr m ↦
          let p : skips now owner destination limit lease d out s ≡ false =
            ground (arith, r.pending, r.addressed, r.eligible) in
          inr (
            rw (p, claim_round) (rw (r.event) (rw Maps.get-set (rw same_text_refl (ground arith)))))
    ]
  ]

  rounds-IsDone :
      (m : Maps.Map Delivery) (key : Text) (out : List ClaimedDelivery) (s : Store)
      → Maps.get m key ≡ some d
      → 0 < lease
      → IsReady s
      → IsDone (claim_rounds now owner destination limit lease (Maps.values m) out s)
  unfolding Maps.get claim_rounds
  rounds-IsDone [] key out s h l r = absurd (ground arith)
  rounds-IsDone ((k, x) ∷ m) key out s h l r =
      let t = claim_round now owner destination limit lease x out s in
      elim (Bool-cases (same_text k key)) [
        | inl y ↦
            let e : x ≡ d = ground arith in
            rounds-keep (Maps.values m) t.0 t.1 l (
              subst (λ z. IsDone (claim_round now owner destination limit lease z out s)) (sym e)
                (round-IsDone out s l r))
        | inr n ↦ rounds-IsDone m key t.0 t.1 (ground arith) l (round-IsReady x out s r)
      ]

  -- What the view shows as the claim is the stored claim.
  shown-claims :
      (t : Store) (id : Text) (c : Cell) → view t id ≡ some c → Maps.get t.claims id ≡ c.claim
  unfolding view
  shown-claims t id c h = ground arith

  -- On maps that hold each delivery once, under its own identifier, and with a lease that takes time:
  -- where claiming answers with a list, every delivery that is claimable and whose event is stored has
  -- the contract's new claim, or the list has as many entries as the limit allows.
  pub claim_pending_exhaustive :
      (s : Store) (out : List ClaimedDelivery)
      → Maps.Keyed (λ (d : Delivery). d.id) s.records
      → 0 < lease
      → Maps.get s.records d.id ≡ some d
      → is_claimable now destination (cell_of s d.id d) ≡ true
      → Maps.get s.events d.event_id ≡ some v
      → (claim_pending now owner destination limit lease s).0 ≡ ok out
      → (view (claim_pending now owner destination limit lease s).1 d.id
          ≡ some (claimed now owner lease (cell_of s d.id d)))
        ⊎ (limit ≤ length out)
  unfolding claim_pending
  claim_pending_exhaustive s out k l h c e o =
      let ready : IsReady s = record {
        pending = ground arith;
        addressed = ground arith;
        eligible = ground arith;
        event = e;
      } in
      let t = (claim_pending now owner destination limit lease s).1 in
      let shown = view-some s d.id d h in
      elim (rounds-IsDone s.records d.id [] s h l ready) [
        | inl full ↦ inr (ground (arith, full, o))
        | inr b ↦ elim (claim_pending-Claims now owner destination limit lease s d.id k l) [
          | inl same ↦
              absurd (ground (arith, shown-claims t d.id (cell_of s d.id d) (same ∙ shown)))
          | inr (x, p, q, w) ↦
              let same : x ≡ cell_of s d.id d = ground (arith, p, shown) in
              inl (w ∙ ap (λ y. some (claimed now owner lease y)) same)
        ]
      ]
