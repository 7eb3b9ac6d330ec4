-- ===== src/Memory/Claiming.antt =====
-- The loop of `claimPending`: one round at a time, then all of them.
use engineering_with_effect.Prelude.{
  ℕ, ◌<◌, ◌≡◌, refl, ap, ◌∙◌, ◌⊎◌, inl, inr, true, false, Option, some, List, [], ◌∷◌, arith,
  if◌then◌else◌, Bool-cases, Option-cases, All, Text, same_text, eq_of_same_text, same_text_iff,
}
use engineering_with_effect.Prelude.Maps
use engineering_with_effect.Prelude.Maps.{map_laws}
use engineering_with_effect.Model.Ids.{DestinationId, WorkerId}
use engineering_with_effect.Model.State.{Delivery}
use engineering_with_effect.Model.Event.{RelayEvent}
use engineering_with_effect.Contract.{Cell, is_claimable, claimed}
use engineering_with_effect.Services.{ClaimedDelivery}
use engineering_with_effect.Contract.Claims.{Claims}
use engineering_with_effect.Memory.{Store}
use engineering_with_effect.Memory.Claims.{
  skips, take_claim, claim_round, claim_rounds, claim_pending,
}
use engineering_with_effect.Memory.View.{view, view-some, cell_of}

module _ (now : ℕ) (owner : WorkerId) (destination : DestinationId) (limit lease : ℕ) where
  claim_round-records :
      (d : Delivery) (out : List ClaimedDelivery) (s : Store)
      → (claim_round now owner destination limit lease d out s).1.records ≡ s.records
  unfolding claim_round
  claim_round-records d out s = ground arith

  -- What every round keeps, all rounds keep; a round acts on a delivery as the store has it.
  pub claim_rounds_inv {ℓ} :
      (P : List ClaimedDelivery → Store → Type ℓ)
      → ((d : Delivery) (out : List ClaimedDelivery) (s : Store)
          → Maps.get s.records d.id ≡ some d
          → P out s
          → (let r = claim_round now owner destination limit lease d out s in P r.0 r.1))
      → (ds : List Delivery) (out : List ClaimedDelivery) (s : Store)
      → All (λ d. Maps.get s.records d.id ≡ some d) ds
      → P out s
      → (let r = claim_rounds now owner destination limit lease ds out s in P r.0 r.1)
  unfolding claim_rounds
  claim_rounds_inv P keep [] out s a h = h
  claim_rounds_inv P keep (d ∷ ds) out s a h =
      let r = claim_round now owner destination limit lease d out s in
      claim_rounds_inv P keep ds r.0 r.1 (rw (claim_round-records d out s) a.1) (keep d out s a.0 h)

  -- A round does nothing, or takes the claim of a delivery that it does not skip.
  pub claim_round_cases :
      (d : Delivery) (out : List ClaimedDelivery) (s : Store)
      → (claim_round now owner destination limit lease d out s ≡ (out, s))
        ⊎ ((e : RelayEvent) × (Maps.get s.events d.event_id ≡ some e)
            × (skips now owner destination limit lease d out s ≡ false)
            × (claim_round now owner destination limit lease d out s
                ≡ take_claim now owner destination limit lease d e out s))
  unfolding claim_round
  claim_round_cases d out s = elim (Bool-cases (skips now owner destination limit lease d out s)) [
    | inl p ↦ inl (ground arith)
    | inr p ↦ elim (Option-cases (Maps.get s.events d.event_id)) [
      | inl n ↦ inl (ground arith)
      | inr (e, q) ↦ inr (e, q, p, ground arith)
    ]
  ]

  pub not-skips_claimable :
      (d : Delivery) (out : List ClaimedDelivery) (s : Store)
      → skips now owner destination limit lease d out s ≡ false
      → is_claimable now destination (cell_of s d.id d) ≡ true
  unfolding skips
  not-skips_claimable d out s h = ground arith

  take_claim-view :
      (d : Delivery) (e : RelayEvent) (out : List ClaimedDelivery) (s : Store) (j : Text)
      → Maps.get s.records d.id ≡ some d
      → view (take_claim now owner destination limit lease d e out s).1 j
        ≡ (if same_text d.id j then some (claimed now owner lease (cell_of s d.id d)) else view s j)
  unfolding view take_claim
  take_claim-view d e out s j h = grind (arith, map_laws, same_text_iff)

  claim_round-Claims :
      (d : Delivery) (out : List ClaimedDelivery) (s : Store) (j : Text)
      → Maps.get s.records d.id ≡ some d
      → Claims now owner destination lease
          (view s j)
          (view (claim_round now owner destination limit lease d out s).1 j)
  claim_round-Claims d out s j h = elim (claim_round_cases d out s) [
    | inl e ↦ inl (ap (λ (r : List ClaimedDelivery × Store). view r.1 j) e)
    | inr (e, _, p, q) ↦ rw q (
        rw (take_claim-view d e out s j h) (elim (Bool-cases (same_text d.id j)) [
          | inl y ↦ rw y (
              inr (
                cell_of s d.id d,
                rw (← eq_of_same_text d.id j y) (view-some s d.id d h),
                not-skips_claimable d out s p,
                refl,
              ))
          | inr n ↦ rw n (inl refl)
        ]))
  ]

  Claims-trans :
      (x y z : Option Cell)
      → 0 < lease
      → Claims now owner destination lease x y
      → Claims now owner destination lease y z
      → Claims now owner destination lease x z
  Claims-trans x y z l (inl e) q = rw (← e) q
  Claims-trans x y z l (inr (c, e, f, g)) (inl p) = inr (c, e, f, p ∙ g)
  Claims-trans x y z l (inr (c, e, f, g)) (inr (b, p, q, r)) = absurd (ground arith)

  -- On maps that hold each delivery once, under its own identifier, and with a lease that takes time:
  -- claiming leaves each delivery as it was, or the delivery was claimable, and has the contract's new
  -- claim, under a generation that is one higher.
  pub claim_pending-Claims :
      (s : Store) (j : Text)
      → Maps.Keyed (λ (d : Delivery). d.id) s.records
      → 0 < lease
      → Claims now owner destination lease
          (view s j)
          (view (claim_pending now owner destination limit lease s).1 j)
  unfolding claim_pending
  claim_pending-Claims s j k l =
      claim_rounds_inv (λ out t. Claims now owner destination lease (view s j) (view t j))
        (λ d out t h p. Claims-trans (view s j) (view t j) _ l p (claim_round-Claims d out t j h))
        (Maps.values s.records) [] s (Maps.All-values (λ (d : Delivery). d.id) s.records k)
        (inl refl)
