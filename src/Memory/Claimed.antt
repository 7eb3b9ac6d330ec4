-- ===== src/Memory/Claimed.antt =====
-- What `claimPending` returns: the entries of its loop, against the maps that it leaves.
use engineering_with_effect.Prelude.{
  ℕ, ◌+◌, ◌≤◌, ◌<◌, ◌≡◌, refl, sym, subst, inl, inr, true, false, some, List, [], ◌∷◌, ◌++◌, arith,
  Bool-cases, length, length-append, All, All-append, All-map, same_text, same_text_refl,
  eq_of_same_text, ok,
}
use engineering_with_effect.Prelude.Maps
use engineering_with_effect.Model.Ids.{DestinationId, WorkerId}
use engineering_with_effect.Model.Event.{RelayEvent}
use engineering_with_effect.Model.State.{Delivery, is_pending}
use engineering_with_effect.Services.{ClaimedDelivery}
use engineering_with_effect.Memory.{Store}
use engineering_with_effect.Memory.Claims.{skips, take_claim, claim_round, claim_pending}
use engineering_with_effect.Memory.Claiming.{claim_round_cases, claim_rounds_inv}

module _ (now : ℕ) (owner : WorkerId) (destination : DestinationId) (limit lease : ℕ) where
  -- An entry of the result: its delivery is stored as it says, with its claim, its event, and the
  -- terms of the request.
  pub record IsEntry (s : Store) (e : ClaimedDelivery) : Type 0 where
    pub stored : Maps.get s.records e.delivery.id ≡ some e.delivery
    pub held : Maps.get s.claims e.delivery.id ≡ some e.claim
    pub numbered : Maps.get s.generations e.delivery.id ≡ some e.claim.generation
    pub event : Maps.get s.events e.delivery.event_id ≡ some e.event
    pub route : Maps.get s.routes e.delivery.id ≡ e.route
    pub owner_id : e.claim.owner_id ≡ owner
    pub expires : e.claim.lease_expires_at_millis ≡ now + lease
    pub pending : is_pending e.delivery.state ≡ true
    pub addressed : same_text e.delivery.destination_id destination ≡ true

  module _ (d : Delivery) (v : RelayEvent) (out : List ClaimedDelivery) (s : Store) where
    taken : Store
    taken = (take_claim now owner destination limit lease d v out s).1

    taken-IsEntry :
        Maps.get s.records d.id ≡ some d
        → Maps.get s.events d.event_id ≡ some v
        → skips now owner destination limit lease d out s ≡ false
        → (e : ClaimedDelivery) × ((take_claim now owner destination limit lease d v out s).0
            ≡ out ++ e ∷ [])
          × IsEntry taken e
          × (length out < limit)
    unfolding take_claim skips taken
    taken-IsEntry h k p = (
      _,
      refl,
      record {
        stored = h;
        held = rw Maps.get-set (rw same_text_refl);
        numbered = rw Maps.get-set (rw same_text_refl);
        event = k;
        route = refl;
        owner_id = refl;
        expires = refl;
        pending = ground arith;
        addressed = ground arith;
      },
      ground arith,
    )

    take_claim-IsEntry :
        (e : ClaimedDelivery)
        → 0 < lease
        → skips now owner destination limit lease d out s ≡ false
        → IsEntry s e
        → IsEntry taken e
    unfolding take_claim skips taken
    take_claim-IsEntry e l p i = elim (Bool-cases (same_text d.id e.delivery.id)) [
      | inl y ↦ absurd (ground (arith, eq_of_same_text d.id e.delivery.id y))
      | inr n ↦ record {
        stored = i.stored;
        held = rw Maps.get-set (rw n i.held);
        numbered = rw Maps.get-set (rw n i.numbered);
        event = i.event;
        route = i.route;
        owner_id = i.owner_id;
        expires = i.expires;
        pending = i.pending;
        addressed = i.addressed;
      }
    ]

  abbrev Entries : List ClaimedDelivery → Store → Type 0
  Entries out s = All (IsEntry s) out × (length out ≤ limit)

  claim_round-Entries :
      (d : Delivery) (out : List ClaimedDelivery) (s : Store)
      → 0 < lease
      → Maps.get s.records d.id ≡ some d
      → Entries out s
      → (let r = claim_round now owner destination limit lease d out s in Entries r.0 r.1)
  unfolding take_claim taken
  claim_round-Entries d out s l h i =
      elim (claim_round_cases now owner destination limit lease d out s) [
        | inl e ↦ rw e i
        | inr (v, k, p, q) ↦
            let (e, o, n, b) = taken-IsEntry d v out s h k p in
            rw q (
              subst (λ x. Entries x (taken d v out s)) (sym o)
                (
                  All-append (IsEntry (taken d v out s)) out (e ∷ [])
                      (All-map (λ x w. take_claim-IsEntry d v out s x l p w) out i.0) (n, tt),
                  omega (arith, length-append {0} out (e ∷ [])),
                ))
      ]

  -- On maps that hold each delivery once, under its own identifier, and with a lease that takes time:
  -- claiming succeeds with at most `limit` entries, and each entry is a pending delivery for the
  -- destination as it is stored, with its event, its route, and the claim that it now has, under the
  -- owner and the lease of the request.
  pub claim_pending-IsEntry :
      (s : Store)
      → Maps.Keyed (λ (d : Delivery). d.id) s.records
      → 0 < lease
      → (out : List ClaimedDelivery) × ((claim_pending now owner destination limit lease s).0
          ≡ ok out)
        × All (IsEntry (claim_pending now owner destination limit lease s).1) out
        × (length out ≤ limit)
  unfolding claim_pending
  claim_pending-IsEntry s k l =
      let (a, b) =
        claim_rounds_inv now owner destination limit lease Entries
          (λ d out t h p. claim_round-Entries d out t l h p) (Maps.values s.records) [] s
          (Maps.All-values (λ (d : Delivery). d.id) s.records k) (tt, omega arith) in
      (_, refl, a, b)
