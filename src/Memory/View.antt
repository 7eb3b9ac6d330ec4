-- ===== src/Memory/View.antt =====
-- The durable facts of one delivery in the maps, and the invariant that ties the maps together.
use engineering_with_effect.Prelude.{◌≡◌, ◌⊎◌, true, Option, none, some, [], arith, or_else, Text}
use engineering_with_effect.Prelude.Maps
use engineering_with_effect.Model.State.{Delivery, is_pending}
use engineering_with_effect.Model.Event.{DeliveryClaim}
use engineering_with_effect.Contract.{Cell}
use engineering_with_effect.Memory.{Store}

abbrev pub cell_of : Store → Text → Delivery → Cell
cell_of s id d = record {
  delivery = d;
  claim = Maps.get s.claims id;
  generation = or_else (Maps.get s.generations id) 0;
  route = Maps.get s.routes id;
  attempts = or_else (Maps.get s.attempts id) [];
  next_eligible_at = or_else (Maps.get s.next_eligible_at id) 0;
}

unfoldable pub view : Store → Text → Option Cell
view s id = elim (Maps.get s.records id) [ none ↦ none | some d ↦ some (cell_of s id d) ]

pub view-some :
    (s : Store) (id : Text) (d : Delivery)
    → Maps.get s.records id ≡ some d
    → view s id ≡ some (cell_of s id d)
unfolding view
view-some s id d h = ground arith

-- Only pending deliveries hold a claim, the claim has the delivery's generation, and a delivery
-- stands under its own identifier.
pub record IsSound (s : Store) (id : Text) : Type 0 where
  pub held :
      (Maps.get s.claims id ≡ none)
      ⊎ ((d : Delivery) × (Maps.get s.records id ≡ some d) × (is_pending d.state ≡ true))
  pub current :
      (k : DeliveryClaim)
      → Maps.get s.claims id ≡ some k
      → Maps.get s.generations id ≡ some k.generation
  pub named : (d : Delivery) → Maps.get s.records id ≡ some d → d.id ≡ id
