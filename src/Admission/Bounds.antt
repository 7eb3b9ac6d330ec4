-- ===== src/Admission/Bounds.antt =====
-- src/deliveryAdmission.ts: the limits hold and the counters are exact, whatever the order in which
-- deliveries come and go.
use engineering_with_effect.Prelude.{
  ℕ, ◌+◌, ◌-◌, ◌<◌, ◌≡◌, sym, subst, ◌∙◌, inl, inr, Option, none, some, List, [], ◌∷◌, arith,
  if◌then◌else◌, Bool-cases, or_else, length, same_text, same_text_refl, eq_of_same_text,
  same_text_iff, Result, ok, err,
}
use engineering_with_effect.Prelude.Maps
use engineering_with_effect.Prelude.Maps.{map_laws}
use engineering_with_effect.Model.Ids.{DestinationId}
use engineering_with_effect.Admission.{
  Semaphores, Capacities, Limit, global_admission, destination_admission, Overloaded, Counts, up,
  down, adjust, Gate, semaphore_for, overload, begin_admit,
}

-- How many of the running deliveries are for a destination.
unfoldable pub count_of : DestinationId → List DestinationId → ℕ
count_of d [] = 0
count_of d (x ∷ xs) = let rest = count_of d xs in if same_text x d then rest + 1 else rest

-- One delivery for the destination less.
unfoldable pub without : DestinationId → List DestinationId → List DestinationId
without d [] = []
without d (x ∷ xs) = let rest = without d xs in if same_text x d then xs else x ∷ rest

pub adjust-up :
    (d j : DestinationId) (c : Counts)
    → or_else (Maps.get (adjust d up c).by_destination j) 0 ≡ (
        if same_text d j
        then or_else (Maps.get c.by_destination d) 0 + 1
        else or_else (Maps.get c.by_destination j) 0)
unfolding adjust
adjust-up d j c = grind (arith, map_laws)

pub adjust-down :
    (d j : DestinationId) (c : Counts)
    → or_else (Maps.get (adjust d down c).by_destination j) 0 ≡ (
        if same_text d j
        then or_else (Maps.get c.by_destination d) 0 - 1
        else or_else (Maps.get c.by_destination j) 0)
unfolding adjust
adjust-down d j c = grind (arith, map_laws)

pub count_of-without :
    (d j : DestinationId) (xs : List DestinationId)
    → 0 < count_of d xs
    → count_of j (without d xs) ≡ (if same_text d j then count_of d xs - 1 else count_of j xs)
unfolding count_of without
count_of-without d j [] h = absurd (omega arith)
count_of-without d j (x ∷ xs) h = elim (Bool-cases (same_text x d)) [
  | inl y ↦ ground (arith, eq_of_same_text x d y, same_text_iff d j, same_text_iff x j)
  | inr n ↦ ground (
    arith,
    count_of-without d j xs (ground arith),
    same_text_iff d j,
    same_text_iff x j,
    same_text_iff x d,
  )
]

pub length-without :
    (d : DestinationId) (xs : List DestinationId)
    → 0 < count_of d xs
    → length (without d xs) + 1 ≡ length xs
unfolding count_of without
length-without d [] h = absurd (omega arith)
length-without d (x ∷ xs) h = elim (Bool-cases (same_text x d)) [
  | inl y ↦ ground arith
  | inr n ↦ ground (arith, length-without d xs (ground arith))
]

module _ (sems : Semaphores) (k : Capacities) where
  open sems use {Semaphore, available, make, take_one, release_one}

  -- The permits that are left for a destination; one without a semaphore has them all.
  abbrev pub free_in : Option Semaphore → ℕ
  free_in none = k.per_destination
  free_in (some s) = available s

  abbrev pub free : Gate sems → DestinationId → ℕ
  free g d = free_in (Maps.get g.destinations d)

  abbrev Answer : Type 0
  Answer = Result Overloaded (Unit {0}) × Gate sems

  abbrev capacity_of : Limit → ℕ
  capacity_of global_admission = k.total
  capacity_of destination_admission = k.per_destination

  pub record IsRefused (d : DestinationId) (limit : Limit) (g : Gate sems) (r : Answer)
      : Type 0 where
    pub answer :
        r.0
        ≡ err (record { admission_capacity = capacity_of limit; destination_id = d; limit = limit })
    pub counts : r.1.counts ≡ g.counts
    pub shared : available r.1.shared ≡ available g.shared
    pub own : (j : DestinationId) → free r.1 j ≡ free g j
    pub rejected : r.1.rejected ≡ g.rejected + 1

  pub record IsAdmitted (d : DestinationId) (g : Gate sems) (r : Answer) : Type 0 where
    pub answer : r.0 ≡ ok tt
    pub counts : r.1.counts ≡ adjust d up g.counts
    pub shared : available r.1.shared + 1 ≡ available g.shared
    pub own :
        (j : DestinationId)
        → (if same_text d j then free r.1 d + 1 ≡ free g d else free r.1 j ≡ free g j)
    pub rejected : r.1.rejected ≡ g.rejected

  module _ (d : DestinationId) (g : Gate sems) where
    own_semaphore : Semaphore
    own_semaphore = (semaphore_for sems g.destinations d k.per_destination).0

    registry : Maps.Map Semaphore
    registry = (semaphore_for sems g.destinations d k.per_destination).1

    own_semaphore-free : available own_semaphore ≡ free g d
    unfolding own_semaphore semaphore_for
    own_semaphore-free = ground (arith, sems.available-make k.per_destination)

    -- Registering a semaphore changes no destination's permits.
    registry-free : (j : DestinationId) → free_in (Maps.get registry j) ≡ free g j
    unfolding registry semaphore_for
    registry-free j = grind (arith, map_laws, same_text_iff, sems.available-make)

    -- Where the registered semaphore of the destination is replaced.
    replaced-free :
        (s : Semaphore) (j : DestinationId)
        → free_in (Maps.get (Maps.set registry d s) j)
          ≡ (if same_text d j then available s else free g j)
    replaced-free s j = ground (arith, Maps.get-set registry d j s, registry-free j)

    pub begin_admit-IsRefused-own :
        free g d ≡ 0 → IsRefused d destination_admission g (begin_admit sems k d g)
    unfolding begin_admit overload own_semaphore registry
    begin_admit-IsRefused-own h =
        let e = sems.take_one-empty own_semaphore (own_semaphore-free ∙ h) in
        record {
          answer = ground arith;
          counts = ground arith;
          shared = ground arith;
          own = λ j. ground (arith, registry-free j);
          rejected = ground arith;
        }

    pub begin_admit-IsRefused-shared :
        0 < free g d
        → available g.shared ≡ 0
        → IsRefused d global_admission g (begin_admit sems k d g)
    unfolding begin_admit overload own_semaphore registry
    begin_admit-IsRefused-shared p h =
        let (t, e, q) =
          sems.take_one-left own_semaphore (subst (λ (n : ℕ). 0 < n) (sym own_semaphore-free) p) in
        let f = sems.take_one-empty g.shared h in
        let w = sems.available-release_one t in
        record {
          answer = ground arith;
          counts = ground arith;
          shared = ground arith;
          own = λ j.
              ground
                (arith, replaced-free (release_one t) j, own_semaphore-free, same_text_iff d j);
          rejected = ground arith;
        }

    pub begin_admit-IsAdmitted :
        0 < free g d → 0 < available g.shared → IsAdmitted d g (begin_admit sems k d g)
    unfolding begin_admit overload own_semaphore registry
    begin_admit-IsAdmitted p h =
        let (t, e, q) =
          sems.take_one-left own_semaphore (subst (λ (n : ℕ). 0 < n) (sym own_semaphore-free) p) in
        let (u, f, w) = sems.take_one-left g.shared h in
        record {
          answer = ground arith;
          counts = ground arith;
          shared = ground arith;
          own = λ j.
              ground
                (arith, replaced-free t j, replaced-free t d, own_semaphore-free, same_text_refl d);
          rejected = ground arith;
        }
