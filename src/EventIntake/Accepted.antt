-- ===== src/EventIntake/Accepted.antt =====
-- src/eventIntake.ts with the in-memory store and the supervisor: a first submission, from its key to
-- the queue.
use engineering_with_effect.Prelude.{
  ℕ, ◌≡◌, refl, ap, ◌∙◌, inl, inr, Bool, true, false, Option, none, some, [], ◌∷◌, ◌++◌, arith, ltb,
  if◌then◌else◌, Bool-cases, or_else, length, Text, codes, same_text_refl, Result, ok, Action,
}
use engineering_with_effect.Prelude.Maps
use engineering_with_effect.Prelude.Maps.{map_laws}
use engineering_with_effect.Model.Event.{EventSubmission}
use engineering_with_effect.Errors.{RepositoryFailure, IntakeFailure}
use engineering_with_effect.Services.{
  ClaimedDelivery, IntakeRecord, IntakeDecision, IntakeDecisionFields,
}
use engineering_with_effect.Contract
use engineering_with_effect.Contract.{Cell, after, answer}
use engineering_with_effect.Contract.Calls.{releases, transition}
use engineering_with_effect.Memory.{Store}
use engineering_with_effect.Memory.Intake
use engineering_with_effect.Memory.View.{view}
use engineering_with_effect.Memory.Calls.{perform}
use engineering_with_effect.Memory.History.{memory, accepts, enter, enter-IsValid}
use engineering_with_effect.Admission.{Semaphores, Capacities, overload, global_admission}
use engineering_with_effect.Worker.{Job}
use engineering_with_effect.Supervisor
use engineering_with_effect.Supervisor.{enqueue_claimed, offer_claimed, job_of, destination_for}
use engineering_with_effect.EventIntake.{
  Settings, normalized, intake_record, accept, store_and_hand_over,
}
use engineering_with_effect.EventIntake.Replays.{accept-stores, store-accepted}

-- The delivery of an accepted intake: pending, under its first claim and its route.
abbrev accepted_cell : ℕ → IntakeRecord → Store → Cell
accepted_cell now r s = record {
  delivery = Intake.pending_delivery r.delivery_id r.event r.route.destination_id;
  claim = some (Intake.first_claim now r.claim);
  generation = 1;
  route = some r.route;
  attempts = or_else (Maps.get s.attempts r.delivery_id) [];
  next_eligible_at = r.accepted_at_millis;
}

accept-view :
    (now : ℕ) (r : IntakeRecord) (s : Store)
    → Maps.get s.intakes r.ingestion_key ≡ none
    → view (Intake.accept now r s).1 r.delivery_id ≡ some (accepted_cell now r s)
unfolding Intake.accept Intake.accept_new Intake.pending_delivery Intake.first_claim view
accept-view now r s n =
    let new : Intake.accept now r s ≡ Intake.accept_new now r s = rw (Intake.accept, n) refl in
    rw new (grind (arith, map_laws, same_text_refl))

-- A claim that was just given can be given up.
released :
    (now : ℕ) (r : IntakeRecord) (s : Store)
    → transition
        (releases r.delivery_id (Intake.first_claim now r.claim))
        (some (accepted_cell now r s))
      ≡ ok (record (accepted_cell now r s) { claim = none })
unfolding transition Contract.release_claim Intake.pending_delivery Intake.first_claim
released now r s = ground (arith, same_text_refl (Intake.first_claim now r.claim).owner_id)

module _ (sems : Semaphores) (limits : Capacities) where
  abbrev Supervised : Type 0
  Supervised = Supervisor.Supervisor memory sems limits

  -- The store's part of the supervisor's world.
  abbrev pub store_accept :
      ℕ → IntakeRecord → Supervised → Result IntakeFailure IntakeDecision × Supervised
  store_accept now r s =
      let (d, store) = Intake.accept now r s.store in (d, record s { store = store })

  abbrev has_room : Supervised → Bool
  has_room s = ltb (length s.requests) limits.total

  -- What an intake leaves, with a job for the queue where that had room.
  pub record IsTaken (now : ℕ) (r : IntakeRecord) (job : Job) (s t : Supervised) : Type 0 where
    pub shown :
        view t.store r.delivery_id
        ≡ some (
            if has_room s
            then accepted_cell now r s.store
            else record (accepted_cell now r s.store) { claim = none })
    pub requests : t.requests ≡ (if has_room s then s.requests ++ job ∷ [] else s.requests)

  module _ {C : Type 0} (decode : C → Result Text EventSubmission) (digest : Text → Option Text)
      (k : Settings) where
    abbrev enqueue : ClaimedDelivery → Action Supervised RepositoryFailure (Unit {0})
    enqueue = enqueue_claimed memory sems limits k.destination

    enqueued :
        (c : ClaimedDelivery) (s : Supervised)
        → has_room s ≡ true
        → enqueue c s ≡ (
          ok tt,
          record s { requests = s.requests ++ job_of c (destination_for c k.destination) ∷ [] },
        )
    unfolding enqueue_claimed offer_claimed
    enqueued c s y = rw y refl

    given_up :
        (c : ClaimedDelivery) (s : Supervised)
        → has_room s ≡ false
        → (perform (releases c.delivery.id c.claim) s.store).0 ≡ ok tt
        → enqueue c s ≡ (
          ok tt,
          record s {
            store = (perform (releases c.delivery.id c.claim) s.store).1;
            admission =
                (overload sems limits
                  (destination_for c k.destination).id
                  global_admission
                  s.admission).1;
          },
        )
    unfolding enqueue_claimed offer_claimed overload
    given_up c s n e = rw (enqueue_claimed, offer_claimed, n, e) refl

    -- The new delivery as it is handed over, and the supervisor's world that it is handed over in.
    abbrev pub claimed_of : ℕ → IntakeRecord → ClaimedDelivery
    claimed_of now r = record {
      claim = Intake.first_claim now r.claim;
      claim_lag_millis = 0;
      delivery = Intake.pending_delivery r.delivery_id r.event r.route.destination_id;
      event = r.event;
      next_attempt_ordinal = 1;
      route = some r.route;
    }

    abbrev stored : ℕ → IntakeRecord → Supervised → Supervised
    stored now r s = record s { store = (Intake.accept now r s.store).1 }

    abbrev fields_of : IntakeRecord → IntakeDecisionFields
    fields_of r = record {
      event = r.event;
      delivery = Intake.pending_delivery r.delivery_id r.event r.route.destination_id;
      route = r.route;
      accepted_at_millis = r.accepted_at_millis;
    }

    handed :
        (now : ℕ) (r : IntakeRecord) (s t : Supervised)
        → Maps.get s.store.intakes r.ingestion_key ≡ none
        → enqueue (claimed_of now r) (stored now r s) ≡ (ok tt, t)
        → store_and_hand_over decode digest (store_accept now) enqueue k r s ≡ (
          ok (record {
            event_id = r.event.id;
            delivery_id = r.delivery_id;
            accepted_at_millis = r.accepted_at_millis;
            replayed = false;
          }),
          t,
        )
    unfolding Intake.accept Intake.accept_new Intake.pending_delivery Intake.first_claim
    handed now r s t n e =
        let a : Intake.accept now r s.store ≡ Intake.accept_new now r s.store =
          rw (Intake.accept, n) refl in
        store-accepted decode digest (store_accept now) enqueue k r s (stored now r s) t
          (fields_of r) (Intake.first_claim now r.claim)
          (ap (λ (o : Result IntakeFailure IntakeDecision). (o, stored now r s)) (ap (λ x. x.0) a))
          e

    -- Over a valid in-memory store, a submission under a new key that decodes, and whose digest and
    -- identifiers could be made, is always accepted, with the new identifiers and the time: its delivery
    -- is pending under its route, and either its job is the queue's last, under the first claim, or the
    -- queue was full and is as it was, and the delivery is held by nobody, so that a scan can claim it.
    pub accept-IsTaken :
        (u v : Text) (now : ℕ) (key : Text) (candidate : C) (s : Supervised)
        (submission : EventSubmission) (print : Text)
        → memory.IsValid s.store
        → Maps.get s.store.intakes key ≡ none
        → decode candidate ≡ ok submission
        → digest (normalized submission) ≡ some print
        → (let r =
              intake_record k key submission print (codes "evt-" ++ u) (codes "dlv-" ++ v) now in
            let x =
              accept decode digest
                (store_accept now)
                (enqueue_claimed memory sems limits k.destination)
                k
                (some u)
                (some v)
                now
                key
                candidate
                s in
            (x.0
              ≡ ok (record {
                event_id = codes "evt-" ++ u;
                delivery_id = codes "dlv-" ++ v;
                accepted_at_millis = now;
                replayed = false;
              }))
            × IsTaken now r (job_of (claimed_of now r) k.destination) s x.1)
    unfolding destination_for Intake.accept enter
    accept-IsTaken u v now key candidate s submission print valid n d p =
        let r = intake_record k key submission print (codes "evt-" ++ u) (codes "dlv-" ++ v) now in
        let c = claimed_of now r in
        let e =
          accept-stores decode digest (store_accept now) enqueue k u v now key candidate s
            submission print d p in
        let shown = accept-view now r s.store n in
        let valid' = enter-IsValid (accepts now r) s.store valid in
        elim (Bool-cases (has_room s)) [
          | inl y ↦
              let h = handed now r s _ n (enqueued c (stored now r s) y) in
              rw (e, h) (refl, record { shown = rw y shown; requests = rw y refl })
          | inr m ↦
              let answered =
                memory.answers (releases r.delivery_id c.claim) (stored now r s).store valid' tt in
              let acted =
                memory.acts (releases r.delivery_id c.claim) (stored now r s).store valid' tt in
              let ends = released now r s.store in
              let released' : (perform (releases r.delivery_id c.claim) (stored now r s).store).0
                  ≡ ok tt =
                answered ∙ rw (shown, ends) refl in
              let h = handed now r s _ n (given_up c (stored now r s) m released') in
              rw (e, h)
                (
                  refl,
                  record { shown = rw m (acted ∙ rw (shown, ends) refl); requests = rw m refl },
                )
        ]
