-- ===== src/Supervisor/Offers.antt =====
-- src/deliverySupervisor.ts: an offer ends with the job in the queue or the claim given up.
use engineering_with_effect.Prelude.{
  ℕ, ◌+◌, ◌≤◌, ◌≡◌, refl, sym, ap, ◌∙◌, inl, inr, false, some, [], ◌∷◌, ◌++◌, arith, ltb,
  Bool-cases, length, length-append, Result, ok, err, Result-cases,
}
use engineering_with_effect.Model.Event.{Destination}
use engineering_with_effect.Services.{ClaimedDelivery}
use engineering_with_effect.Contract.{Cell, fits, answer}
use engineering_with_effect.Contract.Calls.{releases, transition}
use engineering_with_effect.Contract.Repository.{Repository}
use engineering_with_effect.Admission.{Semaphores, Capacities, global_admission, overload}
use engineering_with_effect.Worker.Sessions.{Admits}
use engineering_with_effect.Worker.Jobs.{release_unfits}
use engineering_with_effect.Supervisor
use engineering_with_effect.Supervisor.{
  OfferFailure, claim_failed, overloaded, offer_claimed, job_of,
}

module _ (repo : Repository) (admits : Admits repo) (sems : Semaphores) (k : Capacities) where
  open repo use {State, IsValid, view, perform}

  abbrev Supervised : Type 0
  Supervised = Supervisor.Supervisor repo sems k

  -- The job is the queue's last, and nothing else has changed.
  abbrev Queued : ClaimedDelivery → Destination → Supervised → Supervised → Type 0
  Queued claimed d s t =
      (t ≡ record s { requests = s.requests ++ job_of claimed d ∷ [] })
      × (length t.requests ≤ k.total)

  -- The queue was full and is as it was, the gate too but for the number of rejections, and nobody holds the delivery under the claim.
  pub record IsFreed (claimed : ClaimedDelivery) (s t : Supervised) (rejections : ℕ) : Type 0 where
    pub full : k.total ≤ length s.requests
    pub requests : t.requests ≡ s.requests
    pub admission :
        t.admission ≡ record s.admission { rejected = s.admission.rejected + rejections }
    pub unheld :
        (c : Cell)
        → view t.store claimed.delivery.id ≡ some c
        → fits c.claim claimed.claim.owner_id claimed.claim.generation ≡ false

  abbrev pub Handled :
      ClaimedDelivery
      → Destination
      → Supervised
      → Result OfferFailure (Unit {0}) × Supervised
      → Type 0
  Handled claimed d s (ok u, t) = Queued claimed d s t
  Handled claimed d s (err (overloaded o), t) =
      (o ≡ record { admission_capacity = k.total; destination_id = d.id; limit = global_admission })
      × IsFreed claimed s t 1
  Handled claimed d s (err (claim_failed e), t) =
      IsFreed claimed s t 0
      × (answer (
            transition (releases claimed.delivery.id claimed.claim)
              (view s.store claimed.delivery.id))
          ≡ err e)

  released-unheld :
      (claimed : ClaimedDelivery) (s : State) (c : Cell)
      → IsValid s
      → view (perform (releases claimed.delivery.id claimed.claim) s).1 claimed.delivery.id ≡ some c
      → fits c.claim claimed.claim.owner_id claimed.claim.generation ≡ false
  released-unheld claimed s c v h =
      let id = claimed.delivery.id in
      let acted =
        repo.acts (releases id claimed.claim) s v (admits.releases_any id claimed.claim) in
      release_unfits id claimed.claim (view s id) c (λ b w. repo.formed s id b v w) (sym acted ∙ h)

  -- In any valid repository, an offered delivery is queued as the last job, within the capacity, and
  -- nothing else changes; or the queue was full and stays as it is, nobody holds the delivery under the
  -- offered claim, and the offer fails with an overload that is counted once, or with the failure that
  -- the contract answers to the release.
  pub offer_claimed-Handled :
      (claimed : ClaimedDelivery) (d : Destination) (s : Supervised)
      → IsValid s.store
      → Handled claimed d s (offer_claimed repo sems k claimed d s)
  unfolding offer_claimed overload
  offer_claimed-Handled claimed d s v =
      let id = claimed.delivery.id in
      elim (Bool-cases (ltb (length s.requests) k.total)) [
        | inl y ↦ rw y (refl, ground (arith, length-append s.requests (job_of claimed d ∷ [])))
        | inr n ↦
            let same =
              repo.answers (releases id claimed.claim) s.store v
                (admits.releases_any id claimed.claim) in
            elim (Result-cases (perform (releases id claimed.claim) s.store).0) [
              | inl (u, h) ↦
                  rw (n, h)
                    (
                      refl,
                      record {
                        full = ground arith;
                        requests = refl;
                        admission = refl;
                        unheld = λ c. released-unheld claimed s.store c v;
                      },
                    )
              | inr (e, h) ↦
                  rw (n, h)
                    (
                      record {
                        full = ground arith;
                        requests = refl;
                        admission = ap (λ x. record s.admission { rejected = x }) (omega arith);
                        unheld = λ c. released-unheld claimed s.store c v;
                      },
                      sym same ∙ h,
                    )
            ]
      ]

  -- An offer keeps the store valid.
  pub offer_claimed-IsValid :
      (claimed : ClaimedDelivery) (d : Destination) (s : Supervised)
      → IsValid s.store
      → IsValid (offer_claimed repo sems k claimed d s).1.store
  unfolding offer_claimed
  offer_claimed-IsValid claimed d s v =
      let call = releases claimed.delivery.id claimed.claim in
      elim (Bool-cases (ltb (length s.requests) k.total)) [
        | inl y ↦ rw y v
        | inr n ↦ elim (Result-cases (perform call s.store).0) [
          | inl (u, h) ↦ rw (n, h) (repo.perform-valid call s.store v)
          | inr (e, h) ↦ rw (n, h) (repo.perform-valid call s.store v)
        ]
      ]
