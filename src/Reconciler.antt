-- ===== src/Reconciler.antt =====
-- src/reconciler.ts: a pass claims a batch of pending deliveries and resumes each. The claiming and the
-- resuming are the repository's and the supervisor's. Up to `concurrency.global` deliveries are resumed
-- beside each other; here they begin in order, and what goes on beside one is part of its resuming.
pub mod Passes
use engineering_with_effect.Prelude.{ℕ, List, [], ◌∷◌, length, ok, err, Action}
use engineering_with_effect.Model.Results.{DeliveryResult}
use engineering_with_effect.Errors.{RepositoryFailure}
use engineering_with_effect.Services.{ClaimedDelivery}

module _ {S F : Type 0} (resume_claimed : ClaimedDelivery → Action S F DeliveryResult) where
  -- A delivery that fails is logged, and the others go on.
  unfoldable pub resume_all : List ClaimedDelivery → S → S
  resume_all [] s = s
  resume_all (c ∷ cs) s = resume_all cs (resume_claimed c s).1

  module _ (claim_pending : Action S RepositoryFailure (List ClaimedDelivery)) where
    -- `reconcileOnce`: the number of claims.
    unfoldable pub reconcile_once : Action S RepositoryFailure ℕ
    unfolding resume_all
    reconcile_once s =
        let (r, s') = claim_pending s in
        elim r [ err e ↦ (err e, s') | ok claimed ↦ (ok (length claimed), resume_all claimed s') ]

    -- `safePass`: a scan that fails has claimed nothing.
    unfoldable safe_pass : S → ℕ × S
    unfolding reconcile_once
    safe_pass s = let (r, s') = reconcile_once s in (elim r [ err e ↦ 0 | ok n ↦ n ], s')
