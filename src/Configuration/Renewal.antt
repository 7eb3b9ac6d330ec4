-- ===== src/Configuration/Renewal.antt =====
-- src/configuration.ts with the contract: renewals come before the lease runs out.
use engineering_with_effect.Prelude.{ℕ, ◌+◌, ◌≡◌, some, arith, same_text_refl, ok}
use engineering_with_effect.Model.Ids.{DeliveryId}
use engineering_with_effect.Model.Event.{DeliveryClaim}
use engineering_with_effect.Contract.{Cell}
use engineering_with_effect.Contract.Calls.{renews, transition}
use engineering_with_effect.Configuration.{DeliveryRecovery, decode_recovery}

-- Under an accepted recovery policy, a claim on a pending delivery that has been renewed at `now` is
-- renewed again one interval later: its lease has not run out by then, and only the lease changes.
pub renewed_again :
    (v r : DeliveryRecovery) (now : ℕ) (id : DeliveryId) (claim : DeliveryClaim) (c c' : Cell)
    → decode_recovery v ≡ some r
    → transition (renews now id claim r.claim_lease_duration) (some c) ≡ ok c'
    → (let later = now + r.claim_renew_interval in
        let renewed : DeliveryClaim = record claim {
          lease_expires_at_millis = now + r.claim_lease_duration;
        } in
        transition (renews later id renewed r.claim_lease_duration) (some c')
        ≡ ok (record c' {
          claim = some (record claim { lease_expires_at_millis = later + r.claim_lease_duration });
        }))
unfolding transition decode_recovery
renewed_again v r now id claim c c' d h = ground (arith, same_text_refl claim.owner_id)
