-- ===== src/Memory/Calls.antt =====
-- The calls of src/adapters/memoryPersistence.ts's repository, run on its maps.
use engineering_with_effect.Prelude.{Result, ok, err, Action}
use engineering_with_effect.Contract.Calls.{
  Call, records, retries, repairs, terminates, renews, completes, releases,
}
use engineering_with_effect.Errors.{RepositoryFailure}
use engineering_with_effect.Memory
use engineering_with_effect.Memory.{Store}

abbrev pub void : {A : Type 0} → Result RepositoryFailure A → Result RepositoryFailure (Unit {0})
void (ok a) = ok tt
void (err e) = err e

-- The renewed claim is dropped: it is the one that the store then holds.
unfoldable pub perform : Call → Action Store RepositoryFailure Unit
unfolding Memory.record_attempt Memory.retry_dead_letter Memory.repair_dead_letter
    Memory.terminate_dead_letter Memory.renew_claim Memory.complete_claim Memory.release_claim
perform (records now a) s = Memory.record_attempt now a s
perform (retries now id) s = Memory.retry_dead_letter now id s
perform (repairs now id route) s = Memory.repair_dead_letter now id route s
perform (terminates id) s = Memory.terminate_dead_letter id s
perform (renews now id claim lease) s =
    let (r, s') = Memory.renew_claim now id claim lease s in (void r, s')
perform (completes now id claim result) s = Memory.complete_claim now id claim result s
perform (releases id claim) s = Memory.release_claim id claim s
