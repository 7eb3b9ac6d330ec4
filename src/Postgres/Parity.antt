-- ===== src/Postgres/Parity.antt =====
-- The two adapters, src/adapters/memoryPersistence.ts and src/adapters/postgres/deliveryRepository.ts,
-- cannot be told apart by the calls of the contract.
use engineering_with_effect.Prelude.{◌≡◌, Bool, List, [], ◌∷◌, All, Text}
use engineering_with_effect.Model.Ids.{DeliveryId}
use engineering_with_effect.Contract.Calls.{Call}
use engineering_with_effect.Contract.Parity.{play, Matches, play_parity}
use engineering_with_effect.Memory.{Store}
use engineering_with_effect.Memory.Calls
use engineering_with_effect.Memory.History
use engineering_with_effect.Memory.History.{memory}
use engineering_with_effect.Postgres.Tables.{Tables}
use engineering_with_effect.Postgres.View
use engineering_with_effect.Postgres.View.{IsRequest}
use engineering_with_effect.Postgres.Entering as Sql
use engineering_with_effect.Postgres.History.{postgres}

admitted : (cs : List Call) → All (λ c. Unit {0}) cs
admitted [] = tt
admitted (c ∷ cs) = (tt, admitted cs)

-- From stores that show the same deliveries, every sequence of admissible calls gives the same
-- answers, one by one, in memory and over SQL, and leaves stores that show the same deliveries.
pub adapters_agree :
    (collates : Text → Text → Bool) (locked : DeliveryId → Bool) (cs : List Call) (s : Store)
    (t : Tables)
    → History.IsValid s
    → Sql.IsValid t
    → All IsRequest cs
    → Matches memory (postgres collates locked) s t
    → ((play Calls.perform cs s).0 ≡ (play View.perform cs t).0)
      × Matches memory
          (postgres collates locked)
          (play Calls.perform cs s).1
          (play View.perform cs t).1
adapters_agree collates locked cs s t v w q m =
    play_parity memory (postgres collates locked) cs s t v w (admitted cs) q m
