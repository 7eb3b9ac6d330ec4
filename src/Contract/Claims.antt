-- ===== src/Contract/Claims.antt =====
-- What claiming may do to one delivery.
use engineering_with_effect.Prelude.{ℕ, ◌≡◌, ◌⊎◌, true, Option, some}
use engineering_with_effect.Model.Ids.{WorkerId, DestinationId}
use engineering_with_effect.Contract.{Cell, is_claimable, claimed}

-- A delivery is left alone, or was claimable and has the new claim.
abbrev pub Claims : ℕ → WorkerId → DestinationId → ℕ → Option Cell → Option Cell → Type 0
Claims now owner destination lease before later =
    (later ≡ before)
    ⊎ ((c : Cell) × (before ≡ some c)
        × (is_claimable now destination c ≡ true)
        × (later ≡ some (claimed now owner lease c)))
