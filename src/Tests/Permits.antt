-- ===== src/Tests/Permits.antt =====
-- Semaphores of the host as numbers of permits.
use engineering_with_effect.Prelude.{ℕ, zero, suc, ◌+◌, ◌<◌, ◌≡◌, refl, Option, none, some, arith}
use engineering_with_effect.Admission.{Semaphores, Capacities}

-- A semaphore as the number of its permits.
unfoldable pub take_permit : ℕ → Option ℕ
take_permit zero = none
take_permit (suc n) = some n

pub take_permit-empty : (n : ℕ) → n ≡ 0 → take_permit n ≡ none
unfolding take_permit
take_permit-empty zero h = refl
take_permit-empty (suc n) h = absurd (omega arith)

pub take_permit-left : (n : ℕ) → 0 < n → (t : ℕ) × (take_permit n ≡ some t) × (t + 1 ≡ n)
unfolding take_permit
take_permit-left zero h = absurd (omega arith)
take_permit-left (suc n) h = (n, refl, omega arith)

abbrev pub permits : Semaphores
permits = record {
  Semaphore = ℕ;
  make = λ n. n;
  available = λ n. n;
  take_one = take_permit;
  release_one = λ n. n + 1;
  available-make = λ n. refl;
  take_one-empty = take_permit-empty;
  take_one-left = take_permit-left;
  available-release_one = λ n. refl;
}

abbrev pub capacities : Capacities
capacities = record { total = 2; per_destination = 1 }
