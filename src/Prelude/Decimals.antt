-- ===== src/Prelude/Decimals.antt =====
-- Numbers as decimal texts, as `String(n)` writes them.
use Prim.Native.Nat.{ℕ, zero, suc, ◌+◌, ◌-◌, ◌*◌, ◌/◌, ◌%◌, ◌^◌, ◌≤◌, ◌<◌}
use mathlib.Core.Path.{◌≡◌, refl, sym, ap, ◌∙◌}
use mathlib.Core.Logic.{inl, inr}
use mathlib.Core.List.{[], ◌∷◌, ◌++◌}
use native.Mathlib.Omega.{arith}
use engineering_with_effect.Prelude.Tests.{ltb, if◌then◌else◌, Bool-cases}
use engineering_with_effect.Prelude.Lists.{length, length-append}
use engineering_with_effect.Prelude.Texts.{Text}

-- `String(n)`, digit by digit; `fuel` digits are enough for a number below `10 ^ fuel`.
unfoldable decimal : ℕ → ℕ → Text
decimal zero n = []
decimal (suc fuel) n =
    let rest = decimal fuel (n / 10) in
    if ltb n 10 then (b'0' + n) ∷ [] else rest ++ (b'0' + n % 10) ∷ []

-- A safe integer has 16 digits at most.
unfoldable pub number_text : ℕ → Text
unfolding decimal
number_text n = decimal 16 n

length-decimal : (fuel n : ℕ) → length (decimal fuel n) ≤ fuel
unfolding decimal
length-decimal zero n = omega arith
length-decimal (suc fuel) n = ground (
  arith,
  length-decimal fuel (n / 10),
  length-append (decimal fuel (n / 10)) ((b'0' + n % 10) ∷ []),
)

pub length-number_text : (n : ℕ) → length (number_text n) ≤ 16
unfolding number_text
length-number_text n = length-decimal 16 n

-- The number that the digits of a text stand for, after a number that was read before.
value : ℕ → Text → ℕ
value acc [] = acc
value acc (c ∷ cs) = value (acc * 10 + (c - b'0')) cs

value-append : (acc : ℕ) (xs ys : Text) → value acc (xs ++ ys) ≡ value (value acc xs) ys
unfolding value
value-append acc [] ys = refl
value-append acc (x ∷ xs) ys = value-append (acc * 10 + (x - b'0')) xs ys

value-decimal : (fuel n : ℕ) → n < 10 ^ fuel → value 0 (decimal fuel n) ≡ n
unfolding value decimal
value-decimal zero n h = omega (arith, h)
value-decimal (suc fuel) n h = elim (Bool-cases (ltb n 10)) [
  | inl y ↦ rw y (omega arith)
  | inr k ↦
      let p : n / 10 < 10 ^ fuel = omega (arith, h) in
      let v = value-decimal fuel (n / 10) p in
      rw k (value-append 0 (decimal fuel (n / 10)) ((b'0' + n % 10) ∷ []) ∙ rw v (omega arith))
]

-- Different numbers have different texts.
pub number_text_injective :
    (m n : ℕ) → m < 10 ^ 16 → n < 10 ^ 16 → number_text m ≡ number_text n → m ≡ n
unfolding number_text
number_text_injective m n p q e =
    sym (value-decimal 16 m p) ∙ (ap (value 0) e ∙ value-decimal 16 n q)
