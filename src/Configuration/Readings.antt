-- ===== src/Configuration/Readings.antt =====
-- src/configuration.ts: what a reading of the environment gives, if it gives anything.
use engineering_with_effect.Prelude.{
  ◌<◌, ◌≡◌, refl, subst, inl, inr, Bool, true, false, Option, none, some, arith, ltb, if◌then◌else◌,
  Bool-cases, Option-cases, Text,
}
use engineering_with_effect.Prelude.Maps
use engineering_with_effect.Model.Outcome.{ℤ, pos, negsuc}
use engineering_with_effect.Configuration.Variables.{
  ◌>>=◌, Duration, infinite, millis, positive, positive_finite, setting,
}

-- What a reading gives, if it gives anything, has the property.
abbrev pub Ensures : {A : Type 0} → (A → Type 0) → Option A → Type 0
Ensures P none = Unit
Ensures P (some a) = P a

pub bind-Ensures :
    {A B : Type 0}
    → (P : A → Type 0) (Q : B → Type 0) (m : Option A) (f : A → Option B) → Ensures P m
    → ((a : A) → P a → Ensures Q (f a))
    → Ensures Q (m >>= f)
bind-Ensures P Q none f p q = tt
bind-Ensures P Q (some a) f p q = q a p

pub given : {A : Type 0} → (P : A → Type 0) (m : Option A) (a : A) → Ensures P m → m ≡ some a → P a
given P m a p h = subst (Ensures P) h p

pub then-Ensures :
    {A B : Type 0}
    → (Q : B → Type 0) (m : Option A) (f : A → Option B) → ((a : A) → Ensures Q (f a))
    → Ensures Q (m >>= f)
then-Ensures Q none f q = tt
then-Ensures Q (some a) f q = q a

pub positive-Ensures : (z : ℤ) → Ensures (λ n. 0 < n) (positive z)
positive-Ensures (pos m) = elim (Bool-cases (ltb 0 m)) [
  | inl y ↦ rw y (ground arith)
  | inr n ↦ rw n tt
]
positive-Ensures (negsuc m) = tt

pub positive_finite-Ensures : (d : Duration) → Ensures (λ n. 0 < n) (positive_finite d)
positive_finite-Ensures infinite = tt
positive_finite-Ensures (millis t) = positive-Ensures t

-- A setting has what its default and its decoder have.
pub setting-Ensures :
    {A : Type 0}
    → (P : A → Type 0) (env : Maps.Map Text) (decode : Text → Option A) (name : Text)
      (default : Option A)
    → Ensures P default
    → ((t : Text) → Ensures P (decode t))
    → Ensures P (setting env decode name default)
unfolding setting
setting-Ensures P env decode name default p q = elim (Option-cases (Maps.get env name)) [
  | inl n ↦ rw (setting, n) p
  | inr (t, e) ↦ rw (setting, e) (q t)
]

-- What is checked and accepted has met the check.
pub checked-Ensures :
    {A : Type 0}
    → (P : A → Type 0) (b : Bool) (a : A) → (b ≡ true → P a)
    → Ensures P (if b then some a else none)
checked-Ensures P true a p = p refl
checked-Ensures P false a p = tt
