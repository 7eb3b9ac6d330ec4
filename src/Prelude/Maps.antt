-- ===== src/Prelude/Maps.antt =====
-- A JavaScript `Map` with text keys: its entries in the order of their first insertion.
use mathlib.Core.Bool.{Bool, false}
use mathlib.Core.List.{List, [], ◌∷◌, ◌++◌, map}
use mathlib.Core.Logic.{inl, inr}
use mathlib.Core.Option.{Option, none, some}
use mathlib.Core.Path.{◌≡◌, refl, ap}
use native.Mathlib.Omega.{arith}
use engineering_with_effect.Prelude.Tests.{if◌then◌else◌, is_some, Bool-cases}
use engineering_with_effect.Prelude.Lists.{All, All-map}
use engineering_with_effect.Prelude.Texts.{Text, same_text, same_text_iff}

abbrev pub Map {ℓ} : Type ℓ → Type ℓ
Map V = List (Text × V)

module _ {ℓ} {V : Type ℓ} where
  unfoldable pub get : Map V → Text → Option V
  get [] k = none
  get ((j, v) ∷ m) k = if same_text j k then some v else get m k

  unfoldable pub has : Map V → Text → Bool
  has m k = is_some (get m k)

  unfoldable pub set : Map V → Text → V → Map V
  set [] k v = (k, v) ∷ []
  set ((j, w) ∷ m) k v = if same_text j k then (j, v) ∷ m else (j, w) ∷ set m k v

  unfoldable pub delete : Map V → Text → Map V
  delete [] k = []
  delete ((j, w) ∷ m) k = let rest = delete m k in if same_text j k then rest else (j, w) ∷ rest

  abbrev pub values : Map V → List V
  values = map (λ e. e.1)

  pub get-set :
      (m : Map V) (k j : Text) (v : V)
      → get (set m k v) j ≡ (if same_text k j then some v else get m j)
  unfolding get set
  get-set [] k j v = refl
  get-set ((i, w) ∷ m) k j v =
      ground (arith, get-set m k j v, same_text_iff i k, same_text_iff i j, same_text_iff k j)

  pub get-delete :
      (m : Map V) (k j : Text) → get (delete m k) j ≡ (if same_text k j then none else get m j)
  unfolding get delete
  get-delete [] k j = ground arith
  get-delete ((i, w) ∷ m) k j =
      ground (arith, get-delete m k j, same_text_iff i k, same_text_iff i j, same_text_iff k j)

  -- A new key stands last.
  pub values-set :
      (m : Map V) (k : Text) (v : V) → get m k ≡ none → values (set m k v) ≡ values m ++ v ∷ []
  unfolding get set
  values-set [] k v h = refl
  values-set ((j, w) ∷ m) k v h = elim (Bool-cases (same_text j k)) [
    | inl y ↦ absurd (ground arith)
    | inr n ↦ rw n (ap (λ r. w ∷ r) (values-set m k v (ground arith)))
  ]

  -- Two entries under different keys may change places.
  pub get-swap :
      (m : Map V) (i j k : Text) (v w : V)
      → same_text i j ≡ false
      → get ((i, v) ∷ (j, w) ∷ m) k ≡ get ((j, w) ∷ (i, v) ∷ m) k
  unfolding get
  get-swap m i j k v w n = ground (arith, same_text_iff i j, same_text_iff i k, same_text_iff j k)

pub ruleset map_laws = (get-set, get-delete)

-- Every value stands under its own key, and no key stands twice.
module _ {ℓ} {V : Type ℓ} (key_of : V → Text) where
  abbrev pub Keyed : Map V → Type ℓ
  Keyed [] = Unit
  Keyed ((k, v) ∷ m) = (key_of v ≡ k) × (get m k ≡ none) × Keyed m

  pub Keyed-set : (m : Map V) (k : Text) (v : V) → key_of v ≡ k → Keyed m → Keyed (set m k v)
  unfolding get set
  Keyed-set [] k v e h = (e, refl, tt)
  Keyed-set ((j, w) ∷ m) k v e h =
      ground (arith, Keyed-set m k v e h.2, get-set m k j v, same_text_iff j k, same_text_iff k j)

  get-under :
      (k : Text) (v : V) (m : Map V) (x : V)
      → get m k ≡ none
      → get m (key_of x) ≡ some x
      → get ((k, v) ∷ m) (key_of x) ≡ some x
  unfolding get
  get-under k v m x n h = ground (arith, same_text_iff k (key_of x))

  pub All-values : (m : Map V) → Keyed m → All (λ v. get m (key_of v) ≡ some v) (values m)
  unfolding get
  All-values [] h = tt
  All-values ((k, v) ∷ m) h = (
    ground (arith, same_text_iff k (key_of v)),
    All-map (λ x. get-under k v m x h.1) (values m) (All-values m h.2),
  )
