-- ===== src/Contract/Owners.antt =====
-- Who owns a delivery, in any repository that keeps the contract.
use engineering_with_effect.Prelude.{
  ℕ, ◌≡◌, refl, sym, ap, ◌∙◌, inl, inr, Option, none, some, arith, Text, ok, err, Result-cases,
}
use engineering_with_effect.Errors.{RepositoryFailure}
use engineering_with_effect.Contract.{Cell, answer}
use engineering_with_effect.Contract.Calls.{Call, target, transition, fence}
use engineering_with_effect.Contract.Laws.{fenced_exclusive}
use engineering_with_effect.Contract.Repository.{Repository}

-- On a delivery that is unknown every fenced call fails.
transition_unknown :
    (call : Call) (o : Text) (g : ℕ)
    → fence call ≡ some (o, g)
    → (e : RepositoryFailure) × (transition call none ≡ err e)
unfolding transition
transition_unknown (Call.records now a) o g h = (_, refl)
transition_unknown (Call.renews now id claim lease) o g h = (_, refl)
transition_unknown (Call.completes now id claim result) o g h = (_, refl)
transition_unknown (Call.releases id claim) o g h = (_, refl)
transition_unknown (Call.retries now id) o g h = absurd (ground arith)
transition_unknown (Call.repairs now id route) o g h = absurd (ground arith)
transition_unknown (Call.terminates id) o g h = absurd (ground arith)

-- A fenced call that is answered with success has found the delivery.
pub transition-answered :
    (call : Call) (o : Text) (g : ℕ) (found : Option Cell)
    → fence call ≡ some (o, g)
    → answer (transition call found) ≡ ok tt
    → (c : Cell) × (c' : Cell) × (found ≡ some c) × (transition call (some c) ≡ ok c')
transition-answered call o g none f h =
    let (e, q) = transition_unknown call o g f in absurd (ground (arith, q, h))
transition-answered call o g (some c) f h = elim (Result-cases (transition call (some c))) [
  | inl (c', q) ↦ (c, c', refl, q)
  | inr (e, q) ↦ absurd (ground (arith, q, h))
]

module _ (repo : Repository) where
  open repo use {State, IsValid, view, IsRequest, perform}

  -- At most one owner: two fenced requests for one delivery that would both succeed on a valid state
  -- of a repository that keeps the contract name the same owner and the same generation.
  pub one_owner :
      (s : State) (x y : Call) (o p : Text) (g h : ℕ)
      → IsValid s
      → IsRequest x
      → IsRequest y
      → target x ≡ target y
      → fence x ≡ some (o, g)
      → fence y ≡ some (p, h)
      → (perform x s).0 ≡ ok tt
      → (perform y s).0 ≡ ok tt
      → (o ≡ p) × (g ≡ h)
  one_owner s x y o p g h v qx qy same fx fy ax ay =
      let (c, c', e, tx) =
        transition-answered x o g (view s (target x)) fx (sym (repo.answers x s v qx) ∙ ax) in
      let (d, d', f, ty) =
        transition-answered y p h (view s (target y)) fy (sym (repo.answers y s v qy) ∙ ay) in
      let m : c ≡ d = ground (arith, e, f, ap (view s) same) in
      fenced_exclusive x y o p g h c c' d' fx fy tx (rw m ty)
