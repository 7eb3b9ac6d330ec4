-- ===== src/Contract/Fencing.antt =====
-- How one delivery evolves in any repository that keeps the contract, whatever happens: final
-- states, the history of attempts and the fencing generation.
use engineering_with_effect.Prelude.{
  ℕ, ◌≤◌, ◌<◌, ◌≡◌, refl, sym, ◌∙◌, inl, inr, Option, some, List, [], ◌∷◌, ◌++◌, arith, Bool-cases,
  All, Text, same_text, eq_of_same_text, Result, ok, err,
}
use mathlib.Core.List.{append-nil, append_assoc}
use engineering_with_effect.Model.Ids.{DeliveryId, DestinationId, WorkerId}
use engineering_with_effect.Model.Attempt.{DeliveryAttemptRecord}
use engineering_with_effect.Errors.{RepositoryFailure}
use engineering_with_effect.Contract.{Cell, after, claimed}
use engineering_with_effect.Contract.Calls.{Call, target, transition, fence}
use engineering_with_effect.Contract.Laws.{
  IsFinal, Advances, Distinct, transition-Advances, transition-Distinct, transition_final,
  stale_refused,
}
use engineering_with_effect.Contract.Claims.{Claims}
use engineering_with_effect.Contract.Repository.{Repository}

-- What may have become of a delivery.
pub record Evolves (c c' : Cell) : Type 0 where
  pub generation : c.generation ≤ c'.generation
  pub destination_id : c'.delivery.destination_id ≡ c.delivery.destination_id
  pub event_id : c'.delivery.event_id ≡ c.delivery.event_id
  pub history : (more : List DeliveryAttemptRecord) × (c'.attempts ≡ c.attempts ++ more)
  pub distinct : Distinct c.attempts → Distinct c'.attempts
  pub final : IsFinal c.delivery.state → c' ≡ c

pub Evolves-refl : (c : Cell) → Evolves c c
Evolves-refl c = record {
  generation = omega arith;
  destination_id = refl;
  event_id = refl;
  history = ([], sym (append-nil c.attempts));
  distinct = λ d. d;
  final = λ f. refl;
}

pub Evolves-trans : (a b c : Cell) → Evolves a b → Evolves b c → Evolves a c
Evolves-trans a b c p q =
    let (m, e) = p.history in
    let (n, f) = q.history in
    record {
      generation = omega arith;
      destination_id = q.destination_id ∙ p.destination_id;
      event_id = q.event_id ∙ p.event_id;
      history = (m ++ n, rw (f, e) (append_assoc a.attempts m n));
      distinct = λ d. q.distinct (p.distinct d);
      final = λ h. q.final (rw (p.final h) h) ∙ p.final h;
    }

-- The delivery is still there, and has evolved.
abbrev Keeps : Cell → Option Cell → Type 0
Keeps c o = (c' : Cell) × (o ≡ some c') × Evolves c c'

Advances-Evolves :
    (c c' : Cell)
    → (IsFinal c.delivery.state → ⊥)
    → (Distinct c.attempts → Distinct c'.attempts)
    → Advances c c'
    → Evolves c c'
Advances-Evolves c c' n d a = record {
  generation = omega arith;
  destination_id = a.destination_id;
  event_id = a.event_id;
  history = elim a.history [
    | inl e ↦ ([], e ∙ sym (append-nil c.attempts))
    | inr (x, e) ↦ (x ∷ [], e)
  ];
  distinct = d;
  final = λ f. absurd (n f);
}

reply-Evolves :
    (call : Call) (c : Cell) (r : Result RepositoryFailure Cell)
    → transition call (some c) ≡ r
    → Keeps c (after (some c) r)
reply-Evolves call c (err e) h = (c, refl, Evolves-refl c)
reply-Evolves call c (ok c') h = (
  c',
  refl,
  Advances-Evolves c c' (λ f. let (e, q) = transition_final call c f in ground arith)
      (transition-Distinct c c' call h) (transition-Advances c c' call h),
)

Claims-Evolves :
    (now : ℕ) (owner : WorkerId) (destination : DestinationId) (lease : ℕ) (c : Cell)
    (o : Option Cell)
    → Claims now owner destination lease (some c) o
    → Keeps c o
Claims-Evolves now owner destination lease c o (inl e) = (c, e, Evolves-refl c)
Claims-Evolves now owner destination lease c o (inr (b, e, p, q)) = (
  claimed now owner lease c,
  q ∙ ground arith,
  record {
    generation = omega arith;
    destination_id = refl;
    event_id = refl;
    history = ([], sym (append-nil c.attempts));
    distinct = λ d. d;
    final = λ f. absurd (ground arith);
  },
)

module _ (repo : Repository) where
  open repo use {State, IsValid, view, IsRequest, perform, claim, Entry, enter, IsFresh}

  -- What may happen to a repository.
  pub data Step : Type 0 where
    calls : Call → Step
    claims : ℕ → WorkerId → DestinationId → ℕ → ℕ → Step
    enters : Entry → Step

  unfoldable pub apply : Step → State → State
  apply (calls c) s = (perform c s).1
  apply (claims now owner destination limit lease) s = claim now owner destination limit lease s
  apply (enters x) s = enter x s

  unfoldable pub run : List Step → State → State
  unfolding apply
  run [] s = s
  run (x ∷ xs) s = run xs (apply x s)

  -- A call is admitted, a lease takes time, and a new delivery has a fresh identifier.
  abbrev pub IsAllowed : DeliveryId → Step → Type 0
  IsAllowed j (calls c) = IsRequest c
  IsAllowed j (claims now owner destination limit lease) = 0 < lease
  IsAllowed j (enters x) = IsFresh j x

  apply-IsValid : (x : Step) (s : State) → IsValid s → IsValid (apply x s)
  unfolding apply
  apply-IsValid (calls c) s v = repo.perform-valid c s v
  apply-IsValid (claims now owner destination limit lease) s v =
      repo.claim-valid now owner destination limit lease s v
  apply-IsValid (enters x) s v = repo.enter-valid x s v

  pub run-IsValid : (xs : List Step) (s : State) → IsValid s → IsValid (run xs s)
  unfolding run
  run-IsValid [] s v = v
  run-IsValid (x ∷ xs) s v = run-IsValid xs (apply x s) (apply-IsValid x s v)

  call-Evolves :
      (call : Call) (s : State) (j : DeliveryId) (c : Cell)
      → IsValid s
      → IsRequest call
      → view s j ≡ some c
      → Keeps c (view (perform call s).1 j)
  call-Evolves call s j c v q h = elim (Bool-cases (same_text (target call) j)) [
    | inl y ↦
        let e = eq_of_same_text (target call) j y in
        let p : view s (target call) ≡ some c = rw e h in
        rw (← e)
          (rw (repo.acts call s v q) (rw p (reply-Evolves call c (transition call (some c)) refl)))
    | inr n ↦ (c, repo.frames call s j v q n ∙ h, Evolves-refl c)
  ]

  apply-Evolves :
      (x : Step) (s : State) (j : DeliveryId) (c : Cell)
      → IsValid s
      → IsAllowed j x
      → view s j ≡ some c
      → Keeps c (view (apply x s) j)
  unfolding apply
  apply-Evolves (calls call) s j c v a h = call-Evolves call s j c v a h
  apply-Evolves (claims now owner destination limit lease) s j c v a h =
      Claims-Evolves now owner destination lease c _
        (rw (← h) (repo.claims now owner destination limit lease s j v a))
  apply-Evolves (enters x) s j c v a h = (c, repo.enters x s j c a h, Evolves-refl c)

  -- In every history of a repository that keeps the contract, of admitted calls, claims and entries
  -- under fresh identifiers, a delivery keeps its event and destination, its attempts are only added
  -- to and their ordinals stay distinct, its generation never falls, and once it is delivered,
  -- rejected or terminated nothing about it changes.
  pub run-Evolves :
      (xs : List Step) (s : State) (j : DeliveryId) (c : Cell)
      → IsValid s
      → All (IsAllowed j) xs
      → view s j ≡ some c
      → (c' : Cell) × (view (run xs s) j ≡ some c') × Evolves c c'
  unfolding run
  run-Evolves [] s j c v a h = (c, h, Evolves-refl c)
  run-Evolves (x ∷ xs) s j c v a h =
      let (b, e, p) = apply-Evolves x s j c v a.0 h in
      let (d, q, r) = run-Evolves xs (apply x s) j b (apply-IsValid x s v) a.1 e in
      (d, q, Evolves-trans c b d p r)

  -- A worker whose claim has been superseded stays fenced off from any repository that keeps the
  -- contract: after any further history of admitted calls, claims and entries under fresh
  -- identifiers, each of its admitted renewals, recordings, completions and releases fails and leaves
  -- every delivery as it is.
  pub stale_fenced :
      (xs : List Step) (call : Call) (s : State) (owner : Text) (g : ℕ) (c : Cell)
      → IsValid s
      → All (IsAllowed (target call)) xs
      → IsRequest call
      → view s (target call) ≡ some c
      → fence call ≡ some (owner, g)
      → g < c.generation
      → (let t = run xs s in
          ((e : RepositoryFailure) × ((perform call t).0 ≡ err e))
          × ((j : DeliveryId) → view (perform call t).1 j ≡ view t j))
  stale_fenced xs call s owner g c v a q h k lt =
      let (c', e, p) = run-Evolves xs s (target call) c v a h in
      let t = run xs s in
      let w = run-IsValid xs s v in
      let (x, r) =
        stale_refused call owner g c' k (repo.formed t (target call) c' w e)
          (omega (arith, p.generation)) in
      (
        (x, repo.answers call t w q ∙ rw (e, r) refl),
        λ j. elim (Bool-cases (same_text (target call) j)) [
          | inl y ↦ rw (← eq_of_same_text (target call) j y) (repo.acts call t w q ∙ rw (e, r) refl)
          | inr n ↦ repo.frames call t j w q n
        ],
      )
