-- ===== src/Contract/Parity.antt =====
-- Two repositories that keep the contract cannot be told apart by its calls.
use engineering_with_effect.Prelude.{
  ◌≡◌, refl, sym, ap, ◌∙◌, inl, inr, Option, List, [], ◌∷◌, arith, Bool-cases, All, same_text,
  eq_of_same_text, Result, Action,
}
use engineering_with_effect.Model.Ids.{DeliveryId}
use engineering_with_effect.Errors.{RepositoryFailure}
use engineering_with_effect.Contract.{Cell, after, answer}
use engineering_with_effect.Contract.Calls.{Call, target, transition}
use engineering_with_effect.Contract.Repository.{Repository}

-- A sequence of calls: the answers in order, and the state that is left.
unfoldable pub play :
    {S : Type 0}
    → (Call → Action S RepositoryFailure Unit)
    → List Call
    → S
    → List (Result RepositoryFailure (Unit {0})) × S
play perform [] s = ([], s)
play perform (c ∷ cs) s =
    let (r, s') = perform c s in let (rs, s'') = play perform cs s' in (r ∷ rs, s'')

module _ (a b : Repository) where
  -- The two states show the same facts of every delivery.
  abbrev pub Matches : a.State → b.State → Type 0
  Matches s t = (j : DeliveryId) → a.view s j ≡ b.view t j

  -- Equal before one call, the states are equal after it, and so are the answers.
  step_parity :
      (call : Call) (s : a.State) (t : b.State)
      → a.IsValid s
      → b.IsValid t
      → a.IsRequest call
      → b.IsRequest call
      → Matches s t
      → ((a.perform call s).0 ≡ (b.perform call t).0)
        × Matches (a.perform call s).1 (b.perform call t).1
  step_parity call s t v w p q m =
      let e = m (target call) in
      (
        a.answers call s v p
            ∙ ap (λ (o : Option Cell). answer (transition call o)) e
            ∙ sym (b.answers call t w q),
        λ j. elim (Bool-cases (same_text (target call) j)) [
          | inl y ↦ rw (← eq_of_same_text (target call) j y) (
              a.acts call s v p
              ∙ ap (λ (o : Option Cell). after o (transition call o)) e
              ∙ sym (b.acts call t w q))
          | inr n ↦ a.frames call s j v p n ∙ m j ∙ sym (b.frames call t j w q n)
        ],
      )

  -- From states that show the same deliveries, every sequence of calls that both repositories admit
  -- gives the same answers, one by one, and leaves states that show the same deliveries.
  pub play_parity :
      (cs : List Call) (s : a.State) (t : b.State)
      → a.IsValid s
      → b.IsValid t
      → All a.IsRequest cs
      → All b.IsRequest cs
      → Matches s t
      → ((play a.perform cs s).0 ≡ (play b.perform cs t).0)
        × Matches (play a.perform cs s).1 (play b.perform cs t).1
  unfolding play
  play_parity [] s t v w p q m = (refl, m)
  play_parity (c ∷ cs) s t v w p q m =
      let (e, n) = step_parity c s t v w p.0 q.0 m in
      let (f, k) =
        play_parity cs (a.perform c s).1 (b.perform c t).1 (a.perform-valid c s v)
          (b.perform-valid c t w) p.1 q.1 n in
      (ground arith, k)
