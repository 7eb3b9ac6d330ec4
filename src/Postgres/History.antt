-- ===== src/Postgres/History.antt =====
-- The SQL adapter of src/adapters/postgres as a repository of the contract.
use engineering_with_effect.Prelude.{
  All, ℕ, ◌≡◌, inl, inr, Bool, true, some, List, [], ◌∷◌, map, arith, Option-cases, Text,
}
use engineering_with_effect.Prelude.Maps
use engineering_with_effect.Model.Ids.{DeliveryId, DestinationId, WorkerId}
use engineering_with_effect.Model.Attempt.{DeliveryAttemptRecord}
use engineering_with_effect.Contract.{Cell, answer}
use engineering_with_effect.Contract.Calls.{Call, records, target, transition}
use engineering_with_effect.Contract.Laws.{IsWellFormed}
use engineering_with_effect.Contract.Repository.{Repository}
use engineering_with_effect.Contract.Fencing.{Step, run, run-IsValid}
use engineering_with_effect.Postgres.Rows.{attempt_to_row}
use engineering_with_effect.Postgres.Tables.{Tables, DeliveryTableRow, empty_tables, meets_checks}
use engineering_with_effect.Postgres.Statements
use engineering_with_effect.Postgres.Entering.{
  IsValid, empty_tables-IsValid, put-Keyed, put-IsValid, Entry, enter, enter-IsValid, enter-view,
}
use engineering_with_effect.Postgres.View.{
  is_whole, view, row_view, history_of, perform, IsSound, IsRequest,
}
use engineering_with_effect.Postgres.Refines.{perform-FollowsContract}
use engineering_with_effect.Postgres.Invariant.{perform-IsSound}
use engineering_with_effect.Postgres.Claiming.{
  claim_pending, set_rows, claimed_row, is_candidate, candidates, all_meet,
}
use engineering_with_effect.Postgres.Claimed.{
  IsKeyed, Candidate, candidates-Candidate, claim_pending_cases, claim_pending-view-Claims,
}

perform-IsKeyed : (call : Call) (t : Tables) → IsKeyed t → IsKeyed (perform call t).1
unfolding perform Statements.record_attempt Statements.recorded_row attempt_to_row
perform-IsKeyed (records now a) t k = grind (arith, put-Keyed)
perform-IsKeyed _ t k = grind (arith, put-Keyed)

pub perform-IsValid : (call : Call) (t : Tables) → IsValid t → IsValid (perform call t).1
perform-IsValid call t v = record {
  keyed = perform-IsKeyed call t v.keyed;
  sound = perform-IsSound call t v.sound;
}

-- Whole rows, set one after the other.
set_rows-IsValid :
    (rs : List DeliveryTableRow) (t : Tables)
    → All (λ r. is_whole r ≡ true) rs
    → IsValid t
    → IsValid (record t { deliveries = set_rows rs t.deliveries })
set_rows-IsValid [] t a v = v
set_rows-IsValid (r ∷ rs) t a v =
    set_rows-IsValid rs (record t { deliveries = Maps.set t.deliveries r.delivery_id r }) a.1
      (put-IsValid t t.relay_events r a.0 v)

-- A candidate is pending, and needs no reason.
is_whole-claimed_row :
    (now : ℕ) (owner : WorkerId) (destination : DestinationId) (lease : ℕ) (r : DeliveryTableRow)
    → is_candidate now destination r ≡ true
    → meets_checks (claimed_row now owner lease r) ≡ true
    → is_whole (claimed_row now owner lease r) ≡ true
unfolding is_whole is_candidate claimed_row
is_whole-claimed_row now owner destination lease r c m = ground arith

claimed_rows-is_whole :
    (now : ℕ) (owner : WorkerId) (destination : DestinationId) (lease : ℕ)
    (before : Maps.Map DeliveryTableRow) (rs : List DeliveryTableRow)
    → All (Candidate now owner destination lease before) rs
    → all_meet (map (claimed_row now owner lease) rs) ≡ true
    → All (λ r. is_whole r ≡ true) (map (claimed_row now owner lease) rs)
claimed_rows-is_whole now owner destination lease before [] c m = tt
claimed_rows-is_whole now owner destination lease before (r ∷ rs) c m = (
  is_whole-claimed_row now owner destination lease r c.0.1 (ground arith),
  claimed_rows-is_whole now owner destination lease before rs c.1 (ground arith),
)

module _ (collates : Text → Text → Bool) (locked : DeliveryId → Bool) where
  pub claim_pending-IsValid :
      (now : ℕ) (owner : WorkerId) (destination : DestinationId) (limit lease : ℕ) (t : Tables)
      → IsValid t
      → IsValid (claim_pending collates locked now owner destination limit lease t).1
  claim_pending-IsValid now owner destination limit lease t v =
      elim (claim_pending_cases collates locked now owner destination limit lease t) [
        | inl e ↦ rw e v
        | inr (m, e) ↦
            let rows = candidates collates locked now owner destination limit lease t in
            let c =
              candidates-Candidate collates locked now owner destination limit lease t v.keyed in
            rw e (
              set_rows-IsValid (map (claimed_row now owner lease) rows) t
                (claimed_rows-is_whole now owner destination lease t.deliveries rows c m) v)
      ]

row_view-IsWellFormed :
    (h : List DeliveryAttemptRecord) (r : DeliveryTableRow) (c : Cell)
    → is_whole r ≡ true
    → row_view h r ≡ some c
    → IsWellFormed c
unfolding view is_whole
row_view-IsWellFormed h r c m e = record { held = ground arith; current = λ k q. ground arith }

pub IsSound-IsWellFormed :
    (t : Tables) (j : DeliveryId) (c : Cell) → IsSound t j → view t j ≡ some c → IsWellFormed c
unfolding view
IsSound-IsWellFormed t j c s h = elim (Option-cases (Maps.get t.deliveries j)) [
  | inl n ↦ absurd (ground arith)
  | inr (r, e) ↦
      row_view-IsWellFormed (history_of t r.delivery_id) r c (s.checked r e) (ground arith)
]

-- The SQL adapter keeps the contract, whatever the collation and the locks of other sessions.
module _ (collates : Text → Text → Bool) (locked : DeliveryId → Bool) where
  abbrev pub postgres : Repository
  postgres = record {
    State = Tables;
    IsValid = IsValid;
    view = view;
    IsRequest = IsRequest;
    perform = perform;
    claim = λ now owner destination limit lease t.
        (claim_pending collates locked now owner destination limit lease t).1;
    Entry = Entry;
    enter = enter collates;
    IsFresh = λ j x. Unit {0};
    acts = λ call t v q. (perform-FollowsContract call t v.sound q).acts;
    frames = λ call t j v q n. (perform-FollowsContract call t v.sound q).frames j n;
    answers = λ call t v q. (perform-FollowsContract call t v.sound q).answers;
    claims = λ now owner destination limit lease t j v l.
        claim_pending-view-Claims collates locked now owner destination limit lease t j v.keyed
          (v.sound j);
    enters = λ x t j c f h. enter-view collates x t j c h;
    formed = λ t j c v h. IsSound-IsWellFormed t j c (v.sound j) h;
    perform-valid = perform-IsValid;
    claim-valid = claim_pending-IsValid collates locked;
    enter-valid = enter-IsValid collates;
  }

  -- After every history of calls, claims, saves and intakes from empty tables, whether each of them
  -- succeeds or fails, every delivery's row stands once, under its own key, meets the checks that the
  -- migrations declare, and has its reason where it is a dead letter, which those checks do not ask
  -- for; and a call that its schema admits then gets the contract's answer, so that no check of the
  -- row that it changes stands in its way.
  pub run-empty_tables-IsValid :
      (xs : List (Step postgres)) (call : Call)
      → IsRequest call
      → let t = run postgres xs empty_tables in
        IsValid t × ((perform call t).0 ≡ answer (transition call (view t (target call))))
  run-empty_tables-IsValid xs call q =
      let v = run-IsValid postgres xs empty_tables empty_tables-IsValid in
      (v, (perform-FollowsContract call (run postgres xs empty_tables) v.sound q).answers)
