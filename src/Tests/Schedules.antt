-- ===== src/Tests/Schedules.antt =====
-- A schedule library for the tests, as trees of combinators.
use engineering_with_effect.Prelude.{
  ℕ, zero, suc, ◌*◌, ◌^◌, min, ◌≡◌, refl, ap, Bool, Option, none, some, if◌then◌else◌,
}
use engineering_with_effect.Engine.Schedule.{Schedules, Step, Reading, Resilience}

-- A schedule as the tree of its combinators.
pub data Tree : Type 0 where
  exponential_tree : ℕ → Tree
  spaced_tree : ℕ → Tree
  min_tree : Tree → Tree → Tree
  modify_tree : (ℕ → Step → ℕ) → Tree → Tree
  up_to_tree : ℕ → Tree → Tree
  while_tree : (ℕ → Step → Bool) → Tree → Tree

abbrev pub both : Option (ℕ × Tree) → Option (ℕ × Tree) → Option (ℕ × Tree)
both (some (d, s)) (some (e, t)) = some (min d e, min_tree s t)
both none t = t
both s none = s

abbrev modified : (ℕ → Step → ℕ) → Step → Option (ℕ × Tree) → Option (ℕ × Tree)
modified f i none = none
modified f i (some (d, s)) = some (f d i, modify_tree f s)

abbrev limited_to : ℕ → Option (ℕ × Tree) → Option (ℕ × Tree)
limited_to zero r = none
limited_to (suc n) none = none
limited_to (suc n) (some (d, s)) = some (d, up_to_tree n s)

abbrev pub kept : (ℕ → Step → Bool) → Step → Option (ℕ × Tree) → Option (ℕ × Tree)
kept p i none = none
kept p i (some (d, s)) = if p d i then some (d, while_tree p s) else none

unfoldable pub next_step : Tree → Step → Option (ℕ × Tree)
next_step (exponential_tree d) i = some (d, exponential_tree (2 * d))
next_step (spaced_tree d) i = some (d, spaced_tree d)
next_step (min_tree s t) i = both (next_step s i) (next_step t i)
next_step (modify_tree f s) i = modified f i (next_step s i)
next_step (up_to_tree n s) i = limited_to n (next_step s i)
next_step (while_tree p s) i = kept p i (next_step s i)

pub modify_done :
    (f : ℕ → Step → ℕ) (s : Tree) (i : Step)
    → next_step s i ≡ none
    → next_step (modify_tree f s) i ≡ none
unfolding next_step
modify_done f s i h = ap (modified f i) h

pub modify_step :
    (f : ℕ → Step → ℕ) (s s' : Tree) (i : Step) (d : ℕ)
    → next_step s i ≡ some (d, s')
    → next_step (modify_tree f s) i ≡ some (f d i, modify_tree f s')
unfolding next_step
modify_step f s s' i d h = ap (modified f i) h

pub up_to_zero : (s : Tree) (i : Step) → next_step (up_to_tree 0 s) i ≡ none
unfolding next_step
up_to_zero s i = refl

pub up_to_done :
    (n : ℕ) (s : Tree) (i : Step) → next_step s i ≡ none → next_step (up_to_tree n s) i ≡ none
unfolding next_step
up_to_done zero s i h = refl
up_to_done (suc n) s i h = ap (limited_to (suc n)) h

pub up_to_step :
    (n : ℕ) (s s' : Tree) (i : Step) (d : ℕ)
    → next_step s i ≡ some (d, s')
    → next_step (up_to_tree (suc n) s) i ≡ some (d, up_to_tree n s')
unfolding next_step
up_to_step n s s' i d h = ap (limited_to (suc n)) h

pub while_done :
    (p : ℕ → Step → Bool) (s : Tree) (i : Step)
    → next_step s i ≡ none
    → next_step (while_tree p s) i ≡ none
unfolding next_step
while_done p s i h = ap (kept p i) h

pub while_step :
    (p : ℕ → Step → Bool) (s s' : Tree) (i : Step) (d : ℕ)
    → next_step s i ≡ some (d, s')
    → next_step (while_tree p s) i ≡ (if p d i then some (d, while_tree p s') else none)
unfolding next_step
while_step p s s' i d h = ap (kept p i) h

abbrev pub trees : Schedules
trees = record {
  Schedule = Tree;
  exponential = exponential_tree;
  spaced = spaced_tree;
  min_of = min_tree;
  modify_delay = modify_tree;
  up_to = up_to_tree;
  while_holds = while_tree;
  step = next_step;
  modify_delay_done = modify_done;
  modify_delay_step = modify_step;
  up_to_zero = up_to_zero;
  up_to_done = up_to_done;
  up_to_step = up_to_step;
  while_done = while_done;
  while_step = while_step;
}

-- Two seconds at most, at most two attempts, and a backoff of ten milliseconds.
abbrev pub resilience : Resilience
resilience = record {
  attempt_timeout = 100000000;
  max_attempts = 2;
  max_elapsed = 2000000000;
  base_delay = 10000000;
  max_delay = 50000000;
}

abbrev pub reading : Reading
reading = record { fraction = 2 ^ 52; capped_at_nanos = 30000000; checked_at_nanos = 30000000 }
