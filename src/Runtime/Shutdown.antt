-- ===== src/Runtime/Shutdown.antt =====
-- src/runtime.ts: a shutdown happens once, and nothing is ready any more when it has begun.
use engineering_with_effect.Prelude.{
  ◌≡◌, refl, inl, inr, Bool, true, false, not, ◌&&◌, arith, if◌then◌else◌, Bool-cases,
}
use engineering_with_effect.Runtime.{
  Runtime, Ending, disposing, settled, Start, building, has_context, has_hook, started, refused,
  fresh, has_begun, shutdown, is_ready, is_refused, is_started, Step, builds, hooks, serves, fails,
  signals, asks, marks, fails_to_mark, disposes, Steps, done, later,
}

-- The runtime is disposed of by now.
abbrev is_disposed : Ending → Bool
is_disposed (disposing f) = true
is_disposed (settled f) = true
is_disposed _ = false

-- The start has come to its hook.
abbrev is_hooked : Start → Bool
is_hooked has_hook = true
is_hooked started = true
is_hooked _ = false

abbrev is_early : Start → Bool
is_early building = true
is_early has_context = true
is_early _ = false

-- A hook is there exactly from its registration to the shutdown; ready is exactly what has started and
-- is not being shut down; the runtime is disposed of once, by a shutdown; and a start that has failed
-- is shut down.
pub record IsOrderly (r : Runtime) : Type 0 where
  pub hook : r.hook ≡ (is_hooked r.start && not (has_begun r.ending))
  pub ready : is_ready r ≡ (is_started r.start && not (has_begun r.ending))
  pub disposals : r.disposals ≡ (if is_disposed r.ending then 1 else 0)
  pub refused : (if is_refused r.start then has_begun r.ending else true) ≡ true
  pub early : (is_early r.start && has_begun r.ending) ≡ false

-- A shutdown of what has lost its hook with its start, or has not.
shutdown-IsOrderly :
    (r : Runtime)
    → (has_begun r.ending ≡ true → IsOrderly r)
    → (has_begun r.ending ≡ false → r.disposals ≡ 0)
    → is_early r.start ≡ false
    → IsOrderly (shutdown r)
unfolding shutdown is_ready
shutdown-IsOrderly r o d early = elim (Bool-cases (has_begun r.ending)) [
  | inl y ↦ rw (shutdown, y) (o y)
  | inr n ↦ elim (Bool-cases r.has_readiness) [
    | inl h ↦
        rw (shutdown, n, h)
          (record {
            hook = ground arith;
            ready = ground arith;
            disposals = d n;
            refused = ground arith;
            early = ground (arith, early);
          })
    | inr h ↦
        rw (shutdown, n, h)
          (record {
            hook = ground arith;
            ready = ground arith;
            disposals = ground (arith, d n);
            refused = ground arith;
            early = ground (arith, early);
          })
  ]
]

moved-IsOrderly : (r s : Runtime) → Step r s → IsOrderly r → IsOrderly s
unfolding shutdown is_ready
moved-IsOrderly r _ (builds e) o = record {
  hook = ground (arith, o.hook);
  ready = ground (arith, o.ready);
  disposals = o.disposals;
  refused = refl;
  early = ground (arith, o.early);
}
moved-IsOrderly r _ (hooks e) o = record {
  hook = ground (arith, o.early);
  ready = ground (arith, o.ready);
  disposals = o.disposals;
  refused = refl;
  early = refl;
}
moved-IsOrderly r _ (serves e) o = record {
  hook = ground (arith, o.hook);
  ready = ground arith;
  disposals = o.disposals;
  refused = refl;
  early = refl;
}
moved-IsOrderly r _ (fails e) o =
    shutdown-IsOrderly (record r { start = refused })
      (λ y. record {
        hook = ground (arith, o.hook);
        ready = ground (arith, o.ready);
        disposals = o.disposals;
        refused = y;
        early = refl;
      })
      (λ n. ground (arith, o.disposals)) refl
moved-IsOrderly r _ (signals e) o =
    shutdown-IsOrderly r (λ y. o) (λ n. ground (arith, o.disposals)) (ground (arith, o.hook))
moved-IsOrderly r _ (asks e) o =
    shutdown-IsOrderly r (λ y. o) (λ n. ground (arith, o.disposals)) (ground arith)
moved-IsOrderly r _ (marks e) o = record {
  hook = ground (arith, o.hook);
  ready = ground (arith, o.ready);
  disposals = ground (arith, o.disposals);
  refused = ground (arith, o.refused);
  early = ground (arith, o.early);
}
moved-IsOrderly r _ (fails_to_mark e) o = record {
  hook = ground (arith, o.hook);
  ready = ground (arith, o.ready);
  disposals = ground (arith, o.disposals);
  refused = ground (arith, o.refused);
  early = ground (arith, o.early);
}
moved-IsOrderly r _ (disposes f g e) o = record {
  hook = ground (arith, o.hook);
  ready = ground (arith, o.ready);
  disposals = ground (arith, o.disposals);
  refused = ground (arith, o.refused);
  early = ground (arith, o.early);
}

-- In whatever order the start goes on or fails, shutdowns are asked for, through the hook, by the
-- application or by a failed start, and a shutdown goes on: the hook is registered exactly between its
-- registration and the first request, the application says that it is ready exactly when it has started
-- and no shutdown has begun, the runtime is disposed of at most once, and not before a shutdown, and a
-- start that has failed is shut down.
pub shut_down_once : (r : Runtime) → Steps fresh r → IsOrderly r
unfolding is_ready
shut_down_once _ done = record {
  hook = refl;
  ready = refl;
  disposals = refl;
  refused = refl;
  early = refl;
}
shut_down_once r (later {s = s} steps step) = moved-IsOrderly s r step (shut_down_once s steps)
