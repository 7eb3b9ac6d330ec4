-- ===== src/Worker/Recording.antt =====
-- src/deliveryWorker.ts: the attempts that a job records are durable.
use engineering_with_effect.Prelude.{
  ℕ, ◌<◌, ◌≡◌, refl, sym, ap, subst, ◌∙◌, ◌⊎◌, inl, inr, Option, none, some, List, [], ◌∷◌, ◌++◌,
  arith, Option-cases, All, All-append, All-map, ok, Result-cases,
}
use mathlib.Core.List.{append_assoc}
use engineering_with_effect.Model.Event.{DeliveryClaim}
use engineering_with_effect.Model.State.{DeliveryState}
use engineering_with_effect.Model.Attempt.{
  DeliveryAttempt, DeliveryAttemptRecord, AttemptTraceCorrelation, attempt_fields,
  make_delivery_attempt_record,
}
use engineering_with_effect.Policy.{terminal_state_from_attempt}
use engineering_with_effect.Contract.{Cell}
use engineering_with_effect.Contract.Calls.{records, target}
use engineering_with_effect.Contract.Owners.{transition-answered}
use engineering_with_effect.Contract.Repository.{Repository}
use engineering_with_effect.Contract.Fencing.{Evolves}
use engineering_with_effect.Engine.Schedule.{Schedules, Resilience}
use engineering_with_effect.Engine.Recorded.{Records}
use engineering_with_effect.Worker.{
  Job, Session, Turn, record_attempt, meanwhile, ticks_then_record, round_of,
}
use engineering_with_effect.Worker.Sessions.{
  Admits, made-fields, recorded_cell, IsOurs, Follows, performed, IsTame, meanwhile-Goes,
}

-- The last attempt of a history.
unfoldable pub last_attempt : List DeliveryAttempt → Option DeliveryAttempt
last_attempt [] = none
last_attempt (a ∷ []) = some a
last_attempt (a ∷ b ∷ h) = last_attempt (b ∷ h)

pub last_attempt-append :
    (h : List DeliveryAttempt) (a : DeliveryAttempt) → last_attempt (h ++ a ∷ []) ≡ some a
unfolding last_attempt
last_attempt-append [] a = refl
last_attempt-append (b ∷ []) a = refl
last_attempt-append (b ∷ c ∷ h) a = last_attempt-append (c ∷ h) a

module _ (repo : Repository) (admits : Admits repo) where
  open repo use {State, IsValid, view, perform}

  module _ (lib : Schedules) (resilience : Resilience) (lease : ℕ) (job : Job)
      (trace : AttemptTraceCorrelation) where
    -- The durable history has the record of an attempt, made under some claim.
    abbrev pub HasAttempt : Cell → DeliveryAttempt → Type 0
    HasAttempt c a =
        (k : DeliveryClaim) × (before : List DeliveryAttemptRecord) × (later : List
          DeliveryAttemptRecord)
        × (c.attempts ≡ before ++ attempt_fields job.delivery_id k a trace ∷ later)

    -- The state that an attempt leads to, if it leads to one, is the delivery's, and nobody holds it.
    abbrev IsSettledBy : Cell → DeliveryAttempt → Type 0
    IsSettledBy c a =
        (s : DeliveryState)
        → ((k : DeliveryClaim)
            → terminal_state_from_attempt (attempt_fields job.delivery_id k a trace) ≡ some s)
        → (c.delivery.state ≡ s) × (c.claim ≡ none)

    pub record IsDurable (h : List DeliveryAttempt) (c : Cell) : Type 0 where
      pub all : All (HasAttempt c) h
      pub settled : (a : DeliveryAttempt) → last_attempt h ≡ some a → IsSettledBy c a

    unfoldable pub Recorded : List DeliveryAttempt → Session State → Type 0
    Recorded h w =
        IsOurs repo admits lib resilience lease job trace w
        × ((h ≡ []) ⊎ ((c : Cell) × (view w.store job.delivery_id ≡ some c) × IsDurable h c))

    evolved-HasAttempt :
        (c c' : Cell) (a : DeliveryAttempt) → Evolves c c' → HasAttempt c a → HasAttempt c' a
    evolved-HasAttempt c c' a e (k, before, later, q) =
        let (more, r) = e.history in
        (
          k,
          before,
          later ++ more,
          r
              ∙ ap (λ xs. xs ++ more) q
              ∙ append_assoc before (attempt_fields job.delivery_id k a trace ∷ later) more,
        )

    -- What was durable is still in the history after others have acted.
    followed :
        (h : List DeliveryAttempt) (w t : Session State) (c : Cell)
        → Recorded h w
        → Follows repo admits lib resilience lease job trace w.store t.store
        → view t.store job.delivery_id ≡ some c
        → All (HasAttempt c) h
    unfolding Recorded
    followed h w t c (o, inl n) f q = subst (λ x. All (HasAttempt c) x) (sym n) tt
    followed h w t c (o, inr (b, p, d)) f q =
        let (b', q', e) = f b p in
        let same : b' ≡ c = ground (arith, q, q') in
        subst (λ x. All (HasAttempt x) h) same (All-map (λ a. evolved-HasAttempt b b' a e) h d.all)

    -- A recording that succeeds.
    appended :
        (now : ℕ) (h : List DeliveryAttempt) (a : DeliveryAttempt) (x : DeliveryAttemptRecord)
        (w : Session State)
        → make_delivery_attempt_record job.delivery_id w.claim a trace ≡ some x
        → IsOurs repo admits lib resilience lease job trace w
        → ((c : Cell) → view w.store job.delivery_id ≡ some c → All (HasAttempt c) h)
        → (perform (records now x) w.store).0 ≡ ok tt
        → (c : Cell) × (view (perform (records now x) w.store).1 job.delivery_id ≡ some c)
          × IsDurable (h ++ a ∷ []) c
    appended now h a x w m o f e =
        let (y, v, z) = made-fields job.delivery_id w.claim a trace x m in
        let call = records now x in
        let id : x.delivery_id ≡ job.delivery_id =
          ap (λ (r : DeliveryAttemptRecord). r.delivery_id) y in
        let q = admits.records_made now x v z in
        let (c, c', p, t) =
          transition-answered call x.worker_id x.claim_generation (view w.store (target call)) refl
            (sym (repo.answers call w.store o.valid q) ∙ e) in
        let acted : view (perform call w.store).1 (target call) ≡ some c' =
          repo.acts call w.store o.valid q ∙ rw (p, t) refl in
        let (grown, leads) = recorded_cell now x c c' t in
        let own : HasAttempt c' a =
          (w.claim, c.attempts, [], grown ∙ ap (λ r. c.attempts ++ r ∷ []) y) in
        let older : All (HasAttempt c') h =
          All-map
            (λ b. λ (k, before, later, s). (
              k,
              before,
              later ++ x ∷ [],
              grown
                  ∙ ap (λ xs. xs ++ x ∷ []) s
                  ∙ append_assoc before (attempt_fields job.delivery_id k b trace ∷ later) (x ∷ []),
            ))
            h (f c (subst (λ j. view w.store j ≡ some c) id p)) in
        (
          c',
          subst (λ j. view (perform call w.store).1 j ≡ some c') id acted,
          record {
            all = All-append (HasAttempt c') h (a ∷ []) older (own, tt);
            settled = λ b l s g. leads s (
                let same : a ≡ b = ground (arith, last_attempt-append h a, l) in
                ap terminal_state_from_attempt y
                ∙ ap
                    (λ b.
                      terminal_state_from_attempt (attempt_fields job.delivery_id w.claim b trace))
                    same
                ∙ g w.claim);
          },
        )

    abbrev pub Sound : Session State → Type 0
    Sound = IsOurs repo admits lib resilience lease job trace

    record_attempt-Recorded :
        (now : ℕ) (h : List DeliveryAttempt) (a : DeliveryAttempt) (w : Session State)
        → Sound w
        → ((c : Cell) → view w.store job.delivery_id ≡ some c → All (HasAttempt c) h)
        → (let r = record_attempt repo lib resilience lease job trace now a w in
            Sound r.1 × (r.0 ≡ ok tt → Recorded (h ++ a ∷ []) r.1))
    unfolding record_attempt Recorded
    record_attempt-Recorded now h a w o f =
        elim (Option-cases (make_delivery_attempt_record job.delivery_id w.claim a trace)) [
          | inl n ↦ rw (n, record_attempt) (o, λ e. absurd (ground arith))
          | inr (x, m) ↦
              let (y, v, z) = made-fields job.delivery_id w.claim a trace x m in
              let (t, g) =
                performed repo admits lib resilience lease job trace (records now x) w.store o.valid
                  (admits.records_made now x v z) in
              let later : (s : List DeliveryAttempt)
                  → Sound (record w { store = (perform (records now x) w.store).1; attempts = s }) =
                λ s. record { valid = t; owner_id = o.owner_id; generation = o.generation } in
              elim (Result-cases (perform (records now x) w.store).0) [
                | inr (b, e) ↦
                    rw (m, e, record_attempt) (later w.attempts, λ q. absurd (ground arith))
                | inl (u, e) ↦
                    rw (m, e, record_attempt)
                      (
                        later (w.attempts ++ a ∷ []),
                        λ q. (later (w.attempts ++ a ∷ []), inr (appended now h a x w m o f e)),
                      )
              ]
        ]

    ticks_then_record-Recorded :
        (turn : Turn repo) (h : List DeliveryAttempt) (a : DeliveryAttempt) (w : Session State)
        → 0 < lease
        → All (IsTame repo admits lib resilience lease job trace) turn.ticks
        → Recorded h w
        → (let r = ticks_then_record repo lib resilience lease job trace turn a w in
            Sound r.1 × (r.0 ≡ ok tt → Recorded (h ++ a ∷ []) r.1))
    unfolding ticks_then_record Recorded
    ticks_then_record-Recorded turn h a w l s p =
        let m = meanwhile repo lib resilience lease job trace turn.ticks w in
        let (o, f) =
          meanwhile-Goes repo admits lib resilience lease job trace turn.ticks w l s p.0 in
        elim (Result-cases m.0) [
          | inr (e, q) ↦ rw (q, ticks_then_record) (o, λ n. absurd (ground arith))
          | inl (u, q) ↦
              rw (q, ticks_then_record)
                (record_attempt-Recorded turn.recorded_at h a m.1 o
                  (λ c v. followed h w m.1 c p f v))
        ]

    pub round_of-Records :
        (turn : Turn repo)
        → 0 < lease
        → All (IsTame repo admits lib resilience lease job trace) turn.ticks
        → Records Recorded Sound (round_of repo lib resilience lease job trace turn)
    unfolding round_of
    round_of-Records turn l s = record {
      adds = λ h a w p e. (ticks_then_record-Recorded turn h a w l s p).1 e;
      fails = λ h a w x p e. (ticks_then_record-Recorded turn h a w l s p).0;
    }
