-- ===== src/Postgres/Recording.antt =====
-- `recordAttempt` of src/adapters/postgres/deliveryRepository.ts against the contract.
use engineering_with_effect.Prelude.{
  ℕ, ◌≡◌, refl, sym, ap, ◌∙◌, inl, inr, true, false, none, some, List, [], ◌∷◌, ◌++◌, map, arith,
  ◌==◌, if◌then◌else◌, Bool-cases, Option-cases, any, select, same_text, same_text_refl, ok, err,
}
use engineering_with_effect.Prelude.Maps
use engineering_with_effect.Prelude.Maps.{map_laws}
use engineering_with_effect.Errors.{
  ClaimOperation, claim_lost, RepositoryOperation, repository_error,
}
use mathlib.Core.List.{append-nil}
use engineering_with_effect.Model.Ids.{DeliveryId}
use engineering_with_effect.Model.Attempt.{DeliveryAttemptRecord, has_valid_fields, is_consistent}
use engineering_with_effect.Policy.{terminal_state_from_attempt}
use engineering_with_effect.Contract.{after, answer}
use engineering_with_effect.Contract.Calls.{records, transition}
use engineering_with_effect.Postgres.Rows.{DeliveryAttemptRow, row_to_attempt, attempt_to_row}
use engineering_with_effect.Postgres.Tables.{
  Tables, DeliveryTableRow, constraint_violation, has_attempt, meets_attempt_checks,
}
use engineering_with_effect.Postgres.Statements.{attempts_of, is_leased, recorded_row}
use engineering_with_effect.Postgres.Statements
use engineering_with_effect.Postgres.View.{
  is_whole, is_whole-meets_checks, view, perform, IsSound, IsRequest, history_of, row_view,
}

has_attempt-any :
    (h : List DeliveryAttemptRow) (id : DeliveryId) (n : ℕ)
    → has_attempt h id n
      ≡ any (λ b. b.ordinal == n) (map row_to_attempt (select (λ a. same_text a.delivery_id id) h))
unfolding has_attempt select row_to_attempt
has_attempt-any [] id n = refl
has_attempt-any (a ∷ h) id n = ground (arith, has_attempt-any h id n)

select-append :
    (h : List DeliveryAttemptRow) (a : DeliveryAttemptRow) (id : DeliveryId)
    → map row_to_attempt (select (λ b. same_text b.delivery_id id) (h ++ a ∷ []))
      ≡ map row_to_attempt (select (λ b. same_text b.delivery_id id) h)
        ++ (if same_text a.delivery_id id then row_to_attempt a ∷ [] else [])
unfolding select row_to_attempt
select-append [] a id = ground arith
select-append (b ∷ h) a id = ground (arith, select-append h a id)

-- What the schema of an attempt has checked, the table checks again.
meets_attempt_checks_lem :
    (a : DeliveryAttemptRecord)
    → has_valid_fields a ≡ true
    → is_consistent a ≡ true
    → meets_attempt_checks (attempt_to_row a) ≡ true
unfolding has_valid_fields is_consistent meets_attempt_checks attempt_to_row
meets_attempt_checks_lem a v c = ground arith

-- Recording under a lease keeps the checks of the delivery's row.
is_whole-recorded_row :
    (now : ℕ) (a : DeliveryAttemptRecord) (r : DeliveryTableRow)
    → is_whole r ≡ true
    → is_consistent a ≡ true
    → is_leased a.worker_id a.claim_generation now r ≡ true
    → is_whole (recorded_row (attempt_to_row a) r) ≡ true
unfolding is_whole recorded_row attempt_to_row is_consistent
is_whole-recorded_row now a r m c l = ground arith

-- The tables after an attempt has been recorded.
abbrev with_attempt : DeliveryAttemptRecord → DeliveryTableRow → Tables → Tables
with_attempt a r t = record t {
  deliveries = Maps.set t.deliveries r.delivery_id (recorded_row (attempt_to_row a) r);
  delivery_attempts = t.delivery_attempts ++ attempt_to_row a ∷ [];
}

record_attempt_cases :
    (now : ℕ) (a : DeliveryAttemptRecord) (t : Tables) (r : DeliveryTableRow)
    → Maps.get t.deliveries a.delivery_id ≡ some r
    → is_whole r ≡ true
    → has_valid_fields a ≡ true
    → is_consistent a ≡ true
    → Statements.record_attempt now (attempt_to_row a) t ≡ (
        if is_leased a.worker_id a.claim_generation now r
        then (if has_attempt t.delivery_attempts a.delivery_id a.ordinal
            then (err constraint_violation, t)
            else (ok (a.delivery_id ∷ []), with_attempt a r t))
        else (ok [], t))
unfolding Statements.record_attempt attempt_to_row
record_attempt_cases now a t r e m v c =
    let l = meets_attempt_checks_lem a v c in
    elim (Bool-cases (is_leased a.worker_id a.claim_generation now r)) [
      | inl y ↦
          let k =
            is_whole-meets_checks (recorded_row (attempt_to_row a) r)
              (is_whole-recorded_row now a r m c y) in
          ground arith
      | inr n ↦ ground arith
    ]

-- The recorded row, with the attempt in its history, is what the contract makes of the delivery.
recorded_row-view :
    (now : ℕ) (a : DeliveryAttemptRecord) (h : List DeliveryAttemptRecord) (r : DeliveryTableRow)
    → is_whole r ≡ true
    → is_consistent a ≡ true
    → is_leased a.worker_id a.claim_generation now r ≡ true
    → any (λ b. b.ordinal == a.ordinal) h ≡ false
    → row_view (h ++ a ∷ []) (recorded_row (attempt_to_row a) r)
      ≡ after (row_view h r) (transition (records now a) (row_view h r))
unfolding view transition is_whole is_consistent recorded_row attempt_to_row
    terminal_state_from_attempt
recorded_row-view now a h r m c l n = ground arith

row_to_attempt-attempt_to_row : (a : DeliveryAttemptRecord) → row_to_attempt (attempt_to_row a) ≡ a
unfolding row_to_attempt attempt_to_row
row_to_attempt-attempt_to_row a = refl

with_attempt-view :
    (a : DeliveryAttemptRecord) (t : Tables) (r : DeliveryTableRow)
    → r.delivery_id ≡ a.delivery_id
    → view (with_attempt a r t) a.delivery_id
      ≡ row_view (history_of t a.delivery_id ++ a ∷ []) (recorded_row (attempt_to_row a) r)
unfolding view recorded_row attempt_to_row
with_attempt-view a t r n =
    let p = select-append t.delivery_attempts (attempt_to_row a) a.delivery_id in
    grind (arith, map_laws, same_text_refl)

records_none :
    (now : ℕ) (a : DeliveryAttemptRecord) (t : Tables)
    → Maps.get t.deliveries a.delivery_id ≡ none
    → (perform (records now a) t).1 ≡ t
unfolding perform Statements.record_attempt attempt_to_row
records_none now a t n = ground arith

view_row :
    (t : Tables) (id : DeliveryId) (r : DeliveryTableRow)
    → Maps.get t.deliveries id ≡ some r
    → r.delivery_id ≡ id
    → view t id ≡ row_view (history_of t id) r
unfolding view
view_row t id r e n = ground arith

records_fresh :
    (now : ℕ) (a : DeliveryAttemptRecord) (t u : Tables) (r : DeliveryTableRow)
    → u ≡ with_attempt a r t
    → Maps.get t.deliveries a.delivery_id ≡ some r
    → is_whole r ≡ true
    → r.delivery_id ≡ a.delivery_id
    → is_consistent a ≡ true
    → is_leased a.worker_id a.claim_generation now r ≡ true
    → has_attempt t.delivery_attempts a.delivery_id a.ordinal ≡ false
    → view u a.delivery_id
      ≡ after (view t a.delivery_id) (transition (records now a) (view t a.delivery_id))
records_fresh now a t u r q e m n c l d = rw q (
    rw (view_row t a.delivery_id r e n) (
      with_attempt-view a t r n
      ∙ recorded_row-view now a (history_of t a.delivery_id) r m c l
          (sym (has_attempt-any t.delivery_attempts a.delivery_id a.ordinal) ∙ d)))

-- What recording does to the delivery, once its row is known.
pub records_row :
    (now : ℕ) (a : DeliveryAttemptRecord) (t : Tables) (r : DeliveryTableRow)
    → Maps.get t.deliveries a.delivery_id ≡ some r
    → is_whole r ≡ true
    → r.delivery_id ≡ a.delivery_id
    → has_valid_fields a ≡ true
    → is_consistent a ≡ true
    → view (perform (records now a) t).1 a.delivery_id
      ≡ after (view t a.delivery_id) (transition (records now a) (view t a.delivery_id))
unfolding view perform transition is_whole
records_row now a t r e m n v c =
    let k = record_attempt_cases now a t r e m v c in
    let h = has_attempt-any t.delivery_attempts a.delivery_id a.ordinal in
    elim (Bool-cases (is_leased a.worker_id a.claim_generation now r)) [
      | inl y ↦ elim (Bool-cases (has_attempt t.delivery_attempts a.delivery_id a.ordinal)) [
        | inl d ↦ ground arith
        | inr d ↦ records_fresh now a t (perform (records now a) t).1 r (ground arith) e m n c y d
      ]
      | inr l ↦ ground arith
    ]

with_attempt-frames :
    (a : DeliveryAttemptRecord) (t : Tables) (r : DeliveryTableRow) (j : DeliveryId)
    → IsSound t j
    → r.delivery_id ≡ a.delivery_id
    → same_text a.delivery_id j ≡ false
    → view (with_attempt a r t) j ≡ view t j
unfolding view recorded_row attempt_to_row
with_attempt-frames a t r j s n h = elim (Option-cases (Maps.get t.deliveries j)) [
  | inl e ↦ grind (arith, map_laws)
  | inr (x, e) ↦
      let p = select-append t.delivery_attempts (attempt_to_row a) x.delivery_id in
      let q = s.named x e in
      let l = append-nil (history_of t x.delivery_id) in grind (arith, map_laws)
]

pub records-frames :
    (now : ℕ) (a : DeliveryAttemptRecord) (t : Tables) (j : DeliveryId)
    → IsSound t a.delivery_id
    → IsSound t j
    → IsRequest (records now a)
    → same_text a.delivery_id j ≡ false
    → view (perform (records now a) t).1 j ≡ view t j
unfolding perform
records-frames now a t j s w q h = elim (Option-cases (Maps.get t.deliveries a.delivery_id)) [
  | inl n ↦ ap (λ (u : Tables). view u j) (records_none now a t n)
  | inr (r, e) ↦
      let k = record_attempt_cases now a t r e (s.checked r e) q.0 q.1 in
      let f = with_attempt-frames a t r j w (s.named r e) h in ground arith
]

recorded_row-answer :
    (now : ℕ) (a : DeliveryAttemptRecord) (h : List DeliveryAttemptRecord) (r : DeliveryTableRow)
    → is_whole r ≡ true
    → is_consistent a ≡ true
    → is_leased a.worker_id a.claim_generation now r ≡ true
    → answer (transition (records now a) (row_view h r)) ≡ (
        if any (λ b. b.ordinal == a.ordinal) h
        then err (repository_error RepositoryOperation.record_attempt)
        else ok tt)
unfolding view transition is_whole is_consistent terminal_state_from_attempt
recorded_row-answer now a h r m c l = ground arith

unleased_row-answer :
    (now : ℕ) (a : DeliveryAttemptRecord) (h : List DeliveryAttemptRecord) (r : DeliveryTableRow)
    → is_whole r ≡ true
    → is_leased a.worker_id a.claim_generation now r ≡ false
    → answer (transition (records now a) (row_view h r))
      ≡ err (claim_lost ClaimOperation.record_attempt a.delivery_id a.worker_id a.claim_generation)
unfolding view transition is_whole
unleased_row-answer now a h r m l = ground arith

pub records_answer :
    (now : ℕ) (a : DeliveryAttemptRecord) (t : Tables) (r : DeliveryTableRow)
    → Maps.get t.deliveries a.delivery_id ≡ some r
    → r.delivery_id ≡ a.delivery_id
    → is_whole r ≡ true
    → has_valid_fields a ≡ true
    → is_consistent a ≡ true
    → (perform (records now a) t).0 ≡ answer (transition (records now a) (view t a.delivery_id))
unfolding perform
records_answer now a t r e n m v c =
    let k = record_attempt_cases now a t r e m v c in
    let h = has_attempt-any t.delivery_attempts a.delivery_id a.ordinal in
    elim (Bool-cases (is_leased a.worker_id a.claim_generation now r)) [
      | inl y ↦
          rw (view_row t a.delivery_id r e n)
            (rw (recorded_row-answer now a (history_of t a.delivery_id) r m c y) (ground arith))
      | inr l ↦
          rw (view_row t a.delivery_id r e n)
            (rw (unleased_row-answer now a (history_of t a.delivery_id) r m l) (ground arith))
    ]
