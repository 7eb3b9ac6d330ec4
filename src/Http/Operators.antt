-- ===== src/Http/Operators.antt =====
-- src/httpServer.ts over the in-memory repository: what an operator's request is answered, and does.
use engineering_with_effect.Prelude.{
  ℕ, ◌≡◌, refl, subst, inl, inr, Option, none, some, if◌then◌else◌, Bool-cases, same_text,
  eq_of_same_text, Result,
}
use engineering_with_effect.Model.Ids.{DeliveryId}
use engineering_with_effect.Model.Event.{Destination, DeliveryRouteSnapshot}
use engineering_with_effect.Model.State.{DeliveryState, is_dead_lettered}
use engineering_with_effect.Errors.{RepositoryFailure}
use engineering_with_effect.Services.{DeliveryStatus}
use engineering_with_effect.Contract
use engineering_with_effect.Contract.{Cell, after, revive, settle}
use engineering_with_effect.Contract.Calls.{Call, target, transition, retries, repairs, terminates}
use engineering_with_effect.Memory
use engineering_with_effect.Memory.{Store}
use engineering_with_effect.Memory.View.{view}
use engineering_with_effect.Memory.Calls.{perform}
use engineering_with_effect.Memory.Refines.{perform-Implements}
use engineering_with_effect.Memory.History.{IsValid}
use engineering_with_effect.Operations
use engineering_with_effect.Operations.{apply_action, configured_route}
use engineering_with_effect.Operations.Answers.{reported, report, apply_action-report}
use engineering_with_effect.Http.{Problem, HttpExit, response, failed}
use engineering_with_effect.Http.Handlers.{
  act, recovery_exit, repair_exit, retry_dead_letter, repair_dead_letter, terminate_dead_letter,
}

-- A verdict: the response, and the delivery as it then is.
abbrev Verdict : Type 0
Verdict = HttpExit DeliveryStatus × Option Cell

-- Only a dead letter may be acted on.
abbrev pub ruling : (Cell → HttpExit DeliveryStatus × Cell) → Option Cell → Verdict
ruling action none = (failed Problem.delivery_not_found, none)
ruling action (some c) =
    if is_dead_lettered c.delivery.state
    then ((action c).0, some (action c).1)
    else (failed Problem.not_dead_lettered, some c)

abbrev pub granted : Cell → HttpExit DeliveryStatus × Cell
granted c = (response 200 (reported c), c)

-- The request was answered by the verdict, and did to the delivery what it says, and nothing to others.
abbrev pub Obeys : Store → DeliveryId → HttpExit DeliveryStatus × Store → Verdict → Type 0
Obeys s id (x, t) (y, o) =
    (x ≡ y) × ((j : DeliveryId) → view t j ≡ (if same_text id j then o else view s j))

acted-Obeys :
    (exit : Result RepositoryFailure DeliveryStatus → HttpExit DeliveryStatus) (call : Call)
    (s : Store)
    → IsValid s
    → (let o = view s (target call) in
        Obeys s
          (target call)
          (act exit (apply_action Memory.find_status (target call) (perform call)) s)
          (exit (report (transition call o)), after o (transition call o)))
unfolding act
acted-Obeys exit call s v =
    let i = perform-Implements call s (v.sound (target call)) in
    rw (apply_action-report call s v) (
      refl,
      λ j. elim (Bool-cases (same_text (target call) j)) [
        | inl y ↦ rw (y, ← eq_of_same_text (target call) j y) i.acts
        | inr n ↦ rw n (i.frames j n)
      ],
    )

abbrev pub repaired : ℕ → DeliveryRouteSnapshot → Cell → HttpExit DeliveryStatus × Cell
repaired now route c =
    if same_text c.delivery.destination_id route.destination_id
    then granted (record (revive now c) { route = some route })
    else (failed Problem.destination_mismatch, c)

retries-ruling :
    (now : ℕ) (id : DeliveryId) (o : Option Cell)
    → (
      recovery_exit (report (transition (retries now id) o)),
      after o (transition (retries now id) o),
    )
      ≡ ruling (λ c. granted (revive now c)) o
unfolding transition recovery_exit Contract.retry_dead_letter
retries-ruling now id none = refl
retries-ruling now id (some c) = elim (Bool-cases (is_dead_lettered c.delivery.state)) [
  | inl y ↦ rw y refl
  | inr n ↦ rw n refl
]

terminates-ruling :
    (id : DeliveryId) (o : Option Cell)
    → (
      recovery_exit (report (transition (terminates id) o)),
      after o (transition (terminates id) o),
    )
      ≡ ruling (λ c. granted (settle c DeliveryState.terminated)) o
unfolding transition recovery_exit Contract.terminate_dead_letter
terminates-ruling id none = refl
terminates-ruling id (some c) = elim (Bool-cases (is_dead_lettered c.delivery.state)) [
  | inl y ↦ rw y refl
  | inr n ↦ rw n refl
]

repairs-ruling :
    (now : ℕ) (id : DeliveryId) (route : DeliveryRouteSnapshot) (o : Option Cell)
    → (
      repair_exit (report (transition (repairs now id route) o)),
      after o (transition (repairs now id route) o),
    )
      ≡ ruling (repaired now route) o
unfolding transition repair_exit Contract.repair_dead_letter
repairs-ruling now id route none = refl
repairs-ruling now id route (some c) = elim (Bool-cases (is_dead_lettered c.delivery.state)) [
  | inl y ↦ elim (Bool-cases (same_text c.delivery.destination_id route.destination_id)) [
    | inl z ↦ rw (y, z) refl
    | inr m ↦ rw (y, m) refl
  ]
  | inr n ↦ rw n refl
]

module _ (destination : Destination) (version : ℕ) where
  -- On a valid store the three requests of an operator are answered, and change the delivery, exactly as
  -- follows, and no other delivery: 404 where there is none; 409 where it is no dead letter; 409 where a
  -- repair's destination is another; else 200 with the reported delivery, which is pending again and
  -- eligible now, has the configured route too after a repair, or is terminated. A refused delivery is
  -- as it was, and no 500 and no defect occurs.
  pub operator_answers :
      (now : ℕ) (id : DeliveryId) (s : Store)
      → IsValid s
      → Obeys s id
          (retry_dead_letter Memory.find_status perform destination version now id s)
          (ruling (λ c. granted (revive now c)) (view s id))
        × Obeys s id (repair_dead_letter Memory.find_status perform destination version now id s) (
            ruling
              (repaired now (configured_route Memory.find_status perform destination version))
              (view s id))
        × Obeys s id
            (terminate_dead_letter Memory.find_status perform destination version id s)
            (ruling (λ c. granted (settle c DeliveryState.terminated)) (view s id))
  unfolding retry_dead_letter repair_dead_letter terminate_dead_letter Operations.retry_dead_letter
      Operations.repair_dead_letter Operations.terminate_dead_letter
  operator_answers now id s v =
      let route = configured_route Memory.find_status perform destination version in
      (
        subst
            (Obeys s id
              (act recovery_exit (apply_action Memory.find_status id (perform (retries now id))) s))
            (retries-ruling now id (view s id)) (acted-Obeys recovery_exit (retries now id) s v),
        subst
            (Obeys s id (
              act repair_exit (apply_action Memory.find_status id (perform (repairs now id route)))
                s))
            (repairs-ruling now id route (view s id))
            (acted-Obeys repair_exit (repairs now id route) s v),
        subst
            (Obeys s id
              (act recovery_exit (apply_action Memory.find_status id (perform (terminates id))) s))
            (terminates-ruling id (view s id)) (acted-Obeys recovery_exit (terminates id) s v),
      )
