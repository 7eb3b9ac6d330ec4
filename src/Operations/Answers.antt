-- ===== src/Operations/Answers.antt =====
-- src/deliveryOperations.ts over the in-memory repository: what an operator is answered.
use engineering_with_effect.Prelude.{
  ◌≡◌, ap, ◌∙◌, inl, inr, Option, none, some, arith, leb, Option-cases, sort_by, Result, ok, err,
  Action, Result-cases,
}
use engineering_with_effect.Prelude.Maps
use engineering_with_effect.Model.Ids.{DeliveryId}
use engineering_with_effect.Errors.{RepositoryFailure}
use engineering_with_effect.Services.{DeliveryStatus}
use engineering_with_effect.Contract.{Cell, Reply, after, answer}
use engineering_with_effect.Contract.Calls.{Call, target, transition}
use engineering_with_effect.Memory
use engineering_with_effect.Memory.{Store}
use engineering_with_effect.Memory.View.{view, IsSound}
use engineering_with_effect.Memory.Calls.{perform}
use engineering_with_effect.Memory.Refines.{perform-Implements}
use engineering_with_effect.Memory.History.{IsValid, perform-IsValid}
use engineering_with_effect.Operations.{apply_action}

-- A delivery as it is reported: its attempts in the order of their ordinals.
abbrev pub reported : Cell → DeliveryStatus
reported c = record {
  delivery = c.delivery;
  attempts = sort_by (λ l r. leb l.ordinal r.ordinal) c.attempts;
}

abbrev reported_in : Option Cell → Option DeliveryStatus
reported_in none = none
reported_in (some c) = some (reported c)

-- `findStatus` reports what the maps show of a delivery, and changes nothing.
find_status-view :
    (s : Store) (id : DeliveryId)
    → IsSound s id
    → Memory.find_status id s ≡ (ok (reported_in (view s id)), s)
unfolding Memory.find_status view
find_status-view s id v = elim (Option-cases (Maps.get s.records id)) [
  | inl n ↦ ground arith
  | inr (d, e) ↦ let n = v.named d e in ground arith
]

-- What the contract makes of a call, as an answer to the operator.
abbrev pub report : Reply → Result RepositoryFailure DeliveryStatus
report (err e) = err e
report (ok c) = ok (reported c)

module _ {S : Type 0} (find : DeliveryId → Action S RepositoryFailure (Option DeliveryStatus))
    (id : DeliveryId) (mutation : Action S RepositoryFailure (Unit {0})) (s : S)
    (o : Option DeliveryStatus) where
  apply_action-ok :
      (d : DeliveryStatus)
      → find id s ≡ (ok o, s)
      → (mutation s).0 ≡ ok tt
      → find id (mutation s).1 ≡ (ok (some d), (mutation s).1)
      → apply_action find id mutation s ≡ (ok d, (mutation s).1)
  unfolding apply_action
  apply_action-ok d e m f = ground arith

  apply_action-err :
      (x : RepositoryFailure)
      → find id s ≡ (ok o, s)
      → (mutation s).0 ≡ err x
      → apply_action find id mutation s ≡ (err x, (mutation s).1)
  unfolding apply_action
  apply_action-err x e m = ground arith

-- On a valid store every operator's action is answered with the contract's failure, or with the
-- delivery and its attempts as the contract leaves them, and changes the store as its mutation does.
pub apply_action-report :
    (call : Call) (s : Store)
    → IsValid s
    → apply_action Memory.find_status (target call) (perform call) s
      ≡ (report (transition call (view s (target call))), (perform call s).1)
apply_action-report call s v =
    let id = target call in
    let i = perform-Implements call s (v.sound id) in
    let before = find_status-view s id (v.sound id) in
    let later = find_status-view (perform call s).1 id ((perform-IsValid call s v).sound id) in
    elim (Result-cases (transition call (view s id))) [
      | inl (c, e) ↦
          let a : (perform call s).0 ≡ ok tt = i.answers ∙ ap answer e in
          let w : view (perform call s).1 id ≡ some c = i.acts ∙ ap (after (view s id)) e in
          let f = later ∙ ap {A = Option Cell} (λ o. (ok (reported_in o), (perform call s).1)) w in
          rw e (
            apply_action-ok Memory.find_status id (perform call) s (reported_in (view s id))
              (reported c) before a f)
      | inr (x, e) ↦
          let a : (perform call s).0 ≡ err x = i.answers ∙ ap answer e in
          rw e (
            apply_action-err Memory.find_status id (perform call) s (reported_in (view s id)) x
              before a)
    ]
