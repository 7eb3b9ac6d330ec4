-- ===== src/Postgres/Adapter.antt =====
-- src/adapters/postgres/deliveryRepository.ts: `makeDeliveryRepositorySql`, over the statements.
-- `between` is what other sessions do to the tables between two statements of one operation.
use engineering_with_effect.Prelude.{
  ℕ, Bool, true, false, not, Option, none, some, List, [], ◌∷◌, map, ltb, if◌then◌else◌, Text,
  same_text, Result, ok, err, Action,
}
use engineering_with_effect.Model.Ids.{DeliveryId, WorkerId}
use engineering_with_effect.Model.Event.{DeliveryClaim, DeliveryRouteSnapshot}
use engineering_with_effect.Model.State.{Delivery}
use engineering_with_effect.Model.Attempt.{DeliveryAttemptRecord, has_valid_fields}
use engineering_with_effect.Model.Results.{DeliveryResult}
use engineering_with_effect.Errors.{
  RepositoryFailure, ClaimOperation, RepositoryOperation, claim_lost, repository_error,
  dead_letter_recovery, destination_mismatch, not_found, not_dead_lettered,
}
use engineering_with_effect.Services.{DeliveryStatus}
use engineering_with_effect.Postgres.Rows.{
  DeliveryRow, DeliveryClaimRow, DeliveryAttemptRow, decode_row, row_fields, row_to_delivery,
  row_to_claim, delivery_to_row, attempt_to_row, row_to_attempt, delivery_completion_row,
}
use engineering_with_effect.Postgres.Tables.{Tables, DeliveryTableRow, SqlError}
use engineering_with_effect.Postgres.Statements

abbrev pub decode_delivery : DeliveryTableRow → Option DeliveryRow
decode_delivery r =
    decode_row
      (record {
        delivery_id = r.delivery_id;
        event_id = r.event_id;
        destination_id = r.destination_id;
      })
      r.columns

-- The schema `DeliveryClaimRow`: its columns are not null.
abbrev claim_row_of : Option WorkerId → ℕ → Option ℕ → Option DeliveryClaimRow
claim_row_of (some owner) generation (some expiry) =
    some
      (record { claim_owner = owner; claim_generation = generation; lease_expires_at_ms = expiry })
claim_row_of owner generation expiry = none

abbrev pub decode_claim : DeliveryTableRow → Option DeliveryClaimRow
decode_claim r = claim_row_of r.claim_owner r.claim_generation r.lease_expires_at_ms

abbrev repository_failed : {A : Type 0} → RepositoryOperation → Result RepositoryFailure A
repository_failed operation = err (repository_error operation)

module _ {R A : Type 0} (operation : RepositoryOperation) (decode : R → Option A) where
  -- `SqlSchema.findOneOption`: the first row, decoded.
  abbrev find_one : Result SqlError (List R) → Result RepositoryFailure (Option A)
  find_one (err e) = repository_failed operation
  find_one (ok []) = ok none
  find_one (ok (r ∷ rs)) = elim (decode r) [
    | none ↦ repository_failed operation
    | some a ↦ ok (some a)
  ]

  -- `SqlSchema.findAll`: every row, decoded.
  abbrev decode_all : List R → Option (List A)
  decode_all [] = some []
  decode_all (r ∷ rs) = elim (decode r) [
    | none ↦ none
    | some a ↦ elim (decode_all rs) [ none ↦ none | some as_ ↦ some (a ∷ as_) ]
  ]

  abbrev pub find_all : Result SqlError (List R) → Result RepositoryFailure (List A)
  find_all (err e) = repository_failed operation
  find_all (ok rs) = elim (decode_all rs) [ none ↦ repository_failed operation | some as_ ↦ ok as_ ]

-- A mutation's row has the identifier only.
abbrev mutated : {R : Type 0} → R → Option R
mutated r = some r

-- `Option.match` of a mutation under a claim.
abbrev required :
    {A : Type 0}
    → RepositoryFailure
    → Result RepositoryFailure (Option A)
    → Result RepositoryFailure A
required failure (err e) = err e
required failure (ok none) = err failure
required failure (ok (some a)) = ok a

abbrev discard : {A : Type 0} → Result RepositoryFailure A → Result RepositoryFailure (Unit {0})
discard (err e) = err e
discard (ok a) = ok tt

unfoldable pub save : ℕ → Delivery → Action Tables RepositoryFailure Unit
unfolding Statements.save delivery_to_row
save now delivery t =
    let (r, t') = Statements.save now (delivery_to_row delivery) t in
    (elim r [ err e ↦ repository_failed RepositoryOperation.save | ok u ↦ ok u ], t')

unfoldable pub find_by_id : DeliveryId → Action Tables RepositoryFailure (Option Delivery)
unfolding Statements.find_by_id row_to_delivery
find_by_id id t =
    let (r, t') = Statements.find_by_id id t in
    (
      elim (find_one RepositoryOperation.find_by_id decode_delivery r) [
        | err e ↦ err e
        | ok none ↦ ok none
        | ok (some row) ↦ ok (some (row_to_delivery row))
      ],
      t',
    )

abbrev attempt_row : DeliveryAttemptRow → Option DeliveryAttemptRow
attempt_row r = if has_valid_fields (row_to_attempt r) then some r else none

-- A delivery with its attempts, read after it.
status_of : RepositoryOperation → DeliveryRow → Tables → Result RepositoryFailure DeliveryStatus
unfolding Statements.find_attempts row_to_delivery row_to_attempt has_valid_fields
status_of operation row t =
    elim (find_all operation attempt_row
      (Statements.find_attempts (row_fields row).delivery_id t).0) [
        | err e ↦ err e
        | ok attempts ↦
            ok (record { delivery = row_to_delivery row; attempts = map row_to_attempt attempts })
      ]

unfoldable pub find_status :
    (Tables → Tables) → DeliveryId → Action Tables RepositoryFailure (Option DeliveryStatus)
unfolding Statements.find_by_id status_of
find_status between id t =
    elim (find_one RepositoryOperation.find_status decode_delivery (Statements.find_by_id id t).0) [
      | err e ↦ (err e, t)
      | ok none ↦ (ok none, t)
      | ok (some row) ↦ (
        elim (status_of RepositoryOperation.find_status row (between t)) [
          | err e ↦ err e
          | ok s ↦ ok (some s)
        ],
        between t,
      )
    ]

unfoldable pub record_attempt : ℕ → DeliveryAttemptRecord → Action Tables RepositoryFailure Unit
unfolding Statements.record_attempt attempt_to_row has_valid_fields
record_attempt now attempt t =
    if has_valid_fields attempt
    then (let (r, t') = Statements.record_attempt now (attempt_to_row attempt) t in
        (
          discard (
              required
                (claim_lost ClaimOperation.record_attempt attempt.delivery_id attempt.worker_id
                  attempt.claim_generation)
                (find_one RepositoryOperation.record_attempt mutated r)),
          t',
        ))
    else (repository_failed RepositoryOperation.record_attempt, t)

statuses_of :
    RepositoryOperation → List DeliveryRow → Tables → Result RepositoryFailure (List DeliveryStatus)
unfolding status_of
statuses_of operation [] t = ok []
statuses_of operation (r ∷ rs) t = elim (status_of operation r t) [
  | err e ↦ err e
  | ok s ↦ elim (statuses_of operation rs t) [ err e ↦ err e | ok ss ↦ ok (s ∷ ss) ]
]

unfoldable pub list_dead_letters :
    (Text → Text → Bool)
    → (Tables → Tables)
    → ℕ
    → Action Tables RepositoryFailure (List DeliveryStatus)
unfolding Statements.list_dead_letters statuses_of
list_dead_letters collates between limit t =
    if ltb 0 limit
    then elim (find_all RepositoryOperation.list_dead_letters decode_delivery
        (Statements.list_dead_letters collates limit t).0) [
          | err e ↦ (err e, t)
          | ok rows ↦
              (statuses_of RepositoryOperation.list_dead_letters rows (between t), between t)
        ]
    else (repository_failed RepositoryOperation.list_dead_letters, t)

abbrev is_dead_row : DeliveryRow → Bool
is_dead_row (DeliveryRow.dead_lettered f r) = true
is_dead_row _ = false

unfoldable require_dead_letter :
    DeliveryId → RepositoryOperation → Tables → Result RepositoryFailure DeliveryRow
unfolding Statements.find_by_id
require_dead_letter id operation t =
    elim (find_one operation decode_delivery (Statements.find_by_id id t).0) [
      | err e ↦ err e
      | ok none ↦ err (dead_letter_recovery id not_found)
      | ok (some row) ↦
          if is_dead_row row then ok row else err (dead_letter_recovery id not_dead_lettered)
    ]

-- What follows the update of a dead letter.
abbrev recovered :
    DeliveryId
    → RepositoryOperation
    → Result SqlError (List DeliveryTableRow) × Tables
    → Result RepositoryFailure (Unit {0}) × Tables
recovered id operation (r, t) = (
  discard (required (dead_letter_recovery id not_dead_lettered) (find_one operation mutated r)),
  t,
)

unfoldable pub retry_dead_letter :
    ℕ → (Tables → Tables) → DeliveryId → Action Tables RepositoryFailure Unit
unfolding require_dead_letter Statements.retry_dead_letter
retry_dead_letter now between id t =
    elim (require_dead_letter id RepositoryOperation.retry_dead_letter t) [
      | err e ↦ (err e, t)
      | ok row ↦
          recovered id RepositoryOperation.retry_dead_letter
            (Statements.retry_dead_letter now id (between t))
    ]

unfoldable pub repair_dead_letter :
    ℕ
    → (Tables → Tables)
    → DeliveryId
    → DeliveryRouteSnapshot
    → Action Tables RepositoryFailure Unit
unfolding require_dead_letter Statements.repair_dead_letter
repair_dead_letter now between id route t =
    elim (require_dead_letter id RepositoryOperation.repair_dead_letter t) [
      | err e ↦ (err e, t)
      | ok row ↦
          if not (same_text (row_fields row).destination_id route.destination_id)
          then (
            err (destination_mismatch id (row_fields row).destination_id route.destination_id),
            t,
          )
          else recovered id RepositoryOperation.repair_dead_letter (
              Statements.repair_dead_letter now
                (record {
                  delivery_id = id;
                  destination_id = route.destination_id;
                  destination_url = route.endpoint;
                  configuration_version = route.configuration_version;
                })
                (between t))
    ]

unfoldable pub terminate_dead_letter :
    (Tables → Tables) → DeliveryId → Action Tables RepositoryFailure Unit
unfolding require_dead_letter Statements.terminate_dead_letter
terminate_dead_letter between id t =
    elim (require_dead_letter id RepositoryOperation.terminate_dead_letter t) [
      | err e ↦ (err e, t)
      | ok row ↦
          recovered id RepositoryOperation.terminate_dead_letter
            (Statements.terminate_dead_letter id (between t))
    ]

abbrev lost : ClaimOperation → DeliveryId → DeliveryClaim → RepositoryFailure
lost operation id claim = claim_lost operation id claim.owner_id claim.generation

unfoldable pub renew_claim :
    ℕ → DeliveryId → DeliveryClaim → ℕ → Action Tables RepositoryFailure DeliveryClaim
unfolding Statements.renew_claim row_to_claim
renew_claim now id claim lease t =
    if ltb 0 lease
    then (let (r, t') = Statements.renew_claim now id claim.owner_id claim.generation lease t in
        (
          elim (required (lost ClaimOperation.renew id claim)
              (find_one RepositoryOperation.renew_claim decode_claim r)) [
                | err e ↦ err e
                | ok row ↦ ok (row_to_claim row)
              ],
          t',
        ))
    else (repository_failed RepositoryOperation.renew_claim, t)

unfoldable pub complete_claim :
    ℕ → DeliveryId → DeliveryClaim → DeliveryResult → Action Tables RepositoryFailure Unit
unfolding Statements.complete_claim delivery_completion_row
complete_claim now id claim result t =
    let (r, t') = Statements.complete_claim now (delivery_completion_row id claim result) t in
    (
      discard (
          required (lost ClaimOperation.complete id claim)
            (find_one RepositoryOperation.complete_claim mutated r)),
      t',
    )

unfoldable pub release_claim : DeliveryId → DeliveryClaim → Action Tables RepositoryFailure Unit
unfolding Statements.release_claim
release_claim id claim t =
    let (r, t') = Statements.release_claim id claim.owner_id claim.generation t in
    (
      discard (
          required (lost ClaimOperation.release id claim)
            (find_one RepositoryOperation.release_claim mutated r)),
      t',
    )
