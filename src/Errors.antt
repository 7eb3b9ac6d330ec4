-- ===== src/Errors.antt =====
-- src/errors.ts: the typed failures. A `cause` of `unknown` type is left out.
use engineering_with_effect.Prelude.{ℕ}
use engineering_with_effect.Model.Ids.{EventId, DeliveryId, DestinationId, WorkerId, IngestionKey}

pub data ClaimOperation : Type 0 where
  renew record_attempt complete release : ClaimOperation

pub data RepositoryOperation : Type 0 where
  save find_by_id find_status record_attempt list_dead_letters retry_dead_letter repair_dead_letter
        terminate_dead_letter claim_pending renew_claim complete_claim release_claim :
      RepositoryOperation

pub data RecoveryReason : Type 0 where
  not_found not_dead_lettered : RecoveryReason

-- What the methods of `DeliveryRepository` fail with.
pub data RepositoryFailure : Type 0 where
  claim_lost : ClaimOperation → DeliveryId → WorkerId → ℕ → RepositoryFailure
  dead_letter_recovery : DeliveryId → RecoveryReason → RepositoryFailure
  destination_mismatch : DeliveryId → DestinationId → DestinationId → RepositoryFailure
  repository_error : RepositoryOperation → RepositoryFailure

pub data IntakeOperation : Type 0 where
  save_pending accept : IntakeOperation

-- What the methods of `RelayIntakeStore` fail with.
pub data IntakeFailure : Type 0 where
  ingestion_conflict : IngestionKey → EventId → IntakeFailure
  intake_store_error : IntakeOperation → IntakeFailure
