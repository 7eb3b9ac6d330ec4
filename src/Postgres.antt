-- ===== src/Postgres.antt =====
-- src/adapters/postgres: the repository and the intake store over SQL tables.
pub mod Rows
pub mod Tables
pub mod Statements
pub mod Adapter
pub mod View
pub mod Recording
pub mod Refines
pub mod Invariant
pub mod Intake
pub mod Entering
pub mod History
pub mod Keys
pub mod Idempotency
pub mod Parity
pub mod Claiming
pub mod Claimed
