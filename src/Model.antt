-- ===== src/Model.antt =====
-- src/model.ts: the domain's identifiers, data and pure decisions.
pub mod Ids
pub mod Event
pub mod State
pub mod Outcome
pub mod Attempt
pub mod Results
