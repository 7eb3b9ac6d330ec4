-- ===== src/Tests.antt =====
-- Concrete inputs, one for each property that has a hypothesis.
mod Samples
mod Schedules
mod Permits
mod ContractCases
mod MemoryCases
mod EngineCases
mod PostgresCases
mod ServiceCases
mod IntakeCases
mod WorkerCases
mod SupervisorCases
mod HttpCases
mod HostCases
mod SqlIntakeCases
mod AcceptedCases
mod MetricsCases
