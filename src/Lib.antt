-- ===== src/Lib.antt =====
-- Relay accepts invoice events over HTTP, stores each with a delivery to a destination, and
-- delivers it under leased claims, a retry policy and operator recovery. This library models the
-- persistence of deliveries, in memory and over PostgreSQL, the policy that turns results into
-- states, the engine that makes the attempts, the worker and the supervisor around it, admission,
-- the requests over HTTP, the operator's actions, the incident analyst, and the checks of the
-- configuration.
--
-- The parts, and the files that model them:
--   src/model.ts: Model, with its identifiers (Model/Ids), events, claims and routes (Model/Event),
--     states (Model/State), outcomes and response classification (Model/Outcome), attempts and
--     their durable records (Model/Attempt) and results (Model/Results). Texts are lists of code
--     points, and a `URL` is its `href`.
--   src/deliveryPolicy.ts: Policy (`deliveryStateFromResult`, `terminalStateFromAttempt`), with the
--     agreement of its tables in Policy/Parity.
--   src/services.ts and src/errors.ts: Services and Errors, the data and the typed failures of the
--     persistence services. The contract of `DeliveryRepository` for one delivery is Contract
--     (`Cell`, and a transition for each operation), its calls as data are Contract/Calls, and its
--     laws Contract/Laws. Contract/Repository is the interface that an adapter fills, and
--     Contract/Fencing, Contract/Owners and Contract/Parity are proved over it.
--   src/adapters/memoryPersistence.ts: Memory, one function per operation of the repository over
--     the shared maps (`save`, `findById`, `recordAttempt` and so on), Memory/Claims for
--     `claimPending` and the rounds of its loop, and Memory/Intake for the intake store.
--     Memory/View shows the maps as the contract's cells; Memory/Refines, Memory/Claiming,
--     Memory/Claimed, Memory/Exhaustive, Memory/Invariant and Memory/Idempotency hold the proofs,
--     and Memory/History fills the contract's interface (`memory`).
--   src/adapters/postgres/deliveryRepository.ts: Postgres/Rows (conversions of rows),
--     Postgres/Statements (the SQL statements), Postgres/Adapter (`makeDeliveryRepositorySql` over
--     the statements), Postgres/Claiming (`claimPending`, with its statement), Postgres/View
--     (tables as the contract's cells). src/adapters/postgres/migrations.ts: Postgres/Tables, the
--     tables with their checks. src/adapters/postgres/intakeStore.ts: Postgres/Intake.
--     Postgres/Recording, Postgres/Refines, Postgres/Invariant, Postgres/Claimed,
--     Postgres/Entering, Postgres/Keys, Postgres/Idempotency and Postgres/Parity hold the proofs,
--     and Postgres/History fills the contract's interface (`postgres`).
--   src/deliveryEngine.ts: Engine/Schedule (`makeRetrySchedule`) and Engine (`runDeliveryWithRetry`
--     and its helpers), with how a run may end in Engine/Endings and proofs in Engine/Bounds,
--     Engine/Run and Engine/Recorded.
--   src/deliveryWorker.ts: Worker (`makeDeliveryWorker`: `renewLease`, `recordAttempt`, `process`),
--     with Worker/Sessions, Worker/Recording and Worker/Jobs. The ticks of a job are what happens
--     beside it (renewals, other sessions, a cancellation), each before a recording or before the
--     publication.
--   src/deliverySupervisor.ts: Supervisor (`offerClaimed`, `submitClaimed`, `deliverTo`,
--     `resumeClaimed`, `enqueueClaimed`, and the stream of requests with its permits as steps),
--     with proofs in Supervisor/Offers and Supervisor/Dispatch. Waiting for a job's result is the
--     host's, and an argument.
--   src/httpServer.ts and src/operationsApi.ts: Http (the problems with their statuses,
--     `sameSecret`, the bearer middlewares, `RequestContractLive`) and Http/Handlers (the handlers
--     of the three groups), with Http/Guards, Http/Operators and Http/Events, which follow a
--     request from its headers to the response. `timingSafeEqual` and the bytes of a text are
--     parameters.
--   src/reconciler.ts: Reconciler (`reconcileOnce`, `safePass`), with Reconciler/Passes over the
--     in-memory repository and the supervisor. The deliveries of a pass begin one after the other.
--   src/effectSender.ts, src/promiseSender.ts, src/destinationClient.ts and src/workflow.ts:
--     Sender, with Sender/Clients and Sender/Agreement. The host's two HTTP clients over one
--     network are a parameter (Sender/Clients): Node's client hands back whatever status comes, and
--     `fetch` does where it is told `redirect: "manual"`.
--   src/runtime.ts and src/readiness.ts: Runtime (`shutdown`, `isReady`, and the start as steps),
--     with Runtime/Shutdown.
--   src/eventIntake.ts and src/identifiers.ts: EventIntake (`accept` and its parts), with
--     EventIntake/Replays, and EventIntake/Accepted over the in-memory store and the supervisor.
--     The schema's decoder, the digest in hexadecimal, the store and the supervisor are parameters,
--     and the two UUIDs are arguments.
--   src/deliveryAdmission.ts: Admission (`semaphoreFor`, `overload`, `adjustAdmitted`, and `admit`
--     in two halves, before and after its task), with proofs in Admission/Bounds and
--     Admission/Histories, and Admission/Concurrency (`withCapacity` as steps of the attempts that
--     wait, run and end), with Admission/Concurrency/Permits and Admission/Concurrency/Limits.
--   src/deliveryMetrics.ts: Metrics (`initialize` and each recorder), with Metrics/Recordings,
--     Metrics/Counts, Metrics/Gauges and Metrics/Shown. The host's metrics are a parameter.
--   src/deliveryOperations.ts: Operations (`applyAction` and the three actions), with
--     Operations/Answers over the in-memory repository.
--   src/incidentAnalyst.ts: Analyst (`makeEvidence`, `fallbackSuggestion`, `analyze`, the audit's
--     `append`), with Analyst/Reports.
--   src/configuration.ts: Configuration (the checks of `flow` and `recovery`),
--     Configuration/Variables (`AppConfigurationLive`, from the variables), with
--     Configuration/Readings and Configuration/Sound, and Configuration/Renewal with the contract.
--     Engine/Responses follows a response through the model, one round of the engine and the
--     policy.
--
-- How they interact: both adapters are run through the same calls (Contract/Calls), and each is
-- proved to perform the contract's transition on the delivery that the call names. The engine's
-- last recorded attempt leads the contract to the state that its result does.
--
-- State is passed explicitly: an operation takes the maps or the tables and returns a result and
-- the new ones. The clock is an argument. An operation of the in-memory adapter runs without a
-- pause between its reads and its writes, as its source does. A statement of SQL is one step; where
-- an operation of the SQL adapter has two statements, what other sessions do between them is an
-- argument. A statement that breaks a constraint fails and changes nothing; a check that comes to
-- null passes, as in SQL, and that a dead letter has its reason is part of the invariant
-- (`is_whole` of Postgres/View).
--
-- The combinators of `Schedule`, from the library effect, are a parameter with the documented
-- behaviour of one step (Engine/Schedule), and Tests/EngineCases gives an instance. `Date.parse`,
-- `localeCompare` and the collation of the database and the rows that other sessions lock are
-- parameters. The host's part in a round of the engine (clocks, the random draw, the attempt, the
-- recording as an action on a state) is a list of rounds: `max_attempts` rounds are proved to be
-- enough.
--
-- In deliveryAdmission.ts the `Semaphore` of the library effect is a parameter with its documented
-- behaviour, and a history of arrivals and ends stands for the running fibers. In
-- incidentAnalyst.ts the language model's answer is an argument; a number is written with at most
-- 16 digits, which a safe integer has. A report is made only of a suggestion within the schema's
-- bounds; fallback summaries are, for identifiers of at most 397 characters.
--
-- Not modelled: the integer ranges of the columns, the routing and the encodings of HTTP, the
-- parsing of one variable's text, the calls of the metrics in the other parts, the events of
-- deliveries and the spans, the administration's command line, the wiring of layers, and the
-- encodings of the schemas.
pub mod Prelude
pub mod Model
pub mod Policy
pub mod Errors
pub mod Services
pub mod Contract
pub mod Memory
pub mod Postgres
pub mod Engine
pub mod Admission
pub mod Operations
pub mod Analyst
pub mod Configuration
pub mod EventIntake
pub mod Worker
pub mod Supervisor
pub mod Reconciler
pub mod Http
pub mod Sender
pub mod Runtime
pub mod Metrics
pub mod Tests
