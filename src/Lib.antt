-- ===== src/Lib.antt =====
-- TechPulse AI gathers articles from reviewed sources, indexes them with language models and answers
-- questions about them. This library models the server's rules for five of its parts, as functions
-- on the documents that they store.
--
-- Provider: the admission of calls to language models.
--   Provider/Admission.antt is server/repositories/mongo/provider-admission-repository.js: one document
--   with the budget window, the live reservations and the circuits of the routes
--   (applyProviderReservation, applyProviderRelease, reserveProviderCall, releaseProviderCall).
--   Provider/FailureDomain.antt is server/repositories/mongo/provider-failure-domain-repository.js: the
--   breaker that all routes of one provider share (applyProviderFailureDomainAdmission,
--   applyProviderFailureDomainOutcome). The modules below the two hold the proofs.
--   Provider/Taxonomy.antt is server/ai/provider-error-taxonomy.js with the errors of the next two,
--   Provider/Registry.antt with Provider/Calls.antt server/ai/provider-admission.js (admitProviderDomain,
--   reportProviderDomain, run), Provider/Routes.antt with Provider/Router.antt
--   server/ai/provider-router.js (execute). Both stand on Provider/Execution.antt: a call takes a state
--   and returns a value or an error with the next state, which holds the local variables of run and
--   execute and a trace of what was reserved, asked to be given back, admitted, reported and called. A
--   reply that comes after the abort or the deadline waits in the state; its observer runs later, on its
--   own (observe_all).
--
-- Jobs: the ingestion of a source, one attempt at a time.
--   Jobs/Names.antt is server/domain/jobs/lease-keys.js and the identities of recovered attempts,
--   Jobs/Leases.antt server/repositories/mongo/lease-repository.js, Jobs/Audit.antt
--   server/audit/job-writer.js, Jobs/ErrorCodes.antt the safe codes of server/jobs/runtime-trace.js.
--   Jobs/Ingestion.antt, Jobs/Ingestion/Recovery.antt, Jobs/Ingestion/Queue.antt,
--   Jobs/Ingestion/Selection.antt and Jobs/Ingestion/Purge.antt are
--   server/repositories/mongo/job-repository.js. A store holds the jobs, the leases, the audit events
--   and what a completion reads of the sources. A worker acquires the lease of its source, and its fence
--   (key, hash of the owner's token, generation) guards every write that it makes to its job.
--   Jobs/Run.antt has the calls of both repositories that write, with one of the creations, as a data type
--   and runs sequences of them.
--
-- Sources: which content of a source may be stored, shown and sent to a model.
--   Sources/Validation.antt and Sources/Rights.antt are server/domain/source/validation.js,
--   Sources/Lifecycle.antt and Sources/Update.antt server/domain/source/state-machine.js,
--   Sources/Content.antt server/domain/policy/content-policy.js with isSourceProductionEligible of
--   server/domain/article/visibility.js. Sources/Cleared.antt runs sequences of the calls.
--
-- Answers: answers to questions, with the evidence and the citations that they stand on.
--   Answers/Evidence.antt is canUseQnaEvidence of server/domain/article/visibility.js and filterQnaEvidence
--   of server/domain/qa/evidence.js, over the sources of Sources. Answers/Citations.antt is
--   server/domain/qa/citations.js and server/domain/qa/support.js: the validation of the paragraphs, the
--   citations that are shown with an answer, and those that were stored before.
--
-- Articles: what is kept of an article that is removed.
--   Articles/Tombstone.antt is server/domain/article/removed-tombstone.js.
--
-- Conventions. A date is its number of milliseconds, an amount a native number, and `none` stands for an
-- Invalid Date, null or a field that is not there; an operation that throws returns an error, and a step
-- of a run then keeps the old state. A transaction is one step, so that interleavings of workers are
-- sequences of calls; the retries of a transaction by the database driver, the deadlines and the abort
-- signals of a single call of a repository are left out. A collection is a list whose documents are
-- found by their unique index. A value has the type that its schema gives it: checks that a value is a string, a
-- number or an object are not modelled. All recursion is structural; the loop
-- of the router runs on fuel, and the fuel of two rounds is enough.
--
-- Parameters stand for the platform: sha256, the decimal text of numbers, toLowerCase and the
-- driver's reading of an ObjectId in Jobs (`Platform`); trim,
-- white space, domainToASCII, isIP and the URL parser in Sources (`Web`); in Provider/Execution the clock,
-- the abort signal, the race of a pending operation with both, fresh ids, the two repositories and what the
-- caller passes as invoke and validateOutput (`Host`); in Answers the text of a number and back
-- (`Numerals`).
--
-- Not modelled: the HTTP interface, the client, the connectors and the database itself; of the job
-- repository the daily materialization and all creations but createIngestionJob; of a source's document
-- the health counters; of the provider calls the adapters of the services and the registry's reading of the
-- environment; of the answers the privacy and intent rules, the text of the prompt and the fence of the
-- evidence; of the articles all but the tombstone; accounts, takedowns, search and administration.
mod Prelude
pub mod Provider
pub mod Jobs
pub mod Sources
pub mod Answers
pub mod Articles
