-- ===== src/Jobs.antt =====
-- Code: server/domain/jobs, server/audit/job-writer.js and the job and lease repositories of
-- server/repositories/mongo, which run the ingestion of each source one attempt at a time.
pub mod Names
pub mod Leases
pub mod Audit
pub mod ErrorCodes
pub mod Run
pub mod Ingestion
