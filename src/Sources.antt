-- ===== src/Sources.antt =====
-- Code: server/domain/source and server/domain/policy, the governance of the sources that articles
-- come from: which content of a source may be stored, shown and sent to a language model.
pub mod Validation
pub mod Rights
pub mod Lifecycle
pub mod Update
pub mod Content
mod Parts
pub mod Cleared
pub mod Versions
pub mod Disclosure
mod Tests
