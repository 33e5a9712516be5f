-- ===== src/Answers.antt =====
-- Answers to questions: the evidence that may be used (Evidence), the citations of an answer (Citations).
pub mod Evidence
pub mod Citations
mod Tests
