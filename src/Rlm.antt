-- ===== src/Rlm.antt =====
-- memu/rlm: the recursive orchestrator of queries, and the fusion of ranked answers.
pub mod Orchestrator
pub mod Fusion
mod Tests
