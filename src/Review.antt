-- ===== src/Review.antt =====
-- Stage 2 of the analysis: the AI review (review/).
pub mod Reporter
pub mod Verification
pub mod Orchestrator
