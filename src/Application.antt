-- ===== src/Application.antt =====
-- application/: stage 1 of the analysis, from the analyzers' findings to the result.
pub mod FindingNormalizer
pub mod Orchestrator
pub mod Pipeline
