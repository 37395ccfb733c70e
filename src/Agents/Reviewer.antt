-- ===== src/Agents/Reviewer.antt =====
-- agents/reviewer/: the Reviewer's answer, and what the engine keeps of it.
pub mod Schema
pub mod Location
pub mod Quote
pub mod Evidence
pub mod Validation
