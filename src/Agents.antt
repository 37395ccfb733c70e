-- ===== src/Agents.antt =====
-- The agents (agents/): the Reviewer with the checks of its claims, and the runtime.
pub mod Reviewer
pub mod Runtime
