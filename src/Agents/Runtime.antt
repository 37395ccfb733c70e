-- ===== src/Agents/Runtime.antt =====
-- agents/runtime/: the provider's interface, prices and the agent loop.
pub mod Provider
pub mod AgentLoop
