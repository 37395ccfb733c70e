-- ===== src/Retrieval.antt =====
-- What the agents' tools read (retrieval/).
pub mod Refs
