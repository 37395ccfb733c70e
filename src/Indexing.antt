-- ===== src/Indexing.antt =====
-- The code indexer (indexing/).
pub mod Resolver
pub mod Indexer
