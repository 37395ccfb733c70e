-- ===== src/Consumers.antt =====
-- Where the jobs come from (consumers/).
pub mod PrQueueConsumer
