-- ===== src/Metrics.antt =====
-- What the findings amount to (metrics/).
pub mod Calculator
