-- ===== src/Evaluation.antt =====
-- The offline evaluation of the reviews (evaluation/).
pub mod Scoring
