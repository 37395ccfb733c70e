-- ===== src/Domain.antt =====
-- The internal models of domain/: findings, change sets, the code index, business rules, reviews.
pub mod Finding
pub mod ChangeSet
pub mod CodeIndex
pub mod BusinessRule
pub mod AgentReview
