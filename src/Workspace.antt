-- ===== src/Workspace.antt =====
-- Git commands and the checks on what a job names (workspace/).
pub mod GitClient
