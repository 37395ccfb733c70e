-- ===== src/Diffing.antt =====
-- What a pull request changed (diffing/).
pub mod ChangeMapper
pub mod DiffParser
pub mod GeneratedFiles
pub mod DiffExtractor
