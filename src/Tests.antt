-- ===== src/Tests.antt =====
-- The theorems at concrete inputs.
mod Samples
mod Reviews
mod Runs
mod Changes
mod References
mod Diffs
mod Extracted
mod Statistics
mod Messages
mod Mined
mod Scores
mod RulesFiles
mod Indexed
