-- ===== src/Diffing/DiffParser.antt =====
-- diffing/diff_parser.py: what `git diff` prints, read back. `bytes.decode("utf-8",
-- errors="replace")` is a parameter.
pub mod Quoting
pub mod Numstat
pub mod Patch
