-- ===== src/Tests/Extracted.antt =====
-- A job whose git commands print a diff.
use analysis_engine_service.Prelude.{ℕ, ◌≡◌, refl, String, some, List, [], ◌∷◌, if◌then◌else◌, ◌==◌}
use analysis_engine_service.Workspace.GitClient.{GitProcess, exits}
use analysis_engine_service.Diffing.DiffParser.Numstat.RoundTrip.{print_rows, entry_of}
use analysis_engine_service.Diffing.DiffParser.Patch.{PatchFile, new_file}
use analysis_engine_service.Diffing.DiffParser.Patch.Print.{patch_lines, print_lines}
use analysis_engine_service.Diffing.DiffExtractor.{to_changed_file}
use analysis_engine_service.Tests.Diffs.{decode_ascii, rows, diffs, edited}

abbrev fourth : List String → String
fourth (a ∷ b ∷ c ∷ d ∷ rest) = d
fourth other = ""

abbrev git : ℕ → List String → GitProcess
git n args =
    if fourth args == "--numstat"
    then exits 0 (print_rows rows)
    else if fourth args == "--unified=0"
    then exits 0 (print_lines (patch_lines diffs))
    else exits 0 []

abbrev patch : PatchFile
patch = record new_file { added_lines = 7 ∷ 3 ∷ 7 ∷ []; deletion_points = 2 ∷ [] }

-- The lines are sorted, and each stands once.
lines_sorted :
    (to_changed_file (entry_of decode_ascii edited) (some patch)).added_lines ≡ 3 ∷ 7 ∷ []
unfolding to_changed_file
lines_sorted = refl
