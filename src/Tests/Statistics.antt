-- ===== src/Tests/Statistics.antt =====
-- The statistics of three findings.
use analysis_engine_service.Prelude.{
  String, ℕ, Elem, ℕ, ◌≡◌, refl, none, some, List, [], ◌∷◌, length, sum_of, ltb, All, Dict, map,
}
use analysis_engine_service.Prelude.Sorting.{IsSorted}
use analysis_engine_service.Domain.Finding.{Finding, info}
use analysis_engine_service.Metrics.Calculator.{
  RuleStatistic, FileStatistic, calculate_rule_statistics, calculate_file_statistics,
  calculate_metrics,
}
use analysis_engine_service.Metrics.Calculator.Statistics.{
  IsRuleStatistic, IsFileStatistic, IsEntryOf, calculate_rule_statistics_lem,
  calculate_file_statistics_lem,
}
use analysis_engine_service.Tests.Samples.{linter_finding, ascii, whole}

abbrev findings : List Finding
findings =
    linter_finding "1" (some 3)
    ∷ record (linter_finding "2" none) {
      file_path = "b.py";
      rule_id = "max-lines";
      severity = info;
    }
    ∷ linter_finding "3" none
    ∷ []

abbrev file_lines : Dict ℕ
file_lines = ("b.py", 10) ∷ ("a.py", 20) ∷ []

calculate_rule_statistics_lem_example :
    All (IsRuleStatistic findings) (calculate_rule_statistics findings)
    × (sum_of (λ (s : RuleStatistic). s.count) (calculate_rule_statistics findings) ≡ 3)
    × IsSorted (λ (a b : RuleStatistic). ltb b.count a.count) (calculate_rule_statistics findings)
calculate_rule_statistics_lem_example = calculate_rule_statistics_lem findings

calculate_file_statistics_lem_example :
    All (IsFileStatistic findings) (calculate_file_statistics findings file_lines)
    × All
        (λ s. (file : String × ℕ) × Elem file file_lines × IsEntryOf s file)
        (calculate_file_statistics findings file_lines)
    × All
        (λ file.
          (s : FileStatistic) × Elem s (calculate_file_statistics findings file_lines)
          × IsEntryOf s file)
        file_lines
    × (length (calculate_file_statistics findings file_lines) ≡ 2)
calculate_file_statistics_lem_example = calculate_file_statistics_lem findings file_lines

-- A finding of severity `info` is a warning of its file.
file_counts :
    map (λ (s : FileStatistic). s.warnings) (calculate_file_statistics findings file_lines)
    ≡ 0 ∷ 1 ∷ []
unfolding calculate_file_statistics
file_counts = refl

-- It is none in the metrics.
warnings_counted : (calculate_metrics ascii whole findings file_lines).warnings ≡ 0
unfolding calculate_metrics
warnings_counted = refl
