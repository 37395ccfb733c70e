-- ===== src/Metrics/Calculator.antt =====
-- metrics/calculator.py, with the records of domain/metrics.py. Floats and the Unicode database are
-- parameters.
pub mod Counts
pub mod Statistics
use Prim.Native.Char.{code}
use Prim.Native.String.{compare}
use text.Mathlib.Text.{is_lt}
use analysis_engine_service.Prelude.{
  ℕ, ◌+◌, ◌*◌, max, String, Bool, true, false, not, ◌||◌, ◌&&◌, Option, none, some, or_else, List,
  [], ◌∷◌, map, filter, length, sum_of, count, ltb, eqb, ◌==◌, if◌then◌else◌, Dict, get, values,
}
use analysis_engine_service.Prelude.Floats.{Floats}
use analysis_engine_service.Prelude.Text.{Unicode, has_prefix}
use analysis_engine_service.Prelude.Sorting.{sorted}
use analysis_engine_service.Domain.Finding.{Finding, Severity, error, warning}
use analysis_engine_service.Diffing.DiffParser.Quoting.{text_after}

pub record Violations (Float : Type 0) : Type 0 where
  pub violations : ℕ
  pub maximum : Option ℕ
  pub average : Option Float

pub record SizeMetrics : Type 0 where
  pub largest_file_lines : ℕ
  pub largest_function_lines : Option ℕ
  pub max_lines_violations : ℕ
  pub max_lines_per_function_violations : ℕ

pub record UnusedCodeMetrics : Type 0 where
  pub unused_variables : ℕ
  pub unreachable_code : ℕ

pub record AnalysisMetrics (Float : Type 0) : Type 0 where
  pub files_analyzed : ℕ
  pub loc : ℕ
  pub errors : ℕ
  pub warnings : ℕ
  pub total_issues : ℕ
  pub error_density : Float
  pub warning_density : Float
  pub issue_density : Float
  pub complexity : Violations Float
  pub cognitive_complexity : Violations Float
  pub size : SizeMetrics
  pub unused_code : UnusedCodeMetrics

pub record RuleStatistic : Type 0 where
  pub rule_id : String
  pub count : ℕ
  pub errors : ℕ
  pub warnings : ℕ

pub record FileStatistic : Type 0 where
  pub file_path : String
  pub loc : ℕ
  pub errors : ℕ
  pub warnings : ℕ
  pub issues : ℕ

abbrev pub is_error : Finding → Bool
is_error f = elim f.severity [ error ↦ true | _ ↦ false ]

abbrev pub is_warning : Finding → Bool
is_warning f = elim f.severity [ warning ↦ true | _ ↦ false ]

abbrev pub has_rule : String → Finding → Bool
has_rule rule f = f.rule_id == rule

-- `max(values) if values else None`
abbrev pub maximum_of : List ℕ → Option ℕ
maximum_of [] = none
maximum_of (n ∷ ns) = some (max n (or_else (maximum_of ns) n))

module _ (U : Unicode) where
  open U use {decimal}

  -- `\d*` and what follows, from the value so far
  abbrev pub read_decimals : ℕ → String → ℕ × String
  read_decimals n String.[] = (n, "")
  read_decimals n (String.◌∷◌ c s) = elim (decimal (code c)) [
    | none ↦ (n, String.◌∷◌ c s)
    | some d ↦ read_decimals (n * 10 + d) s
  ]

  -- `(\d+)` before a text
  abbrev pub read_value : String → String → Option ℕ
  read_value suffix String.[] = none
  read_value suffix (String.◌∷◌ c s) = elim (decimal (code c)) [
    | none ↦ none
    | some d ↦ let (n, rest) = read_decimals d s in if has_prefix rest suffix then some n else none
  ]

  -- The first match of `prefix(\d+)suffix`, its number
  unfoldable pub search_value : String → String → String → Option ℕ
  search_value prefix suffix String.[] = none
  search_value prefix suffix (String.◌∷◌ c s) =
      let later = search_value prefix suffix s in
      elim (text_after prefix (String.◌∷◌ c s)) [
        | none ↦ later
        | some rest ↦ elim (read_value suffix rest) [ some n ↦ some n | none ↦ later ]
      ]

  -- The values in the messages of a rule's findings
  unfoldable pub values_of : String → String → String → List Finding → List ℕ
  unfolding search_value
  values_of rule prefix suffix [] = []
  values_of rule prefix suffix (f ∷ fs) =
      let later = values_of rule prefix suffix fs in
      if has_rule rule f
      then elim (search_value prefix suffix f.message) [ some n ↦ n ∷ later | none ↦ later ]
      else later

  module _ (F : Floats) where
    open F use {Float, of_ℕ, div, round, lt}

    -- The truth value of a float
    abbrev pub is_nonzero : Float → Bool
    is_nonzero x = lt x (of_ℕ 0) || lt (of_ℕ 0) x

    -- `round(n / kloc, 2) if kloc else 0.0`
    abbrev pub density : ℕ → Float → Float
    density n kloc = if is_nonzero kloc then round (div (of_ℕ n) kloc) 2 else of_ℕ 0

    abbrev pub violations_of : List ℕ → Violations Float
    violations_of ns = record {
      violations = length ns;
      maximum = maximum_of ns;
      average = elim ns [
        | [] ↦ none
        | n ∷ rest ↦
            some (round (div (of_ℕ (sum_of (λ k. k) (n ∷ rest))) (of_ℕ (length (n ∷ rest)))) 1)
      ];
    }

    unfoldable pub calculate_metrics : List Finding → Dict ℕ → AnalysisMetrics Float
    unfolding values_of
    calculate_metrics findings file_lines =
        let errors = count is_error findings in
        let warnings = count is_warning findings in
        let loc = sum_of (λ n. n) (values file_lines) in
        let kloc = if eqb loc 0 then of_ℕ 0 else div (of_ℕ loc) (of_ℕ 1000) in
        let function_lines =
          values_of "max-lines-per-function" "has too many lines (" ")" findings in
        record {
          files_analyzed = length file_lines;
          loc = loc;
          errors = errors;
          warnings = warnings;
          total_issues = errors + warnings;
          error_density = density errors kloc;
          warning_density = density warnings kloc;
          issue_density = density (errors + warnings) kloc;
          complexity = violations_of (values_of "complexity" "has a complexity of " "" findings);
          cognitive_complexity = violations_of (
              values_of "sonarjs/cognitive-complexity" "Cognitive Complexity from " " to" findings);
          size = record {
            largest_file_lines = or_else (maximum_of (values file_lines)) 0;
            largest_function_lines = maximum_of function_lines;
            max_lines_violations = count (has_rule "max-lines") findings;
            max_lines_per_function_violations = length function_lines;
          };
          unused_code = record {
            unused_variables =
                count
                  (λ f.
                    has_rule "no-unused-vars" f || has_rule "@typescript-eslint/no-unused-vars" f)
                  findings;
            unreachable_code = count (has_rule "no-unreachable") findings;
          };
        }

-- The entry of a key: how many findings, how many errors and how many others. The entries of the
-- file statistics have no `count`, and nothing reads it there.
pub record Bucket : Type 0 where
  pub count : ℕ
  pub errors : ℕ
  pub warnings : ℕ

abbrev pub no_counts : Bucket
no_counts = record { count = 0; errors = 0; warnings = 0 }

-- `"errors" if finding.severity == "error" else "warnings"`
abbrev pub add_finding : Finding → Bucket → Bucket
add_finding f b = record {
  count = b.count + 1;
  errors = if is_error f then b.errors + 1 else b.errors;
  warnings = if is_error f then b.warnings else b.warnings + 1;
}

-- A finding is counted in the entry of its key, which the `defaultdict` makes if it is not there.
unfoldable pub bump : String → Finding → Dict Bucket → Dict Bucket
bump k f [] = (k, add_finding f no_counts) ∷ []
bump k f ((j, b) ∷ d) = if j == k then (j, add_finding f b) ∷ d else (j, b) ∷ bump k f d

unfoldable pub tally : (Finding → String) → Dict Bucket → List Finding → Dict Bucket
unfolding bump
tally key d [] = d
tally key d (f ∷ fs) = tally key (bump (key f) f d) fs

abbrev pub rule_statistic : String × Bucket → RuleStatistic
rule_statistic (rule, b) = record {
  rule_id = rule;
  count = b.count;
  errors = b.errors;
  warnings = b.warnings;
}

unfoldable pub calculate_rule_statistics : List Finding → List RuleStatistic
unfolding tally
calculate_rule_statistics findings =
    sorted (λ (a b : RuleStatistic). ltb b.count a.count)
      (map rule_statistic (tally (λ f. f.rule_id) [] findings))

-- `counts[file_path]` of a file without findings is made empty.
abbrev pub file_statistic : Dict Bucket → String × ℕ → FileStatistic
file_statistic counts (path, loc) =
    let b = or_else (get path counts) no_counts in
    record {
      file_path = path;
      loc = loc;
      errors = b.errors;
      warnings = b.warnings;
      issues = b.errors + b.warnings;
    }

unfoldable pub calculate_file_statistics : List Finding → Dict ℕ → List FileStatistic
unfolding tally
calculate_file_statistics findings file_lines =
    sorted (λ (a b : FileStatistic). is_lt (compare a.file_path b.file_path))
      (map (file_statistic (tally (λ f. f.file_path) [] findings)) file_lines)
