-- ===== src/Tests/Scores.antt =====
-- A case with two planted defects, of which a review finds one, and reports one thing more.
use analysis_engine_service.Prelude.{◌≡◌, refl, ℕ, String, none, some, List, [], ◌∷◌}
use analysis_engine_service.Prelude.Raises.{ok}
use analysis_engine_service.Domain.AgentReview.{
  high, correctness, completed, unverified, AgentFinding, AgentReview,
}
use analysis_engine_service.Evaluation.Scoring.{
  Expected, Case, ExpectedLocation, matches, span, spans, locate, locate_all, score_finding,
  score_findings, score_located,
}
use analysis_engine_service.Evaluation.Scoring.Counted.{IsScore, score_located-IsScore}

abbrev defect : String → String → Expected
defect snippet what = record { file = "a.py"; snippet = snippet; what = what; also = [] }

abbrev case : Case
case = record {
  id = "c";
  base = [];
  head = ("a.py", some "x = 1\ny = x / 0\n\n\n\n\n\n\n\nz = w") ∷ [];
  expected = defect "y = x / 0" "division" ∷ defect "z = w" "unknown" ∷ [];
}

abbrev located : List ExpectedLocation
located =
    record {
      expected = defect "y = x / 0" "division";
      spans = record { file = "a.py"; start = 2; end = 2 } ∷ [];
    }
    ∷ record {
      expected = defect "z = w" "unknown";
      spans = record { file = "a.py"; start = 10; end = 10 } ∷ [];
    }
    ∷ []

located_lem : locate_all case case.expected ≡ ok located
unfolding locate_all locate spans span
located_lem = refl

abbrev reported : ℕ → AgentFinding ℕ
reported line = record {
  fingerprint = "f";
  title = "t";
  category = correctness;
  severity = high;
  confidence = 1;
  file_path = "a.py";
  line_start = line;
  line_end = line;
  explanation = "e";
  evidence = [];
  suggested_fix = none;
  rule_ids = [];
  verification = unverified;
}

abbrev answered : AgentReview ℕ
answered = record {
  repository = "r";
  pull_request_number = 1;
  status = completed;
  skip_reason = none;
  summary = none;
  areas_touched = [];
  risk_level = none;
  findings = reported 4 ∷ reported 40 ∷ [];
  linter_triage = [];
  dropped = [];
  triage_dropped = [];
  rule_checks = [];
  rule_errors = [];
  stats = none;
  error_message = none;
}

scored :
    ((score_located located (some answered)).missed ≡ "unknown" ∷ [])
    × ((score_located located (some answered)).unexpected ≡ "t (a.py:40)" ∷ [])
unfolding score_located score_findings score_finding matches
scored = (refl, refl)

score_located-IsScore_example :
    IsScore located answered.findings (score_located located (some answered))
score_located-IsScore_example = score_located-IsScore located answered refl
