-- ===== src/Review/Reporter.antt =====
-- review/reporter.py: merging, ranking and capping the issues that survive.
pub mod Merge
pub mod Ranking
use analysis_engine_service.Prelude.{
  ℕ, Bool, true, false, not, ◌&&◌, List, [], ◌∷◌, ◌++◌, ◌==◌, if◌then◌else◌, leb, any, filter, take,
}
use analysis_engine_service.Prelude.Floats.{Floats}
use analysis_engine_service.Prelude.Sorting.{sorted}
use analysis_engine_service.Domain.AgentReview.{
  Severity, high, medium, low, Category, correctness, security, business_rule, EvidenceType,
  code_location, linter_finding, call_path, test, ReviewEvidence, AgentFinding,
}

abbrev pub max_reported : ℕ
max_reported = 7

abbrev pub severity_weight : Severity → ℕ
severity_weight high = 3
severity_weight medium = 2
severity_weight low = 1

abbrev pub category_eq : Category → Category → Bool
category_eq correctness correctness = true
category_eq security security = true
category_eq Category.business_rule Category.business_rule = true
category_eq _ _ = false

abbrev pub type_eq : EvidenceType → EvidenceType → Bool
type_eq code_location code_location = true
type_eq linter_finding linter_finding = true
type_eq EvidenceType.business_rule EvidenceType.business_rule = true
type_eq call_path call_path = true
type_eq test test = true
type_eq _ _ = false

-- `(a.type, a.ref) == (b.type, b.ref)`
abbrev pub same_ref : ReviewEvidence → ReviewEvidence → Bool
same_ref a b = type_eq a.type b.type && a.ref == b.ref

-- `duplicate.evidence.extend(e for e in more if (e.type, e.ref) not in known)`, where `known` is
-- taken once, before the first is added
abbrev pub extend : List ReviewEvidence → List ReviewEvidence → List ReviewEvidence
extend old more = old ++ filter (λ e. not (any (same_ref e) old)) more

module _ (F : Floats) where
  open F use {Float, of_ℕ, mul, lt}

  -- `_score`
  unfoldable pub score : AgentFinding Float → Float
  score f = mul (of_ℕ (severity_weight f.severity)) f.confidence

  -- The order of `sorted(findings, key=_score, reverse=True)`, which is stable too.
  abbrev pub is_ranked_before : AgentFinding Float → AgentFinding Float → Bool
  is_ranked_before a b = lt (score b) (score a)

  -- `_same_place`
  unfoldable pub same_place : AgentFinding Float → AgentFinding Float → Bool
  same_place a b =
      a.file_path == b.file_path
      && (category_eq a.category b.category
          && (leb a.line_start b.line_end && leb b.line_start a.line_end))

  -- One round of the loop: the first issue at the same place takes the evidence, or the issue is new.
  unfoldable pub merge : List (AgentFinding Float) → AgentFinding Float → List (AgentFinding Float)
  merge [] f = f ∷ []
  merge (m ∷ ms) f =
      if same_place m f
      then record m { evidence = extend m.evidence f.evidence } ∷ ms
      else m ∷ merge ms f

  unfoldable pub merge_all :
      List (AgentFinding Float) → List (AgentFinding Float) → List (AgentFinding Float)
  merge_all merged [] = merged
  merge_all merged (f ∷ fs) = merge_all (merge merged f) fs

  unfoldable pub rank_and_cap : List (AgentFinding Float) → List (AgentFinding Float)
  rank_and_cap findings = take max_reported (merge_all [] (sorted is_ranked_before findings))

  unfoldable pub risk_level : List (AgentFinding Float) → Severity
  risk_level findings =
      if any (λ f. elim f.severity [ high ↦ true | _ ↦ false ]) findings
      then high
      else if any (λ f. elim f.severity [ medium ↦ true | _ ↦ false ]) findings
      then medium
      else low
