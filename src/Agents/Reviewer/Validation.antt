-- ===== src/Agents/Reviewer/Validation.antt =====
-- `validate_review` of agents/reviewer/validation.py: every claim of the Reviewer is checked against
-- the repository, and only what holds up is kept.
pub mod Cap
pub mod Kept
pub mod Sift
use Prim.Native.String.{String, ◌++◌ as str_append}
use analysis_engine_service.Prelude.{
  ℕ, Bool, true, false, not, ◌&&◌, Option, none, some, List, [], ◌∷◌, ◌++◌, if◌then◌else◌, ltb, leb,
  max, length, any, filter, map, ◌==◌,
}
use analysis_engine_service.Prelude.Text.{Unicode, strip, strip_by, is_bracket, join}
use analysis_engine_service.Prelude.Raises.{Raises, ok, value_error, ◌>>=◌}
use analysis_engine_service.Domain.Finding.{Finding}
use analysis_engine_service.Domain.AgentReview.{
  Severity, high, medium, low, Category, correctness, security, EvidenceType, ReviewEvidence,
  AgentFinding, TriagedLinterFinding, DropReason, file_missing, line_past_end, rule_not_cited,
  nothing_verified, Stage, DroppedCandidate, DroppedTriage, unverified,
}
use analysis_engine_service.Domain.BusinessRule.{BusinessRule}
use analysis_engine_service.Rules.RuleSet.{RuleSet, get_rule}
use analysis_engine_service.Retrieval.Refs.{resolve_finding_ref}
use analysis_engine_service.Agents.Reviewer.Schema.{
  Evidence, TriagedFinding, CandidateIssue, ReviewerOutput,
}
use analysis_engine_service.Agents.Reviewer.Quote.{normalise}
use analysis_engine_service.Agents.Reviewer.Evidence.{Verdict, check_evidence}

abbrev pub severity_rank : Severity → ℕ
severity_rank low = 0
severity_rank medium = 1
severity_rank high = 2

abbrev pub category_name : Category → String
category_name correctness = "correctness"
category_name security = "security"
category_name Category.business_rule = "business_rule"

abbrev pub is_rule_category : Category → Bool
is_rule_category c = elim c [ Category.business_rule ↦ true | _ ↦ false ]

abbrev pub is_rule_type : EvidenceType → Bool
is_rule_type t = elim t [ EvidenceType.business_rule ↦ true | _ ↦ false ]

-- The severities of the rules that `rule_ids` name.
abbrev pub caps : Unicode → Option RuleSet → List String → List Severity
caps U none ids = []
caps U (some set) [] = []
caps U (some set) (i ∷ ids) = elim (get_rule U set i) [
  | none ↦ caps U (some set) ids
  | some r ↦ r.severity ∷ caps U (some set) ids
]

-- `max(caps, key=_SEVERITY_RANK.__getitem__)`
abbrev pub highest : Severity → List Severity → Severity
highest best [] = best
highest best (s ∷ ss) = highest (if ltb (severity_rank best) (severity_rank s) then s else best) ss

abbrev pub cap_at : Severity → List Severity → Severity
cap_at severity [] = severity
cap_at severity (c ∷ cs) =
    let cap = highest c cs in
    if leb (severity_rank severity) (severity_rank cap) then severity else cap

-- `_capped_severity`
unfoldable pub capped_severity : Unicode → Severity → List String → Option RuleSet → Severity
capped_severity U severity ids rules = cap_at severity (caps U rules ids)

-- What a validated review holds.
pub record ValidatedReview (Float : Type 0) : Type 0 where
  pub summary : String
  pub areas_touched : List String
  pub findings : List (AgentFinding Float)
  pub linter_triage : List TriagedLinterFinding
  pub dropped : List DroppedCandidate
  pub triage_dropped : List DroppedTriage

-- A problem that drops the candidate, or its checked evidence.
pub data Checked : Type 0 where
  problem : DropReason → Checked
  supported : List ReviewEvidence → Checked

abbrev pub checked_item : Evidence → Bool → ReviewEvidence
checked_item item holds = record {
  type = item.type;
  ref = item.ref;
  quote = item.quote;
  verified = holds;
}

-- Evidence that counts: verified, and not only the citation of a rule.
abbrev pub counts : ReviewEvidence → Bool
counts e = e.verified && not (is_rule_type e.type)

abbrev pub cites_rule : ReviewEvidence → Bool
cites_rule e = is_rule_type e.type

-- `e.ref.strip().strip("[]")` of the rules that are cited
abbrev pub rule_ids_of : Unicode → List ReviewEvidence → List String
rule_ids_of U es = map (λ e. strip_by is_bracket (strip U e.ref)) (filter cites_rule es)

module _ (U : Unicode) (files : String → Option (List String)) (findings : List Finding)
    (rules : Option RuleSet) where
  -- The loop over the evidence: the first problem ends it.
  unfoldable pub check_all : List ReviewEvidence → List Evidence → Raises Checked
  check_all checked [] = ok (supported checked)
  check_all checked (item ∷ items) = check_evidence U files findings rules item >>= λ v. elim v.0 [
    | some p ↦ ok (problem p)
    | none ↦ check_all (checked ++ checked_item item v.1 ∷ []) items
  ]

  -- The tests after that loop.
  abbrev pub judge : Category → Checked → Checked
  judge category (problem p) = problem p
  judge category (supported es) =
      if is_rule_category category && not (any cites_rule es)
      then problem rule_not_cited
      else if not (any counts es)
      then problem nothing_verified
      else supported es

  module _ (Float : Type 0) where
    -- `_check_candidate`
    unfoldable pub check_candidate : CandidateIssue Float → Raises Checked
    unfolding check_all
    check_candidate c = elim (files c.file_path) [
      | none ↦ ok (problem (file_missing c.file_path))
      | some lines ↦
          if ltb (length lines) c.line_start
          then ok (problem (line_past_end c.line_start c.file_path (length lines)))
          else (do checked ← check_all [] c.evidence; ok (judge c.category checked))
    ]

    -- `digest` is SHA-256 of the text; `_fingerprint`
    module _ (digest : String → String) (repository : String) where
      abbrev pub fingerprint : CandidateIssue Float → String
      fingerprint c = digest (
          join "|" (
            repository
            ∷ category_name c.category
            ∷ c.file_path
            ∷ U.lower (normalise U c.title)
            ∷ []))

      unfoldable pub to_finding : CandidateIssue Float → List ReviewEvidence → AgentFinding Float
      unfolding capped_severity
      to_finding c es =
          let ids = rule_ids_of U es in
          record {
            fingerprint = fingerprint c;
            title = c.title;
            category = c.category;
            severity = capped_severity U c.severity ids rules;
            confidence = c.confidence;
            file_path = c.file_path;
            line_start = c.line_start;
            line_end = max c.line_end c.line_start;
            explanation = c.explanation;
            evidence = es;
            suggested_fix = c.suggested_fix;
            rule_ids = ids;
            verification = unverified;
          }

      -- The loop over the candidates.
      unfoldable pub sift :
          List (AgentFinding Float)
          → List DroppedCandidate
          → List (CandidateIssue Float)
          → Raises (List (AgentFinding Float) × List DroppedCandidate)
      sift kept dropped [] = ok (kept, dropped)
      sift kept dropped (c ∷ cs) = check_candidate c >>= λ r. elim r [
        | problem p ↦
            sift kept
              (dropped ++ record { title = c.title; reason = p; stage = Stage.evidence } ∷ []) cs
        | supported es ↦ sift (kept ++ to_finding c es ∷ []) dropped cs
      ]

  abbrev pub triaged : TriagedFinding → Finding → TriagedLinterFinding
  triaged item f = record {
    fingerprint = f.fingerprint;
    tool = f.tool;
    rule_id = f.rule_id;
    file_path = f.file_path;
    line = f.line;
    message = f.message;
    importance = item.importance;
    reason = item.reason;
  }

  -- The loop over the triage.
  unfoldable pub triage : List TriagedFinding → List TriagedLinterFinding × List DroppedTriage
  triage [] = ([], [])
  triage (item ∷ items) =
      let (kept, dropped) = triage items in
      elim (resolve_finding_ref U item.ref findings) [
        | none ↦ (kept, record { ref = item.ref; reason = "matches no linter finding" } ∷ dropped)
        | some f ↦ (triaged item f ∷ kept, dropped)
      ]

  unfoldable pub validate_review :
      (Float : Type 0)
      → (String → String)
      → String
      → ReviewerOutput Float
      → Raises (ValidatedReview Float)
  unfolding sift triage
  validate_review Float digest repository output = do
    sifted ← sift Float digest repository [] [] output.candidates
    ok (record {
      summary = strip U output.summary;
      areas_touched = map (strip U) (filter (λ a. not (strip U a == "")) output.areas_touched);
      findings = sifted.0;
      linter_triage = (triage output.linter_triage).0;
      dropped = sifted.1;
      triage_dropped = (triage output.linter_triage).1;
    })
