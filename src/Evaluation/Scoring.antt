-- ===== src/Evaluation/Scoring.antt =====
-- evaluation/scoring.py: the score of one case, with the records of evaluation/case.py. The set of the
-- indices of the matched locations is a list of flags, one for each location.
pub mod Counted
use Prim.Native.Char.{Char}
use Prim.Native.String
use Prim.Native.String.{◌++◌ as str_append}
use analysis_engine_service.Prelude.{
  ℕ, ◌+◌, String, Bool, true, false, not, ◌&&◌, ◌||◌, Option, none, some, List, [], ◌∷◌, ◌++◌, map,
  any, filter, length, leb, ◌==◌, if◌then◌else◌, Dict, get,
}
use analysis_engine_service.Prelude.Text.{is_char, has_prefix}
use analysis_engine_service.Prelude.Raises.{Raises, ok, value_error, ◌>>=◌}
use analysis_engine_service.Domain.AgentReview.{
  ReviewStatus, completed, ReviewSkipReason, AgentFinding, DroppedCandidate, AgentReview,
}
use analysis_engine_service.Application.FindingNormalizer.{str}

pub record Expected : Type 0 where
  pub file : String
  pub snippet : String
  pub what : String
  pub also : List (String × String)

-- A file of `head` is none when the pull request deletes it.
pub record Case : Type 0 where
  pub id : String
  pub base : Dict String
  pub head : Dict (Option String)
  pub expected : List Expected

pub record Span : Type 0 where
  pub file : String
  pub start : ℕ
  pub end : ℕ

pub record ExpectedLocation : Type 0 where
  pub expected : Expected
  pub spans : List Span

-- `s.count("\n")`
abbrev pub newlines : String → ℕ
newlines String.[] = 0
newlines (String.◌∷◌ c s) = if is_char 10 c then newlines s + 1 else newlines s

-- The number of line feeds before the first place of a snippet.
abbrev pub lines_before : String → ℕ → String → Option ℕ
lines_before snippet n String.[] = if has_prefix String.[] snippet then some n else none
lines_before snippet n (String.◌∷◌ c s) =
    let later = lines_before snippet (if is_char 10 c then n + 1 else n) s in
    if has_prefix (String.◌∷◌ c s) snippet then some n else later

abbrev pub content_of : Case → String → Option String
content_of c file = elim (get file c.head) [ some content ↦ content | none ↦ get file c.base ]

unfoldable pub span : Case → String → String → Raises Span
span c file snippet = elim (content_of c file) [
  | none ↦ value_error
  | some content ↦ elim (lines_before snippet 0 content) [
    | none ↦ value_error
    | some n ↦ ok (record { file = file; start = n + 1; end = n + 1 + newlines snippet })
  ]
]

unfoldable pub spans : Case → List (String × String) → Raises (List Span)
spans c [] = ok []
spans c ((file, snippet) ∷ places) =
    span c file snippet >>= λ s. spans c places >>= λ rest. ok (s ∷ rest)

unfoldable pub locate : Case → Expected → Raises ExpectedLocation
locate c e =
    spans c ((e.file, e.snippet) ∷ e.also) >>= λ ss. ok (record { expected = e; spans = ss })

unfoldable pub locate_all : Case → List Expected → Raises (List ExpectedLocation)
locate_all c [] = ok []
locate_all c (e ∷ es) = locate c e >>= λ l. locate_all c es >>= λ ls. ok (l ∷ ls)

abbrev pub line_tolerance : ℕ
line_tolerance = 3

unfoldable pub matches : {Float : Type 0} → AgentFinding Float → ExpectedLocation → Bool
matches f location =
    any
      (λ s.
        (f.file_path == s.file)
        && (leb f.line_start (s.end + line_tolerance) && leb s.start (f.line_end + line_tolerance)))
      location.spans

-- The counts of the loop over the findings.
pub record Tally : Type 0 where
  pub true_positives : ℕ
  pub false_positives : ℕ
  pub unexpected : List String
  pub matched : List Bool

-- `matched.update(hits)`
abbrev pub update : List Bool → List Bool → List Bool
update [] hits = []
update (b ∷ bs) [] = b ∷ bs
update (b ∷ bs) (h ∷ hits) = (b || h) ∷ update bs hits

-- The finding as the report shows it.
abbrev pub shown : {Float : Type 0} → AgentFinding Float → String
shown f = str_append f.title (
    str_append " ("
      (str_append f.file_path (str_append ":" (str_append (str (some f.line_start)) ")"))))

unfoldable pub score_finding :
    {Float : Type 0} → List ExpectedLocation → Tally → AgentFinding Float → Tally
score_finding locations t f =
    let hits = map (matches f) locations in
    if any (λ b. b) hits
    then record {
      true_positives = t.true_positives + 1;
      false_positives = t.false_positives;
      unexpected = t.unexpected;
      matched = update t.matched hits;
    }
    else record {
      true_positives = t.true_positives;
      false_positives = t.false_positives + 1;
      unexpected = t.unexpected ++ (shown f ∷ []);
      matched = t.matched;
    }

unfoldable pub score_findings :
    {Float : Type 0} → List ExpectedLocation → Tally → List (AgentFinding Float) → Tally
score_findings locations t [] = t
score_findings locations t (f ∷ fs) = score_findings locations (score_finding locations t f) fs

-- `matched` is empty at the start.
abbrev pub no_counts : List ExpectedLocation → Tally
no_counts locations = record {
  true_positives = 0;
  false_positives = 0;
  unexpected = [];
  matched = map (λ l. false) locations;
}

-- The descriptions of the locations that are not matched.
abbrev pub missed_of : List Bool → List ExpectedLocation → List String
missed_of [] ls = []
missed_of (b ∷ bs) [] = []
missed_of (true ∷ bs) (l ∷ ls) = missed_of bs ls
missed_of (false ∷ bs) (l ∷ ls) = l.expected.what ∷ missed_of bs ls

-- `score.error`: the message, or why the review was skipped.
pub data ScoreError : Type 0 where
  no_review : ScoreError
  message : String → ScoreError
  skipped : Option ReviewSkipReason → ScoreError

-- The score without the numbers of the review's statistics and what it copies of the case.
pub record CaseScore : Type 0 where
  pub status : Option ReviewStatus
  pub expected : ℕ
  pub found : ℕ
  pub reported : ℕ
  pub true_positives : ℕ
  pub false_positives : ℕ
  pub missed : List String
  pub unexpected : List String
  pub dropped : List DroppedCandidate
  pub error : Option ScoreError

abbrev pub is_completed : ReviewStatus → Bool
is_completed status = elim status [ completed ↦ true | _ ↦ false ]

abbrev pub error_of : {Float : Type 0} → AgentReview Float → ScoreError
error_of review = elim review.error_message [
  | none ↦ skipped review.skip_reason
  | some text ↦ if text == "" then skipped review.skip_reason else message text
]

abbrev pub failed_score : List ExpectedLocation → Option ReviewStatus → ScoreError → CaseScore
failed_score locations status error = record {
  status = status;
  expected = length locations;
  found = 0;
  reported = 0;
  true_positives = 0;
  false_positives = 0;
  missed = map (λ l. l.expected.what) locations;
  unexpected = [];
  dropped = [];
  error = some error;
}

abbrev pub completed_score :
    {Float : Type 0} → List ExpectedLocation → AgentReview Float → CaseScore
completed_score locations review =
    let t = score_findings locations (no_counts locations) review.findings in
    record {
      status = some review.status;
      expected = length locations;
      found = length (filter (λ b. b) t.matched);
      reported = length review.findings;
      true_positives = t.true_positives;
      false_positives = t.false_positives;
      missed = missed_of t.matched locations;
      unexpected = t.unexpected;
      dropped = review.dropped;
      error = none;
    }

unfoldable pub score_located :
    {Float : Type 0} → List ExpectedLocation → Option (AgentReview Float) → CaseScore
score_located locations none = failed_score locations none no_review
score_located locations (some review) =
    if is_completed review.status
    then completed_score locations review
    else failed_score locations (some review.status) (error_of review)

unfoldable pub score_case : {Float : Type 0} → Case → Option (AgentReview Float) → Raises CaseScore
score_case c review = locate_all c c.expected >>= λ ls. ok (score_located ls review)
