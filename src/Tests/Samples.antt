-- ===== src/Tests/Samples.antt =====
-- Values for the parameters of the model, and small inputs.
use Prim.Native.Nat.{◌/◌}
use analysis_engine_service.Prelude.{
  true, ◌≡◌, ℕ, ◌+◌, ◌*◌, ◌-◌, String, Bool, false, ◌&&◌, ◌||◌, Option, none, some, List, [], ◌∷◌,
  ◌==◌, if◌then◌else◌, ltb, leb, eqb, arith,
}
use analysis_engine_service.Prelude.Floats.{Floats}
use analysis_engine_service.Prelude.Text.{Unicode}
use analysis_engine_service.Domain.Finding.{Finding, error, bug}
use analysis_engine_service.Domain.AgentReview.{
  high, medium, code_location, business_rule, correctness, running, AgentFinding, AgentReview,
  unverified,
}
use analysis_engine_service.Domain.BusinessRule.{BusinessRule, repository_file, active}
use analysis_engine_service.Domain.ChangeSet.{ChangeSet, ChangedFile, modified, deleted}
use analysis_engine_service.Domain.CodeIndex.{Symbol, Edge, function, calls}
use analysis_engine_service.Rules.RuleSet.{RuleSet}
use analysis_engine_service.Agents.Reviewer.Schema.{
  Evidence, CandidateIssue, CheckOutcome, ReviewerOutput,
}

pub ltb_asym : (x y : ℕ) → ltb x y ≡ true → ltb y x ≡ false
ltb_asym x y h = ground arith

pub not_ltb_trans : (x y z : ℕ) → ltb y x ≡ false → ltb z y ≡ false → ltb z x ≡ false
not_ltb_trans x y z h k = ground arith

-- Whole numbers in place of floats.
abbrev pub whole : Floats
whole = record {
  Float = ℕ;
  of_ℕ = λ n. n;
  add = λ a b. a + b;
  mul = λ a b. a * b;
  div = λ a b. a / b;
  round = λ a n. a;
  lt = ltb;
  lt_asym = ltb_asym;
  not_lt_trans = not_ltb_trans;
}

abbrev pub is_ascii_digit : ℕ → Bool
is_ascii_digit c = leb 48 c && leb c 57

abbrev pub ascii_decimal : ℕ → Option ℕ
ascii_decimal c = if is_ascii_digit c then some (c - 48) else none

abbrev pub is_ascii_space : ℕ → Bool
is_ascii_space c = eqb c 32 || (leb 9 c && leb c 13)

pub ascii_decimal-digit : (c d : ℕ) → ascii_decimal c ≡ some d → is_ascii_digit c ≡ true
ascii_decimal-digit c d h = ground arith

pub latin_decimal-digit :
    (c d : ℕ) → ascii_decimal c ≡ some d → (is_ascii_digit c || eqb c 178) ≡ true
latin_decimal-digit c d h = ground arith

-- The ASCII characters, in texts that are in lower case.
abbrev pub ascii : Unicode
ascii = record {
  is_space = is_ascii_space;
  is_digit = is_ascii_digit;
  decimal = ascii_decimal;
  lower = λ s. s;
  decimal-is_digit = ascii_decimal-digit;
}

-- They and `²`, a digit that is not decimal.
abbrev pub latin : Unicode
latin = record {
  is_space = is_ascii_space;
  is_digit = λ c. is_ascii_digit c || eqb c 178;
  decimal = ascii_decimal;
  lower = λ s. s;
  decimal-is_digit = latin_decimal-digit;
}

abbrev pub files : String → Option (List String)
files path = if path == "a.py" then some ("x = f(1)" ∷ "y = x" ∷ []) else none

abbrev pub digest : String → String
digest text = text

abbrev pub rule : BusinessRule
rule = record {
  rule_id = "BR-1";
  rule = "No call of f.";
  applies_to = "a.py" ∷ [];
  severity = medium;
  rationale = none;
  source = repository_file;
  status = active;
  evidence = none;
}

abbrev pub rules : RuleSet
rules = record { rules = rule ∷ []; errors = []; modified_by_pr = false }

abbrev pub quoted : Evidence
quoted = record { type = code_location; ref = "a.py:1"; quote = some "f(1)" }

abbrev pub invented : Evidence
invented = record { type = code_location; ref = "a.py:1"; quote = some "g(1)" }

abbrev pub cited : Evidence
cited = record { type = business_rule; ref = "[BR-1]"; quote = none }

abbrev pub candidate : String → List Evidence → CandidateIssue ℕ
candidate title evidence = record {
  title = title;
  category = correctness;
  severity = high;
  confidence = 1;
  file_path = "a.py";
  line_start = 1;
  line_end = 1;
  explanation = "";
  evidence = evidence;
  suggested_fix = none;
}

abbrev pub output : ReviewerOutput ℕ
output = record {
  summary = "s";
  areas_touched = [];
  linter_triage = [];
  candidates = candidate "real" (quoted ∷ cited ∷ []) ∷ candidate "made up" (invented ∷ []) ∷ [];
  rule_checks = record { rule_id = "BR-1"; outcome = CheckOutcome.satisfied; note = "" } ∷ [];
}

abbrev pub issue : String → ℕ → ℕ → AgentFinding ℕ
issue title line confidence = record {
  fingerprint = title;
  title = title;
  category = correctness;
  severity = high;
  confidence = confidence;
  file_path = "a.py";
  line_start = line;
  line_end = line;
  explanation = "";
  evidence = [];
  suggested_fix = none;
  rule_ids = "BR-1" ∷ [];
  verification = unverified;
}

abbrev pub linter_finding : String → Option ℕ → Finding
linter_finding fingerprint line = record {
  finding_id = "1";
  repository = "r";
  pull_request_number = 1;
  commit_sha = "c";
  file_path = "a.py";
  line = line;
  column = none;
  end_line = none;
  end_column = none;
  severity = error;
  category = bug;
  rule_id = "E1";
  message = "m";
  tool = "pylint";
  fingerprint = fingerprint;
  remediation_minutes = none;
  metadata = [];
}

abbrev pub changed : ChangedFile
changed = record {
  path = "a.py";
  old_path = none;
  status = modified;
  is_binary = false;
  lines_added = 1;
  lines_removed = 0;
  added_lines = 2 ∷ [];
  deletion_points = [];
}

abbrev pub removed : ChangedFile
removed = record changed { path = "b.py"; status = deleted }

abbrev pub change_set : ChangeSet
change_set = record {
  base_sha = "b";
  head_sha = "h";
  target_branch = "main";
  files = changed ∷ removed ∷ [];
  excluded_files = [];
}

abbrev pub symbol : String → ℕ → ℕ → Symbol
symbol name start end = record {
  symbol_id = name;
  name = name;
  qualified_name = name;
  kind = function;
  file_path = "a.py";
  start_line = start;
  end_line = end;
  language = "python";
}

abbrev pub symbols : List Symbol
symbols = symbol "outer" 1 9 ∷ symbol "inner" 2 4 ∷ []

abbrev pub edge : Option String → Edge
edge target = record {
  kind = calls;
  source_symbol_id = "outer";
  target_name = "inner";
  target_symbol_id = target;
  file_path = "a.py";
  line = 5;
}

abbrev pub edges : List Edge
edges = edge (some "inner") ∷ []

abbrev pub review : AgentReview ℕ
review = record {
  repository = "r";
  pull_request_number = 1;
  status = running;
  skip_reason = none;
  summary = none;
  areas_touched = [];
  risk_level = none;
  findings = [];
  linter_triage = [];
  dropped = [];
  triage_dropped = [];
  rule_checks = [];
  rule_errors = [];
  stats = none;
  error_message = none;
}
