-- ===== src/Rules/RulesFile.antt =====
-- rules/rule_set.py: `parse_rules_file`, from the document that YAML gives; the values of YAML and
-- pydantic's construction of a rule are parameters.
pub mod Parsed
use Prim.Native.String.{◌++◌ as str_append}
use analysis_engine_service.Prelude.{
  ℕ, ◌+◌, String, Bool, Option, none, some, ◌⊎◌, inl, inr, List, [], ◌∷◌, ◌++◌, length, take, ltb,
  if◌then◌else◌,
}
use analysis_engine_service.Prelude.Text.{Unicode, strip}
use analysis_engine_service.Prelude.Raises.{Raises, ok, value_error}
use analysis_engine_service.Domain.BusinessRule.{BusinessRule, RuleSource, repository_file}
use analysis_engine_service.Diffing.GeneratedFiles.{is_one_of}
use analysis_engine_service.Application.FindingNormalizer.{str}

abbrev pub max_rules : ℕ
max_rules = 200

-- What the code relies on: `str(v)`, the truth of a value, and the construction of a rule from its
-- id, its text, its patterns (none for `[]`), its severity (none for `"medium"`), its rationale and
-- its source, which gives the rule or the first problem as a text.
pub record Values (Value : Type 0) : Type 0 where
  pub to_text : Value → String
  pub is_true : Value → Bool
  pub construct :
      String
      → String
      → Option Value
      → Option Value
      → Option Value
      → RuleSource
      → BusinessRule ⊎ String

-- An entry of the list: a mapping with its `get`, or something else.
pub data Entry (Value : Type 0) : Type 0 where
  not_mapping : Entry Value
  mapping : (String → Option Value) → Entry Value

-- What loading the text gives: the first line of YAML's error, no list of rules, or the list. It may
-- also raise what is no `YAMLError`, such as the `ValueError` of a date that does not exist.
pub data Document (Value : Type 0) : Type 0 where
  invalid_yaml : String → Document Value
  no_list raises : Document Value
  entries : List (Entry Value) → Document Value

module _ (U : Unicode) {Value : Type 0} (V : Values Value) where
  -- `str(o)`, where a missing value has a default
  abbrev pub text_or : String → Option Value → String
  text_or default none = default
  text_or default (some v) = V.to_text v

  -- `o or []`
  abbrev pub or_empty : Option Value → Option Value
  or_empty none = none
  or_empty (some v) = if V.is_true v then some v else none

  -- The rule that an entry describes.
  unfoldable pub build_rule : (String → Option Value) → BusinessRule ⊎ String
  build_rule get =
      V.construct (strip U (text_or "" (get "id"))) (strip U (text_or "" (get "rule")))
        (or_empty (get "applies_to")) (get "severity") (get "rationale") repository_file

  -- `f"rule #{position}"` and what follows it
  abbrev pub at_position : ℕ → String → String
  at_position position text = str_append "rule #" (str_append (str (some position)) text)

  -- What the loop makes of a mapping, once its rule is built or refused.
  abbrev pub judge :
      List String → ℕ → (String → Option Value) → BusinessRule ⊎ String → BusinessRule ⊎ String
  judge seen position get (inr problem) = inr (
      at_position position
        (str_append " (" (str_append (text_or "no id" (get "id")) (str_append "): " problem))))
  judge seen position get (inl rule) =
      if is_one_of seen rule.rule_id
      then inr (at_position position (str_append ": duplicate id " rule.rule_id))
      else inl rule

  -- One turn of the loop: the rule, or the error.
  unfoldable pub read_entry : List String → ℕ → Entry Value → BusinessRule ⊎ String
  read_entry seen position not_mapping = inr (at_position position ": not a mapping")
  read_entry seen position (mapping get) = judge seen position get (build_rule get)

  -- `seen.add(rule.rule_id)`, and where the loop appends.
  abbrev pub add_seen : BusinessRule ⊎ String → List String → List String
  add_seen (inl rule) seen = rule.rule_id ∷ seen
  add_seen (inr error) seen = seen

  abbrev pub add_read :
      BusinessRule ⊎ String → List BusinessRule × List String → List BusinessRule × List String
  add_read (inl rule) (rules, errors) = (rule ∷ rules, errors)
  add_read (inr error) (rules, errors) = (rules, error ∷ errors)

  unfoldable pub read_entries :
      List String → ℕ → List (Entry Value) → List BusinessRule × List String
  read_entries seen position [] = ([], [])
  read_entries seen position (e ∷ es) =
      let one = read_entry seen position e in
      add_read one (read_entries (add_seen one seen) (position + 1) es)

  unfoldable pub parse_rules_file : Document Value → Raises (List BusinessRule × List String)
  parse_rules_file (invalid_yaml line) =
      ok ([], str_append "rules file is not valid YAML: " line ∷ [])
  parse_rules_file raises = value_error
  parse_rules_file no_list = ok ([], "rules file must have a top-level 'rules' list" ∷ [])
  parse_rules_file (entries es) =
      let (rules, errors) = read_entries [] 1 (take max_rules es) in
      ok (
        rules,
        if ltb max_rules (length es)
            then errors ++ ("only the first 200 rules are used" ∷ [])
            else errors,
      )
