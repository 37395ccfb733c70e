-- ===== src/Rules/RulesFile/Parsed.antt =====
-- What is read from the rules file: the rules are the entries', with an error for each other entry.
use analysis_engine_service.Prelude.{
  ◌+◌, min, ◌≡◌, String, true, false, ◌⊎◌, inl, inr, List, [], ◌∷◌, length, take, ltb,
  if◌then◌else◌,
}
use analysis_engine_service.Prelude.Text.{Unicode}
use analysis_engine_service.Prelude.Raises.{Raises, ok, value_error}
use analysis_engine_service.Domain.BusinessRule.{BusinessRule}
use analysis_engine_service.Diffing.GeneratedFiles.{is_one_of}
use analysis_engine_service.Rules.RulesFile.{
  max_rules, Values, Entry, not_mapping, mapping, Document, invalid_yaml, no_list, raises, entries,
  build_rule,
}

-- No id is among the given ones, and no two are the same.
abbrev pub AreFresh : List String → List BusinessRule → Type 0
AreFresh seen [] = Unit
AreFresh seen (r ∷ rs) = (is_one_of seen r.rule_id ≡ false) × AreFresh (r.rule_id ∷ seen) rs

module _ (U : Unicode) {Value : Type 0} (V : Values Value) where
  -- The entry is a mapping that describes the rule.
  abbrev pub Describes : Entry Value → BusinessRule → Type 0
  Describes not_mapping r = ⊥
  Describes (mapping get) r = build_rule U V get ≡ inl r

  -- Why an entry gives no rule, after the ids in `seen`: it is no mapping, no rule can be built of it,
  -- or its rule has one of these ids.
  abbrev pub IsRefused : List String → Entry Value → Type 0
  IsRefused seen not_mapping = Unit
  IsRefused seen (mapping get) =
      ((problem : String) × (build_rule U V get ≡ inr problem))
      ⊎ ((r : BusinessRule) × (build_rule U V get ≡ inl r) × (is_one_of seen r.rule_id ≡ true))

  -- The rules of some entries, after the ids in `seen`: each entry gives the next rule, with an id
  -- that is new, or is refused for a reason.
  pub data AreRead : List String → List BusinessRule → List (Entry Value) → Type 0 where
    done : {seen : List String} → AreRead seen [] []
    described :
        {seen : List String} {r : BusinessRule} {e : Entry Value} {rs : List BusinessRule}
        {es : List (Entry Value)}
        → Describes e r
        → is_one_of seen r.rule_id ≡ false
        → AreRead (r.rule_id ∷ seen) rs es
        → AreRead seen (r ∷ rs) (e ∷ es)
    refused :
        {seen : List String} {e : Entry Value} {rs : List BusinessRule} {es : List (Entry Value)}
        → IsRefused seen e
        → AreRead seen rs es
        → AreRead seen rs (e ∷ es)

  pub record IsRead (seen : List String) (es : List (Entry Value))
      (r : List BusinessRule × List String) : Type 0 where
    pub read : AreRead seen r.0 es
    pub counted : length r.0 + length r.1 ≡ length es

  abbrev IsFor : List String → Entry Value → BusinessRule ⊎ String → Type 0
  IsFor seen e (inl rule) = (is_one_of seen rule.rule_id ≡ false) × Describes e rule
  IsFor seen e (inr error) = IsRefused seen e

  -- What a list of entries gives: the rules of its first 200.
  pub record IsParsed (es : List (Entry Value)) (r : List BusinessRule × List String) : Type 0 where
    pub fresh : AreFresh [] r.0
    pub read : AreRead [] r.0 (take max_rules es)
    pub counted :
        length r.0 + length r.1
        ≡ min max_rules (length es) + (if ltb max_rules (length es) then 1 else 0)

  abbrev pub IsOutcome : Document Value → Raises (List BusinessRule × List String) → Type 0
  IsOutcome (invalid_yaml line) r = (error : String) × (r ≡ ok ([], error ∷ []))
  IsOutcome no_list r = (error : String) × (r ≡ ok ([], error ∷ []))
  IsOutcome raises r = r ≡ value_error
  IsOutcome (entries es) r = (p : List BusinessRule × List String) × (r ≡ ok p) × IsParsed es p
