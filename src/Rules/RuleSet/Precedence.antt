-- ===== src/Rules/RuleSet/Precedence.antt =====
-- Rules of the rules file come before the stored ones.
use Prim.Native.String.{String}
use analysis_engine_service.Prelude.{
  ◌≡◌, refl, sym, ◌∙◌, false, Bool-cases, inl, inr, ◌==◌, eq_iff, Option, none, some, or_else, List,
  [], ◌∷◌, ◌++◌, any, find?, arith,
}
use analysis_engine_service.Prelude.Text.{Unicode}
use analysis_engine_service.Domain.BusinessRule.{BusinessRule}
use analysis_engine_service.Domain.ChangeSet.{ChangeSet}
use analysis_engine_service.Rules.RuleSet.{bare_id, get_rule, unknown_to, load_rules}

-- The first rule with an id.
abbrev pub rule_of : String → List BusinessRule → Option BusinessRule
rule_of id rules = find? (λ r. r.rule_id == id) rules

-- The first answer, and else the second.
abbrev pub or_rule : Option BusinessRule → Option BusinessRule → Option BusinessRule
or_rule (some r) o = some r
or_rule none o = o

or_rule-none : (o : Option BusinessRule) → or_rule o none ≡ o
or_rule-none none = refl
or_rule-none (some r) = refl

rule_of-append :
    (id : String) (xs ys : List BusinessRule)
    → rule_of id (xs ++ ys) ≡ or_rule (rule_of id xs) (rule_of id ys)
rule_of-append id [] ys = refl
rule_of-append id (x ∷ xs) ys = ground (arith, rule_of-append id xs ys)

-- A rule whose id the file does not have is not taken out of the stored rules.
any-rule_of :
    (id : String) (known : List BusinessRule)
    → rule_of id known ≡ none
    → any (λ k. k.rule_id == id) known ≡ false
any-rule_of id [] h = refl
any-rule_of id (k ∷ known) h = ground (arith, any-rule_of id known)

rule_of-unknown_to :
    (id : String) (known stored : List BusinessRule)
    → rule_of id known ≡ none
    → rule_of id (unknown_to known stored) ≡ rule_of id stored
rule_of-unknown_to id known [] h = refl
rule_of-unknown_to id known (r ∷ stored) h = elim (Bool-cases (r.rule_id == id)) [
  | inr other ↦ ground (arith, other, rule_of-unknown_to id known stored h)
  | inl same ↦
      let fresh : any (λ k. k.rule_id == r.rule_id) known ≡ false =
        any-rule_of r.rule_id known (rw ((eq_iff r.rule_id id).0 same) h) in
      ground (arith, same, fresh)
]

or_rule-unknown_to :
    (id : String) (known stored : List BusinessRule)
    → or_rule (rule_of id known) (rule_of id (unknown_to known stored))
      ≡ or_rule (rule_of id known) (rule_of id stored)
or_rule-unknown_to id known stored = at (rule_of id known) refl
  where
    at :
        (o : Option BusinessRule)
        → rule_of id known ≡ o
        → or_rule o (rule_of id (unknown_to known stored)) ≡ or_rule o (rule_of id stored)
    at none e = rule_of-unknown_to id known stored e
    at (some r) e = refl

-- An id is looked up in the rules file of the target branch first, and only if no rule there has it
-- in the stored rules; a missing file or store has no rules.
pub get_rule-load_rules :
    (U : Unicode) (change_set : ChangeSet) (parsed : Option (List BusinessRule × List String))
    (stored : Option (List BusinessRule)) (id : String)
    → get_rule U (load_rules change_set parsed stored) id
      ≡ or_rule
          (rule_of (bare_id U id) (or_else parsed ([], [])).0)
          (rule_of (bare_id U id) (or_else stored []))
unfolding get_rule load_rules
get_rule-load_rules U change_set none none id = refl
get_rule-load_rules U change_set (some p) none id = sym (or_rule-none (rule_of (bare_id U id) p.0))
get_rule-load_rules U change_set none (some s) id = rule_of-unknown_to (bare_id U id) [] s refl
get_rule-load_rules U change_set (some p) (some s) id =
    rule_of-append (bare_id U id) p.0 (unknown_to p.0 s) ∙ or_rule-unknown_to (bare_id U id) p.0 s
