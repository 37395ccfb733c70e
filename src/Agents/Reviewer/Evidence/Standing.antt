-- ===== src/Agents/Reviewer/Evidence/Standing.antt =====
-- What it means for a piece of evidence to have no problem, and to be verified.
use Prim.Native.String.{String}
use analysis_engine_service.Prelude.{
  some_inj, subst, ◌≤◌, ◌≡◌, ◌≢◌, refl, ap, sym, ◌∙◌, ◌↔◌, ◌⊎◌, Bool, true, false, Option, none,
  some, List, if◌then◌else◌, length, is_some, is_none, eq_iff, arith,
}
use analysis_engine_service.Prelude.Text.{Unicode, strip}
use analysis_engine_service.Prelude.Raises.{Raises, ok, ok_or, value_error, ◌>>=◌}
use analysis_engine_service.Domain.Finding.{Finding}
use analysis_engine_service.Domain.BusinessRule.{BusinessRule}
use analysis_engine_service.Domain.AgentReview.{
  EvidenceType, DropReason, code_location, linter_finding, business_rule, call_path, test,
  no_such_rule, no_such_finding, test_file_missing, no_such_location,
}
use analysis_engine_service.Rules.RuleSet.{RuleSet, get_rule}
use analysis_engine_service.Retrieval.Refs.{resolve_finding_ref}
use analysis_engine_service.Agents.Reviewer.Schema.{Evidence}
use analysis_engine_service.Agents.Reviewer.Location.{Location, parse_location}
use analysis_engine_service.Agents.Reviewer.Quote.{window, is_quoted_at}
use analysis_engine_service.Agents.Reviewer.Evidence.{
  Verdict, before_colons, has_rule, check_quote, check_location, check_evidence,
}

module _ (U : Unicode) (files : String → Option (List String)) (findings : List Finding)
    (rules : Option RuleSet) where
  -- There is nothing to look for, or it is not blank and stands in the lines.
  abbrev pub IsQuote : Option String → List String → Bool → Type 0
  IsQuote none lines b = b ≡ false
  IsQuote (some q) lines b =
      ((strip U q ≡ "") × (b ≡ false))
      ⊎ ((strip U q ≢ "") × (is_quoted_at U q lines ≡ true) × (b ≡ true))

  -- A place whose file and first line exist, and where the quote stands if there is one.
  abbrev pub IsPlace : Evidence → Location → Bool → Type 0
  IsPlace item l b =
      (lines : List String) × (files l.path ≡ some lines)
      × ((l.start ≤ length lines) × IsQuote item.quote (window lines l.start l.end) b)

  -- The evidence has no problem, and `b` says whether it is verified: a cited rule is one of the set; a
  -- finding is the only one that the reference means; a place is read and exists, and is verified only
  -- by its quote; the file of a test exists; a path of calls is never verified.
  abbrev pub Stands : EvidenceType → Evidence → Bool → Type 0
  Stands business_rule item b =
      ((set : RuleSet) × (rules ≡ some set)
        × ((r : BusinessRule) × (get_rule U set item.ref ≡ some r)))
      × (b ≡ true)
  Stands linter_finding item b =
      ((f : Finding) × (resolve_finding_ref U item.ref findings ≡ some f)) × (b ≡ true)
  Stands code_location item b =
      (l : Location) × (parse_location U item.ref ≡ ok (some l)) × IsPlace item l b
  Stands test item b =
      ((lines : List String) × (files (before_colons item.ref) ≡ some lines)) × (b ≡ true)
  Stands call_path item b = b ≡ false

  -- Verdicts on something that is looked up.
  found_iff :
      {A : Type 0} (o : Option A) (w : DropReason) (b : Bool)
      → (◌≡◌ {A = Verdict} (if is_some o then (none, true) else (some w, false)) (none, b))
        ↔ (((a : A) × (o ≡ some a)) × (b ≡ true))
  found_iff none w b = ((λ h. absurd (cc)), (λ h. absurd (cc)))
  found_iff (some a) w b = (
    (λ h. ((a, refl), sym (ap {A = Verdict} (λ v. v.1) h))),
    (λ h. ap {B = Verdict} (λ c. (none, c)) (sym h.1)),
  )

  absent_iff :
      {A : Type 0} (o : Option A) (w : DropReason) (b : Bool)
      → (◌≡◌ {A = Verdict} (if is_none o then (some w, false) else (none, true)) (none, b))
        ↔ (((a : A) × (o ≡ some a)) × (b ≡ true))
  absent_iff none w b = found_iff none w b
  absent_iff (some a) w b = found_iff (some a) w b

  has_rule_iff :
      (ref : String) (w : DropReason) (b : Bool)
      → (◌≡◌ {A = Verdict}
          (if has_rule U files findings rules ref then (none, true) else (some w, false))
          (none, b))
        ↔ (((set : RuleSet) × (rules ≡ some set)
              × ((r : BusinessRule) × (get_rule U set ref ≡ some r)))
            × (b ≡ true))
  has_rule_iff ref w b = at rules
    where
      at :
          (o : Option RuleSet)
          → (◌≡◌ {A = Verdict}
              (if elim o [ none ↦ false | some set ↦ is_some (get_rule U set ref) ]
                then (none, true)
                else (some w, false))
              (none, b))
            ↔ (((set : RuleSet) × (o ≡ some set)
                  × ((r : BusinessRule) × (get_rule U set ref ≡ some r)))
                × (b ≡ true))
      at none = ((λ h. absurd (cc)), (λ h. absurd (cc)))
      at (some set) = (
        (λ h. let (r, e) = (found_iff (get_rule U set ref) w b).0 h in ((set, refl, r), e)),
        (λ ((set', e, (r, q)), k).
            (found_iff (get_rule U set ref) w b).1
              ((r, ap (λ t. get_rule U t ref) (some_inj set set' e) ∙ q), k)),
      )

  check_quote_iff :
      (item : Evidence) (l : Location) (lines : List String) (b : Bool)
      → (check_quote U files findings rules item l lines ≡ (none, b))
        ↔ ((l.start ≤ length lines) × IsQuote item.quote (window lines l.start l.end) b)
  unfolding check_quote
  check_quote_iff item l lines b = at item.quote
    where
      at :
          (o : Option String)
          → (check_quote U files findings rules (record item { quote = o }) l lines ≡ (none, b))
            ↔ ((l.start ≤ length lines) × IsQuote o (window lines l.start l.end) b)
      at none = ((λ h. (ground arith, ground arith)), (λ h. ground arith))
      at (some q) = (
        (λ h. (ground arith, ground (arith, eq_iff (strip U q) ""))),
        (λ h. ground (arith, eq_iff (strip U q) "")),
      )

  check_location_iff :
      (item : Evidence) (l : Location) (b : Bool)
      → (check_location U files findings rules item (some l) ≡ (none, b)) ↔ IsPlace item l b
  unfolding check_location
  check_location_iff item l b = at (files l.path)
    where
      at :
          (o : Option (List String))
          → (◌≡◌ {A = Verdict}
              (elim o [
                | none ↦ (some (no_such_location item.ref), false)
                | some lines ↦ check_quote U files findings rules item l lines
              ])
              (none, b))
            ↔ ((lines : List String) × (o ≡ some lines)
                × ((l.start ≤ length lines) × IsQuote item.quote (window lines l.start l.end) b))
      at none = ((λ h. absurd (cc)), (λ h. absurd (cc)))
      at (some lines) = (
        (λ h. (lines, refl, (check_quote_iff item l lines b).0 h)),
        (λ (lines', e, k).
            subst (λ ls. check_quote U files findings rules item l ls ≡ (none, b))
              (sym (some_inj lines lines' e)) ((check_quote_iff item l lines' b).1 k)),
      )

  -- The function behind `ok` in a comparison of verdicts.
  ok_iff : (v w : Verdict) → (ok v ≡ ok w) ↔ (v ≡ w)
  ok_iff v w = ((λ h. ap (ok_or v) h), (λ h. ap ok h))

  trans_iff : {A B C : Type 0} → A ↔ B → B ↔ C → A ↔ C
  trans_iff (f, g) (h, k) = ((λ a. h (f a)), (λ c. g (k c)))

  bind-check_location_iff :
      (item : Evidence) (b : Bool)
      → ((parse_location U item.ref >>= λ o. ok (check_location U files findings rules item o))
          ≡ ok (none, b))
        ↔ Stands code_location item b
  bind-check_location_iff item b = at (parse_location U item.ref)
    where
      at :
          (r : Raises (Option Location))
          → ((r >>= λ o. ok (check_location U files findings rules item o)) ≡ ok (none, b))
            ↔ ((l : Location) × (r ≡ ok (some l)) × IsPlace item l b)
      at value_error = ((λ h. absurd (cc)), (λ h. absurd (cc)))
      at (ok none) = ((λ h. absurd (unfold check_location in cc)), (λ h. absurd (cc)))
      at (ok (some l)) = (
        (λ h. (l, refl, (check_location_iff item l b).0 ((ok_iff _ _).0 h))),
        (λ (l', e, k). (ok_iff _ _).1 (
            (check_location_iff item l b).1
              (subst (λ m. IsPlace item m b) (sym (some_inj l l' (ap (ok_or none) e))) k))),
      )

  -- `check_evidence` finds no problem and says whether the evidence is verified exactly if it stands
  -- so.
  pub check_evidence_iff :
      (item : Evidence) (b : Bool)
      → (check_evidence U files findings rules item ≡ ok (none, b)) ↔ Stands item.type item b
  unfolding check_evidence
  check_evidence_iff item b = at item.type
    where
      at :
          (t : EvidenceType)
          → (check_evidence U files findings rules (record item { type = t }) ≡ ok (none, b))
            ↔ Stands t item b
      at business_rule = trans_iff (ok_iff _ _) (has_rule_iff item.ref (no_such_rule item.ref) b)
      at linter_finding =
          trans_iff (ok_iff _ _)
            (absent_iff (resolve_finding_ref U item.ref findings) (no_such_finding item.ref) b)
      at code_location = bind-check_location_iff item b
      at test = trans_iff (ok_iff _ _) (
          absent_iff (files (before_colons item.ref)) (test_file_missing (before_colons item.ref))
            b)
      at call_path = trans_iff (ok_iff _ _) (
        (λ h. sym (ap {A = Verdict} (λ v. v.1) h)),
        (λ h. ap {B = Verdict} (λ c. (none, c)) (sym h)),
      )
