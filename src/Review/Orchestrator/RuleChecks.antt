-- ===== src/Review/Orchestrator/RuleChecks.antt =====
-- The outcomes of the rules in a review.
use Prim.Native.String.{String}
use analysis_engine_service.Prelude.{
  Bool, any, filter, any-Elem, Any-Elem, Elem-any, Elem-filter, Elem-filter_of, ◌≡◌, refl, ◌≢◌, ◌↔◌,
  ◌⊎◌, inl, inr, true, false, Bool-cases, eq_iff, Option, none, some, List, [], ◌∷◌, All, All-of,
  All-Elem, Any, Elem, Elem-append, Elem-append_left, Elem-append_right, Pairwise, Dict, arith,
}
use analysis_engine_service.Prelude.Text.{Unicode}
use analysis_engine_service.Domain.AgentReview.{AgentFinding, violated, RuleCheck}
use analysis_engine_service.Domain.BusinessRule.{BusinessRule}
use analysis_engine_service.Domain.ChangeSet.{
  ChangeSet, ChangedFile, ChangeStatus, added, modified, renamed, deleted,
}
use analysis_engine_service.Rules.RuleSet.{RuleSet, applicable, applies_to_path}
use analysis_engine_service.Agents.Reviewer.Schema.{CheckOutcome, RuleCheckOut}
use analysis_engine_service.Review.Orchestrator.{
  is_in, claimed, say_all, rule_check, check_rules, cited_of, relevant, rule_checks,
}

is_in_iff : (x : String) (xs : List String) → (is_in x xs ≡ true) ↔ Elem x xs
is_in_iff x [] = ground arith
is_in_iff x (y ∷ xs) = ground (arith, eq_iff y x, is_in_iff x xs)

-- Some issue cites the rule.
abbrev pub IsCited : {Float : Type 0} → String → List (AgentFinding Float) → Type 0
IsCited id reported = Any (λ f. Elem id f.rule_ids) reported

cited_of_iff :
    {Float : Type 0} (id : String) (fs : List (AgentFinding Float))
    → Elem id (cited_of fs) ↔ IsCited id fs
cited_of_iff id [] = ground arith
cited_of_iff id (f ∷ fs) = ground (
  arith,
  Elem-append id f.rule_ids (cited_of fs),
  Elem-append_left id f.rule_ids (cited_of fs),
  Elem-append_right id f.rule_ids (cited_of fs),
  cited_of_iff id fs,
)

claimed-not-violated : (c : Option RuleCheckOut) → claimed c ≢ violated
claimed-not-violated none e = absurd (cc)
claimed-not-violated (some c) e = at c.outcome e
  where
    at : (o : CheckOutcome) → claimed (some (record c { outcome = o })) ≡ violated → ⊥
    at CheckOutcome.violated e = absurd (cc)
    at CheckOutcome.satisfied e = absurd (cc)
    at CheckOutcome.not_applicable e = absurd (cc)

-- The check of a rule says "violated" exactly if the rule is cited.
abbrev IsRight : List String → RuleCheck → Type 0
IsRight cited c = (c.outcome ≡ violated) ↔ Elem c.rule_id cited

rule_check-IsRight :
    (cited : List String) (said : Dict RuleCheckOut) (r : BusinessRule)
    → IsRight cited (rule_check cited said r)
unfolding rule_check
rule_check-IsRight cited said r = elim (Bool-cases (is_in r.rule_id cited)) [
  | inl c ↦ rw c ((λ e. (is_in_iff r.rule_id cited).0 c), (λ m. refl))
  | inr c ↦ rw c (
    (λ e. absurd (claimed-not-violated _ e)),
    (λ m. absurd (cc ((is_in_iff r.rule_id cited).1 m, c))),
  )
]

module _ (cited : List String) (said : Dict RuleCheckOut) where
  check_rules-IsRight :
      (seen : List String) (rs : List BusinessRule)
      → All (IsRight cited) (check_rules cited said seen rs)
  unfolding check_rules
  check_rules-IsRight seen [] = tt
  check_rules-IsRight seen (r ∷ rs) = elim (Bool-cases (is_in r.rule_id seen)) [
    | inl c ↦ rw c (check_rules-IsRight seen rs)
    | inr c ↦ rw c (rule_check-IsRight cited said r, check_rules-IsRight (r.rule_id ∷ seen) rs)
  ]

  -- No check is of a rule that was seen.
  check_rules-fresh :
      (id : String) (seen : List String) (rs : List BusinessRule)
      → Elem id seen
      → All (λ c. id ≢ c.rule_id) (check_rules cited said seen rs)
  unfolding check_rules
  check_rules-fresh id seen [] m = tt
  check_rules-fresh id seen (r ∷ rs) m = elim (Bool-cases (is_in r.rule_id seen)) [
    | inl c ↦ rw c (check_rules-fresh id seen rs m)
    | inr c ↦ rw c (new c, check_rules-fresh id (r.rule_id ∷ seen) rs (inr m))
  ]
    where
      new : is_in r.rule_id seen ≡ false → id ≢ (rule_check cited said r).rule_id
      new c e = unfold rule_check in ground (arith, is_in_iff r.rule_id seen)

  check_rules-distinct :
      (seen : List String) (rs : List BusinessRule)
      → Pairwise (λ c d. c.rule_id ≢ d.rule_id) (check_rules cited said seen rs)
  unfolding check_rules
  check_rules-distinct seen [] = tt
  check_rules-distinct seen (r ∷ rs) = elim (Bool-cases (is_in r.rule_id seen)) [
    | inl c ↦ rw c (check_rules-distinct seen rs)
    | inr c ↦ rw c (
      check_rules-fresh (rule_check cited said r).rule_id (r.rule_id ∷ seen) rs
          (inl (unfold rule_check in refl)),
      check_rules-distinct (r.rule_id ∷ seen) rs,
    )
  ]

  check_rules-covers :
      (r : BusinessRule) (seen : List String) (rs : List BusinessRule)
      → Elem r rs
      → Elem r.rule_id seen ⊎ Any (λ c. c.rule_id ≡ r.rule_id) (check_rules cited said seen rs)
  unfolding check_rules rule_check
  check_rules-covers r seen [] m = absurd m
  check_rules-covers r seen (q ∷ rs) m = ground (
    arith,
    is_in_iff q.rule_id seen,
    check_rules-covers r seen rs,
    check_rules-covers r (q.rule_id ∷ seen) rs,
  )

  abbrev IsOf : List BusinessRule → RuleCheck → Type 0
  IsOf rs c = Any (λ r. c.rule_id ≡ r.rule_id) rs

  widen :
      (r : BusinessRule) (rs : List BusinessRule) (cs : List RuleCheck)
      → All (IsOf rs) cs
      → All (IsOf (r ∷ rs)) cs
  widen r rs [] h = tt
  widen r rs (c ∷ cs) h = (inr h.0, widen r rs cs h.1)

  check_rules-only :
      (seen : List String) (rs : List BusinessRule) → All (IsOf rs) (check_rules cited said seen rs)
  unfolding check_rules rule_check
  check_rules-only seen [] = tt
  check_rules-only seen (r ∷ rs) = elim (Bool-cases (is_in r.rule_id seen)) [
    | inl c ↦ rw c (widen r rs _ (check_rules-only seen rs))
    | inr c ↦ rw c (inl refl, widen r rs _ (check_rules-only (r.rule_id ∷ seen) rs))
  ]

-- The rule applies to a file that the change set does not delete.
abbrev pub IsApplicable : ChangeSet → BusinessRule → Type 0
IsApplicable change_set r =
    (f : ChangedFile) × Elem f change_set.files
    × (f.status ≢ deleted)
    × (applies_to_path r f.path ≡ true)

-- A rule of the set that applies to the change set, or that a reported issue cites.
abbrev pub IsRelevant :
    {Float : Type 0} → RuleSet → ChangeSet → List (AgentFinding Float) → BusinessRule → Type 0
IsRelevant rules change_set reported r =
    Elem r rules.rules × (IsApplicable change_set r ⊎ IsCited r.rule_id reported)

is_live : ChangedFile → Bool
is_live f = elim f.status [ deleted ↦ false | _ ↦ true ]

is_live_iff : (f : ChangedFile) → (is_live f ≡ true) ↔ (f.status ≢ deleted)
unfolding is_live
is_live_iff f = at f.status
  where
    at : (s : ChangeStatus) → (elim s [ deleted ↦ false | _ ↦ true ] ≡ true) ↔ (s ≢ deleted)
    at added = ((λ h e. absurd (cc)), (λ h. refl))
    at modified = ((λ h e. absurd (cc)), (λ h. refl))
    at renamed = ((λ h e. absurd (cc)), (λ h. refl))
    at deleted = ((λ h. absurd (cc)), (λ h. absurd (h refl)))

applicable_iff :
    (rules : RuleSet) (change_set : ChangeSet) (r : BusinessRule)
    → Elem r (applicable rules change_set) ↔ (Elem r rules.rules × IsApplicable change_set r)
unfolding applicable is_live
applicable_iff rules change_set r = (
  λ m.
      let (k, e) = Elem-filter (applies live) r rules.rules m in
      let (f, n, h) = any-Elem (λ f. applies_to_path r f.path) live e in
      let (n', l) = Elem-filter is_live f change_set.files n in
      (k, (f, n', (is_live_iff f).0 l, h)),
  λ (k, (f, n, l, h)). Elem-filter_of (applies live) r rules.rules k (
      Elem-any (λ f. applies_to_path r f.path) f live
        (Elem-filter_of is_live f change_set.files n ((is_live_iff f).1 l)) h),
)
  where
    live : List ChangedFile
    live = filter is_live change_set.files

    applies : List ChangedFile → BusinessRule → Bool
    applies fs q = any (λ f. applies_to_path q f.path) fs

relevant_iff :
    {Float : Type 0} (rules : RuleSet) (change_set : ChangeSet)
    (reported : List (AgentFinding Float)) (r : BusinessRule)
    → Elem r (relevant rules change_set (cited_of reported))
      ↔ IsRelevant rules change_set reported r
relevant_iff rules change_set reported r = (
  λ m. elim (Elem-append r (applicable rules change_set) cited_rules m) [
    | inl a ↦ let (k, h) = (applicable_iff rules change_set r).0 a in (k, inl h)
    | inr c ↦
        let (k, e) = Elem-filter is_cited r rules.rules c in
        (
          k,
          inr ((cited_of_iff r.rule_id reported).0 ((is_in_iff r.rule_id (cited_of reported)).0 e)),
        )
  ],
  λ (k, which). elim which [
    | inl a ↦
        Elem-append_left r (applicable rules change_set) cited_rules
          ((applicable_iff rules change_set r).1 (k, a))
    | inr c ↦ Elem-append_right r (applicable rules change_set) cited_rules (
        Elem-filter_of is_cited r rules.rules k
          ((is_in_iff r.rule_id (cited_of reported)).1 ((cited_of_iff r.rule_id reported).1 c)))
  ],
)
  where
    is_cited : BusinessRule → Bool
    is_cited q = is_in q.rule_id (cited_of reported)

    cited_rules : List BusinessRule
    cited_rules = filter is_cited rules.rules

-- What the outcomes `cs` of the rules are, for the reported issues.
pub record AreOutcomes {Float : Type 0} (rules : RuleSet) (change_set : ChangeSet)
    (reported : List (AgentFinding Float)) (cs : List RuleCheck) : Type 0 where
  pub violated_iff : All (λ c. (c.outcome ≡ violated) ↔ IsCited c.rule_id reported) cs
  pub distinct : Pairwise (λ c d. c.rule_id ≢ d.rule_id) cs
  pub complete :
      (r : BusinessRule)
      → IsRelevant rules change_set reported r
      → Any (λ c. c.rule_id ≡ r.rule_id) cs
  pub only :
      All
        (λ c. (r : BusinessRule) × IsRelevant rules change_set reported r × (c.rule_id ≡ r.rule_id))
        cs

-- Every rule of the set that applies to a file the change set does not delete, or that a reported
-- issue cites, is checked, no other, and each id once. Whatever the Reviewer says, a rule is
-- "violated" exactly if a reported issue cites it.
pub rule_checks_lem :
    {Float : Type 0} (U : Unicode) (rules : RuleSet) (change_set : ChangeSet)
    (model_checks : List RuleCheckOut) (reported : List (AgentFinding Float))
    → AreOutcomes rules change_set reported (rule_checks U rules change_set model_checks reported)
unfolding rule_checks
rule_checks_lem U rules change_set model_checks reported = record {
  violated_iff = All-of _ checks (λ c m. ground (
    arith,
    All-Elem (IsRight cited) checks c (check_rules-IsRight cited said [] rs) m,
    cited_of_iff c.rule_id reported,
  ));
  distinct = check_rules-distinct cited said [] rs;
  complete = λ r m.
      elim (check_rules-covers cited said r [] rs
        ((relevant_iff rules change_set reported r).1 m)) [ inl e ↦ absurd e | inr a ↦ a ];
  only = All-of _ checks (λ c m.
      let (r, k, e) = Any-Elem _ rs (All-Elem _ checks c (check_rules-only cited said [] rs) m) in
      (r, (relevant_iff rules change_set reported r).0 k, e));
}
  where
    cited : List String
    cited = cited_of reported

    said : Dict RuleCheckOut
    said = say_all U [] model_checks

    rs : List BusinessRule
    rs = relevant rules change_set cited

    checks : List RuleCheck
    checks = check_rules cited said [] rs
