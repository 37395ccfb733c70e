-- ===== src/Rules/Mining/Kept.antt =====
-- What the miner keeps: new rules, each with its evidence in the repository.
use analysis_engine_service.Prelude.{
  ◌+◌, ◌≢◌, ◌⊎◌, ◌↔◌, subst, sym, Bool, map, any, filter, any-Elem, Elem-any, Elem, Elem-map,
  map-Elem, Elem-filter, Elem-filter_of, eq_iff, ◌==◌, ◌≡◌, refl, ap, ◌∙◌, String, true, false, not,
  ◌||◌, Bool-cases, Option, none, some, is_some, inl, inr, List, [], ◌∷◌, length, All, arith,
  if◌then◌else◌,
}
use analysis_engine_service.Prelude.Text.{Unicode, strip}
use analysis_engine_service.Prelude.Raises.{ok, ok_or, value_error, ◌>>=◌}
use analysis_engine_service.Domain.BusinessRule.{BusinessRule, RuleStatus}
use analysis_engine_service.Diffing.GeneratedFiles.{is_one_of}
use analysis_engine_service.Rules.Glob.{glob_match}
use analysis_engine_service.Agents.Reviewer.Evidence.{Verdict, check_evidence}
use analysis_engine_service.Rules.Mining.{
  remove_dot, evidence_text, is_empty, is_bad_pattern, SuggestedRule, Discarded, valid_globs,
  scope_of, rule_of, has_scope, Decision, keep, discard, decide, add_decision, take_id, validate,
  not_verified, matches_no_file,
}

module _ (U : Unicode) (files : String → Option (List String)) (paths : List String) where
  -- Checking its evidence and its patterns raises nothing.
  pub record IsReadable (s : SuggestedRule) : Type 0 where
    pub verdict : Verdict
    pub checked : check_evidence U files [] none s.source ≡ ok verdict
    pub globs : List String
    pub cleaned : valid_globs U files paths (scope_of U files paths s) ≡ ok globs

  -- The pattern matches some file.
  abbrev pub MatchesFile : String → Type 0
  MatchesFile g = (path : String) × Elem path paths × (glob_match path g ≡ true)

  -- The pattern `p` of a rule is that of a suggestion, without blanks and `./` around it: one that
  -- matches some file and is not blank.
  abbrev pub IsScoped : SuggestedRule → String → Type 0
  IsScoped s p =
      (g : String) × Elem g s.applies_to
      × MatchesFile g
      × (strip U g ≢ "")
      × (p ≡ remove_dot (strip U g))

  -- A rule that comes from a suggestion: verified, with its texts, its severity and its patterns that
  -- match some file, of which there is one unless it has no pattern, and only suggested.
  pub record ComesFrom (r : BusinessRule) (s : SuggestedRule) : Type 0 where
    pub same_id : r.rule_id ≡ s.rule_id
    pub same_rule : r.rule ≡ s.rule
    pub same_severity : r.severity ≡ s.severity
    pub same_rationale : r.rationale ≡ some s.rationale
    pub shown : r.evidence ≡ some (evidence_text s.source)
    pub verified : check_evidence U files [] none s.source ≡ ok (none, true)
    pub in_scope : (s.applies_to ≡ []) ⊎ ((g : String) × Elem g s.applies_to × MatchesFile g)
    pub scope : (p : String) → Elem p r.applies_to ↔ IsScoped s p
    pub only_suggested : r.status ≡ RuleStatus.suggested

  matches_iff : (g : String) → (any (λ p. glob_match p g) paths ≡ true) ↔ MatchesFile g
  matches_iff g = (
    any-Elem (λ p. glob_match p g) paths,
    λ (p, m, h). Elem-any (λ p. glob_match p g) p paths m h,
  )

  scope_of-in :
      (s : SuggestedRule)
      → has_scope U files paths s ≡ true
      → (s.applies_to ≡ []) ⊎ ((g : String) × Elem g s.applies_to × MatchesFile g)
  scope_of-in s h = at s.applies_to h
    where
      at :
          (gs : List String)
          → (is_empty gs || not (is_empty (filter (λ g. any (λ p. glob_match p g) paths) gs)))
            ≡ true
          → (gs ≡ []) ⊎ ((g : String) × Elem g gs × MatchesFile g)
      at [] k = inl refl
      at (x ∷ gs) k = inr (found (filter (λ g. any (λ p. glob_match p g) paths) (x ∷ gs)) refl k)
        where
          found :
              (fs : List String)
              → filter (λ g. any (λ p. glob_match p g) paths) (x ∷ gs) ≡ fs
              → (false || not (is_empty fs)) ≡ true
              → (g : String) × Elem g (x ∷ gs) × MatchesFile g
          found [] e k' = absurd (cc)
          found (g ∷ fs) e k' =
              let (m, q) =
                Elem-filter (λ g. any (λ p. glob_match p g) paths) g (x ∷ gs)
                  (subst (Elem g) (sym e) (inl refl)) in
              (g, m, (matches_iff g).0 q)

  module _ (s : SuggestedRule) where
    abbrev is_filled : String → Bool
    is_filled p = not (strip U p == "")

    abbrev is_matching : String → Bool
    is_matching g = any (λ p. glob_match p g) paths

    abbrev clean : String → String
    clean p = remove_dot (strip U p)

    valid_globs-cleaned :
        (globs : List String)
        → valid_globs U files paths (scope_of U files paths s) ≡ ok globs
        → map clean (filter is_filled (scope_of U files paths s)) ≡ globs
    unfolding valid_globs
    valid_globs-cleaned globs h =
        at (any is_bad_pattern (map clean (filter is_filled (scope_of U files paths s)))) h
      where
        at :
            (b : Bool)
            → (if b
                then value_error
                else ok (map clean (filter is_filled (scope_of U files paths s))))
              ≡ ok globs
            → map clean (filter is_filled (scope_of U files paths s)) ≡ globs
        at true k = absurd (cc)
        at false k = ap (ok_or []) k

    cleaned_iff :
        (p : String)
        → Elem p (map clean (filter is_filled (scope_of U files paths s))) ↔ IsScoped s p
    cleaned_iff p = (
      λ m.
          let (g, n, e) = map-Elem clean p (filter is_filled (scope_of U files paths s)) m in
          let (k, filled) = Elem-filter is_filled g (scope_of U files paths s) n in
          let (i, fits) = Elem-filter is_matching g s.applies_to k in
          (g, i, (matches_iff g).0 fits, ground (arith, eq_iff (strip U g) "", filled), sym e),
      λ (g, i, fits, filled, e).
          subst (λ q. Elem q (map clean (filter is_filled (scope_of U files paths s)))) (sym e)
            (Elem-map clean g (filter is_filled (scope_of U files paths s)) (
              Elem-filter_of is_filled g (scope_of U files paths s)
                (Elem-filter_of is_matching g s.applies_to i ((matches_iff g).1 fits))
                (ground (arith, eq_iff (strip U g) "", filled)))),
    )

    scope_iff :
        (globs : List String)
        → valid_globs U files paths (scope_of U files paths s) ≡ ok globs
        → (p : String) → Elem p globs ↔ IsScoped s p
    scope_iff globs h p =
        subst (λ gs. Elem p gs ↔ IsScoped s p) (valid_globs-cleaned globs h) (cleaned_iff p)

  -- What a decision says of its suggestion.
  abbrev IsFor : List String → SuggestedRule → Decision U files paths → Type 0
  IsFor taken s (keep r) = (is_one_of taken r.rule_id ≡ false) × ComesFrom r s
  IsFor taken s (discard d) = Unit

  decide-IsFor :
      (taken : List String) (s : SuggestedRule)
      → IsReadable s
      → (d : Decision U files paths) × (decide U files paths taken s ≡ ok d) × IsFor taken s d
  unfolding decide
  decide-IsFor taken s w = elim (Bool-cases (is_one_of taken s.rule_id)) [
    | inl used ↦ rw used (_, refl, tt)
    | inr new ↦ rw (new, w.checked, ◌>>=◌) (checked w.verdict w.checked new)
  ]
    where
      checked :
          (v : Verdict)
          → check_evidence U files [] none s.source ≡ ok v
          → is_one_of taken s.rule_id ≡ false
          → (d : Decision U files paths) × ((if is_some v.0 || not v.1
                then ok (discard (not_verified s.rule_id v.0))
                else if not (has_scope U files paths s)
                then ok (discard (matches_no_file s.rule_id s.applies_to))
                else valid_globs U files paths (scope_of U files paths s) >>= λ globs.
                    ok (keep (rule_of U files paths s globs)))
              ≡ ok d)
            × IsFor taken s d
      checked (some reason, b) e new = (_, refl, tt)
      checked (none, false) e new = (_, refl, tt)
      checked (none, true) e new = elim (Bool-cases (has_scope U files paths s)) [
        | inr out ↦ rw out (_, refl, tt)
        | inl fits ↦
            rw (fits, w.cleaned)
              (
                keep (rule_of U files paths s w.globs),
                refl,
                (
                  new,
                  record {
                    same_id = refl;
                    same_rule = refl;
                    same_severity = refl;
                    same_rationale = refl;
                    shown = refl;
                    verified = e;
                    in_scope = scope_of-in s fits;
                    scope = scope_iff s w.globs w.cleaned;
                    only_suggested = refl;
                  },
                ),
              )
      ]

  -- The rules are new, and no two have the same id.
  abbrev pub AreNew : List String → List BusinessRule → Type 0
  AreNew taken [] = Unit
  AreNew taken (r ∷ rs) = (is_one_of taken r.rule_id ≡ false) × AreNew (r.rule_id ∷ taken) rs

  -- Each rule comes from a suggestion, in the order of the suggestions.
  pub data AreFrom : List BusinessRule → List SuggestedRule → Type 0 where
    done : AreFrom [] []
    kept :
        {r : BusinessRule} {s : SuggestedRule} {rs : List BusinessRule} {ss : List SuggestedRule}
        → ComesFrom r s
        → AreFrom rs ss
        → AreFrom (r ∷ rs) (s ∷ ss)
    left_out :
        {s : SuggestedRule} {rs : List BusinessRule} {ss : List SuggestedRule}
        → AreFrom rs ss
        → AreFrom rs (s ∷ ss)

  pub record IsMined (taken : List String) (suggestions : List SuggestedRule)
      (r : List BusinessRule × List Discarded) : Type 0 where
    pub new : AreNew taken r.0
    pub sources : AreFrom r.0 suggestions
    pub counted : length r.0 + length r.1 ≡ length suggestions

  add_decision-IsMined :
      (taken : List String) (s : SuggestedRule) (ss : List SuggestedRule)
      (d : Decision U files paths) (r : List BusinessRule × List Discarded)
      → IsFor taken s d
      → IsMined (take_id U files paths d taken) ss r
      → IsMined taken (s ∷ ss) (add_decision U files paths d r)
  add_decision-IsMined taken s ss (keep rule) r h m = record {
    new = (h.0, m.new);
    sources = kept h.1 m.sources;
    counted = omega (arith, m.counted);
  }
  add_decision-IsMined taken s ss (discard d) r h m = record {
    new = m.new;
    sources = left_out m.sources;
    counted = omega (arith, m.counted);
  }

  -- If checking the suggestions raises nothing, `_validate` returns: each rule it keeps comes from a
  -- suggestion whose evidence is in the repository, of whose patterns, if it has any, some matches a
  -- file; it has the suggestion's texts and severity and, of its patterns, just those that match a
  -- file, is only suggested, and has an id that neither an existing rule nor another kept one has; and every
  -- suggestion is kept or recorded as discarded.
  pub validate-IsMined :
      (taken : List String) (suggestions : List SuggestedRule)
      → All IsReadable suggestions
      → (r : List BusinessRule × List Discarded) × (validate U files paths taken suggestions ≡ ok r)
        × IsMined taken suggestions r
  unfolding validate
  validate-IsMined taken [] w =
      (([], []), refl, record { new = tt; sources = done; counted = omega arith })
  validate-IsMined taken (s ∷ ss) w =
      let (d, e, h) = decide-IsFor taken s w.0 in
      let (r, q, m) = validate-IsMined (take_id U files paths d taken) ss w.1 in
      (
        add_decision U files paths d r,
        ap
              (λ o. o >>= λ d'. validate U files paths (take_id U files paths d' taken) ss >>= λ r'.
                ok (add_decision U files paths d' r'))
              e
            ∙ ap (λ o. o >>= λ r'. ok (add_decision U files paths d r')) q,
        add_decision-IsMined taken s ss d r h m,
      )
