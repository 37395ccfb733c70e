-- ===== src/Agents/Reviewer/Validation/Kept.antt =====
-- Which candidates `validate_review` keeps: exactly those that the repository supports.
use Prim.Native.String.{String}
use analysis_engine_service.Prelude.{
  ◌≤◌, ◌≡◌, refl, sym, ap, ◌∙◌, subst, ◌↔◌, inl, inr, Bool, true, false, Option, none, some, List,
  [], ◌∷◌, ◌++◌, append-nil, append_assoc, if◌then◌else◌, ltb, length, any, Pointwise, Bool-cases,
  arith,
}
use analysis_engine_service.Prelude.Text.{Unicode}
use analysis_engine_service.Prelude.Raises.{Raises, ok, value_error, ◌>>=◌}
use analysis_engine_service.Domain.Finding.{Finding}
use analysis_engine_service.Domain.AgentReview.{
  Category, ReviewEvidence, file_missing, line_past_end,
}
use analysis_engine_service.Rules.RuleSet.{RuleSet}
use analysis_engine_service.Agents.Reviewer.Schema.{Evidence, CandidateIssue}
use analysis_engine_service.Agents.Reviewer.Evidence.{Verdict, check_evidence}
use analysis_engine_service.Agents.Reviewer.Evidence.Standing.{Stands, check_evidence_iff}
use analysis_engine_service.Agents.Reviewer.Validation.{
  is_rule_category, Checked, problem, supported, checked_item, counts, cites_rule, check_all, judge,
  check_candidate,
}

module _ (U : Unicode) (files : String → Option (List String)) (findings : List Finding)
    (rules : Option RuleSet) where
  -- The item has no problem, and the result records whether it is verified.
  abbrev pub HoldsUp : Evidence → ReviewEvidence → Type 0
  HoldsUp item e =
      Stands U files findings rules item.type item e.verified × (e ≡ checked_item item e.verified)

  check_all_sound :
      (checked es : List ReviewEvidence) (items : List Evidence)
      → check_all U files findings rules checked items ≡ ok (supported es)
      → (new : List ReviewEvidence) × (es ≡ checked ++ new) × Pointwise HoldsUp items new
  unfolding check_all
  check_all_sound checked es [] h = ([], ground (arith, append-nil checked), tt)
  check_all_sound checked es (item ∷ items) h =
      at (check_evidence U files findings rules item) refl h
        (check_all_sound (checked ++ checked_item item true ∷ []) es items)
        (check_all_sound (checked ++ checked_item item false ∷ []) es items)
    where
      Goal : Type 0
      Goal =
          (new : List ReviewEvidence) × (es ≡ checked ++ new) × Pointwise HoldsUp (item ∷ items) new

      Rest : Bool → Type 0
      Rest b =
          check_all U files findings rules (checked ++ checked_item item b ∷ []) items
            ≡ ok (supported es)
          → (new : List ReviewEvidence) × (es ≡ (checked ++ checked_item item b ∷ []) ++ new)
            × Pointwise HoldsUp items new

      add :
          (b : Bool)
          → check_evidence U files findings rules item ≡ ok (none, b)
          → (new : List ReviewEvidence) × (es ≡ (checked ++ checked_item item b ∷ []) ++ new)
            × Pointwise HoldsUp items new
          → Goal
      add b e (new, q, holds) = (
        checked_item item b ∷ new,
        q ∙ append_assoc checked (checked_item item b ∷ []) new,
        (((check_evidence_iff U files findings rules item b).0 e, refl), holds),
      )

      at :
          (r : Raises Verdict)
          → check_evidence U files findings rules item ≡ r
          → (r >>= λ v. elim v.0 [
            | some p ↦ ok (problem p)
            | none ↦ check_all U files findings rules (checked ++ checked_item item v.1 ∷ []) items
          ])
            ≡ ok (supported es)
          → Rest true
          → Rest false
          → Goal
      at value_error e k t f = absurd (cc)
      at (ok (some p, b)) e k t f = absurd (cc)
      at (ok (none, true)) e k t f = add true e (t k)
      at (ok (none, false)) e k t f = add false e (f k)

  check_all_complete :
      (checked new : List ReviewEvidence) (items : List Evidence)
      → Pointwise HoldsUp items new
      → check_all U files findings rules checked items ≡ ok (supported (checked ++ new))
  unfolding check_all
  check_all_complete checked [] [] h = rw append-nil
  check_all_complete checked (e ∷ new) [] h = absurd h
  check_all_complete checked [] (item ∷ items) h = absurd h
  check_all_complete checked (e ∷ new) (item ∷ items) ((stands, same), rest) =
      let holds = (check_evidence_iff U files findings rules item e.verified).1 stands in
      rw holds (
        rw (← same) (
          check_all_complete (checked ++ e ∷ []) new items rest
          ∙ ap (λ l. ok (supported l)) (append_assoc checked (e ∷ []) new)))

  module _ (Float : Type 0) where
    -- The repository supports the candidate by the evidence `es`: its file has its first line (the last
    -- is not looked at), every piece of its evidence stands, an issue of the category
    -- `business_rule` cites a rule, and some piece that is no rule is verified.
    pub record IsSupported (c : CandidateIssue Float) (es : List ReviewEvidence) : Type 0 where
      pub in_file :
          (lines : List String) × (files c.file_path ≡ some lines) × (c.line_start ≤ length lines)
      pub holds_up : Pointwise HoldsUp c.evidence es
      pub cites : is_rule_category c.category ≡ true → any cites_rule es ≡ true
      pub verified : any counts es ≡ true

    judge-supported :
        (category : Category) (r : Checked) (es : List ReviewEvidence)
        → judge U files findings rules category r ≡ supported es
        → (r ≡ supported es)
          × (is_rule_category category ≡ true → any cites_rule es ≡ true)
          × (any counts es ≡ true)
    judge-supported category (problem p) es h = absurd (cc)
    judge-supported category (supported l) es h = (ground arith, λ e. ground arith, ground arith)

    bind_judge :
        (category : Category) (r : Raises Checked) (es : List ReviewEvidence)
        → (r >>= λ checked. ok (judge U files findings rules category checked)) ≡ ok (supported es)
        → (r ≡ ok (supported es))
          × (is_rule_category category ≡ true → any cites_rule es ≡ true)
          × (any counts es ≡ true)
    bind_judge category value_error es h = absurd (cc)
    bind_judge category (ok checked) es h =
        let (e, cites, counted) = judge-supported category checked es (cc) in
        (ap ok e, cites, counted)

    check_candidate→IsSupported :
        (c : CandidateIssue Float) (es : List ReviewEvidence)
        → check_candidate U files findings rules Float c ≡ ok (supported es)
        → IsSupported c es
    unfolding check_candidate
    check_candidate→IsSupported c es h = at (files c.file_path) refl h
      where
        judged : List String → Raises Checked
        judged lines =
            if ltb (length lines) c.line_start
            then ok (problem (line_past_end c.line_start c.file_path (length lines)))
            else (check_all U files findings rules [] c.evidence >>= λ checked.
                ok (judge U files findings rules c.category checked))

        at :
            (o : Option (List String))
            → files c.file_path ≡ o
            → elim o [ none ↦ ok (problem (file_missing c.file_path)) | some lines ↦ judged lines ]
              ≡ ok (supported es)
            → IsSupported c es
        at none e k = absurd (cc)
        at (some lines) e k = elim (Bool-cases (ltb (length lines) c.line_start)) [
          | inl past ↦ absurd (ground arith)
          | inr fits ↦
              let (r, cites, counted) =
                bind_judge c.category (check_all U files findings rules [] c.evidence) es
                  (ground arith) in
              let (new, same, holds) = check_all_sound [] es c.evidence r in
              record {
                in_file = (lines, e, ground arith);
                holds_up = subst (Pointwise HoldsUp c.evidence) (sym same) holds;
                cites = cites;
                verified = counted;
              }
        ]

    IsSupported→check_candidate :
        (c : CandidateIssue Float) (es : List ReviewEvidence)
        → IsSupported c es
        → check_candidate U files findings rules Float c ≡ ok (supported es)
    unfolding check_candidate
    IsSupported→check_candidate c es s =
        let (lines, e, fits) = s.in_file in
        let fits' : ltb (length lines) c.line_start ≡ false = ground arith in
        ground
          (arith, e, fits', check_all_complete [] es c.evidence s.holds_up, s.cites, s.verified)

    -- A candidate is kept, with the evidence `es`, exactly when its file has its first line, every piece
    -- of its evidence stands (a rule is one of the set, a finding the only one meant, a place exists and
    -- has the quote, the file of a test exists), `es` records which of them are verified, it cites a
    -- rule if its category is that of the rules, and some piece that is no rule is verified. Its last
    -- line has no part in this.
    pub check_candidate_iff :
        (c : CandidateIssue Float) (es : List ReviewEvidence)
        → (check_candidate U files findings rules Float c ≡ ok (supported es)) ↔ IsSupported c es
    check_candidate_iff c es = (check_candidate→IsSupported c es, IsSupported→check_candidate c es)
