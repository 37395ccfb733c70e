-- ===== src/Agents/Reviewer/Validation/Sift.antt =====
-- The loop of `validate_review` over the candidates.
use analysis_engine_service.Prelude.{
  ℕ, ◌≤◌, max, String, true, ◌↔◌, ◌⊎◌, sym, Elem, filter, map-Elem, Elem-map, Elem-filter,
  Elem-filter_of, ◌≡◌, refl, ◌∙◌, subst, Option, List, [], ◌∷◌, ◌++◌, append-nil, append_assoc,
  arith,
}
use analysis_engine_service.Prelude.Text.{Unicode, strip, strip_by, is_bracket, join}
use analysis_engine_service.Prelude.Raises.{Raises, ok, value_error, ◌>>=◌, bind-eq-ok}
use analysis_engine_service.Domain.Finding.{Finding}
use analysis_engine_service.Domain.AgentReview.{
  ReviewEvidence, AgentFinding, unverified, DropReason, Stage, DroppedCandidate,
}
use analysis_engine_service.Rules.RuleSet.{RuleSet}
use analysis_engine_service.Agents.Reviewer.Schema.{CandidateIssue, ReviewerOutput}
use analysis_engine_service.Agents.Reviewer.Validation.{
  category_name, cites_rule, rule_ids_of, Checked, problem, supported, check_candidate, to_finding,
  sift, ValidatedReview, validate_review,
}
use analysis_engine_service.Agents.Reviewer.Quote.{normalise}
use analysis_engine_service.Agents.Reviewer.Validation.Cap.{
  IsCapped, IsCited, capped_severity-IsCapped,
}
use analysis_engine_service.Agents.Reviewer.Validation.Kept.{IsSupported, check_candidate_iff}

module _ (U : Unicode) (files : String → Option (List String)) (findings : List Finding)
    (rules : Option RuleSet) (Float : Type 0) (digest : String → String) (repository : String) where
  -- The finding that is kept of a supported candidate.
  abbrev pub kept_of : CandidateIssue Float → List ReviewEvidence → AgentFinding Float
  kept_of = to_finding U files findings rules Float digest repository

  -- What a finding has of its candidate: its texts and its place, with a last line that is not before
  -- the first; a severity that its rules cap; the evidence; the ids of the rules that it cites; and the
  -- digest of what tells it from others: the repository, its category, its file and its title.
  pub record IsFindingOf (c : CandidateIssue Float) (es : List ReviewEvidence)
      (f : AgentFinding Float) : Type 0 where
    pub fingerprint :
        f.fingerprint
        ≡ digest (
            join "|" (
              repository
              ∷ category_name c.category
              ∷ c.file_path
              ∷ U.lower (normalise U c.title)
              ∷ []))
    pub title : f.title ≡ c.title
    pub category : f.category ≡ c.category
    pub severity : IsCapped (IsCited U rules f.rule_ids) c.severity f.severity
    pub confidence : f.confidence ≡ c.confidence
    pub file_path : f.file_path ≡ c.file_path
    pub line_start : f.line_start ≡ c.line_start
    pub line_end :
        (f.line_start ≤ f.line_end)
        × (c.line_end ≤ f.line_end)
        × ((f.line_end ≡ c.line_start) ⊎ (f.line_end ≡ c.line_end))
    pub explanation : f.explanation ≡ c.explanation
    pub suggested_fix : f.suggested_fix ≡ c.suggested_fix
    pub evidence : f.evidence ≡ es
    pub rule_ids :
        (id : String)
        → Elem id f.rule_ids ↔ (
            (e : ReviewEvidence) × Elem e es
            × (cites_rule e ≡ true)
            × (id ≡ strip_by is_bracket (strip U e.ref)))
    pub unverified_yet : f.verification ≡ unverified

  rule_ids_of_iff :
      (es : List ReviewEvidence) (id : String)
      → Elem id (rule_ids_of U es) ↔ (
          (e : ReviewEvidence) × Elem e es
          × (cites_rule e ≡ true)
          × (id ≡ strip_by is_bracket (strip U e.ref)))
  rule_ids_of_iff es id = (
    λ m.
        let (e, n, q) =
          map-Elem (λ (e : ReviewEvidence). strip_by is_bracket (strip U e.ref)) id
            (filter cites_rule es) m in
        let (k, cites) = Elem-filter cites_rule e es n in (e, k, cites, sym q),
    λ (e, k, cites, q).
        subst (λ i. Elem i (rule_ids_of U es)) (sym q)
          (Elem-map (λ (e : ReviewEvidence). strip_by is_bracket (strip U e.ref)) e
            (filter cites_rule es) (Elem-filter_of cites_rule e es k cites)),
  )

  max_cases : (m n : ℕ) → (max m n ≡ n) ⊎ (max m n ≡ m)
  max_cases m n = omega arith

  to_finding-IsFindingOf :
      (c : CandidateIssue Float) (es : List ReviewEvidence) → IsFindingOf c es (kept_of c es)
  unfolding to_finding
  to_finding-IsFindingOf c es = record {
    fingerprint = refl;
    title = refl;
    category = refl;
    severity = capped_severity-IsCapped U c.severity (rule_ids_of U es) rules;
    confidence = refl;
    file_path = refl;
    line_start = refl;
    line_end = (omega arith, omega arith, max_cases c.line_end c.line_start);
    explanation = refl;
    suggested_fix = refl;
    evidence = refl;
    rule_ids = rule_ids_of_iff es;
    unverified_yet = refl;
  }

  abbrev dropped_of : CandidateIssue Float → DropReason → DroppedCandidate
  dropped_of c p = record { title = c.title; reason = p; stage = Stage.evidence }

  -- The outcome for a list of candidates: each is either supported, and then its finding is next
  -- among the kept, or has a problem, and then it is next among the dropped.
  pub data Sifted
      : List (CandidateIssue Float)
        → List (AgentFinding Float)
        → List DroppedCandidate
        → Type 0 where
    done : Sifted [] [] []
    keep :
        {cs : List (CandidateIssue Float)} {ks : List (AgentFinding Float)}
        {ds : List DroppedCandidate} (c : CandidateIssue Float) (es : List ReviewEvidence)
        → IsSupported U files findings rules Float c es
        → IsFindingOf c es (kept_of c es)
        → Sifted cs ks ds
        → Sifted (c ∷ cs) (kept_of c es ∷ ks) ds
    drop :
        {cs : List (CandidateIssue Float)} {ks : List (AgentFinding Float)}
        {ds : List DroppedCandidate} (c : CandidateIssue Float) (p : DropReason)
        → ((es : List ReviewEvidence) → ¬ IsSupported U files findings rules Float c es)
        → Sifted cs ks ds
        → Sifted (c ∷ cs) ks (dropped_of c p ∷ ds)

  abbrev Outcome :
      List (CandidateIssue Float)
      → List (AgentFinding Float)
      → List DroppedCandidate
      → List (AgentFinding Float) × List DroppedCandidate
      → Type 0
  Outcome cs kept dropped r =
      (ks : List (AgentFinding Float)) × (ds : List DroppedCandidate) × Sifted cs ks ds
      × (r.0 ≡ kept ++ ks)
      × (r.1 ≡ dropped ++ ds)

  sift-Sifted :
      (kept : List (AgentFinding Float)) (dropped : List DroppedCandidate)
      (cs : List (CandidateIssue Float)) (r : List (AgentFinding Float) × List DroppedCandidate)
      → sift U files findings rules Float digest repository kept dropped cs ≡ ok r
      → Outcome cs kept dropped r
  unfolding sift
  sift-Sifted kept dropped [] r h =
      ([], [], done, ground (arith, append-nil kept), ground (arith, append-nil dropped))
  sift-Sifted kept dropped (c ∷ cs) r h =
      at (check_candidate U files findings rules Float c) refl h
        (λ es. sift-Sifted (kept ++ kept_of c es ∷ []) dropped cs r)
        (λ p. sift-Sifted kept (dropped ++ dropped_of c p ∷ []) cs r)
    where
      loop :
          List (AgentFinding Float)
          → List DroppedCandidate
          → Raises (List (AgentFinding Float) × List DroppedCandidate)
      loop ks ds = sift U files findings rules Float digest repository ks ds cs

      at :
          (o : Raises Checked)
          → check_candidate U files findings rules Float c ≡ o
          → (o >>= λ x. elim x [
            | problem p ↦ loop kept (dropped ++ dropped_of c p ∷ [])
            | supported es ↦ loop (kept ++ kept_of c es ∷ []) dropped
          ])
            ≡ ok r
          → ((es : List ReviewEvidence)
              → loop (kept ++ kept_of c es ∷ []) dropped ≡ ok r
              → Outcome cs (kept ++ kept_of c es ∷ []) dropped r)
          → ((p : DropReason)
              → loop kept (dropped ++ dropped_of c p ∷ []) ≡ ok r
              → Outcome cs kept (dropped ++ dropped_of c p ∷ []) r)
          → Outcome (c ∷ cs) kept dropped r
      at value_error e k ih_keep ih_drop = absurd (cc)
      at (ok (problem p)) e k ih_keep ih_drop =
          let (ks, ds, s, q, q') = ih_drop p k in
          (
            ks,
            dropped_of c p ∷ ds,
            drop c p
                (λ es is.
                  absurd (cc ((check_candidate_iff U files findings rules Float c es).1 is, e)))
                s,
            q,
            q' ∙ append_assoc dropped (dropped_of c p ∷ []) ds,
          )
      at (ok (supported es)) e k ih_keep ih_drop =
          let (ks, ds, s, q, q') = ih_keep es k in
          (
            kept_of c es ∷ ks,
            ds,
            keep c es ((check_candidate_iff U files findings rules Float c es).0 e)
                (to_finding-IsFindingOf c es) s,
            q ∙ append_assoc kept (kept_of c es ∷ []) ks,
            q',
          )

  pub validate_review-Sifted :
      (output : ReviewerOutput Float) (v : ValidatedReview Float)
      → validate_review U files findings rules Float digest repository output ≡ ok v
      → Sifted output.candidates v.findings v.dropped
  unfolding validate_review
  validate_review-Sifted output v h =
      let (r, e, same) = bind-eq-ok _ _ v h in
      let (ks, ds, s, q, q') = sift-Sifted [] [] output.candidates r e in
      subst (λ (w : ValidatedReview Float). Sifted output.candidates w.findings w.dropped) same
        (rw (q, q') s)
