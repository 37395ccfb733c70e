-- ===== src/Review/Orchestrator/Run/Grounded.antt =====
-- Every reported issue, whatever the models say, rests on the repository.
use Prim.Native.String.{String}
use analysis_engine_service.Prelude.{
  ◌≤◌, ◌≡◌, refl, sym, ap, subst, ◌∙◌, inl, inr, Bool, true, false, not, ◌&&◌, Bool-cases, Option,
  none, some, List, [], ◌∷◌, map, length, All, All-of, All-Elem, Elem, Elem-filter, filter, arith,
}
use analysis_engine_service.Prelude.Floats.{Floats}
use analysis_engine_service.Prelude.Text.{Unicode}
use analysis_engine_service.Prelude.Raises.{ok, ◌>>=◌, bind-eq-ok, ok_or}
use analysis_engine_service.Domain.Finding.{Finding}
use analysis_engine_service.Domain.AgentReview.{
  ReviewEvidence, AgentFinding, DroppedCandidate, AgentReview,
}
use analysis_engine_service.Domain.ChangeSet.{ChangeSet}
use analysis_engine_service.Rules.RuleSet.{RuleSet}
use analysis_engine_service.Agents.Reviewer.Schema.{CandidateIssue, RuleCheckOut}
use analysis_engine_service.Agents.Reviewer.Validation.{
  severity_rank, capped_severity, rule_ids_of, to_finding, ValidatedReview,
}
use analysis_engine_service.Agents.Reviewer.Validation.Kept.{IsSupported}
use analysis_engine_service.Agents.Reviewer.Validation.Sift.{Sifted, done, keep, drop}
use analysis_engine_service.Agents.Runtime.AgentLoop.{AgentRun}
use analysis_engine_service.Review.Reporter.{max_reported, rank_and_cap}
use analysis_engine_service.Review.Reporter.Merge.{IsSameIssue}
use analysis_engine_service.Review.Reporter.Ranking.{rank_and_cap_lem}
use analysis_engine_service.Review.Verification.{VerifierOutput, verify_findings}
use analysis_engine_service.Review.Verification.Verdicts.{
  Stays, Verified, done as all_done, stay, refute, verify_findings-Verified,
}
use analysis_engine_service.Review.Orchestrator.{is_in, is_empty, without_rejected}
use analysis_engine_service.Review.Orchestrator.Run.{verify_all, fill, finish}

module _ (F : Floats) (U : Unicode) (digest : String → String) (raised : String)
    (files : String → Option (List String)) (findings : List Finding) (repository : String)
    (rules : RuleSet) (change_set : ChangeSet) (verifier_enabled : Bool)
    (verify : AgentFinding (F.Float) → AgentRun F VerifierOutput)
    (rejected : Option (List String)) where
  open F use {Float}

  -- The issue is one of the candidates, at its place, and the repository supports that candidate; the
  -- severity is no higher than what the cited rules allow.
  pub record IsGrounded (cs : List (CandidateIssue Float)) (f : AgentFinding Float) : Type 0 where
    pub candidate : CandidateIssue Float
    pub support : List ReviewEvidence
    pub proposed : Elem candidate cs
    pub supported : IsSupported U files findings (some rules) Float candidate support
    pub same_title : f.title ≡ candidate.title
    pub same_file : f.file_path ≡ candidate.file_path
    pub same_line : f.line_start ≡ candidate.line_start
    pub capped :
        severity_rank f.severity
        ≤ severity_rank (capped_severity U candidate.severity (rule_ids_of U support) (some rules))

  widen :
      (c : CandidateIssue Float) (cs : List (CandidateIssue Float)) (f : AgentFinding Float)
      → IsGrounded cs f
      → IsGrounded (c ∷ cs) f
  widen c cs f g = record {
    candidate = g.candidate;
    support = g.support;
    proposed = inr g.proposed;
    supported = g.supported;
    same_title = g.same_title;
    same_file = g.same_file;
    same_line = g.same_line;
    capped = g.capped;
  }

  pub Sifted→All :
      {cs : List (CandidateIssue Float)} {ks : List (AgentFinding Float)}
      {ds : List DroppedCandidate}
      → Sifted U files findings (some rules) Float digest repository cs ks ds
      → All (IsGrounded cs) ks
  unfolding to_finding
  Sifted→All done = tt
  Sifted→All (keep {cs} {ks} c es s _ rest) = (
    record {
      candidate = c;
      support = es;
      proposed = inl refl;
      supported = s;
      same_title = refl;
      same_file = refl;
      same_line = refl;
      capped = omega arith;
    },
    All-of _ ks (λ f m. widen c cs f (All-Elem (IsGrounded cs) ks f (Sifted→All rest) m)),
  )
  Sifted→All (drop {cs} {ks} c p unsupported rest) =
      All-of _ ks (λ f m. widen c cs f (All-Elem (IsGrounded cs) ks f (Sifted→All rest) m))

  -- No developer marked the issue wrong.
  abbrev pub IsUnrejected : AgentFinding Float → Type 0
  IsUnrejected f = elim rejected [ none ↦ false | some marked ↦ is_in f.fingerprint marked ] ≡ false

  -- What holds of the issues that a review reports.
  abbrev pub AreGrounded : List (CandidateIssue Float) → List (AgentFinding Float) → Type 0
  AreGrounded cs fs = (length fs ≤ max_reported) × All (λ f. IsGrounded cs f × IsUnrejected f) fs

  module _ (cs : List (CandidateIssue Float)) where
    -- Neither the Verifier nor the reporter changes what makes an issue grounded.
    Stays-IsGrounded :
        (f : AgentFinding Float) (r : AgentRun F VerifierOutput) (f' : AgentFinding Float)
        → IsGrounded cs f
        → Stays F U files findings (some rules) f r f'
        → IsGrounded cs f'
    Stays-IsGrounded f r f' g (inl e) = subst (IsGrounded cs) (sym e) g
    Stays-IsGrounded f r f' g (inr (o, _, _, e, le)) = record {
      candidate = g.candidate;
      support = g.support;
      proposed = g.proposed;
      supported = g.supported;
      same_title = ap (λ (x : AgentFinding Float). x.title) e ∙ g.same_title;
      same_file = ap (λ (x : AgentFinding Float). x.file_path) e ∙ g.same_file;
      same_line = ap (λ (x : AgentFinding Float). x.line_start) e ∙ g.same_line;
      capped = omega (arith, g.capped, le);
    }

    with_evidence :
        (f m : AgentFinding Float) → IsGrounded cs f → IsSameIssue F m f → IsGrounded cs m
    with_evidence f m g e = record {
      candidate = g.candidate;
      support = g.support;
      proposed = g.proposed;
      supported = g.supported;
      same_title = ap (λ (x : AgentFinding Float). x.title) e ∙ g.same_title;
      same_file = ap (λ (x : AgentFinding Float). x.file_path) e ∙ g.same_file;
      same_line = ap (λ (x : AgentFinding Float). x.line_start) e ∙ g.same_line;
      capped =
          subst
            (λ s.
              severity_rank s
              ≤ severity_rank
                  (capped_severity U g.candidate.severity (rule_ids_of U g.support) (some rules)))
            (sym (ap (λ (x : AgentFinding Float). x.severity) e)) g.capped;
    }

    Verified→All :
        {runs : List (AgentFinding Float × AgentRun F VerifierOutput)}
        {ks : List (AgentFinding Float)} {ds : List DroppedCandidate}
        → Verified F U files findings (some rules) runs ks ds
        → All (λ x. IsGrounded cs x.0) runs
        → All (IsGrounded cs) ks
    Verified→All all_done h = tt
    Verified→All (stay f r f' s rest) h = (Stays-IsGrounded f r f' h.0 s, Verified→All rest h.1)
    Verified→All (refute f r why s rest) h = Verified→All rest h.1

    pub verify_all-All :
        (fs : List (AgentFinding Float)) (r : List (AgentFinding Float) × List DroppedCandidate)
        → verify_all F U digest raised files findings repository rules change_set verifier_enabled
            verify rejected fs
          ≡ ok r
        → All (IsGrounded cs) fs
        → All (IsGrounded cs) r.0
    unfolding verify_all
    verify_all-All fs r h k = elim (Bool-cases (verifier_enabled && not (is_empty fs))) [
      | inr off ↦ subst (λ (x : Result). All (IsGrounded cs) x.0) (ap (ok_or r) (skipped off)) k
      | inl on ↦
          let (w, e, same) = bind-eq-ok _ _ r (verified on) in
          subst (λ (x : Result). All (IsGrounded cs) x.0) same
            (Verified→All
              (verify_findings-Verified F U files findings (some rules)
                (map (λ f. (f, verify f)) fs) w e).0
              (paired fs k))
    ]
      where
        Result : Type 0
        Result = List (AgentFinding Float) × List DroppedCandidate

        skipped : (verifier_enabled && not (is_empty fs)) ≡ false → ok (fs, []) ≡ ok r
        skipped off = ground arith

        verified :
            (verifier_enabled && not (is_empty fs)) ≡ true
            → (verify_findings F U files findings (some rules) (map (λ f. (f, verify f)) fs)
                >>= λ w. ok (w.kept, w.refuted))
              ≡ ok r
        verified on = ground arith

        paired :
            (l : List (AgentFinding Float))
            → All (IsGrounded cs) l
            → All
                (λ (x : AgentFinding Float × AgentRun F VerifierOutput). IsGrounded cs x.0)
                (map (λ f. (f, verify f)) l)
        paired [] p = tt
        paired (f ∷ l) p = (p.0, paired l p.1)

    -- No issue left is one that a developer marked wrong.
    without_rejected-All :
        (fs : List (AgentFinding Float))
        → All (IsGrounded cs) fs
        → All (λ f. IsGrounded cs f × IsUnrejected f) (without_rejected rejected fs).0
    unfolding without_rejected
    without_rejected-All fs h = at rejected
      where
        at :
            (o : Option (List String))
            → All
                (λ f.
                  IsGrounded cs f
                  × (elim o [ none ↦ false | some marked ↦ is_in f.fingerprint marked ] ≡ false))
                (without_rejected o fs).0
        at none = All-of _ fs (λ f m. (All-Elem (IsGrounded cs) fs f h m, refl))
        at (some marked) = All-of _ (filter (λ f. not (is_in f.fingerprint marked)) fs) (λ f m.
            let (i, n) = Elem-filter (λ f. not (is_in f.fingerprint marked)) f fs m in
            (All-Elem (IsGrounded cs) fs f h i, ground arith))

    unrejected : (f m : AgentFinding Float) → IsUnrejected f → IsSameIssue F m f → IsUnrejected m
    unrejected f m u same =
        ap
          (λ (x : AgentFinding Float). elim rejected [
            | none ↦ false
            | some marked ↦ is_in x.fingerprint marked
          ])
          same
        ∙ u

    -- The issues that the review of checked findings reports.
    pub fill-All :
        (review : AgentReview Float) (v : ValidatedReview Float) (said : List RuleCheckOut)
        (r : List (AgentFinding Float) × List DroppedCandidate)
        → All (IsGrounded cs) r.0
        → AreGrounded cs
            (fill F U digest raised files findings repository rules change_set verifier_enabled
              verify rejected review v said r).findings
    unfolding fill finish
    fill-All review v said r h =
        let left = (without_rejected rejected r.0).0 in
        (
          (rank_and_cap_lem F left).0,
          All-of _ (rank_and_cap F left) (λ m k.
              let (f, i, same, _) =
                All-Elem _ (rank_and_cap F left) m (rank_and_cap_lem F left).2 k in
              let (g, u) = All-Elem _ left f (without_rejected-All r.0 h) i in
              (with_evidence f m g same, unrejected f m u same)),
        )
