-- ===== src/Review/Reporter/Ranking.antt =====
-- What `rank_and_cap` reports of the issues that it is given.
use analysis_engine_service.Prelude.{
  ap, ◌∙◌, subst, sym, append-nil, append_assoc, inl, inr, not, any, filter, ◌++◌, All-append,
  Elem-append, Elem-filter, take_all, ◌≤◌, ◌≡◌, refl, false, List, [], ◌∷◌, length, length-take-le,
  All, All-take, All-of, All-Elem, Any, Elem, Pairwise, Pairwise-take,
}
use analysis_engine_service.Prelude.Floats.{Floats}
use analysis_engine_service.Prelude.Sorting.{
  sorted, IsSorted, IsKeyOrder, sorted-IsSorted, sorted-Elem, Elem-sorted_of,
}
use analysis_engine_service.Domain.AgentReview.{ReviewEvidence, AgentFinding}
use analysis_engine_service.Review.Reporter.{
  same_ref, extend, max_reported, score, is_ranked_before, merge, merge_all, rank_and_cap,
}
use analysis_engine_service.Review.Reporter.Merge.{
  IsSameIssue, StandsFor, IsRanked, merge-All, merge-IsRanked, merge-StandsFor_old,
  merge-StandsFor_new,
}

module _ (F : Floats) where
  open F use {Float, lt, lt_asym, not_lt_trans}

  is_ranked_before-IsKeyOrder : IsKeyOrder (is_ranked_before F)
  is_ranked_before-IsKeyOrder = record {
    asym = λ x y h. lt_asym (score F y) (score F x) h;
    trans = λ x y z h k. not_lt_trans (score F z) (score F y) (score F x) k h;
  }

  -- Every issue of `ms` is ranked no lower than `f`.
  abbrev AreAbove : List (AgentFinding Float) → AgentFinding Float → Type 0
  AreAbove ms f = All (λ m. lt (score F m) (score F f) ≡ false) ms

  merge-AreAbove :
      (ms : List (AgentFinding Float)) (f g : AgentFinding Float)
      → AreAbove ms g
      → lt (score F f) (score F g) ≡ false
      → AreAbove (merge F ms f) g
  merge-AreAbove ms f g h k =
      merge-All F (λ m. lt (score F m) (score F g) ≡ false) ms f (λ m f' p _. unfold score in p) h k

  All-merge-AreAbove :
      (ms fs : List (AgentFinding Float)) (f : AgentFinding Float)
      → All (AreAbove ms) fs
      → All (λ g. is_ranked_before F g f ≡ false) fs
      → All (AreAbove (merge F ms f)) fs
  All-merge-AreAbove ms [] f h k = tt
  All-merge-AreAbove ms (g ∷ fs) f h k =
      (merge-AreAbove ms f g h.0 k.0, All-merge-AreAbove ms fs f h.1 k.1)

  merge_all-IsRanked :
      (ms fs : List (AgentFinding Float))
      → Pairwise (IsRanked F) ms
      → IsSorted (is_ranked_before F) fs
      → All (AreAbove ms) fs
      → Pairwise (IsRanked F) (merge_all F ms fs)
  unfolding merge_all
  merge_all-IsRanked ms [] h s k = h
  merge_all-IsRanked ms (f ∷ fs) h s k =
      merge_all-IsRanked (merge F ms f) fs (merge-IsRanked F ms f h k.0) s.1
        (All-merge-AreAbove ms fs f k.1 s.0)

  merge_all-StandsFor_old :
      (g : AgentFinding Float) (ms fs : List (AgentFinding Float))
      → Any (λ m. StandsFor F m g) ms
      → Any (λ m. StandsFor F m g) (merge_all F ms fs)
  unfolding merge_all
  merge_all-StandsFor_old g ms [] h = h
  merge_all-StandsFor_old g ms (f ∷ fs) h =
      merge_all-StandsFor_old g (merge F ms f) fs (merge-StandsFor_old F g ms f h)

  merge_all-StandsFor :
      (ms fs : List (AgentFinding Float))
      → IsSorted (is_ranked_before F) fs
      → All (AreAbove ms) fs
      → All (λ f. Any (λ m. StandsFor F m f) (merge_all F ms fs)) fs
  unfolding merge_all
  merge_all-StandsFor ms [] s k = tt
  merge_all-StandsFor ms (f ∷ fs) s k = (
    merge_all-StandsFor_old f (merge F ms f) fs (merge-StandsFor_new F ms f k.0),
    merge_all-StandsFor (merge F ms f) fs s.1 (All-merge-AreAbove ms fs f k.1 s.0),
  )

  merge_all-All :
      (P : AgentFinding Float → Type 0) (ms fs : List (AgentFinding Float))
      → ((m g : AgentFinding Float)
          → P m
          → P g
          → P (record m { evidence = extend m.evidence g.evidence }))
      → All P ms
      → All P fs
      → All P (merge_all F ms fs)
  unfolding merge_all
  merge_all-All P ms [] keep h k = h
  merge_all-All P ms (f ∷ fs) keep h k =
      merge_all-All P (merge F ms f) fs keep (merge-All F P ms f keep h k.0) k.1

  module _ (findings : List (AgentFinding Float)) where
    ranked : List (AgentFinding Float)
    ranked = sorted (is_ranked_before F) findings

    ranked-IsSorted : IsSorted (is_ranked_before F) ranked
    unfolding ranked
    ranked-IsSorted = sorted-IsSorted (is_ranked_before F) is_ranked_before-IsKeyOrder findings

    above_nothing : All (AreAbove []) ranked
    above_nothing = All-of (AreAbove []) ranked (λ f m. tt)

    -- The piece of evidence is one of a given issue.
    abbrev pub IsGiven : ReviewEvidence → Type 0
    IsGiven e = (g : AgentFinding Float) × Elem g findings × Elem e g.evidence

    -- `m` is a given issue: all of it is the same, and behind its evidence there may be more, which
    -- is that of given issues.
    abbrev pub IsExtended : AgentFinding Float → Type 0
    IsExtended m =
        (f : AgentFinding Float) × Elem f findings
        × IsSameIssue F m f
        × ((more : List ReviewEvidence) × (m.evidence ≡ f.evidence ++ more) × All IsGiven more)

    given :
        (f : AgentFinding Float)
        → IsExtended f
        → (e : ReviewEvidence) → Elem e f.evidence
        → IsGiven e
    given g (f, i, _, (more, q, all)) e m =
        elim (Elem-append e f.evidence more (subst (λ l. Elem e l) q m)) [
          | inl old ↦ (f, i, old)
          | inr new ↦ All-Elem IsGiven more e all new
        ]

    extend-IsExtended :
        (m g : AgentFinding Float)
        → IsExtended m
        → IsExtended g
        → IsExtended (record m { evidence = extend m.evidence g.evidence })
    extend-IsExtended m g (f, i, same, (more, q, all)) h =
        let added = filter (λ e. not (any (same_ref e) m.evidence)) g.evidence in
        (
          f,
          i,
          ap {A = AgentFinding Float} (λ x. record x { evidence = m.evidence ++ added }) same,
          (
            more ++ added,
            ap (λ l. l ++ added) q ∙ append_assoc f.evidence more added,
            All-append IsGiven more added all (
                All-of IsGiven added (λ e n.
                  given g h e
                    ((Elem-filter (λ x. not (any (same_ref x) m.evidence)) e g.evidence n).0))),
          ),
        )

    pub rank_and_cap_lem :
        (length (rank_and_cap F findings) ≤ max_reported)
        × Pairwise (IsRanked F) (rank_and_cap F findings)
        × All IsExtended (rank_and_cap F findings)
    unfolding rank_and_cap ranked
    rank_and_cap_lem =
        let merged = merge_all F [] ranked in
        (
          length-take-le max_reported merged,
          Pairwise-take (IsRanked F) max_reported merged
              (merge_all-IsRanked [] ranked tt ranked-IsSorted above_nothing),
          All-take IsExtended max_reported merged (
              merge_all-All IsExtended [] ranked extend-IsExtended tt (
                All-of IsExtended ranked (λ f m. (
                  f,
                  sorted-Elem (is_ranked_before F) f findings m,
                  refl,
                  ([], sym (append-nil f.evidence), tt),
                )))),
        )

    -- Before the cap, no issue is lost: one that stands for it is in the merged list, ranked no
    -- lower, with a reference to each piece of its evidence. So nothing is lost at all where the
    -- merged list has at most seven issues.
    pub rank_and_cap-StandsFor :
        length (merge_all F [] (sorted (is_ranked_before F) findings)) ≤ max_reported
        → (f : AgentFinding Float) → Elem f findings
        → Any (λ m. StandsFor F m f) (rank_and_cap F findings)
    unfolding rank_and_cap ranked
    rank_and_cap-StandsFor fits f m = rw (take_all max_reported (merge_all F [] ranked) fits) (
        All-Elem (λ g. Any (λ m. StandsFor F m g) (merge_all F [] ranked)) ranked f
          (merge_all-StandsFor [] ranked ranked-IsSorted above_nothing)
          (Elem-sorted_of (is_ranked_before F) f findings m))
