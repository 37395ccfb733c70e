-- ===== src/Review/Reporter/Merge.antt =====
-- One round of the merging loop of `rank_and_cap`.
use analysis_engine_service.Prelude.{
  ap, any-append_left, any-append_right, Elem-any, Elem-filter_of, ◌≡◌, refl, ◌⊎◌, inl, inr, true,
  false, not, List, [], ◌∷◌, any, filter, All, All-of, All-Elem, Any, Elem, Pairwise, Bool-cases,
  eq_iff, arith,
}
use analysis_engine_service.Prelude.Floats.{Floats}
use analysis_engine_service.Domain.AgentReview.{ReviewEvidence, AgentFinding}
use analysis_engine_service.Review.Reporter.{same_ref, extend, score, same_place, merge}

type_eq_refl : (e : ReviewEvidence) → same_ref e e ≡ true
type_eq_refl e = ground (arith, eq_iff e.ref e.ref)

any_of_Elem :
    (e : ReviewEvidence) (xs : List ReviewEvidence) → Elem e xs → any (same_ref e) xs ≡ true
any_of_Elem e xs m = Elem-any (same_ref e) e xs m (type_eq_refl e)

-- After `extend` every piece of either list is referred to.
extend-new :
    (old more : List ReviewEvidence) (e : ReviewEvidence)
    → Elem e more
    → any (same_ref e) (extend old more) ≡ true
extend-new old more e m = elim (Bool-cases (any (same_ref e) old)) [
  | inl known ↦
      any-append_left (same_ref e) old (filter (λ x. not (any (same_ref x) old)) more) known
  | inr new ↦ any-append_right (same_ref e) old (filter (λ x. not (any (same_ref x) old)) more) (
      any_of_Elem e (filter (λ x. not (any (same_ref x) old)) more)
        (Elem-filter_of (λ x. not (any (same_ref x) old)) e more m (rw new)))
]

module _ (F : Floats) where
  open F use {Float, lt, lt_asym, not_lt_trans}

  -- The same issue, apart from the evidence that was added to it.
  abbrev pub IsSameIssue : AgentFinding Float → AgentFinding Float → Type 0
  IsSameIssue m f = m ≡ record f { evidence = m.evidence }

  -- `m` stands for `f`: it is ranked no lower, and it has a reference to each piece of evidence of
  -- `f`. It is `f` itself with more evidence, or another issue at the same place.
  abbrev pub StandsFor : AgentFinding Float → AgentFinding Float → Type 0
  StandsFor m f =
      (lt (score F m) (score F f) ≡ false)
      × All (λ e. any (same_ref e) m.evidence ≡ true) f.evidence
      × (IsSameIssue m f ⊎ (same_place F m f ≡ true))

  pub merge-All :
      (P : AgentFinding Float → Type 0) (ms : List (AgentFinding Float)) (f : AgentFinding Float)
      → ((m g : AgentFinding Float)
          → P m
          → P g
          → P (record m { evidence = extend m.evidence g.evidence }))
      → All P ms
      → P f
      → All P (merge F ms f)
  unfolding merge
  merge-All P [] f keep h p = (p, tt)
  merge-All P (m ∷ ms) f keep h p = elim (Bool-cases (same_place F m f)) [
    | inl e ↦ rw e (keep m f h.0 p, h.1)
    | inr e ↦ rw e (h.0, merge-All P ms f keep h.1 p)
  ]

  -- An earlier and a later issue: at different places, and in the order of their scores.
  abbrev pub IsRanked : AgentFinding Float → AgentFinding Float → Type 0
  IsRanked a b = (same_place F a b ≡ false) × (lt (score F a) (score F b) ≡ false)

  IsRanked-evidence_left :
      (a b : AgentFinding Float) (es : List ReviewEvidence)
      → IsRanked a b
      → IsRanked (record a { evidence = es }) b
  unfolding same_place score
  IsRanked-evidence_left a b es h = h

  IsRanked-evidence_right :
      (a b : AgentFinding Float) (es : List ReviewEvidence)
      → IsRanked a b
      → IsRanked a (record b { evidence = es })
  unfolding same_place score
  IsRanked-evidence_right a b es h = h

  pub merge-IsRanked :
      (ms : List (AgentFinding Float)) (f : AgentFinding Float)
      → Pairwise IsRanked ms
      → All (λ m. lt (score F m) (score F f) ≡ false) ms
      → Pairwise IsRanked (merge F ms f)
  unfolding merge
  merge-IsRanked [] f h k = (tt, tt)
  merge-IsRanked (m ∷ ms) f h k = elim (Bool-cases (same_place F m f)) [
    | inl e ↦ rw e (All_map ms h.0, h.1)
    | inr e ↦ rw e (
      merge-All (IsRanked m) ms f
          (λ b g h' _. IsRanked-evidence_right m b (extend b.evidence g.evidence) h') h.0 (e, k.0),
      merge-IsRanked ms f h.1 k.1,
    )
  ]
    where
      All_map :
          (xs : List (AgentFinding Float))
          → All (IsRanked m) xs
          → All (IsRanked (record m { evidence = extend m.evidence f.evidence })) xs
      All_map xs h' = All-of _ xs (λ x n.
          IsRanked-evidence_left m x (extend m.evidence f.evidence)
            (All-Elem (IsRanked m) xs x h' n))

  StandsFor-extend :
      (m f g : AgentFinding Float)
      → StandsFor m g
      → StandsFor (record m { evidence = extend m.evidence f.evidence }) g
  unfolding same_place score
  StandsFor-extend m f g (ranked, known, which) = (
    ranked,
    All-of _ g.evidence (λ e n.
        any-append_left (same_ref e) m.evidence _
          (All-Elem (λ x. any (same_ref x) m.evidence ≡ true) g.evidence e known n)),
    elim which [
      | inl same ↦ inl (
          ap {A = AgentFinding Float} (λ x. record x { evidence = extend m.evidence f.evidence })
            same)
      | inr place ↦ inr place
    ],
  )

  pub merge-StandsFor_old :
      (g : AgentFinding Float) (ms : List (AgentFinding Float)) (f : AgentFinding Float)
      → Any (λ m. StandsFor m g) ms
      → Any (λ m. StandsFor m g) (merge F ms f)
  unfolding merge
  merge-StandsFor_old g [] f h = absurd h
  merge-StandsFor_old g (m ∷ ms) f (inl h) = elim (Bool-cases (same_place F m f)) [
    | inl e ↦ rw e (inl (StandsFor-extend m f g h))
    | inr e ↦ rw e (inl h)
  ]
  merge-StandsFor_old g (m ∷ ms) f (inr h) = elim (Bool-cases (same_place F m f)) [
    | inl e ↦ rw e (inr h)
    | inr e ↦ rw e (inr (merge-StandsFor_old g ms f h))
  ]

  StandsFor-self : (f : AgentFinding Float) → StandsFor f f
  StandsFor-self f = (
    elim (Bool-cases (lt (score F f) (score F f))) [
      | inl e ↦ lt_asym (score F f) (score F f) e
      | inr e ↦ e
    ],
    All-of _ f.evidence (λ e. any_of_Elem e f.evidence),
    inl refl,
  )

  StandsFor-merged :
      (m f : AgentFinding Float)
      → same_place F m f ≡ true
      → lt (score F m) (score F f) ≡ false
      → StandsFor (record m { evidence = extend m.evidence f.evidence }) f
  unfolding same_place score
  StandsFor-merged m f e k =
      (k, All-of _ f.evidence (λ x. extend-new m.evidence f.evidence x), inr e)

  pub merge-StandsFor_new :
      (ms : List (AgentFinding Float)) (f : AgentFinding Float)
      → All (λ m. lt (score F m) (score F f) ≡ false) ms
      → Any (λ m. StandsFor m f) (merge F ms f)
  unfolding merge
  merge-StandsFor_new [] f k = inl (StandsFor-self f)
  merge-StandsFor_new (m ∷ ms) f k = elim (Bool-cases (same_place F m f)) [
    | inl e ↦ rw e (inl (StandsFor-merged m f e k.0))
    | inr e ↦ rw e (inr (merge-StandsFor_new ms f k.1))
  ]
