-- ===== src/Evaluation/Scoring/Counted.antt =====
-- What a score counts: each planted defect is found or missed, and each finding right or wrong.
use analysis_engine_service.Prelude.{
  ◌+◌, ◌≡◌, refl, sym, ◌∙◌, ap, Bool, true, false, not, ◌||◌, Bool-cases, some, inl, inr, List, [],
  ◌∷◌, ◌++◌, map, any, filter, count, length, length-filter, append-nil, append_assoc, arith,
  String,
}
use analysis_engine_service.Domain.AgentReview.{AgentFinding, AgentReview}
use analysis_engine_service.Evaluation.Scoring.{
  ExpectedLocation, Tally, CaseScore, matches, update, shown, score_finding, score_findings,
  no_counts, missed_of, is_completed, score_located,
}

-- Some location is matched.
abbrev pub is_hit : {Float : Type 0} → List ExpectedLocation → AgentFinding Float → Bool
is_hit ls f = any (matches f) ls

-- Some finding matches.
abbrev pub is_found : {Float : Type 0} → List (AgentFinding Float) → ExpectedLocation → Bool
is_found fs l = any (λ f. matches f l) fs

any-map : {A : Type 0} (p : A → Bool) (xs : List A) → any (λ b. b) (map p xs) ≡ any p xs
any-map p [] = refl
any-map p (x ∷ xs) = ground (arith, any-map p xs)

update-map :
    {A : Type 0} (p q : A → Bool) (xs : List A)
    → update (map p xs) (map q xs) ≡ map (λ x. p x || q x) xs
update-map p q [] = refl
update-map p q (x ∷ xs) = ap (λ bs. (p x || q x) ∷ bs) (update-map p q xs)

map-eq : {A B : Type 0} (f g : A → B) (xs : List A) → ((x : A) → f x ≡ g x) → map f xs ≡ map g xs
map-eq f g [] h = refl
map-eq f g (x ∷ xs) h = rw (h x, map-eq f g xs h) refl

count-not :
    {A : Type 0} (p : A → Bool) (xs : List A) → count p xs + count (λ x. not (p x)) xs ≡ length xs
count-not p [] = omega arith
count-not p (x ∷ xs) = ground (arith, count-not p xs)

filter-map :
    {A : Type 0} (p : A → Bool) (xs : List A) → length (filter (λ b. b) (map p xs)) ≡ count p xs
filter-map p [] = refl
filter-map p (x ∷ xs) = ground (arith, filter-map p xs)

missed_of-map :
    (p : ExpectedLocation → Bool) (ls : List ExpectedLocation)
    → missed_of (map p ls) ls ≡ map (λ l. l.expected.what) (filter (λ l. not (p l)) ls)
missed_of-map p [] = refl
missed_of-map p (l ∷ ls) = elim (Bool-cases (p l)) [
  | inl h ↦ rw h (missed_of-map p ls)
  | inr h ↦ rw h (ap (λ ws. l.expected.what ∷ ws) (missed_of-map p ls))
]

length-map : {A B : Type 0} (f : A → B) (xs : List A) → length (map f xs) ≡ length xs
length-map f [] = refl
length-map f (x ∷ xs) = omega (arith, length-map f xs)

-- A finding that matches nothing leaves the marks as they are.
map-unhit :
    (p q : ExpectedLocation → Bool) (xs : List ExpectedLocation)
    → any q xs ≡ false
    → map p xs ≡ map (λ l. p l || q l) xs
map-unhit p q [] h = refl
map-unhit p q (x ∷ xs) h =
    let here : p x ≡ p x || q x = ground (arith, h) in
    let rest : any q xs ≡ false = ground (arith, h) in
    ap (λ b. b ∷ map p xs) here ∙ ap (λ bs. (p x || q x) ∷ bs) (map-unhit p q xs rest)

module _ {Float : Type 0} (ls : List ExpectedLocation) where
  -- The counts of some findings, from those before them.
  pub record IsTally (p : ExpectedLocation → Bool) (t : Tally) (fs : List (AgentFinding Float))
      (r : Tally) : Type 0 where
    pub right : r.true_positives ≡ t.true_positives + count (is_hit ls) fs
    pub wrong : r.false_positives ≡ t.false_positives + count (λ f. not (is_hit ls f)) fs
    pub named : r.unexpected ≡ t.unexpected ++ map shown (filter (λ f. not (is_hit ls f)) fs)
    pub marked : r.matched ≡ map (λ l. p l || is_found fs l) ls

  score_finding-IsTally :
      (p : ExpectedLocation → Bool) (t : Tally) (f : AgentFinding Float)
      → t.matched ≡ map p ls
      → IsTally p t (f ∷ []) (score_finding ls t f)
  unfolding score_finding
  score_finding-IsTally p t f m = elim (Bool-cases (is_hit ls f)) [
    | inl hit ↦
        rw (any-map (matches f) ls, hit)
          (record {
            right = ground (arith, hit);
            wrong = ground (arith, hit);
            named = rw hit (sym (append-nil t.unexpected));
            marked =
                ap (λ bs. update bs (map (matches f) ls)) m
                ∙ update-map p (matches f) ls
                ∙ map-eq (λ l. p l || matches f l) (λ l. p l || is_found (f ∷ []) l) ls
                    (λ l. ground arith);
          })
    | inr miss ↦
        rw (any-map (matches f) ls, miss)
          (record {
            right = ground (arith, miss);
            wrong = ground (arith, miss);
            named = rw miss refl;
            marked =
                m
                ∙ map-unhit p (matches f) ls miss
                ∙ map-eq (λ l. p l || matches f l) (λ l. p l || is_found (f ∷ []) l) ls
                    (λ l. ground arith);
          })
  ]

  score_findings-IsTally :
      (p : ExpectedLocation → Bool) (t : Tally) (fs : List (AgentFinding Float))
      → t.matched ≡ map p ls
      → IsTally p t fs (score_findings ls t fs)
  unfolding score_findings
  score_findings-IsTally p t [] m = record {
    right = omega arith;
    wrong = omega arith;
    named = sym (append-nil t.unexpected);
    marked = m ∙ map-eq p (λ l. p l || false) ls (λ l. ground arith);
  }
  score_findings-IsTally p t (f ∷ fs) m =
      let one = score_finding-IsTally p t f m in
      let q : ExpectedLocation → Bool = λ l. p l || is_found (f ∷ []) l in
      let all = score_findings-IsTally q (score_finding ls t f) fs one.marked in
      record {
        right = ground (arith, all.right, one.right);
        wrong = ground (arith, all.wrong, one.wrong);
        named =
            all.named
            ∙ ap (λ ws. ws ++ map shown (filter (λ g. not (is_hit ls g)) fs)) one.named
            ∙ append_shown t.unexpected f fs;
        marked =
            all.marked
            ∙ map-eq (λ l. q l || is_found fs l) (λ l. p l || is_found (f ∷ fs) l) ls
                (λ l. ground arith);
      }
    where
      append_shown :
          (ws : List String) (f : AgentFinding Float) (fs : List (AgentFinding Float))
          → (ws ++ map shown (filter (λ g. not (is_hit ls g)) (f ∷ [])))
              ++ map shown (filter (λ g. not (is_hit ls g)) fs)
            ≡ ws ++ map shown (filter (λ g. not (is_hit ls g)) (f ∷ fs))
      append_shown ws f fs = elim (Bool-cases (is_hit ls f)) [
        | inl hit ↦ rw (hit, append-nil ws) refl
        | inr miss ↦
            rw miss
              (append_assoc ws (shown f ∷ []) (map shown (filter (λ g. not (is_hit ls g)) fs)))
      ]

  -- The score of a completed review.
  pub record IsScore (fs : List (AgentFinding Float)) (s : CaseScore) : Type 0 where
    pub found : s.found ≡ count (is_found fs) ls
    pub missed : s.missed ≡ map (λ l. l.expected.what) (filter (λ l. not (is_found fs l)) ls)
    pub all_expected : s.found + length s.missed ≡ s.expected
    pub right : s.true_positives ≡ count (is_hit ls) fs
    pub all_reported : s.true_positives + s.false_positives ≡ s.reported
    pub unexpected : s.unexpected ≡ map shown (filter (λ f. not (is_hit ls f)) fs)

  -- The score of a completed review counts as found the planted defects that some finding matches,
  -- and names the others as missed; it counts as right the findings that match some defect and
  -- names the others as unexpected. Found and missed defects together are all the expected ones, and
  -- right and wrong findings all the reported ones.
  pub score_located-IsScore :
      (review : AgentReview Float)
      → is_completed review.status ≡ true
      → IsScore review.findings (score_located ls (some review))
  unfolding score_located
  score_located-IsScore review h =
      let p = is_found review.findings in
      let t = score_findings-IsTally (λ l. false) (no_counts ls) review.findings refl in
      let found = ap (λ bs. length (filter (λ b. b) bs)) t.marked ∙ filter-map p ls in
      let missed = ap (λ bs. missed_of bs ls) t.marked ∙ missed_of-map p ls in
      let misses =
        ap length missed
        ∙ length-map (λ l. l.expected.what) (filter (λ l. not (p l)) ls)
        ∙ length-filter (λ l. not (p l)) ls in
      rw h (record {
        found = found;
        missed = missed;
        all_expected = omega (arith, found, misses, count-not p ls);
        right = omega (arith, t.right);
        all_reported = omega (arith, t.right, t.wrong, count-not (is_hit ls) review.findings);
        unexpected = t.named;
      })
