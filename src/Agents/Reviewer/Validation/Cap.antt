-- ===== src/Agents/Reviewer/Validation/Cap.antt =====
-- `_capped_severity`: a rule sets the highest severity that an issue citing it can have.
use analysis_engine_service.Prelude.{
  ◌≤◌, ◌≡◌, ◌↔◌, subst, none, some, refl, ◌⊎◌, inl, inr, Option, List, [], ◌∷◌, String, All, Elem,
  All-Elem, if◌then◌else◌, leb, ltb, arith, Bool-cases,
}
use analysis_engine_service.Prelude.Text.{Unicode}
use analysis_engine_service.Domain.AgentReview.{Severity}
use analysis_engine_service.Domain.BusinessRule.{BusinessRule}
use analysis_engine_service.Rules.RuleSet.{RuleSet, get_rule}
use analysis_engine_service.Agents.Reviewer.Validation.{
  severity_rank, caps, highest, cap_at, capped_severity,
}

highest-Elem : (s : Severity) (ss : List Severity) → Elem (highest s ss) (s ∷ ss)
highest-Elem s [] = inl refl
highest-Elem s (t ∷ ss) =
    ground (arith, highest-Elem (if ltb (severity_rank s) (severity_rank t) then t else s) ss)

highest-above :
    (s : Severity) (ss : List Severity)
    → (severity_rank s ≤ severity_rank (highest s ss))
      × All (λ t. severity_rank t ≤ severity_rank (highest s ss)) ss
highest-above s [] = (omega arith, tt)
highest-above s (t ∷ ss) =
    let (h, rest) = highest-above (if ltb (severity_rank s) (severity_rank t) then t else s) ss in
    (ground arith, (ground arith, rest))

-- What capping a severity `s` to `r` does, where `Cited c` says that some cited rule has the
-- severity `c`.
pub record IsCapped (Cited : Severity → Type 0) (s : Severity) (r : Severity) : Type 0 where
  pub never_raised : severity_rank r ≤ severity_rank s
  pub uncapped : ((c : Severity) → ¬ Cited c) → r ≡ s
  pub allowed : (c : Severity) → Cited c → severity_rank s ≤ severity_rank c → r ≡ s
  pub capped : (r ≡ s) ⊎ (Cited r × ((c : Severity) → Cited c → severity_rank c ≤ severity_rank r))

cap_at-IsCapped : (s : Severity) (cs : List Severity) → IsCapped (λ c. Elem c cs) s (cap_at s cs)
cap_at-IsCapped s [] = record {
  never_raised = omega arith;
  uncapped = λ h. refl;
  allowed = λ c m h. refl;
  capped = inl refl;
}
cap_at-IsCapped s (c ∷ cs) =
    elim (Bool-cases (leb (severity_rank s) (severity_rank (highest c cs)))) [
      | inl e ↦ rw e (record {
        never_raised = omega arith;
        uncapped = λ h. refl;
        allowed = λ d m h. refl;
        capped = inl refl;
      })
      | inr e ↦ rw e (record {
        never_raised = ground arith;
        uncapped = λ h. absurd (h c (inl refl));
        allowed = λ d m le. absurd (
            ground (
              arith,
              All-Elem (λ t. severity_rank t ≤ severity_rank (highest c cs)) (c ∷ cs) d
                  (highest-above c cs) m,
            ));
        capped = inr (
          highest-Elem c cs,
          (λ d.
              All-Elem (λ t. severity_rank t ≤ severity_rank (highest c cs)) (c ∷ cs) d
                (highest-above c cs)),
        );
      })
    ]

-- Some of the ids names a rule of the set with the severity `c`.
abbrev pub IsCited : Unicode → Option RuleSet → List String → Severity → Type 0
IsCited U none ids c = ⊥
IsCited U (some set) ids c =
    (id : String) × (r : BusinessRule) × Elem id ids
    × (get_rule U set id ≡ some r)
    × (r.severity ≡ c)

Elem-caps :
    (U : Unicode) (set : RuleSet) (ids : List String) (c : Severity)
    → Elem c (caps U (some set) ids)
    → IsCited U (some set) ids c
Elem-caps U set [] c m = absurd m
Elem-caps U set (i ∷ ids) c m = at (get_rule U set i) refl m (Elem-caps U set ids c)
  where
    further : IsCited U (some set) ids c → IsCited U (some set) (i ∷ ids) c
    further (id, r, n, e, q) = (id, r, inr n, e, q)

    at :
        (o : Option BusinessRule)
        → get_rule U set i ≡ o
        → Elem c
            (elim o [ none ↦ caps U (some set) ids | some r ↦ r.severity ∷ caps U (some set) ids ])
        → (Elem c (caps U (some set) ids) → IsCited U (some set) ids c)
        → IsCited U (some set) (i ∷ ids) c
    at none e k ih = further (ih k)
    at (some r) e (inl q) ih = (i, r, inl refl, e, q)
    at (some r) e (inr k) ih = further (ih k)

caps-Elem :
    (U : Unicode) (set : RuleSet) (id : String) (r : BusinessRule) (ids : List String)
    → get_rule U set id ≡ some r
    → Elem id ids
    → Elem r.severity (caps U (some set) ids)
caps-Elem U set id r [] e m = absurd m
caps-Elem U set id r (i ∷ ids) e (inl q) = rw (q, e, caps) (inl refl)
caps-Elem U set id r (i ∷ ids) e (inr m) = at (get_rule U set i) (caps-Elem U set id r ids e m)
  where
    at :
        (o : Option BusinessRule)
        → Elem r.severity (caps U (some set) ids)
        → Elem r.severity
            (elim o [ none ↦ caps U (some set) ids | some r ↦ r.severity ∷ caps U (some set) ids ])
    at none k = k
    at (some q) k = inr k

caps_iff :
    (U : Unicode) (rules : Option RuleSet) (ids : List String) (c : Severity)
    → Elem c (caps U rules ids) ↔ IsCited U rules ids c
caps_iff U none ids c = ((λ m. m), (λ m. m))
caps_iff U (some set) ids c = (
  Elem-caps U set ids c,
  (λ (id, r, m, e, q).
      subst (λ d. Elem d (caps U (some set) ids)) q (caps-Elem U set id r ids e m)),
)

pub capped_severity-IsCapped :
    (U : Unicode) (s : Severity) (ids : List String) (rules : Option RuleSet)
    → IsCapped (IsCited U rules ids) s (capped_severity U s ids rules)
unfolding capped_severity
capped_severity-IsCapped U s ids rules =
    let k = cap_at-IsCapped s (caps U rules ids) in
    record {
      never_raised = k.never_raised;
      uncapped = λ h. k.uncapped (λ c m. h c ((caps_iff U rules ids c).0 m));
      allowed = λ c m. k.allowed c ((caps_iff U rules ids c).1 m);
      capped = elim k.capped [
        | inl e ↦ inl e
        | inr (m, top) ↦
            inr ((caps_iff U rules ids _).0 m, (λ c n. top c ((caps_iff U rules ids c).1 n)))
      ];
    }
