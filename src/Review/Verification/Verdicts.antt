-- ===== src/Review/Verification/Verdicts.antt =====
-- What the Verifier can do to a finding.
use Prim.Native.String.{String}
use analysis_engine_service.Prelude.{
  ◌+◌, ◌≤◌, ◌≡◌, refl, sym, ap, ◌∙◌, subst, ◌⊎◌, inl, inr, Bool, true, false, Bool-cases, Option,
  none, some, is_some, List, [], ◌∷◌, ◌++◌, if◌then◌else◌, append-nil, append_assoc, any, length,
  All, arith,
}
use analysis_engine_service.Prelude.Floats.{Floats}
use analysis_engine_service.Prelude.Text.{Unicode}
use analysis_engine_service.Prelude.Raises.{Raises, ok, value_error, ◌>>=◌, bind-eq-ok}
use analysis_engine_service.Domain.Finding.{Finding}
use analysis_engine_service.Domain.AgentReview.{
  Severity, AgentFinding, verified, DropReason, verifier, DroppedCandidate, not_confirmed, said,
}
use analysis_engine_service.Rules.RuleSet.{RuleSet}
use analysis_engine_service.Agents.Reviewer.Schema.{Evidence}
use analysis_engine_service.Agents.Reviewer.Evidence.{Verdict, check_evidence}
use analysis_engine_service.Agents.Reviewer.Validation.{severity_rank}
use analysis_engine_service.Agents.Runtime.AgentLoop.{AgentRun, add_cost}
use analysis_engine_service.Agents.Runtime.Provider.{add_usage}
use analysis_engine_service.Review.Verification.{
  Check, Answer, keep, drop, VerifierOutput, is_outage, lowered, VerificationResult, keep_finding,
  refute_finding, is_any_invented, apply_output, apply, apply_all, verify_findings, confirm,
  stop_words,
}

-- No check of an answer that keeps the issue refutes it.
abbrev pub Confirms : VerifierOutput → Type 0
Confirms o = (o.verdict ≡ keep) × (any (λ (c : Check). c.refutes_issue) o.checks ≡ false)

module _ (F : Floats) (U : Unicode) (files : String → Option (List String))
    (findings : List Finding) (rules : Option RuleSet) where
  abbrev Found : Type 0
  Found = AgentFinding (F.Float)

  abbrev Run : Type 0
  Run = AgentRun F VerifierOutput

  -- An issue that stays: as it was, or confirmed and marked so, with a severity that is no higher.
  abbrev pub Stays : Found → Run → Found → Type 0
  Stays f run f' =
      (f' ≡ f)
      ⊎ (o : VerifierOutput) × (run.output ≡ some o)
        × Confirms o
        × (f' ≡ record f { verification = verified; severity = f'.severity })
        × (severity_rank f'.severity ≤ severity_rank f.severity)

  -- Every piece of the counter-evidence holds in the repository.
  abbrev pub Holds : Evidence → Type 0
  Holds e = (v : Bool) × (check_evidence U files findings rules e ≡ ok (none, v))

  -- The only grounds on which an issue is refuted: the Verifier gave no answer, though the provider
  -- did not fail, or it says to drop the issue and all that it cites is there.
  abbrev pub IsRefuted : Run → Type 0
  IsRefuted run =
      ((run.output ≡ none) × (is_outage run.stop_reason ≡ false))
      ⊎ (o : VerifierOutput) × (run.output ≡ some o)
        × (o.verdict ≡ drop)
        × All Holds o.counter_evidence

  -- Each issue is next among the kept or next among the refuted.
  pub data Verified : List (Found × Run) → List Found → List DroppedCandidate → Type 0 where
    done : Verified [] [] []
    stay :
        {rs : List (Found × Run)} {ks : List Found} {ds : List DroppedCandidate} (f : Found)
        (run : Run) (f' : Found)
        → Stays f run f'
        → Verified rs ks ds
        → Verified ((f, run) ∷ rs) (f' ∷ ks) ds
    refute :
        {rs : List (Found × Run)} {ks : List Found} {ds : List DroppedCandidate} (f : Found)
        (run : Run) (why : DropReason)
        → IsRefuted run
        → Verified rs ks ds
        → Verified
            ((f, run) ∷ rs)
            ks
            (record { title = f.title; reason = why; stage = verifier } ∷ ds)

  lowered-le : (s : Severity) (a : Option Severity) → severity_rank (lowered s a) ≤ severity_rank s
  unfolding lowered
  lowered-le s none = omega arith
  lowered-le s (some a) = ground arith

  is_any_invented-false :
      (es : List Evidence) → is_any_invented F U files findings rules es ≡ ok false → All Holds es
  unfolding is_any_invented
  is_any_invented-false [] h = tt
  is_any_invented-false (e ∷ es) h =
      at (check_evidence U files findings rules e) refl h (is_any_invented-false es)
    where
      at :
          (c : Raises Verdict)
          → check_evidence U files findings rules e ≡ c
          → (c >>= λ v. is_any_invented F U files findings rules es >>= λ rest.
              ok (if is_some v.0 then true else rest))
            ≡ ok false
          → (is_any_invented F U files findings rules es ≡ ok false → All Holds es)
          → All Holds (e ∷ es)
      at value_error q k ih = absurd (cc)
      at (ok (none, v)) q k ih =
          let (b, m, s) =
            bind-eq-ok (is_any_invented F U files findings rules es) (λ b. b) false k in
          ((v, q), ih (m ∙ ap ok s))
      at (ok (some p, v)) q k ih =
          let (b, m, s) =
            bind-eq-ok (is_any_invented F U files findings rules es) (λ b. true) false k in
          absurd (cc)

  -- One issue is added to the kept or to the refuted, on its grounds.
  abbrev Applied : Found → Run → VerificationResult F → VerificationResult F → Type 0
  Applied f run r r' =
      ((f' : Found) × Stays f run f' × (r' ≡ keep_finding F f' r))
      ⊎ (why : DropReason) × IsRefuted run × (r' ≡ refute_finding F f why r)

  apply-Applied :
      (f : Found) (run : Run) (r r' : VerificationResult F)
      → apply F U files findings rules f run r ≡ ok r'
      → Applied f run r r'
  unfolding apply
  apply-Applied f run r r' h = at run.output refl h
    where
      answered :
          (o : VerifierOutput)
          → run.output ≡ some o
          → (a : Answer) → o.verdict ≡ a
          → elim a [
            | drop ↦ is_any_invented F U files findings rules o.counter_evidence >>= λ invented.
                ok (if invented then keep_finding F f r else refute_finding F f (said o.reason) r)
            | keep ↦ ok (
                if any (λ (c : Check). c.refutes_issue) o.checks
                then keep_finding F f r
                else keep_finding F (confirm F f o.adjusted_severity) r)
          ]
            ≡ ok r'
          → Applied f run r r'
      answered o e keep q k = elim (Bool-cases (any (λ (c : Check). c.refutes_issue) o.checks)) [
        | inl c ↦ inl (f, inl refl, ground arith)
        | inr c ↦ inl (
          confirm F f o.adjusted_severity,
          inr (o, e, (q, c), refl, lowered-le f.severity o.adjusted_severity),
          ground arith,
        )
      ]
      answered o e drop q k =
          let (b, m, s) =
            bind-eq-ok (is_any_invented F U files findings rules o.counter_evidence) _ r' k in
          elim (Bool-cases b) [
            | inl c ↦ inl (f, inl refl, ground arith)
            | inr c ↦ inr (
              said o.reason,
              inr (o, e, q, is_any_invented-false o.counter_evidence (m ∙ ap ok c)),
              ground arith,
            )
          ]

      at :
          (out : Option VerifierOutput)
          → run.output ≡ out
          → elim out [
            | some o ↦ apply_output F U files findings rules f o r
            | none ↦ ok (
                if is_outage run.stop_reason
                then keep_finding F f r
                else refute_finding F f (not_confirmed (stop_words run.stop_reason)) r)
          ]
            ≡ ok r'
          → Applied f run r r'
      at (some o) e k = answered o e o.verdict refl (unfold apply_output in k)
      at none e k = elim (Bool-cases (is_outage run.stop_reason)) [
        | inl c ↦ inl (f, inl refl, ground arith)
        | inr c ↦ inr (not_confirmed (stop_words run.stop_reason), inl (e, c), ground arith)
      ]

  -- The outcome of the loop, added to what was there.
  abbrev Outcome : List (Found × Run) → VerificationResult F → VerificationResult F → Type 0
  Outcome rs r r' =
      (ks : List Found) × (ds : List DroppedCandidate) × Verified rs ks ds
      × (r'.kept ≡ r.kept ++ ks)
      × (r'.refuted ≡ r.refuted ++ ds)
      × (r'.calls ≡ r.calls + length rs)

  apply_all-Outcome :
      (rs : List (Found × Run)) (r r' : VerificationResult F)
      → apply_all F U files findings rules r rs ≡ ok r'
      → Outcome rs r r'
  unfolding apply_all
  apply_all-Outcome [] r r' h = (
    [],
    [],
    done,
    ground (arith, append-nil r.kept),
    ground (arith, append-nil r.refuted),
    ground arith,
  )
  apply_all-Outcome ((f, run) ∷ rs) r r' h =
      at (apply F U files findings rules f run counted) refl h (λ r1. apply_all-Outcome rs r1 r')
    where
      counted : VerificationResult F
      counted = record r {
        calls = r.calls + 1;
        usage = add_usage r.usage run.usage;
        cost_usd = add_cost F r.cost_usd run.cost_usd;
      }

      add :
          (r1 : VerificationResult F)
          → Applied f run counted r1
          → Outcome rs r1 r'
          → Outcome ((f, run) ∷ rs) r r'
      add r1 (inl (f', s, e)) (ks, ds, v, q, q', n) = (
        f' ∷ ks,
        ds,
        stay f run f' s v,
        q ∙ ap (λ (l : VerificationResult F). l.kept ++ ks) e ∙ append_assoc r.kept (f' ∷ []) ks,
        q' ∙ ap (λ (l : VerificationResult F). l.refuted ++ ds) e,
        omega (arith, n, ap (λ (l : VerificationResult F). l.calls) e),
      )
      add r1 (inr (why, s, e)) (ks, ds, v, q, q', n) = (
        ks,
        record { title = f.title; reason = why; stage = verifier } ∷ ds,
        refute f run why s v,
        q ∙ ap (λ (l : VerificationResult F). l.kept ++ ks) e,
        q'
            ∙ ap (λ (l : VerificationResult F). l.refuted ++ ds) e
            ∙ append_assoc r.refuted
                (record { title = f.title; reason = why; stage = verifier } ∷ []) ds,
        omega (arith, n, ap (λ (l : VerificationResult F). l.calls) e),
      )

      at :
          (x : Raises (VerificationResult F))
          → apply F U files findings rules f run counted ≡ x
          → (x >>= λ r1. apply_all F U files findings rules r1 rs) ≡ ok r'
          → ((r1 : VerificationResult F)
              → apply_all F U files findings rules r1 rs ≡ ok r'
              → Outcome rs r1 r')
          → Outcome ((f, run) ∷ rs) r r'
      at value_error e k ih = absurd (cc)
      at (ok r1) e k ih = add r1 (apply-Applied f run counted r1 e) (ih r1 k)

  -- Verification accounts for every issue once, in the issues' order: an issue stays as it was, or
  -- confirmed with a severity that is no higher, or it is refuted, and then either its Verifier
  -- stopped without an answer for another reason than an outage, or the Verifier says to drop it
  -- and every piece of evidence it cites for that holds. It counts one call for each issue.
  pub verify_findings-Verified :
      (runs : List (Found × Run)) (r : VerificationResult F)
      → verify_findings F U files findings rules runs ≡ ok r
      → Verified runs r.kept r.refuted × (r.calls ≡ length runs)
  unfolding verify_findings
  verify_findings-Verified runs r h =
      let (ks, ds, v, q, q', n) = apply_all-Outcome runs _ r h in
      (
        subst (λ ks. Verified runs ks r.refuted) (sym q)
            (subst (λ ds. Verified runs ks ds) (sym q') v),
        omega (arith, n),
      )
