-- ===== src/Retrieval/Refs.antt =====
-- retrieval/refs.py: short references to linter findings.
use Prim.Native.String.{String}
use analysis_engine_service.Prelude.{
  ℕ, ◌≤◌, true, ◌≡◌, Option, none, some, List, [], ◌∷◌, if◌then◌else◌, ltb, filter, Elem, count,
}
use analysis_engine_service.Prelude.Text.{
  Unicode, strip, strip_by, is_bracket, text_length, has_prefix,
}
use analysis_engine_service.Domain.Finding.{Finding}

abbrev pub finding_ref_length : ℕ
finding_ref_length = 10

-- `ref.strip().strip("[]").strip().lower()`
unfoldable pub bare_ref : Unicode → String → String
bare_ref U ref = U.lower (strip U (strip_by is_bracket (strip U ref)))

-- `matches[0] if len(matches) == 1 else None`
abbrev pub only_one : List Finding → Option Finding
only_one (f ∷ []) = some f
only_one _ = none

abbrev pub matching : String → List Finding → List Finding
matching ref findings = filter (λ f. has_prefix f.fingerprint ref) findings

unfoldable pub resolve_finding_ref : Unicode → String → List Finding → Option Finding
unfolding bare_ref
resolve_finding_ref U ref findings =
    if ltb (text_length (bare_ref U ref)) finding_ref_length
    then none
    else only_one (matching (bare_ref U ref) findings)

-- The reference is long enough, and of the findings just `f` begins with it.
pub record IsOnlyMatch (U : Unicode) (ref : String) (findings : List Finding) (f : Finding)
    : Type 0 where
  pub long : finding_ref_length ≤ text_length (bare_ref U ref)
  pub there : Elem f findings
  pub fits : has_prefix f.fingerprint (bare_ref U ref) ≡ true
  pub alone : count (λ g. has_prefix g.fingerprint (bare_ref U ref)) findings ≡ 1
