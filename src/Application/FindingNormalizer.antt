-- ===== src/Application/FindingNormalizer.antt =====
-- application/finding_normalizer.py: fingerprints, and one finding for each of them.
pub mod Distinct
use Prim.Native.Nat.{◌/◌, ◌%◌}
use Prim.Native.String.{String, ◌++◌, slice}
use analysis_engine_service.Prelude.{
  ℕ, zero, suc, ◌+◌, Option, none, some, List, [], ◌∷◌, map, if◌then◌else◌, ltb, Dict, setdefault,
  values,
}
use analysis_engine_service.Prelude.Text.{join}
use analysis_engine_service.Domain.Finding.{Finding}

abbrev pub digit : ℕ → String
digit n = slice "0123456789" n (n + 1)

-- The decimal digits; the fuel is more than enough when it exceeds the number.
abbrev pub digits : ℕ → ℕ → String
digits zero n = ""
digits (suc fuel) n =
    let front = digits fuel (n / 10) in if ltb n 10 then digit n else front ++ digit (n % 10)

-- `str` of a line or a column, which may be None
abbrev pub str : Option ℕ → String
str none = "None"
str (some n) = digits (n + 1) n

-- `digest` is the hexadecimal SHA-256 of a text.
module _ (digest : String → String) where
  -- `_compute_fingerprint`
  unfoldable pub compute_fingerprint : Finding → String
  compute_fingerprint f = digest (
      join "|" (
        f.repository
        ∷ f.commit_sha
        ∷ f.tool
        ∷ f.rule_id
        ∷ f.file_path
        ∷ str f.line
        ∷ str f.column
        ∷ []))

  -- `_with_fingerprint`
  abbrev pub with_fingerprint : Finding → Finding
  with_fingerprint f = record f { fingerprint = compute_fingerprint f }

-- The loop of `_deduplicate` over `seen`
unfoldable pub see_all : Dict Finding → List Finding → Dict Finding
see_all seen [] = seen
see_all seen (f ∷ fs) = see_all (setdefault f.fingerprint f seen) fs

-- `_deduplicate`
unfoldable pub deduplicate : List Finding → List Finding
unfolding see_all
deduplicate findings = values (see_all [] findings)

unfoldable pub normalize : (String → String) → List Finding → List Finding
unfolding deduplicate compute_fingerprint
normalize digest findings = deduplicate (map (with_fingerprint digest) findings)
