-- ===== src/Agents/Reviewer/Location.antt =====
-- `_parse_location` of agents/reviewer/validation.py: "path:line" or "path:start-end".
pub mod Laws
use Prim.Native.String.{String}
use analysis_engine_service.Prelude.{
  ℕ, Bool, true, false, not, ◌&&◌, ◌||◌, Option, none, some, if◌then◌else◌, leb, max, ◌==◌,
}
use analysis_engine_service.Prelude.Text.{Unicode, strip, isdigit, to_int, partition, rpartition}
use analysis_engine_service.Prelude.Raises.{Raises, ok, value_error, ◌>>=◌}

pub record Location : Type 0 where
  pub path : String
  pub start : ℕ
  pub end : ℕ

module _ (U : Unicode) where
  -- `int(text)`, which raises `ValueError` for a text that is no decimal number
  abbrev pub int : String → Raises ℕ
  int text = elim (to_int U text) [ none ↦ value_error | some n ↦ ok n ]

  -- `end_text and …`: an absent or empty end is not looked at
  abbrev pub end_or : Option String → ℕ → Raises ℕ
  end_or none start = ok start
  end_or (some e) start = if e == "" then ok start else int e

  abbrev pub is_bad_end : Option String → Bool
  is_bad_end none = false
  is_bad_end (some e) = not (e == "") && not (isdigit U e)

  unfoldable pub parse_span : String → String → Raises (Option Location)
  parse_span path span =
      let (start_text, end_text) = partition b'-' span in
      if not (isdigit U start_text) || is_bad_end end_text then ok none else do
        start ← int start_text
        end ← end_or end_text start
        ok (
            if leb 1 start
            then some (record { path = path; start = start; end = max end start })
            else none)

  unfoldable pub parse_location : String → Raises (Option Location)
  unfolding parse_span
  parse_location ref =
      let (path, span) = rpartition b':' (strip U ref) in
      elim path [ none ↦ ok none | some p ↦ if p == "" then ok none else parse_span p span ]
