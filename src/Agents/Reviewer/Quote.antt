-- ===== src/Agents/Reviewer/Quote.antt =====
-- Where a quote is looked for, and how it is made comparable (agents/reviewer/validation.py).
use Prim.Native.Char.{Char, code}
use Prim.Native.String.{String}
use analysis_engine_service.Prelude.{
  ℕ, zero, suc, ◌+◌, ◌-◌, Bool, true, false, Option, none, some, List, if◌then◌else◌, is_some, min,
  length, take, drop,
}
use analysis_engine_service.Prelude.Text.{
  Unicode, strip, lstrip, squeeze, is_char, text_length, has_part, join,
}

abbrev pub line_tolerance : ℕ
line_tolerance = 2

-- `lines[max(start - 1 - _LINE_TOLERANCE, 0): min(end + _LINE_TOLERANCE, len(lines))]`
abbrev pub window : List String → ℕ → ℕ → List String
window lines start end =
    let from = start - 1 - line_tolerance in
    let to = min (end + line_tolerance) (length lines) in take (to - from) (drop from lines)

module _ (U : Unicode) where
  open U use {is_space, decimal}

  abbrev is_decimal : Char → Bool
  is_decimal c = is_some (decimal (code c))

  abbrev is_blank : Char → Bool
  is_blank c = is_space (code c)

  -- `\|\s?`: the rest, and whether the last character taken was a line feed
  after_bar : String → Option (String × Bool)
  after_bar String.[] = none
  after_bar (String.◌∷◌ b String.[]) = if is_char b'|' b then some ("", false) else none
  after_bar (String.◌∷◌ b (String.◌∷◌ c s)) =
      if is_char b'|' b
      then (if is_blank c then some (s, is_char 10 c) else some (String.◌∷◌ c s, false))
      else none

  -- `\s*\d+\|\s?` at the head of the text
  after_digits : String → Option (String × Bool)
  unfolding after_bar
  after_digits String.[] = none
  after_digits (String.◌∷◌ c s) = if is_decimal c then after_bar (lstrip is_decimal s) else none

  -- `re.compile(r"^\s*\d+\|\s?", re.MULTILINE).sub("", text)`; `at_start` tells that a line begins
  strip_numbers : ℕ → Bool → String → String
  unfolding after_digits
  strip_numbers zero at_start s = s
  strip_numbers (suc fuel) at_start String.[] = ""
  strip_numbers (suc fuel) at_start (String.◌∷◌ c s) =
      let copied = String.◌∷◌ c (strip_numbers fuel (is_char 10 c) s) in
      let found = if at_start then after_digits (lstrip is_blank (String.◌∷◌ c s)) else none in
      elim found [ none ↦ copied | some (rest, line_feed) ↦ strip_numbers fuel line_feed rest ]

  -- `_normalise`
  unfoldable pub normalise : String → String
  normalise text = strip U (squeeze U false text)

  -- `_normalise(_LINE_NUMBER_PREFIX.sub("", quote)) in _normalise("\n".join(window))`
  unfoldable pub is_quoted_at : String → List String → Bool
  unfolding normalise strip_numbers
  is_quoted_at quote lines =
      has_part (normalise (join "\n" lines))
        (normalise (strip_numbers (text_length quote + 1) true quote))
