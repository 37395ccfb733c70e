-- ===== src/Prelude/Text.antt =====
-- Python's `str` methods that the program uses, over the code points of a text. What they take
-- from the Unicode database is a parameter.
use Prim.Native.Char.{Char, code}
use Prim.Native.Nat.{ℕ, zero, suc, ◌+◌, ◌*◌}
use Prim.Native.String.{String, [], ◌∷◌, ◌++◌}
use mathlib.Core.Path.{◌≡◌}
use mathlib.Core.Bool.{Bool, true, false, ◌&&◌, ◌||◌}
use mathlib.Core.Option.{Option, none, some}
use mathlib.Core.List.{List}
use text.Mathlib.Text.{◌==◌}
use analysis_engine_service.Prelude.Tests.{if◌then◌else◌, eqb}

-- The Unicode database behind `str.isdigit`, `int`, `str.lower` and the class `\s`. `int` reads the
-- decimal digits, and those are digits; of the ASCII characters just 0 to 9 are.
pub record Unicode : Type 0 where
  pub is_space : ℕ → Bool
  pub is_digit : ℕ → Bool
  pub decimal : ℕ → Option ℕ
  pub lower : String → String
  pub decimal-is_digit : (c d : ℕ) → decimal c ≡ some d → is_digit c ≡ true

abbrev pub is_char : ℕ → Char → Bool
is_char n c = eqb (code c) n

-- `len(s)`
abbrev pub text_length : String → ℕ
text_length [] = 0
text_length (c ∷ s) = suc (text_length s)

-- `s[:n]`
abbrev pub text_take : ℕ → String → String
text_take zero s = []
text_take (suc n) [] = []
text_take (suc n) (c ∷ s) = c ∷ text_take n s

-- `s.lstrip()`, `s.rstrip()` and `s.strip()` of the characters that satisfy `p`
abbrev pub lstrip : (Char → Bool) → String → String
lstrip p [] = []
lstrip p (c ∷ s) = if p c then lstrip p s else c ∷ s

abbrev pub strip_last : (Char → Bool) → Char → String → String
strip_last p c [] = if p c then [] else c ∷ []
strip_last p c (d ∷ s) = c ∷ d ∷ s

abbrev pub rstrip : (Char → Bool) → String → String
rstrip p [] = []
rstrip p (c ∷ s) = strip_last p c (rstrip p s)

abbrev pub strip_by : (Char → Bool) → String → String
strip_by p s = rstrip p (lstrip p s)

-- `s.strip("[]")`
abbrev pub is_bracket : Char → Bool
is_bracket c = is_char b'[' c || is_char b']' c

-- `s.startswith(t)`
abbrev pub has_prefix : String → String → Bool
has_prefix s [] = true
has_prefix [] (d ∷ t) = false
has_prefix (c ∷ s) (d ∷ t) = eqb (code c) (code d) && has_prefix s t

-- `s.endswith(t)`
abbrev pub ends_with : String → String → Bool
ends_with t [] = t == []
ends_with t (c ∷ s) = (c ∷ s) == t || ends_with t s

-- `t in s`
abbrev pub has_part : String → String → Bool
has_part [] t = has_prefix [] t
has_part (c ∷ s) t = has_prefix (c ∷ s) t || has_part s t

-- `s.partition(c)`: what stands before the first `c`, and what behind it if there is one
abbrev pub partition : ℕ → String → String × Option String
partition n [] = ([], none)
partition n (c ∷ s) =
    let (before, behind) = partition n s in
    if is_char n c then ([], some s) else (c ∷ before, behind)

-- `s.rpartition(c)`: what stands before the last `c` if there is one, and what behind it
abbrev pub rpartition : ℕ → String → Option String × String
rpartition n [] = (none, [])
rpartition n (c ∷ s) =
    let (before, behind) = rpartition n s in
    elim before [
      | some b ↦ (some (c ∷ b), behind)
      | none ↦ if is_char n c then (some [], behind) else (none, c ∷ behind)
    ]

-- `sep.join(parts)`
abbrev pub join : String → List String → String
join sep List.[] = []
join sep (List.◌∷◌ p ps) = elim ps [ List.[] ↦ p | List.◌∷◌ _ _ ↦ p ++ (sep ++ join sep ps) ]

abbrev pub all_chars : (ℕ → Bool) → String → Bool
all_chars p [] = true
all_chars p (c ∷ s) = p (code c) && all_chars p s

module _ (U : Unicode) where
  open U use {is_space, is_digit, decimal}

  -- `s.strip()`
  abbrev pub strip : String → String
  strip s = strip_by (λ c. is_space (code c)) s

  -- `s.isdigit()`
  abbrev pub isdigit : String → Bool
  isdigit [] = false
  isdigit (c ∷ s) = all_chars is_digit (c ∷ s)

  -- `int(s)` of a text of digits, from the value so far: none stands for `ValueError`
  abbrev pub int_from : ℕ → String → Option ℕ
  int_from n [] = some n
  int_from n (c ∷ s) = elim (decimal (code c)) [ none ↦ none | some d ↦ int_from (n * 10 + d) s ]

  abbrev pub to_int : String → Option ℕ
  to_int [] = none
  to_int (c ∷ s) = int_from 0 (c ∷ s)

  -- `re.compile(r"\s+").sub(" ", s)`; `again` tells that the last character was a space
  abbrev pub squeeze : Bool → String → String
  squeeze again [] = []
  squeeze again (c ∷ s) =
      let spaced = squeeze true s in
      let plain = squeeze false s in
      if is_space (code c) then (if again then spaced else " " ++ spaced) else c ∷ plain
