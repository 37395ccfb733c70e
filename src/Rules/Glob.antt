-- ===== src/Rules/Glob.antt =====
-- `glob_match` of domain/business_rule.py: a pattern is compiled to a regular expression, and the
-- expression is matched against a whole path.
pub mod Laws
pub mod Patterns
use Prim.Native.Char.{Char, code}
use Prim.Native.String
use Prim.Native.String.{String}
use analysis_engine_service.Prelude.{
  ℕ, Bool, true, false, not, ◌&&◌, ◌||◌, List, [], ◌∷◌, if◌then◌else◌, eqb, any,
}
use analysis_engine_service.Prelude.Text.{is_char}

-- The pieces that `_compile` emits: `(?:.*/)?`, `.*`, `[^/]*`, `[^/]` and an escaped character.
pub data Piece : Type 0 where
  any_dirs any_path any_name any_char : Piece
  lit : Char → Piece

abbrev pub is_star : Char → Bool
is_star c = is_char b'*' c

-- One character that starts no run of two stars.
abbrev pub single : Char → Piece
single c = if is_star c then any_name else if is_char b'?' c then any_char else lit c

-- `_compile`: the tests for `**/` and `**` come first
unfoldable pub compile : String → List Piece
compile String.[] = []
compile (String.◌∷◌ c String.[]) = single c ∷ []
compile (String.◌∷◌ c (String.◌∷◌ d String.[])) =
    if is_star c && is_star d then any_path ∷ [] else single c ∷ single d ∷ []
compile (String.◌∷◌ c (String.◌∷◌ d (String.◌∷◌ e s))) =
    let dirs = compile s in
    let path = compile (String.◌∷◌ e s) in
    let one = compile (String.◌∷◌ d (String.◌∷◌ e s)) in
    if is_star c && is_star d
    then (if is_char b'/' e then any_dirs ∷ dirs else any_path ∷ path)
    else single c ∷ one

-- `.` matches all but a line feed.
abbrev pub is_dot : Char → Bool
is_dot c = not (is_char 10 c)

abbrev pub is_slash : Char → Bool
is_slash c = is_char b'/' c

-- `p*` before what `k` matches, and `(?:.*/)` before it.
unfoldable pub star : (Char → Bool) → (String → Bool) → String → Bool
star p k String.[] = k String.[]
star p k (String.◌∷◌ c s) = k (String.◌∷◌ c s) || (p c && star p k s)

unfoldable pub dirs : (String → Bool) → String → Bool
dirs k String.[] = false
dirs k (String.◌∷◌ c s) = is_dot c && ((is_slash c && k s) || dirs k s)

-- `fullmatch`
unfoldable pub full_match : List Piece → String → Bool
unfolding star dirs
full_match [] String.[] = true
full_match [] (String.◌∷◌ c s) = false
full_match (any_dirs ∷ ps) s = full_match ps s || dirs (full_match ps) s
full_match (any_path ∷ ps) s = star is_dot (full_match ps) s
full_match (any_name ∷ ps) s = star (λ c. not (is_slash c)) (full_match ps) s
full_match (any_char ∷ ps) String.[] = false
full_match (any_char ∷ ps) (String.◌∷◌ c s) = not (is_slash c) && full_match ps s
full_match (lit d ∷ ps) String.[] = false
full_match (lit d ∷ ps) (String.◌∷◌ c s) = eqb (code c) (code d) && full_match ps s

unfoldable pub glob_match : String → String → Bool
unfolding compile full_match
glob_match path pattern = full_match (compile pattern) path
