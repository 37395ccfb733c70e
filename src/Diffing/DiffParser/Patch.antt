-- ===== src/Diffing/DiffParser/Patch.antt =====
-- diffing/diff_parser.py: `parse_patch`, which reads `git diff --unified=0`. A `PatchFile` is an
-- object that `files` and `current` may share and that changes after it is registered: `files`
-- holds its number, in the order of creation. Only the last one created is `current`.
pub mod Print
pub mod Reading
pub mod Sides
pub mod Objects
pub mod Files
pub mod RoundTrip
use analysis_engine_service.Prelude.{
  ℕ, ◌+◌, ◌-◌, max, String, Bool, true, false, ◌==◌, Option, none, some, is_some, or_else, List, [],
  ◌∷◌, ◌++◌, if◌then◌else◌, eqb, length, Dict, put,
}
use Prim.Native.Char.{Char}
use analysis_engine_service.Prelude.Raises.{Raises, ok, value_error, ◌>>=◌}
use analysis_engine_service.Prelude.Text.{is_char, strip_by}
use analysis_engine_service.Prelude.Bytes.{Bytes, bytes, after, split, read_number}
use analysis_engine_service.Domain.ChangeSet.{ChangeStatus, added, modified, deleted, renamed}
use analysis_engine_service.Diffing.ChangeMapper.{range_from}
use analysis_engine_service.Diffing.DiffParser.Quoting.{text_after, strip_prefix, unquote}

-- `path` is None if both sides of a file are /dev/null.
pub record PatchFile : Type 0 where
  pub path : Option String
  pub old_path : Option String
  pub status : ChangeStatus
  pub is_binary : Bool
  pub added_lines : List ℕ
  pub deletion_points : List ℕ

-- `PatchFile(path="")`
abbrev pub new_file : PatchFile
new_file = record {
  path = some "";
  old_path = none;
  status = modified;
  is_binary = false;
  added_lines = [];
  deletion_points = [];
}

-- `(?:,(\d+))?`
unfoldable pub read_count : Bytes → Option ℕ × Bytes
unfolding read_number
read_count text = elim (after (bytes ",") text) [
  | none ↦ (none, text)
  | some rest ↦ elim (read_number rest) [ none ↦ (none, text) | some (n, s) ↦ (some n, s) ]
]

-- `(\d+)(?:,(\d+))?` behind a text
unfoldable pub read_range : Bytes → Bytes → Option (ℕ × Option ℕ × Bytes)
unfolding read_count
read_range prefix text = elim (after prefix text) [
  | none ↦ none
  | some rest ↦ elim (read_number rest) [
    | none ↦ none
    | some (start, s) ↦ let (n, t) = read_count s in some (start, n, t)
  ]
]

-- `_HUNK_HEADER.match`: the groups 3 and 4
unfoldable pub match_hunk : Bytes → Option (ℕ × Option ℕ)
unfolding read_range
match_hunk header = elim (read_range (bytes "@@ -") header) [
  | none ↦ none
  | some (start, n, rest) ↦ elim (read_range (bytes " +") rest) [
    | none ↦ none
    | some (new_start, new_count, s) ↦ elim (after (bytes " @@") s) [
      | none ↦ none
      | some _ ↦ some (new_start, new_count)
    ]
  ]
]

-- What a hunk of the new file's lines adds to its file.
unfoldable pub add_range : ℕ → ℕ → PatchFile → PatchFile
add_range start n file =
    if eqb n 0
    then record file { deletion_points = file.deletion_points ++ max start 1 ∷ [] }
    else record file { added_lines = file.added_lines ++ range_from start n }

-- `_apply_hunk`
unfoldable pub apply_hunk : Bytes → PatchFile → PatchFile
unfolding match_hunk add_range
apply_hunk header file = elim (match_hunk header) [
  | none ↦ file
  | some (start, n) ↦ add_range start (or_else n 1) file
]

-- `^(.+) and (.+)$`, the first group as long as it can be
abbrev pub split_and : String → Option (String × String)
split_and String.[] = none
split_and (String.◌∷◌ c s) = elim (split_and s) [
  | some (old, new) ↦ some (String.◌∷◌ c old, new)
  | none ↦ elim (text_after " and " s) [
    | none ↦ none
    | some new ↦ if new == "" then none else some (String.◌∷◌ c String.[], new)
  ]
]

-- `s[:-len(suffix)]` if `s.endswith(suffix)`
abbrev pub text_before : String → String → Option String
text_before suffix String.[] = if suffix == "" then some "" else none
text_before suffix (String.◌∷◌ c s) =
    if String.◌∷◌ c s == suffix
    then some ""
    else elim (text_before suffix s) [ none ↦ none | some t ↦ some (String.◌∷◌ c t) ]

-- `^Binary files (.+) and (.+) differ$`, of a text without a line break
unfoldable pub match_binary : String → Option (String × String)
match_binary text = elim (text_after "Binary files " text) [
  | none ↦ none
  | some rest ↦ elim (text_before " differ" rest) [ none ↦ none | some s ↦ split_and s ]
]

-- `a or b`, of texts that may be None
abbrev pub or_text : Option String → Option String → Option String
or_text none b = b
or_text (some a) b = if a == "" then b else some a

-- `old if new is None else new`
abbrev pub or_old : Option String → Option String → Option String
or_old none old = old
or_old (some new) old = some new

abbrev pub has_text : Option String → Bool
has_text none = false
has_text (some s) = elim s [ String.[] ↦ false | String.◌∷◌ _ _ ↦ true ]

abbrev pub is_quote : Char → Bool
is_quote c = is_char b'"' c

-- `finished` are the files before `current`.
pub record State : Type 0 where
  pub finished : List PatchFile
  pub current : Option PatchFile
  pub minus_path : Option String
  pub in_hunks : Bool
  pub files : Dict ℕ

-- `files[path] = current`, with a path that is there
abbrev pub register : Option String → State → State
register none s = s
register (some path) s = record s { files = put path (length s.finished) s.files }

-- The lines of a file's header, in the order in which the code tests for them.
pub data Header : Type 0 where
  new_mode deleted_mode : Header
  rename_from rename_to minus plus : Bytes → Header
  binary other : Header

module _ {ℓ} {A : Type ℓ} where
  -- `elif line.startswith(prefix)`
  abbrev pub first_of : Option Bytes → (Bytes → A) → A → A
  first_of none f otherwise = otherwise
  first_of (some rest) f otherwise = f rest

unfoldable pub header_of : Bytes → Header
header_of line =
    first_of (after (bytes "new file mode") line) (λ _. new_mode)
      (first_of (after (bytes "deleted file mode") line) (λ _. deleted_mode)
        (first_of (after (bytes "rename from ") line) rename_from (
          first_of (after (bytes "rename to ") line) rename_to (
            first_of (after (bytes "Binary files ") line) (λ _. binary)
              (first_of (after (bytes "--- ") line) minus
                (first_of (after (bytes "+++ ") line) plus other))))))

-- `current.status = …` and the like: `current` is changed, and stays current.
abbrev pub set_current : PatchFile → State → State
set_current file s = record s { current = some file }

-- `diff --git`: a new object takes the place of `current`.
unfoldable pub open_file : State → State
open_file s = record {
  finished = elim s.current [ none ↦ s.finished | some file ↦ s.finished ++ file ∷ [] ];
  current = some new_file;
  minus_path = none;
  in_hunks = false;
  files = s.files;
}

-- Number `n` of a list, or else the last object.
abbrev pub object : List PatchFile → PatchFile → ℕ → PatchFile
object [] last n = last
object (f ∷ fs) last n = if eqb n 0 then f else object fs last (n - 1)

-- What `files` refers to in the end.
unfoldable pub resolve : List PatchFile → PatchFile → Dict ℕ → Dict PatchFile
resolve finished last [] = []
resolve finished last ((path, n) ∷ files) =
    (path, object finished last n) ∷ resolve finished last files

abbrev pub initial : State
initial = record { finished = []; current = none; minus_path = none; in_hunks = false; files = [] }

-- `+++`: the path of the new side, or else of the old side
unfoldable pub set_plus : String → PatchFile → State → State
unfolding strip_prefix
set_plus name file s =
    let path = or_old (strip_prefix name "b/") s.minus_path in
    let named = set_current (record file { path = path }) s in
    if has_text path then register path named else named

module _ (decode : Bytes → String) where
  -- The path that `_register_binary` finds.
  unfoldable pub binary_path : Bytes → Option String
  unfolding match_binary strip_prefix
  binary_path line = elim (match_binary (decode line)) [
    | none ↦ none
    | some (old, new) ↦
        or_text (strip_prefix (strip_by is_quote new) "b/")
          (strip_prefix (strip_by is_quote old) "a/")
  ]

  -- `_register_binary`
  unfoldable pub register_binary : Bytes → PatchFile → State → State
  unfolding binary_path
  register_binary line file s =
      let path = binary_path line in
      if has_text path
      then register path (set_current (record file { path = path }) s)
      else set_current file s

  unfoldable pub on_header : Header → Bytes → PatchFile → State → Raises State
  unfolding unquote register_binary set_plus strip_prefix
  on_header new_mode line file s = ok (set_current (record file { status = added }) s)
  on_header deleted_mode line file s = ok (set_current (record file { status = deleted }) s)
  on_header (rename_from name) line file s = unquote decode name >>= λ old.
      ok (set_current (record file { status = renamed; old_path = some old }) s)
  on_header (rename_to name) line file s = unquote decode name >>= λ new.
      ok (register (some new) (set_current (record file { path = some new }) s))
  on_header binary line file s = ok (register_binary line (record file { is_binary = true }) s)
  on_header (minus name) line file s =
      unquote decode name >>= λ old. ok (record s { minus_path = strip_prefix old "a/" })
  on_header (plus name) line file s = unquote decode name >>= λ new. ok (set_plus new file s)
  on_header other line file s = ok s

  -- A line of a file's section.
  unfoldable pub on_line : Bytes → PatchFile → State → Raises State
  unfolding apply_hunk header_of on_header
  on_line line file s =
      if is_some (after (bytes "@@") line)
      then ok (record s { in_hunks = true; current = some (apply_hunk line file) })
      else if s.in_hunks
      then ok s
      else on_header (header_of line) line file s

  -- The body of the loop.
  unfoldable pub step : State → Bytes → Raises State
  unfolding open_file on_line
  step s line =
      if is_some (after (bytes "diff --git ") line)
      then ok (open_file s)
      else elim s.current [ none ↦ ok s | some file ↦ on_line line file s ]

  unfoldable pub read_lines : State → List Bytes → Raises State
  unfolding step
  read_lines s [] = ok s
  read_lines s (line ∷ lines) = step s line >>= λ s'. read_lines s' lines

  unfoldable pub parse_patch : Bytes → Raises (Dict PatchFile)
  unfolding read_lines resolve
  parse_patch output = read_lines initial (split b'\n' output) >>= λ s.
      ok (resolve s.finished (or_else s.current new_file) s.files)
