-- ===== src/Diffing/DiffParser/Patch/Print.antt =====
-- What `git diff --unified=0 -M` prints of text files, with core.quotePath=false.
use analysis_engine_service.Prelude.{
  ℕ, Bool, false, ◌||◌, List, [], ◌∷◌, ◌++◌, if◌then◌else◌, eqb, any,
}
use analysis_engine_service.Prelude.Bytes.{Bytes, bytes}
use analysis_engine_service.Prelude.Bytes.Decimal.{show}
use analysis_engine_service.Diffing.DiffParser.Quoting.RoundTrip.{name}

-- `context` is what git writes behind the second `@@`.
pub record Hunk : Type 0 where
  pub old_start : ℕ
  pub old_count : ℕ
  pub new_start : ℕ
  pub new_count : ℕ
  pub context : Bytes
  pub body : List Bytes

pub data Kind : Type 0 where
  edit : Kind
  create delete : Bytes → Kind
  rename : Bytes → Bytes → Kind

-- A file of a diff. `title` and `index` are what stands behind `diff --git ` and `index `, a creation
-- or a deletion has its mode, and a rename its similarity and its old path.
pub record FileDiff : Type 0 where
  pub title : Bytes
  pub path : Bytes
  pub kind : Kind
  pub index : Bytes
  pub hunks : List Hunk

-- A count of 1 is left out.
unfoldable pub print_count : ℕ → Bytes
print_count n = if eqb n 1 then [] else b',' ∷ show n

unfoldable pub print_range : ℕ → ℕ → Bytes → Bytes
unfolding print_count
print_range start n rest = show start ++ (print_count n ++ rest)

unfoldable pub print_header : Hunk → Bytes
unfolding print_range
print_header h =
    bytes "@@ -"
    ++ print_range h.old_start h.old_count
        (bytes " +" ++ print_range h.new_start h.new_count (bytes " @@" ++ h.context))

unfoldable pub hunk_lines : List Hunk → List Bytes
unfolding print_header
hunk_lines [] = []
hunk_lines (h ∷ hs) = (print_header h ∷ h.body) ++ hunk_lines hs

-- A path with a space gets a tab behind it.
abbrev pub tab : Bytes → Bytes
tab path = if any (eqb 32) path then 9 ∷ [] else []

unfoldable pub kind_lines : Bytes → Kind → List Bytes
kind_lines path edit = []
kind_lines path (create mode) = (bytes "new file mode " ++ mode) ∷ []
kind_lines path (delete mode) = (bytes "deleted file mode " ++ mode) ∷ []
kind_lines path (rename similarity old) =
    (bytes "similarity index " ++ similarity)
    ∷ (bytes "rename from " ++ name old)
    ∷ (bytes "rename to " ++ name path)
    ∷ []

abbrev pub side : Bytes → Bytes → Bytes
side prefix path = name (prefix ++ path) ++ tab path

-- What stands behind `--- ` and behind `+++ `.
abbrev pub old_side : Bytes → Kind → Bytes
old_side path edit = side (bytes "a/") path
old_side path (create mode) = bytes "/dev/null"
old_side path (delete mode) = side (bytes "a/") path
old_side path (rename similarity old) = side (bytes "a/") old

abbrev pub new_side : Bytes → Kind → Bytes
new_side path edit = side (bytes "b/") path
new_side path (create mode) = side (bytes "b/") path
new_side path (delete mode) = bytes "/dev/null"
new_side path (rename similarity old) = side (bytes "b/") path

-- A file whose content did not change has no sides and no hunks.
unfoldable pub change_lines : FileDiff → List Bytes
unfolding hunk_lines
change_lines f = elim f.hunks [
  | [] ↦ []
  | h ∷ hs ↦
      (bytes "index " ++ f.index)
      ∷ (bytes "--- " ++ old_side f.path f.kind)
      ∷ (bytes "+++ " ++ new_side f.path f.kind)
      ∷ hunk_lines (h ∷ hs)
]

unfoldable pub file_lines : FileDiff → List Bytes
unfolding kind_lines change_lines
file_lines f = (bytes "diff --git " ++ f.title) ∷ (kind_lines f.path f.kind ++ change_lines f)

unfoldable pub patch_lines : List FileDiff → List Bytes
unfolding file_lines
patch_lines [] = []
patch_lines (f ∷ fs) = file_lines f ++ patch_lines fs

-- Every line ends in a line break.
unfoldable pub print_lines : List Bytes → Bytes
print_lines [] = []
print_lines (l ∷ ls) = l ++ 10 ∷ print_lines ls

-- A line of a hunk is an added one, a removed one, or the remark on a missing line break.
abbrev pub is_body : Bytes → Bool
is_body [] = false
is_body (c ∷ s) = eqb c b'+' || (eqb c b'-' || eqb c b'\\')
