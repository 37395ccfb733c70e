-- ===== src/Tests/Diffs.antt =====
-- Diffs as git prints them, and a job whose git commands print one.
use Prim.Native.Char.{Char, char, code, IsScalar}
use Prim.Native.Nat.{compare, Ordering}
use analysis_engine_service.Prelude.Bytes.Decimal.{show}
use analysis_engine_service.Prelude.{
  ℕ, ◌<◌, ◌≡◌, refl, sym, ap, subst, String, Bool, true, false, none, some, List, [], ◌∷◌, ltb,
  ltb→lt, eqb, not, all, &&-true, arith, All, map, some_inj, ◌++◌,
}
use analysis_engine_service.Prelude.Bytes.{Bytes, bytes, Lacks}
use analysis_engine_service.Prelude.Raises.{ok}
use analysis_engine_service.Diffing.DiffParser.Quoting.{unquote}
use analysis_engine_service.Diffing.DiffParser.Quoting.RoundTrip.{name, unquote-name}
use analysis_engine_service.Diffing.DiffParser.Numstat.{parsed, parse_numstat}
use analysis_engine_service.Diffing.DiffParser.Numstat.RoundTrip.{
  Row, IsRow, print_rows, entry_of, parse_numstat-print_rows,
}
use analysis_engine_service.Diffing.DiffParser.Patch.{parse_patch}
use analysis_engine_service.Diffing.DiffParser.Patch.Print.{
  FileDiff, edit, rename, patch_lines, print_lines, file_lines,
}
use analysis_engine_service.Diffing.DiffParser.Patch.Files.{IsFileDiff, named_files}
use analysis_engine_service.Diffing.DiffParser.Patch.RoundTrip.{parse_patch-patch_lines}
use analysis_engine_service.Diffing.DiffParser.Patch.Sides.{Utf8}

below : (n : ℕ) → n < 128 → compare n 55296 ≡ Ordering.lt
below n h = ground arith

IsScalar-eq : (n : ℕ) → n < 128 → IsScalar n ≡ Unit
IsScalar-eq n h = rw (below n h) refl

IsScalar-IsProp : (n : ℕ) → n < 128 → IsProp (IsScalar n)
IsScalar-IsProp n h = subst IsProp (sym (IsScalar-eq n h)) (λ x y. refl)

pub IsScalar-intro : (n : ℕ) → n < 128 → IsScalar n
IsScalar-intro n h = subst (λ T. T) (sym (IsScalar-eq n h)) tt

-- ASCII, with a question mark for any other byte.
abbrev pub character : (n : ℕ) → (b : Bool) → ltb n 128 ≡ b → Char
character n true e = char n (IsScalar-intro n (ltb→lt n 128 e))
character n false e = "?"

pub character-code :
    (c : Char) (b : Bool) (e : ltb (code c) 128 ≡ b) → code c < 128 → character (code c) b e ≡ c
character-code (char n p) true e h =
    ap (char n) (IsScalar-IsProp n h (IsScalar-intro n (ltb→lt n 128 e)) p)
character-code c false e h = absurd (ground arith)

abbrev pub decode_ascii : Bytes → String
decode_ascii [] = ""
decode_ascii (c ∷ s) = String.◌∷◌ (character c (ltb c 128) refl) (decode_ascii s)

abbrev pub ascii_only : Utf8
ascii_only = record {
  decode = decode_ascii;
  decode-nil = refl;
  decode-ascii =
      λ c s h. ap (λ d. String.◌∷◌ d (decode_ascii s)) (character-code c (ltb (code c) 128) refl h);
}

abbrev pub edited : Row
edited = record {
  path = bytes "app/a.py";
  old_path = none;
  lines_added = some 1;
  lines_removed = some 1;
}

abbrev moved : Row
moved = record {
  path = bytes "new name.py";
  old_path = some (bytes "old\tname.py");
  lines_added = some 0;
  lines_removed = some 0;
}

abbrev logo : Row
logo = record { path = bytes "logo.png"; old_path = none; lines_added = none; lines_removed = none }

abbrev pub rows : List Row
rows = edited ∷ moved ∷ logo ∷ []

pub edited-IsRow : IsRow edited
edited-IsRow = record {
  path_clean = ground arith;
  path_there = λ e. absurd (cc);
  old_clean = λ old e. absurd (cc);
}

pub moved-IsRow : IsRow moved
moved-IsRow = record {
  path_clean = ground arith;
  path_there = λ e. absurd (cc);
  old_clean = λ old e. subst (Lacks 0) (some_inj _ old e) (ground arith);
}

pub logo-IsRow : IsRow logo
logo-IsRow = record {
  path_clean = ground arith;
  path_there = λ e. absurd (cc);
  old_clean = λ old e. absurd (cc);
}

parse_numstat-print_rows_example :
    parse_numstat decode_ascii (print_rows rows) ≡ parsed (map (entry_of decode_ascii) rows)
parse_numstat-print_rows_example =
    parse_numstat-print_rows decode_ascii rows (edited-IsRow, (moved-IsRow, (logo-IsRow, tt)))

unquote-name_example :
    (unquote decode_ascii (name (bytes "a\tb.py")) ≡ ok "a\tb.py")
    × (unquote decode_ascii (name (bytes "a\tb.py") ++ 9 ∷ []) ≡ ok "a\tb.py")
unquote-name_example = unquote-name decode_ascii (bytes "a\tb.py") (ground arith)

-- A line that looks like a header stands in the hunk.
abbrev pub edit_diff : FileDiff
edit_diff = record {
  title = bytes "a/app/a.py b/app/a.py";
  path = bytes "app/a.py";
  kind = edit;
  index = bytes "1..2 100644";
  hunks =
      record {
        old_start = 2;
        old_count = 1;
        new_start = 2;
        new_count = 1;
        context = [];
        body = bytes "--- old" ∷ bytes "+++ new" ∷ [];
      }
      ∷ [];
}

abbrev move_diff : FileDiff
move_diff = record {
  title = bytes "a/old b/new name.py";
  path = bytes "new name.py";
  kind = rename (bytes "100%") (bytes "old\tname.py");
  index = [];
  hunks = [];
}

all-Lacks : (s : Bytes) → all (λ c. not (eqb c 10)) s ≡ true → Lacks 10 s
all-Lacks [] h = tt
all-Lacks (c ∷ s) h = ground (arith, all-Lacks s)

clean : (ls : List Bytes) → all (λ l. all (λ c. not (eqb c 10)) l) ls ≡ true → All (Lacks 10) ls
clean [] h = tt
clean (l ∷ ls) h = (all-Lacks l (&&-true _ _ h).0, clean ls (&&-true _ _ h).1)

pub edit_diff-IsFileDiff : IsFileDiff ascii_only edit_diff
unfolding file_lines name show
edit_diff-IsFileDiff = record {
  path_bytes = ground arith;
  path_there = refl;
  kind_bytes = tt;
  bodies = ((refl, (refl, tt)), tt);
  lines_clean = clean (file_lines edit_diff) refl;
}

pub move_diff-IsFileDiff : IsFileDiff ascii_only move_diff
unfolding file_lines name
move_diff-IsFileDiff = record {
  path_bytes = ground arith;
  path_there = refl;
  kind_bytes = ground arith;
  bodies = tt;
  lines_clean = clean (file_lines move_diff) refl;
}

abbrev pub diffs : List FileDiff
diffs = edit_diff ∷ move_diff ∷ []

parse_patch-patch_lines_example :
    parse_patch decode_ascii (print_lines (patch_lines diffs))
    ≡ ok (named_files ascii_only [] diffs)
parse_patch-patch_lines_example =
    parse_patch-patch_lines ascii_only diffs (edit_diff-IsFileDiff, (move_diff-IsFileDiff, tt))
