-- ===== src/Diffing/DiffParser/Numstat/RoundTrip.antt =====
-- What git writes with `--numstat -z` is read back.
use analysis_engine_service.Prelude.{
  ℕ, ◌≡◌, refl, sym, ap, ◌∙◌, String, false, Option, none, some, List, [], ◌∷◌, ◌++◌, map, ◌≢◌, All,
  ◌<◌, All-append, arith, append-nil,
}
use analysis_engine_service.Prelude.Raises.{ok}
use analysis_engine_service.Prelude.Bytes.{
  Bytes, split, read_number, Lacks, split-append, cut_once-append,
}
use analysis_engine_service.Prelude.Bytes.Decimal.{show, read_number-show, show-Lacks}
use analysis_engine_service.Diffing.DiffParser.Numstat.{
  NumstatEntry, parsed, to_int, read_count, read_counts, is_dash, columns, add_entry, read_row,
  parse_fields, parse_numstat,
}

-- A file of a diff, its paths as bytes: a rename has an old path.
pub record Row : Type 0 where
  pub path : Bytes
  pub old_path : Option Bytes
  pub lines_added : Option ℕ
  pub lines_removed : Option ℕ

-- Paths hold no NUL, and the path of a file is not empty.
pub record IsRow (row : Row) : Type 0 where
  pub path_clean : Lacks 0 row.path
  pub path_there : row.path ≢ []
  pub old_clean : (old : Bytes) → row.old_path ≡ some old → Lacks 0 old

unfoldable pub show_count : Option ℕ → Bytes
show_count none = b'-' ∷ []
show_count (some n) = show n

-- `added<TAB>removed<TAB>`
abbrev pub show_counts : Option ℕ → Option ℕ → Bytes → Bytes
show_counts a d rest = show_count a ++ (b'\t' ∷ (show_count d ++ (b'\t' ∷ rest)))

unfoldable pub print_row : Row → Bytes → Bytes
print_row row rest = elim row.old_path [
  | none ↦ show_counts row.lines_added row.lines_removed row.path ++ 0 ∷ rest
  | some old ↦
      show_counts row.lines_added row.lines_removed []
      ++ (0 ∷ (old ++ (0 ∷ (row.path ++ (0 ∷ rest)))))
]

unfoldable pub print_rows : List Row → Bytes
print_rows [] = []
print_rows (r ∷ rs) = print_row r (print_rows rs)

show_count-Lacks : (o : Option ℕ) (b : ℕ) → b < 45 → Lacks b (show_count o)
unfolding show_count
show_count-Lacks none b h = ((λ e. absurd (omega arith)), tt)
show_count-Lacks (some n) b h = show-Lacks n b (omega arith)

Lacks-is_dash : (s : Bytes) → Lacks 45 s → is_dash s ≡ false
Lacks-is_dash [] h = refl
Lacks-is_dash (c ∷ []) h = ground (arith, h.0)
Lacks-is_dash (c ∷ d ∷ s) h = refl

to_int-show : (n : ℕ) → to_int (show n) ≡ ok n
unfolding to_int
to_int-show n =
    rw (to_int, ap read_number (sym (append-nil (show n))) ∙ read_number-show n [] tt) refl

read_count-show_count : (o : Option ℕ) → read_count (show_count o) ≡ ok o
unfolding read_count show_count
read_count-show_count none = refl
read_count-show_count (some n) =
    rw (Lacks-is_dash (show n) (show-Lacks n 45 (omega arith)), to_int-show n) refl

show_counts-Lacks : (a d : Option ℕ) (rest : Bytes) → Lacks 0 rest → Lacks 0 (show_counts a d rest)
show_counts-Lacks a d rest h =
    All-append (λ c. c ≢ 0) (show_count a) (9 ∷ (show_count d ++ (9 ∷ rest)))
      (show_count-Lacks a 0 (omega arith))
      (
        (λ e. absurd (omega arith)),
        All-append (λ c. c ≢ 0) (show_count d) (9 ∷ rest) (show_count-Lacks d 0 (omega arith))
            ((λ e. absurd (omega arith)), h),
      )

columns-show_counts :
    (a d : Option ℕ) (rest : Bytes)
    → columns (show_counts a d rest) ≡ some (show_count a, show_count d, rest)
unfolding columns
columns-show_counts a d rest =
    rw
      (
        columns,
        cut_once-append 9 (show_count a) (show_count d ++ 9 ∷ rest)
            (show_count-Lacks a 9 (omega arith)),
        cut_once-append 9 (show_count d) rest (show_count-Lacks d 9 (omega arith)),
      )
      refl

no_columns : (a d path : Bytes) → ¬ (columns [] ≡ some (a, d, path))
unfolding columns
no_columns a d path h = absurd (cc)

module _ (decode : Bytes → String) where
  abbrev pub decode_old : Option Bytes → Option String
  decode_old none = none
  decode_old (some old) = some (decode old)

  -- The entry that stands for a row.
  abbrev pub entry_of : Row → NumstatEntry
  entry_of row = record {
    path = decode row.path;
    old_path = decode_old row.old_path;
    lines_added = row.lines_added;
    lines_removed = row.lines_removed;
  }

  add_entry-show_counts :
      (path : String) (old : Option String) (a d : Option ℕ) (es : List NumstatEntry)
      → add_entry path old (show_count a) (show_count d) (parsed es)
        ≡ parsed (record { path = path; old_path = old; lines_added = a; lines_removed = d } ∷ es)
  unfolding add_entry
  add_entry-show_counts path old a d es =
      rw (add_entry, read_counts, read_count-show_count a, read_count-show_count d) refl

  parse_fields-file :
      (x : Bytes) (a d : Bytes) (c : ℕ) (p : Bytes) (fields : List Bytes)
      → columns x ≡ some (a, d, c ∷ p)
      → parse_fields decode (x ∷ fields)
        ≡ add_entry (decode (c ∷ p)) none a d (parse_fields decode fields)
  unfolding parse_fields read_row
  parse_fields-file [] a d c p fields h = absurd (no_columns a d _ h)
  parse_fields-file (b ∷ x) a d c p [] h = rw (read_row, h) refl
  parse_fields-file (b ∷ x) a d c p (f ∷ []) h = rw (read_row, h) refl
  parse_fields-file (b ∷ x) a d c p (f ∷ g ∷ fields) h = rw (read_row, h) refl

  parse_fields-rename :
      (x : Bytes) (a d f g : Bytes) (fields : List Bytes)
      → columns x ≡ some (a, d, [])
      → parse_fields decode (x ∷ f ∷ g ∷ fields)
        ≡ add_entry (decode g) (some (decode f)) a d (parse_fields decode fields)
  unfolding parse_fields read_row
  parse_fields-rename [] a d f g fields h = absurd (no_columns a d _ h)
  parse_fields-rename (b ∷ x) a d f g fields h = rw (read_row, h) refl

  print_row-file :
      (a d : Option ℕ) (path rest : Bytes) (es : List NumstatEntry)
      → Lacks 0 path
      → path ≢ []
      → parse_fields decode (split 0 rest) ≡ parsed es
      → parse_fields decode (split 0 (show_counts a d path ++ 0 ∷ rest))
        ≡ parsed (
            record { path = decode path; old_path = none; lines_added = a; lines_removed = d } ∷ es)
  print_row-file a d [] rest es clean there h = absurd (there refl)
  print_row-file a d (c ∷ p) rest es clean there h =
      rw (split-append 0 (show_counts a d (c ∷ p)) rest (show_counts-Lacks a d (c ∷ p) clean)) (
        parse_fields-file (show_counts a d (c ∷ p)) (show_count a) (show_count d) c p (split 0 rest)
          (columns-show_counts a d (c ∷ p))
        ∙ ap (add_entry (decode (c ∷ p)) none (show_count a) (show_count d)) h
        ∙ add_entry-show_counts (decode (c ∷ p)) none a d es)

  print_row-rename :
      (a d : Option ℕ) (old path rest : Bytes) (es : List NumstatEntry)
      → Lacks 0 old
      → Lacks 0 path
      → parse_fields decode (split 0 rest) ≡ parsed es
      → parse_fields decode
          (split 0 (show_counts a d [] ++ (0 ∷ (old ++ (0 ∷ (path ++ (0 ∷ rest)))))))
        ≡ parsed (
            record {
              path = decode path;
              old_path = some (decode old);
              lines_added = a;
              lines_removed = d;
            }
            ∷ es)
  print_row-rename a d old path rest es old_clean clean h =
      rw
        (
          split-append 0 (show_counts a d []) (old ++ (0 ∷ (path ++ (0 ∷ rest))))
              (show_counts-Lacks a d [] tt),
          split-append 0 old (path ++ 0 ∷ rest) old_clean,
          split-append 0 path rest clean,
        )
        (parse_fields-rename (show_counts a d []) (show_count a) (show_count d) old path
            (split 0 rest) (columns-show_counts a d [])
          ∙ ap (add_entry (decode path) (some (decode old)) (show_count a) (show_count d)) h
          ∙ add_entry-show_counts (decode path) (some (decode old)) a d es)

  print_row-parsed :
      (row : Row) (rest : Bytes) (es : List NumstatEntry)
      → IsRow row
      → parse_fields decode (split 0 rest) ≡ parsed es
      → parse_fields decode (split 0 (print_row row rest)) ≡ parsed (entry_of row ∷ es)
  unfolding print_row
  print_row-parsed row rest es w h = at row.old_path refl
    where
      at :
          (o : Option Bytes)
          → row.old_path ≡ o
          → parse_fields decode (split 0 (print_row row rest)) ≡ parsed (entry_of row ∷ es)
      at none e = rw e (
          print_row-file row.lines_added row.lines_removed row.path rest es w.path_clean
            w.path_there h)
      at (some old) e = rw e (
          print_row-rename row.lines_added row.lines_removed old row.path rest es
            (w.old_clean old e) w.path_clean h)

  print_rows-parsed :
      (rows : List Row)
      → All IsRow rows
      → parse_fields decode (split 0 (print_rows rows)) ≡ parsed (map entry_of rows)
  unfolding print_rows
  print_rows-parsed [] w = unfold parse_fields split in refl
  print_rows-parsed (r ∷ rs) w =
      print_row-parsed r (print_rows rs) (map entry_of rs) w.0 (print_rows-parsed rs w.1)

  -- What git prints of a list of files, binary files and renames among them, is read back: one entry
  -- for each file, in order, with its paths, decoded, and its counts. The paths hold no NUL and are
  -- not empty; they may hold tabs and line breaks.
  pub parse_numstat-print_rows :
      (rows : List Row)
      → All IsRow rows
      → parse_numstat decode (print_rows rows) ≡ parsed (map entry_of rows)
  unfolding parse_numstat
  parse_numstat-print_rows rows w = print_rows-parsed rows w
