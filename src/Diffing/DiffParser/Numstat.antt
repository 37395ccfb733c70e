-- ===== src/Diffing/DiffParser/Numstat.antt =====
-- diffing/diff_parser.py: `parse_numstat`, which reads `git diff --numstat -z -M`.
pub mod RoundTrip
use analysis_engine_service.Prelude.{
  ℕ, ◌≡◌, String, Bool, false, Option, none, some, is_none, List, [], ◌∷◌, ◌++◌, if◌then◌else◌, eqb,
}
use analysis_engine_service.Prelude.Raises.{Raises, ok, value_error, ◌>>=◌}
use analysis_engine_service.Prelude.Bytes.{Bytes, bytes, cut_once, split, read_number}

pub record NumstatEntry : Type 0 where
  pub path : String
  pub old_path : Option String
  pub lines_added : Option ℕ
  pub lines_removed : Option ℕ

-- `NumstatEntry.is_binary`
abbrev pub is_binary : NumstatEntry → Bool
is_binary entry = is_none entry.lines_added

-- What `parse_numstat` returns, or the exception: `ValueError` of a record without three columns or
-- of a count that is no number, `IndexError` of a rename without its two paths.
pub data Numstat : Type 0 where
  parsed : List NumstatEntry → Numstat
  bad_value no_field : Numstat

-- `int(text)` of a text of digits; git writes no sign, blank or underscore.
unfoldable pub to_int : Bytes → Raises ℕ
unfolding read_number
to_int text = elim (read_number text) [
  | none ↦ value_error
  | some (n, rest) ↦ elim rest [ [] ↦ ok n | _ ↦ value_error ]
]

abbrev pub is_dash : Bytes → Bool
is_dash [] = false
is_dash (c ∷ []) = eqb c b'-'
is_dash (c ∷ d ∷ s) = false

-- `None if text == b"-" else int(text)`
unfoldable pub read_count : Bytes → Raises (Option ℕ)
unfolding to_int
read_count text = if is_dash text then ok none else to_int text >>= λ n. ok (some n)

-- `added, removed, path = record.split(b"\t", 2)`
unfoldable pub columns : Bytes → Option (Bytes × Bytes × Bytes)
columns row = elim (cut_once b'\t' row) [
  | none ↦ none
  | some (added, rest) ↦ elim (cut_once b'\t' rest) [
    | none ↦ none
    | some (removed, path) ↦ some (added, removed, path)
  ]
]

abbrev pub first : NumstatEntry → Numstat → Numstat
first e (parsed es) = parsed (e ∷ es)
first e bad_value = bad_value
first e no_field = no_field

abbrev pub read_counts : Bytes → Bytes → Raises (Option ℕ × Option ℕ)
read_counts added removed = read_count added >>= λ a. read_count removed >>= λ r. ok (a, r)

-- `entries.append(NumstatEntry(...))` before what the rest of the loop gives
unfoldable pub add_entry : String → Option String → Bytes → Bytes → Numstat → Numstat
unfolding read_count
add_entry path old_path added removed later = elim (read_counts added removed) [
  | value_error ↦ bad_value
  | ok (a, r) ↦
      first (record { path = path; old_path = old_path; lines_added = a; lines_removed = r }) later
]

module _ (decode : Bytes → String) where
  -- One record: `renamed` goes on if its path is empty, and `later` is what the loop gives if not.
  unfoldable pub read_row : Bytes → (Bytes → Bytes → Numstat) → Numstat → Numstat
  unfolding columns add_entry
  read_row row renamed later = elim (columns row) [
    | none ↦ bad_value
    | some (added, removed, path) ↦ elim path [
      | [] ↦ renamed added removed
      | c ∷ p ↦ add_entry (decode (c ∷ p)) none added removed later
    ]
  ]

  -- The loop over the fields.
  unfoldable pub parse_fields : List Bytes → Numstat
  unfolding read_row
  parse_fields [] = parsed []
  parse_fields ([] ∷ fields) = parse_fields fields
  parse_fields ((c ∷ r) ∷ []) = read_row (c ∷ r) (λ a d. no_field) (parsed [])
  parse_fields ((c ∷ r) ∷ f ∷ []) =
      let later = parse_fields (f ∷ []) in read_row (c ∷ r) (λ a d. no_field) later
  parse_fields ((c ∷ r) ∷ f ∷ g ∷ fields) =
      let later = parse_fields (f ∷ g ∷ fields) in
      let past = parse_fields fields in
      read_row (c ∷ r) (λ a d. add_entry (decode g) (some (decode f)) a d past) later

  unfoldable pub parse_numstat : Bytes → Numstat
  unfolding parse_fields
  parse_numstat output = parse_fields (split 0 output)
