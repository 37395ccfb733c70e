-- ===== src/Diffing/DiffParser/Patch/Reading.antt =====
-- The lines of a patch, one by one: what the parser makes of each line that git prints.
use analysis_engine_service.Prelude.{
  ℕ, ◌≡◌, refl, ap, ◌∙◌, String, Bool, true, false, Bool-cases, inl, inr, Option, none, some,
  is_some, or_else, List, [], ◌∷◌, ◌++◌, if◌then◌else◌, eqb, All, arith, Dict,
}
use analysis_engine_service.Prelude.Raises.{Raises, ok, value_error, ◌>>=◌}
use analysis_engine_service.Prelude.Bytes.{Bytes, bytes, after, after-append}
use analysis_engine_service.Prelude.Bytes.Decimal.{show, read_number-show, EndsNumber}
use analysis_engine_service.Diffing.DiffParser.Patch.{
  PatchFile, State, read_count, read_range, match_hunk, add_range, apply_hunk, step, read_lines,
  on_line,
}
use analysis_engine_service.Diffing.DiffParser.Patch.Print.{
  Hunk, print_count, print_range, print_header, hunk_lines, is_body,
}

-- The count that `print_count` writes.
abbrev pub written : ℕ → Option ℕ
written n = if eqb n 1 then none else some n

-- The text does not go on with a digit or a comma.
abbrev pub EndsRange : Bytes → Type 0
EndsRange rest = EndsNumber rest × (after (bytes ",") rest ≡ none)

read_count-print_count :
    (n : ℕ) (rest : Bytes) → EndsRange rest → read_count (print_count n ++ rest) ≡ (written n, rest)
unfolding print_count read_count
read_count-print_count n rest h = elim (Bool-cases (eqb n 1)) [
  | inl one ↦ rw (one, h.1) refl
  | inr more ↦ rw (more, read_count, read_number-show n rest h.0) refl
]

EndsNumber-print_count :
    (n : ℕ) (rest : Bytes) → EndsNumber rest → EndsNumber (print_count n ++ rest)
unfolding print_count
EndsNumber-print_count n rest h = elim (Bool-cases (eqb n 1)) [
  | inl one ↦ rw one h
  | inr more ↦ rw more refl
]

read_range-print_range :
    (prefix : Bytes) (start n : ℕ) (rest : Bytes)
    → EndsRange rest
    → read_range prefix (prefix ++ print_range start n rest) ≡ some (start, written n, rest)
unfolding read_range print_range
read_range-print_range prefix start n rest h =
    rw
      (
        read_range,
        print_range,
        after-append prefix (show start ++ (print_count n ++ rest)),
        read_number-show start (print_count n ++ rest) (EndsNumber-print_count n rest h.0),
        read_count-print_count n rest h,
      )
      refl

pub match_hunk-print_header :
    (h : Hunk) → match_hunk (print_header h) ≡ some (h.new_start, written h.new_count)
unfolding match_hunk print_header
match_hunk-print_header h =
    rw
      (
        match_hunk,
        print_header,
        read_range-print_range (bytes "@@ -") h.old_start h.old_count
            (bytes " +" ++ print_range h.new_start h.new_count (bytes " @@" ++ h.context))
            (refl, refl),
        read_range-print_range (bytes " +") h.new_start h.new_count (bytes " @@" ++ h.context)
            (refl, refl),
      )
      refl

or_else-written : (n : ℕ) → or_else (written n) 1 ≡ n
or_else-written n = ground arith

pub apply_hunk-print_header :
    (h : Hunk) (file : PatchFile)
    → apply_hunk (print_header h) file ≡ add_range h.new_start h.new_count file
unfolding apply_hunk
apply_hunk-print_header h file =
    rw (apply_hunk, match_hunk-print_header h)
      (ap (λ n. add_range h.new_start n file) (or_else-written h.new_count))

-- The file after its hunks.
abbrev pub add_ranges : List Hunk → PatchFile → PatchFile
add_ranges [] file = file
add_ranges (h ∷ hs) file = add_ranges hs (add_range h.new_start h.new_count file)

body-none :
    (l : Bytes)
    → is_body l ≡ true
    → (is_some (after (bytes "@@") l) ≡ false) × (is_some (after (bytes "diff --git ") l) ≡ false)
body-none [] h = absurd (cc)
body-none (c ∷ l) h = (ground arith, ground arith)

-- The state in a file's section.
abbrev pub within : List PatchFile → PatchFile → Option String → Bool → Dict ℕ → State
within finished file minus hunks files = record {
  finished = finished;
  current = some file;
  minus_path = minus;
  in_hunks = hunks;
  files = files;
}

module _ (decode : Bytes → String) where
  pub read_lines-append :
      (s t : State) (ls ms : List Bytes)
      → read_lines decode s ls ≡ ok t
      → read_lines decode s (ls ++ ms) ≡ read_lines decode t ms
  unfolding read_lines
  read_lines-append s t ls ms h = go s ls ∙ ap (λ r. r >>= λ s'. read_lines decode s' ms) h
    where
      bind_assoc :
          (r : Raises State) (l : List Bytes)
          → ((s : State)
              → read_lines decode s (l ++ ms)
                ≡ (read_lines decode s l >>= λ s'. read_lines decode s' ms))
          → (r >>= λ s'. read_lines decode s' (l ++ ms))
            ≡ ((r >>= λ s'. read_lines decode s' l) >>= λ s'. read_lines decode s' ms)
      bind_assoc value_error l e = refl
      bind_assoc (ok a) l e = e a

      go :
          (s : State) (ls : List Bytes)
          → read_lines decode s (ls ++ ms)
            ≡ (read_lines decode s ls >>= λ s'. read_lines decode s' ms)
      go s [] = refl
      go s (l ∷ ls) = bind_assoc (step decode s l) ls (λ s'. go s' ls)

  step-body :
      (finished : List PatchFile) (file : PatchFile) (minus : Option String) (files : Dict ℕ)
      (l : Bytes)
      → is_body l ≡ true
      → step decode (within finished file minus true files) l
        ≡ ok (within finished file minus true files)
  unfolding step on_line
  step-body finished file minus files l w = rw ((body-none l w).1, (body-none l w).0) refl

  -- The lines of a hunk change nothing.
  read_lines-body :
      (finished : List PatchFile) (file : PatchFile) (minus : Option String) (files : Dict ℕ)
      (ls : List Bytes)
      → All (λ l. is_body l ≡ true) ls
      → read_lines decode (within finished file minus true files) ls
        ≡ ok (within finished file minus true files)
  unfolding read_lines
  read_lines-body finished file minus files [] w = refl
  read_lines-body finished file minus files (l ∷ ls) w =
      ap (λ r. r >>= λ s. read_lines decode s ls) (step-body finished file minus files l w.0)
      ∙ read_lines-body finished file minus files ls w.1

  step-header :
      (finished : List PatchFile) (file : PatchFile) (minus : Option String) (b : Bool)
      (files : Dict ℕ) (h : Hunk)
      → step decode (within finished file minus b files) (print_header h)
        ≡ ok (within finished (add_range h.new_start h.new_count file) minus true files)
  unfolding step on_line print_header
  step-header finished file minus b files h =
      ap (λ f. ok (within finished f minus true files)) (apply_hunk-print_header h file)

  read_lines-hunk :
      (finished : List PatchFile) (file : PatchFile) (minus : Option String) (b : Bool)
      (files : Dict ℕ) (h : Hunk)
      → All (λ l. is_body l ≡ true) h.body
      → read_lines decode (within finished file minus b files) (print_header h ∷ h.body)
        ≡ ok (within finished (add_range h.new_start h.new_count file) minus true files)
  unfolding read_lines
  read_lines-hunk finished file minus b files h w =
      ap (λ r. r >>= λ s. read_lines decode s h.body) (step-header finished file minus b files h)
      ∙ read_lines-body finished (add_range h.new_start h.new_count file) minus files h.body w

  -- The hunks of a file add their ranges.
  pub read_lines-hunks :
      (finished : List PatchFile) (file : PatchFile) (minus : Option String) (b : Bool)
      (files : Dict ℕ) (h : Hunk) (hs : List Hunk)
      → All (λ h. All (λ l. is_body l ≡ true) h.body) (h ∷ hs)
      → read_lines decode (within finished file minus b files) (hunk_lines (h ∷ hs))
        ≡ ok (within finished (add_ranges (h ∷ hs) file) minus true files)
  unfolding hunk_lines
  read_lines-hunks finished file minus b files h hs w =
      read_lines-append (within finished file minus b files)
        (within finished (add_range h.new_start h.new_count file) minus true files)
        (print_header h ∷ h.body) (hunk_lines hs)
        (read_lines-hunk finished file minus b files h w.0)
      ∙ more hs (add_range h.new_start h.new_count file) w.1
    where
      more :
          (hs : List Hunk) (file : PatchFile)
          → All (λ h. All (λ l. is_body l ≡ true) h.body) hs
          → read_lines decode (within finished file minus true files) (hunk_lines hs)
            ≡ ok (within finished (add_ranges hs file) minus true files)
      more [] file w = unfold read_lines in refl
      more (h ∷ hs) file w =
          read_lines-append (within finished file minus true files)
            (within finished (add_range h.new_start h.new_count file) minus true files)
            (print_header h ∷ h.body) (hunk_lines hs)
            (read_lines-hunk finished file minus true files h w.0)
          ∙ more hs (add_range h.new_start h.new_count file) w.1
