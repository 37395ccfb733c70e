-- ===== src/Diffing/DiffParser/Patch/RoundTrip.antt =====
-- A patch that git prints is read back: which files it changes, and which lines of each.
use analysis_engine_service.Prelude.{
  ℕ, ◌≡◌, refl, sym, ap, ◌∙◌, String, Bool, true, false, Option, none, or_else, List, [], ◌∷◌, ◌++◌,
  All, All-append, Dict,
}
use analysis_engine_service.Prelude.Raises.{ok, ◌>>=◌}
use analysis_engine_service.Prelude.Bytes.{Bytes, bytes, Lacks, split, split-append}
use analysis_engine_service.Diffing.DiffParser.Patch.{
  PatchFile, new_file, State, initial, open_file, on_line, step, read_lines, resolve, parse_patch,
  header_of, on_header,
}
use analysis_engine_service.Diffing.DiffParser.Patch.Print.{
  FileDiff, kind_lines, change_lines, file_lines, patch_lines, print_lines,
}
use analysis_engine_service.Diffing.DiffParser.Patch.Reading.{within, read_lines-append}
use analysis_engine_service.Diffing.DiffParser.Patch.Sides.{Utf8}
use analysis_engine_service.Diffing.DiffParser.Patch.Objects.{Shows, resolve-open}
use analysis_engine_service.Diffing.DiffParser.Patch.Files.{named_files, IsFileDiff, read_file}

module _ (U : Utf8) where
  open U use {decode}

  -- What `parse_patch` returns at the end.
  abbrev result : State → Dict PatchFile
  result s = resolve s.finished (or_else s.current new_file) s.files

  step-blank :
      (finished : List PatchFile) (file : PatchFile) (minus : Option String) (b : Bool)
      (files : Dict ℕ)
      → step decode (within finished file minus b files) []
        ≡ ok (within finished file minus b files)
  unfolding step on_line header_of on_header
  step-blank finished file minus true files = refl
  step-blank finished file minus false files = refl

  -- A state whose files are `d`, with `objects` created so far.
  record Stands (s : State) (objects : List PatchFile) (d : Dict PatchFile) : Type 0 where
    opens : open_file s ≡ within objects new_file none false s.files
    stays : step decode s [] ≡ ok s
    gives : result s ≡ d
    shows : Shows objects s.files d

  Stands-within :
      (finished : List PatchFile) (file : PatchFile) (minus : Option String) (b : Bool)
      (files : Dict ℕ) (d : Dict PatchFile)
      → Shows (finished ++ file ∷ []) files d
      → Stands (within finished file minus b files) (finished ++ file ∷ []) d
  Stands-within finished file minus b files d shows = record {
    opens = unfold open_file in refl;
    stays = step-blank finished file minus b files;
    gives = sym (resolve-open finished file new_file files shows.known) ∙ shows.shown new_file;
    shows = shows;
  }

  read_title :
      (s t : State) (title : Bytes) (ls : List Bytes)
      → read_lines decode (open_file s) ls ≡ ok t
      → read_lines decode s ((bytes "diff --git " ++ title) ∷ ls) ≡ ok t
  unfolding read_lines step
  read_title s t title ls h = h

  read_files :
      (s : State) (objects : List PatchFile) (d : Dict PatchFile) (fs : List FileDiff)
      → Stands s objects d
      → All (IsFileDiff U) fs
      → (t : State) × (read_lines decode s (patch_lines fs) ≡ ok t)
        × (step decode t [] ≡ ok t)
        × (result t ≡ named_files U d fs)
  unfolding patch_lines
  read_files s objects d [] stands w = (s, unfold read_lines in refl, stands.stays, stands.gives)
  read_files s objects d (f ∷ fs) stands w =
      let (file, minus, b, files, e, shows) = read_file U objects s.files d f stands.shows w.0 in
      let (t, q, l, r) =
        read_files (within objects file minus b files) (objects ++ file ∷ [])
          (named_files U d (f ∷ [])) fs
          (Stands-within objects file minus b files (named_files U d (f ∷ [])) shows) w.1 in
      (
        t,
        read_lines-append decode s (within objects file minus b files) (file_lines f)
              (patch_lines fs)
              (read_title s (within objects file minus b files) f.title
                (kind_lines f.path f.kind ++ change_lines f)
                (ap (λ o. read_lines decode o (kind_lines f.path f.kind ++ change_lines f))
                    stands.opens
                  ∙ e))
            ∙ q,
        l,
        r,
      )

  split-print_lines :
      (ls : List Bytes) → All (Lacks 10) ls → split 10 (print_lines ls) ≡ ls ++ [] ∷ []
  unfolding print_lines
  split-print_lines [] w = unfold split in refl
  split-print_lines (l ∷ ls) w =
      split-append 10 l (print_lines ls) w.0 ∙ ap (λ ms. l ∷ ms) (split-print_lines ls w.1)

  patch_lines-Lacks : (fs : List FileDiff) → All (IsFileDiff U) fs → All (Lacks 10) (patch_lines fs)
  unfolding patch_lines
  patch_lines-Lacks [] w = tt
  patch_lines-Lacks (f ∷ fs) w =
      All-append (Lacks 10) (file_lines f) (patch_lines fs) w.0.lines_clean
        (patch_lines-Lacks fs w.1)

  read_lines-last : (t : State) → step decode t [] ≡ ok t → read_lines decode t ([] ∷ []) ≡ ok t
  unfolding read_lines
  read_lines-last t l = ap (λ r. r >>= λ s. ok s) l

  Stands-initial : Stands initial [] []
  Stands-initial = record {
    opens = unfold open_file in refl;
    stays = unfold step in refl;
    gives = unfold resolve in refl;
    shows = record { known = tt; shown = λ x. unfold resolve in refl };
  }

  -- What git prints of a list of files, edited, created, deleted and renamed ones, is read back: a
  -- file whose content changed and a renamed one stand under their path, decoded, with their status,
  -- the lines that their hunks have in the new file, and the places where a hunk only removes lines.
  -- The lines of a hunk are never taken for headers, whatever they hold. A path is not empty, and no
  -- line holds a line break.
  pub parse_patch-patch_lines :
      (fs : List FileDiff)
      → All (IsFileDiff U) fs
      → parse_patch decode (print_lines (patch_lines fs)) ≡ ok (named_files U [] fs)
  unfolding parse_patch
  parse_patch-patch_lines fs w =
      let (t, q, l, r) = read_files initial [] [] fs Stands-initial w in
      ap (λ ls. read_lines decode initial ls >>= λ s. ok (result s))
        (split-print_lines (patch_lines fs) (patch_lines-Lacks fs w))
      ∙ ap (λ o. o >>= λ s. ok (result s))
          (read_lines-append decode initial t (patch_lines fs) ([] ∷ []) q ∙ read_lines-last t l)
      ∙ ap ok r
