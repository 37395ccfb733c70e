-- ===== src/Diffing/DiffParser/Patch/Files.antt =====
-- A file of a patch that git prints: the state behind its lines.
use analysis_engine_service.Prelude.{
  ℕ, max, ◌≡◌, refl, sym, ap, ◌∙◌, String, Bool, true, false, Option, none, some, List, [], ◌∷◌,
  ◌++◌, append-nil, append_assoc, if◌then◌else◌, eqb, All, length, Dict, put, Bool-cases, inl, inr,
  subst,
}
use analysis_engine_service.Prelude.Raises.{ok, ◌>>=◌}
use analysis_engine_service.Prelude.Bytes.{Bytes, bytes, Lacks}
use analysis_engine_service.Domain.ChangeSet.{ChangeStatus, added, modified, deleted, renamed}
use analysis_engine_service.Diffing.ChangeMapper.{range_from}
use analysis_engine_service.Diffing.DiffParser.Quoting.RoundTrip.{AreBytes}
use analysis_engine_service.Diffing.DiffParser.Patch.{
  PatchFile, new_file, has_text, add_range, on_line, step, read_lines, header_of, on_header,
}
use analysis_engine_service.Diffing.DiffParser.Patch.Print.{
  Hunk, Kind, edit, create, delete, rename, FileDiff, hunk_lines, kind_lines, old_side, new_side,
  change_lines, file_lines, is_body,
}
use analysis_engine_service.Diffing.DiffParser.Patch.Reading.{
  within, add_ranges, read_lines-append, read_lines-hunks,
}
use analysis_engine_service.Diffing.DiffParser.Patch.Sides.{
  Utf8, titled, titled_files, IsKind, read_lines-kind, old_path_of, old_side-unquoted,
  new_side-unquoted, step-minus, step-plus,
}
use analysis_engine_service.Diffing.DiffParser.Patch.Objects.{Shows, Shows-put, Shows-skip, put-put}

-- The lines of the new file in the hunks, and the places where lines were only removed.
abbrev pub lines_in : List Hunk → List ℕ
lines_in [] = []
lines_in (h ∷ hs) =
    (if eqb h.new_count 0 then [] else range_from h.new_start h.new_count) ++ lines_in hs

abbrev pub points_in : List Hunk → List ℕ
points_in [] = []
points_in (h ∷ hs) = (if eqb h.new_count 0 then max h.new_start 1 ∷ [] else []) ++ points_in hs

abbrev with_lines : PatchFile → List ℕ → List ℕ → PatchFile
with_lines file lines points = record file { added_lines = lines; deletion_points = points }

add_ranges-lines :
    (hs : List Hunk) (file : PatchFile)
    → add_ranges hs file
      ≡ with_lines file (file.added_lines ++ lines_in hs) (file.deletion_points ++ points_in hs)
unfolding add_range
add_ranges-lines [] file = rw (append-nil file.added_lines, append-nil file.deletion_points) refl
add_ranges-lines (h ∷ hs) file = elim (Bool-cases (eqb h.new_count 0)) [
  | inl gone ↦ rw gone (
      add_ranges-lines hs
        (with_lines file file.added_lines (file.deletion_points ++ max h.new_start 1 ∷ []))
      ∙ ap (with_lines file (file.added_lines ++ lines_in hs))
          (append_assoc file.deletion_points (max h.new_start 1 ∷ []) (points_in hs)))
  | inr there ↦ rw there (
      add_ranges-lines hs (
        with_lines file (file.added_lines ++ range_from h.new_start h.new_count)
          file.deletion_points)
      ∙ ap (λ lines. with_lines file lines (file.deletion_points ++ points_in hs))
          (append_assoc file.added_lines (range_from h.new_start h.new_count) (lines_in hs)))
]

module _ (U : Utf8) where
  open U use {decode}

  abbrev pub status_of : Kind → ChangeStatus
  status_of edit = modified
  status_of (create mode) = added
  status_of (delete mode) = deleted
  status_of (rename similarity old) = renamed

  abbrev pub renamed_from : Kind → Option String
  renamed_from edit = none
  renamed_from (create mode) = none
  renamed_from (delete mode) = none
  renamed_from (rename similarity old) = some (decode old)

  -- What the patch says of a file.
  abbrev pub patch_file : FileDiff → PatchFile
  patch_file f = record {
    path = some (decode f.path);
    old_path = renamed_from f.kind;
    status = status_of f.kind;
    is_binary = false;
    added_lines = lines_in f.hunks;
    deletion_points = points_in f.hunks;
  }

  -- The patch names the path of a file whose content changed, and of a renamed file.
  abbrev pub is_named : FileDiff → Bool
  is_named f = elim f.hunks [
    | h ∷ hs ↦ true
    | [] ↦ elim f.kind [ rename similarity old ↦ true | _ ↦ false ]
  ]

  abbrev pub named_files : Dict PatchFile → List FileDiff → Dict PatchFile
  named_files d [] = d
  named_files d (f ∷ fs) =
      named_files (if is_named f then put (decode f.path) (patch_file f) d else d) fs

  -- What git prints: a path is not empty, and a line holds no line break.
  pub record IsFileDiff (f : FileDiff) : Type 0 where
    pub path_bytes : AreBytes f.path
    pub path_there : has_text (some (decode f.path)) ≡ true
    pub kind_bytes : IsKind U f.kind
    pub bodies : All (λ h. All (λ l. is_body l ≡ true) h.body) f.hunks
    pub lines_clean : All (Lacks 10) (file_lines f)

  step-index :
      (finished : List PatchFile) (files : Dict ℕ) (file : PatchFile) (index : Bytes)
      → step decode (within finished file none false files) (bytes "index " ++ index)
        ≡ ok (within finished file none false files)
  unfolding step on_line header_of on_header
  step-index finished files file index = refl

  read_lines-change :
      (finished : List PatchFile) (files : Dict ℕ) (file : PatchFile) (path index : Bytes)
      (kind : Kind) (h : Hunk) (hs : List Hunk)
      → AreBytes path
      → IsKind U kind
      → has_text (some (decode path)) ≡ true
      → All (λ h. All (λ l. is_body l ≡ true) h.body) (h ∷ hs)
      → read_lines decode (within finished file none false files) (
          (bytes "index " ++ index)
          ∷ (bytes "--- " ++ old_side path kind)
          ∷ (bytes "+++ " ++ new_side path kind)
          ∷ hunk_lines (h ∷ hs))
        ≡ ok (
            within finished
              (add_ranges (h ∷ hs) (record file { path = some (decode path) }))
              (old_path_of U path kind)
              true
              (put (decode path) (length finished) files))
  unfolding read_lines
  read_lines-change finished files file path index kind h hs w k t b =
      let (old, oq, op) = old_side-unquoted U path kind w k in
      let (new, nq, np) = new_side-unquoted U path kind w in
      ap
        (λ r. r >>= λ s. read_lines decode s (
          (bytes "--- " ++ old_side path kind)
          ∷ (bytes "+++ " ++ new_side path kind)
          ∷ hunk_lines (h ∷ hs)))
        (step-index finished files file index)
      ∙ ap
          (λ r. r >>= λ s.
            read_lines decode s ((bytes "+++ " ++ new_side path kind) ∷ hunk_lines (h ∷ hs)))
          (step-minus U finished file files (old_side path kind) old (old_path_of U path kind) oq
            op)
      ∙ ap (λ r. r >>= λ s. read_lines decode s (hunk_lines (h ∷ hs)))
          (step-plus U finished file (old_path_of U path kind) files (new_side path kind) new
            (decode path) nq np t)
      ∙ read_lines-hunks decode finished (record file { path = some (decode path) })
          (old_path_of U path kind) false (put (decode path) (length finished) files) h hs b

  -- The state behind a file's lines, and what `files` then shows.
  abbrev pub Reads : List PatchFile → Dict ℕ → List Bytes → Dict PatchFile → Type 0
  Reads finished files ls d =
      (file : PatchFile) × (minus : Option String) × (b : Bool) × (files' : Dict ℕ) × (read_lines
          decode (within finished new_file none false files) ls
        ≡ ok (within finished file minus b files'))
      × Shows (finished ++ file ∷ []) files' d

  read_titled :
      (finished : List PatchFile) (files : Dict ℕ) (d : Dict PatchFile) (title path index : Bytes)
      (kind : Kind)
      → Shows finished files d
      → AreBytes path
      → IsKind U kind
      → Reads finished files (kind_lines path kind ++ []) (
          named_files d
            (record { title = title; path = path; kind = kind; index = index; hunks = [] } ∷ []))
  read_titled finished files d title path index kind s w k = (
    titled U path kind,
    none,
    false,
    titled_files U path kind (length finished) files,
    rw (append-nil (kind_lines path kind)) (read_lines-kind U finished files path kind w k),
    at kind,
  )
    where
      at :
          (kind : Kind)
          → Shows
              (finished ++ titled U path kind ∷ [])
              (titled_files U path kind (length finished) files)
              (named_files d (
                record { title = title; path = path; kind = kind; index = index; hunks = [] } ∷ []))
      at edit = Shows-skip finished files d _ s
      at (create mode) = Shows-skip finished files d _ s
      at (delete mode) = Shows-skip finished files d _ s
      at (rename similarity old) = Shows-put finished files d (decode path) _ s

  -- After its hunks, a file is as described, and registered under its path.
  finish_lines :
      (path title index : Bytes) (kind : Kind) (hs : List Hunk)
      → add_ranges hs (record (titled U path kind) { path = some (decode path) })
        ≡ patch_file (record { title = title; path = path; kind = kind; index = index; hunks = hs })
  finish_lines path title index edit hs = add_ranges-lines hs _
  finish_lines path title index (create mode) hs = add_ranges-lines hs _
  finish_lines path title index (delete mode) hs = add_ranges-lines hs _
  finish_lines path title index (rename similarity old) hs = add_ranges-lines hs _

  put-titled :
      (path : Bytes) (kind : Kind) (n : ℕ) (files : Dict ℕ)
      → put (decode path) n (titled_files U path kind n files) ≡ put (decode path) n files
  put-titled path edit n files = refl
  put-titled path (create mode) n files = refl
  put-titled path (delete mode) n files = refl
  put-titled path (rename similarity old) n files = put-put (decode path) n files

  read_changed :
      (finished : List PatchFile) (files : Dict ℕ) (d : Dict PatchFile) (title path index : Bytes)
      (kind : Kind) (h : Hunk) (hs : List Hunk)
      → Shows finished files d
      → AreBytes path
      → IsKind U kind
      → has_text (some (decode path)) ≡ true
      → All (λ h. All (λ l. is_body l ≡ true) h.body) (h ∷ hs)
      → Reads finished files
          (kind_lines path kind
            ++ ((bytes "index " ++ index)
                ∷ (bytes "--- " ++ old_side path kind)
                ∷ (bytes "+++ " ++ new_side path kind)
                ∷ hunk_lines (h ∷ hs)))
          (put
            (decode path)
            (patch_file
              (record { title = title; path = path; kind = kind; index = index; hunks = h ∷ hs }))
            d)
  read_changed finished files d title path index kind h hs s w k t b = (
    add_ranges (h ∷ hs) (record (titled U path kind) { path = some (decode path) }),
    old_path_of U path kind,
    true,
    put (decode path) (length finished) (titled_files U path kind (length finished) files),
    read_lines-append decode (within finished new_file none false files)
          (within finished (titled U path kind) none false
            (titled_files U path kind (length finished) files))
          (kind_lines path kind) _ (read_lines-kind U finished files path kind w k)
        ∙ read_lines-change finished (titled_files U path kind (length finished) files)
            (titled U path kind) path index kind h hs w k t b,
    subst
        (λ fs.
          Shows
            (finished
              ++ add_ranges (h ∷ hs) (record (titled U path kind) { path = some (decode path) })
                ∷ [])
            fs
            (put (decode path)
              (patch_file
                (record { title = title; path = path; kind = kind; index = index; hunks = h ∷ hs }))
              d))
        (sym (put-titled path kind (length finished) files))
        (subst
          (λ file. Shows (finished ++ file ∷ []) (put (decode path) (length finished) files) (
            put (decode path)
              (patch_file
                (record { title = title; path = path; kind = kind; index = index; hunks = h ∷ hs }))
              d))
          (sym (finish_lines path title index kind (h ∷ hs)))
          (Shows-put finished files d (decode path) _ s)),
  )

  pub read_file :
      (finished : List PatchFile) (files : Dict ℕ) (d : Dict PatchFile) (f : FileDiff)
      → Shows finished files d
      → IsFileDiff f
      → Reads finished files (kind_lines f.path f.kind ++ change_lines f) (named_files d (f ∷ []))
  unfolding change_lines
  read_file finished files d f s w = at f.hunks w.bodies
    where
      at :
          (hs : List Hunk)
          → All (λ h. All (λ l. is_body l ≡ true) h.body) hs
          → Reads finished files
              (kind_lines f.path f.kind ++ change_lines (record f { hunks = hs }))
              (named_files d (record f { hunks = hs } ∷ []))
      at [] b =
          read_titled finished files d f.title f.path f.index f.kind s w.path_bytes w.kind_bytes
      at (h ∷ hs) b =
          read_changed finished files d f.title f.path f.index f.kind h hs s w.path_bytes
            w.kind_bytes w.path_there b
