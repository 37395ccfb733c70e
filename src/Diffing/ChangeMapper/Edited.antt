-- ===== src/Diffing/ChangeMapper/Edited.antt =====
-- `changed_symbols` over all the files of a change set: what it reports, and that it misses nothing.
use analysis_engine_service.Prelude.{
  ℕ, ◌≡◌, refl, sym, subst, ◌⊎◌, inl, inr, ◌↔◌, true, false, List, [], ◌∷◌, ◌++◌, if◌then◌else◌,
  Elem-append, Elem-append_left, Elem-append_right, Elem-map, map-Elem, Dict, values, Elem-values,
  Elem, Bool-cases,
}
use analysis_engine_service.Prelude.Sorting.{sorted, sorted-Elem, Elem-sorted_of}
use analysis_engine_service.Domain.ChangeSet.{ChangedFile, ChangeSet, ChangedSymbol}
use analysis_engine_service.Domain.CodeIndex.{Symbol, RepoIndex, contains_line, symbols_in_file}
use analysis_engine_service.Diffing.ChangeMapper.{
  is_deleted, is_before, find_lines, to_changed_symbol, find_files, changed_symbols,
}
use analysis_engine_service.Diffing.ChangeMapper.Symbols.{
  IsInnermost, Has, find_lines-All, find_lines-Has, find_lines-finds,
}

-- `line` is a line of `f` that was added, modified, or next to a deletion.
abbrev pub IsChangedLine : ChangedFile → ℕ → Type 0
IsChangedLine f line = Elem line f.added_lines ⊎ Elem line f.deletion_points

-- `s` is an innermost symbol around some changed line of a file that still exists.
abbrev pub IsEdited : RepoIndex → List ChangedFile → Symbol → Type 0
IsEdited index files s =
    (f : ChangedFile) × (line : ℕ) × Elem f files
    × (is_deleted f ≡ false)
    × IsChangedLine f line
    × IsInnermost (symbols_in_file index f.path) line s

-- `elements` lists the set of the numbers of a list, in some order.
abbrev pub ListsSet : (List ℕ → List ℕ) → Type 0
ListsSet elements = (lines : List ℕ) (n : ℕ) → Elem n (elements lines) ↔ Elem n lines

module _ (elements : List ℕ → List ℕ) (lists : ListsSet elements) (index : RepoIndex) where
  find_files-sound :
      (P : Symbol → Type 0) (found : Dict Symbol) (fs : List ChangedFile)
      → ((s : Symbol) → Elem s (values found) → P s)
      → ((s : Symbol) → IsEdited index fs s → P s)
      → (s : Symbol) → Elem s (values (find_files elements index found fs))
      → P s
  unfolding find_files
  find_files-sound P found [] old new s m = old s m
  find_files-sound P found (f ∷ fs) old new s m = elim (Bool-cases (is_deleted f)) [
    | inl gone ↦ find_files-sound P found fs old later s (rw gone at m)
    | inr live ↦
        find_files-sound P
          (find_lines (symbols_in_file index f.path) found
            (elements (f.added_lines ++ f.deletion_points)))
          fs
          (find_lines-All (symbols_in_file index f.path) P found
            (elements (f.added_lines ++ f.deletion_points)) old
            (λ line t k inner. new t (
              f,
              line,
              inl refl,
              live,
              Elem-append line f.added_lines f.deletion_points ((lists _ line).0 k),
              inner,
            )))
          later s (rw live at m)
  ]
    where
      later : (t : Symbol) → IsEdited index fs t → P t
      later t (g, line, k, live, changed, inner) = new t (g, line, inr k, live, changed, inner)

  find_files-Has :
      (found : Dict Symbol) (fs : List ChangedFile) (s : Symbol)
      → Has found s.symbol_id
      → Has (find_files elements index found fs) s.symbol_id
  unfolding find_files
  find_files-Has found [] s h = h
  find_files-Has found (f ∷ fs) s h = elim (Bool-cases (is_deleted f)) [
    | inl gone ↦ rw gone (find_files-Has found fs s h)
    | inr live ↦ rw live (
        find_files-Has
          (find_lines (symbols_in_file index f.path) found
            (elements (f.added_lines ++ f.deletion_points)))
          fs s
          (find_lines-Has (symbols_in_file index f.path) s.symbol_id found
            (elements (f.added_lines ++ f.deletion_points)) h))
  ]

  find_files-finds :
      (found : Dict Symbol) (fs : List ChangedFile) (f : ChangedFile) (line : ℕ) (t : Symbol)
      → Elem f fs
      → is_deleted f ≡ false
      → IsChangedLine f line
      → Elem t (symbols_in_file index f.path)
      → contains_line t line ≡ true
      → (s : Symbol) × IsInnermost (symbols_in_file index f.path) line s
        × Has (find_files elements index found fs) s.symbol_id
  unfolding find_files
  find_files-finds found [] f line t m live k mt h = absurd m
  find_files-finds found (g ∷ fs) f line t (inr m) live k mt h =
      find_files-finds
        (if is_deleted g
          then found
          else find_lines (symbols_in_file index g.path) found
              (elements (g.added_lines ++ g.deletion_points)))
        fs f line t m live k mt h
  find_files-finds found (g ∷ fs) f line t (inl e) live k mt h =
      let live' : is_deleted g ≡ false = subst (λ z. is_deleted z ≡ false) (sym e) live in
      let k' : IsChangedLine g line = subst (λ z. IsChangedLine z line) (sym e) k in
      let (s, inner, has) =
        find_lines-finds (symbols_in_file index g.path) t line found
          (elements (g.added_lines ++ g.deletion_points))
          (subst (λ z. Elem t (symbols_in_file index z.path)) (sym e) mt) h
          ((lists _ line).1 (both k')) in
      (
        s,
        subst (λ z. IsInnermost (symbols_in_file index z.path) line s) e inner,
        rw live' (
            find_files-Has
              (find_lines (symbols_in_file index g.path) found
                (elements (g.added_lines ++ g.deletion_points)))
              fs s has),
      )
    where
      both : IsChangedLine g line → Elem line (g.added_lines ++ g.deletion_points)
      both (inl a) = Elem-append_left line g.added_lines g.deletion_points a
      both (inr b) = Elem-append_right line g.added_lines g.deletion_points b

  module _ (c : ChangeSet) where
    table : Dict Symbol
    table = find_files elements index [] c.files

    -- Every entry is an innermost symbol around some changed line of a file that is not deleted.
    -- And for every such line that lies in a symbol at all, an innermost symbol around it is
    -- reported, by its id. The order in which the set of lines is run through does not matter.
    pub changed_symbols_lem :
        ((r : ChangedSymbol)
          → Elem r (changed_symbols elements index c)
          → (s : Symbol) × (to_changed_symbol index s ≡ r) × IsEdited index c.files s)
        × ((f : ChangedFile) (line : ℕ) (t : Symbol)
            → Elem f c.files
            → is_deleted f ≡ false
            → IsChangedLine f line
            → Elem t (symbols_in_file index f.path)
            → contains_line t line ≡ true
            → (s : Symbol) × IsInnermost (symbols_in_file index f.path) line s
              × (r : ChangedSymbol) × Elem r (changed_symbols elements index c)
              × (r.symbol_id ≡ s.symbol_id))
    unfolding changed_symbols table
    changed_symbols_lem = (
      λ r m.
          let (s, k, e) =
            map-Elem (to_changed_symbol index) r (sorted is_before (values table)) m in
          (
            s,
            e,
            find_files-sound (IsEdited index c.files) [] c.files (λ t n. absurd n)
                (λ t edited. edited) s (sorted-Elem is_before s (values table) k),
          ),
      λ f line t m live k mt h.
          let (s, inner, (u, got, same)) = find_files-finds [] c.files f line t m live k mt h in
          (
            s,
            inner,
            to_changed_symbol index u,
            Elem-map (to_changed_symbol index) u (sorted is_before (values table))
                (Elem-sorted_of is_before u (values table) (Elem-values s.symbol_id table u got)),
            same,
          ),
    )
