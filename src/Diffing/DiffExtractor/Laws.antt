-- ===== src/Diffing/DiffExtractor/Laws.antt =====
-- The lines of a changed file are a sorted set, and a change set holds no generated file.
use analysis_engine_service.Prelude.{
  ℕ, ◌<◌, ◌≡◌, inl, inr, ◌↔◌, refl, subst, some_inj, String, Bool, true, false, Bool-cases, Option,
  none, some, List, [], ◌∷◌, map, filter, length, ltb, eqb, if◌then◌else◌, All, arith, Dict, get,
}
use analysis_engine_service.Domain.ChangeSet.{
  too_large, ChangedFile, ChangeSet, PullRequestChanges, available, unavailable,
}
use analysis_engine_service.Diffing.GeneratedFiles.{is_generated}
use analysis_engine_service.Diffing.DiffParser.Numstat.{NumstatEntry}
use analysis_engine_service.Diffing.DiffParser.Patch.{PatchFile}
use analysis_engine_service.Diffing.DiffExtractor.{
  insert_once, sorted_set, to_changed_file, is_included, is_line_level, changes_of,
}

abbrev pub IsIncreasing : List ℕ → Type 0
IsIncreasing [] = Unit
IsIncreasing (n ∷ ns) = All (λ m. n < m) ns × IsIncreasing ns

All-insert_once : (P : ℕ → Type 0) (n : ℕ) (ns : List ℕ) → P n → All P ns → All P (insert_once n ns)
All-insert_once P n [] p h = (p, tt)
All-insert_once P n (m ∷ ms) p h = elim (Bool-cases (ltb n m)) [
  | inl less ↦ rw less (p, h)
  | inr more ↦ rw more (elim (Bool-cases (eqb n m)) [
    | inl same ↦ rw same h
    | inr other ↦ rw other (h.0, All-insert_once P n ms p h.1)
  ])
]

All-below : (n m : ℕ) (ns : List ℕ) → n < m → All (λ k. m < k) ns → All (λ k. n < k) ns
All-below n m [] l h = tt
All-below n m (k ∷ ns) l h = (omega arith, All-below n m ns l h.1)

insert_once-IsIncreasing : (n : ℕ) (ns : List ℕ) → IsIncreasing ns → IsIncreasing (insert_once n ns)
insert_once-IsIncreasing n [] h = (tt, tt)
insert_once-IsIncreasing n (m ∷ ms) h = elim (Bool-cases (ltb n m)) [
  | inl less ↦ rw less ((ground arith, All-below n m ms (ground arith) h.0), h)
  | inr more ↦ rw more (elim (Bool-cases (eqb n m)) [
    | inl same ↦ rw same h
    | inr other ↦
        rw other
          (All-insert_once (λ k. m < k) n ms (ground arith) h.0, insert_once-IsIncreasing n ms h.1)
  ])
]

pub sorted_set-IsIncreasing : (ns : List ℕ) → IsIncreasing (sorted_set ns)
unfolding sorted_set
sorted_set-IsIncreasing [] = tt
sorted_set-IsIncreasing (n ∷ ns) =
    insert_once-IsIncreasing n (sorted_set ns) (sorted_set-IsIncreasing ns)

-- A file that a change set may hold.
pub record IsChangedFile (f : ChangedFile) : Type 0 where
  pub not_generated : is_generated f.path ≡ false
  pub lines : IsIncreasing f.added_lines
  pub points : IsIncreasing f.deletion_points

to_changed_file-IsChangedFile :
    (entry : NumstatEntry) (patch : Option PatchFile)
    → is_included entry ≡ true
    → IsChangedFile (to_changed_file entry patch)
unfolding to_changed_file
to_changed_file-IsChangedFile entry none h = record {
  not_generated = ground (arith, h);
  lines = tt;
  points = tt;
}
to_changed_file-IsChangedFile entry (some p) h = record {
  not_generated = ground (arith, h);
  lines = sorted_set-IsIncreasing p.added_lines;
  points = sorted_set-IsIncreasing p.deletion_points;
}

-- What a client may rely on.
pub record IsChanges (c : PullRequestChanges) : Type 0 where
  pub reason : (c.status ≡ available) ↔ (c.unavailable_reason ≡ none)
  pub there : c.status ≡ available → (s : ChangeSet) × (c.change_set ≡ some s)
  pub files :
      (s : ChangeSet)
      → c.change_set ≡ some s
      → All IsChangedFile s.files × (c.files_changed ≡ length s.files)

included-files :
    (patch : Dict PatchFile) (entries : List NumstatEntry)
    → All IsChangedFile (
        map
          (λ (e : NumstatEntry). to_changed_file e (get e.path patch))
          (filter is_included entries))
included-files patch [] = tt
included-files patch (e ∷ es) = elim (Bool-cases (is_included e)) [
  | inl fine ↦
      rw fine (to_changed_file-IsChangedFile e (get e.path patch) fine, included-files patch es)
  | inr odd ↦ rw odd (included-files patch es)
]

pub changes_of-IsChanges :
    (target base head : String) (entries : List NumstatEntry) (patch : Dict PatchFile)
    → IsChanges (changes_of target base head entries patch)
unfolding changes_of
changes_of-IsChanges target base head entries patch = record {
  reason = reasons (is_line_level (filter is_included entries));
  there = λ e. (_, refl);
  files = λ s e. subst Fine (some_inj _ s e) (included-files patch entries, refl);
}
  where
    Fine : ChangeSet → Type 0
    Fine s =
        All IsChangedFile s.files
        × ((changes_of target base head entries patch).files_changed ≡ length s.files)

    reasons :
        (b : Bool)
        → ((if b then available else unavailable) ≡ available)
          ↔ ((if b then none else some too_large) ≡ none)
    reasons true = ((λ e. refl), (λ e. refl))
    reasons false = ((λ e. absurd (cc)), (λ e. absurd (cc)))
