-- ===== src/Diffing/ChangeMapper/Marks.antt =====
-- `mark_findings` against what it means for a finding to be on a changed line.
use Prim.Native.Nat.add
use native.Mathlib.Nat.{add_assoc, add-zero}
use analysis_engine_service.Prelude.{
  ℕ, zero, suc, ◌+◌, ◌-◌, ◌≤◌, ◌<◌, max, String, ◌≡◌, refl, sym, ap, ◌∙◌, subst, ◌↔◌, ◌⊎◌, inl, inr,
  ◌≢◌, Bool, true, false, not, ◌||◌, Option, none, some, or_else, List, [], ◌∷◌, ◌++◌, append-nil,
  append_assoc, if◌then◌else◌, eqb, eqb_iff, Bool-cases, any, any-Elem, Elem-any, map, count, Dict,
  get, put, get-put, get-put_self, Elem, All, All-Elem, Pairwise, Pointwise, Pointwise-map, eq_iff,
  arith,
}
use analysis_engine_service.Domain.Finding.{Finding, MetaValue, flag}
use analysis_engine_service.Domain.ChangeSet.{ChangedFile, ChangeSet}
use analysis_engine_service.Diffing.ChangeMapper.{
  on_changed_line, is_deleted, has_line, range_from, changed_by_path, is_empty, last_line, touches,
  is_on_changed_line, mark, mark_loop, mark_findings,
}

-- The finding's lines meet the file's added lines. Without a line it is enough that the content
-- of the file changed.
abbrev pub Touches : Finding → ChangedFile → Type 0
Touches finding f = elim finding.line [
  | none ↦ (f.added_lines ≢ []) ⊎ (f.deletion_points ≢ [])
  | some line ↦
      (n : ℕ) × (line ≤ n) × (n ≤ max line (or_else finding.end_line 0)) × Elem n f.added_lines
]

-- The finding lies on a line that the change set changed.
abbrev pub IsTouched : ChangeSet → Finding → Type 0
IsTouched c finding =
    (f : ChangedFile) × Elem f c.files
    × (is_deleted f ≡ false)
    × (f.path ≡ finding.file_path)
    × Touches finding f

last_line-eq_max : (line : ℕ) (end : Option ℕ) → last_line line end ≡ max line (or_else end 0)
unfolding last_line
last_line-eq_max line none = omega arith
last_line-eq_max line (some end) = ground arith

range_from-Elem : (start n x : ℕ) → Elem x (range_from start n) → (start ≤ x) × (x < start + n)
range_from-Elem start zero x m = absurd m
range_from-Elem start (suc n) x (inl e) = omega arith
range_from-Elem start (suc n) x (inr m) = omega (arith, range_from-Elem (start + 1) n x m)

Elem-range_from : (start n x : ℕ) → start ≤ x → x < start + n → Elem x (range_from start n)
Elem-range_from start zero x h k = absurd (omega arith)
Elem-range_from start (suc n) x h k = elim (Bool-cases (eqb start x)) [
  | inl e ↦ inl ((eqb_iff start x).0 e)
  | inr e ↦ inr (Elem-range_from (start + 1) n x (ground arith) (omega arith))
]

has_line_iff : (lines : List ℕ) (n : ℕ) → (has_line lines n ≡ true) ↔ Elem n lines
has_line_iff lines n = (
  λ h.
      let (m, k, e) = any-Elem (eqb n) lines h in
      subst (λ z. Elem z lines) (sym ((eqb_iff n m).0 e)) k,
  λ m. Elem-any (eqb n) n lines m ((eqb_iff n n).1 refl),
)

any-range_iff :
    (lines : List ℕ) (line end : ℕ)
    → line ≤ end
    → (any (has_line lines) (range_from line (end + 1 - line)) ≡ true)
      ↔ ((n : ℕ) × (line ≤ n) × (n ≤ end) × Elem n lines)
any-range_iff lines line end le = (
  λ h.
      let (n, m, k) = any-Elem (has_line lines) (range_from line (end + 1 - line)) h in
      let (lo, hi) = range_from-Elem line (end + 1 - line) n m in
      (n, lo, omega arith, (has_line_iff lines n).0 k),
  λ (n, lo, hi, m).
      Elem-any (has_line lines) n (range_from line (end + 1 - line))
        (Elem-range_from line (end + 1 - line) n lo (omega arith)) ((has_line_iff lines n).1 m),
)

is_empty_iff :
    (xs ys : List ℕ) → ((not (is_empty xs) || not (is_empty ys)) ≡ true) ↔ ((xs ≢ []) ⊎ (ys ≢ []))
is_empty_iff [] [] = (λ h. absurd (cc), λ h. ground arith)
is_empty_iff [] (y ∷ ys) = (λ h. inr (cc), λ h. refl)
is_empty_iff (x ∷ xs) ys = (λ h. inl (cc), λ h. refl)

touches_iff : (finding : Finding) (f : ChangedFile) → (touches finding f ≡ true) ↔ Touches finding f
unfolding touches
touches_iff finding f = at finding.line
  where
    end : ℕ → ℕ
    end line = max line (or_else finding.end_line 0)

    at :
        (o : Option ℕ)
        → (elim o [
          | none ↦ not (is_empty f.added_lines) || not (is_empty f.deletion_points)
          | some line ↦
              any
                (has_line f.added_lines)
                (range_from line (last_line line finding.end_line + 1 - line))
        ]
            ≡ true)
          ↔ elim o [
            | none ↦ (f.added_lines ≢ []) ⊎ (f.deletion_points ≢ [])
            | some line ↦ (n : ℕ) × (line ≤ n) × (n ≤ end line) × Elem n f.added_lines
          ]
    at none = is_empty_iff f.added_lines f.deletion_points
    at (some line) = rw last_line-eq_max (any-range_iff f.added_lines line (end line) (omega arith))

-- The table of changed files.
get-changed_by_path :
    (k : String) (d : Dict ChangedFile) (fs : List ChangedFile) (f : ChangedFile)
    → get k (changed_by_path d fs) ≡ some f
    → (Elem f fs × (is_deleted f ≡ false) × (f.path ≡ k)) ⊎ (get k d ≡ some f)
unfolding changed_by_path
get-changed_by_path k d [] f h = inr h
get-changed_by_path k d (x ∷ fs) f h = ground (
  arith,
  get-changed_by_path k (if is_deleted x then d else put x.path x d) fs f h,
  get-put x.path k x d,
  eq_iff x.path k,
)

get-changed_by_path-none :
    (k : String) (d : Dict ChangedFile) (fs : List ChangedFile)
    → get k (changed_by_path d fs) ≡ none
    → All (λ f. is_deleted f ≡ false → f.path ≢ k) fs × (get k d ≡ none)
unfolding changed_by_path
get-changed_by_path-none k d [] h = (tt, h)
get-changed_by_path-none k d (x ∷ fs) h =
    let (rest, here) =
      get-changed_by_path-none k (if is_deleted x then d else put x.path x d) fs h in
    (
      (λ live. ground (arith, here, get-put x.path k x d, eq_iff x.path k), rest),
      ground (arith, here, get-put x.path k x d, eq_iff x.path k),
    )

-- The files of a change set have different paths, as git reports them.
abbrev pub HasDistinctPaths : List ChangedFile → Type 0
HasDistinctPaths fs = Pairwise (λ f g. f.path ≢ g.path) fs

eq_of_path :
    (fs : List ChangedFile) (f g : ChangedFile)
    → HasDistinctPaths fs
    → Elem f fs
    → Elem g fs
    → f.path ≡ g.path
    → f ≡ g
eq_of_path [] f g h m n e = absurd m
eq_of_path (x ∷ fs) f g h (inl p) (inl q) e = sym p ∙ q
eq_of_path (x ∷ fs) f g h (inl p) (inr n) e =
    absurd (All-Elem (λ y. x.path ≢ y.path) fs g h.0 n (ap (λ (y : ChangedFile). y.path) p ∙ e))
eq_of_path (x ∷ fs) f g h (inr m) (inl q) e =
    absurd (All-Elem (λ y. x.path ≢ y.path) fs f h.0 m (ap (λ (y : ChangedFile). y.path) q ∙ sym e))
eq_of_path (x ∷ fs) f g h (inr m) (inr n) e = eq_of_path fs f g h.1 m n e

module _ (c : ChangeSet) (distinct : HasDistinctPaths c.files) where
  is_on-iff_IsTouched :
      (finding : Finding)
      → (is_on_changed_line finding (changed_by_path [] c.files) ≡ true) ↔ IsTouched c finding
  unfolding is_on_changed_line
  is_on-iff_IsTouched finding = at (get finding.file_path (changed_by_path [] c.files)) refl
    where
      k : String
      k = finding.file_path

      at :
          (o : Option ChangedFile)
          → get k (changed_by_path [] c.files) ≡ o
          → (elim o [ none ↦ false | some f ↦ touches finding f ] ≡ true) ↔ IsTouched c finding
      at none e = (
        λ h. absurd (cc),
        λ (f, m, live, same, _). absurd (
            All-Elem (λ f. is_deleted f ≡ false → f.path ≢ k) c.files f
              (get-changed_by_path-none k [] c.files e).0 m live same),
      )
      at (some f) e = elim (get-changed_by_path k [] c.files f e) [
        | inl (m, live, same) ↦ (
          λ h. (f, m, live, same, (touches_iff finding f).0 h),
          λ (g, n, _, same', t).
              (touches_iff finding f).1 (
                subst (Touches finding) (eq_of_path c.files g f distinct n m (same' ∙ sym same)) t),
        )
        | inr absent ↦ absurd (cc)
      ]

mark_loop-eq-map :
    (d : Dict ChangedFile) (marked : List Finding) (n : ℕ) (fs : List Finding)
    → mark_loop d marked n fs ≡ (
      marked ++ map (λ f. mark (is_on_changed_line f d) f) fs,
      n + count (λ f. is_on_changed_line f d) fs,
    )
unfolding mark_loop
mark_loop-eq-map d marked n [] = cc (append-nil marked, add-zero n)
mark_loop-eq-map d marked n (f ∷ fs) =
    let on = is_on_changed_line f d in
    mark_loop-eq-map d (marked ++ mark on f ∷ []) (n + (if on then 1 else 0)) fs
    ∙ cc (
      append_assoc marked (mark on f ∷ []) (map (λ g. mark (is_on_changed_line g d) g) fs),
      add_assoc n (if on then 1 else 0) (count (λ g. is_on_changed_line g d) fs),
    )

abbrev pub tag_of : Option MetaValue → Bool
tag_of (some (flag b)) = b
tag_of _ = false

-- The finding is tagged as being on a changed line.
abbrev pub is_marked : Finding → Bool
is_marked f = tag_of (get on_changed_line f.metadata)

is_marked-mark : (b : Bool) (f : Finding) → is_marked (mark b f) ≡ b
unfolding mark
is_marked-mark b f = ap tag_of (get-put_self on_changed_line (flag b) f.metadata)

count-map-mark :
    (d : Dict ChangedFile) (fs : List Finding)
    → count is_marked (map (λ f. mark (is_on_changed_line f d) f) fs)
      ≡ count (λ f. is_on_changed_line f d) fs
count-map-mark d [] = refl
count-map-mark d (f ∷ fs) = cc (is_marked-mark (is_on_changed_line f d) f, count-map-mark d fs)

-- `g` is `f` with the tag `b`: nothing else is changed, in the metadata neither.
pub record IsTagged (b : Bool) (f g : Finding) : Type 0 where
  pub same : g ≡ record f { metadata = g.metadata }
  pub tag : get on_changed_line g.metadata ≡ some (flag b)
  pub others : (k : String) → on_changed_line ≢ k → get k g.metadata ≡ get k f.metadata

mark-IsTagged : (b : Bool) (f : Finding) → IsTagged b f (mark b f)
unfolding mark
mark-IsTagged b f = record {
  same = refl;
  tag = get-put_self on_changed_line (flag b) f.metadata;
  others = λ k other.
      ground (arith, get-put on_changed_line k (flag b) f.metadata, eq_iff on_changed_line k);
}

-- Where no two files have one path: every finding stays in its place and keeps all but its tag, in its
-- metadata too, the
-- tag is set exactly on the findings on changed lines, and the number returned counts those.
pub mark_findings_lem :
    (findings : List Finding) (c : ChangeSet)
    → HasDistinctPaths c.files
    → Pointwise
        (λ f g. (b : Bool) × IsTagged b f g × ((b ≡ true) ↔ IsTouched c f))
        findings
        (mark_findings findings c).0
      × ((mark_findings findings c).1 ≡ count is_marked (mark_findings findings c).0)
unfolding mark_findings
mark_findings_lem findings c distinct =
    rw (mark_loop-eq-map (changed_by_path [] c.files) [] 0 findings) (
      Pointwise-map _ _ findings tagged,
      add.zero _ ∙ sym (count-map-mark (changed_by_path [] c.files) findings),
    )
  where
    d : Dict ChangedFile
    d = changed_by_path [] c.files

    tagged :
        (f : Finding)
        → (b : Bool) × IsTagged b f (mark (is_on_changed_line f d) f) × ((b ≡ true) ↔ IsTouched c f)
    tagged f = (
      is_on_changed_line f d,
      mark-IsTagged (is_on_changed_line f d) f,
      is_on-iff_IsTouched c distinct f,
    )
