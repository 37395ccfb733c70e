-- ===== src/Diffing/ChangeMapper/Symbols.antt =====
-- `changed_symbols`: the innermost symbols around the changed lines.
use analysis_engine_service.Prelude.{
  ℕ, String, ◌≡◌, refl, sym, ◌∙◌, subst, ◌⊎◌, inl, inr, Bool, true, false, some, List, [], ◌∷◌,
  ◌==◌, if◌then◌else◌, filter, Elem-filter, Elem-filter_of, Dict, get, put, get-put, values,
  values-put, Elem, All, Bool-cases, eq_iff, arith,
}
use analysis_engine_service.Domain.CodeIndex.{Symbol, contains_line, is_tighter}
use analysis_engine_service.Diffing.ChangeMapper.{innermost, find_at, find_lines}

-- `s` contains the line, and no symbol of the list that contains it is tighter.
abbrev pub IsInnermost : List Symbol → ℕ → Symbol → Type 0
IsInnermost symbols line s =
    Elem s symbols
    × (contains_line s line ≡ true)
    × All (λ t. contains_line t line ≡ true → is_tighter t s ≡ false) symbols

innermost-Elem : (best : Symbol) (ss : List Symbol) → Elem (innermost best ss) (best ∷ ss)
unfolding innermost
innermost-Elem best [] = inl refl
innermost-Elem best (s ∷ ss) =
    ground (arith, innermost-Elem (if is_tighter s best then s else best) ss)

innermost-least :
    (best : Symbol) (ss : List Symbol)
    → (is_tighter best (innermost best ss) ≡ false)
      × All (λ t. is_tighter t (innermost best ss) ≡ false) ss
unfolding innermost
innermost-least best [] = (ground arith, tt)
innermost-least best (s ∷ ss) =
    let next = if is_tighter s best then s else best in
    let (h, rest) = innermost-least next ss in (ground arith, (ground arith, rest))

filter-All :
    (p : Symbol → Bool) (P : Symbol → Type 0) (ss : List Symbol)
    → All P (filter p ss)
    → All (λ t. p t ≡ true → P t) ss
filter-All p P [] h = tt
filter-All p P (s ∷ ss) h = ground (arith, filter-All p P ss)

-- What one line adds: the innermost symbol of the file around it.
innermost_of_filter :
    (symbols : List Symbol) (line : ℕ) (s : Symbol) (ss : List Symbol)
    → filter (λ t. contains_line t line) symbols ≡ s ∷ ss
    → IsInnermost symbols line (innermost s ss)
innermost_of_filter symbols line s ss e =
    let (m, h) =
      Elem-filter (λ t. contains_line t line) (innermost s ss) symbols
        (subst (Elem (innermost s ss)) (sym e) (innermost-Elem s ss)) in
    (
      m,
      h,
      filter-All (λ t. contains_line t line) (λ t. is_tighter t (innermost s ss) ≡ false) symbols
          (subst (All (λ t. is_tighter t (innermost s ss) ≡ false)) (sym e) (innermost-least s ss)),
    )

-- The table holds a symbol with this id, under this id.
abbrev pub Has : Dict Symbol → String → Type 0
Has d k = (s : Symbol) × (get k d ≡ some s) × (s.symbol_id ≡ k)

Has-put : (s : Symbol) (d : Dict Symbol) → Has (put s.symbol_id s d) s.symbol_id
Has-put s d =
    (s, ground (arith, get-put s.symbol_id s.symbol_id s d, eq_iff s.symbol_id s.symbol_id), refl)

put-Has : (s : Symbol) (d : Dict Symbol) (k : String) → Has d k → Has (put s.symbol_id s d) k
put-Has s d k h = elim (Bool-cases (s.symbol_id == k)) [
  | inl e ↦ (s, get-put s.symbol_id k s d ∙ rw e, (eq_iff s.symbol_id k).0 e)
  | inr e ↦ (h.0, get-put s.symbol_id k s d ∙ rw e h.1, h.2)
]

module _ (symbols : List Symbol) (line : ℕ) (found : Dict Symbol) where
  -- What `find_at` does, by what the list holds at the line.
  find_at-cases :
      ((filter (λ t. contains_line t line) symbols ≡ []) × (find_at symbols line found ≡ found))
      ⊎ ((s : Symbol) × IsInnermost symbols line s
          × (find_at symbols line found ≡ put s.symbol_id s found))
  unfolding find_at
  find_at-cases = at (filter (λ t. contains_line t line) symbols) refl
    where
      at :
          (l : List Symbol)
          → filter (λ t. contains_line t line) symbols ≡ l
          → ((l ≡ [])
              × (elim l [
                | [] ↦ found
                | s ∷ ss ↦ put (innermost s ss).symbol_id (innermost s ss) found
              ]
                  ≡ found))
            ⊎ ((s : Symbol) × IsInnermost symbols line s
                × (elim l [
                  | [] ↦ found
                  | s ∷ ss ↦ put (innermost s ss).symbol_id (innermost s ss) found
                ]
                    ≡ put s.symbol_id s found))
      at [] e = inl (refl, refl)
      at (s ∷ ss) e = inr (innermost s ss, innermost_of_filter symbols line s ss e, refl)

  find_at-All :
      (P : Symbol → Type 0)
      → ((s : Symbol) → Elem s (values found) → P s)
      → ((s : Symbol) → IsInnermost symbols line s → P s)
      → (s : Symbol) → Elem s (values (find_at symbols line found))
      → P s
  find_at-All P old new s m = elim find_at-cases [
    | inl (_, e) ↦ old s (rw e at m)
    | inr (t, inner, e) ↦ elim (values-put t.symbol_id t s found (rw e at m)) [
      | inl same ↦ subst P same (new t inner)
      | inr k ↦ old s k
    ]
  ]

  find_at-Has : (k : String) → Has found k → Has (find_at symbols line found) k
  find_at-Has k h = elim find_at-cases [
    | inl (_, e) ↦ rw e h
    | inr (t, inner, e) ↦ rw e (put-Has t found k h)
  ]

  find_at-finds :
      (t : Symbol)
      → Elem t symbols
      → contains_line t line ≡ true
      → (s : Symbol) × IsInnermost symbols line s × Has (find_at symbols line found) s.symbol_id
  find_at-finds t m h = elim find_at-cases [
    | inl (none_there, _) ↦
        absurd
          (subst (Elem t) none_there (Elem-filter_of (λ x. contains_line x line) t symbols m h))
    | inr (s, inner, e) ↦ (s, inner, rw e (Has-put s found))
  ]

module _ (symbols : List Symbol) where
  pub find_lines-All :
      (P : Symbol → Type 0) (found : Dict Symbol) (lines : List ℕ)
      → ((s : Symbol) → Elem s (values found) → P s)
      → ((line : ℕ) (s : Symbol) → Elem line lines → IsInnermost symbols line s → P s)
      → (s : Symbol) → Elem s (values (find_lines symbols found lines))
      → P s
  unfolding find_lines
  find_lines-All P found [] old new s m = old s m
  find_lines-All P found (l ∷ ls) old new s m =
      find_lines-All P (find_at symbols l found) ls
        (find_at-All symbols l found P old (λ t. new l t (inl refl)))
        (λ line t k. new line t (inr k)) s m

  pub find_lines-Has :
      (k : String) (found : Dict Symbol) (lines : List ℕ)
      → Has found k
      → Has (find_lines symbols found lines) k
  unfolding find_lines
  find_lines-Has k found [] h = h
  find_lines-Has k found (l ∷ ls) h =
      find_lines-Has k (find_at symbols l found) ls (find_at-Has symbols l found k h)

  pub find_lines-finds :
      (t : Symbol) (line : ℕ) (found : Dict Symbol) (lines : List ℕ)
      → Elem t symbols
      → contains_line t line ≡ true
      → Elem line lines
      → (s : Symbol) × IsInnermost symbols line s × Has (find_lines symbols found lines) s.symbol_id
  unfolding find_lines
  find_lines-finds t line found [] m h k = absurd k
  find_lines-finds t line found (l ∷ ls) m h (inl e) =
      let (s, inner, has) =
        find_at-finds symbols l found t m (subst (λ z. contains_line t z ≡ true) (sym e) h) in
      (
        s,
        subst (λ z. IsInnermost symbols z s) e inner,
        find_lines-Has s.symbol_id (find_at symbols l found) ls has,
      )
  find_lines-finds t line found (l ∷ ls) m h (inr k) =
      find_lines-finds t line (find_at symbols l found) ls m h k
