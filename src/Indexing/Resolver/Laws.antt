-- ===== src/Indexing/Resolver/Laws.antt =====
-- A call is linked exactly when its name is unique in the repository.
use analysis_engine_service.Prelude.{
  String, ◌≡◌, refl, sym, ap, ◌∙◌, ◌↔◌, inl, inr, Bool, true, false, none, some, List, [], ◌∷◌,
  ◌==◌, filter, count, length, length-filter, Elem, Elem-filter, Elem-filter_of, bucket-push_all,
  bucket, push_all, eq_iff, Dict, arith, Pointwise, Pointwise-map, some_inj,
}
use analysis_engine_service.Domain.CodeIndex.{Symbol, Edge, is_calls}
use analysis_engine_service.Indexing.Resolver.{link, resolve_edge, resolve_edge_targets}

-- `s` is the only symbol of the repository that has the name `n`.
abbrev pub IsOnly : List Symbol → String → Symbol → Type 0
IsOnly symbols n s = (count (λ x. x.name == n) symbols ≡ 1) × Elem s symbols × (s.name ≡ n)

-- What resolving may do to the edge `e` of a repository with these symbols.
pub record IsResolved (symbols : List Symbol) (e r : Edge) : Type 0 where
  pub only_target : r ≡ record e { target_symbol_id = r.target_symbol_id }
  pub keeps_other : is_calls e ≡ false → r ≡ e
  pub links :
      is_calls e ≡ true
      → (s : Symbol) → IsOnly symbols e.target_name s
      → r.target_symbol_id ≡ some s.symbol_id
  pub links_only :
      (t : String)
      → e.target_symbol_id ≡ none
      → r.target_symbol_id ≡ some t
      → (s : Symbol) × IsOnly symbols e.target_name s × (s.symbol_id ≡ t)

singleton_of : (xs : List Symbol) (s : Symbol) → length xs ≡ 1 → Elem s xs → xs ≡ s ∷ []
singleton_of [] s h m = absurd m
singleton_of (x ∷ []) s h (inl e) = ap (λ y. y ∷ []) e
singleton_of (x ∷ []) s h (inr m) = absurd m
singleton_of (x ∷ y ∷ ys) s h m = absurd (omega arith)

link-none :
    (e : Edge) (ss : List Symbol) (t : String)
    → e.target_symbol_id ≡ none
    → (link e ss).target_symbol_id ≡ some t
    → (s : Symbol) × (ss ≡ s ∷ []) × (s.symbol_id ≡ t)
unfolding link
link-none e [] t h k = absurd (cc)
link-none e (s ∷ []) t h k = (s, refl, some_inj s.symbol_id t k)
link-none e (s ∷ x ∷ xs) t h k = absurd (cc)

link-only_target :
    (e : Edge) (ss : List Symbol)
    → link e ss ≡ record e { target_symbol_id = (link e ss).target_symbol_id }
unfolding link
link-only_target e [] = refl
link-only_target e (s ∷ []) = refl
link-only_target e (s ∷ x ∷ xs) = refl

module _ (symbols : List Symbol) (e : Edge) where
  abbrev table : Dict (List Symbol)
  table = push_all (λ s. s.name) [] symbols

  IsOnly-iff_bucket :
      (s : Symbol) → IsOnly symbols e.target_name s ↔ (bucket e.target_name table ≡ s ∷ [])
  IsOnly-iff_bucket s = (
    λ h.
        scan
        ∙ singleton_of (filter named symbols) s (length-filter named symbols ∙ h.0)
            (Elem-filter_of named s symbols h.1 ((eq_iff s.name e.target_name).1 h.2)),
    λ h.
        let one : filter named symbols ≡ s ∷ [] = sym scan ∙ h in
        let (m, q) = Elem-filter named s symbols (rw one (inl refl)) in
        (sym (length-filter named symbols) ∙ ap length one, m, (eq_iff s.name e.target_name).0 q),
  )
    where
      named : Symbol → Bool
      named x = x.name == e.target_name

      scan : bucket e.target_name table ≡ filter named symbols
      scan = bucket-push_all (λ x. x.name) e.target_name [] symbols

  resolve_edge-IsResolved : IsResolved symbols e (resolve_edge table e)
  unfolding resolve_edge link
  resolve_edge-IsResolved = record {
    only_target = ground (arith, link-only_target e (bucket e.target_name table));
    keeps_other = λ h. rw h;
    links = λ h s only. rw (h, (IsOnly-iff_bucket s).0 only);
    links_only = λ t none_yet h. linked t none_yet h;
  }
    where
      linked :
          (t : String)
          → e.target_symbol_id ≡ none
          → (resolve_edge table e).target_symbol_id ≡ some t
          → (s : Symbol) × IsOnly symbols e.target_name s × (s.symbol_id ≡ t)
      linked t none_yet h =
          let got : (link e (bucket e.target_name table)).target_symbol_id ≡ some t =
            ground arith in
          let (s, one, same) = link-none e (bucket e.target_name table) t none_yet got in
          (s, (IsOnly-iff_bucket s).1 one, same)

-- Each edge stays in its place and differs from before at most in its target. An edge that is no
-- call is unchanged; a call whose name exactly one symbol of the repository has is linked to that
-- symbol; and an edge that had no target gets one only in that way.
pub resolve_edge_targets-IsResolved :
    (symbols : List Symbol) (edges : List Edge)
    → Pointwise (IsResolved symbols) edges (resolve_edge_targets symbols edges)
unfolding resolve_edge_targets
resolve_edge_targets-IsResolved symbols edges =
    Pointwise-map (IsResolved symbols) (resolve_edge (push_all (λ s. s.name) [] symbols)) edges
      (resolve_edge-IsResolved symbols)
