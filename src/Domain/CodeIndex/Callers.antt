-- ===== src/Domain/CodeIndex/Callers.antt =====
-- `callers_of`: the blast radius of a symbol, from the resolved calls into it.
use analysis_engine_service.Prelude.{
  ℕ, String, ◌≡◌, refl, sym, ap, ◌∙◌, subst, ◌↔◌, ◌⊎◌, inl, inr, ◌≢◌, true, false, ◌&&◌, &&-true,
  Option, none, some, List, [], ◌∷◌, ◌==◌, filter, Dict, get, put, values, Elem-values, values-put,
  Elem, All, All-Elem, some_inj, bucket, Bool-cases, Pairwise, Option-cases, Elem-filter,
  Elem-filter_of, eq_iff, arith,
}
use analysis_engine_service.Domain.CodeIndex.{
  Symbol, Edge, RepoIndex, is_calls, put_ids, build, get_symbol, call_sites_of, resolve_all,
  distinct, callers_of,
}
use analysis_engine_service.Domain.CodeIndex.Queries.{
  targets, queries-eq-scans, get_symbol-build, get-put_ids_sound, get-put_ids-none,
}

values-put_ids :
    (d : Dict Symbol) (ss : List Symbol) (s : Symbol)
    → Elem s (values (put_ids d ss))
    → Elem s ss ⊎ Elem s (values d)
unfolding put_ids
values-put_ids d [] s m = inr m
values-put_ids d (x ∷ ss) s m = elim (values-put_ids (put x.symbol_id x d) ss s m) [
  | inl k ↦ inl (inr k)
  | inr k ↦ elim (values-put x.symbol_id x s d k) [ inl e ↦ inl (inl e) | inr k' ↦ inr k' ]
]

distinct-Elem : (ss : List Symbol) (s : Symbol) → Elem s (distinct ss) → Elem s ss
unfolding distinct
distinct-Elem ss s m = elim (values-put_ids [] ss s m) [ inl k ↦ k | inr k ↦ absurd k ]

-- Each id of the list is kept.
Elem-distinct :
    (ss : List Symbol) (s : Symbol)
    → Elem s ss
    → (t : Symbol) × Elem t (distinct ss) × (t.symbol_id ≡ s.symbol_id)
unfolding distinct
Elem-distinct ss s m = elim (Option-cases (get s.symbol_id (put_ids [] ss))) [
  | inl e ↦ absurd (
      All-Elem (λ x. x.symbol_id ≢ s.symbol_id) ss s (get-put_ids-none s.symbol_id [] ss e).0 m
        refl)
  | inr found ↦ let (t, e) = found in (t, Elem-values s.symbol_id (put_ids [] ss) t e, sound t e)
]
  where
    sound : (t : Symbol) → get s.symbol_id (put_ids [] ss) ≡ some t → t.symbol_id ≡ s.symbol_id
    sound t e = elim (get-put_ids_sound s.symbol_id [] ss t e) [ inl r ↦ r.1 | inr n ↦ absurd (cc) ]

module _ (end : Edge → Option String) (d : Dict Symbol) where
  resolve_all-Elem :
      (es : List Edge) (s : Symbol)
      → Elem s (resolve_all end d es)
      → (e : Edge) × (k : String) × Elem e es × (end e ≡ some k) × (get k d ≡ some s)
  unfolding resolve_all
  resolve_all-Elem [] s m = absurd m
  resolve_all-Elem (e ∷ es) s m = step (end e) refl m (resolve_all-Elem es s)
    where
      Found : List Edge → Type 0
      Found es' = (e' : Edge) × (k : String) × Elem e' es' × (end e' ≡ some k) × (get k d ≡ some s)

      later : Found es → Found (e ∷ es)
      later (e', k, m', p, q) = (e', k, inr m', p, q)

      hit :
          (k : String) (o : Option Symbol)
          → get k d ≡ o
          → end e ≡ some k
          → Elem s (elim o [ none ↦ resolve_all end d es | some t ↦ t ∷ resolve_all end d es ])
          → (Elem s (resolve_all end d es) → Found es)
          → Found (e ∷ es)
      hit k none q p m' ih = later (ih m')
      hit k (some t) q p (inl same) ih = (e, k, inl refl, p, q ∙ ap some same)
      hit k (some t) q p (inr m') ih = later (ih m')

      step :
          (o : Option String)
          → end e ≡ o
          → Elem s (elim o [
            | none ↦ resolve_all end d es
            | some k ↦ elim (get k d) [
              | none ↦ resolve_all end d es
              | some t ↦ t ∷ resolve_all end d es
            ]
          ])
          → (Elem s (resolve_all end d es) → Found es)
          → Found (e ∷ es)
      step none p m' ih = later (ih m')
      step (some k) p m' ih = hit k (get k d) refl p m' ih

  Elem-resolve_all :
      (es : List Edge) (e : Edge) (k : String) (s : Symbol)
      → Elem e es
      → end e ≡ some k
      → get k d ≡ some s
      → Elem s (resolve_all end d es)
  unfolding resolve_all
  Elem-resolve_all [] e k s m p q = absurd m
  Elem-resolve_all (x ∷ es) e k s (inl same) p q =
      let p' : end x ≡ some k = ap end same ∙ p in ground arith
  Elem-resolve_all (x ∷ es) e k s (inr m) p q = ground (arith, Elem-resolve_all es e k s m p q)

-- No two symbols of the list have the same id.
abbrev pub HasDistinctIds : List Symbol → Type 0
HasDistinctIds ss = Pairwise (λ a b. a.symbol_id ≢ b.symbol_id) ss

abbrev IsKeyed : Dict Symbol → Type 0
IsKeyed d = All (λ p. p.1.symbol_id ≡ p.0) d × HasDistinctIds (values d)

values-put_ne :
    (k j : String) (v : Symbol) (d : Dict Symbol)
    → v.symbol_id ≢ j
    → All (λ s. j ≢ s.symbol_id) (values d)
    → All (λ s. j ≢ s.symbol_id) (values (put k v d))
values-put_ne k j v [] n h = (λ e. n (sym e), tt)
values-put_ne k j v ((i, w) ∷ d) n h = ground (arith, values-put_ne k j v d)

put-IsKeyed : (s : Symbol) (d : Dict Symbol) → IsKeyed d → IsKeyed (put s.symbol_id s d)
put-IsKeyed s [] h = ((refl, tt), (tt, tt))
put-IsKeyed s ((j, w) ∷ d) h = elim (Bool-cases (j == s.symbol_id)) [
  | inl e ↦ rw e (keyed ((eq_iff j s.symbol_id).0 e))
  | inr e ↦
      let (k, ds) = put-IsKeyed s d (h.0.1, h.1.1) in
      rw e ((h.0.0, k), (values-put_ne s.symbol_id w.symbol_id s d (apart e) h.1.0, ds))
]
  where
    keyed : j ≡ s.symbol_id → IsKeyed ((j, s) ∷ d)
    keyed e = (
      (sym e, h.0.1),
      (subst (λ z. All (λ b. z ≢ b.symbol_id) (values d)) (h.0.0 ∙ e) h.1.0, h.1.1),
    )

    apart : (j == s.symbol_id) ≡ false → s.symbol_id ≢ w.symbol_id
    apart e = ground (arith, h.0.0, eq_iff j s.symbol_id)

put_ids-IsKeyed : (d : Dict Symbol) (ss : List Symbol) → IsKeyed d → IsKeyed (put_ids d ss)
unfolding put_ids
put_ids-IsKeyed d [] h = h
put_ids-IsKeyed d (s ∷ ss) h = put_ids-IsKeyed (put s.symbol_id s d) ss (put-IsKeyed s d h)

distinct-HasDistinctIds : (ss : List Symbol) → HasDistinctIds (distinct ss)
unfolding distinct
distinct-HasDistinctIds ss = (put_ids-IsKeyed [] ss (tt, tt)).1

module _ (symbols : List Symbol) (edges : List Edge) (i f : ℕ) (k : String) where
  -- `c` makes a resolved call to `k`, as the index knows it.
  abbrev pub Calls : Symbol → Type 0
  Calls c =
      (e : Edge) × Elem e edges
      × (is_calls e ≡ true)
      × (targets k e ≡ true)
      × (get_symbol (build symbols edges i f) e.source_symbol_id ≡ some c)

  sites : List Edge
  sites = call_sites_of (build symbols edges i f) k

  Elem-sites : (e : Edge) → Elem e sites → Elem e edges × (is_calls e ≡ true) × (targets k e ≡ true)
  unfolding sites
  Elem-sites e m =
      let scan = (queries-eq-scans symbols edges i f k).3 in
      let (m', h) = Elem-filter (λ x. targets k x && is_calls x) e edges (rw scan at m) in
      let (t, c) = &&-true (targets k e) (is_calls e) h in (m', c, t)

  callers_of-Calls : (c : Symbol) → Elem c (callers_of (build symbols edges i f) k) → Calls c
  unfolding callers_of get_symbol call_sites_of sites
  callers_of-Calls c m =
      let index = build symbols edges i f in
      let (e, j, m', p, q) =
        resolve_all-Elem (λ x. some x.source_symbol_id) index.by_id (call_sites_of index k) c
          (distinct-Elem _ c m) in
      let (m'', is, t) = Elem-sites e m' in (e, m'', is, t, ground arith)

  Calls-callers_of : (c : Symbol) → Calls c → Elem c (callers_of (build symbols edges i f) k)
  unfolding callers_of get_symbol call_sites_of sites
  Calls-callers_of c (e, m, is, t, q) =
      let index = build symbols edges i f in
      let scan = (queries-eq-scans symbols edges i f k).3 in
      let both : (targets k e && is_calls e) ≡ true = ground arith in
      let m' : Elem e (call_sites_of index k) =
        rw scan (Elem-filter_of (λ x. targets k x && is_calls x) e edges m both) in
      let in_all =
        Elem-resolve_all (λ x. some x.source_symbol_id) index.by_id (call_sites_of index k) e
          e.source_symbol_id c m' refl q in
      let (t', m'', same) = Elem-distinct _ c in_all in
      subst (λ z. Elem z (callers_of index k)) (agree t' m'' same) m''
    where
      index' : RepoIndex
      index' = build symbols edges i f

      id_of : (x : Symbol) → Elem x (callers_of index' k) → get_symbol index' x.symbol_id ≡ some x
      id_of x mx =
          let (e', m', is', t', q') = callers_of-Calls x mx in
          subst (λ z. get_symbol index' z ≡ some x)
            (sym ((get_symbol-build symbols edges i f e'.source_symbol_id).0 x q').1) q'

      agree : (x : Symbol) → Elem x (callers_of index' k) → x.symbol_id ≡ c.symbol_id → x ≡ c
      agree x mx same =
          let cid = ((get_symbol-build symbols edges i f e.source_symbol_id).0 c q).1 in
          some_inj x c (sym (id_of x mx) ∙ ap (get_symbol index') (same ∙ cid) ∙ q)

  -- `callers_of` lists exactly the symbols that make a resolved call to `k`, no two with one id.
  pub callers_of_iff :
      ((c : Symbol) → Elem c (callers_of (build symbols edges i f) k) ↔ Calls c)
      × HasDistinctIds (callers_of (build symbols edges i f) k)
  unfolding callers_of
  callers_of_iff = (
    λ c. (callers_of-Calls c, Calls-callers_of c),
    distinct-HasDistinctIds (
        resolve_all (λ e. some e.source_symbol_id) (build symbols edges i f).by_id
          (filter is_calls (bucket k (build symbols edges i f).incoming))),
  )
