-- ===== src/Domain/CodeIndex/Queries.antt =====
-- The lookup tables of `RepoIndex` against plain scans of its two lists.
use analysis_engine_service.Prelude.{
  ℕ, String, ◌≡◌, refl, sym, ap, ◌∙◌, ◌⊎◌, inl, inr, ◌≢◌, Bool, false, not, ◌&&◌, Option, none,
  some, List, [], ◌∷◌, ◌++◌, append-nil, ◌==◌, if◌then◌else◌, filter, Dict, get, put, append-if,
  push, bucket, Bool-cases, bucket-push, bucket-push_all, Elem, All, get-put, eq_iff, arith,
}
use analysis_engine_service.Domain.CodeIndex.{
  Symbol, Edge, is_calls, put_ids, push_incoming, build, get_symbol, find_by_name, symbols_in_file,
  callees_of, call_sites_of, calls_by_name,
}

-- The edge's resolved target is the symbol `k`.
abbrev pub targets : String → Edge → Bool
targets k e = elim e.target_symbol_id [ none ↦ false | some t ↦ not (t == "") && t == k ]

pub bucket-push_incoming :
    (k : String) (d : Dict (List Edge)) (es : List Edge)
    → bucket k (push_incoming d es) ≡ bucket k d ++ filter (targets k) es
unfolding push_incoming
bucket-push_incoming k d [] = sym (append-nil (bucket k d))
bucket-push_incoming k d (e ∷ es) = step e.target_symbol_id (λ d'. bucket-push_incoming k d' es)
  where
    rest : List Edge
    rest = filter (targets k) es

    step :
        (o : Option String)
        → ((d' : Dict (List Edge)) → bucket k (push_incoming d' es) ≡ bucket k d' ++ rest)
        → bucket k
            (push_incoming (elim o [ none ↦ d | some t ↦ if t == "" then d else push t e d ]) es)
          ≡ bucket k d
            ++ (if elim o [ none ↦ false | some t ↦ not (t == "") && t == k ]
                then e ∷ rest
                else rest)
    step none ih = ih d
    step (some t) ih = elim (Bool-cases (t == "")) [
      | inl empty ↦ rw (empty, if◌then◌else◌) (ih d)
      | inr full ↦
          rw (full, if◌then◌else◌)
            (ih (push t e d)
              ∙ ap (λ b. b ++ rest) (bucket-push t k e d)
              ∙ append-if (t == k) (bucket k d) e rest)
    ]

filter-filter :
    (p q : Edge → Bool) (es : List Edge) → filter p (filter q es) ≡ filter (λ e. q e && p e) es
filter-filter p q [] = refl
filter-filter p q (e ∷ es) = ground (arith, filter-filter p q es)

-- Every list query returns what a scan of the index's own list finds, in the order of that list:
-- the symbols of a file, those of a name, the calls out of a symbol, the resolved calls into it and
-- the calls of a name.
pub queries-eq-scans :
    (symbols : List Symbol) (edges : List Edge) (i f : ℕ) (k : String)
    → (symbols_in_file (build symbols edges i f) k ≡ filter (λ s. s.file_path == k) symbols)
      × (find_by_name (build symbols edges i f) k ≡ filter (λ s. s.name == k) symbols)
      × (callees_of (build symbols edges i f) k
          ≡ filter (λ e. e.source_symbol_id == k && is_calls e) edges)
      × (call_sites_of (build symbols edges i f) k ≡ filter (λ e. targets k e && is_calls e) edges)
      × (calls_by_name (build symbols edges i f) k
          ≡ filter (λ e. is_calls e && e.target_name == k) edges)
unfolding build symbols_in_file find_by_name callees_of call_sites_of calls_by_name
queries-eq-scans symbols edges i f k = (
  bucket-push_all (λ s. s.file_path) k [] symbols,
  bucket-push_all (λ s. s.name) k [] symbols,
  ap (filter is_calls) (bucket-push_all (λ e. e.source_symbol_id) k [] edges)
      ∙ filter-filter is_calls (λ e. e.source_symbol_id == k) edges,
  ap (filter is_calls) (bucket-push_incoming k [] edges) ∙ filter-filter is_calls (targets k) edges,
  bucket-push_all (λ e. e.target_name) k [] (filter is_calls edges)
      ∙ filter-filter (λ e. e.target_name == k) is_calls edges,
)

-- What a table by id holds is a symbol with that id.
pub get-put_ids_sound :
    (k : String) (d : Dict Symbol) (ss : List Symbol) (s : Symbol)
    → get k (put_ids d ss) ≡ some s
    → (Elem s ss × (s.symbol_id ≡ k)) ⊎ (get k d ≡ some s)
unfolding put_ids
get-put_ids_sound k d [] s h = inr h
get-put_ids_sound k d (x ∷ ss) s h = ground (
  arith,
  get-put_ids_sound k (put x.symbol_id x d) ss s h,
  get-put x.symbol_id k x d,
  eq_iff x.symbol_id k,
)

-- A symbol in the list has its id in the table.
pub get-put_ids-none :
    (k : String) (d : Dict Symbol) (ss : List Symbol)
    → get k (put_ids d ss) ≡ none
    → All (λ s. s.symbol_id ≢ k) ss × (get k d ≡ none)
unfolding put_ids
get-put_ids-none k d [] h = (tt, h)
get-put_ids-none k d (x ∷ ss) h =
    let (rest, here) = get-put_ids-none k (put x.symbol_id x d) ss h in
    (
      (ground (arith, here, get-put x.symbol_id k x d, eq_iff x.symbol_id k), rest),
      ground (arith, here, get-put x.symbol_id k x d, eq_iff x.symbol_id k),
    )

-- `get` finds a symbol of the list with that id, and finds none only if the list has none.
pub get_symbol-build :
    (symbols : List Symbol) (edges : List Edge) (i f : ℕ) (k : String)
    → ((s : Symbol)
        → get_symbol (build symbols edges i f) k ≡ some s
        → Elem s symbols × (s.symbol_id ≡ k))
      × (get_symbol (build symbols edges i f) k ≡ none → All (λ s. s.symbol_id ≢ k) symbols)
unfolding build get_symbol
get_symbol-build symbols edges i f k = (
  λ s h. elim (get-put_ids_sound k [] symbols s h) [ inl r ↦ r | inr e ↦ absurd (cc) ],
  λ h. (get-put_ids-none k [] symbols h).0,
)
