-- ===== src/Indexing/Indexer/Owned.antt =====
-- Every edge of a file's index starts and ends where it says.
use analysis_engine_service.Prelude.{
  ◌+◌, some_inj, ◌≡◌, refl, String, Bool-cases, Option, none, some, inl, inr, ◌⊎◌, List, [], ◌∷◌,
  ◌++◌, All, All-append, Elem, Elem-append, Elem-append_left, Elem-append_right, if◌then◌else◌,
  ◌==◌,
}
use analysis_engine_service.Diffing.GeneratedFiles.{is_one_of}
use analysis_engine_service.Domain.CodeIndex.{Symbol, Edge, EdgeKind, calls, imports, contains}
use analysis_engine_service.Indexing.Indexer.{
  Node, Nodes, leaf, tree, LanguageSpec, last_of, symbol_for, callee_name, import_name,
  import_name_fields, edge_of, contains_edges, edges_named, import_edges, other_edges, visit,
  index_file,
}

-- The symbol with an id is in the list.
abbrev pub HasId : List Symbol → String → Type 0
HasId pool id = (s : Symbol) × Elem s pool × (s.symbol_id ≡ id)

-- The ends of an edge, by its kind: an import starts at the file, any other edge at a symbol; a
-- nested definition is a symbol, and the ends of the others are not known yet.
abbrev pub Ends : String → List Symbol → EdgeKind → String → Option String → Type 0
Ends file pool calls source target = HasId pool source × (target ≡ none)
Ends file pool imports source target = (source ≡ file) × (target ≡ none)
Ends file pool contains source target =
    HasId pool source × ((id : String) × (target ≡ some id) × HasId pool id)

abbrev pub IsOwned : String → List Symbol → Edge → Type 0
IsOwned file pool e =
    (e.file_path ≡ file) × Ends file pool e.kind e.source_symbol_id e.target_symbol_id

module _ (p q : List Symbol) (within : (s : Symbol) → Elem s p → Elem s q) where
  HasId-more : (id : String) → HasId p id → HasId q id
  HasId-more id (s, m, e) = (s, within s m, e)

  Ends-more :
      (file : String) (kind : EdgeKind) (source : String) (target : Option String)
      → Ends file p kind source target
      → Ends file q kind source target
  Ends-more file calls source target (h, t) = (HasId-more source h, t)
  Ends-more file imports source target h = h
  Ends-more file contains source target (h, (id, t, k)) =
      (HasId-more source h, (id, t, HasId-more id k))

  IsOwned-more :
      (file : String) (es : List Edge) → All (IsOwned file p) es → All (IsOwned file q) es
  IsOwned-more file [] h = tt
  IsOwned-more file (e ∷ es) h = (
    (h.0.0, Ends-more file e.kind e.source_symbol_id e.target_symbol_id h.0.1),
    IsOwned-more file es h.1,
  )

last_of-Elem : (ss : List Symbol) (o : Symbol) → last_of ss ≡ some o → Elem o ss
last_of-Elem [] o h = absurd (cc)
last_of-Elem (s ∷ ss) o h = at (last_of ss) (last_of-Elem ss o) h
  where
    at :
        (l : Option Symbol)
        → (l ≡ some o → Elem o ss)
        → elim l [ none ↦ some s | some t ↦ some t ] ≡ some o
        → (s ≡ o) ⊎ Elem o ss
    at none k h = inl (some_inj s o h)
    at (some t) k h = inr (k h)

module _ (file : String) (spec : LanguageSpec) where
  edges_named-All :
      (P : Edge → Type 0) (f : String → Edge) (o : Option String)
      → ((name : String) → P (f name))
      → All P (edges_named file spec f o)
  edges_named-All P f none h = tt
  edges_named-All P f (some name) h = elim (Bool-cases (name == "")) [
    | inl empty ↦ rw empty tt
    | inr named ↦ rw named (h name, tt)
  ]

  contains_edges-All :
      (scope pool : List Symbol) (s : Symbol)
      → ((o : Symbol) → Elem o scope → Elem o pool)
      → Elem s pool
      → All (IsOwned file pool) (contains_edges file spec scope s)
  unfolding contains_edges
  contains_edges-All scope pool s within m =
      at (last_of scope) (λ o e. within o (last_of-Elem scope o e))
    where
      at :
          (l : Option Symbol)
          → ((o : Symbol) → l ≡ some o → Elem o pool)
          → All (IsOwned file pool) (elim l [
            | none ↦ []
            | some owner ↦
                edge_of file spec contains owner.symbol_id s.name (some s.symbol_id) s.start_line
                ∷ []
          ])
      at none k = tt
      at (some o) k = ((refl, ((o, k o refl, refl), (s.symbol_id, refl, (s, m, refl)))), tt)

  import_edges-All :
      (pool : List Symbol) (n : Node) (children : Nodes)
      → All (IsOwned file pool) (import_edges file spec n children)
  unfolding import_edges
  import_edges-All pool n children = elim (Bool-cases (is_one_of spec.import_nodes n.type)) [
    | inl is ↦ rw is (
        edges_named-All (IsOwned file pool) _
          (import_name file spec (import_name_fields file spec) children)
          (λ name. (refl, (refl, refl))))
    | inr not ↦ rw not tt
  ]

  other_edges-All :
      (scope pool : List Symbol) (n : Node) (children : Nodes)
      → ((o : Symbol) → Elem o scope → Elem o pool)
      → All (IsOwned file pool) (other_edges file spec n children scope)
  unfolding other_edges
  other_edges-All scope pool n children within =
      at (last_of scope) (λ o e. within o (last_of-Elem scope o e))
    where
      at :
          (l : Option Symbol)
          → ((o : Symbol) → l ≡ some o → Elem o pool)
          → All (IsOwned file pool) (elim l [
            | none ↦ import_edges file spec n children
            | some owner ↦
                if is_one_of spec.call_nodes n.type
                then edges_named file spec
                    (λ name. edge_of file spec calls owner.symbol_id name none (n.start_row + 1))
                    (callee_name file spec children)
                else import_edges file spec n children
          ])
      at none k = import_edges-All pool n children
      at (some o) k = elim (Bool-cases (is_one_of spec.call_nodes n.type)) [
        | inl is ↦ rw is (
            edges_named-All (IsOwned file pool) _ (callee_name file spec children)
              (λ name. (refl, ((o, k o refl, refl), refl))))
        | inr not ↦ rw not (import_edges-All pool n children)
      ]

  abbrev Sub : List Symbol → List Symbol → Type 0
  Sub p q = (s : Symbol) → Elem s p → Elem s q

  -- The edges of a node with what follows it: its own, those below it, and the later ones.
  join-edges :
      (scope inner symbols later : List Symbol) (own below rest : List Edge) (pool : List Symbol)
      → All (IsOwned file pool) own
      → All (IsOwned file (inner ++ symbols)) below
      → Sub (inner ++ symbols) pool
      → All (IsOwned file (scope ++ later)) rest
      → Sub (scope ++ later) pool
      → All (IsOwned file pool) ((own ++ below) ++ rest)
  join-edges scope inner symbols later own below rest pool o b bs r rs =
      All-append (IsOwned file pool) (own ++ below) rest
        (All-append (IsOwned file pool) own below o
          (IsOwned-more (inner ++ symbols) pool bs file below b))
        (IsOwned-more (scope ++ later) pool rs file rest r)

  later-Sub :
      (scope symbols later : List Symbol) → Sub (scope ++ later) (scope ++ (symbols ++ later))
  later-Sub scope symbols later s m = elim (Elem-append s scope later m) [
    | inl a ↦ Elem-append_left s scope (symbols ++ later) a
    | inr b ↦ Elem-append_right s scope (symbols ++ later) (Elem-append_right s symbols later b)
  ]

  below-Sub :
      (scope symbols later : List Symbol) → Sub (scope ++ symbols) (scope ++ (symbols ++ later))
  below-Sub scope symbols later s m = elim (Elem-append s scope symbols m) [
    | inl a ↦ Elem-append_left s scope (symbols ++ later) a
    | inr b ↦ Elem-append_right s scope (symbols ++ later) (Elem-append_left s symbols later b)
  ]

  -- Below a definition, the scope has one symbol more.
  inner-Sub :
      (scope : List Symbol) (x : Symbol) (symbols later : List Symbol)
      → Sub ((scope ++ x ∷ []) ++ symbols) (scope ++ ((x ∷ symbols) ++ later))
  inner-Sub scope x symbols later s m = elim (Elem-append s (scope ++ x ∷ []) symbols m) [
    | inr b ↦
        Elem-append_right s scope ((x ∷ symbols) ++ later)
          (inr (Elem-append_left s symbols later b))
    | inl a ↦ elim (Elem-append s scope (x ∷ []) a) [
      | inl c ↦ Elem-append_left s scope ((x ∷ symbols) ++ later) c
      | inr d ↦
          Elem-append_right s scope ((x ∷ symbols) ++ later)
            (Elem-append_left s (x ∷ symbols) later (Elem-append_left s (x ∷ []) symbols d))
    ]
  ]

  visit-IsOwned :
      (nodes : Nodes) (scope : List Symbol)
      → All
          (IsOwned file (scope ++ (visit file spec scope nodes).0))
          (visit file spec scope nodes).1
  unfolding visit
  visit-IsOwned leaf scope = tt
  visit-IsOwned (tree n children rest) scope =
      at (symbol_for file spec n children scope) (λ inner. visit-IsOwned children inner)
        (visit-IsOwned rest scope)
    where
      Walked : Option Symbol → List Symbol × List Edge
      Walked o =
          let (later_symbols, later_edges) = visit file spec scope rest in
          elim o [
            | some s ↦
                let (symbols, edges) = visit file spec (scope ++ s ∷ []) children in
                (
                  (s ∷ symbols) ++ later_symbols,
                  (contains_edges file spec scope s ++ edges) ++ later_edges,
                )
            | none ↦
                let (symbols, edges) = visit file spec scope children in
                (
                  symbols ++ later_symbols,
                  (other_edges file spec n children scope ++ edges) ++ later_edges,
                )
          ]

      at :
          (o : Option Symbol)
          → ((inner : List Symbol)
              → All
                  (IsOwned file (inner ++ (visit file spec inner children).0))
                  (visit file spec inner children).1)
          → All
              (IsOwned file (scope ++ (visit file spec scope rest).0))
              (visit file spec scope rest).1
          → All (IsOwned file (scope ++ (Walked o).0)) (Walked o).1
      at none below later =
          let symbols : List Symbol = (visit file spec scope children).0 in
          let more : List Symbol = (visit file spec scope rest).0 in
          join-edges scope scope symbols more (other_edges file spec n children scope) _ _
            (scope ++ (symbols ++ more))
            (other_edges-All scope (scope ++ (symbols ++ more)) n children
              (λ o m. Elem-append_left o scope (symbols ++ more) m))
            (below scope) (below-Sub scope symbols more) later (later-Sub scope symbols more)
      at (some s) below later =
          let symbols : List Symbol = (visit file spec (scope ++ s ∷ []) children).0 in
          let more : List Symbol = (visit file spec scope rest).0 in
          let pool : List Symbol = scope ++ ((s ∷ symbols) ++ more) in
          join-edges scope (scope ++ s ∷ []) symbols more (contains_edges file spec scope s) _ _
            pool
            (contains_edges-All scope pool s
              (λ o m. Elem-append_left o scope ((s ∷ symbols) ++ more) m)
              (Elem-append_right s scope ((s ∷ symbols) ++ more) (inl refl)))
            (below (scope ++ s ∷ [])) (inner-Sub scope s symbols more) later
            (later-Sub scope (s ∷ symbols) more)

  -- Every edge of a file's index is of that file; an import starts at the file, and any other edge at
  -- a symbol that the index has; the definition that a `contains` edge leads to is in the index too,
  -- and the targets of the others are left open.
  pub index_file-IsOwned :
      (root : Node) (children : Nodes)
      → All
          (IsOwned file (index_file file spec root children).0)
          (index_file file spec root children).1
  unfolding index_file
  index_file-IsOwned root children = visit-IsOwned (tree root children leaf) []
