-- ===== src/Tests/Indexed.antt =====
-- The tree of a file with a class, a method and a call in it.
use analysis_engine_service.Prelude.{ℕ, ◌≡◌, refl, String, Option, none, some, [], ◌∷◌, map, All}
use analysis_engine_service.Domain.CodeIndex.{Symbol, Edge}
use analysis_engine_service.Indexing.Indexer.{Node, Nodes, leaf, tree, index_file}
use analysis_engine_service.Indexing.Indexer.Languages.{python}
use analysis_engine_service.Indexing.Indexer.Owned.{IsOwned, index_file-IsOwned}

abbrev node : Option String → String → String → ℕ → Node
node field type text row = record {
  field = field;
  type = type;
  text = text;
  start_row = row;
  end_row = row;
}

abbrev call : Nodes
call =
    tree (node none "call" "g()" 2) (tree (node (some "function") "identifier" "g" 2) leaf leaf)
      leaf

abbrev body : Nodes
body =
    tree (node none "import_statement" "import os" 0)
      (tree (node none "dotted_name" "os" 0) leaf leaf)
      (tree (node none "class_definition" "class C" 1)
        (tree (node (some "name") "identifier" "C" 1) leaf (
          tree (node none "function_definition" "def f" 2)
            (tree (node (some "name") "identifier" "f" 2) leaf call) leaf))
        leaf)

abbrev root : Node
root = node none "module" "" 0

index_file-IsOwned_example :
    All
      (IsOwned "a.py" (index_file "a.py" python root body).0)
      (index_file "a.py" python root body).1
index_file-IsOwned_example = index_file-IsOwned "a.py" python root body

symbols_found :
    map (λ (s : Symbol). s.symbol_id) (index_file "a.py" python root body).0
    ≡ "a.py::C" ∷ "a.py::C.f" ∷ []
unfolding index_file
symbols_found = refl

edges_found :
    map (λ (e : Edge). e.target_name) (index_file "a.py" python root body).1 ≡ "os" ∷ "f" ∷ "g" ∷ []
unfolding index_file
edges_found = refl
