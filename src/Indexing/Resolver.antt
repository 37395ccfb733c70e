-- ===== src/Indexing/Resolver.antt =====
-- `CodeIndexer._resolve_edge_targets` of indexing/indexer.py: calls are linked to symbols by name.
pub mod Laws
use analysis_engine_service.Prelude.{
  Option, some, List, [], ◌∷◌, Dict, if◌then◌else◌, push_all, bucket, map, length, eqb,
}
use analysis_engine_service.Domain.CodeIndex.{Symbol, Edge, is_calls}

-- `if len(candidates) == 1: edge.target_symbol_id = candidates[0].symbol_id`
link : Edge → List Symbol → Edge
link e (s ∷ []) = record e { target_symbol_id = some s.symbol_id }
link e _ = e

-- The loop's body at one edge.
resolve_edge : Dict (List Symbol) → Edge → Edge
unfolding link
resolve_edge by_name e = if is_calls e then link e (bucket e.target_name by_name) else e

unfoldable pub resolve_edge_targets : List Symbol → List Edge → List Edge
unfolding resolve_edge
resolve_edge_targets symbols edges = map (resolve_edge (push_all (λ s. s.name) [] symbols)) edges
