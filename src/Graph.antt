-- ===== src/Graph.antt =====
-- src/graph/mod.rs: the trait of control flow graphs. Nodes are numbers; the code uses no more of
-- them than their equality.
pub mod Traversals
pub mod Dominance
mod Examples
use pliron.Prelude.{ℕ, Option, List, length}
use pliron.SmallTable.Vec.{get_elem?}

pub record ControlFlowGraph : Type 0 where
  pub successors : ℕ → List ℕ
  pub predecessors : ℕ → List ℕ
  pub entry_node : Option ℕ
  pub nodes : List ℕ

unfoldable pub num_successors : ControlFlowGraph → ℕ → ℕ
num_successors g node = length (g.successors node)

-- Out of bounds is a panic.
unfoldable pub get_successor : ControlFlowGraph → ℕ → ℕ → Option ℕ
get_successor g node i = get_elem? (g.successors node) i

unfoldable pub num_predecessors : ControlFlowGraph → ℕ → ℕ
num_predecessors g node = length (g.predecessors node)
