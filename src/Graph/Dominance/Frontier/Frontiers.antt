-- ===== src/Graph/Dominance/Frontier/Frontiers.antt =====
-- The frontiers that DomFrontierMap::new computes, by the paths of the graph.
use pliron.Prelude.{ℕ, ◌≤◌, ◌≡◌, ◌↔◌, true, some, [], Returns}
use pliron.Graph.{ControlFlowGraph}
use pliron.Graph.Traversals.Component.{size}
use pliron.Graph.Dominance.Tree.{DomTree, compute_dominator_tree, num_nodes}
use pliron.Graph.Dominance.Tree.Correct.{IsFlowGraph}
use pliron.Graph.Dominance.Tree.Dominators.{built}
use pliron.Graph.Dominance.Frontier.{new}
use pliron.Graph.Dominance.Frontier.Runners.{inside}
use pliron.Graph.Dominance.Frontier.Lone.{InFrontier}
use pliron.Graph.Dominance.Frontier.Correct.{new-Frontier}

-- For a flow graph whose entry has no predecessors, the computed tree, and as many steps as it has
-- nodes, new returns a map in which c is in the frontier of v exactly if v is on every path to some
-- reached predecessor of c and, but for c itself, not on every path to c.
pub new-InFrontier :
    (g : ControlFlowGraph) (entry fuel : ℕ)
    → IsFlowGraph g entry
    → size g ≤ fuel
    → (t : DomTree) → compute_dominator_tree fuel g ≡ some t
    → g.predecessors entry ≡ []
    → (steps : ℕ) → num_nodes t ≤ steps
    → Returns (λ res. (v c : ℕ) → (inside res v c ≡ true) ↔ InFrontier g entry v c) (new steps g t)
new-InFrontier g entry fuel f enough t e no_preds steps le =
    new-Frontier g entry t (built g entry fuel f enough t e) no_preds steps le
