-- ===== src/Graph/Dominance/Tree.antt =====
-- src/graph/dominance.rs: compute_dominator_tree and the queries of DomTree. An insertion-ordered
-- map is the list of its entries. The hash map `rpo_index` is looked up in the list that it
-- numbers. `none` is a panic, or that the fuel of the traversal has run out.
pub mod Numbers
pub mod Nodes
pub mod Build
pub mod Link
pub mod Paths
pub mod Queries
pub mod Correct
pub mod Answers
pub mod Dominators
use pliron.Prelude.{
  ℕ, zero, suc, ◌+◌, Bool, true, false, not, ◌||◌, Option, none, some, List, [], ◌∷◌, ◌++◌, ◌==◌,
  ltb, if◌then◌else◌, ◌>>=◌, ◌>>◌, assert, length, has, is_some,
}
use pliron.SmallTable.Vec.{get_elem?, next}
use pliron.Graph.{ControlFlowGraph, num_predecessors}
use pliron.Graph.Traversals.{topological_order_by_component}
use pliron.Graph.Dominance.{Dom, initial, fixpoint}

pub record DomTreeNode : Type 0 where
  pub parent : Option ℕ
  pub children : List ℕ

pub record DomTree : Type 0 where
  pub root : Option ℕ
  pub dominators_map : List (ℕ × DomTreeNode)

abbrev pub first : List (List ℕ) → Option (List ℕ)
first [] = none
first (l ∷ ls) = some l

-- `rpo_index.get(node)`: of equal keys, the last insertion counts.
unfoldable pub rpo_index : List ℕ → ℕ → Option ℕ
rpo_index [] node = none
rpo_index (v ∷ rpo) node = elim (rpo_index rpo node) [
  | some i ↦ some (suc i)
  | none ↦ if v == node then some 0 else none
]

-- The indices of the predecessors that `rpo_index` contains.
unfoldable pub reachable : List ℕ → List ℕ → List ℕ
reachable rpo [] = []
reachable rpo (p ∷ preds) = elim (rpo_index rpo p) [
  | some i ↦ i ∷ reachable rpo preds
  | none ↦ reachable rpo preds
]

unfoldable pub reachable_preds : ControlFlowGraph → List ℕ → ℕ → List ℕ
reachable_preds g rpo i = elim (get_elem? rpo i) [
  | some node ↦ reachable rpo (g.predecessors node)
  | none ↦ []
]

-- `dominators_map.get(node)`, and the methods of the map that change it.
unfoldable pub find_node : List (ℕ × DomTreeNode) → ℕ → Option DomTreeNode
find_node [] node = none
find_node ((v, n) ∷ t) node = if v == node then some n else find_node t node

unfoldable pub insert_node : List (ℕ × DomTreeNode) → ℕ → DomTreeNode → List (ℕ × DomTreeNode)
insert_node [] node n = (node, n) ∷ []
insert_node ((v, m) ∷ t) node n = if v == node then (v, n) ∷ t else (v, m) ∷ insert_node t node n

-- `get_mut(parent).unwrap().children.push(child)`
unfoldable pub push_child :
    List (ℕ × DomTreeNode) → (parent child : ℕ) → Option (List (ℕ × DomTreeNode))
push_child [] parent child = none
push_child ((v, n) ∷ t) parent child =
    let rest = push_child t parent child >>= (λ t'. some ((v, n) ∷ t')) in
    if v == parent then some ((v, record n { children = n.children ++ child ∷ [] }) ∷ t) else rest

-- The loop over `child_parent`, from index i on.
unfoldable pub link :
    List ℕ → (i : ℕ) → Dom → List (ℕ × DomTreeNode) → Option (List (ℕ × DomTreeNode))
link rpo i [] t = some t
link rpo i (parent ∷ dom) t = get_elem? rpo i >>= λ child.
    parent >>= get_elem? rpo >>= λ parent_node.
    push_child (insert_node t child (record { parent = some parent_node; children = [] }))
      parent_node child
    >>= link rpo (suc i) dom

abbrev pub skip_first : Dom → Dom
skip_first [] = []
skip_first (x ∷ dom) = dom

unfoldable pub build_tree : (entry : ℕ) → List ℕ → Dom → Option DomTree
build_tree entry rpo dom = get_elem? rpo 0 >>= λ v.
    link rpo 1 (skip_first dom) (insert_node [] v (record { parent = none; children = [] }))
    >>= λ t. some (record { root = some entry; dominators_map = t })

-- What follows the `let ... else` on the entry node.
unfoldable pub dominator_tree_of : ℕ → ControlFlowGraph → (entry_node : Option ℕ) → Option DomTree
dominator_tree_of fuel g none = some (record { root = none; dominators_map = [] })
dominator_tree_of fuel g (some entry) = topological_order_by_component fuel g >>= first >>= λ rpo.
    rpo_index rpo entry >>= λ i.
    assert (i == 0)
    >> fixpoint (suc (length rpo)) (reachable_preds g rpo) (length rpo) (initial (length rpo))
    >>= build_tree entry rpo

unfoldable pub compute_dominator_tree : ℕ → ControlFlowGraph → Option DomTree
compute_dominator_tree fuel g = dominator_tree_of fuel g g.entry_node

unfoldable pub contains : DomTree → ℕ → Bool
contains t node = is_some (find_node t.dominators_map node)

unfoldable pub idom : DomTree → ℕ → Option (Option ℕ)
idom t node = find_node t.dominators_map node >>= λ n. some n.parent

unfoldable pub children : DomTree → ℕ → Option (List ℕ)
children t node = find_node t.dominators_map node >>= λ n. some n.children

unfoldable pub num_nodes : DomTree → ℕ
num_nodes t = length t.dominators_map

-- The node, its immediate dominator and so on. A node that the map does not hold is a panic.
unfoldable pub dominators : ℕ → DomTree → ℕ → Option (List ℕ)
dominators zero t node = none
dominators (suc fuel) t node = idom t node >>= λ parent. elim parent [
  | none ↦ some (node ∷ [])
  | some p ↦ dominators fuel t p >>= λ rest. some (node ∷ rest)
]

unfoldable pub dominates : ℕ → DomTree → (dominator dominatee : ℕ) → Option Bool
dominates zero t dominator node = none
dominates (suc fuel) t dominator node =
    let up : Option Bool = elim (find_node t.dominators_map node >>= λ n. n.parent) [
      | none ↦ some false
      | some p ↦ dominates fuel t dominator p
    ] in
    if node == dominator then some true else up

-- `find` over the dominators of the first node.
unfoldable pub find_dominating : ℕ → DomTree → List ℕ → (node2 : ℕ) → Option ℕ
find_dominating fuel t [] node2 = none
find_dominating fuel t (v ∷ l) node2 =
    dominates fuel t v node2 >>= λ b. if b then some v else find_dominating fuel t l node2

unfoldable pub nearest_common_dominator : ℕ → DomTree → (node1 node2 : ℕ) → Option ℕ
nearest_common_dominator fuel t node1 node2 =
    dominators fuel t node1 >>= λ l. find_dominating fuel t l node2
