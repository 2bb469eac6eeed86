-- ===== src/Graph/Examples.antt =====
-- Runs of the traversals and of the dominator tree on a graph whose loop has two entries.
use pliron.Prelude.{
  ℕ, zero, suc, ◌<◌, ◌≤◌, ◌≡◌, ◌↔◌, refl, true, false, Option, none, some, List, [], ◌∷◌, arith,
  ◌==◌, ==→≡, if◌then◌else◌, ◌>>=◌, has, Returns,
}
use pliron.Graph.{ControlFlowGraph, num_successors, get_successor, num_predecessors}
use pliron.Graph.Traversals.{
  visit_successor, visit_frame, walk, post_order, post_order_walk_component, components,
  post_order_by_component, reversed_components, topological_order_by_component,
}
use pliron.Graph.Traversals.Lists.{unseen_cost}
use pliron.Graph.Traversals.Component.{IsClosed, size}
use pliron.Graph.Traversals.Order.{PostOrder, post_order-PostOrder}
use pliron.Graph.Traversals.Reversed.{reverse_all, topological_order_by_component-reverse_all}
use pliron.Graph.Traversals.Topological.{EntryOrder, topological_order_by_component-EntryOrder}
use pliron.Graph.Dominance.{
  dom_at, initial, climb, intersect, find_processed, meet_preds, compute_idom, process_node, pass,
  fixpoint,
}
use pliron.Graph.Dominance.Loop.{DominatorArray, fixpoint-Dominators}
use pliron.Graph.Dominance.Tree.{
  DomTree, rpo_index, reachable, reachable_preds, find_node, insert_node, push_child, link,
  build_tree, dominator_tree_of, compute_dominator_tree, contains, dominators, idom, children,
  num_nodes, dominates, nearest_common_dominator,
}
use pliron.Graph.Dominance.Tree.Numbers.{IsPath}
use pliron.Graph.Dominance.Tree.Paths.{OnEveryPath}
use pliron.Graph.Dominance.Tree.Correct.{IsFlowGraph}
use pliron.Graph.Dominance.Tree.Dominators.{
  compute_dominator_tree-contains, dominates-OnEveryPath, nearest_common_dominator-OnEveryPath,
  idom-OnEveryPath, children-idom,
}
use pliron.Graph.Dominance.Frontier.{
  DomFrontierMap, insert_at, add_runners, add_preds, add_node, add_nodes, new, frontier,
}
use pliron.Graph.Dominance.Frontier.Runners.{inside}
use pliron.Graph.Dominance.Frontier.Lone.{InFrontier}
use pliron.Graph.Dominance.Frontier.Frontiers.{new-InFrontier}

abbrev two_entries : ControlFlowGraph
two_entries = record {
  successors = λ v.
      if v == 1
      then 2 ∷ 3 ∷ []
      else if v == 2
      then 3 ∷ []
      else if v == 3
      then 2 ∷ 5 ∷ []
      else if v == 4
      then 3 ∷ []
      else [];
  predecessors = λ v.
      if v == 2
      then 1 ∷ 3 ∷ []
      else if v == 3
      then 1 ∷ 2 ∷ 4 ∷ []
      else if v == 5
      then 3 ∷ []
      else [];
  entry_node = some 1;
  nodes = 1 ∷ 2 ∷ 3 ∷ 5 ∷ 4 ∷ [];
}

two_entries-IsClosed : IsClosed two_entries
two_entries-IsClosed = record {
  nodes_once = (refl, (refl, (refl, (refl, (refl, tt)))));
  inner = λ v w h e. ground (arith, ==→≡ v 1, ==→≡ v 2, ==→≡ v 3, ==→≡ v 4, ==→≡ v 5);
}

two_entries-IsFlowGraph : IsFlowGraph two_entries 1
two_entries-IsFlowGraph = record {
  closed = two_entries-IsClosed;
  consistent = λ u v. ground arith;
  entry_is = refl;
  entry_first = (2 ∷ 3 ∷ 5 ∷ 4 ∷ [], refl);
}

size_is : size two_entries ≡ 11
unfolding unseen_cost num_successors
size_is = refl

enough : size two_entries ≤ 11
enough = omega (arith, size_is)

post_order-PostOrder_example :
    Returns (PostOrder two_entries (λ v. false) two_entries.nodes) (post_order 11 two_entries)
post_order-PostOrder_example = post_order-PostOrder two_entries 11 two_entries-IsClosed enough

topological_order_by_component-reverse_all_example :
    topological_order_by_component 11 two_entries
    ≡ (post_order_by_component 11 two_entries >>= λ comps. some (reverse_all comps))
topological_order_by_component-reverse_all_example =
    topological_order_by_component-reverse_all 11 two_entries

topological_order_by_component-EntryOrder_example :
    Returns
      (λ comps.
        (rpo : List ℕ) × (tail : List (List ℕ)) × (comps ≡ rpo ∷ tail)
        × EntryOrder two_entries 1 rpo)
      (topological_order_by_component 11 two_entries)
topological_order_by_component-EntryOrder_example =
    topological_order_by_component-EntryOrder two_entries 11 two_entries-IsClosed enough 1
      (2 ∷ 3 ∷ 5 ∷ 4 ∷ []) refl

-- The predecessors by index in the order 1, 2, 3, 5.
abbrev index_preds : ℕ → List ℕ
index_preds j =
    if j == 1 then 0 ∷ 2 ∷ [] else if j == 2 then 0 ∷ 1 ∷ [] else if j == 3 then 2 ∷ [] else []

index_preds_bounded : (j p : ℕ) → has p (index_preds j) ≡ true → p < 4
index_preds_bounded j p h = ground (arith, ==→≡ p 0, ==→≡ p 1, ==→≡ p 2)

index_preds_early : (i : ℕ) → 0 < i → i < 4 → (p : ℕ) × (has p (index_preds i) ≡ true) × (p < i)
index_preds_early zero pos lt = absurd (omega arith)
index_preds_early (suc zero) pos lt = (0, refl, omega arith)
index_preds_early (suc (suc zero)) pos lt = (0, refl, omega arith)
index_preds_early (suc (suc (suc zero))) pos lt = (2, refl, omega arith)
index_preds_early (suc (suc (suc (suc i)))) pos lt = absurd (omega arith)

fixpoint-Dominators_example :
    Returns
      (DominatorArray index_preds 4 index_preds_bounded index_preds_early)
      (fixpoint 5 index_preds 4 (initial 4))
fixpoint-Dominators_example =
    fixpoint-Dominators index_preds 4 index_preds_bounded index_preds_early 5 (omega arith)
      (omega arith)

abbrev tree : DomTree
tree = record {
  root = some 1;
  dominators_map =
      (1, record { parent = none; children = 2 ∷ 3 ∷ [] })
      ∷ (2, record { parent = some 1; children = [] })
      ∷ (3, record { parent = some 1; children = 5 ∷ [] })
      ∷ (5, record { parent = some 3; children = [] })
      ∷ [];
}

tree_is : compute_dominator_tree 11 two_entries ≡ some tree
unfolding compute_dominator_tree dominator_tree_of topological_order_by_component
    reversed_components post_order_by_component components post_order_walk_component walk
    visit_frame visit_successor num_successors get_successor rpo_index reachable reachable_preds
    find_node insert_node push_child link build_tree dom_at climb intersect find_processed
    meet_preds compute_idom process_node pass fixpoint
tree_is = refl

compute_dominator_tree-contains_example :
    Returns
      (λ t.
        (t.root ≡ some 1)
        × (idom t 1 ≡ some none)
        × ((v : ℕ) → (contains t v ≡ true) ↔ ((l : List ℕ) × IsPath two_entries 1 (v ∷ l))))
      (compute_dominator_tree 11 two_entries)
compute_dominator_tree-contains_example =
    compute_dominator_tree-contains two_entries 1 11 two_entries-IsFlowGraph enough

tree_nodes : num_nodes tree ≤ 4
unfolding num_nodes
tree_nodes = omega arith

holds_2 : contains tree 2 ≡ true
unfolding contains find_node
holds_2 = refl

holds_3 : contains tree 3 ≡ true
unfolding contains find_node
holds_3 = refl

holds_5 : contains tree 5 ≡ true
unfolding contains find_node
holds_5 = refl

children_of_1 : children tree 1 ≡ some (2 ∷ 3 ∷ [])
unfolding children find_node
children_of_1 = refl

dominates-OnEveryPath_example :
    Returns (λ c. (c ≡ true) ↔ OnEveryPath two_entries 1 2 5) (dominates 4 tree 2 5)
dominates-OnEveryPath_example =
    dominates-OnEveryPath two_entries 1 11 two_entries-IsFlowGraph enough tree tree_is 4 2 5
      tree_nodes holds_5

nearest_common_dominator-OnEveryPath_example :
    Returns
      (λ r.
        OnEveryPath two_entries 1 r 5
        × OnEveryPath two_entries 1 r 2
        × ((x : ℕ)
            → OnEveryPath two_entries 1 x 5
            → OnEveryPath two_entries 1 x 2
            → OnEveryPath two_entries 1 x r))
      (nearest_common_dominator 4 tree 5 2)
nearest_common_dominator-OnEveryPath_example =
    nearest_common_dominator-OnEveryPath two_entries 1 11 two_entries-IsFlowGraph enough tree
      tree_is 4 5 2 tree_nodes holds_5 holds_2

idom-OnEveryPath_example :
    (u : ℕ) × (idom tree 3 ≡ some (some u))
    × ((u == 3) ≡ false)
    × OnEveryPath two_entries 1 u 3
    × ((x : ℕ) → OnEveryPath two_entries 1 x 3 → (x == 3) ≡ false → OnEveryPath two_entries 1 x u)
idom-OnEveryPath_example =
    idom-OnEveryPath two_entries 1 11 two_entries-IsFlowGraph enough tree tree_is 3 holds_3 refl

children-idom_example : (has 3 (2 ∷ 3 ∷ []) ≡ true) ↔ (idom tree 3 ≡ some (some 1))
children-idom_example =
    children-idom two_entries 1 11 two_entries-IsFlowGraph enough tree tree_is 3 1 (2 ∷ 3 ∷ [])
      children_of_1

new-InFrontier_example :
    Returns
      (λ res. (v c : ℕ) → (inside res v c ≡ true) ↔ InFrontier two_entries 1 v c)
      (new 4 two_entries tree)
new-InFrontier_example =
    new-InFrontier two_entries 1 11 two_entries-IsFlowGraph enough tree tree_is refl 4 tree_nodes

abbrev frontiers : Option DomFrontierMap
frontiers = new 4 two_entries tree

-- The frontiers of the two heads of the loop.
heads :
    ((frontiers >>= λ res. frontier res 2) ≡ some (3 ∷ []))
    × ((frontiers >>= λ res. frontier res 3) ≡ some (2 ∷ []))
unfolding frontier contains num_predecessors idom find_node dominators insert_at add_runners
    add_preds add_node add_nodes new
heads = (refl, refl)
