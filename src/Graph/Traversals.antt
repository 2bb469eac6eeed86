-- ===== src/Graph/Traversals.antt =====
-- src/graph/traversals.rs: post-order and topological order. A hash set is a function; `none` is a
-- panic, or that the fuel of the walk has run out.
pub mod Lists
pub mod Walk
pub mod Steps
pub mod Component
pub mod Order
pub mod Reversed
pub mod Topological
use pliron.Prelude.{
  ℕ, zero, suc, ◌+◌, Bool, true, false, ◌||◌, Option, none, some, List, [], ◌∷◌, ◌++◌, ◌==◌, ltb,
  if◌then◌else◌, ◌>>=◌, length,
}
use mathlib.Core.List.{reverse}
use pliron.Graph.{ControlFlowGraph, num_successors, get_successor}

pub record WalkState : Type 0 where
  pub seen_nodes : ℕ → Bool
  pub stack : List (ℕ × ℕ)
  pub po : List ℕ

abbrev pub mark_seen : (ℕ → Bool) → ℕ → ℕ → Bool
mark_seen seen node v = (v == node) || seen v

-- The successor that a frame asks for.
unfoldable pub visit_successor :
    WalkState → (node succ_idx : ℕ) → List (ℕ × ℕ) → (succ : ℕ) → WalkState
visit_successor s node succ_idx stack succ =
    if s.seen_nodes succ then record s { stack = (node, suc succ_idx) ∷ stack } else record s {
      seen_nodes = mark_seen s.seen_nodes succ;
      stack = (succ, 0) ∷ (node, suc succ_idx) ∷ stack;
    }

-- The body of the `while` loop, after a frame left the stack.
unfoldable pub visit_frame :
    ControlFlowGraph → WalkState → (node succ_idx : ℕ) → List (ℕ × ℕ) → Option WalkState
visit_frame g s node succ_idx stack =
    if ltb succ_idx (num_successors g node)
    then get_successor g node succ_idx
      >>= (λ succ. some (visit_successor s node succ_idx stack succ))
    else some (record s { stack = stack; po = s.po ++ node ∷ [] })

unfoldable pub walk : ℕ → ControlFlowGraph → WalkState → Option WalkState
walk zero g s = elim s.stack [ [] ↦ some s | _ ∷ _ ↦ none ]
walk (suc fuel) g s = elim s.stack [
  | [] ↦ some s
  | (node, succ_idx) ∷ stack ↦ visit_frame g s node succ_idx stack >>= walk fuel g
]

-- The nodes that have been seen, and the component in post-order.
unfoldable pub post_order_walk_component :
    ℕ → ControlFlowGraph → (node : ℕ) → (ℕ → Bool) → Option ((ℕ → Bool) × List ℕ)
post_order_walk_component fuel g node seen_nodes =
    if seen_nodes node
    then some (seen_nodes, [])
    else walk fuel g
        (record { seen_nodes = mark_seen seen_nodes node; stack = (node, 0) ∷ []; po = [] })
      >>= λ s. some (s.seen_nodes, s.po)

-- `if !po.is_empty() { po_by_component.push(po); }`
abbrev pub push_component : List ℕ → List (List ℕ) → List (List ℕ)
push_component [] comps = comps
push_component (v ∷ po) comps = (v ∷ po) ∷ comps

-- The loop of `post_order_by_component`.
unfoldable pub components : ℕ → ControlFlowGraph → (ℕ → Bool) → List ℕ → Option (List (List ℕ))
components fuel g seen_nodes [] = some []
components fuel g seen_nodes (node ∷ nodes) =
    post_order_walk_component fuel g node seen_nodes >>= λ (seen, po).
    components fuel g seen nodes >>= λ rest. some (push_component po rest)

unfoldable pub post_order_by_component : ℕ → ControlFlowGraph → Option (List (List ℕ))
post_order_by_component fuel g = components fuel g (λ v. false) g.nodes

abbrev pub flatten : List (List ℕ) → List ℕ
flatten [] = []
flatten (l ∷ ls) = l ++ flatten ls

unfoldable pub post_order : ℕ → ControlFlowGraph → Option (List ℕ)
post_order fuel g = post_order_by_component fuel g >>= λ comps. some (flatten comps)

-- `if !po.is_empty() { rpo_by_component.push(po.into_iter().rev().collect()); }`
abbrev pub push_reversed : List ℕ → List (List ℕ) → List (List ℕ)
push_reversed [] comps = comps
push_reversed (v ∷ po) comps = reverse (v ∷ po) ∷ comps

-- The loop of `topological_order_by_component`.
unfoldable pub reversed_components :
    ℕ → ControlFlowGraph → (ℕ → Bool) → List ℕ → Option (List (List ℕ))
reversed_components fuel g seen_nodes [] = some []
reversed_components fuel g seen_nodes (node ∷ nodes) =
    post_order_walk_component fuel g node seen_nodes >>= λ (seen, po).
    reversed_components fuel g seen nodes >>= λ rest. some (push_reversed po rest)

unfoldable pub topological_order_by_component : ℕ → ControlFlowGraph → Option (List (List ℕ))
topological_order_by_component fuel g = reversed_components fuel g (λ v. false) g.nodes

unfoldable pub topological_order : ℕ → ControlFlowGraph → Option (List ℕ)
topological_order fuel g = topological_order_by_component fuel g >>= λ comps. some (flatten comps)
