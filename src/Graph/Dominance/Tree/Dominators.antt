-- ===== src/Graph/Dominance/Tree/Dominators.antt =====
-- What the dominator tree of a graph says of the paths in it.
use pliron.Prelude.{
  ℕ, ◌≤◌, ◌≡◌, ◌↔◌, true, false, ap, Option, none, some, List, ◌∷◌, ◌==◌, has, Returns, returns,
  Returns-mono,
}
use mathlib.Core.Path.{subst}
use pliron.Graph.{ControlFlowGraph}
use pliron.Graph.Traversals.Component.{size}
use pliron.Graph.Dominance.Tree.{
  DomTree, compute_dominator_tree, contains, idom, children, num_nodes, dominates,
  nearest_common_dominator,
}
use pliron.Graph.Dominance.Tree.Numbers.{IsPath}
use pliron.Graph.Dominance.Tree.Paths.{OnEveryPath}
use pliron.Graph.Dominance.Tree.Correct.{IsFlowGraph, Built, compute_dominator_tree-Built}
use pliron.Graph.Dominance.Tree.Answers.{
  Built-reached, Built-dominates, Built-nearest, Built-idom, Built-top, Built-children,
}

Returns-at : {A : Type 0} {P : A → Type 0} {r : Option A} {a : A} → Returns P r → r ≡ some a → P a
Returns-at {P = P} {a = a} (returns p) e = subst P (ap (λ o. elim o [ none ↦ a | some x ↦ x ]) e) p

module _ (g : ControlFlowGraph) (entry fuel : ℕ) (f : IsFlowGraph g entry)
    (enough : size g ≤ fuel) where
  -- For a flow graph whose first node is the entry, and fuel of at least its size,
  -- compute_dominator_tree returns a tree whose root is the entry, without an immediate dominator,
  -- and that holds the nodes that a path from the entry reaches.
  pub compute_dominator_tree-contains :
      Returns
        (λ t.
          (t.root ≡ some entry)
          × (idom t entry ≡ some none)
          × ((v : ℕ) → (contains t v ≡ true) ↔ ((l : List ℕ) × IsPath g entry (v ∷ l))))
        (compute_dominator_tree fuel g)
  compute_dominator_tree-contains =
      Returns-mono (compute_dominator_tree-Built g entry fuel f enough)
        λ t b. (b.root, Built-top g entry t b, Built-reached g entry t b)

  module _ (t : DomTree) (e : compute_dominator_tree fuel g ≡ some t) where
    pub built : Built g entry t
    built = Returns-at (compute_dominator_tree-Built g entry fuel f enough) e

    -- For the tree computed from a flow graph with fuel of at least its size, a node v of the tree,
    -- and as many steps as it has nodes, dominates answers whether x is on every path from the entry
    -- to v.
    pub dominates-OnEveryPath :
        (steps x v : ℕ)
        → num_nodes t ≤ steps
        → contains t v ≡ true
        → Returns (λ c. (c ≡ true) ↔ OnEveryPath g entry x v) (dominates steps t x v)
    dominates-OnEveryPath = Built-dominates g entry t built

    -- For two nodes of the tree computed from a flow graph with fuel of at least its size, and as
    -- many steps as it has nodes, nearest_common_dominator returns a node that is on every path to the
    -- one and to the other, and any node of which this is true is on every path to it.
    pub nearest_common_dominator-OnEveryPath :
        (steps v w : ℕ)
        → num_nodes t ≤ steps
        → contains t v ≡ true
        → contains t w ≡ true
        → Returns
            (λ r.
              OnEveryPath g entry r v
              × OnEveryPath g entry r w
              × ((x : ℕ)
                  → OnEveryPath g entry x v
                  → OnEveryPath g entry x w
                  → OnEveryPath g entry x r))
            (nearest_common_dominator steps t v w)
    nearest_common_dominator-OnEveryPath = Built-nearest g entry t built

    -- A node v, but the entry, of the tree computed from a flow graph with fuel of at least its size
    -- has an immediate dominator: another node u that is on every path to v, and any node but v that
    -- is on every path to v is on every path to u.
    pub idom-OnEveryPath :
        (v : ℕ)
        → contains t v ≡ true
        → (v == entry) ≡ false
        → (u : ℕ) × (idom t v ≡ some (some u))
          × ((u == v) ≡ false)
          × OnEveryPath g entry u v
          × ((x : ℕ) → OnEveryPath g entry x v → (x == v) ≡ false → OnEveryPath g entry x u)
    idom-OnEveryPath = Built-idom g entry t built

    -- In the tree computed from a flow graph with fuel of at least its size, the children of v, a
    -- node of it, are the nodes whose immediate dominator is v.
    pub children-idom :
        (c v : ℕ) (l : List ℕ)
        → children t v ≡ some l
        → (has c l ≡ true) ↔ (idom t c ≡ some (some v))
    children-idom = Built-children g entry t built
