-- ===== src/Graph/Dominance/Tree/Correct.antt =====
-- compute_dominator_tree gives the dominator tree of the graph.
use pliron.Prelude.{
  ℕ, suc, ◌<◌, ◌≤◌, ◌≡◌, refl, sym, true, some, List, ◌∷◌, arith, length, has, Returns, returns,
  Returns-mono, Returns-bind,
}
use mathlib.Core.Path.{subst}
use pliron.Graph.{ControlFlowGraph}
use pliron.Graph.Traversals.Component.{IsClosed, size}
use pliron.Graph.Traversals.Topological.{EntryOrder, topological_order_by_component-EntryOrder}
use pliron.Graph.Dominance.{Dom, dom_at}
use pliron.Graph.Dominance.Loop.{DominatorArray, fixpoint-Dominators}
use pliron.Graph.Dominance.Tree.{
  DomTree, first, reachable_preds, dominator_tree_of, compute_dominator_tree,
}
use pliron.Graph.Dominance.Tree.Numbers.{IsConsistent, rpo_index_get, get_elem?_lt}
use pliron.Graph.Dominance.Tree.Build.{Linked}
use pliron.Graph.Dominance.Tree.Link.{build_tree-Linked}
use pliron.Graph.Dominance.Tree.Paths.{preds_bounded, preds_early}

-- The entry stands first, and predecessors and successors agree.
pub record IsFlowGraph (g : ControlFlowGraph) (entry : ℕ) : Type 0 where
  pub closed : IsClosed g
  pub consistent : IsConsistent g
  pub entry_is : g.entry_node ≡ some entry
  pub entry_first : (rest : List ℕ) × (g.nodes ≡ entry ∷ rest)

pub down :
    {preds : ℕ → List ℕ} {n : ℕ} (dom : Dom) {bounded : (j p : ℕ) → has p (preds j) ≡ true → p < n}
    {early : (i : ℕ) → 0 < i → i < n → (p : ℕ) × (has p (preds i) ≡ true) × (p < i)}
    → DominatorArray preds n bounded early dom
    → (j : ℕ) → 0 < j
    → j < n
    → (p : ℕ) × (p < j) × (dom_at dom j ≡ some p)
down dom array j pos lt = let (p, e) = array.parent j lt in (p, array.inv.down j p e pos, e)

module _ (g : ControlFlowGraph) (entry : ℕ) where
  -- The tree was built from the dominators by index.
  pub record Built (t : DomTree) : Type 0 where
    pub consistent : IsConsistent g
    pub rpo : List ℕ
    pub order : EntryOrder g entry rpo
    pub dom : Dom
    pub array :
        DominatorArray
          (reachable_preds g rpo)
          (length rpo)
          (preds_bounded g entry rpo order consistent)
          (preds_early g entry rpo order consistent)
          dom
    pub root : t.root ≡ some entry
    pub linked : Linked rpo (dom_at dom) (length rpo) t.dominators_map

  pub compute_dominator_tree-Built :
      (fuel : ℕ)
      → IsFlowGraph g entry
      → size g ≤ fuel
      → Returns Built (compute_dominator_tree fuel g)
  unfolding compute_dominator_tree dominator_tree_of
  compute_dominator_tree-Built fuel f enough =
      let (rest, e) = f.entry_first in
      subst (λ z. Returns Built (dominator_tree_of fuel g z)) (sym f.entry_is)
        (Returns-bind
          (Returns-bind
            (topological_order_by_component-EntryOrder g fuel f.closed enough entry rest e)
            λ comps (rpo, tail, e', o). returns_first comps rpo tail e' o)
          λ rpo o.
            let at_0 = rpo_index_get rpo 0 entry o.once o.starts in
            let pos = get_elem?_lt rpo 0 entry o.starts in
            rw at_0 (
              Returns-bind
                (fixpoint-Dominators (reachable_preds g rpo) (length rpo)
                  (preds_bounded g entry rpo o f.consistent)
                  (preds_early g entry rpo o f.consistent) (suc (length rpo)) pos (omega arith))
                λ dom array.
                  Returns-mono
                    (build_tree-Linked rpo o.once (dom_at dom) (down dom array) entry dom array.size
                      pos λ k. refl)
                    λ t (root, linked). record {
                      consistent = f.consistent;
                      rpo = rpo;
                      order = o;
                      dom = dom;
                      array = array;
                      root = root;
                      linked = linked;
                    }))
    where
      returns_first :
          (comps : List (List ℕ)) (rpo : List ℕ) (tail : List (List ℕ))
          → comps ≡ rpo ∷ tail
          → EntryOrder g entry rpo
          → Returns (EntryOrder g entry) (first comps)
      returns_first comps rpo tail e o = rw e (returns o)
