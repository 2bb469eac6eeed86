-- ===== src/Graph/Traversals/Component.antt =====
-- The post-order of one component.
use pliron.Prelude.{
  ℕ, ◌≤◌, ◌≡◌, refl, sym, ap, ◌∙◌, Bool, true, false, ◌||◌, ◌&&◌, List, [], ◌∷◌, ◌++◌, arith, ◌==◌,
  ==→≡, has, Distinct, inl, inr, Returns, returns, Returns-bind,
}
use mathlib.Core.Path.{subst}
use pliron.Graph.{ControlFlowGraph, num_successors}
use pliron.Graph.Traversals.{WalkState, mark_seen, post_order_walk_component}
use pliron.Graph.Traversals.Lists.{before, names, unseen_cost, stack_cost, unseen_cost-mark_seen}
use pliron.Graph.Traversals.Walk.{Edge, Falls, WalkInv}
use pliron.Graph.Traversals.Steps.{cost, walk-WalkInv}

-- A graph lists each node once, and its edges stay within.
pub record IsClosed (g : ControlFlowGraph) : Type 0 where
  pub nodes_once : Distinct g.nodes
  pub inner :
      (v w : ℕ) → has v g.nodes ≡ true → has w (g.successors v) ≡ true → has w g.nodes ≡ true

-- The nodes and edges of a graph: fuel for the walk of a component.
abbrev pub size : ControlFlowGraph → ℕ
size g = unseen_cost (num_successors g) (λ v. false) g.nodes

module _ (g : ControlFlowGraph) (seen0 : ℕ → Bool) where
  -- What the walk from a node adds: nodes that were not seen, each once, a node after its
  -- successors but for cycles, and each but the last, which is the root, before a predecessor.
  pub record Component (root : ℕ) (out : (ℕ → Bool) × List ℕ) : Type 0 where
    pub once : Distinct out.1
    pub parts : (v : ℕ) → out.0 v ≡ (seen0 v || has v out.1)
    pub fresh : (v : ℕ) → (has v out.1 && seen0 v) ≡ false
    pub inside : (v : ℕ) → has v out.1 ≡ true → has v g.nodes ≡ true
    pub closed : (v w : ℕ) → has v out.1 ≡ true → Edge g seen0 root v w → out.0 w ≡ true
    pub led :
        (v : ℕ)
        → has v out.1 ≡ true
        → (v == root) ≡ false
        → (u : ℕ) × Edge g seen0 root u v × (before v u out.1 ≡ true)
    pub ordered :
        (rank : ℕ → ℕ)
        → Falls g seen0 root rank
        → (v w : ℕ) → has v out.1 ≡ true
        → Edge g seen0 root v w
        → (seen0 w || before w v out.1) ≡ true
    pub last_root : (l : List ℕ) × (out.1 ≡ l ++ root ∷ [])

  WalkInv-start :
      (root : ℕ)
      → seen0 root ≡ false
      → has root g.nodes ≡ true
      → WalkInv g seen0 root
          (record { seen_nodes = mark_seen seen0 root; stack = (root, 0) ∷ []; po = [] })
  WalkInv-start root f h = record {
    once = tt;
    once_stack = (refl, tt);
    apart = λ v. refl;
    parts = λ v. ground arith;
    fresh = λ v. ground (arith, λ (t : (v == root) ≡ true). ap seen0 (==→≡ v root t));
    inside = λ v k. subst (λ z. has z g.nodes ≡ true) (sym (==→≡ v root (ground arith))) h;
    past = ((λ j w lt e. absurd (omega arith)), tt);
    chain = refl;
    closed = λ v w k. cc;
    led = λ v k. cc;
    ordered = λ rank falls v w k. cc;
    last_root = λ k. cc;
  }

  WalkInv-Component :
      (root : ℕ) (t : WalkState)
      → WalkInv g seen0 root t
      → t.stack ≡ []
      → Component root (t.seen_nodes, t.po)
  WalkInv-Component root t inv e =
      let off = λ (v : ℕ). ap (λ z. has v (names z)) e in
      record {
        once = inv.once;
        parts = λ v. ground (arith, inv.parts v, off v);
        fresh = λ v. ground (arith, inv.fresh v, off v);
        inside = λ v k. inv.inside v (ground (arith, off v));
        closed = inv.closed;
        led = λ v k ne. elim (inv.led v k ne) [
          | inl later ↦ later
          | inr (u, edge, on) ↦ absurd_of (sym on ∙ off u)
        ];
        ordered = inv.ordered;
        last_root = inv.last_root e;
      }
    where
      absurd_of : {A : Type 0} → true ≡ false → A
      absurd_of h = cc

unseen_cost-le :
    (deg : ℕ → ℕ) (seen : ℕ → Bool) (l : List ℕ)
    → unseen_cost deg seen l ≤ unseen_cost deg (λ v. false) l
unfolding unseen_cost
unseen_cost-le deg seen [] = omega arith
unseen_cost-le deg seen (v ∷ l) = ground (arith, unseen_cost-le deg seen l)

-- For a closed graph and fuel of at least its size, the walk from a node that has not been seen
-- returns what a Component is: nodes that were not seen, each once, the root last, with all edges
-- leading to nodes that are seen.
pub post_order_walk_component-Component :
    (g : ControlFlowGraph) (fuel root : ℕ) (seen : ℕ → Bool)
    → IsClosed g
    → size g ≤ fuel
    → seen root ≡ false
    → has root g.nodes ≡ true
    → Returns (Component g seen root) (post_order_walk_component fuel g root seen)
unfolding post_order_walk_component cost stack_cost
post_order_walk_component-Component g fuel root seen c enough f h =
    let less = unseen_cost-mark_seen (num_successors g) seen root g.nodes c.nodes_once h f in
    let most = unseen_cost-le (num_successors g) seen g.nodes in
    rw (post_order_walk_component, f)
      (Returns-bind
        (walk-WalkInv g seen root c.nodes_once c.inner fuel _ (WalkInv-start g seen root f h)
          (omega (arith, less, most)))
        λ t (inv, e). returns (WalkInv-Component g seen root t inv e))
