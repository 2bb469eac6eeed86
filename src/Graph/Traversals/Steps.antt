-- ===== src/Graph/Traversals/Steps.antt =====
-- The walk of a component keeps its invariant, and ends.
use pliron.Prelude.{
  ℕ, zero, suc, ◌+◌, ◌<◌, ◌≤◌, ◌≡◌, refl, ap, Bool, true, List, [], ◌∷◌, arith, ==_refl, ltb,
  length, has, Distinct, Bool-cases, inl, inr, Returns, returns, Returns-bind,
}
use mathlib.Core.Path.{subst}
use pliron.Graph.{ControlFlowGraph, num_successors, get_successor}
use pliron.Graph.Traversals.{WalkState, visit_successor, visit_frame, walk}
use pliron.Graph.Traversals.Lists.{
  before, has_of_get_elem?, get_elem?_in, unseen_cost, stack_cost, unseen_cost-mark_seen,
}
use pliron.Graph.Traversals.Walk.{WalkInv, skipped, descended, finished}

module _ (g : ControlFlowGraph) (seen0 : ℕ → Bool) (root : ℕ) (nodes_once : Distinct g.nodes)
    (inner : (v w : ℕ)
      → has v g.nodes ≡ true
      → has w (g.successors v) ≡ true
      → has w g.nodes ≡ true) where
  -- The rounds that are left.
  unfoldable pub cost : WalkState → ℕ
  cost s =
      unseen_cost (num_successors g) s.seen_nodes g.nodes + stack_cost (num_successors g) s.stack

  abbrev Stepped : ℕ → WalkState → Type 0
  Stepped before t = WalkInv g seen0 root t × (cost t < before)

  visit_frame-Stepped :
      (s : WalkState) (node i : ℕ) (stack : List (ℕ × ℕ))
      → s.stack ≡ (node, i) ∷ stack
      → WalkInv g seen0 root s
      → Returns (Stepped (cost s)) (visit_frame g s node i stack)
  unfolding visit_frame visit_successor num_successors get_successor cost unseen_cost stack_cost
  visit_frame-Stepped s node i stack e inv0 =
      let inv : WalkInv g seen0 root
          (record { seen_nodes = s.seen_nodes; stack = (node, i) ∷ stack; po = s.po }) =
        subst
          (λ z. WalkInv g seen0 root (record { seen_nodes = s.seen_nodes; stack = z; po = s.po })) e
          inv0 in
      let spent = ap (stack_cost (num_successors g)) e in
      elim (Bool-cases (ltb i (length (g.successors node)))) [
        | inl more ↦
            let lt : i < length (g.successors node) = ground arith in
            let (succ, e') = get_elem?_in (g.successors node) i lt in
            elim (Bool-cases (s.seen_nodes succ)) [
              | inl t ↦
                  rw (visit_frame, more, e', visit_successor, t)
                    (returns (
                      skipped g seen0 root s.seen_nodes s.po node i stack inv succ e' t,
                      omega (arith, spent),
                    ))
              | inr f ↦
                  let inside =
                    inner node succ (inv.inside node (ground (arith, ==_refl node)))
                      (has_of_get_elem? (g.successors node) i succ e') in
                  rw (visit_frame, more, e', visit_successor, f)
                    (returns (
                      descended g seen0 root s.seen_nodes s.po node i stack inv succ e' f inside,
                      omega (
                        arith,
                        spent,
                        unseen_cost-mark_seen (num_successors g) s.seen_nodes succ g.nodes
                            nodes_once inside f,
                      ),
                    ))
            ]
        | inr none_left ↦
            rw (visit_frame, none_left)
              (returns (
                finished g seen0 root s.seen_nodes s.po node i stack inv (ground arith),
                omega (arith, spent),
              ))
      ]

  pub walk-WalkInv :
      (fuel : ℕ) (s : WalkState)
      → WalkInv g seen0 root s
      → cost s ≤ fuel
      → Returns (λ t. WalkInv g seen0 root t × (t.stack ≡ [])) (walk fuel g s)
  unfolding walk cost unseen_cost stack_cost
  walk-WalkInv zero s inv le = at_end s.stack refl
    where
      at_end :
          (stack : List (ℕ × ℕ))
          → s.stack ≡ stack
          → Returns (λ t. WalkInv g seen0 root t × (t.stack ≡ [])) (walk zero g s)
      at_end [] e = rw (walk, e) (returns (inv, e))
      at_end (f ∷ stack) e = absurd (omega (arith, ap (stack_cost (num_successors g)) e))
  walk-WalkInv (suc fuel) s inv le =
      by_stack s.stack refl λ t inv' le'. walk-WalkInv fuel t inv' le'
    where
      by_stack :
          (stack : List (ℕ × ℕ))
          → s.stack ≡ stack
          → ((t : WalkState)
              → WalkInv g seen0 root t
              → cost t ≤ fuel
              → Returns (λ t. WalkInv g seen0 root t × (t.stack ≡ [])) (walk fuel g t))
          → Returns (λ t. WalkInv g seen0 root t × (t.stack ≡ [])) (walk (suc fuel) g s)
      by_stack [] e rest = rw (walk, e) (returns (inv, e))
      by_stack ((node, i) ∷ stack) e rest =
          rw (walk, e)
            (Returns-bind (visit_frame-Stepped s node i stack e inv)
              λ t (inv', less). rest t inv' (omega arith))
