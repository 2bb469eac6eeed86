-- ===== src/Graph/Dominance/Tree/Paths.antt =====
-- Domination in the graph, and the ancestors by the array of parents.
use pliron.Prelude.{
  Option-cases, ℕ, zero, suc, ◌<◌, ◌≡◌, ◌↔◌, refl, sym, ap, ◌∙◌, true, some, List, [], ◌∷◌, arith,
  ◌==◌, ==→≡, length, has, Bool-cases, inl, inr,
}
use mathlib.Core.Path.{subst}
use pliron.SmallTable.Vec.{get_elem?}
use pliron.Graph.{ControlFlowGraph}
use pliron.Graph.Traversals.Lists.{get_elem?_of_has, get_elem?_in}
use pliron.Graph.Traversals.Topological.{EntryOrder}
use pliron.Graph.Dominance.{Dom, dom_at}
use pliron.Graph.Dominance.Walks.{Dominates}
use pliron.Graph.Dominance.Ancestors.{Anc}
use pliron.Graph.Dominance.Loop.{DominatorArray}
use pliron.Graph.Dominance.Tree.{reachable, reachable_preds}
use pliron.Graph.Dominance.Tree.Numbers.{
  IsConsistent, IsPath, IsPath-numbered, IsWalk-of_path, IsPath-of_walk, rpo_index_get,
  get_elem?_lt, reachable-index, index-reachable,
}

-- x is on every path from the entry to v.
abbrev pub OnEveryPath : ControlFlowGraph → (entry x v : ℕ) → Type 0
OnEveryPath g entry x v = (l : List ℕ) → IsPath g entry (v ∷ l) → has x (v ∷ l) ≡ true

module _ (g : ControlFlowGraph) (entry : ℕ) (rpo : List ℕ) (o : EntryOrder g entry rpo)
    (consistent : IsConsistent g) where
  -- Each node of the order is reached from the entry.
  pub IsPath-to :
      (bound i v : ℕ) → i < bound → get_elem? rpo i ≡ some v → (l : List ℕ) × IsPath g entry (v ∷ l)
  IsPath-to zero i v h e = absurd (omega arith)
  IsPath-to (suc bound) zero v h e = ([], ground (arith, o.starts, e))
  IsPath-to (suc bound) (suc i) v h e =
      let (p, u, lt, at_p, edge) = o.early (suc i) v (omega arith) e in
      let (l, w) = IsPath-to bound p u (omega arith) at_p in (u ∷ l, (edge, w))

  on_path_numbered :
      (x v : ℕ) (l : List ℕ) → IsPath g entry (v ∷ l) → has x (v ∷ l) ≡ true → has x rpo ≡ true
  on_path_numbered x v [] w h =
      let same : x ≡ v = ground (arith, ==→≡ x v) in
      subst (λ z. has z rpo ≡ true) (sym same) (IsPath-numbered g entry rpo o consistent v [] w)
  on_path_numbered x v (u ∷ l) w h = elim (Bool-cases (x == v)) [
    | inl t ↦
        subst (λ z. has z rpo ≡ true) (sym (==→≡ x v t))
          (IsPath-numbered g entry rpo o consistent v (u ∷ l) w)
    | inr f ↦ on_path_numbered x u l w.1 (ground arith)
  ]

  module _ (dom : Dom)
      (bounded : (j p : ℕ) → has p (reachable_preds g rpo j) ≡ true → p < length rpo)
      (early : (i : ℕ)
        → 0 < i
        → i < length rpo
        → (p : ℕ) × (has p (reachable_preds g rpo i) ≡ true) × (p < i))
      (array : DominatorArray (reachable_preds g rpo) (length rpo) bounded early dom) where
    -- The node x has an index that is an ancestor of j.
    abbrev pub Above : ℕ → ℕ → Type 0
    Above x j = (k : ℕ) × (get_elem? rpo k ≡ some x) × Anc (dom_at dom) k j

    pub Above-OnEveryPath :
        (x v j : ℕ) → get_elem? rpo j ≡ some v → Above x j ↔ OnEveryPath g entry x v
    unfolding Dominates
    Above-OnEveryPath x v j e =
        let lt = get_elem?_lt rpo j v e in
        (
          (λ (k, at_k, a) l w.
              let (m, w', same) = IsWalk-of_path g entry rpo o consistent v j l w e in
              same x k at_k ∙ (array.ancestors k j lt).0 a m w'),
          λ every.
              let (l, w) = IsPath-to (suc j) j v (omega arith) e in
              let (k, _, at_k) = get_elem?_of_has rpo x (on_path_numbered x v l w (every l w)) in
              (
                k,
                at_k,
                (array.ancestors k j lt).1 λ m w'.
                    let (l', w'', same) = IsPath-of_walk g entry rpo o consistent v j m w' e in
                    sym (same x k at_k) ∙ every l' w'',
              ),
        )

  -- What the loop over the indices needs of the predecessors.
  pub preds_bounded : (j p : ℕ) → has p (reachable_preds g rpo j) ≡ true → p < length rpo
  unfolding reachable_preds
  preds_bounded j p h = elim (Option-cases (get_elem? rpo j)) [
    | inl e ↦ absurd (ground (arith, e, h))
    | inr (v, e) ↦
        let preds_are : reachable_preds g rpo j ≡ reachable rpo (g.predecessors v) =
          rw (reachable_preds, e) refl in
        let (q, _, at_p) =
          reachable-index rpo (g.predecessors v) p (sym (ap (has p) preds_are) ∙ h) in
        get_elem?_lt rpo p q at_p
  ]

  pub preds_early :
      (i : ℕ)
      → 0 < i
      → i < length rpo
      → (p : ℕ) × (has p (reachable_preds g rpo i) ≡ true) × (p < i)
  unfolding reachable_preds
  preds_early i pos lt =
      let (v, e) = get_elem?_in rpo i lt in
      let (p, u, less, at_p, edge) = o.early i v pos e in
      (
        p,
        rw (reachable_preds, e)
            (index-reachable rpo (g.predecessors v) p u (consistent u v ∙ edge)
              (rpo_index_get rpo p u o.once at_p)),
        less,
      )
