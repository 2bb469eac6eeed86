-- ===== src/Graph/Dominance/Tree/Answers.antt =====
-- What the queries answer on a tree that was built from the dominators by index.
use pliron.Prelude.{
  Option-cases, ℕ, zero, suc, ◌<◌, ◌≤◌, ◌≡◌, ◌↔◌, sym, ap, ◌∙◌, true, false, Option, none, some,
  List, ◌∷◌, arith, ◌==◌, ==→≡, ==_refl, ◌>>=◌, length, has, Bool-cases, inl, inr, Returns,
  Returns-mono,
}
use pliron.SmallTable.Vec.{get_elem?}
use pliron.Graph.{ControlFlowGraph}
use pliron.Graph.Traversals.Lists.{get_elem?_of_has}
use pliron.Graph.Dominance.{dom_at, is_value}
use pliron.Graph.Dominance.Ancestors.{self, above, Anc-parent, Anc-root}
use pliron.Graph.Dominance.Tree.{
  DomTreeNode, DomTree, rpo_index, find_node, contains, idom, children, num_nodes, dominates,
  nearest_common_dominator,
}
use pliron.Graph.Dominance.Tree.Numbers.{IsPath, IsPath-numbered, rpo_index_get}
use pliron.Graph.Dominance.Tree.Build.{parent_name}
use pliron.Graph.Dominance.Tree.Paths.{
  OnEveryPath, IsPath-to, Above, Above-OnEveryPath, preds_bounded, preds_early,
}
use pliron.Graph.Dominance.Tree.Queries.{
  idom_is, parent_of, dominates-Over, nearest_common_dominator-NearestOver,
}
use pliron.Graph.Dominance.Tree.Correct.{down, Built}

module _ (g : ControlFlowGraph) (entry : ℕ) (t : DomTree) (b : Built g entry t) where
  pub index_node :
      (v : ℕ) → contains t v ≡ true → (j : ℕ) × (j < length b.rpo) × (get_elem? b.rpo j ≡ some v)
  unfolding contains
  index_node v h = b.linked.only v h

  pub Over-OnEveryPath :
      (x v j : ℕ)
      → get_elem? b.rpo j ≡ some v
      → Above g entry b.rpo b.order b.consistent b.dom
          (preds_bounded g entry b.rpo b.order b.consistent)
          (preds_early g entry b.rpo b.order b.consistent)
          b.array
          x
          j
        ↔ OnEveryPath g entry x v
  Over-OnEveryPath x v j e =
      Above-OnEveryPath g entry b.rpo b.order b.consistent b.dom
        (preds_bounded g entry b.rpo b.order b.consistent)
        (preds_early g entry b.rpo b.order b.consistent) b.array x v j e

  pub Built-reached : (v : ℕ) → (contains t v ≡ true) ↔ ((l : List ℕ) × IsPath g entry (v ∷ l))
  unfolding contains
  Built-reached v = (
    (λ h.
        let (j, _, e) = index_node v h in
        IsPath-to g entry b.rpo b.order b.consistent (suc j) j v (omega arith) e),
    λ (l, w).
        let (j, lt, e) =
          get_elem?_of_has b.rpo v (IsPath-numbered g entry b.rpo b.order b.consistent v l w) in
        b.linked.holds j v lt e,
  )

  pub Built-dominates :
      (fuel x v : ℕ)
      → num_nodes t ≤ fuel
      → contains t v ≡ true
      → Returns (λ c. (c ≡ true) ↔ OnEveryPath g entry x v) (dominates fuel t x v)
  unfolding num_nodes
  Built-dominates fuel x v enough h =
      let (j, lt, e) = index_node v h in
      let (to, from) = Over-OnEveryPath x v j e in
      Returns-mono
        (dominates-Over b.rpo b.order.once (dom_at b.dom) (down b.dom b.array)
          (λ k. Anc-root b.array.inv) t b.linked fuel j v x (omega (arith, b.linked.size)) e)
        λ c (to', from'). ((λ r. to (to' r)), λ r. from' (from r))

  pub Built-nearest :
      (fuel v w : ℕ)
      → num_nodes t ≤ fuel
      → contains t v ≡ true
      → contains t w ≡ true
      → Returns
          (λ r.
            OnEveryPath g entry r v
            × OnEveryPath g entry r w
            × ((x : ℕ)
                → OnEveryPath g entry x v
                → OnEveryPath g entry x w
                → OnEveryPath g entry x r))
          (nearest_common_dominator fuel t v w)
  unfolding num_nodes
  Built-nearest fuel v w enough h h' =
      let (j, lt, e) = index_node v h in
      let (i, lt', e') = index_node w h' in
      Returns-mono
        (nearest_common_dominator-NearestOver b.rpo b.order.once (dom_at b.dom) (down b.dom b.array)
          (λ k. Anc-root b.array.inv) t b.linked fuel j v i w (omega (arith, b.linked.size))
          (omega (arith, b.linked.size)) e e')
        λ r near. (
          (Over-OnEveryPath r v j e).0 near.left,
          (Over-OnEveryPath r w i e').0 near.right,
          λ x p q.
              let (k, at_k, over) =
                near.nearest x ((Over-OnEveryPath x v j e).1 p) ((Over-OnEveryPath x w i e').1 q) in
              (Over-OnEveryPath x r k at_k).0 over,
        )

  pub Built-idom :
      (v : ℕ)
      → contains t v ≡ true
      → (v == entry) ≡ false
      → (u : ℕ) × (idom t v ≡ some (some u))
        × ((u == v) ≡ false)
        × OnEveryPath g entry u v
        × ((x : ℕ) → OnEveryPath g entry x v → (x == v) ≡ false → OnEveryPath g entry x u)
  Built-idom v h other =
      let (j, lt, e) = index_node v h in
      let pos = later j v e other in
      let (p, u, less, up, at_p, named) =
        parent_of b.rpo b.order.once (dom_at b.dom) (down b.dom b.array) (λ k. Anc-root b.array.inv)
          t b.linked j v pos e in
      (
        u,
        idom_is b.rpo b.order.once (dom_at b.dom) (down b.dom b.array) (λ k. Anc-root b.array.inv) t
              b.linked j v e
            ∙ ap some named,
        distinct p j u v less at_p e,
        (Over-OnEveryPath u v j e).0 (p, at_p, above up self),
        λ x every miss.
            let (k, at_k, a) = (Over-OnEveryPath x v j e).1 every in
            elim (Anc-parent up a) [
              | inl same ↦ absurd (off k j x v same at_k e miss)
              | inr a' ↦ (Over-OnEveryPath x u p at_p).0 (k, at_k, a')
            ],
      )
    where
      later : (j v : ℕ) → get_elem? b.rpo j ≡ some v → (v == entry) ≡ false → 0 < j
      later zero v e f =
          let same : some v ≡ some entry = sym e ∙ b.order.starts in
          absurd (ground (arith, same, f, ==_refl entry))
      later (suc j) v e f = omega arith

      distinct :
          (p j u v : ℕ)
          → p < j
          → get_elem? b.rpo p ≡ some u
          → get_elem? b.rpo j ≡ some v
          → (u == v) ≡ false
      distinct p j u v lt e e' = elim (Bool-cases (u == v)) [
        | inl k ↦
            let here : some p ≡ some j =
              sym (rpo_index_get b.rpo p u b.order.once e)
              ∙ ap (rpo_index b.rpo) (==→≡ u v k)
              ∙ rpo_index_get b.rpo j v b.order.once e' in
            let same : p ≡ j = ground (arith, here) in absurd (omega (arith, same))
        | inr f ↦ f
      ]

      off :
          (k j x v : ℕ)
          → k ≡ j
          → get_elem? b.rpo k ≡ some x
          → get_elem? b.rpo j ≡ some v
          → (x == v) ≡ false
          → ⊥
      off k j x v h e e' f =
          let same : some x ≡ some v = sym e ∙ ap (get_elem? b.rpo) h ∙ e' in
          ground (arith, same, f, ==_refl v)

  pub Built-top : idom t entry ≡ some none
  Built-top =
      idom_is b.rpo b.order.once (dom_at b.dom) (down b.dom b.array) (λ k. Anc-root b.array.inv) t
        b.linked 0 entry b.order.starts
      ∙ ap some (b.linked.top entry b.order.starts)

  pub Built-children :
      (c v : ℕ) (l : List ℕ) → children t v ≡ some l → (has c l ≡ true) ↔ (idom t c ≡ some (some v))
  unfolding children idom
  Built-children c v l h = elim (Option-cases (find_node t.dominators_map v)) [
    | inl e ↦ absurd_of (sym (ap (λ (o : Option DomTreeNode). o >>= λ n. some n.children) e) ∙ h)
    | inr (n, e) ↦
        let l_is : some n.children ≡ some l =
          sym (ap (λ (o : Option DomTreeNode). o >>= λ n. some n.children) e) ∙ h in
        let kids : has c l ≡ is_value (parent_name t.dominators_map c) v =
          ap (λ (o : Option (List ℕ)). elim o [ none ↦ false | some m ↦ has c m ]) (sym l_is)
          ∙ b.linked.kids c v n e in
        (
          (λ k. parent_some (find_node t.dominators_map c) (sym kids ∙ k)),
          λ k. kids ∙ some_parent (find_node t.dominators_map c) k,
        )
  ]
    where
      absurd_of : {A : Type 0} {m : List ℕ} → none ≡ some m → A
      absurd_of h = cc

      parent_some :
          (o : Option DomTreeNode)
          → is_value (o >>= λ n. n.parent) v ≡ true
          → (o >>= λ n. some n.parent) ≡ some (some v)
      parent_some none k = cc
      parent_some (some n) k = by_parent n.parent k
        where
          by_parent : (o : Option ℕ) → is_value o v ≡ true → some o ≡ some (some v)
          by_parent none k = cc
          by_parent (some w) k = ap (λ z. some (some z)) (==→≡ w v k)

      some_parent :
          (o : Option DomTreeNode)
          → (o >>= λ n. some n.parent) ≡ some (some v)
          → is_value (o >>= λ n. n.parent) v ≡ true
      some_parent none k = cc
      some_parent (some n) k = by_parent n.parent k
        where
          by_parent : (o : Option ℕ) → some o ≡ some (some v) → is_value o v ≡ true
          by_parent none k = cc
          by_parent (some w) k = ground (arith, k, ==_refl v)
