-- ===== src/Graph/Dominance/Frontier/Correct.antt =====
-- DomFrontierMap::new gives the dominance frontiers.
use pliron.Prelude.{
  ℕ, ◌<◌, ◌≤◌, ◌≡◌, ◌↔◌, refl, sym, ap, ◌∙◌, Bool, true, false, none, some, List, [], ◌∷◌, arith,
  ◌==◌, ==→≡, ==_refl, ltb, if◌then◌else◌, ◌>>=◌, length, has, is_some, Bool-cases, inl, inr, ◌⊎◌,
  Returns, returns, Returns-mono, Returns-bind,
}
use mathlib.Core.Path.{subst}
use pliron.SmallTable.Vec.{get_elem?}
use pliron.Graph.{ControlFlowGraph, num_predecessors}
use pliron.Graph.Traversals.Lists.{has_of_get_elem?}
use pliron.Graph.Dominance.Ancestors.{Anc, self, above, Anc-parent, Anc-le, Anc-root}
use pliron.Graph.Dominance.Tree.{DomTree, contains, dominators, num_nodes}
use pliron.Graph.Dominance.Tree.Queries.{parent_of, idom_is}
use pliron.Graph.Dominance.Tree.Correct.{down, Built}
use pliron.Graph.Dominance.Tree.Answers.{index_node, Over-OnEveryPath, Built-reached}
use pliron.Graph.Dominance.Frontier.{
  DomFrontierMap, take_until, add_runners, add_preds, add_node, add_nodes, new,
}
use pliron.Graph.Dominance.Frontier.Runners.{
  inside, Added, Added-none, Added-then, add_runners-Added,
}
use pliron.Graph.Dominance.Frontier.Below.{Below, take_until-Below}
use pliron.Graph.Dominance.Frontier.Lone.{InFrontier, lone_pred, same, positive, go_on, d}

Added-iff :
    {res res' : DomFrontierMap} {b : ℕ} {P Q : ℕ → Type 0}
    → Added res b P res'
    → ((v : ℕ) → P v → Q v)
    → ((v : ℕ) → Q v → P v)
    → Added res b Q res'
Added-iff x to from = record {
  keys = x.keys;
  old = x.old;
  fresh = λ v q. x.fresh v (from v q);
  only = λ v c h. elim (x.only v c h) [ inl k ↦ inl k | inr (e, p) ↦ inr (e, to v p) ];
}

module _ (g : ControlFlowGraph) (entry : ℕ) (t : DomTree) (b : Built g entry t)
    (no_preds : g.predecessors entry ≡ []) (fuel : ℕ) (enough : num_nodes t ≤ fuel) where
  abbrev BelowAt : ℕ → ℕ → ℕ → Type 0
  BelowAt q v j =
      Below b.rpo b.order.once (d g entry t b no_preds) (down b.dom b.array)
        (λ k. Anc-root b.array.inv) (λ x j. Anc-le b.array.inv) t b.linked q v j

  -- The node v dominates p, and not the node at q.
  abbrev Runs : ℕ → ℕ → ℕ → Type 0
  Runs q p v = (contains t p ≡ true) × ((j : ℕ) × (get_elem? b.rpo j ≡ some p) × BelowAt q v j)

  abbrev Covers : DomFrontierMap → Type 0
  Covers res = (v : ℕ) → has v g.nodes ≡ true → is_some (res v) ≡ true

  module _ (c j q u : ℕ) (at_j : get_elem? b.rpo j ≡ some c) (at_q : get_elem? b.rpo q ≡ some u)
      (up : d g entry t b no_preds j ≡ some q) (less : q < j) where
    -- The immediate dominator of c dominates the predecessors of c.
    idom_over_pred :
        (p i : ℕ)
        → has p (g.predecessors c) ≡ true
        → get_elem? b.rpo i ≡ some p
        → Anc (d g entry t b no_preds) q i
    idom_over_pred p i edge at_i =
        let (k, at_k, a) = (Over-OnEveryPath g entry t b u p i at_i).1 λ l w. ground (
          arith,
          (Over-OnEveryPath g entry t b u c j at_j).0 (q, at_q, above up self) (p ∷ l)
              (go_on g entry t b no_preds p c l edge w),
          differ,
        ) in
        subst (λ z. Anc (d g entry t b no_preds) z i) (same g entry t b no_preds k q u at_k at_q) a
      where
        differ : (u == c) ≡ false
        differ = elim (Bool-cases (u == c)) [
          | inl k ↦ absurd (
              omega
                (arith, less, same g entry t b no_preds q j c (at_q ∙ ap some (==→≡ u c k)) at_j))
          | inr f ↦ f
        ]

    -- One round of the loop over the predecessors.
    pred-Added :
        (p : ℕ) (res : DomFrontierMap) (z : Bool)
        → Covers res
        → has p (g.predecessors c) ≡ true
        → contains t p ≡ z
        → Returns (Added res c (Runs q p)) (
            if z
            then (dominators fuel t p >>= λ l. add_runners res c (take_until u l))
            else some res)
    unfolding num_nodes
    pred-Added p res false known edge e = returns (Added-none res λ v (h, r). absurd_of (sym e ∙ h))
      where
        absurd_of : false ≡ true → ⊥
        absurd_of h = cc
    pred-Added p res true known edge e =
        let (i, lt, at_i) = index_node g entry t b p e in
        Returns-bind
          (take_until-Below b.rpo b.order.once (d g entry t b no_preds) (down b.dom b.array)
            (λ k. Anc-root b.array.inv) (λ x j. Anc-le b.array.inv) t b.linked fuel i p q u
            (omega (arith, b.linked.size, enough)) at_i at_q (idom_over_pred p i edge at_i))
          λ l below.
            Returns-mono
              (add_runners-Added (take_until u l) res λ v h.
                let ((k, at_k, a), _) = (below v).0 h in
                known v (b.order.inside v (has_of_get_elem? b.rpo k v at_k)))
              λ res' x.
                Added-iff x (λ v h. (e, (i, at_i, (below v).0 h)))
                  λ v (_, (i', at_i', r)).
                    (below v).1
                      (subst (λ z. BelowAt q v z) (same g entry t b no_preds i' i p at_i' at_i) r)

    add_preds-Added :
        (ps : List ℕ) (res : DomFrontierMap)
        → Covers res
        → ((p : ℕ) → has p ps ≡ true → has p (g.predecessors c) ≡ true)
        → Returns
            (Added res c (λ v. (p : ℕ) × (has p ps ≡ true) × Runs q p v))
            (add_preds fuel t res c u ps)
    unfolding add_preds
    add_preds-Added [] res known edges = returns (Added-none res λ v (p, h, r). cc)
    add_preds-Added (p ∷ ps) res known edges =
        Returns-bind
          (pred-Added p res (contains t p) known (edges p (ground (arith, ==_refl p))) refl)
          λ res' x.
            Returns-mono
              (add_preds-Added ps res' (λ v h. x.keys v ∙ known v h) λ z h. edges z (ground arith))
              λ res'' y.
                Added-then x y (λ v r. split v r) (λ v r. (p, ground (arith, ==_refl p), r))
                  λ v (z, h, r). (z, ground arith, r)
      where
        split :
            (v : ℕ)
            → ((z : ℕ) × (has z (p ∷ ps) ≡ true) × Runs q z v)
            → Runs q p v ⊎ ((z : ℕ) × (has z ps ≡ true) × Runs q z v)
        split v (z, h, r) = elim (Bool-cases (z == p)) [
          | inl k ↦ inl (subst (λ y. Runs q y v) (==→≡ z p k) r)
          | inr f ↦ inr (z, ground arith, r)
        ]

    -- The predecessors give the frontier.
    InFrontier-of_Runs :
        (v : ℕ)
        → ((p : ℕ) × (has p (g.predecessors c) ≡ true) × Runs q p v)
        → InFrontier g entry v c
    InFrontier-of_Runs v (p, h, (e, (i, at_i, (over, not_over)))) = record {
      pred = p;
      edge = h;
      reached = (Built-reached g entry t b p).0 e;
      over = (Over-OnEveryPath g entry t b v p i at_i).0 over;
      not_strict = λ every.
          let (k, at_k, a) = (Over-OnEveryPath g entry t b v c j at_j).1 every in
          elim (Anc-parent up a) [
            | inl k_is ↦ name_of k v (at_k) k_is
            | inr a' ↦ absurd (not_over (k, at_k, a'))
          ];
    }
      where
        name_of : (k v : ℕ) → get_elem? b.rpo k ≡ some v → k ≡ j → v ≡ c
        name_of k v at_k k_is =
            let same_name : some v ≡ some c = sym at_k ∙ ap (get_elem? b.rpo) k_is ∙ at_j in
            ground (arith, same_name)

    Runs-of_frontier :
        (v : ℕ) → InFrontier g entry v c → (p : ℕ) × (has p (g.predecessors c) ≡ true) × Runs q p v
    Runs-of_frontier v x =
        let held = (Built-reached g entry t b x.pred).1 x.reached in
        let (i, _, at_i) = index_node g entry t b x.pred held in
        let over = (Over-OnEveryPath g entry t b v x.pred i at_i).1 x.over in
        (
          x.pred,
          x.edge,
          (
            held,
            (
              i,
              at_i,
              (
                over,
                λ (k, at_k, a).
                    let v_is =
                      x.not_strict
                        ((Over-OnEveryPath g entry t b v c j at_j).0 (k, at_k, above up a)) in
                    let k_is = same g entry t b no_preds k j c (at_k ∙ ap some v_is) at_j in
                    omega (arith, Anc-le b.array.inv a, k_is, less),
              ),
            ),
          ),
        )

  add_node-Added :
      (c : ℕ) (res : DomFrontierMap)
      → Covers res
      → Returns (Added res c (λ v. InFrontier g entry v c)) (add_node fuel g t res c)
  unfolding add_node num_predecessors
  add_node-Added c res known = elim (Bool-cases (contains t c)) [
    | inr f ↦ rw f (
        returns (
          Added-none res λ v x.
            let (l, w) = x.reached in
            let here =
              (Built-reached g entry t b c).1
                (x.pred ∷ l, go_on g entry t b no_preds x.pred c l x.edge w) in
            cc))
    | inl k ↦ elim (Bool-cases (ltb (length (g.predecessors c)) 2)) [
      | inl few ↦
          rw (k, few)
            (returns (Added-none res λ v x. lone_pred g entry t b no_preds v c (ground arith) x))
      | inr many ↦
          let (j, lt, at_j) = index_node g entry t b c k in
          let pos = positive g entry t b no_preds j c at_j (elsewhere c (ground arith)) in
          let (q, u, less, up, at_q, named) =
            parent_of b.rpo b.order.once (d g entry t b no_preds) (down b.dom b.array)
              (λ k. Anc-root b.array.inv) t b.linked j c pos at_j in
          let parent =
            idom_is b.rpo b.order.once (d g entry t b no_preds) (down b.dom b.array)
              (λ k. Anc-root b.array.inv) t b.linked j c at_j in
          rw (k, many, parent, named)
            (Returns-mono
              (add_preds-Added c j q u at_j at_q up less (g.predecessors c) res known λ p h. h)
              λ res' x.
                Added-iff x (InFrontier-of_Runs c j q u at_j at_q up less)
                  (Runs-of_frontier c j q u at_j at_q up less))
    ]
  ]
    where
      elsewhere : (c : ℕ) → 2 ≤ length (g.predecessors c) → (c == entry) ≡ false
      elsewhere c le = elim (Bool-cases (c == entry)) [
        | inl k ↦
            let none_there =
              ap (λ z. length (g.predecessors z)) (==→≡ c entry k) ∙ ap length no_preds in
            absurd (omega (arith, le, none_there))
        | inr f ↦ f
      ]

  record Frontiers (res : DomFrontierMap) (nodes : List ℕ) (res' : DomFrontierMap) : Type 0 where
    old : (v c : ℕ) → inside res v c ≡ true → inside res' v c ≡ true
    fresh : (v c : ℕ) → has c nodes ≡ true → InFrontier g entry v c → inside res' v c ≡ true
    only : (v c : ℕ) → inside res' v c ≡ true → (inside res v c ≡ true) ⊎ InFrontier g entry v c

  add_nodes-Frontiers :
      (nodes : List ℕ) (res : DomFrontierMap)
      → Covers res
      → Returns (Frontiers res nodes) (add_nodes fuel g t res nodes)
  unfolding add_nodes
  add_nodes-Frontiers [] res known =
      returns (record { old = λ v c h. h; fresh = λ v c h x. cc; only = λ v c h. inl h })
  add_nodes-Frontiers (c0 ∷ nodes) res known = Returns-bind (add_node-Added c0 res known) λ res' x.
      Returns-mono (add_nodes-Frontiers nodes res' λ v h. x.keys v ∙ known v h) λ res'' y. record {
        old = λ v c h. y.old v c (x.old v c h);
        fresh = λ v c h f. elim (Bool-cases (c == c0)) [
          | inl k ↦
              let c_is = ==→≡ c c0 k in
              y.old v c (
                subst (λ z. inside res' v z ≡ true) (sym c_is)
                  (x.fresh v (subst (λ z. InFrontier g entry v z) c_is f)))
          | inr miss ↦ y.fresh v c (ground arith) f
        ];
        only = λ v c h. elim (y.only v c h) [
          | inr f ↦ inr f
          | inl k ↦ elim (x.only v c k) [
            | inl k' ↦ inl k'
            | inr (e, f) ↦ inr (subst (λ z. InFrontier g entry v z) (sym e) f)
          ]
        ];
      }

  pub new-Frontier :
      Returns (λ res. (v c : ℕ) → (inside res v c ≡ true) ↔ InFrontier g entry v c) (new fuel g t)
  unfolding new
  new-Frontier = Returns-mono (add_nodes-Frontiers g.nodes _ λ v h. rw h refl) λ res x v c. (
    (λ h. elim (x.only v c h) [ inl k ↦ absurd (empty v c k) | inr f ↦ f ]),
    λ f.
        let (l, w) = f.reached in
        let held =
          (Built-reached g entry t b c).1
            (f.pred ∷ l, go_on g entry t b no_preds f.pred c l f.edge w) in
        let (j, _, at_j) = index_node g entry t b c held in
        x.fresh v c (b.order.inside c (has_of_get_elem? b.rpo j c at_j)) f,
  )
    where
      nothing : (z : Bool) (v c : ℕ) → inside (λ n. if z then some [] else none) v c ≡ true → ⊥
      nothing true v c h = cc
      nothing false v c h = cc

      empty : (v c : ℕ) → inside (λ n. if has n g.nodes then some [] else none) v c ≡ true → ⊥
      empty v c h = nothing (has v g.nodes) v c h
