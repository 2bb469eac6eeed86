-- ===== src/Graph/Dominance/Frontier/Lone.antt =====
-- Dominance frontiers by paths, and the nodes that the loop skips.
use pliron.Prelude.{
  ℕ, zero, suc, ◌<◌, ◌≡◌, sym, ap, ◌∙◌, true, false, Option, some, List, [], ◌∷◌, arith, ◌==◌, ==→≡,
  ==_refl, length, has, Bool-cases, inl, inr,
}
use mathlib.Core.Path.{subst}
use pliron.SmallTable.Vec.{get_elem?}
use pliron.Graph.{ControlFlowGraph}
use pliron.Graph.Dominance.{dom_at}
use pliron.Graph.Dominance.Ancestors.{Anc-le}
use pliron.Graph.Dominance.Tree.{DomTree}
use pliron.Graph.Dominance.Tree.Numbers.{IsPath}
use pliron.Graph.Dominance.Tree.Build.{same_index}
use pliron.Graph.Dominance.Tree.Paths.{OnEveryPath}
use pliron.Graph.Dominance.Tree.Correct.{Built}
use pliron.Graph.Dominance.Tree.Answers.{index_node, Over-OnEveryPath, Built-reached}

only_one : (l : List ℕ) (a b : ℕ) → length l < 2 → has a l ≡ true → has b l ≡ true → a ≡ b
only_one [] a b lt h h' = cc
only_one (x ∷ []) a b lt h h' = ground (arith, ==→≡ a x, ==→≡ b x)
only_one (x ∷ y ∷ l) a b lt h h' = absurd (omega (arith, lt))

-- On every path to a predecessor of c, and, but for c itself, not on every path to c.
pub record InFrontier (g : ControlFlowGraph) (entry v c : ℕ) : Type 0 where
  pub pred : ℕ
  pub edge : has pred (g.predecessors c) ≡ true
  pub reached : (l : List ℕ) × IsPath g entry (pred ∷ l)
  pub over : OnEveryPath g entry v pred
  pub not_strict : OnEveryPath g entry v c → v ≡ c

module _ (g : ControlFlowGraph) (entry : ℕ) (t : DomTree) (b : Built g entry t)
    (no_preds : g.predecessors entry ≡ []) where
  abbrev pub d : ℕ → Option ℕ
  d = dom_at b.dom

  pub same : (i j v : ℕ) → get_elem? b.rpo i ≡ some v → get_elem? b.rpo j ≡ some v → i ≡ j
  same = same_index b.rpo b.order.once d

  -- A path to a predecessor goes on.
  pub go_on :
      (p c : ℕ) (l : List ℕ)
      → has p (g.predecessors c) ≡ true
      → IsPath g entry (p ∷ l)
      → IsPath g entry (c ∷ p ∷ l)
  go_on p c l h w = (sym (b.consistent p c) ∙ h, w)

  pub has_preds : (c p : ℕ) → has p (g.predecessors c) ≡ true → (c == entry) ≡ false
  has_preds c p h = elim (Bool-cases (c == entry)) [
    | inl k ↦
        absurd_of
          (sym (ap (λ z. has p (g.predecessors z)) (==→≡ c entry k) ∙ ap (has p) no_preds) ∙ h)
    | inr f ↦ f
  ]
    where
      absurd_of : {A : Type 0} → false ≡ true → A
      absurd_of h = cc

  pub positive : (j c : ℕ) → get_elem? b.rpo j ≡ some c → (c == entry) ≡ false → 0 < j
  positive zero c e f =
      let same_name : some c ≡ some entry = sym e ∙ b.order.starts in
      absurd (ground (arith, same_name, f, ==_refl entry))
  positive (suc j) c e f = omega arith

  -- A node with one predecessor is in no frontier.
  pub lone_pred : (v c : ℕ) → length (g.predecessors c) < 2 → InFrontier g entry v c → ⊥
  lone_pred v c few x =
      let other = has_preds c x.pred x.edge in
      let (l, w) = x.reached in
      let (j, lt, e) =
        index_node g entry t b c
          ((Built-reached g entry t b c).1 (x.pred ∷ l, go_on x.pred c l x.edge w)) in
      let (p, u, less, at_p, edge) = b.order.early j c (positive j c e other) e in
      let p_is : u ≡ x.pred =
        only_one (g.predecessors c) u x.pred few (b.consistent u c ∙ edge) x.edge in
      let v_is = x.not_strict (through x other) in
      let (k, at_k, a) = (Over-OnEveryPath g entry t b v x.pred p (at_p ∙ ap some p_is)).1 x.over in
      let k_is = same k j c (at_k ∙ ap some v_is) e in
      omega (arith, Anc-le b.array.inv a, k_is, less)
    where
      through : (x : InFrontier g entry v c) → (c == entry) ≡ false → OnEveryPath g entry v c
      through x other [] w = absurd (ground (arith, w, other, ==_refl entry))
      through x other (z ∷ l) w =
          let z_is : z ≡ x.pred =
            only_one (g.predecessors c) z x.pred few (b.consistent z c ∙ w.0) x.edge in
          let on : has v (z ∷ l) ≡ true =
            subst (λ y. OnEveryPath g entry v y) (sym z_is) x.over l w.1 in
          ground arith
