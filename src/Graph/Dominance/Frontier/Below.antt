-- ===== src/Graph/Dominance/Frontier/Below.antt =====
-- The dominators of a node below another.
use pliron.Prelude.{
  ℕ, zero, suc, ◌<◌, ◌≤◌, ◌≡◌, ◌↔◌, refl, sym, ap, ◌∙◌, true, false, Option, some, List, [], ◌∷◌,
  arith, ◌==◌, ==→≡, ==_refl, length, has, Distinct, Bool-cases, inl, inr, Returns, returns,
  Returns-mono, Returns-bind,
}
use mathlib.Core.Path.{subst}
use pliron.SmallTable.Vec.{get_elem?}
use pliron.Graph.Dominance.Ancestors.{Anc, self, above, Anc-parent}
use pliron.Graph.Dominance.Tree.{DomTree, dominators}
use pliron.Graph.Dominance.Tree.Build.{Linked, same_index}
use pliron.Graph.Dominance.Tree.Queries.{Over, parent_of, idom_is, same_node}
use pliron.Graph.Dominance.Frontier.{take_until}

module _ (rpo : List ℕ) (once : Distinct rpo) (d : ℕ → Option ℕ)
    (down : (j : ℕ) → 0 < j → j < length rpo → (p : ℕ) × (p < j) × (d j ≡ some p))
    (root : (k : ℕ) → Anc d k 0 → k ≡ 0) (upward : (x j : ℕ) → Anc d x j → x ≤ j) (t : DomTree)
    (linked : Linked rpo d (length rpo) t.dominators_map) where
  abbrev Over' : ℕ → ℕ → Type 0
  Over' x j = Over rpo once d down root t linked x j

  abbrev pub Below : ℕ → ℕ → ℕ → Type 0
  Below q x j = Over' x j × (Over' x q → ⊥)

  dominators-Returns :
      (fuel j v : ℕ)
      → j < fuel
      → get_elem? rpo j ≡ some v
      → Returns (λ l. (m : List ℕ) × (l ≡ v ∷ m)) (dominators fuel t v)
  unfolding dominators
  dominators-Returns zero j v lt e = absurd (omega arith)
  dominators-Returns (suc fuel) j v lt e = elim (Bool-cases (j == 0)) [
    | inl z ↦
        let at_root : get_elem? rpo 0 ≡ some v = ap (get_elem? rpo) (sym (==→≡ j 0 z)) ∙ e in
        rw (idom_is rpo once d down root t linked j v e, linked.top v at_root) (returns ([], refl))
    | inr nz ↦
        let (p, w, less, up, at_p, named) =
          parent_of rpo once d down root t linked j v (ground arith) e in
        rw (idom_is rpo once d down root t linked j v e, named)
          (Returns-bind (dominators-Returns fuel p w (omega arith) at_p)
            λ rest r. returns (rest, refl))
  ]

  -- Of the dominators of a node, those before an ancestor are the ones that are not over it.
  pub take_until-Below :
      (fuel j v q u : ℕ)
      → j < fuel
      → get_elem? rpo j ≡ some v
      → get_elem? rpo q ≡ some u
      → Anc d q j
      → Returns (λ l. (x : ℕ) → (has x (take_until u l) ≡ true) ↔ Below q x j) (dominators fuel t v)
  unfolding dominators
  take_until-Below zero j v q u lt e e' a = absurd (omega arith)
  take_until-Below (suc fuel) j v q u lt e e' a = elim (Bool-cases (j == q)) [
    | inl k ↦
        let same = same_node rpo once d down root t linked j q v u (==→≡ j q k) e e' in
        Returns-mono (dominators-Returns (suc fuel) j v lt e) λ l (m, l_is) x.
          let none_left : take_until u l ≡ [] =
            ap (take_until u) l_is ∙ rw (same, ==_refl u) refl in
          (
            (λ h. absurd_of (sym (ap (has x) none_left) ∙ h)),
            λ (over, not_over). absurd (not_over (subst (Over' x) (==→≡ j q k) over)),
          )
    | inr f ↦
        let pos = positive j q a f in
        let (p, w, less, up, at_p, named) = parent_of rpo once d down root t linked j v pos e in
        rw (idom_is rpo once d down root t linked j v e, named)
          (Returns-bind
            (take_until-Below fuel p w q u (omega arith) at_p e' (from_parent j p q up f a))
            λ rest below. returns λ x. one_more j v q u p x rest e e' up a f (below x))
  ]
    where
      absurd_of : {A : Type 0} → false ≡ true → A
      absurd_of h = cc

      positive : (j q : ℕ) → Anc d q j → (j == q) ≡ false → 0 < j
      positive zero q a f = absurd (ground (arith, root q a, f, ==_refl 0))
      positive (suc j) q a f = omega arith

      from_parent : (j p q : ℕ) → d j ≡ some p → (j == q) ≡ false → Anc d q j → Anc d q p
      from_parent j p q up f a = elim (Anc-parent up a) [
        | inl same ↦ absurd (ground (arith, same, f, ==_refl j))
        | inr a' ↦ a'
      ]

      one_more :
          (j v q u p x : ℕ) (rest : List ℕ)
          → get_elem? rpo j ≡ some v
          → get_elem? rpo q ≡ some u
          → d j ≡ some p
          → Anc d q j
          → (j == q) ≡ false
          → (has x (take_until u rest) ≡ true) ↔ Below q x p
          → (has x (take_until u (v ∷ rest)) ≡ true) ↔ Below q x j
      one_more j v q u p x rest e e' up a f (to, from) =
          let differ : (v == u) ≡ false = other_node j q v u e e' f in
          let longer : take_until u (v ∷ rest) ≡ v ∷ take_until u rest = rw differ refl in
          (
            (λ h. elim (Bool-cases (x == v)) [
              | inl k ↦
                  let x_is = ==→≡ x v k in
                  (
                    (j, e ∙ ap some (sym x_is), self),
                    λ (i, at_i, a').
                        let i_is = same_index rpo once d i j v (at_i ∙ ap some x_is) e in
                        let le = upward j q (subst (λ z. Anc d z q) i_is a') in
                        let ge = upward q j a in absurd (ground (arith, le, ge, f)),
                  )
              | inr g ↦
                  let ((i, at_i, a'), not_over) = to (ground (arith, ap (has x) longer, h, g)) in
                  ((i, at_i, above up a'), not_over)
            ]),
            λ ((i, at_i, a'), not_over). ap (has x) longer ∙ elim (Anc-parent up a') [
              | inl same ↦
                  let x_is = same_node rpo once d down root t linked i j x v same at_i e in
                  ground (arith, x_is, ==_refl v)
              | inr b ↦ ground (arith, from ((i, at_i, b), not_over))
            ],
          )
        where
          other_node :
              (j q v u : ℕ)
              → get_elem? rpo j ≡ some v
              → get_elem? rpo q ≡ some u
              → (j == q) ≡ false
              → (v == u) ≡ false
          other_node j q v u e e' f = elim (Bool-cases (v == u)) [
            | inl k ↦
                let same = same_index rpo once d j q u (e ∙ ap some (==→≡ v u k)) e' in
                absurd (ground (arith, same, f, ==_refl q))
            | inr g ↦ g
          ]
