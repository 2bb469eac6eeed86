-- ===== src/Graph/Dominance/Tree/Queries.antt =====
-- The queries of a dominator tree, by the ancestors of the array it was built from.
use pliron.Prelude.{
  ℕ, zero, suc, ◌<◌, ◌≡◌, ◌↔◌, refl, sym, ap, ◌∙◌, true, false, Option, some, List, arith, ◌==◌,
  ==→≡, ==_refl, length, Distinct, Bool-cases, inl, inr, Returns, returns, Returns-mono,
  Returns-bind,
}
use mathlib.Core.Path.{subst}
use pliron.SmallTable.Vec.{get_elem?}
use pliron.Graph.Traversals.Lists.{get_elem?_in}
use pliron.Graph.Dominance.Ancestors.{Anc, self, above, Anc-parent}
use pliron.Graph.Dominance.Tree.{
  DomTree, idom, dominators, dominates, find_dominating, nearest_common_dominator,
}
use pliron.Graph.Dominance.Tree.Numbers.{get_elem?_lt}
use pliron.Graph.Dominance.Tree.Build.{Linked, parent_name}
use pliron.Graph.Dominance.Tree.Link.{found-some}

module _ (rpo : List ℕ) (once : Distinct rpo) (d : ℕ → Option ℕ)
    (down : (j : ℕ) → 0 < j → j < length rpo → (p : ℕ) × (p < j) × (d j ≡ some p))
    (root : (k : ℕ) → Anc d k 0 → k ≡ 0) (t : DomTree)
    (linked : Linked rpo d (length rpo) t.dominators_map) where
  abbrev pub Over : ℕ → ℕ → Type 0
  Over x j = (k : ℕ) × (get_elem? rpo k ≡ some x) × Anc d k j

  -- The parent of a node but the entry, by names.
  pub parent_of :
      (j v : ℕ)
      → 0 < j
      → get_elem? rpo j ≡ some v
      → (p : ℕ) × (u : ℕ) × (p < j)
        × (d j ≡ some p)
        × (get_elem? rpo p ≡ some u)
        × (parent_name t.dominators_map v ≡ some u)
  parent_of j v pos e =
      let lt = get_elem?_lt rpo j v e in
      let (p, less, up) = down j pos lt in
      let (u, at_p) = get_elem?_in rpo p (omega (arith, lt, less)) in
      (p, u, less, up, at_p, linked.parents j v p u pos lt e up at_p)

  pub idom_is :
      (j v : ℕ) → get_elem? rpo j ≡ some v → idom t v ≡ some (parent_name t.dominators_map v)
  unfolding idom
  idom_is j v e =
      let (n, e') = found-some t.dominators_map v (linked.holds j v (get_elem?_lt rpo j v e) e) in
      rw e' refl

  pub same_node :
      (i j v w : ℕ) → i ≡ j → get_elem? rpo i ≡ some v → get_elem? rpo j ≡ some w → v ≡ w
  same_node i j v w h e e' = some_eq (sym e ∙ ap (get_elem? rpo) h ∙ e')
    where
      some_eq : {a b : ℕ} → some a ≡ some b → a ≡ b
      some_eq h = cc

  not_same :
      (k j x v : ℕ)
      → get_elem? rpo k ≡ some x
      → get_elem? rpo j ≡ some v
      → (v == x) ≡ false
      → k ≡ j
      → ⊥
  not_same k j x v e e' f h = ground (arith, same_node k j x v h e e', f, ==_refl x)

  pub dominates-Over :
      (fuel j v x : ℕ)
      → j < fuel
      → get_elem? rpo j ≡ some v
      → Returns (λ b. (b ≡ true) ↔ Over x j) (dominates fuel t x v)
  unfolding dominates
  dominates-Over zero j v x lt e = absurd (omega arith)
  dominates-Over (suc fuel) j v x lt e = elim (Bool-cases (v == x)) [
    | inl k ↦
        let here = e ∙ ap some (==→≡ v x k) in rw k (returns ((λ _. (j, here, self)), λ _. refl))
    | inr f ↦ elim (Bool-cases (j == 0)) [
      | inl z ↦
          let z' = ==→≡ j 0 z in
          let at_root : get_elem? rpo 0 ≡ some v = ap (get_elem? rpo) (sym z') ∙ e in
          rw (f, linked.top v at_root)
            (returns (
              (λ h. cc),
              λ (k, at_k, a).
                  absurd (not_same k j x v at_k e f (root k (subst (Anc d k) z' a) ∙ sym z')),
            ))
      | inr nz ↦
          let (p, u, less, up, at_p, named) = parent_of j v (ground arith) e in
          rw (f, named)
            (Returns-mono (dominates-Over fuel p u x (omega arith) at_p) λ b (to, from). (
              (λ h. let (k, at_k, a) = to h in (k, at_k, above up a)),
              λ (k, at_k, a). elim (Anc-parent up a) [
                | inl same ↦ absurd (not_same k j x v at_k e f same)
                | inr a' ↦ from (k, at_k, a')
              ],
            ))
    ]
  ]

  -- r is the nearest of the nodes over both i and j.
  pub record NearestOver (i j r : ℕ) : Type 0 where
    pub left : Over r i
    pub right : Over r j
    pub nearest : (x : ℕ) → Over x i → Over x j → (k : ℕ) × (get_elem? rpo k ≡ some r) × Over x k

  entry_over : (bound j : ℕ) → j < bound → j < length rpo → Anc d 0 j
  entry_over zero j h lt = absurd (omega arith)
  entry_over (suc bound) zero h lt = self
  entry_over (suc bound) (suc j) h lt =
      let (p, less, up) = down (suc j) (omega arith) lt in
      above up (entry_over bound p (omega arith) (omega (arith, lt)))

  abbrev Finds : ℕ → ℕ → ℕ → ℕ → List ℕ → Type 0
  Finds fuel j j2 w l = Returns (NearestOver j j2) (find_dominating fuel t l w)

  -- The first dominator of one node that dominates the other.
  dominators-Finds :
      (fuel2 fuel j v j2 w : ℕ)
      → j < fuel
      → j2 < fuel2
      → get_elem? rpo j ≡ some v
      → get_elem? rpo j2 ≡ some w
      → Returns (Finds fuel2 j j2 w) (dominators fuel t v)
  unfolding dominators find_dominating
  dominators-Finds fuel2 zero j v j2 w lt lt2 e e2 = absurd (omega arith)
  dominators-Finds fuel2 (suc fuel) j v j2 w lt lt2 e e2 = elim (Bool-cases (j == 0)) [
    | inl z ↦
        let z' = ==→≡ j 0 z in
        let at_root : get_elem? rpo 0 ≡ some v = ap (get_elem? rpo) (sym z') ∙ e in
        rw (idom_is j v e, linked.top v at_root)
          (returns (
            Returns-bind (dominates-Over fuel2 j2 w v lt2 e2) λ b (to, from).
              let over : Over v j2 =
                (0, at_root, entry_over (suc j2) j2 (omega arith) (get_elem?_lt rpo j2 w e2)) in
              rw (from over) (returns (here j v j2 e over))))
    | inr nz ↦
        let (p, u, less, up, at_p, named) = parent_of j v (ground arith) e in
        rw (idom_is j v e, named)
          (Returns-bind (dominators-Finds fuel2 fuel p u j2 w (omega arith) lt2 at_p e2)
            λ rest finds. returns (
              Returns-bind (dominates-Over fuel2 j2 w v lt2 e2) λ b (to, from).
                elim (Bool-cases b) [
                  | inl hit ↦ rw hit (returns (here j v j2 e (to hit)))
                  | inr miss ↦ rw miss (
                      Returns-mono finds
                        λ r near. later j v j2 p r e up (λ h. absurd_of (sym (from h) ∙ miss)) near)
                ]))
  ]
    where
      absurd_of : {A : Type 0} → true ≡ false → A
      absurd_of h = cc

      here : (j v j2 : ℕ) → get_elem? rpo j ≡ some v → Over v j2 → NearestOver j j2 v
      here j v j2 e over = record {
        left = (j, e, self);
        right = over;
        nearest = λ x a b. (j, e, a);
      }

      later :
          (j v j2 p r : ℕ)
          → get_elem? rpo j ≡ some v
          → d j ≡ some p
          → (Over v j2 → ⊥)
          → NearestOver p j2 r
          → NearestOver j j2 r
      later j v j2 p r e up miss near = record {
        left = let (k, at_k, a) = near.left in (k, at_k, above up a);
        right = near.right;
        nearest = λ x (k, at_k, a) (k2, at_k2, a2). elim (Anc-parent up a) [
          | inl same ↦ absurd (miss (k2, at_k2 ∙ ap some (same_node k j x v same at_k e), a2))
          | inr a' ↦ near.nearest x (k, at_k, a') (k2, at_k2, a2)
        ];
      }

  pub nearest_common_dominator-NearestOver :
      (fuel j v j2 w : ℕ)
      → j < fuel
      → j2 < fuel
      → get_elem? rpo j ≡ some v
      → get_elem? rpo j2 ≡ some w
      → Returns (NearestOver j j2) (nearest_common_dominator fuel t v w)
  unfolding nearest_common_dominator
  nearest_common_dominator-NearestOver fuel j v j2 w lt lt2 e e2 =
      Returns-bind (dominators-Finds fuel fuel j v j2 w lt lt2 e e2) λ l finds. finds
