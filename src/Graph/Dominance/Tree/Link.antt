-- ===== src/Graph/Dominance/Tree/Link.antt =====
-- The loop over the nodes and their parents, and the tree that it builds.
use pliron.Prelude.{
  Option-cases, ℕ, suc, ◌+◌, ◌<◌, ◌≡◌, refl, sym, ap, ◌∙◌, true, false, Option, none, some, List,
  [], ◌∷◌, arith, ◌==◌, ==→≡, ==_refl, ==_false_sym, if◌then◌else◌, length, has, Distinct,
  Bool-cases, inl, inr, Returns, returns, Returns-bind,
}
use mathlib.Core.Path.{subst}
use pliron.SmallTable.Vec.{get_elem?}
use pliron.Graph.Traversals.Lists.{get_elem?_in}
use pliron.Graph.Dominance.{Dom, dom_at, is_value}
use pliron.Graph.Dominance.Tree.{DomTreeNode, find_node, insert_node, link, build_tree}
use pliron.Graph.Dominance.Tree.Nodes.{
  NodeMap, find_node-insert_node, length-insert_node, add_child, push_child-some,
}
use pliron.Graph.Dominance.Tree.Build.{
  Linked, parent_name, found, child_new, not_parent, Linked-grown,
}

pub found-some :
    (t : NodeMap) (v : ℕ) → found t v ≡ true → (n : DomTreeNode) × (find_node t v ≡ some n)
found-some t v h = elim (Option-cases (find_node t v)) [
  | inl e ↦ absurd (ground (arith, e, h))
  | inr r ↦ r
]

found-none : (t : NodeMap) (v : ℕ) → found t v ≡ false → find_node t v ≡ none
found-none t v h = elim (Option-cases (find_node t v)) [
  | inl e ↦ e
  | inr (n, e) ↦ absurd (ground (arith, e, h))
]

module _ (rpo : List ℕ) (once : Distinct rpo) (d : ℕ → Option ℕ)
    (down : (j : ℕ) → 0 < j → j < length rpo → (p : ℕ) × (p < j) × (d j ≡ some p)) where
  link-Linked :
      (rest : Dom) (i : ℕ) (t : NodeMap)
      → 0 < i
      → i + length rest ≡ length rpo
      → ((k : ℕ) → dom_at rest k ≡ d (i + k))
      → Linked rpo d i t
      → Returns (Linked rpo d (length rpo)) (link rpo i rest t)
  unfolding link dom_at
  link-Linked [] i t pos len same linked =
      let e : i ≡ length rpo = omega (arith, len) in
      returns (subst (λ z. Linked rpo d z t) e linked)
  link-Linked (x ∷ rest) i t pos len same linked =
      let (p, lt, up_i) = down i pos (omega (arith, len)) in
      let here : i + 0 ≡ i = omega arith in
      let x_is : x ≡ some p = same 0 ∙ ap d here ∙ up_i in
      let (child, at_i) = get_elem?_in rpo i (omega (arith, len)) in
      let (u, at_p) = get_elem?_in rpo p (omega (arith, len)) in
      let (n, n_found) = found-some t u (linked.holds p u lt at_p) in
      let new = child_new rpo once d i t linked pos child p u at_i at_p up_i lt n n_found in
      let other = not_parent rpo once d i t linked pos child p u at_i at_p up_i lt n n_found in
      let node : DomTreeNode = record { parent = some u; children = [] } in
      let (t', pushed, len', found') =
        push_child-some (insert_node t child node) u child n
          (find_node-insert_node t child u node ∙ rw (==_false_sym u child other) n_found) in
      let grown = λ (w : ℕ).
        found' w
        ∙ ap (λ z. if u == w then some (add_child n child) else z)
            (find_node-insert_node t child w node) in
      let linked' =
        Linked-grown rpo once d i t linked pos child p u at_i at_p up_i lt n n_found t' grown
          (len' ∙ length-insert_node t child node (found-none t child new)) in
      let shift : (k : ℕ) → i + suc k ≡ suc i + k = λ k. omega arith in
      rw (at_i, x_is, at_p, pushed)
        (link-Linked rest (suc i) t' (omega arith) (omega (arith, len))
          (λ k. same (suc k) ∙ ap d (shift k)) linked')

  Linked-first :
      (v : ℕ)
      → get_elem? rpo 0 ≡ some v
      → Linked rpo d 1 (insert_node [] v (record { parent = none; children = [] }))
  unfolding find_node insert_node
  Linked-first v e = record {
    holds = λ j w lt e'.
        let z : j ≡ 0 = omega (arith, lt) in
        let same : some v ≡ some w = sym e ∙ ap (get_elem? rpo) (sym z) ∙ e' in
        ground (arith, same, ==_refl v);
    only = λ w k. let same : v ≡ w = ground (arith, ==→≡ v w) in (0, omega arith, e ∙ ap some same);
    top = λ w e'. alone w;
    parents = λ j w q u pos lt at_j at_d at_q. absurd (omega arith);
    up = λ w u e'. absurd_of (sym e' ∙ alone w);
    kids = λ c w n e'. leaf c w n e' ∙ ap (λ o. is_value o w) (sym (alone c));
    size = refl;
  }
    where
      alone : (w : ℕ) → parent_name ((v, record { parent = none; children = [] }) ∷ []) w ≡ none
      alone w = elim (Bool-cases (v == w)) [ inl k ↦ rw k refl | inr f ↦ rw f refl ]

      leaf :
          (c w : ℕ) (n : DomTreeNode)
          → find_node ((v, record { parent = none; children = [] }) ∷ []) w ≡ some n
          → has c n.children ≡ false
      leaf c w n h = elim (Bool-cases (v == w)) [
        | inl k ↦
            let n_is : some (record { parent = none; children = [] }) ≡ some n = rw k refl ∙ h in
            ap (λ (o : Option DomTreeNode). elim o [ none ↦ false | some m ↦ has c m.children ])
              (sym n_is)
        | inr f ↦ absurd (ground (arith, f, h))
      ]

      absurd_of : {A : Type 0} {u : ℕ} → some u ≡ none → A
      absurd_of h = cc

  pub build_tree-Linked :
      (entry : ℕ) (dom : Dom)
      → length dom ≡ length rpo
      → 0 < length rpo
      → ((k : ℕ) → dom_at dom k ≡ d k)
      → Returns
          (λ t. (t.root ≡ some entry) × Linked rpo d (length rpo) t.dominators_map)
          (build_tree entry rpo dom)
  unfolding build_tree dom_at
  build_tree-Linked entry [] len pos same = absurd (omega (arith, len))
  build_tree-Linked entry (x ∷ dom) len pos same =
      let (v, e) = get_elem?_in rpo 0 pos in
      rw e (
        Returns-bind
          (link-Linked dom 1 _ (omega arith) (omega (arith, len))
            (λ k. same (suc k) ∙ ap d (next k)) (Linked-first v e))
          λ t linked. returns (refl, linked))
    where
      next : (k : ℕ) → suc k ≡ 1 + k
      next k = omega arith
