-- ===== src/Graph/Dominance/Tree/Build.antt =====
-- The tree that is built from the array of parents.
use pliron.Prelude.{
  Option-cases, ℕ, suc, ◌<◌, ◌≡◌, refl, sym, ap, ◌∙◌, Bool, true, false, ◌||◌, Option, none, some,
  List, [], ◌∷◌, ◌++◌, arith, ◌==◌, ==→≡, ==_refl, ==_false_sym, if◌then◌else◌, ◌>>=◌, length, has,
  has-append, Distinct, is_some, Bool-cases, inl, inr,
}
use pliron.SmallTable.Vec.{get_elem?}
use pliron.Graph.Dominance.{is_value}
use pliron.Graph.Dominance.Tree.{DomTreeNode, find_node}
use pliron.Graph.Dominance.Tree.Numbers.{rpo_index_get}
use pliron.Graph.Dominance.Tree.Nodes.{NodeMap, add_child}

abbrev pub parent_name : NodeMap → ℕ → Option ℕ
parent_name t v = find_node t v >>= λ n. n.parent

abbrev pub found : NodeMap → ℕ → Bool
found t v = is_some (find_node t v)

-- The first i nodes of the order are in the map, with their parents, and the children of a node are
-- the nodes whose parent it is.
pub record Linked (rpo : List ℕ) (d : ℕ → Option ℕ) (i : ℕ) (t : NodeMap) : Type 0 where
  pub holds : (j v : ℕ) → j < i → get_elem? rpo j ≡ some v → found t v ≡ true
  pub only : (v : ℕ) → found t v ≡ true → (j : ℕ) × (j < i) × (get_elem? rpo j ≡ some v)
  pub top : (v : ℕ) → get_elem? rpo 0 ≡ some v → parent_name t v ≡ none
  pub parents :
      (j v p u : ℕ)
      → 0 < j
      → j < i
      → get_elem? rpo j ≡ some v
      → d j ≡ some p
      → get_elem? rpo p ≡ some u
      → parent_name t v ≡ some u
  pub up : (v u : ℕ) → parent_name t v ≡ some u → found t u ≡ true
  pub kids :
      (c v : ℕ) (n : DomTreeNode)
      → find_node t v ≡ some n
      → has c n.children ≡ is_value (parent_name t c) v
  pub size : length t ≡ i

is_value-some : (o : Option ℕ) (v : ℕ) → is_value o v ≡ true → o ≡ some v
is_value-some none v h = cc
is_value-some (some w) v h = ap some (==→≡ w v h)

module _ (rpo : List ℕ) (once : Distinct rpo) (d : ℕ → Option ℕ) where
  pub same_index : (i j v : ℕ) → get_elem? rpo i ≡ some v → get_elem? rpo j ≡ some v → i ≡ j
  same_index i j v e e' =
      some_eq (sym (rpo_index_get rpo i v once e) ∙ rpo_index_get rpo j v once e')
    where
      some_eq : {a b : ℕ} → some a ≡ some b → a ≡ b
      some_eq h = cc

  module _ (i : ℕ) (t : NodeMap) (linked : Linked rpo d i t) (pos : 0 < i) (child p u : ℕ)
      (at_i : get_elem? rpo i ≡ some child) (at_p : get_elem? rpo p ≡ some u) (up_i : d i ≡ some p)
      (less : p < i) (n : DomTreeNode) (n_found : find_node t u ≡ some n) where
    pub child_new : found t child ≡ false
    child_new = elim (Bool-cases (found t child)) [
      | inl k ↦
          let (j, lt, e) = linked.only child k in
          absurd (omega (arith, same_index i j child at_i e))
      | inr f ↦ f
    ]

    pub not_parent : (u == child) ≡ false
    not_parent =
        ground (
          arith,
          child_new,
          n_found,
          λ (e : (u == child) ≡ true). ap (find_node t) (==→≡ u child e),
        )

    -- What the map holds after the insertion of the child and the update of its parent.
    abbrev pub Grown : NodeMap → Type 0
    Grown t' =
        (w : ℕ)
        → find_node t' w ≡ (
            if u == w
            then some (add_child n child)
            else if child == w
            then some (record { parent = some u; children = [] })
            else find_node t w)

    Grown-parent :
        (t' : NodeMap)
        → Grown t'
        → (w : ℕ) → parent_name t' w ≡ (if child == w then some u else parent_name t w)
    Grown-parent t' g w = elim (Bool-cases (u == w)) [
      | inl k ↦
          let same = ==→≡ u w k in
          let other : (child == w) ≡ false =
            ap (λ z. child == z) (sym same) ∙ ==_false_sym u child not_parent in
          let before : find_node t w ≡ some n = ap (find_node t) (sym same) ∙ n_found in
          rw (g w, k, other, before) refl
      | inr f ↦ elim (Bool-cases (child == w)) [
        | inl k ↦ rw (g w, f, k) refl
        | inr f' ↦ rw (g w, f, f') refl
      ]
    ]

    new_parent :
        (t' : NodeMap) → Grown t' → (w : ℕ) → (child == w) ≡ true → parent_name t' w ≡ some u
    new_parent t' g w k = Grown-parent t' g w ∙ ap (λ b. if b then some u else parent_name t w) k

    old_parent :
        (t' : NodeMap)
        → Grown t'
        → (w : ℕ) → (child == w) ≡ false
        → parent_name t' w ≡ parent_name t w
    old_parent t' g w f = Grown-parent t' g w ∙ ap (λ b. if b then some u else parent_name t w) f

    Grown-found : (t' : NodeMap) → Grown t' → (w : ℕ) → found t' w ≡ ((child == w) || found t w)
    Grown-found t' g w = elim (Bool-cases (u == w)) [
      | inl k ↦
          let before : find_node t w ≡ some n = ap (find_node t) (sym (==→≡ u w k)) ∙ n_found in
          rw (g w, k, before) (ground arith)
      | inr f ↦ elim (Bool-cases (child == w)) [
        | inl k ↦ rw (g w, f, k) refl
        | inr f' ↦ rw (g w, f, f') refl
      ]
    ]

    some_eq : {A : Type 0} {a b : A} → some a ≡ some b → a ≡ b
    some_eq {a = a} h = ap (λ o. elim o [ none ↦ a | some x ↦ x ]) h

    other_index : (j v : ℕ) → j < i → get_elem? rpo j ≡ some v → (child == v) ≡ false
    other_index j v lt e = elim (Bool-cases (child == v)) [
      | inl k ↦ absurd (omega (arith, same_index i j v (at_i ∙ ap some (==→≡ child v k)) e))
      | inr f ↦ f
    ]

    -- The new node has no children yet.
    childless : (t' : NodeMap) → Grown t' → (c : ℕ) → is_value (parent_name t' c) child ≡ false
    childless t' g c = elim (Bool-cases (child == c)) [
      | inl k ↦ ap (λ o. is_value o child) (new_parent t' g c k) ∙ not_parent
      | inr f ↦
          ap (λ o. is_value o child) (old_parent t' g c f)
          ∙ elim (Bool-cases (is_value (parent_name t c) child)) [
            | inl k ↦ absurd (
                ground
                  (arith, child_new, linked.up c child (is_value-some (parent_name t c) child k)))
            | inr f' ↦ f'
          ]
    ]

    -- The children of the other nodes.
    old_kids :
        (t' : NodeMap)
        → Grown t'
        → (c v : ℕ) (m : DomTreeNode) → find_node t v ≡ some m
        → (u == v) ≡ false
        → has c m.children ≡ is_value (parent_name t' c) v
    old_kids t' g c v m e f = elim (Bool-cases (child == c)) [
      | inl k ↦
          let before : parent_name t c ≡ none =
            ap (parent_name t) (sym (==→≡ child c k)) ∙ no_parent child child_new in
          linked.kids c v m e
          ∙ ap (λ o. is_value o v) before
          ∙ sym (ap (λ o. is_value o v) (new_parent t' g c k) ∙ f)
      | inr f' ↦ linked.kids c v m e ∙ ap (λ o. is_value o v) (sym (old_parent t' g c f'))
    ]
      where
        no_parent : (w : ℕ) → found t w ≡ false → parent_name t w ≡ none
        no_parent w h = elim (Option-cases (find_node t w)) [
          | inl e ↦ rw e refl
          | inr (m, e) ↦ absurd (ground (arith, e, h))
        ]

    parent_kids :
        (t' : NodeMap)
        → Grown t'
        → (c : ℕ) → has c (n.children ++ child ∷ []) ≡ is_value (parent_name t' c) u
    parent_kids t' g c = elim (Bool-cases (child == c)) [
      | inl k ↦
          let right : is_value (parent_name t' c) u ≡ true =
            ap (λ o. is_value o u) (new_parent t' g c k) ∙ ==_refl u in
          ground (arith, has-append c n.children (child ∷ []), right, ==→≡ child c k, ==_refl child)
      | inr f ↦
          let right : is_value (parent_name t' c) u ≡ is_value (parent_name t c) u =
            ap (λ o. is_value o u) (old_parent t' g c f) in
          let before = linked.kids c u n n_found in
          has-append c n.children (child ∷ [])
          ∙ ground (arith, before, right, ==_false_sym child c f)
    ]

    Grown-kids :
        (t' : NodeMap)
        → Grown t'
        → (c v : ℕ) (m : DomTreeNode) → find_node t' v ≡ some m
        → has c m.children ≡ is_value (parent_name t' c) v
    Grown-kids t' g c v m e = elim (Bool-cases (u == v)) [
      | inl k ↦
          let m_is : some (add_child n child) ≡ some m = rw k refl ∙ sym (g v) ∙ e in
          ap (λ z. has c z.children) (sym (some_eq m_is))
          ∙ parent_kids t' g c
          ∙ ap (is_value (parent_name t' c)) (==→≡ u v k)
      | inr f ↦ elim (Bool-cases (child == v)) [
        | inl k ↦
            let m_is : some (record { parent = some u; children = [] }) ≡ some m =
              rw (f, k) refl ∙ sym (g v) ∙ e in
            ap (λ z. has c z.children) (sym (some_eq m_is))
            ∙ sym (childless t' g c)
            ∙ ap (is_value (parent_name t' c)) (==→≡ child v k)
        | inr f' ↦
            let m_is : find_node t v ≡ some m = rw (f, f') refl ∙ sym (g v) ∙ e in
            old_kids t' g c v m m_is f
      ]
    ]

    pub Linked-grown :
        (t' : NodeMap) → Grown t' → length t' ≡ suc (length t) → Linked rpo d (suc i) t'
    Linked-grown t' g len = record {
      holds = λ j v lt e. elim (Bool-cases (j == i)) [
        | inl k ↦
            let same : child ≡ v = some_eq (sym at_i ∙ ap (get_elem? rpo) (sym (==→≡ j i k)) ∙ e) in
            Grown-found t' g v ∙ ground (arith, same, ==_refl v)
        | inr f ↦ Grown-found t' g v ∙ ground (arith, linked.holds j v (ground arith) e)
      ];
      only = λ v k. elim (Bool-cases (child == v)) [
        | inl t ↦ (i, omega arith, at_i ∙ ap some (==→≡ child v t))
        | inr f ↦
            let (j, lt, e) = linked.only v (ground (arith, Grown-found t' g v)) in
            (j, omega arith, e)
      ];
      top = λ v e. Grown-parent t' g v ∙ rw (other_index 0 v pos e) (linked.top v e);
      parents = λ j v q w pos' lt e e' e''. elim (Bool-cases (j == i)) [
        | inl k ↦
            let j_is = ==→≡ j i k in
            let same : child ≡ v = some_eq (sym at_i ∙ ap (get_elem? rpo) (sym j_is) ∙ e) in
            let q_is : p ≡ q = some_eq (sym up_i ∙ ap d (sym j_is) ∙ e') in
            let at_q : some u ≡ some w = sym at_p ∙ ap (get_elem? rpo) q_is ∙ e'' in
            Grown-parent t' g v ∙ rw (same, ==_refl v) at_q
        | inr f ↦
            Grown-parent t' g v
            ∙ rw (other_index j v (ground arith) e)
                (linked.parents j v q w pos' (ground arith) e e' e'')
      ];
      up = λ v w e. elim (Bool-cases (child == v)) [
        | inl k ↦
            let u_is : u ≡ w = some_eq (sym (sym e ∙ Grown-parent t' g v ∙ rw k refl)) in
            let u_found : found t u ≡ true = rw n_found refl in
            Grown-found t' g w ∙ ground (arith, ap (found t) (sym u_is) ∙ u_found)
        | inr f ↦
            let there = linked.up v w (rw f refl ∙ sym (Grown-parent t' g v) ∙ e) in
            Grown-found t' g w ∙ ground (arith, there)
      ];
      kids = Grown-kids t' g;
      size = len ∙ ap suc linked.size;
    }
