-- ===== src/Graph/Dominance/Tree/Nodes.antt =====
-- The map of a dominator tree: insertion and the children.
use pliron.Prelude.{
  ℕ, suc, ◌≡◌, refl, ap, none, some, List, [], ◌∷◌, ◌++◌, arith, ◌==◌, ==→≡, ==_false_sym,
  if◌then◌else◌, ◌>>=◌, length, Bool-cases, inl, inr,
}
use pliron.Graph.Dominance.Tree.{DomTreeNode, find_node, insert_node, push_child}

abbrev pub NodeMap : Type 0
NodeMap = List (ℕ × DomTreeNode)

pub find_node-insert_node :
    (t : NodeMap) (v w : ℕ) (n : DomTreeNode)
    → find_node (insert_node t v n) w ≡ (if v == w then some n else find_node t w)
unfolding find_node insert_node
find_node-insert_node [] v w n = refl
find_node-insert_node ((x, m) ∷ t) v w n = elim (Bool-cases (x == v)) [
  | inl e ↦ let same = ==→≡ x v e in rw (e, same) (ground arith)
  | inr f ↦
      rw (f, find_node-insert_node t v w n) (ground (arith, ==→≡ x w, ==→≡ v w, ==_false_sym x v f))
]

pub length-insert_node :
    (t : NodeMap) (v : ℕ) (n : DomTreeNode)
    → find_node t v ≡ none
    → length (insert_node t v n) ≡ suc (length t)
unfolding find_node insert_node
length-insert_node [] v n h = refl
length-insert_node ((x, m) ∷ t) v n h = elim (Bool-cases (x == v)) [
  | inl e ↦ absurd (ground (arith, h, e))
  | inr f ↦ rw f (ap suc (length-insert_node t v n (ground (arith, h, f))))
]

abbrev pub add_child : DomTreeNode → ℕ → DomTreeNode
add_child n c = record n { children = n.children ++ c ∷ [] }

pub push_child-some :
    (t : NodeMap) (p c : ℕ) (n : DomTreeNode)
    → find_node t p ≡ some n
    → (t' : NodeMap) × (push_child t p c ≡ some t')
      × (length t' ≡ length t)
      × ((w : ℕ) → find_node t' w ≡ (if p == w then some (add_child n c) else find_node t w))
unfolding find_node push_child
push_child-some [] p c n h = cc
push_child-some ((x, m) ∷ t) p c n h = elim (Bool-cases (x == p)) [
  | inl e ↦
      let same = ==→≡ x p e in
      let node : some m ≡ some n = ground (arith, h, e) in
      let grown : some (add_child m c) ≡ some (add_child n c) =
        ap (λ o. o >>= λ z. some (add_child z c)) node in
      (
        (x, add_child m c) ∷ t,
        rw e refl,
        refl,
        λ w. elim (Bool-cases (p == w)) [ inl k ↦ rw (same, k) grown | inr k ↦ rw (same, k) refl ],
      )
  | inr f ↦
      let (t', pushed, len, found) = push_child-some t p c n (ground (arith, h, f)) in
      (
        (x, m) ∷ t',
        rw (f, pushed) refl,
        ap suc len,
        λ w. rw (found w) (ground (arith, ==→≡ x w, ==_false_sym x p f, ==→≡ p w)),
      )
]
