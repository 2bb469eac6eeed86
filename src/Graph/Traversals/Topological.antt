-- ===== src/Graph/Traversals/Topological.antt =====
-- The reverse of the entry's post-order.
use pliron.Prelude.{
  ℕ, zero, suc, ◌<◌, ◌≤◌, ◌≡◌, refl, sym, ap, ◌∙◌, Bool, true, false, some, List, [], ◌∷◌, ◌++◌,
  arith, ◌==◌, ==→≡, ==_refl, has, has-append, Distinct, append-Distinct, Bool-cases, inl, inr,
  Returns, returns, Returns-bind,
}
use mathlib.Core.Path.{subst}
use mathlib.Core.List.{reverse, reverse-append}
use pliron.SmallTable.Vec.{get_elem?}
use pliron.Graph.{ControlFlowGraph}
use pliron.Graph.Traversals.{topological_order_by_component}
use pliron.Graph.Traversals.Reversed.{reverse_all, topological_order_by_component-reverse_all}
use pliron.Graph.Traversals.Lists.{before, before-snoc, has_of_get_elem?}
use pliron.Graph.Traversals.Component.{IsClosed, size, Component}
use pliron.Graph.Traversals.Order.{post_order_by_component-Component}

reverse-cons : (x : ℕ) (l : List ℕ) → reverse (x ∷ l) ≡ reverse l ++ x ∷ []
reverse-cons x l = reverse-append (x ∷ []) l

has-reverse : (a : ℕ) (l : List ℕ) → has a (reverse l) ≡ has a l
has-reverse a [] = refl
has-reverse a (x ∷ l) =
    rw (reverse-cons x l) (ground (arith, has-append a (reverse l) (x ∷ []), has-reverse a l))

Distinct-reverse : (l : List ℕ) → Distinct l → Distinct (reverse l)
Distinct-reverse [] d = tt
Distinct-reverse (x ∷ l) d = rw (reverse-cons x l) (
    append-Distinct (reverse l) (x ∷ []) (Distinct-reverse l d.1) (refl, tt)
      λ a h. ground (arith, has-reverse a l, d.0, ==→≡ a x))

before-has : (a b : ℕ) (l : List ℕ) → before a b l ≡ true → has a l ≡ true
before-has a b [] h = cc
before-has a b (x ∷ l) h = ground (arith, before-has a b l, ==_refl a, ==→≡ x a)

before-later : (a b : ℕ) (l : List ℕ) → before a b l ≡ true → has b l ≡ true
before-later a b [] h = cc
before-later a b (x ∷ l) h = ground (arith, before-later a b l)

before-reverse : (a b : ℕ) (l : List ℕ) → before a b l ≡ true → before b a (reverse l) ≡ true
before-reverse a b [] h = cc
before-reverse a b (x ∷ l) h = rw (reverse-cons x l) (
    ground (
      arith,
      before-snoc b a x (reverse l),
      before-reverse a b l,
      has-reverse b l,
      ==→≡ x a,
      ==_refl a,
    ))

-- Where a stands before b, it has a lower index.
before-index :
    (a b : ℕ) (l : List ℕ) (i : ℕ)
    → Distinct l
    → before a b l ≡ true
    → get_elem? l i ≡ some b
    → (p : ℕ) × (p < i) × (get_elem? l p ≡ some a)
before-index a b [] i d h e = cc
before-index a b (x ∷ l) zero d h e =
    let same : x ≡ b = ground arith in
    let later : has b l ≡ true = ground (arith, before-later a b l) in
    absurd (ground (arith, d.0, same, later))
before-index a b (x ∷ l) (suc i) d h e = elim (Bool-cases (x == a)) [
  | inl t ↦ (0, omega arith, ap some (==→≡ x a t))
  | inr f ↦ let (p, lt, e') = before-index a b l i d.1 (ground arith) e in (suc p, omega arith, e')
]

-- The entry stands first, and each other node after one of its predecessors.
pub record EntryOrder (g : ControlFlowGraph) (entry : ℕ) (rpo : List ℕ) : Type 0 where
  pub once : Distinct rpo
  pub starts : get_elem? rpo 0 ≡ some entry
  pub inside : (v : ℕ) → has v rpo ≡ true → has v g.nodes ≡ true
  pub closed : (v w : ℕ) → has v rpo ≡ true → has w (g.successors v) ≡ true → has w rpo ≡ true
  pub early :
      (i v : ℕ)
      → 0 < i
      → get_elem? rpo i ≡ some v
      → (p : ℕ) × (u : ℕ) × (p < i) × (get_elem? rpo p ≡ some u) × (has v (g.successors u) ≡ true)

module _ (g : ControlFlowGraph) where
  Component-EntryOrder :
      (entry : ℕ) (seen : ℕ → Bool) (po : List ℕ)
      → Component g (λ v. false) entry (seen, po)
      → EntryOrder g entry (reverse po)
  Component-EntryOrder entry seen po c =
      let (l, e) = c.last_root in
      let rpo_is : reverse po ≡ entry ∷ reverse l = ap reverse e ∙ reverse-append l (entry ∷ []) in
      record {
        once = Distinct-reverse po c.once;
        starts = ap (λ z. get_elem? z 0) rpo_is;
        inside = λ v h. c.inside v (sym (has-reverse v po) ∙ h);
        closed = λ v w h edge.
            let reached = c.closed v w (sym (has-reverse v po) ∙ h) edge in
            has-reverse w po ∙ sym (c.parts w) ∙ reached;
        early = λ i v pos h.
            let in_po : has v po ≡ true =
              sym (has-reverse v po) ∙ has_of_get_elem? (reverse po) i v h in
            let other : (v == entry) ≡ false = later i v pos h (rpo_is) in
            let (u, edge, order) = c.led v in_po other in
            let (p, lt, at_p) =
              before-index u v (reverse po) i (Distinct-reverse po c.once)
                (before-reverse v u po order) h in
            (p, u, lt, at_p, edge);
      }
    where
      later :
          (i v : ℕ)
          → 0 < i
          → get_elem? (reverse po) i ≡ some v
          → {l : List ℕ} → reverse po ≡ entry ∷ l
          → (v == entry) ≡ false
      later zero v pos h e = absurd (omega arith)
      later (suc i) v pos h {l} e =
          let there : has v l ≡ true =
            has_of_get_elem? l i v (ap (λ z. get_elem? z (suc i)) (sym e) ∙ h) in
          let d : Distinct (entry ∷ l) = subst Distinct e (Distinct-reverse po c.once) in
          ground (arith, d.0, there, ==→≡ v entry)

  -- For a closed graph whose first node is the entry, and fuel of at least its size, the first
  -- component in topological order has the entry first, each node once, with its successors, and
  -- each other node after one of its predecessors.
  pub topological_order_by_component-EntryOrder :
      (fuel : ℕ)
      → IsClosed g
      → size g ≤ fuel
      → (entry : ℕ) (rest : List ℕ) → g.nodes ≡ entry ∷ rest
      → Returns
          (λ comps.
            (rpo : List ℕ) × (tail : List (List ℕ)) × (comps ≡ rpo ∷ tail) × EntryOrder g entry rpo)
          (topological_order_by_component fuel g)
  topological_order_by_component-EntryOrder fuel closed enough entry rest e =
      rw (topological_order_by_component-reverse_all fuel g) (
        Returns-bind (post_order_by_component-Component g fuel closed enough entry rest e)
          λ comps (seen, po, tail, e', c).
            returns (
              reverse po,
              reverse_all tail,
              ap reverse_all e',
              Component-EntryOrder entry seen po c,
            ))
