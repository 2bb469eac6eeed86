-- ===== src/Graph/Traversals/Order.antt =====
-- The post-order of a whole graph.
use pliron.Prelude.{
  ℕ, ◌≤◌, ◌<◌, ◌≡◌, refl, sym, ap, ◌∙◌, Bool, true, false, ◌||◌, some, List, [], ◌∷◌, ◌++◌, arith,
  ◌==◌, ==→≡, ==_refl, ==_false_sym, if◌then◌else◌, has, has-append, Distinct, append-Distinct,
  Bool-cases, inl, inr, Returns, returns, Returns-bind,
}
use mathlib.Core.Path.{subst}
use pliron.Graph.{ControlFlowGraph}
use pliron.Graph.Traversals.{
  post_order_walk_component, push_component, components, post_order_by_component, flatten,
  post_order,
}
use pliron.Graph.Traversals.Lists.{before}
use pliron.Graph.Traversals.Component.{
  IsClosed, size, Component, post_order_walk_component-Component,
}

before-append :
    (a b : ℕ) (l m : List ℕ)
    → before a b (l ++ m) ≡ (before a b l || (if has a l then has b m else before a b m))
before-append a b [] m = ground arith
before-append a b (x ∷ l) m = elim (Bool-cases (x == a)) [
  | inl t ↦ rw t (ground (arith, has-append b l m, ==→≡ x a t, ==_refl a))
  | inr f ↦ rw f (ground (arith, before-append a b l m, ==_false_sym x a f))
]

flatten-push_component :
    (po : List ℕ) (comps : List (List ℕ)) → flatten (push_component po comps) ≡ po ++ flatten comps
flatten-push_component [] comps = refl
flatten-push_component (v ∷ po) comps = refl

-- A list holds each node of a graph once, and, where a rank falls along the edges, a node after its
-- successors.
pub record PostOrder (g : ControlFlowGraph) (seen : ℕ → Bool) (nodes l : List ℕ) : Type 0 where
  pub once : Distinct l
  pub all : (v : ℕ) → has v nodes ≡ true → (seen v || has v l) ≡ true
  pub fresh : (v : ℕ) → has v l ≡ true → seen v ≡ false
  pub inside : (v : ℕ) → has v l ≡ true → has v g.nodes ≡ true
  pub ordered :
      (rank : ℕ → ℕ)
      → ((v w : ℕ) → has w (g.successors v) ≡ true → rank w < rank v)
      → (v w : ℕ) → has v l ≡ true
      → has w (g.successors v) ≡ true
      → (seen w || before w v l) ≡ true

module _ (g : ControlFlowGraph) (fuel : ℕ) (closed : IsClosed g) (enough : size g ≤ fuel) where
  join :
      (seen : ℕ → Bool) (root : ℕ) (nodes : List ℕ) (out : (ℕ → Bool) × List ℕ)
      (comps : List (List ℕ))
      → Component g seen root out
      → PostOrder g out.0 nodes (flatten comps)
      → PostOrder g seen (root ∷ nodes) (out.1 ++ flatten comps)
  join seen root nodes (seen', po) comps c p = record {
    once =
        append-Distinct po (flatten comps) c.once p.once
          λ v k. ground (arith, p.fresh v, c.parts v);
    all = λ v k. ground (arith, p.all v, c.parts v, has-append v po (flatten comps), root_in v);
    fresh = λ v k. ground (arith, p.fresh v, c.fresh v, c.parts v, has-append v po (flatten comps));
    inside = λ v k. ground (arith, p.inside v, c.inside v, has-append v po (flatten comps));
    ordered = λ rank falls v w k e. elim (Bool-cases (has v po)) [
      | inl t ↦ ground (arith, c.ordered rank falls v w t e, before-append w v po (flatten comps))
      | inr f ↦
          let k' : has v (flatten comps) ≡ true = ground (arith, has-append v po (flatten comps)) in
          ground
            (arith, p.ordered rank falls v w k' e, c.parts w, before-append w v po (flatten comps))
    ];
  }
    where
      root_in : (v : ℕ) → (v == root) ≡ true → has v po ≡ true
      root_in v t =
          let (l, e) = c.last_root in ground (arith, ap (has v) e, has-append v l (root ∷ []))

  skip :
      (seen : ℕ → Bool) (root : ℕ)
      → seen root ≡ true
      → post_order_walk_component fuel g root seen ≡ some (seen, [])
  unfolding post_order_walk_component
  skip seen root t = rw t refl

  pub components-PostOrder :
      (nodes : List ℕ) (seen : ℕ → Bool)
      → ((v : ℕ) → has v nodes ≡ true → has v g.nodes ≡ true)
      → Returns (λ comps. PostOrder g seen nodes (flatten comps)) (components fuel g seen nodes)
  unfolding components
  components-PostOrder [] seen sub = returns (record {
    once = tt;
    all = λ v k. cc;
    fresh = λ v k. cc;
    inside = λ v k. cc;
    ordered = λ rank falls v w k e. cc;
  })
  components-PostOrder (root ∷ nodes) seen sub = elim (Bool-cases (seen root)) [
    | inl t ↦ rw (skip seen root t) (
        Returns-bind (components-PostOrder nodes seen λ v k. sub v (ground arith)) λ comps p.
          returns (record {
            once = p.once;
            all = λ v k.
                ground (arith, p.all v, λ (e : (v == root) ≡ true). ap seen (==→≡ v root e), t);
            fresh = p.fresh;
            inside = p.inside;
            ordered = p.ordered;
          }))
    | inr f ↦
        let root_in = sub root (ground (arith, ==_refl root)) in
        Returns-bind (post_order_walk_component-Component g fuel root seen closed enough f root_in)
          λ out c.
            Returns-bind (components-PostOrder nodes out.0 λ v k. sub v (ground arith)) λ comps p.
              returns (
                subst (PostOrder g seen (root ∷ nodes)) (sym (flatten-push_component out.1 comps))
                  (join seen root nodes out comps c p))
  ]

  -- For a closed graph and fuel of at least its size, post_order lists each node once, and, where a
  -- rank falls along the edges, each node after its successors.
  pub post_order-PostOrder : Returns (PostOrder g (λ v. false) g.nodes) (post_order fuel g)
  unfolding post_order post_order_by_component
  post_order-PostOrder =
      Returns-bind (components-PostOrder g.nodes (λ v. false) λ v k. k) λ comps p. returns p

  abbrev pub FirstComponent : ℕ → List (List ℕ) → Type 0
  FirstComponent entry comps =
      (seen : ℕ → Bool) × (po : List ℕ) × (tail : List (List ℕ)) × (comps ≡ po ∷ tail)
      × Component g (λ v. false) entry (seen, po)

  -- The first component is the entry's.
  pub post_order_by_component-Component :
      (entry : ℕ) (rest : List ℕ)
      → g.nodes ≡ entry ∷ rest
      → Returns (FirstComponent entry) (post_order_by_component fuel g)
  unfolding post_order_by_component components
  post_order_by_component-Component entry rest e =
      let entry_in = ap (has entry) e ∙ ground (arith, ==_refl entry) in
      let listed = λ (v : ℕ) (k : has v rest ≡ true). ap (has v) e ∙ ground arith in
      subst (λ z. Returns (FirstComponent entry) (components fuel g (λ v. false) z)) (sym e)
        (Returns-bind
          (post_order_walk_component-Component g fuel entry (λ v. false) closed enough refl
            entry_in)
          λ out c.
            Returns-bind (components-PostOrder rest out.0 listed)
              λ comps p. returns (out.0, out.1, comps, not_empty out.1 comps entry c.last_root, c))
    where
      not_empty :
          (po : List ℕ) (comps : List (List ℕ)) (entry : ℕ)
          → (l : List ℕ) × (po ≡ l ++ entry ∷ [])
          → push_component po comps ≡ po ∷ comps
      not_empty [] comps entry ([], e) = cc
      not_empty [] comps entry (x ∷ l, e) = cc
      not_empty (v ∷ po) comps entry l = refl
