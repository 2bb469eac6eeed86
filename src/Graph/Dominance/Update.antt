-- ===== src/Graph/Dominance/Update.antt =====
-- Writing the new parent of a node keeps what holds of the array, and how it changes ancestors.
use pliron.Prelude.{
  ℕ, ◌<◌, ◌≡◌, refl, sym, ap, ◌∙◌, true, false, Option, some, List, ◌∷◌, arith, ◌==◌, ==→≡, ==_refl,
  if◌then◌else◌, has, Bool-cases, inl, inr, ◌⊎◌,
}
use mathlib.Core.Path.{subst}
use pliron.Graph.Dominance.Walks.{Dominates}
use pliron.Graph.Dominance.Ancestors.{
  Anc, self, above, Anc-trans, Anc-parent, Route, along, extend, Inv, parent-le, Anc-le, Anc-Route,
  Anc-processed,
}
use pliron.Graph.Dominance.Intersect.{NewIdom}

some-eq : {a b : ℕ} → some a ≡ some b → a ≡ b
some-eq h = cc

module _ {preds : ℕ → List ℕ} {d d' : ℕ → Option ℕ} (inv : Inv preds d) (i r : ℕ) (pos : 0 < i)
    (lt : r < i) (new : NewIdom d (preds i) r)
    (e : (j : ℕ) → d' j ≡ (if j == i then some r else d j)) where
  pub at_i : d' i ≡ some r
  at_i = e i ∙ rw (==_refl i) refl

  other : (j : ℕ) → (j == i) ≡ false → d' j ≡ d j
  other j f = e j ∙ rw f refl

  -- Below i nothing changes.
  Anc-below : {x j : ℕ} → j < i → Anc d x j → Anc d' x j
  Anc-below h self = self
  Anc-below h (above {j} {p} e' a) =
      above (other j (ground arith) ∙ e') (Anc-below (omega (arith, h, parent-le inv j p e')) a)

  pub below-Anc : {x j : ℕ} → j < i → Anc d' x j → Anc d x j
  below-Anc h self = self
  below-Anc h (above {j} {p} e' a) =
      let e'' = sym (other j (ground arith)) ∙ e' in
      above e'' (below-Anc (omega (arith, h, parent-le inv j p e'')) a)

  Anc-to_i : {j : ℕ} → Anc d i j → Anc d' i j
  Anc-to_i self = self
  Anc-to_i (above {j} {p} e' a) = elim (Bool-cases (j == i)) [
    | inl t ↦ subst (Anc d' i) (sym (==→≡ j i t)) self
    | inr f ↦ above (other j f ∙ e') (Anc-to_i a)
  ]

  -- An ancestor stays one, or it was one of i, which was one of j.
  split : {x j : ℕ} → Anc d x j → Anc d' x j ⊎ (Anc d i j × Anc d x i)
  split self = inl self
  split {x} (above {j} {p} e' a) = elim (Bool-cases (j == i)) [
    | inl t ↦
        let same = ==→≡ j i t in
        inr (subst (Anc d i) (sym same) self, subst (Anc d x) same (above e' a))
    | inr f ↦ elim (split a) [
      | inl b ↦ inl (above (other j f ∙ e') b)
      | inr (b, c) ↦ inr (above e' b, c)
    ]
  ]

  -- The other way round: a new ancestor is one of i, and i is one of j.
  pub split_new : {x j : ℕ} → Anc d' x j → Anc d x j ⊎ (Anc d i j × Anc d' x i)
  split_new self = inl self
  split_new {x} (above {j} {p} e' a) = elim (Bool-cases (j == i)) [
    | inl t ↦
        let same = ==→≡ j i t in
        inr (subst (Anc d i) (sym same) self, subst (Anc d' x) same (above e' a))
    | inr f ↦
        let e'' = sym (other j f) ∙ e' in
        elim (split_new a) [ inl b ↦ inl (above e'' b) | inr (b, c) ↦ inr (above e'' b, c) ]
  ]

  -- What the new ancestors of i are.
  pub new_ancestors : {x : ℕ} → Anc d' x i → (x ≡ i) ⊎ Anc d x r
  new_ancestors a = elim (Anc-parent at_i a) [ inl same ↦ inl same | inr b ↦ inr (below-Anc lt b) ]

  new_complete : {x : ℕ} → Dominates preds x i → Anc d' x i
  unfolding Dominates
  new_complete {x} dom = elim (Bool-cases (x == i)) [
    | inl t ↦ subst (λ z. Anc d' z i) (sym (==→≡ x i t)) self
    | inr f ↦ above at_i (
        Anc-below lt (
          new.nearest x λ p q h e'.
            inv.complete x p q e'
              λ l w. let k : has x (i ∷ p ∷ l) ≡ true = dom (p ∷ l) (h, w) in ground arith))
  ]

  pub Inv-update : Inv preds d'
  unfolding Dominates
  Inv-update =
      let (p0, q0, h0, e0) = new.some_pred in
      let r_anc = new.common p0 q0 h0 e0 in
      record {
        root = other 0 (ground arith) ∙ inv.root;
        down = λ j p e'. ground (arith, e j, inv.down j p, lt);
        closed = λ j p e'. elim (Bool-cases (p == i)) [
          | inl t ↦ (r, ap d' (==→≡ p i t) ∙ at_i)
          | inr f ↦ elim (Bool-cases (j == i)) [
            | inl t ↦
                let (q, e'') = Anc-processed inv e0 r_anc in
                let same : p ≡ r = some-eq (sym e' ∙ ap d' (==→≡ j i t) ∙ at_i) in
                (q, other p f ∙ ap d same ∙ e'')
            | inr g ↦ let (q, e'') = inv.closed j p (sym (other j g) ∙ e') in (q, other p f ∙ e'')
          ]
        ];
        route = λ j p e'. elim (Bool-cases (j == i)) [
          | inl t ↦
              let same : p ≡ r = some-eq (sym e' ∙ ap d' (==→≡ j i t) ∙ at_i) in
              subst (λ z. Route preds z j) (sym same)
                (subst (Route preds r) (sym (==→≡ j i t))
                  (along (Anc-Route inv r_anc) h0 (omega arith)))
          | inr f ↦ inv.route j p (sym (other j f) ∙ e')
        ];
        complete = λ x j p e' dom. elim (Bool-cases (j == i)) [
          | inl t ↦
              let same = ==→≡ j i t in
              subst (Anc d' x) (sym same) (new_complete (subst (Dominates preds x) same dom))
          | inr f ↦ elim (split (inv.complete x j p (sym (other j f) ∙ e') dom)) [
            | inl a ↦ a
            | inr (a, b) ↦ elim (Bool-cases (x == i)) [
              | inl t ↦ subst (λ z. Anc d' z j) (sym (==→≡ x i t)) (Anc-to_i a)
              | inr g ↦
                  let x_lt : x < i = ground (arith, Anc-le inv b) in
                  Anc-trans
                    (new_complete λ l w.
                      let (m, v, same) = extend l w (Anc-Route inv a) in
                      sym (same x x_lt) ∙ dom m v)
                    (Anc-to_i a)
            ]
          ]
        ];
      }
