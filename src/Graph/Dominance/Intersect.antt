-- ===== src/Graph/Dominance/Intersect.antt =====
-- intersect finds the nearest common ancestor, and compute_idom that of the processed predecessors.
use pliron.Prelude.{
  ℕ, zero, suc, ◌+◌, ◌<◌, ◌≤◌, ◌≡◌, refl, sym, ap, Bool, true, false, ◌||◌, Option, none, some,
  List, [], ◌∷◌, arith, ◌==◌, ==→≡, ==_refl, ltb, has, is_none, Bool-cases, inl, inr, ◌⊎◌, Returns,
  returns, Returns-mono, Returns-bind,
}
use mathlib.Core.Path.{subst}
use pliron.Graph.Dominance.{Dom, dom_at, climb, intersect, find_processed, meet_preds, compute_idom}
use pliron.Graph.Dominance.Ancestors.{
  Anc, self, above, Anc-trans, Anc-parent, Inv, Anc-le, Anc-processed,
}

-- r is the nearest common ancestor of a and b.
pub record Meet (d : ℕ → Option ℕ) (a b r : ℕ) : Type 0 where
  pub left : Anc d r a
  pub right : Anc d r b
  pub nearest : (x : ℕ) → Anc d x a → Anc d x b → Anc d x r

-- r is the nearest common ancestor of the processed nodes of a list, and there is one.
pub record NewIdom (d : ℕ → Option ℕ) (ps : List ℕ) (r : ℕ) : Type 0 where
  pub some_pred : (p : ℕ) × (q : ℕ) × (has p ps ≡ true) × (d p ≡ some q)
  pub common : (p q : ℕ) → has p ps ≡ true → d p ≡ some q → Anc d r p
  pub nearest : (x : ℕ) → ((p q : ℕ) → has p ps ≡ true → d p ≡ some q → Anc d x p) → Anc d x r

module _ {preds : ℕ → List ℕ} (dom : Dom) (inv : Inv preds (dom_at dom)) where
  abbrev d : ℕ → Option ℕ
  d = dom_at dom

  -- Where climbing from f to t ends.
  abbrev Climbed : ℕ → ℕ → ℕ → Type 0
  Climbed f t r =
      Anc d r f × (r ≤ t) × ((t < f) → r < f) × ((x : ℕ) → x ≤ t → Anc d x f → Anc d x r)

  climb-Returns :
      (fuel f t p : ℕ) → f < fuel → d f ≡ some p → Returns (Climbed f t) (climb fuel dom f t)
  unfolding climb
  climb-Returns zero f t p h e = absurd (omega arith)
  climb-Returns (suc fuel) f t p h e = elim (Bool-cases (ltb t f)) [
    | inl above_t ↦
        let lt : t < f = ground arith in
        let p_lt = inv.down f p e (omega arith) in
        let (q, e') = inv.closed f p e in
        rw (climb, above_t, e)
          (Returns-mono (climb-Returns fuel p t q (omega arith) e') λ r (a, le, less, near). (
            above e a,
            le,
            λ _. omega (arith, Anc-le inv a),
            λ x k b. near x k (parent_of (Anc-parent e b) (omega arith)),
          ))
    | inr below_t ↦
        rw (climb, below_t) (returns (self, ground arith, λ lt. ground arith, λ x k b. b))
  ]
    where
      parent_of : {x p : ℕ} → (x ≡ f) ⊎ Anc d x p → x < f → Anc d x p
      parent_of (inl same) k = absurd (omega arith)
      parent_of (inr a) k = a

  pub intersect-Meet :
      (fuel f1 f2 p1 p2 : ℕ)
      → f1 + f2 < fuel
      → d f1 ≡ some p1
      → d f2 ≡ some p2
      → Returns (Meet d f1 f2) (intersect fuel f1 f2 dom)
  unfolding intersect
  intersect-Meet zero f1 f2 p1 p2 h e1 e2 = absurd (omega arith)
  intersect-Meet (suc fuel) f1 f2 p1 p2 h e1 e2 = elim (Bool-cases (f1 == f2)) [
    | inl same ↦
        rw (intersect, same)
          (returns (record {
            left = self;
            right = subst (Anc d f1) (==→≡ f1 f2 same) self;
            nearest = λ x a b. a;
          }))
    | inr other ↦
        rw (intersect, other)
          (Returns-bind (climb-Returns (suc f1) f1 f2 p1 (omega arith) e1)
            λ r1 (a1, le1, less1, near1).
              Returns-bind (climb-Returns (suc f2) f2 r1 p2 (omega arith) e2)
                λ r2 (a2, le2, less2, near2).
                  let (q1, e1') = Anc-processed inv e1 a1 in
                  let (q2, e2') = Anc-processed inv e2 a2 in
                  Returns-mono
                    (intersect-Meet fuel r1 r2 q1 q2
                      (shrinks (Anc-le inv a1) (Anc-le inv a2) le1 less1 less2 other h) e1' e2')
                    λ r m. record {
                      left = Anc-trans m.left a1;
                      right = Anc-trans m.right a2;
                      nearest = λ x a b.
                          let in1 = near1 x (Anc-le inv b) a in
                          m.nearest x in1 (near2 x (Anc-le inv in1) b);
                    })
  ]
    where
      shrinks :
          {r1 r2 : ℕ}
          → r1 ≤ f1
          → r2 ≤ f2
          → r1 ≤ f2
          → (f2 < f1 → r1 < f1)
          → (r1 < f2 → r2 < f2)
          → (f1 == f2) ≡ false
          → f1 + f2 < suc fuel
          → r1 + r2 < fuel
      shrinks a b c l1 l2 ne h = grind arith

  -- What the loop over the predecessors keeps.
  Met : List ℕ → ℕ → ℕ → ℕ → Type 0
  Met ps picked new r =
      Anc d r new
      × ((p q : ℕ) → has p ps ≡ true → d p ≡ some q → (p == picked) ≡ false → Anc d r p)
      × ((x : ℕ)
          → Anc d x new
          → ((p q : ℕ) → has p ps ≡ true → d p ≡ some q → Anc d x p)
          → Anc d x r)

  meet_preds-Met :
      (ps : List ℕ) (picked new q0 : ℕ)
      → d new ≡ some q0
      → Returns (Met ps picked new) (meet_preds dom picked ps new)
  unfolding meet_preds Met
  meet_preds-Met [] picked new q0 e = returns (self, (λ p q h. cc), λ x a k. a)
  meet_preds-Met (p ∷ ps) picked new q0 e = elim (Bool-cases (p == picked || is_none (d p))) [
    | inl skip ↦
        rw (meet_preds, skip)
          (Returns-mono (meet_preds-Met ps picked new q0 e) λ r (a, low, near). (
            a,
            (λ p' q h k ne. low p' q (other_pred (p' == p) h (skipped p' skip k ne)) k ne),
            λ x b k. near x b λ p' q h. k p' q (ground arith),
          ))
    | inr take ↦
        let (q1, e1) = processed (d p) (ground arith) in
        rw (meet_preds, take)
          (Returns-bind (intersect-Meet (suc (p + new)) p new q1 q0 (omega arith) e1 e) λ r m.
            let (q2, e2) = Anc-processed inv e m.right in
            Returns-mono (meet_preds-Met ps picked r q2 e2) λ r' (a, low, near). (
              Anc-trans a m.right,
              (λ p' q h k ne. elim (Bool-cases (p' == p)) [
                | inl t ↦ subst (Anc d r') (sym (==→≡ p' p t)) (Anc-trans a m.left)
                | inr f ↦ low p' q (ground arith) k ne
              ]),
              λ x b k.
                  near x (m.nearest x (k p q1 (ground (arith, ==_refl p)) e1) b)
                    λ p' q h. k p' q (ground arith),
            ))
  ]
    where
      processed : (o : Option ℕ) → is_none o ≡ false → (q : ℕ) × (o ≡ some q)
      processed none h = cc
      processed (some q) h = (q, refl)

      skipped :
          (p' : ℕ) {q : ℕ}
          → (p == picked || is_none (d p)) ≡ true
          → d p' ≡ some q
          → (p' == picked) ≡ false
          → (p' == p) ≡ false
      skipped p' s k ne = ground (arith, λ (t : (p' == p) ≡ true). ap d (==→≡ p' p t))

      other_pred : {rest : Bool} (b : Bool) → (b || rest) ≡ true → b ≡ false → rest ≡ true
      other_pred b h k = ground arith

  abbrev Processed : List ℕ → ℕ → Type 0
  Processed ps p = (q : ℕ) × (has p ps ≡ true) × (d p ≡ some q)

  find_processed-Returns :
      (ps : List ℕ) (p0 q0 : ℕ)
      → has p0 ps ≡ true
      → d p0 ≡ some q0
      → Returns (Processed ps) (find_processed dom ps)
  unfolding find_processed
  find_processed-Returns [] p0 q0 h e = cc
  find_processed-Returns (p ∷ ps) p0 q0 h e =
      go (d p) refl λ h'. find_processed-Returns ps p0 q0 h' e
    where
      go :
          (o : Option ℕ)
          → d p ≡ o
          → (has p0 ps ≡ true → Returns (Processed ps) (find_processed dom ps))
          → Returns (Processed (p ∷ ps)) (find_processed dom (p ∷ ps))
      go none eo rest =
          rw (find_processed, eo)
            (Returns-mono (rest (ground (arith, λ (t : (p0 == p) ≡ true). ap d (==→≡ p0 p t))))
              λ p' (q, h', e'). (q, ground arith, e'))
      go (some q) eo rest = rw (find_processed, eo) (returns (q, ground (arith, ==_refl p), eo))

  -- compute_idom returns the nearest common ancestor of the processed predecessors, if there is one.
  pub compute_idom-NewIdom :
      (ps : List ℕ) (p0 q0 : ℕ)
      → has p0 ps ≡ true
      → d p0 ≡ some q0
      → Returns (NewIdom d ps) (compute_idom dom ps)
  unfolding compute_idom Met
  compute_idom-NewIdom ps p0 q0 h e =
      Returns-bind (find_processed-Returns ps p0 q0 h e) λ p (q, h', e').
        Returns-mono (meet_preds-Met ps p p q e') λ r (a, low, near). record {
          some_pred = (p, q, h', e');
          common = λ p' q' k e''. elim (Bool-cases (p' == p)) [
            | inl t ↦ subst (Anc d r) (sym (==→≡ p' p t)) a
            | inr f ↦ low p' q' k e'' f
          ];
          nearest = λ x k. near x (k p q h' e') k;
        }
