-- ===== src/Graph/Dominance/Loop.antt =====
-- The loop of compute_dominator_tree ends, and the ancestors that it computes are the dominators.
use pliron.Prelude.{
  ℕ, zero, suc, ◌+◌, ◌-◌, ◌<◌, ◌≤◌, ◌≡◌, ◌↔◌, refl, sym, ap, ◌∙◌, Bool, true, false, ◌||◌, Option,
  none, some, List, [], ◌∷◌, arith, ◌==◌, ==→≡, ==_refl, ltb, length, has, Bool-cases, inl, inr,
  Returns, returns, Returns-mono, Returns-bind,
}
use mathlib.Core.Path.{subst}
use pliron.Graph.Dominance.{Dom, dom_at, blank, initial, pass, fixpoint}
use pliron.Graph.Dominance.Walks.{IsWalk, Dominates}
use pliron.Graph.Dominance.Ancestors.{Anc, self, Anc-trans, Anc-parent, Route, start, Inv, Anc-root}
use pliron.Graph.Dominance.Intersect.{NewIdom}
use pliron.Graph.Dominance.Budget.{Within, turn, Budgets, process_node-Processed}

dom_at-blank : (n j : ℕ) → dom_at (blank n) j ≡ none
unfolding dom_at
dom_at-blank zero j = refl
dom_at-blank (suc n) zero = refl
dom_at-blank (suc n) (suc j) = dom_at-blank n j

length-initial : (n : ℕ) → length (initial n) ≡ n
length-initial zero = refl
length-initial (suc n) = ap suc (length-blank n)
  where
    length-blank : (n : ℕ) → length (blank n) ≡ n
    length-blank zero = refl
    length-blank (suc n) = ap suc (length-blank n)

dom_at-initial : (n j p : ℕ) → dom_at (initial n) j ≡ some p → (j ≡ 0) × (p ≡ 0) × (0 < n)
unfolding dom_at
dom_at-initial zero j p e = cc
dom_at-initial (suc n) zero p e = ground arith
dom_at-initial (suc n) (suc j) p e = ground (arith, dom_at-blank n j)

module _ {preds : ℕ → List ℕ} where
  -- The entry is done from the start on.
  root_Within : {d : ℕ → Option ℕ} (inv : Inv preds d) (k : ℕ) → Within preds d k 0
  unfolding Within
  root_Within inv k =
      ((λ _. (0, inv.root)), λ x l w few miss a. ground (arith, Anc-root inv a, ==_refl 0))

  Inv-initial : (n : ℕ) → Inv preds (dom_at (initial (suc n)))
  unfolding dom_at Dominates
  Inv-initial n = record {
    root = refl;
    down = λ j p e h. let (z, _, _) = dom_at-initial (suc n) j p e in absurd (omega arith);
    closed = λ j p e.
        let (_, z, _) = dom_at-initial (suc n) j p e in (0, ap (dom_at (initial (suc n))) z);
    route = λ j p e.
        let (z, z', _) = dom_at-initial (suc n) j p e in subst (Route preds p) (z' ∙ sym z) start;
    complete = λ x j p e dom.
        let (z, _, _) = dom_at-initial (suc n) j p e in
        let at_root : x ≡ j = ground (arith, dom [] z, ==→≡ x j) in
        subst (Anc (dom_at (initial (suc n))) x) at_root self;
  }

module _ (preds : ℕ → List ℕ) (n : ℕ) (bounded : (j p : ℕ) → has p (preds j) ≡ true → p < n)
    (early : (i : ℕ) → 0 < i → i < n → (p : ℕ) × (has p (preds i) ≡ true) × (p < i)) where
  -- The parent of a node is what its predecessors give.
  abbrev Fixed : (ℕ → Option ℕ) → ℕ → Type 0
  Fixed d j = (r : ℕ) × (d j ≡ some r) × NewIdom d (preds j) r

  record Passed (dom : Dom) (changed : Bool) (k i : ℕ) (out : Dom × Bool) : Type 0 where
    inv : Inv preds (dom_at out.0)
    budgets : Budgets preds n bounded (dom_at out.0) k n
    size : length out.0 ≡ length dom
    calm :
        out.1 ≡ false
        → (changed ≡ false) × (out.0 ≡ dom) × ((j : ℕ) → i ≤ j → j < n → Fixed (dom_at dom) j)
    settled : n ≤ k → changed ≡ false → out.1 ≡ false

  pass-Passed :
      (count i : ℕ) (dom : Dom) (changed : Bool) (k : ℕ)
      → i + count ≡ n
      → 0 < i
      → Inv preds (dom_at dom)
      → Budgets preds n bounded (dom_at dom) k i
      → length dom ≡ n
      → Returns (Passed dom changed k i) (pass preds dom changed i count)
  unfolding pass
  pass-Passed zero i dom changed k at_end pos inv b len = returns (record {
    inv = inv;
    budgets = subst (Budgets preds n bounded (dom_at dom) k) (omega arith) b;
    size = refl;
    calm = λ h. (h, refl, λ j le lt. absurd (omega arith));
    settled = λ le h. h;
  })
  pass-Passed (suc count) i dom changed k at_end pos inv b len =
      let (p0, h0, lt0) = early i pos (omega arith) in
      Returns-bind
        (process_node-Processed preds n bounded dom k i p0 inv b len pos (omega arith) h0 lt0)
        λ (dom', c) one.
          Returns-mono
            (pass-Passed count (suc i) dom' (changed || c) k (omega arith) (omega arith) one.inv
              one.budgets (one.size ∙ len))
            λ out rest. record {
              inv = rest.inv;
              budgets = rest.budgets;
              size = rest.size ∙ one.size;
              calm = λ h.
                  let (quiet, same, fixed) = rest.calm h in
                  let (same', here) = one.calm (ground arith) in
                  (
                    ground arith,
                    same ∙ same',
                    λ j le lt. elim (Bool-cases (j == i)) [
                      | inl t ↦ subst (Fixed (dom_at dom)) (sym (==→≡ j i t)) here
                      | inr f ↦ subst (λ z. Fixed (dom_at z) j) same' (fixed j (ground arith) lt)
                    ],
                  );
              settled = λ le h. rest.settled le (ground (arith, one.settled le));
            }

  -- The next round starts where the last one ended.
  next_round :
      (d : ℕ → Option ℕ) (k : ℕ)
      → Inv preds d
      → Budgets preds n bounded d k n
      → Budgets preds n bounded d (suc k) 1
  next_round d k inv b zero h = root_Within inv (turn (suc k) 1 0)
  next_round d k inv b (suc j) h =
      let same : turn k n (suc j) ≡ turn (suc k) 1 (suc j) = ground arith in
      subst (λ z. Within preds d z (suc j)) same (b (suc j) h)

  -- Where no parent changes, ancestors are on every walk.
  Fixed-Dominates :
      (d : ℕ → Option ℕ)
      → Inv preds d
      → ((j : ℕ) → 1 ≤ j → j < n → Fixed d j)
      → (x j : ℕ) (l : List ℕ) → j < n
      → Anc d x j
      → IsWalk preds (j ∷ l)
      → has x (j ∷ l) ≡ true
  Fixed-Dominates d inv fixed x zero l h a w = ground (arith, Anc-root inv a, ==_refl 0)
  Fixed-Dominates d inv fixed x (suc j) [] h a w = absurd (omega (arith, w))
  Fixed-Dominates d inv fixed x (suc j) (p ∷ l) h a w =
      let (r, e, new) = fixed (suc j) (omega arith) h in
      let p_lt = bounded (suc j) p w.0 in
      let (q, e') = processed p p_lt in
      elim (Anc-parent e a) [
        | inl same ↦ ground (arith, same, ==_refl (suc j))
        | inr b ↦
            let k =
              Fixed-Dominates d inv fixed x p l p_lt (Anc-trans b (new.common p q w.0 e')) w.1 in
            ground arith
      ]
    where
      processed : (p : ℕ) → p < n → (q : ℕ) × (d p ≡ some q)
      processed zero h = (0, inv.root)
      processed (suc p) h = let (r, e, _) = fixed (suc p) (omega arith) h in (r, e)

  -- Each node has a parent before it, and its ancestors are its dominators.
  pub record DominatorArray (dom : Dom) : Type 0 where
    pub size : length dom ≡ n
    pub inv : Inv preds (dom_at dom)
    pub parent : (j : ℕ) → j < n → (p : ℕ) × (dom_at dom j ≡ some p)
    pub ancestors : (x j : ℕ) → j < n → Anc (dom_at dom) x j ↔ Dominates preds x j

  fixpoint-DominatorArray :
      (fuel k : ℕ) (dom : Dom)
      → 0 < n
      → Inv preds (dom_at dom)
      → Budgets preds n bounded (dom_at dom) k 1
      → length dom ≡ n
      → k ≤ n
      → n < fuel + k
      → Returns DominatorArray (fixpoint fuel preds n dom)
  unfolding fixpoint Dominates
  fixpoint-DominatorArray zero k dom pos inv b len le enough = absurd (omega arith)
  fixpoint-DominatorArray (suc fuel) k dom pos inv b len le enough =
      Returns-bind (pass-Passed (n - 1) 1 dom false k (omega arith) (omega arith) inv b len)
        λ (dom', changed) done. elim (Bool-cases changed) [
          | inl t ↦ rw t (
              fixpoint-DominatorArray fuel (suc k) dom' pos done.inv
                (next_round (dom_at dom') k done.inv done.budgets) (done.size ∙ len)
                (unsettled k t done.settled) (omega (arith, enough)))
          | inr f ↦
              let (_, same, fixed) = done.calm f in
              rw f (
                returns (record {
                  size = done.size ∙ len;
                  inv = done.inv;
                  parent = λ j h. processed dom' same fixed j h;
                  ancestors = λ x j h. (
                    (λ a l w.
                        Fixed-Dominates (dom_at dom') done.inv (moved dom' same fixed) x j l h a w),
                    λ d. done.inv.complete x j _ (processed dom' same fixed j h).1 d,
                  );
                }))
        ]
    where
      unsettled :
          (k : ℕ) {changed : Bool}
          → changed ≡ true
          → (n ≤ k → false ≡ false → changed ≡ false)
          → suc k ≤ n
      unsettled k t settled = elim (Bool-cases (ltb k n)) [
        | inl lt ↦ ground arith
        | inr ge ↦ let f = settled (ground arith) refl in cc
      ]

      moved :
          (dom' : Dom)
          → dom' ≡ dom
          → ((j : ℕ) → 1 ≤ j → j < n → Fixed (dom_at dom) j)
          → (j : ℕ) → 1 ≤ j
          → j < n
          → Fixed (dom_at dom') j
      moved dom' same fixed j h h' = subst (λ z. Fixed (dom_at z) j) (sym same) (fixed j h h')

      processed :
          (dom' : Dom)
          → dom' ≡ dom
          → ((j : ℕ) → 1 ≤ j → j < n → Fixed (dom_at dom) j)
          → (j : ℕ) → j < n
          → (p : ℕ) × (dom_at dom' j ≡ some p)
      processed dom' same fixed zero h = (0, ap (λ z. dom_at z 0) same ∙ inv.root)
      processed dom' same fixed (suc j) h =
          let (r, e, _) = fixed (suc j) (omega arith) h in (r, ap (λ z. dom_at z (suc j)) same ∙ e)

  Inv-initial_pos : 0 < n → Inv preds (dom_at (initial n))
  Inv-initial_pos h =
      let e : n ≡ suc (n - 1) = omega arith in
      subst (λ z. Inv preds (dom_at (initial z))) (sym e) (Inv-initial (n - 1))

  Budgets-initial : Budgets preds n bounded (dom_at (initial n)) 0 1
  unfolding Within
  Budgets-initial zero h = root_Within (Inv-initial_pos h) (turn 0 1 0)
  Budgets-initial (suc j) h = (λ p. ground (arith, p), λ x l w few miss a. ground (arith, few))

  -- Where n is not 0, predecessors are indices below n, and each index but 0 has a lower predecessor,
  -- any fuel above n, which is one round more than there are indices, is enough for the loop, and
  -- then the ancestors of an index by the array are its dominators.
  pub fixpoint-Dominators :
      (fuel : ℕ) → 0 < n → n < fuel → Returns DominatorArray (fixpoint fuel preds n (initial n))
  fixpoint-Dominators fuel pos enough =
      fixpoint-DominatorArray fuel 0 (initial n) pos (Inv-initial_pos pos) Budgets-initial
        (length-initial n) (omega arith) (omega arith)
