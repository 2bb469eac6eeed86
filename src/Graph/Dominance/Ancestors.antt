-- ===== src/Graph/Dominance/Ancestors.antt =====
-- The ancestors of a node by the parents that an array gives, and what domination has to do with
-- them while the array is computed.
use pliron.Prelude.{
  ℕ, zero, suc, ◌<◌, ◌≤◌, ◌≡◌, refl, sym, ◌∙◌, true, false, Option, some, List, ◌∷◌, arith, ◌==◌,
  has, inl, inr, ◌⊎◌,
}
use mathlib.Core.Path.{subst}
use pliron.Graph.Dominance.Walks.{IsWalk, Dominates}

pub data Anc (d : ℕ → Option ℕ) (x : ℕ) : ℕ → Type 0 where
  self : Anc d x x
  above : {j p : ℕ} → d j ≡ some p → Anc d x p → Anc d x j

module _ {d : ℕ → Option ℕ} where
  pub Anc-trans : {x y j : ℕ} → Anc d x y → Anc d y j → Anc d x j
  Anc-trans a self = a
  Anc-trans a (above e b) = above e (Anc-trans a b)

  -- The ancestors of a node but itself are its parent's.
  pub Anc-parent : {x j p : ℕ} → d j ≡ some p → Anc d x j → (x ≡ j) ⊎ Anc d x p
  Anc-parent e self = inl refl
  Anc-parent {p = p} e (above e' a) = inr (subst (Anc d _) (some-eq (sym e' ∙ e)) a)
    where
      some-eq : {a b : ℕ} → some a ≡ some b → a ≡ b
      some-eq h = cc

-- A path along edges through nodes that are b or more.
pub data Route (preds : ℕ → List ℕ) (b : ℕ) : ℕ → Type 0 where
  start : Route preds b b
  along : {p j : ℕ} → Route preds b p → has p (preds j) ≡ true → b ≤ j → Route preds b j

module _ {preds : ℕ → List ℕ} where
  Route-le : {b j : ℕ} → Route preds b j → b ≤ j
  Route-le start = omega arith
  Route-le (along r e h) = h

  pub Route-trans : {a b j : ℕ} → Route preds a b → Route preds b j → Route preds a j
  Route-trans r start = r
  Route-trans r (along s e h) = along (Route-trans r s) e (omega (arith, h, Route-le r))

  -- A walk goes on along a route, and meets no new node below the route's start.
  pub extend :
      {b j : ℕ} (l : List ℕ)
      → IsWalk preds (b ∷ l)
      → Route preds b j
      → (m : List ℕ) × IsWalk preds (j ∷ m) × ((x : ℕ) → x < b → has x (j ∷ m) ≡ has x (b ∷ l))
  extend l w start = (l, w, λ x h. refl)
  extend {b = b} {j = j} l w (along {p} r e h) =
      let (m, v, same) = extend l w r in
      (p ∷ m, (e, v), λ x k. let other : (x == j) ≡ false = ground arith in rw other (same x k))

-- What holds of the array at any time: parents stand before their children, are processed, and have
-- a route to them; and whatever dominates a processed node is an ancestor of it.
pub record Inv (preds : ℕ → List ℕ) (d : ℕ → Option ℕ) : Type 0 where
  pub root : d 0 ≡ some 0
  pub down : (j p : ℕ) → d j ≡ some p → 0 < j → p < j
  pub closed : (j p : ℕ) → d j ≡ some p → (q : ℕ) × (d p ≡ some q)
  pub route : (j p : ℕ) → d j ≡ some p → Route preds p j
  pub complete : (x j p : ℕ) → d j ≡ some p → Dominates preds x j → Anc d x j

module _ {preds : ℕ → List ℕ} {d : ℕ → Option ℕ} (inv : Inv preds d) where
  pub parent-le : (j p : ℕ) → d j ≡ some p → p ≤ j
  parent-le zero p e = ground (arith, inv.root)
  parent-le (suc j) p e = omega (arith, inv.down (suc j) p e (omega arith))

  pub Anc-le : {x j : ℕ} → Anc d x j → x ≤ j
  Anc-le self = omega arith
  Anc-le (above {j} {p} e a) = omega (arith, Anc-le a, parent-le j p e)

  pub Anc-root : {x : ℕ} → Anc d x 0 → x ≡ 0
  Anc-root a = omega (arith, Anc-le a)

  pub Anc-Route : {x j : ℕ} → Anc d x j → Route preds x j
  Anc-Route self = start
  Anc-Route (above {j} {p} e a) = Route-trans (Anc-Route a) (inv.route j p e)

  -- The ancestors of a processed node are processed.
  pub Anc-processed : {x j p : ℕ} → d j ≡ some p → Anc d x j → (q : ℕ) × (d x ≡ some q)
  Anc-processed {p = p} e self = (p, e)
  Anc-processed e (above {j} {p} e' a) = let (q, e'') = inv.closed j p e' in Anc-processed e'' a
