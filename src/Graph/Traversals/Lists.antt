-- ===== src/Graph/Traversals/Lists.antt =====
-- Order in a list, and the lists of a walk.
use pliron.Prelude.{
  ℕ, zero, suc, ◌+◌, ◌-◌, ◌<◌, ◌≡◌, refl, sym, ap, ◌∙◌, Bool, true, false, ◌||◌, ◌&&◌, some, List,
  [], ◌∷◌, ◌++◌, arith, ◌==◌, ==→≡, ==_refl, ==_false_sym, if◌then◌else◌, length, has, has-append,
  Distinct, Bool-cases, inl, inr,
}
use pliron.SmallTable.Vec.{get_elem?}
use pliron.Graph.Traversals.{mark_seen}

-- b stands after the first a.
abbrev pub before : ℕ → ℕ → List ℕ → Bool
before a b [] = false
before a b (x ∷ l) = if x == a then has b l else before a b l

pub before-snoc :
    (a b x : ℕ) (l : List ℕ) → before a b (l ++ x ∷ []) ≡ (before a b l || (has a l && (b == x)))
before-snoc a b x [] = ground arith
before-snoc a b x (y ∷ l) = elim (Bool-cases (y == a)) [
  | inl t ↦ rw t (ground (arith, has-append b l (x ∷ []), ==→≡ y a t, ==_refl a))
  | inr f ↦ rw f (ground (arith, before-snoc a b x l, ==_false_sym y a f))
]

abbrev pub names : List (ℕ × ℕ) → List ℕ
names [] = []
names ((node, i) ∷ stack) = node ∷ names stack

pub has_of_get_elem? : (l : List ℕ) (j w : ℕ) → get_elem? l j ≡ some w → has w l ≡ true
has_of_get_elem? [] j w e = cc
has_of_get_elem? (x ∷ l) zero w e = ground arith
has_of_get_elem? (x ∷ l) (suc j) w e = ground (arith, has_of_get_elem? l j w)

pub get_elem?_of_has :
    (l : List ℕ) (w : ℕ) → has w l ≡ true → (j : ℕ) × (j < length l) × (get_elem? l j ≡ some w)
get_elem?_of_has [] w h = cc
get_elem?_of_has (x ∷ l) w h = elim (Bool-cases (w == x)) [
  | inl t ↦ (0, omega arith, ap some (sym (==→≡ w x t)))
  | inr f ↦ let (j, lt, e) = get_elem?_of_has l w (ground arith) in (suc j, omega arith, e)
]

pub get_elem?_in : (l : List ℕ) (j : ℕ) → j < length l → (w : ℕ) × (get_elem? l j ≡ some w)
get_elem?_in [] j h = absurd (omega arith)
get_elem?_in (x ∷ l) zero h = (x, refl)
get_elem?_in (x ∷ l) (suc j) h = get_elem?_in l j (omega arith)

module _ (deg : ℕ → ℕ) where
  -- What the nodes that have not been seen are still to cost, and the frames of a stack.
  unfoldable pub unseen_cost : (ℕ → Bool) → List ℕ → ℕ
  unseen_cost seen [] = 0
  unseen_cost seen (v ∷ vs) = (if seen v then 0 else suc (deg v)) + unseen_cost seen vs

  unfoldable pub stack_cost : List (ℕ × ℕ) → ℕ
  stack_cost [] = 0
  stack_cost ((node, i) ∷ stack) = suc (deg node - i) + stack_cost stack

  mark_seen_absent :
      (seen : ℕ → Bool) (v : ℕ) (l : List ℕ)
      → has v l ≡ false
      → unseen_cost (mark_seen seen v) l ≡ unseen_cost seen l
  unfolding unseen_cost
  mark_seen_absent seen v [] h = refl
  mark_seen_absent seen v (x ∷ l) h = ground (arith, mark_seen_absent seen v l, ==_false_sym v x)

  pub unseen_cost-mark_seen :
      (seen : ℕ → Bool) (v : ℕ) (l : List ℕ)
      → Distinct l
      → has v l ≡ true
      → seen v ≡ false
      → unseen_cost (mark_seen seen v) l + suc (deg v) ≡ unseen_cost seen l
  unfolding unseen_cost
  unseen_cost-mark_seen seen v [] d h f = cc
  unseen_cost-mark_seen seen v (x ∷ l) d h f = elim (Bool-cases (v == x)) [
    | inl t ↦
        let same = ==→≡ v x t in
        let absent : has v l ≡ false = rw same d.0 in
        let f' : seen x ≡ false = ap seen (sym same) ∙ f in
        let here : ((x == v) || seen x) ≡ true = ground (arith, same, ==_refl x) in
        rw (here, f') (omega (arith, mark_seen_absent seen v l absent, ap deg same))
    | inr g ↦
        let rest = unseen_cost-mark_seen seen v l d.1 (ground arith) f in
        let there : ((x == v) || seen x) ≡ seen x = ground (arith, ==_false_sym v x g) in
        rw there (omega (arith, rest))
  ]
