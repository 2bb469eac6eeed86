-- ===== src/Graph/Dominance/Budget.antt =====
-- What a round of the loop adds: after k of them, no ancestor of a node is missed by a walk with fewer
-- than k edges that do not go to a greater node. So the rounds settle.
use pliron.Prelude.{
  ℕ, zero, suc, ◌<◌, ◌≤◌, ◌≡◌, ◌≢◌, refl, sym, ap, ◌∙◌, Bool, true, false, Option, none, some, List,
  [], ◌∷◌, arith, ◌==◌, ==→≡, ==_refl, ltb, if◌then◌else◌, length, has, Bool-cases, inl, inr,
  Returns, returns, Returns-bind,
}
use mathlib.Core.Path.{subst}
use pliron.SmallTable.Vec.{set}
use pliron.Graph.Dominance.{Dom, dom_at, process_node, is_value}
use pliron.Graph.Dominance.Walks.{
  IsWalk, Dominates, backs, backs-lt-length, cut, shorten, length_of_Distinct,
}
use pliron.Graph.Dominance.Ancestors.{Anc, self, above, Anc-trans, Anc-parent, Inv, Anc-le}
use pliron.Graph.Dominance.Intersect.{NewIdom, compute_idom-NewIdom}
use pliron.Graph.Dominance.Update.{split_new, new_ancestors, Inv-update, at_i}

dom_at-set :
    (dom : Dom) (i v j : ℕ)
    → i < length dom
    → dom_at (set dom i (some v)) j ≡ (if j == i then some v else dom_at dom j)
unfolding dom_at
dom_at-set [] i v j h = absurd (omega arith)
dom_at-set (x ∷ dom) zero v zero h = refl
dom_at-set (x ∷ dom) zero v (suc j) h = ground arith
dom_at-set (x ∷ dom) (suc i) v zero h = ground arith
dom_at-set (x ∷ dom) (suc i) v (suc j) h = ground (arith, dom_at-set dom i v j)

length-set : (dom : Dom) (i v : ℕ) → length (set dom i (some v)) ≡ length dom
length-set [] i v = refl
length-set (x ∷ dom) zero v = refl
length-set (x ∷ dom) (suc i) v = ap suc (length-set dom i v)

value_of : (o : Option ℕ) (v : ℕ) → is_value o v ≡ true → o ≡ some v
value_of none v h = cc
value_of (some w) v h = ap some (==→≡ w v h)

is_value_of : (o : Option ℕ) (p : ℕ) → o ≡ some p → (r : ℕ) → p ≡ r → is_value o r ≡ true
is_value_of o p e r h = rw e (ground arith)

unchanged :
    (d : ℕ → Option ℕ) (i r : ℕ) → d i ≡ some r → (j : ℕ) → d j ≡ (if j == i then some r else d j)
unchanged d i r e j = elim (Bool-cases (j == i)) [
  | inl t ↦ rw t (ap d (==→≡ j i t) ∙ e)
  | inr f ↦ rw f refl
]

true-ne-false : true ≢ false
true-ne-false h = cc

-- A node with a budget b has been processed, and an ancestor is on each walk with fewer than b edges
-- that do not go to a greater node.
unfoldable pub Within : (ℕ → List ℕ) → (ℕ → Option ℕ) → (budget j : ℕ) → Type 0
Within preds d budget j =
    (0 < budget → (p : ℕ) × (d j ≡ some p))
    × ((x : ℕ) (l : List ℕ)
        → IsWalk preds (j ∷ l)
        → backs (j ∷ l) < budget
        → has x (j ∷ l) ≡ false
        → Anc d x j
        → ⊥)

-- In round k, the nodes before i have had their turn.
abbrev pub turn : ℕ → ℕ → ℕ → ℕ
turn k i j = if ltb j i then suc k else k

module _ (preds : ℕ → List ℕ) (n : ℕ) (bounded : (j p : ℕ) → has p (preds j) ≡ true → p < n) where
  abbrev pub Budgets : (ℕ → Option ℕ) → ℕ → ℕ → Type 0
  Budgets d k i = (j : ℕ) → j < n → Within preds d (turn k i j) j

  walk-lt : (x j : ℕ) (l : List ℕ) → j < n → IsWalk preds (j ∷ l) → has x (j ∷ l) ≡ true → x < n
  walk-lt x j [] h w k = ground (arith, ==→≡ x j)
  walk-lt x j (p ∷ l) h w k = elim (Bool-cases (x == j)) [
    | inl t ↦ ground (arith, ==→≡ x j t)
    | inr f ↦ walk-lt x p l (bounded j p w.0) w.1 (ground arith)
  ]

  -- With a budget of n, ancestors dominate.
  pub Budgets-Dominates :
      (d : ℕ → Option ℕ) (k i x j : ℕ)
      → Budgets d k i
      → n ≤ k
      → j < n
      → Anc d x j
      → Dominates preds x j
  unfolding Within Dominates
  Budgets-Dominates d k i x j b le h a l w = elim (Bool-cases (has x (j ∷ l))) [
    | inl t ↦ t
    | inr f ↦
        let (m, v, dist, keep) = shorten preds j l w in
        let short = length_of_Distinct n (j ∷ m) dist λ y. walk-lt y j m h v in
        absurd ((b j h).1 x m v (spent (backs-lt-length j m) short) (keep x f) a)
  ]
    where
      spent : {c e : ℕ} → c < e → e ≤ n → c < turn k i j
      spent p q = ground arith

  module _ (d d' : ℕ → Option ℕ) (inv : Inv preds d) (k i r : ℕ) (pos : 0 < i) (i_lt : i < n)
      (lt : r < i) (new : NewIdom d (preds i) r)
      (e : (j : ℕ) → d' j ≡ (if j == i then some r else d j)) (b : Budgets d k i) where
    own :
        (x : ℕ) (l : List ℕ)
        → IsWalk preds (i ∷ l)
        → backs (i ∷ l) < suc k
        → has x (i ∷ l) ≡ false
        → Anc d' x i
        → ⊥
    unfolding Within
    own x [] w h f a = omega (arith, w)
    own x (p ∷ l) w h f a =
        let spent : backs (p ∷ l) < turn k i p = ground arith in
        let (processed, apart) = b p (bounded i p w.0) in
        let (q, e') = processed (omega (arith, spent)) in
        elim (new_ancestors inv i r pos lt new e a) [
          | inl same ↦ ground (arith, ==_refl i, same)
          | inr c ↦ apart x l w.1 spent (ground arith) (Anc-trans c (new.common p q w.0 e'))
        ]

    -- A walk to another node that i was an ancestor of goes through i.
    others :
        (j : ℕ)
        → (j == i) ≡ false
        → j < n
        → (x : ℕ) (l : List ℕ) → IsWalk preds (j ∷ l)
        → backs (j ∷ l) < turn k i j
        → has x (j ∷ l) ≡ false
        → Anc d' x j
        → ⊥
    unfolding Within
    others j f h x l w few miss a = elim (split_new inv i r pos lt new e a) [
      | inl c ↦ (b j h).1 x l w few miss c
      | inr (c, a') ↦ elim (Bool-cases (has i (j ∷ l))) [
        | inl t ↦
            let (m, v, keep, _, fewer) = cut preds i (j ∷ l) w t in
            own x m v (ground (arith, few, fewer)) (keep x miss) a'
        | inr g ↦ (b j h).1 i l w few g c
      ]
    ]

    pub Budgets-update : Budgets d' k (suc i)
    unfolding Within
    Budgets-update j h = elim (Bool-cases (j == i)) [
      | inl t ↦
          let same = ==→≡ j i t in
          let full : turn k (suc i) i ≡ suc k = ground arith in
          subst (λ z. Within preds d' (turn k (suc i) z) z) (sym same)
            (subst (λ z. Within preds d' z i) (sym full)
              ((λ _. (r, at_i inv i r pos lt new e)), own))
      | inr f ↦
          let as_before : turn k (suc i) j ≡ turn k i j = ground arith in
          subst (λ z. Within preds d' z j) (sym as_before)
            ((λ p. let (q, e') = (b j h).0 p in (q, e j ∙ rw f e')), others j f h)
    ]

  -- Once ancestors dominate, a round finds the parents that are there.
  settles :
      (d d' : ℕ → Option ℕ) (inv : Inv preds d) (inv' : Inv preds d') (k i r p : ℕ) (pos : 0 < i)
      → (i_lt : i < n) (lt : r < i) (new : NewIdom d (preds i) r)
      → (e : (j : ℕ) → d' j ≡ (if j == i then some r else d j)) → Budgets d k i
      → Budgets d' k (suc i)
      → n ≤ k
      → d i ≡ some p
      → p ≡ r
  settles d d' inv inv' k i r p pos i_lt lt new e b b' le e_i =
      let new_parent = at_i inv i r pos lt new e in
      let p_dom = Budgets-Dominates d k i p i b le i_lt (above e_i self) in
      let r_dom = Budgets-Dominates d' k (suc i) r i b' le i_lt (above new_parent self) in
      let p_lt = inv.down i p e_i pos in
      let p_le : p ≤ r =
        elim (new_ancestors inv i r pos lt new e (inv'.complete p i r new_parent p_dom)) [
          | inl same ↦ absurd (omega arith)
          | inr a ↦ Anc-le inv a
        ] in
      let r_le : r ≤ p = elim (Anc-parent e_i (inv.complete r i p e_i r_dom)) [
        | inl same ↦ absurd (omega arith)
        | inr a ↦ Anc-le inv a
      ] in
      omega arith

  -- One node of one round.
  pub record Processed (dom : Dom) (k i : ℕ) (out : Dom × Bool) : Type 0 where
    pub inv : Inv preds (dom_at out.0)
    pub budgets : Budgets (dom_at out.0) k (suc i)
    pub size : length out.0 ≡ length dom
    -- Where nothing changed, the parent is what compute_idom gives.
    pub calm :
        out.1 ≡ false
        → (out.0 ≡ dom) × ((r : ℕ) × (dom_at dom i ≡ some r) × NewIdom (dom_at dom) (preds i) r)
    pub settled : n ≤ k → out.1 ≡ false

  pub process_node-Processed :
      (dom : Dom) (k i p0 : ℕ)
      → Inv preds (dom_at dom)
      → Budgets (dom_at dom) k i
      → length dom ≡ n
      → 0 < i
      → i < n
      → has p0 (preds i) ≡ true
      → p0 < i
      → Returns (Processed dom k i) (process_node dom i (preds i))
  unfolding process_node Within
  process_node-Processed dom k i p0 inv b len pos i_lt h0 lt0 =
      let (q0, e0) = (b p0 (omega arith)).0 (ground arith) in
      Returns-bind (compute_idom-NewIdom dom inv (preds i) p0 q0 h0 e0) λ r new.
        let lt : r < i = omega (arith, lt0, Anc-le inv (new.common p0 q0 h0 e0)) in
        elim (Bool-cases (is_value (dom_at dom i) r)) [
          | inl t ↦
              let e_i = value_of (dom_at dom i) r t in
              rw t (
                returns (record {
                  inv = inv;
                  budgets =
                      Budgets-update (dom_at dom) (dom_at dom) inv k i r pos i_lt lt new
                        (unchanged (dom_at dom) i r e_i) b;
                  size = refl;
                  calm = λ _. (refl, (r, e_i, new));
                  settled = λ _. refl;
                }))
          | inr f ↦
              let e = λ (j : ℕ). dom_at-set dom i r j (omega (arith, len, i_lt)) in
              let inv' = Inv-update inv i r pos lt new e in
              let b' = Budgets-update (dom_at dom) _ inv k i r pos i_lt lt new e b in
              rw f (
                returns (record {
                  inv = inv';
                  budgets = b';
                  size = length-set dom i r;
                  calm = λ h. cc;
                  settled = λ le.
                      let (p, e_i) = (b i i_lt).0 (ground arith) in
                      let same =
                        settles (dom_at dom) _ inv inv' k i r p pos i_lt lt new e b b' le e_i in
                      absurd (true-ne-false (sym (is_value_of (dom_at dom i) p e_i r same) ∙ f));
                }))
        ]
