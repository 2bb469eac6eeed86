-- ===== src/Graph/Dominance/Tree/Numbers.antt =====
-- Nodes and their indices in the reverse post-order, and walks of the one and the other.
use pliron.Prelude.{
  Option-cases, ℕ, zero, suc, ◌<◌, ◌≡◌, refl, sym, ap, ◌∙◌, true, false, none, some, List, [], ◌∷◌,
  arith, ◌==◌, ==→≡, ==_refl, length, has, Distinct, Bool-cases, inl, inr,
}
use mathlib.Core.Path.{subst}
use pliron.SmallTable.Vec.{get_elem?}
use pliron.Graph.{ControlFlowGraph}
use pliron.Graph.Traversals.Lists.{has_of_get_elem?, get_elem?_of_has}
use pliron.Graph.Traversals.Topological.{EntryOrder}
use pliron.Graph.Dominance.Walks.{IsWalk}
use pliron.Graph.Dominance.Tree.{rpo_index, reachable, reachable_preds}

pub rpo_index-some : (l : List ℕ) (v i : ℕ) → rpo_index l v ≡ some i → get_elem? l i ≡ some v
unfolding rpo_index
rpo_index-some [] v i e = cc
rpo_index-some (x ∷ l) v i e = elim (Option-cases (rpo_index l v)) [
  | inl e' ↦ ground (arith, e', e, ==→≡ x v)
  | inr (j, e') ↦
      let same : suc j ≡ i = ground (arith, e', e) in
      subst (λ z. get_elem? (x ∷ l) z ≡ some v) same (rpo_index-some l v j e')
]

pub get_elem?_lt : (l : List ℕ) (i v : ℕ) → get_elem? l i ≡ some v → i < length l
get_elem?_lt [] i v e = cc
get_elem?_lt (x ∷ l) zero v e = omega arith
get_elem?_lt (x ∷ l) (suc i) v e = omega (arith, get_elem?_lt l i v e)

rpo_index-none : (l : List ℕ) (v : ℕ) → has v l ≡ false → rpo_index l v ≡ none
unfolding rpo_index
rpo_index-none [] v h = refl
rpo_index-none (x ∷ l) v h =
    rw (rpo_index-none l v (ground arith)) (ground (arith, ==→≡ x v, ==_refl v))

-- In a list without repetition, the index of the element at i is i.
pub rpo_index_get :
    (l : List ℕ) (i v : ℕ) → Distinct l → get_elem? l i ≡ some v → rpo_index l v ≡ some i
unfolding rpo_index
rpo_index_get [] i v d e = cc
rpo_index_get (x ∷ l) zero v d e =
    let same : x ≡ v = ground arith in
    rw (rpo_index-none l v (subst (λ z. has z l ≡ false) same d.0), same, ==_refl v) refl
rpo_index_get (x ∷ l) (suc i) v d e = rw (rpo_index_get l i v d.1 e) refl

pub reachable-index :
    (rpo ps : List ℕ) (i : ℕ)
    → has i (reachable rpo ps) ≡ true
    → (p : ℕ) × (has p ps ≡ true) × (get_elem? rpo i ≡ some p)
unfolding reachable
reachable-index rpo [] i h = cc
reachable-index rpo (p ∷ ps) i h = elim (Bool-cases (has i (reachable rpo ps))) [
  | inl t ↦ let (q, k, e) = reachable-index rpo ps i t in (q, ground arith, e)
  | inr f ↦ elim (Option-cases (rpo_index rpo p)) [
    | inl e ↦ absurd (ground (arith, e, f, h))
    | inr (j, e) ↦
        let same : i ≡ j = ground (arith, e, f, h, ==→≡ i j) in
        (p, ground (arith, ==_refl p), rpo_index-some rpo p i (e ∙ ap some (sym same)))
  ]
]

pub index-reachable :
    (rpo ps : List ℕ) (i p : ℕ)
    → has p ps ≡ true
    → rpo_index rpo p ≡ some i
    → has i (reachable rpo ps) ≡ true
unfolding reachable
index-reachable rpo [] i p h e = cc
index-reachable rpo (q ∷ ps) i p h e = elim (Bool-cases (p == q)) [
  | inl t ↦
      let at_q : rpo_index rpo q ≡ some i = ap (rpo_index rpo) (sym (==→≡ p q t)) ∙ e in
      ground (arith, at_q, ==_refl i)
  | inr f ↦
      let rest = index-reachable rpo ps i p (ground arith) e in
      elim (Option-cases (rpo_index rpo q)) [
        | inl e' ↦ ground (arith, e', rest)
        | inr (j, e') ↦ ground (arith, e', rest)
      ]
]

-- The predecessors are the sources of the edges.
abbrev pub IsConsistent : ControlFlowGraph → Type 0
IsConsistent g = (u v : ℕ) → has u (g.predecessors v) ≡ has v (g.successors u)

-- A walk of the graph from the entry: the list of its nodes, the last first.
abbrev pub IsPath : ControlFlowGraph → (entry : ℕ) → List ℕ → Type 0
IsPath g entry [] = ⊥
IsPath g entry (v ∷ []) = v ≡ entry
IsPath g entry (v ∷ u ∷ l) = (has v (g.successors u) ≡ true) × IsPath g entry (u ∷ l)

module _ (g : ControlFlowGraph) (entry : ℕ) (rpo : List ℕ) (o : EntryOrder g entry rpo)
    (consistent : IsConsistent g) where
  number_of : (v : ℕ) → has v rpo ≡ true → (i : ℕ) × (get_elem? rpo i ≡ some v)
  number_of v h = let (i, _, e) = get_elem?_of_has rpo v h in (i, e)

  same_number :
      (x i v j : ℕ) → get_elem? rpo i ≡ some x → get_elem? rpo j ≡ some v → (x == v) ≡ (i == j)
  same_number x i v j e e' =
      let there = rpo_index_get rpo i x o.once e in
      let there' = rpo_index_get rpo j v o.once e' in
      elim (Bool-cases (x == v)) [
        | inl t ↦
            let same : i ≡ j = some_eq (sym there ∙ ap (rpo_index rpo) (==→≡ x v t) ∙ there') in
            rw (t, same) (sym (==_refl j))
        | inr f ↦ elim (Bool-cases (i == j)) [
          | inl t ↦
              let same : x ≡ v = some_eq (sym e ∙ ap (get_elem? rpo) (==→≡ i j t) ∙ e') in
              ground (arith, same, ==_refl v)
          | inr f' ↦ f ∙ sym f'
        ]
      ]
    where
      some_eq : {a b : ℕ} → some a ≡ some b → a ≡ b
      some_eq h = cc

  -- The nodes of a walk from the entry have a number.
  pub IsPath-numbered : (v : ℕ) (l : List ℕ) → IsPath g entry (v ∷ l) → has v rpo ≡ true
  IsPath-numbered v [] w = has_of_get_elem? rpo 0 v (o.starts ∙ ap some (sym w))
  IsPath-numbered v (u ∷ l) w = o.closed u v (IsPath-numbered u l w.1) w.0

  pub IsWalk-of_path :
      (v j : ℕ) (l : List ℕ)
      → IsPath g entry (v ∷ l)
      → get_elem? rpo j ≡ some v
      → (m : List ℕ) × IsWalk (reachable_preds g rpo) (j ∷ m)
        × ((x i : ℕ) → get_elem? rpo i ≡ some x → has x (v ∷ l) ≡ has i (j ∷ m))
  unfolding reachable_preds
  IsWalk-of_path v j [] w e = (
    [],
    ==→≡ j 0 (sym (same_number v j entry 0 e o.starts) ∙ ap (λ z. z == entry) w ∙ ==_refl entry),
    λ x i e'. ground (arith, same_number x i v j e' e),
  )
  IsWalk-of_path v j (u ∷ l) w e =
      let (k, e') = number_of u (IsPath-numbered u l w.1) in
      let (m, w', same) = IsWalk-of_path u k l w.1 e' in
      (
        k ∷ m,
        (
          rw (reachable_preds, e)
              (index-reachable rpo (g.predecessors v) k u (consistent u v ∙ w.0)
                (rpo_index_get rpo k u o.once e')),
          w',
        ),
        λ x i e''. ground (arith, same_number x i v j e'' e, same x i e''),
      )

  pub IsPath-of_walk :
      (v j : ℕ) (m : List ℕ)
      → IsWalk (reachable_preds g rpo) (j ∷ m)
      → get_elem? rpo j ≡ some v
      → (l : List ℕ) × IsPath g entry (v ∷ l)
        × ((x i : ℕ) → get_elem? rpo i ≡ some x → has x (v ∷ l) ≡ has i (j ∷ m))
  unfolding reachable_preds
  IsPath-of_walk v j [] w e = (
    [],
    ==→≡ v entry (same_number v j entry 0 e o.starts ∙ ap (λ z. z == 0) w),
    λ x i e'. ground (arith, same_number x i v j e' e),
  )
  IsPath-of_walk v j (k ∷ m) w e =
      let (u, h, e') =
        reachable-index rpo (g.predecessors v) k (sym (ap (λ z. has k z) (picked e)) ∙ w.0) in
      let (l, w', same) = IsPath-of_walk u k m w.1 e' in
      (
        u ∷ l,
        (sym (consistent u v) ∙ h, w'),
        λ x i e''. ground (arith, same_number x i v j e'' e, same x i e''),
      )
    where
      picked : get_elem? rpo j ≡ some v → reachable_preds g rpo j ≡ reachable rpo (g.predecessors v)
      picked h = rw (reachable_preds, h) refl
