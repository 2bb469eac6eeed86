-- ===== src/Sccp/Fold.antt =====
-- What process_fold_op makes of the operands, and of the results.
use pliron.Prelude.{
  ℕ, ◌≡◌, refl, sym, ap, ◌∙◌, Bool, true, false, not, ◌&&◌, ◌≢◌, ◌⊎◌, Option, none, some, List, [],
  ◌∷◌, ◌==◌, ==→≡, arith, if◌then◌else◌, Bool-cases, inl, inr,
}
use pliron.SmallTable.Set.{IndexSet, SetLaws}
use pliron.Sccp.{
  Constness, undetermined, constant, not_a_constant, SccpState, meet, get_val_state,
  merge_val_state,
}
use pliron.Sccp.Merge.{Merged, merge_val_state-Merged}
use pliron.Sccp.Steps.{WorklistReachable, Advances, done, Steps-Advances}
use pliron.Sccp.Process.{
  Dialect, folded_state, attr_of, is_undetermined, known_state, operand_state, attrs_of,
  operand_attrs, merge_results, process_fold_op, merge_results-Steps,
}

module _ (lib : IndexSet) (d : Dialect) where
  -- Something is known of each of the operands, or its region is a graph region.
  unfoldable pub readable : SccpState lib → List ℕ → Bool
  readable s [] = true
  readable s (v ∷ vs) =
      not (is_undetermined (get_val_state lib s v) && d.has_ssa_dominance v) && readable s vs

  -- The attributes that stand for operands: that of a constant, and none for any other.
  pub data Seen (s : SccpState lib) : List ℕ → List (Option ℕ) → Type 0 where
    seen_all : Seen s [] []
    seen_constant :
        {v val : ℕ} {vs : List ℕ} {attrs : List (Option ℕ)}
        → get_val_state lib s v ≡ constant val
        → Seen s vs attrs
        → Seen s (v ∷ vs) (some val ∷ attrs)
    seen_bottom :
        {v : ℕ} {vs : List ℕ} {attrs : List (Option ℕ)}
        → get_val_state lib s v ≡ not_a_constant
        → Seen s vs attrs
        → Seen s (v ∷ vs) (none ∷ attrs)
    seen_in_graph :
        {v : ℕ} {vs : List ℕ} {attrs : List (Option ℕ)}
        → get_val_state lib s v ≡ undetermined
        → d.has_ssa_dominance v ≡ false
        → Seen s vs attrs
        → Seen s (v ∷ vs) (none ∷ attrs)

-- What is known of a value once it folds to a constant, or to none.
abbrev pub lowered : Constness → Option ℕ → Constness
lowered old none = not_a_constant
lowered old (some val) = meet old (constant val)

-- What is known of `v` once the results were folded in order, as far as there are attributes.
unfoldable pub known_after : List ℕ → List (Option ℕ) → (v : ℕ) → Constness → Constness
known_after [] attrs v old = old
known_after (res ∷ results) [] v old = old
known_after (res ∷ results) (attr ∷ attrs) v old =
    known_after results attrs v (if v == res then lowered old attr else old)

meet_folded : (old : Constness) (attr : Option ℕ) → meet old (folded_state attr) ≡ lowered old attr
unfolding meet
meet_folded undetermined none = refl
meet_folded (constant val) none = refl
meet_folded not_a_constant none = refl
meet_folded old (some val) = refl

folded :
    (b : Bool) {x old : Constness}
    → (b ≡ true → x ≡ old)
    → (attr : Option ℕ)
    → (if b then meet old (folded_state attr) else x) ≡ (if b then lowered x attr else x)
folded true {old = old} same attr =
    meet_folded old attr ∙ ap (λ c. lowered c attr) (sym (same refl))
folded false same attr = refl

Constness-cases :
    (c : Constness) → (c ≡ undetermined) ⊎ (((val : ℕ) × (c ≡ constant val)) ⊎ (c ≡ not_a_constant))
Constness-cases undetermined = inl refl
Constness-cases (constant val) = inr (inl (val, refl))
Constness-cases not_a_constant = inr (inr refl)

module _ {lib : IndexSet} (laws : SetLaws lib) (d : Dialect) where
  -- The assertion fails, or the results become what they fold to.
  unfoldable pub Outcome : SccpState lib → (op : ℕ) → Option (SccpState lib) → Type 0
  Outcome s op none = readable lib d s (d.operands op) ≡ false
  Outcome s op (some out) =
      (readable lib d s (d.operands op) ≡ true)
      × ((attrs : List (Option ℕ)) × Seen lib d s (d.operands op) attrs
          × ((v : ℕ)
              → get_val_state lib out v
                ≡ known_after (d.ir.results op) (d.check_fold op attrs) v (get_val_state lib s v)))
      × Advances laws s out

  known-merge_results :
      (results : List ℕ) (attrs : List (Option ℕ)) (s : SccpState lib) (v : ℕ)
      → get_val_state lib (merge_results lib d s results attrs) v
        ≡ known_after results attrs v (get_val_state lib s v)
  unfolding merge_results known_after Merged
  known-merge_results [] attrs s v = refl
  known-merge_results (res ∷ results) [] s v = refl
  known-merge_results (res ∷ results) (attr ∷ attrs) s v =
      let m = (merge_val_state-Merged laws d.ir s res (folded_state attr) v).0 in
      known-merge_results results attrs (merge_val_state lib d.ir s res (folded_state attr)) v
      ∙ ap (known_after results attrs v)
          (m ∙ folded (v == res) (λ h. ap (get_val_state lib s) (==→≡ v res h)) attr)

  -- An operand that may be read is some attribute or none, and any other fails the assertion.
  operand_state-Seen :
      (s : SccpState lib) (v : ℕ)
      → ((operand_state lib d s v ≡ none)
          × ((is_undetermined (get_val_state lib s v) && d.has_ssa_dominance v) ≡ true))
        ⊎ ((c : Constness) × (operand_state lib d s v ≡ some c)
            × ((is_undetermined (get_val_state lib s v) && d.has_ssa_dominance v) ≡ false)
            × ((vs : List ℕ) (attrs : List (Option ℕ))
                → Seen lib d s vs attrs
                → Seen lib d s (v ∷ vs) (attr_of c ∷ attrs)))
  unfolding operand_state known_state
  operand_state-Seen s v = elim (Constness-cases (get_val_state lib s v)) [
    | inl u ↦ elim (Bool-cases (d.has_ssa_dominance v)) [
      | inl t ↦ inl (rw (u, t) refl, rw (u, t) refl)
      | inr f ↦
          inr (
            not_a_constant,
            rw (u, f) refl,
            rw (u, f) refl,
            λ vs attrs seen. seen_in_graph u f seen,
          )
    ]
    | inr (inl (val, k)) ↦
        inr (constant val, rw k refl, rw k refl, λ vs attrs seen. seen_constant k seen)
    | inr (inr b) ↦ inr (not_a_constant, rw b refl, rw b refl, λ vs attrs seen. seen_bottom b seen)
  ]

  attrs_of-Seen :
      (s : SccpState lib) (vs : List ℕ)
      → ((attrs_of lib d s vs ≡ none) × (readable lib d s vs ≡ false))
        ⊎ ((attrs : List (Option ℕ)) × (attrs_of lib d s vs ≡ some attrs)
            × (readable lib d s vs ≡ true)
            × Seen lib d s vs attrs)
  unfolding attrs_of readable
  attrs_of-Seen s [] = inr ([], refl, refl, seen_all)
  attrs_of-Seen s (v ∷ vs) = elim (operand_state-Seen s v) [
    | inl (e, unread) ↦ inl (rw (attrs_of, e) refl, rw (readable, unread) refl)
    | inr (c, e, read, grow) ↦ elim (attrs_of-Seen s vs) [
      | inl (e', rest) ↦ inl (rw (attrs_of, e, e') refl, rw (readable, read, rest) refl)
      | inr (attrs, e', rest, seen) ↦ inr (
        attr_of c ∷ attrs,
        rw (attrs_of, e, e') refl,
        rw (readable, read, rest) refl,
        grow vs attrs seen,
      )
    ]
  ]

  known_state-determined : (v : ℕ) (c : Constness) → known_state lib d v c ≢ some undetermined
  unfolding known_state
  known_state-determined v undetermined = elim (Bool-cases (d.has_ssa_dominance v)) [
    | inl t ↦ rw t (λ e. ground arith)
    | inr f ↦ rw f (λ e. ground arith)
  ]
  known_state-determined v (constant val) = λ e. ground arith
  known_state-determined v not_a_constant = λ e. ground arith

  -- In a state whose worklist holds reachable operations only, process_fold_op fails the assertion
  -- exactly if some operand is undetermined in a region with SSA dominance. If not, check_fold is
  -- given the attribute of each constant operand and none for the others, and the results are
  -- lowered one after the other by what they fold to: by a constant to the meet of what was known
  -- with it, by none to not a constant. No other value changes, values only go down the lattice,
  -- reachable operations stay so and the worklist holds reachable operations only. operand_state
  -- gives no value as undetermined.
  pub process_fold_op-Outcome :
      (s : SccpState lib) (op : ℕ)
      → WorklistReachable laws s
      → Outcome s op (process_fold_op lib d s op)
        × ((v : ℕ) → operand_state lib d s v ≢ some undetermined)
  unfolding process_fold_op operand_attrs Outcome operand_state
  process_fold_op-Outcome s op w = (
    elim (attrs_of-Seen s (d.operands op)) [
      | inl (e, unread) ↦ rw e unread
      | inr (attrs, e, read, seen) ↦ rw e (
        read,
        (attrs, seen, known-merge_results (d.ir.results op) (d.check_fold op attrs) s),
        Steps-Advances laws d.ir
            (merge_results-Steps laws d (d.ir.results op) (d.check_fold op attrs) (done s)) w,
      )
    ],
    λ v. known_state-determined v (get_val_state lib s v),
  )
