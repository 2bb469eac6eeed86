-- ===== src/Sccp/Steps.antt =====
-- The operations on the state as steps, and what every sequence of steps keeps.
use pliron.Prelude.{
  ℕ, ◌≡◌, refl, ap, ◌∙◌, Bool, true, false, not, ◌&&◌, Option, none, some, List, [], ◌∷◌, arith,
  ◌==◌, ==→≡, if◌then◌else◌, has, Bool-cases, inl, inr,
}
use pliron.SmallTable.Vec.{init}
use pliron.SmallTable.Set.{IndexSet, SetLaws, all_but_last}
use pliron.Sccp.{
  Constness, not_a_constant, Ir, SccpState, leq, meet, get_val_state, is_reachable, merge_val_state,
  enqueue, mark_reachable, mark_if_some, set_reachable, mark_block_reachable, mark_next_reachable,
  pop_op, merge_arguments, seed_entry, seed_regions, seed_nested_regions,
}
use pliron.Sccp.Lattice.{meet-leq, leq_refl, leq_trans}
use pliron.Sccp.Merge.{queued, queued-enqueue, Merged, merge_val_state-Merged}

module _ {lib : IndexSet} (laws : SetLaws lib) where
  -- The worklist holds reachable operations only.
  unfoldable pub WorklistReachable : SccpState lib → Type 0
  WorklistReachable s = (op : ℕ) → (queued laws s op && not (is_reachable lib s op)) ≡ false

  -- From s to t, values only go down the lattice, reachable operations stay so, and the worklist
  -- still holds reachable operations only.
  unfoldable pub Advances : SccpState lib → SccpState lib → Type 0
  Advances s t =
      WorklistReachable t
      × ((v : ℕ) → leq (get_val_state lib t v) (get_val_state lib s v) ≡ true)
      × ((op : ℕ) → (is_reachable lib s op && not (is_reachable lib t op)) ≡ false)

  unmoved : (s : SccpState lib) → WorklistReachable s → Advances s s
  unfolding Advances
  unmoved s w = (w, λ v. leq_refl _, λ op. ground arith)

  Advances-trans : (s t u : SccpState lib) → Advances s t → Advances t u → Advances s u
  unfolding Advances
  Advances-trans s t u a b =
      (b.0, λ v. leq_trans _ _ _ (b.1 v) (a.1 v), λ op. ground (arith, a.2 op, b.2 op))

  below :
      (b : Bool) {x old : Constness} (new : Constness)
      → (b ≡ true → x ≡ old)
      → leq (if b then meet old new else x) x ≡ true
  below true {old = old} new f = rw (f refl) (meet-leq old new)
  below false new f = leq_refl _

  merged :
      (ir : Ir) (s : SccpState lib) (val : ℕ) (incoming : Constness)
      → WorklistReachable s
      → Advances s (merge_val_state lib ir s val incoming)
  unfolding Advances Merged WorklistReachable
  merged ir s val incoming w = (
    λ op.
        let m = merge_val_state-Merged laws ir s val incoming op in ground (arith, m.1, m.2, w op),
    λ v.
        ap (λ z. leq z (get_val_state lib s v)) (merge_val_state-Merged laws ir s val incoming v).0
        ∙ below (v == val) incoming λ h. ap (get_val_state lib s) (==→≡ v val h),
    λ op. let m = merge_val_state-Merged laws ir s val incoming op in ground (arith, m.1),
  )

  marked : (s : SccpState lib) (op : ℕ) → WorklistReachable s → Advances s (mark_reachable lib s op)
  unfolding Advances WorklistReachable mark_reachable set_reachable is_reachable get_val_state
      enqueue
  marked s op w = elim (Bool-cases (s.reachable_ops op)) [
    | inl t ↦ rw (mark_reachable, is_reachable, t) (unmoved s w)
    | inr f ↦
        rw (mark_reachable, is_reachable, f)
          (
            λ o. ground (arith, w o, queued-enqueue laws (set_reachable lib s op) op o),
            λ v. leq_refl _,
            λ o. ground arith,
          )
  ]

  marked_if_some :
      (s : SccpState lib) (o : Option ℕ) → WorklistReachable s → Advances s (mark_if_some lib s o)
  unfolding mark_if_some
  marked_if_some s none w = unmoved s w
  marked_if_some s (some op) w = marked s op w

  marked_next :
      (ir : Ir) (s : SccpState lib) (op : ℕ)
      → WorklistReachable s
      → Advances s (mark_next_reachable lib ir s op)
  unfolding mark_next_reachable
  marked_next ir s op w = elim (Bool-cases (op == s.root_op)) [
    | inl t ↦ rw (mark_next_reachable, t) (unmoved s w)
    | inr f ↦ rw (mark_next_reachable, f) (marked_if_some s (ir.next op) w)
  ]

  Advances-Worklist : (s t : SccpState lib) → Advances s t → WorklistReachable t
  unfolding Advances
  Advances-Worklist s t a = a.0

  merged_arguments :
      (ir : Ir) (args : List ℕ) (s : SccpState lib)
      → WorklistReachable s
      → Advances s (merge_arguments lib ir s args)
  unfolding merge_arguments
  merged_arguments ir [] s w = unmoved s w
  merged_arguments ir (arg ∷ args) s w =
      let first = merged ir s arg not_a_constant w in
      Advances-trans s _ _ first (merged_arguments ir args _ (Advances-Worklist s _ first))

  seeded_entry :
      (ir : Ir) (s : SccpState lib) (o : Option ℕ)
      → WorklistReachable s
      → Advances s (seed_entry lib ir s o)
  unfolding seed_entry mark_block_reachable
  seeded_entry ir s none w = unmoved s w
  seeded_entry ir s (some entry) w =
      let first = merged_arguments ir (ir.arguments entry) s w in
      Advances-trans s _ _ first (marked_if_some _ (ir.head entry) (Advances-Worklist s _ first))

  pub seeded :
      (ir : Ir) (regions : List ℕ) (s : SccpState lib)
      → WorklistReachable s
      → Advances s (seed_regions lib ir s regions)
  unfolding seed_regions
  seeded ir [] s w = unmoved s w
  seeded ir (r ∷ rs) s w =
      let first = seeded_entry ir s (ir.entry_block r) w in
      Advances-trans s _ _ first (seeded ir rs _ (Advances-Worklist s _ first))

  has-init : (a x : ℕ) (l : List ℕ) → (has a (init x l) && not (has a (x ∷ l))) ≡ false
  has-init a x [] = refl
  has-init a x (y ∷ l) = ground (arith, has-init a y l)

  has-all_but_last : (a : ℕ) (l : List ℕ) → (has a (all_but_last l) && not (has a l)) ≡ false
  has-all_but_last a [] = refl
  has-all_but_last a (x ∷ l) = has-init a x l

  popped : (s : SccpState lib) → WorklistReachable s → Advances s (pop_op lib s).0
  unfolding Advances WorklistReachable pop_op is_reachable get_val_state
  popped s w = (
    λ op. ground (
      arith,
      w op,
      has-all_but_last op (lib.iter s.op_worklist),
      ap (has op) (laws.iter-pop s.op_worklist).0,
    ),
    λ v. leq_refl _,
    λ op. ground arith,
  )

  -- The operations that the analysis calls.
  pub data Step (ir : Ir) : SccpState lib → SccpState lib → Type 0 where
    merging :
        (s : SccpState lib) (val : ℕ) (incoming : Constness)
        → Step ir s (merge_val_state lib ir s val incoming)
    marking_block :
        (s : SccpState lib) (block : ℕ) → Step ir s (mark_block_reachable lib ir s block)
    marking_next : (s : SccpState lib) (op : ℕ) → Step ir s (mark_next_reachable lib ir s op)
    seeding : (s : SccpState lib) (op : ℕ) → Step ir s (seed_nested_regions lib ir s op)
    popping : (s : SccpState lib) → Step ir s (pop_op lib s).0

  pub data Steps (ir : Ir) : SccpState lib → SccpState lib → Type 0 where
    done : (s : SccpState lib) → Steps ir s s
    then_step : {s t u : SccpState lib} → Steps ir s t → Step ir t u → Steps ir s u

  step : (ir : Ir) {s t : SccpState lib} → Step ir s t → WorklistReachable s → Advances s t
  unfolding mark_block_reachable seed_nested_regions
  step ir (merging s val incoming) w = merged ir s val incoming w
  step ir (marking_block s block) w = marked_if_some s (ir.head block) w
  step ir (marking_next s op) w = marked_next ir s op w
  step ir (seeding s op) w = seeded ir (ir.regions op) s w
  step ir (popping s) w = popped s w

  -- Whatever operations the analysis calls, in any order, values only go down the lattice, what is
  -- reachable stays so, and the worklist holds reachable operations only, if it did at first.
  pub Steps-Advances :
      (ir : Ir) {s t : SccpState lib} → Steps ir s t → WorklistReachable s → Advances s t
  Steps-Advances ir (done s) w = unmoved s w
  Steps-Advances ir (then_step {s} {t} {u} before last) w =
      let a = Steps-Advances ir before w in
      Advances-trans s t u a (step ir last (Advances-Worklist s t a))
