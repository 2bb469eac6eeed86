-- ===== src/Sccp/Merge.antt =====
-- What merging a value's state and marking an operation reachable do to the state.
use pliron.Prelude.{
  ℕ, ◌≡◌, refl, sym, ap, ◌∙◌, Bool, true, false, not, ◌&&◌, ◌||◌, Option, some, List, [], ◌∷◌,
  arith, ◌==◌, ==→≡, ==_refl, if◌then◌else◌, has, has-append, Bool-cases, inl, inr,
}
use pliron.SmallTable.Set.{IndexSet, SetLaws, with_value}
use pliron.Sccp.{
  Constness, unwrap_or_bottom, Ir, SccpState, leq, meet, get_val_state, is_reachable, set_val,
  enqueue, enqueue_users, merge_val_state,
}
use pliron.Sccp.Lattice.{meet-same}

has-with_value : (a k : ℕ) (l : List ℕ) → has a (with_value k l) ≡ (has a l || (a == k))
has-with_value a k l = elim (Bool-cases (has k l)) [
  | inl t ↦ elim (Bool-cases (a == k)) [
    | inl s ↦ rw (t, ==→≡ a k s) (ground (arith, t, ==_refl k))
    | inr s ↦ ground arith
  ]
  | inr f ↦ rw f (ground (arith, has-append a l (k ∷ [])))
]

-- One user of the loop, reachable or not.
reached : (q e h r : Bool) → (e ≡ true → r ≡ true) → ((q || e) || (h && r)) ≡ (q || ((e || h) && r))
reached q true h r k = ground (arith, k refl)
reached q false h r k = ground arith

unreached : (q e h r : Bool) → (e ≡ true → r ≡ false) → (q || (h && r)) ≡ (q || ((e || h) && r))
unreached q true h r k = ground (arith, k refl)
unreached q false h r k = ground arith

kept :
    (b : Bool) {x old new : Constness}
    → (b ≡ true → x ≡ old)
    → new ≡ old
    → x ≡ (if b then new else x)
kept true f e = f refl ∙ sym e
kept false f e = refl

unwrap-if :
    (b : Bool) (c : Constness) (o : Option Constness)
    → unwrap_or_bottom (if b then some c else o) ≡ (if b then c else unwrap_or_bottom o)
unwrap-if true c o = refl
unwrap-if false c o = refl

and_true : (a b : Bool) → b ≡ true → a ≡ (a && b)
and_true true b e = sym e
and_true false b e = refl

and_false : (q a b : Bool) → b ≡ false → q ≡ (q || (a && b))
and_false q a b e = ground (arith, e)

module _ {lib : IndexSet} (laws : SetLaws lib) where
  abbrev pub queued : SccpState lib → ℕ → Bool
  queued s op = has op (lib.iter s.op_worklist)

  pub queued-enqueue :
      (s : SccpState lib) (k op : ℕ) → queued (enqueue lib s k) op ≡ (queued s op || (op == k))
  unfolding enqueue
  queued-enqueue s k op =
      ap (has op) (laws.iter-insert s.op_worklist k) ∙ has-with_value op k (lib.iter s.op_worklist)

  -- The loop over the users queues the reachable ones and does nothing else.
  queued-enqueue_users :
      (us : List ℕ) (s : SccpState lib) (op : ℕ)
      → (queued (enqueue_users lib us s) op ≡ (queued s op || (has op us && is_reachable lib s op)))
        × (is_reachable lib (enqueue_users lib us s) op ≡ is_reachable lib s op)
        × (get_val_state lib (enqueue_users lib us s) op ≡ get_val_state lib s op)
  unfolding enqueue_users is_reachable get_val_state enqueue
  queued-enqueue_users [] s op = (ground arith, refl, refl)
  queued-enqueue_users (u ∷ us) s op = elim (Bool-cases (s.reachable_ops u)) [
    | inl t ↦
        let rest = queued-enqueue_users us (enqueue lib s u) op in
        rw (enqueue_users, is_reachable, t)
          (
            rest.0
                ∙ ap (λ q. q || (has op us && s.reachable_ops op)) (queued-enqueue s u op)
                ∙ reached (queued s op) (op == u) (has op us) _
                    λ h. ap s.reachable_ops (==→≡ op u h) ∙ t,
            rest.1,
            rest.2,
          )
    | inr f ↦
        let rest = queued-enqueue_users us s op in
        rw (enqueue_users, is_reachable, f)
          (
            rest.0
                ∙ unreached (queued s op) (op == u) (has op us) _
                    λ h. ap s.reachable_ops (==→≡ op u h) ∙ f,
            rest.1,
            rest.2,
          )
  ]

  -- What is known of a value after a merge, and which operations are queued.
  unfoldable pub Merged : Ir → SccpState lib → ℕ → Constness → SccpState lib → ℕ → Type 0
  Merged ir s val incoming out op =
      (get_val_state lib out op
        ≡ (if op == val then meet (get_val_state lib s val) incoming else get_val_state lib s op))
      × (is_reachable lib out op ≡ is_reachable lib s op)
      × (queued out op ≡ (
          queued s op
          || ((has op (ir.users val) && is_reachable lib s op)
              && not (leq (get_val_state lib s val) (meet (get_val_state lib s val) incoming)))))

  get_val_state-set_val :
      (s : SccpState lib) (val v : ℕ) (c : Constness)
      → get_val_state lib (set_val lib s val c) v ≡ (if v == val then c else get_val_state lib s v)
  unfolding get_val_state set_val
  get_val_state-set_val s val v c = unwrap-if (v == val) c (s.val_states v)

  -- merge_val_state sets the value to the meet of what was known with what comes in, keeps all
  -- other values and what is reachable, and queues exactly the reachable users, and only if the
  -- value went down.
  pub merge_val_state-Merged :
      (ir : Ir) (s : SccpState lib) (val : ℕ) (incoming : Constness) (op : ℕ)
      → Merged ir s val incoming (merge_val_state lib ir s val incoming) op
  unfolding merge_val_state Merged is_reachable set_val
  merge_val_state-Merged ir s val incoming op =
      let old = get_val_state lib s val in
      elim (Bool-cases (leq old (meet old incoming))) [
        | inl t ↦
            rw (merge_val_state, t)
              (
                kept (op == val) (λ h. ap (get_val_state lib s) (==→≡ op val h))
                    (meet-same old incoming t),
                refl,
                and_false _ _ _ refl,
              )
        | inr f ↦
            let loop =
              queued-enqueue_users (ir.users val) (set_val lib s val (meet old incoming)) op in
            rw (merge_val_state, f)
              (
                loop.2 ∙ get_val_state-set_val s val op _,
                loop.1,
                loop.0 ∙ ap (λ z. queued s op || z) (and_true _ _ refl),
              )
      ]
