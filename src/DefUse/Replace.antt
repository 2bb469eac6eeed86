-- ===== src/DefUse/Replace.antt =====
-- replace_use_with and the loops over it: the uses of a definition become uses of another.
use pliron.Prelude.{
  ℕ, ◌+◌, ◌<◌, ◌≤◌, ◌≡◌, refl, ap, ◌∙◌, Bool, false, some, List, [], ◌∷◌, ◌++◌, map, arith, ◌==◌,
  ==→≡, Bool-cases, Option-cases, is_some, inl, inr,
}
use pliron.SmallTable.Vec.{set}
use pliron.DefUse.{
  Use, Operand, Chains, same_use, has_use_of, add_use, without_use, move_use, replace_use_with,
}
use pliron.DefUse.Count.{count}
use pliron.DefUse.Uses.{has_use_of-absent, count-without_use}
use pliron.DefUse.Linked.{ChainLaws, has_uid, uses_of, is_operand, Linked}
use pliron.DefUse.WellLinked.{Uids, WellLinked, set_defnode-Same}
use pliron.DefUse.Redirect.{redirect, redirected, redirected-elsewhere, apart, found}
use pliron.DefUse.Move.{
  Move, with_new_use, with_new_operand, after_move, operands_with_new_use, operands_after_move,
  mine_still_there, after_move-WellLinked,
}

module _ (c : Chains) where
  open c use {Context, Def, get_defnode, get_operands}

  -- The listed uses of `this` are uses of `other` now: the operands they stand for were redirected,
  -- and `this` has its other uses left.
  pub record Replaced (ctx : Context) (this other : Def) (us : List Use) (ctx' : Context)
      : Type 0 where
    pub well : WellLinked c ctx'
    pub operands : (p : ℕ) → get_operands ctx' p ≡ redirected c this other us p (get_operands ctx p)
    pub left :
        (q : Use → Bool) → count q (uses_of c ctx' this) + count q us ≡ count q (uses_of c ctx this)
    pub defs : (d : Def) → is_some (get_defnode ctx' d) ≡ is_some (get_defnode ctx d)

module _ {c : Chains} (laws : ChainLaws c) where
  open c use {Context, Def, eq, get_defnode, set_defnode, get_operands, set_operands, use_counter}

  -- A use that a definition lists is that of an operand.
  pub used_operand :
      (ctx : Context) (this : Def) (p uid : ℕ)
      → WellLinked c ctx
      → 0 < count (same_use (record { user_op = p; use_uid = uid })) (uses_of c ctx this)
      → (mine : List Use) × (l : List (Operand Def)) × (get_defnode ctx this ≡ some mine)
        × (get_operands ctx p ≡ some l)
        × (0 < count (is_operand c this uid) l)
  unfolding Linked
  used_operand ctx this p uid w h = elim (Option-cases (get_defnode ctx this)) [
    | inl gone ↦ absurd (ground arith)
    | inr (mine, e) ↦ elim (Option-cases (get_operands ctx p)) [
      | inl dead ↦ absurd (ground (arith, w.linked this p uid))
      | inr (l, e') ↦ (mine, l, e, e', ground (arith, w.linked this p uid))
    ]
  ]

  after_move-Replaced :
      (m : Move c)
      → 0 < count (same_use m.u) (uses_of c m.ctx m.this)
      → set m.l m.index (record { def = m.other; use_uid = m.u.use_uid })
        ≡ map (redirect c m.this m.other (m.u ∷ []) m.u.user_op) m.l
      → Replaced c m.ctx m.this m.other (m.u ∷ []) (after_move laws m)
  after_move-Replaced m h moved =
      let p = m.u.user_op in
      let others = without_use m.mine m.u in
      let first = set_defnode-Same laws m.ctx m.other m.theirs (m.theirs ++ m.u ∷ []) m.there in
      let second =
        laws.defnode-set_operands (with_new_use laws m) p
          (set m.l m.index (record { def = m.other; use_uid = m.u.use_uid })) in
      let third =
        set_defnode-Same laws (with_new_operand laws m) m.this m.mine others
          (mine_still_there laws m) in
      let now : get_defnode (after_move laws m) m.this ≡ some others =
        laws.get-set_defnode (with_new_operand laws m) m.this m.this others m.mine
          (mine_still_there laws m)
        ∙ rw (laws.eq_refl m.this) refl in
      record {
        well = after_move-WellLinked laws m;
        operands = λ x. rw (operands_after_move laws m x) (elim (Bool-cases (p == x)) [
          | inl t ↦ rw (t, ← (==→≡ p x t), m.stored) (ap some moved)
          | inr f ↦ rw f (redirected-elsewhere laws m.this m.other m.u x (get_operands m.ctx x) f)
        ]);
        left = λ q. rw now (ground (arith, count-without_use q m.mine m.u, m.mine_there));
        defs = λ d. third.defs d ∙ ap is_some (second d) ∙ first.defs d;
      }

  -- Between different live definitions, replace_use_with moves one use: the operand it stands for
  -- has the other definition, and the definition has the use no more.
  pub replace_use_with-Replaced :
      (ctx : Context) (this other : Def) (u : Use) {theirs : List Use}
      → WellLinked c ctx
      → eq this other ≡ false
      → get_defnode ctx other ≡ some theirs
      → 0 < count (same_use u) (uses_of c ctx this)
      → (ctx' : Context) × (replace_use_with c ctx this u other ≡ some ctx')
        × Replaced c ctx this other (u ∷ []) ctx'
  unfolding replace_use_with move_use add_use Linked Uids
  replace_use_with-Replaced ctx this other u {theirs} w differ there h =
      let p = u.user_op in
      let uid = u.use_uid in
      let (mine, l, e, stored, held_by) = used_operand ctx this p uid w h in
      let once : count (has_uid uid) l ≤ 1 = ground (arith, w.uids p uid) in
      let (i, at, old, moved) = found laws this other p uid l once held_by in
      let new : has_use_of theirs u ≡ false =
        has_use_of-absent theirs u
          (ground (arith, w.linked other p uid, apart laws this other uid l differ)) in
      let m : Move c = record {
        ctx = ctx;
        this = this;
        other = other;
        u = u;
        mine = mine;
        theirs = theirs;
        l = l;
        index = i;
        well = w;
        differ = differ;
        mine_there = e;
        there = there;
        stored = stored;
        old = old;
      } in
      let ops = operands_with_new_use laws m p in
      (
        after_move laws m,
        rw (replace_use_with, e, there, differ, move_use, add_use, new, ops, stored, at)
            (rw (mine_still_there laws m) refl),
        after_move-Replaced m h moved,
      )
