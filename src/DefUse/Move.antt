-- ===== src/DefUse/Move.antt =====
-- A use that moves from one definition to another, step by step.
use pliron.Prelude.{
  ℕ, ◌+◌, ◌≡◌, refl, ◌∙◌, Bool, false, ◌&&◌, some, List, [], ◌∷◌, ◌++◌, arith, ◌==◌, ==→≡,
  if◌then◌else◌, Bool-cases, inl, inr,
}
use pliron.SmallTable.Vec.{get_elem?, set}
use pliron.DefUse.{Use, Operand, Chains, without_use}
use pliron.DefUse.Count.{one_if, count, count-set}
use pliron.DefUse.Linked.{
  ChainLaws, has_uid, operands_of, Linked, Adds, Linked-same, Linked-add, Linked-drop,
}
use pliron.DefUse.WellLinked.{Uids, WellLinked}
use pliron.DefUse.Redirect.{eq_false_sym}

-- A use of `this` that stands for the operand at `index`, about to be one of `other`.
pub record Move (c : Chains) : Type 0 where
  pub ctx : c.Context
  pub this : c.Def
  pub other : c.Def
  pub u : Use
  pub mine : List Use
  pub theirs : List Use
  pub l : List (Operand c.Def)
  pub index : ℕ
  pub well : WellLinked c ctx
  pub differ : c.eq this other ≡ false
  pub mine_there : c.get_defnode ctx this ≡ some mine
  pub there : c.get_defnode ctx other ≡ some theirs
  pub stored : c.get_operands ctx u.user_op ≡ some l
  pub old : get_elem? l index ≡ some (record { def = this; use_uid = u.use_uid })

module _ {c : Chains} (laws : ChainLaws c) (m : Move c) where
  open c use {Context, Def, eq, get_defnode, set_defnode, get_operands, set_operands, use_counter}
  open m use {
    ctx, this, other, u, mine, theirs, l, index, well, differ, mine_there, there, stored, old,
  }

  abbrev old_operand : Operand Def
  old_operand = record { def = this; use_uid = u.use_uid }

  abbrev moved_operand : Operand Def
  moved_operand = record { def = other; use_uid = u.use_uid }

  abbrev pub with_new_use : Context
  with_new_use = set_defnode ctx other (theirs ++ u ∷ [])

  abbrev pub with_new_operand : Context
  with_new_operand = set_operands with_new_use u.user_op (set l index moved_operand)

  abbrev pub after_move : Context
  after_move = set_defnode with_new_operand this (without_use mine u)

  pub operands_with_new_use : (x : ℕ) → get_operands with_new_use x ≡ get_operands ctx x
  operands_with_new_use = laws.operands-set_defnode ctx other (theirs ++ u ∷ [])

  pub operands_with_new_operand :
      (x : ℕ)
      → get_operands with_new_operand x
        ≡ (if u.user_op == x then some (set l index moved_operand) else get_operands ctx x)
  operands_with_new_operand x =
      laws.get-set_operands with_new_use u.user_op x (set l index moved_operand) l
        (operands_with_new_use u.user_op ∙ stored)
      ∙ rw (operands_with_new_use x) refl

  pub operands_after_move :
      (x : ℕ)
      → get_operands after_move x
        ≡ (if u.user_op == x then some (set l index moved_operand) else get_operands ctx x)
  operands_after_move x =
      laws.operands-set_defnode with_new_operand this (without_use mine u) x
      ∙ operands_with_new_operand x

  pub mine_still_there : get_defnode with_new_operand this ≡ some mine
  mine_still_there =
      laws.defnode-set_operands with_new_use u.user_op (set l index moved_operand) this
      ∙ laws.get-set_defnode ctx other this (theirs ++ u ∷ []) theirs there
      ∙ rw (eq_false_sym laws this other differ) mine_there

  -- Where the operands are counted after the move, in terms of those before.
  count-after_move :
      (x : ℕ) (q : Operand Def → Bool)
      → count q (operands_of c after_move x) + one_if ((u.user_op == x) && q old_operand)
        ≡ count q (operands_of c ctx x) + one_if ((u.user_op == x) && q moved_operand)
  count-after_move x q = rw (operands_after_move x) (elim (Bool-cases (u.user_op == x)) [
    | inl t ↦
        rw (t, ← (==→≡ u.user_op x t), stored) (count-set q l index moved_operand old_operand old)
    | inr f ↦ rw f (omega arith)
  ])

  after_move-Linked : Linked c (operands_of c after_move) after_move
  unfolding Linked
  after_move-Linked =
      let held = λ (x : ℕ).
        if u.user_op == x then moved_operand ∷ operands_of c ctx x else operands_of c ctx x in
      let both : Linked c held with_new_use =
        Linked-add laws (operands_of c ctx) held ctx theirs u.user_op moved_operand there
          (λ x q. ground arith) well.linked in
      let adds : Adds c (operands_of c after_move) held u.user_op old_operand =
        λ x q. ground (arith, count-after_move x q) in
      Linked-drop laws held (operands_of c after_move) with_new_operand mine u.user_op old_operand
        mine_still_there adds
        (Linked-same laws held with_new_use with_new_operand
          (laws.defnode-set_operands with_new_use u.user_op (set l index moved_operand)) both)

  after_move-Uids : Uids c (operands_of c after_move) (use_counter after_move)
  unfolding Uids
  after_move-Uids x uid =
      let counter : use_counter after_move ≡ use_counter ctx =
        laws.counter-set_defnode _ _ _
        ∙ laws.counter-set_operands _ _ _
        ∙ laws.counter-set_defnode _ _ _ in
      let before = well.uids x uid in
      rw counter (
        ground (arith, before, count-after_move x (has_uid uid)),
        λ h. ground (arith, before, count-after_move x (has_uid uid)),
      )

  pub after_move-WellLinked : WellLinked c after_move
  after_move-WellLinked = record { linked = after_move-Linked; uids = after_move-Uids }
