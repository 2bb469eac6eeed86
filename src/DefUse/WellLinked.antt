-- ===== src/DefUse/WellLinked.antt =====
-- Well-linked contexts, and how a new operand and an operand that drops its use change them.
use pliron.Prelude.{
  ℕ, ◌+◌, ◌≤◌, ◌≡◌, refl, ap, ◌∙◌, false, some, List, [], ◌∷◌, ◌++◌, arith, Bool-cases, is_some,
  inl, inr,
}
use pliron.DefUse.{
  Use, Operand, Chains, has_use_of, without_use, add_use, remove_use, get_new_use_uid, new_operand,
  drop_use,
}
use pliron.DefUse.Count.{count}
use pliron.DefUse.Uses.{has_use_of-absent, has_use_of-present}
use pliron.DefUse.Linked.{
  ChainLaws, has_uid, operands_of, is_operand, Linked, Adds, Linked-same, Linked-add, Linked-drop,
  held-Adds, Linked-present, Linked-there,
}

module _ (c : Chains) where
  open c use {Context, Def, get_defnode, get_operands, use_counter}

  -- Within an operation the uses' identifiers differ, and they are all below `n`.
  unfoldable pub Uids : (ℕ → List (Operand Def)) → ℕ → Type 0
  Uids held n =
      (p uid : ℕ)
      → (count (has_uid uid) (held p) ≤ 1) × (n ≤ uid → count (has_uid uid) (held p) ≡ 0)

  -- A definition lists, once, a use for each operand that has it, and no other; new identifiers
  -- are new.
  pub record WellLinked (ctx : Context) : Type 0 where
    pub linked : Linked c (operands_of c ctx) ctx
    pub uids : Uids (operands_of c ctx) (use_counter ctx)

  -- Only uses of the definitions changed.
  pub record SameButUses (ctx ctx' : Context) : Type 0 where
    pub operands : (p : ℕ) → get_operands ctx' p ≡ get_operands ctx p
    pub defs : (d : Def) → is_some (get_defnode ctx' d) ≡ is_some (get_defnode ctx d)

module _ {c : Chains} (laws : ChainLaws c) where
  open c use {
    Context, Def, eq, get_defnode, set_defnode, get_operands, set_operands, use_counter,
    set_use_counter,
  }

  pub is_operand-le :
      (d : Def) (uid : ℕ) (l : List (Operand Def))
      → count (is_operand c d uid) l ≤ count (has_uid uid) l
  is_operand-le d uid [] = omega arith
  is_operand-le d uid (o ∷ l) = ground (arith, is_operand-le d uid l)

  pub Uids-add :
      (held held' : ℕ → List (Operand Def)) (n p : ℕ) (o : Operand Def)
      → Adds c held held' p o
      → o.use_uid ≡ n
      → Uids c held n
      → Uids c held' (n + 1)
  unfolding Uids
  Uids-add held held' n p o adds e w x uid =
      let before = w x uid in
      let one_more = adds x (has_uid uid) in
      (ground (arith, before, one_more, e), λ h. ground (arith, before, one_more, e))

  pub Uids-drop :
      (held held' : ℕ → List (Operand Def)) (n p : ℕ) (o : Operand Def)
      → Adds c held' held p o
      → Uids c held n
      → Uids c held' n
  unfolding Uids
  Uids-drop held held' n p o adds w x uid =
      let before = w x uid in
      let one_more = adds x (has_uid uid) in
      (omega (arith, before, one_more), λ h. omega (arith, before.1 h, one_more))

  pub set_defnode-Same :
      (ctx : Context) (d : Def) (us l : List Use)
      → get_defnode ctx d ≡ some us
      → SameButUses c ctx (set_defnode ctx d l)
  set_defnode-Same ctx d us l e = record {
    operands = laws.operands-set_defnode ctx d l;
    defs = λ f. rw (laws.get-set_defnode ctx d f l us e) (elim (Bool-cases (eq d f)) [
      | inl t ↦ rw (t, ← (laws.eq→≡ d f t), e) refl
      | inr n ↦ rw n refl
    ]);
  }

  -- An operand that is held drops its use.
  pub drop_use_lem :
      (held held' : ℕ → List (Operand Def)) (ctx : Context) (p : ℕ) (o : Operand Def)
      → Adds c held' held p o
      → Linked c held ctx
      → (ctx' : Context) × (drop_use c ctx o p ≡ some ctx')
        × Linked c held' ctx'
        × SameButUses c ctx ctx'
        × (use_counter ctx' ≡ use_counter ctx)
  unfolding drop_use remove_use
  drop_use_lem held held' ctx p o adds w =
      let h = held-Adds laws held' held p o adds in
      let (us, e) = Linked-there laws held ctx p o h w in
      let u : Use = record { user_op = p; use_uid = o.use_uid } in
      let present = has_use_of-present us u (Linked-present laws held ctx us p o e h w) in
      let us' = without_use us u in
      (
        set_defnode ctx o.def us',
        rw (drop_use, e, remove_use, present) refl,
        Linked-drop laws held held' ctx us p o e adds w,
        set_defnode-Same ctx o.def us us' e,
        laws.counter-set_defnode ctx o.def us',
      )

  -- A new operand for an operation.
  pub new_operand_held :
      (held : ℕ → List (Operand Def)) (ctx : Context) (us : List Use) (p : ℕ) (d : Def)
      → get_defnode ctx d ≡ some us
      → Linked c held ctx
      → Uids c held (use_counter ctx)
      → (ctx' : Context) × (new_operand c ctx d p
          ≡ some (record { def = d; use_uid = use_counter ctx }, ctx'))
        × ((held' : ℕ → List (Operand Def))
            → Adds c held held' p (record { def = d; use_uid = use_counter ctx })
            → Linked c held' ctx')
        × SameButUses c ctx ctx'
        × (use_counter ctx' ≡ use_counter ctx + 1)
  unfolding new_operand get_new_use_uid add_use Linked Uids
  new_operand_held held ctx us p d e linked uids =
      let n = use_counter ctx in
      let u : Use = record { user_op = p; use_uid = n } in
      let ctx1 = set_use_counter ctx (n + 1) in
      let e1 : get_defnode ctx1 d ≡ some us = laws.defnode-set_use_counter ctx (n + 1) d ∙ e in
      let absent : has_use_of us u ≡ false =
        has_use_of-absent us u
          (ground (arith, linked d p n, is_operand-le d n (held p), (uids p n).1 (omega arith))) in
      let us' = us ++ u ∷ [] in
      let same = set_defnode-Same ctx1 d us us' e1 in
      (
        set_defnode ctx1 d us',
        rw (new_operand, get_new_use_uid, e1, add_use, absent) refl,
        λ held' adds.
            Linked-add laws held held' ctx1 us p (record { def = d; use_uid = n }) e1 adds
              (Linked-same laws held ctx ctx1 (laws.defnode-set_use_counter ctx (n + 1)) linked),
        record {
          operands = λ x. same.operands x ∙ laws.operands-set_use_counter ctx (n + 1) x;
          defs = λ f. same.defs f ∙ ap is_some (laws.defnode-set_use_counter ctx (n + 1) f);
        },
        laws.counter-set_defnode ctx1 d us' ∙ laws.counter-set ctx (n + 1),
      )

  pub new_operand_lem :
      (ctx : Context) (us : List Use) (p : ℕ) (d : Def)
      → get_defnode ctx d ≡ some us
      → WellLinked c ctx
      → (ctx' : Context) × (new_operand c ctx d p
          ≡ some (record { def = d; use_uid = use_counter ctx }, ctx'))
        × ((held : ℕ → List (Operand Def))
            → Adds c (operands_of c ctx) held p (record { def = d; use_uid = use_counter ctx })
            → Linked c held ctx')
        × SameButUses c ctx ctx'
        × (use_counter ctx' ≡ use_counter ctx + 1)
  new_operand_lem ctx us p d e w = new_operand_held (operands_of c ctx) ctx us p d e w.linked w.uids
