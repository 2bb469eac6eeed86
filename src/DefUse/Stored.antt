-- ===== src/DefUse/Stored.antt =====
-- An operation that stores other operands, after a new operand was made or before an old one
-- drops its use.
use pliron.Prelude.{
  ℕ, ◌+◌, ◌≡◌, refl, ap, ◌∙◌, Bool, false, some, List, arith, ◌==◌, ==→≡, ==_refl, if◌then◌else◌,
  Bool-cases, is_some, inl, inr,
}
use pliron.DefUse.{Operand, Chains, drop_use}
use pliron.DefUse.Count.{one_if, count}
use pliron.DefUse.Linked.{ChainLaws, operands_of, Linked, Adds, Linked-same}
use pliron.DefUse.WellLinked.{Uids, Uids-add, Uids-drop, WellLinked, SameButUses, drop_use_lem}

module _ (c : Chains) where
  open c use {Context, Def, get_defnode, get_operands, use_counter}

  -- An operation has other operands, and the uses of definitions follow. No other operation
  -- changed, and no definition came or went.
  pub record Becomes (ctx : Context) (p : ℕ) (l : List (Operand Def)) (ctx' : Context)
      : Type 0 where
    pub well : WellLinked c ctx'
    pub here : get_operands ctx' p ≡ some l
    pub elsewhere : (x : ℕ) → (p == x) ≡ false → get_operands ctx' x ≡ get_operands ctx x
    pub defs : (d : Def) → is_some (get_defnode ctx' d) ≡ is_some (get_defnode ctx d)

  -- The operand that is made next.
  abbrev pub fresh_operand : Context → Def → Operand Def
  fresh_operand ctx d = record { def = d; use_uid = use_counter ctx }

module _ {c : Chains} (laws : ChainLaws c) where
  open c use {Context, Def, get_defnode, get_operands, set_operands, use_counter, in_operation}

  -- Storing an operation's operands, in a context where only uses changed.
  pub stored :
      (ctx ctx1 : Context) (p x : ℕ) (l l' : List (Operand Def))
      → SameButUses c ctx ctx1
      → get_operands ctx p ≡ some l
      → get_operands (set_operands ctx1 p l') x ≡ (if p == x then some l' else get_operands ctx x)
  stored ctx ctx1 p x l l' same e =
      rw (← (same.operands x)) (laws.get-set_operands ctx1 p x l' l (same.operands p ∙ e))

  stored-Adds :
      (ctx ctx1 : Context) (p : ℕ) (l l' : List (Operand Def)) (o : Operand Def)
      → SameButUses c ctx ctx1
      → get_operands ctx p ≡ some l
      → ((q : Operand Def → Bool) → count q l' ≡ count q l + one_if (q o))
      → Adds c (operands_of c ctx) (operands_of c (set_operands ctx1 p l')) p o
  stored-Adds ctx ctx1 p l l' o same e more x q =
      rw (stored ctx ctx1 p x l l' same e) (elim (Bool-cases (p == x)) [
        | inl t ↦ rw (t, ← (==→≡ p x t), e) (more q)
        | inr f ↦ rw f (omega arith)
      ])

  -- An operand that an operation gains, put somewhere among the others.
  pub gains :
      (ctx ctx1 : Context) (p : ℕ) (l l' : List (Operand Def)) (o : Operand Def)
      → WellLinked c ctx
      → ((held : ℕ → List (Operand Def)) → Adds c (operands_of c ctx) held p o → Linked c held ctx1)
      → SameButUses c ctx ctx1
      → use_counter ctx1 ≡ use_counter ctx + 1
      → o.use_uid ≡ use_counter ctx
      → get_operands ctx p ≡ some l
      → ((q : Operand Def → Bool) → count q l' ≡ count q l + one_if (q o))
      → Becomes c ctx p l' (set_operands ctx1 p l')
  gains ctx ctx1 p l l' o w linked same counter uid e more =
      let adds = stored-Adds ctx ctx1 p l l' o same e more in
      let held = operands_of c (set_operands ctx1 p l') in
      record {
        well = record {
          linked =
              Linked-same laws held ctx1 (set_operands ctx1 p l')
                (laws.defnode-set_operands ctx1 p l') (linked held adds);
          uids =
              rw (laws.counter-set_operands ctx1 p l', counter)
                (Uids-add laws (operands_of c ctx) held (use_counter ctx) p o adds uid w.uids);
        };
        here = stored ctx ctx1 p p l l' same e ∙ rw (==_refl p) refl;
        elsewhere = λ x f. stored ctx ctx1 p x l l' same e ∙ rw f refl;
        defs = λ d. ap is_some (laws.defnode-set_operands ctx1 p l' d) ∙ same.defs d;
      }

  -- What is left to show once the uses followed.
  pub settles :
      (ctx ctx1 ctx2 : Context) (p : ℕ) (l l' : List (Operand Def))
      → SameButUses c ctx ctx1
      → get_operands ctx p ≡ some l
      → SameButUses c (set_operands ctx1 p l') ctx2
      → Linked c (operands_of c (set_operands ctx1 p l')) ctx2
      → Uids c (operands_of c (set_operands ctx1 p l')) (use_counter ctx2)
      → Becomes c ctx p l' ctx2
  unfolding Linked Uids
  settles ctx ctx1 ctx2 p l l' same e same' linked uids =
      let now = λ (x : ℕ). same'.operands x ∙ stored ctx ctx1 p x l l' same e in
      record {
        well = record {
          linked = λ d x uid. linked d x uid ∙ rw (same'.operands x) refl;
          uids = λ x uid. rw (same'.operands x) (uids x uid);
        };
        here = now p ∙ rw (==_refl p) refl;
        elsewhere = λ x f. now x ∙ rw f refl;
        defs = λ d. same'.defs d ∙ ap is_some (laws.defnode-set_operands ctx1 p l' d) ∙ same.defs d;
      }

  -- An operand that is no longer stored, and drops its use.
  pub loses :
      (ctx ctx1 : Context) (p : ℕ) (l l' : List (Operand Def)) (o : Operand Def)
      (held : ℕ → List (Operand Def))
      → SameButUses c ctx ctx1
      → get_operands ctx p ≡ some l
      → Linked c held ctx1
      → Uids c held (use_counter ctx1)
      → Adds c (operands_of c (set_operands ctx1 p l')) held p o
      → (ctx' : Context) × (drop_use c (set_operands ctx1 p l') o p ≡ some ctx')
        × Becomes c ctx p l' ctx'
  loses ctx ctx1 p l l' o held same e linked uids adds =
      let ctx2 = set_operands ctx1 p l' in
      let held' = operands_of c ctx2 in
      let kept = Linked-same laws held ctx1 ctx2 (laws.defnode-set_operands ctx1 p l') linked in
      let (ctx3, dropped, linked', same', counter) =
        drop_use_lem laws held held' ctx2 p o adds kept in
      (
        ctx3,
        dropped,
        settles ctx ctx1 ctx3 p l l' same e same' linked' (
            rw (counter, laws.counter-set_operands ctx1 p l')
              (Uids-drop laws held held' (use_counter ctx1) p o adds uids)),
      )

  pub all_same : (ctx : Context) → SameButUses c ctx ctx
  all_same ctx = record { operands = λ x. refl; defs = λ d. refl }
