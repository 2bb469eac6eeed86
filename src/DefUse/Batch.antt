-- ===== src/DefUse/Batch.antt =====
-- The operands of an operation that is created, or that drops all its uses.
use pliron.Prelude.{
  ℕ, ◌+◌, ◌≡◌, refl, sym, ap, ◌∙◌, Bool, true, ◌&&◌, some, List, [], ◌∷◌, ◌++◌, arith, ◌==◌, ==→≡,
  if◌then◌else◌, Bool-cases, is_some, Returns, returns, inl, inr,
}
use pliron.DefUse.{Operand, Chains, new_operands, init_operands, drop_each, drop_operands}
use pliron.DefUse.Count.{count, count-append}
use pliron.DefUse.Linked.{ChainLaws, has_uid, is_operand, operands_of, Linked, Adds, Linked-same}
use pliron.DefUse.WellLinked.{
  Uids, Uids-add, WellLinked, SameButUses, drop_use_lem, new_operand_held,
}
use pliron.DefUse.Stored.{Becomes, stored, settles, all_same}
use pliron.DefUse.ReplaceAll.{some_of}

module _ (c : Chains) where
  open c use {Context, Def, get_defnode}

  -- An operation holds these operands besides.
  abbrev pub AddsAll :
      (held held' : ℕ → List (Operand Def)) (p : ℕ) (os : List (Operand Def)) → Type 0
  AddsAll held held' p os =
      (x : ℕ) (q : Operand Def → Bool)
      → count q (held' x) ≡ count q (held x) + (if p == x then count q os else 0)

  abbrev with_operands :
      (held : ℕ → List (Operand Def)) (p : ℕ) (os : List (Operand Def)) → ℕ → List (Operand Def)
  with_operands held p os x = if p == x then os ++ held x else held x

  abbrev pub all_there : Context → List Def → Bool
  all_there ctx [] = true
  all_there ctx (d ∷ ds) = is_some (get_defnode ctx d) && all_there ctx ds

  abbrev pub defs_of : List (Operand Def) → List Def
  defs_of [] = []
  defs_of (o ∷ os) = o.def ∷ defs_of os

module _ {c : Chains} (laws : ChainLaws c) where
  open c use {Context, Def, get_defnode, get_operands, set_operands, use_counter}

  with_operands-AddsAll :
      (held : ℕ → List (Operand Def)) (p : ℕ) (os : List (Operand Def))
      → AddsAll c held (with_operands c held p os) p os
  with_operands-AddsAll held p os x q = elim (Bool-cases (p == x)) [
    | inl t ↦ rw t (omega (arith, count-append q os (held x)))
    | inr f ↦ rw f (omega arith)
  ]

  Linked-held :
      (held held' : ℕ → List (Operand Def)) (ctx : Context)
      → ((x : ℕ) (q : Operand Def → Bool) → count q (held' x) ≡ count q (held x))
      → Linked c held ctx
      → Linked c held' ctx
  unfolding Linked
  Linked-held held held' ctx same w d p uid = w d p uid ∙ sym (same p (is_operand c d uid))

  drop_each_lem :
      (held held' : ℕ → List (Operand Def)) (ctx : Context) (p : ℕ) (os : List (Operand Def))
      → AddsAll c held' held p os
      → Linked c held ctx
      → (ctx' : Context) × (drop_each c ctx os p ≡ some ctx')
        × Linked c held' ctx'
        × SameButUses c ctx ctx'
        × (use_counter ctx' ≡ use_counter ctx)
  unfolding drop_each
  drop_each_lem held held' ctx p [] adds w = (
    ctx,
    refl,
    Linked-held held held' ctx (λ x q. ground (arith, adds x q)) w,
    all_same laws ctx,
    refl,
  )
  drop_each_lem held held' ctx p (o ∷ os) adds w =
      let middle = with_operands c held' p os in
      let one : Adds c middle held p o =
        λ x q. ground (arith, adds x q, with_operands-AddsAll held' p os x q) in
      let (ctx1, dropped, linked, same, counter) = drop_use_lem laws held middle ctx p o one w in
      let (ctx2, rest, linked', same', counter') =
        drop_each_lem middle held' ctx1 p os (with_operands-AddsAll held' p os) linked in
      (
        ctx2,
        rw (drop_each, dropped) rest,
        linked',
        record {
          operands = λ x. same'.operands x ∙ same.operands x;
          defs = λ d. same'.defs d ∙ same.defs d;
        },
        counter' ∙ counter,
      )

  Uids-less :
      (held held' : ℕ → List (Operand Def)) (n p : ℕ) (os : List (Operand Def))
      → AddsAll c held' held p os
      → Uids c held n
      → Uids c held' n
  unfolding Uids
  Uids-less held held' n p os adds w x uid =
      let before = w x uid in
      let more = adds x (has_uid uid) in
      (omega (arith, before, more), λ h. omega (arith, before.1 h, more))

  -- When an operation drops all its uses it has no operands, their definitions lose the uses, and
  -- no other operation changes.
  pub drop_operands-Becomes :
      (ctx : Context) (p : ℕ) (l : List (Operand Def))
      → WellLinked c ctx
      → get_operands ctx p ≡ some l
      → Returns (Becomes c ctx p []) (drop_operands c ctx p)
  unfolding drop_operands
  drop_operands-Becomes ctx p l w e =
      let same = all_same laws ctx in
      let ctx1 = set_operands ctx p [] in
      let held = operands_of c ctx in
      let adds : AddsAll c (operands_of c ctx1) held p l = λ x q.
        rw (stored laws ctx ctx p x l [] same e) (elim (Bool-cases (p == x)) [
          | inl t ↦ rw (t, ← (==→≡ p x t), e) (omega arith)
          | inr f ↦ rw f (omega arith)
        ]) in
      let (ctx2, dropped, linked, same', counter) =
        drop_each_lem held (operands_of c ctx1) ctx1 p l adds
          (Linked-same laws held ctx ctx1 (laws.defnode-set_operands ctx p []) w.linked) in
      let uids = Uids-less held (operands_of c ctx1) (use_counter ctx) p l adds w.uids in
      rw (drop_operands, e, dropped)
        (returns (
          settles laws ctx ctx ctx2 p l [] same e same' linked
            (rw (counter, laws.counter-set_operands ctx p []) uids)))

  all_there-same :
      (ctx ctx' : Context) (ds : List Def)
      → SameButUses c ctx ctx'
      → all_there c ctx' ds ≡ all_there c ctx ds
  all_there-same ctx ctx' [] same = refl
  all_there-same ctx ctx' (d ∷ ds) same = rw (same.defs d, all_there-same ctx ctx' ds same) refl

  new_operands_lem :
      (held : ℕ → List (Operand Def)) (ctx : Context) (p : ℕ) (ds : List Def)
      → Linked c held ctx
      → Uids c held (use_counter ctx)
      → all_there c ctx ds ≡ true
      → (os : List (Operand Def)) × (ctx' : Context) × (new_operands c ctx p ds ≡ some (os, ctx'))
        × (defs_of c os ≡ ds)
        × ((held' : ℕ → List (Operand Def))
            → AddsAll c held held' p os
            → Linked c held' ctx' × Uids c held' (use_counter ctx'))
        × SameButUses c ctx ctx'
  unfolding new_operands
  new_operands_lem held ctx p [] linked uids there = (
    [],
    ctx,
    refl,
    refl,
    λ held' adds. (
      Linked-held held held' ctx (λ x q. ground (arith, adds x q)) linked,
      Uids-less held held' (use_counter ctx) p [] (λ x q. ground (arith, adds x q)) uids,
    ),
    all_same laws ctx,
  )
  new_operands_lem held ctx p (d ∷ ds) linked uids there =
      let (us, e) = some_of (get_defnode ctx d) (ground arith) in
      let o : Operand Def = record { def = d; use_uid = use_counter ctx } in
      let held1 = with_operands c held p (o ∷ []) in
      let one : Adds c held held1 p o =
        λ x q. ground (arith, with_operands-AddsAll held p (o ∷ []) x q) in
      let (ctx1, made, linked1, same, counter) =
        new_operand_held laws held ctx us p d e linked uids in
      let uids1 = Uids-add laws held held1 (use_counter ctx) p o one refl uids in
      let (os, ctx2, rest, defs, linked2, same') =
        new_operands_lem held1 ctx1 p ds (linked1 held1 one) (rw counter uids1)
          (all_there-same ctx ctx1 ds same ∙ ground arith) in
      (
        o ∷ os,
        ctx2,
        rw (new_operands, made) (rw rest refl),
        ap (◌∷◌ d) defs,
        λ held' adds. linked2 held' λ x q. ground (arith, adds x q, one x q),
        record {
          operands = λ x. same'.operands x ∙ same.operands x;
          defs = λ f. same'.defs f ∙ same.defs f;
        },
      )

  -- The operands of a new operation have the given definitions, in order, and each has its use.
  pub init_operands-Becomes :
      (ctx : Context) (p : ℕ) (ds : List Def)
      → WellLinked c ctx
      → get_operands ctx p ≡ some []
      → all_there c ctx ds ≡ true
      → Returns
          (λ ctx'. (os : List (Operand Def)) × (defs_of c os ≡ ds) × Becomes c ctx p os ctx')
          (init_operands c ctx p ds)
  unfolding init_operands
  init_operands-Becomes ctx p ds w e there =
      let held = operands_of c ctx in
      let (os, ctx1, made, defs, linked, same) =
        new_operands_lem held ctx p ds w.linked w.uids there in
      let ctx2 = set_operands ctx1 p os in
      let held' = operands_of c ctx2 in
      let adds : AddsAll c held held' p os = λ x q.
        rw (stored laws ctx ctx1 p x [] os same e) (elim (Bool-cases (p == x)) [
          | inl t ↦ rw (t, ← (==→≡ p x t), e) (omega arith)
          | inr f ↦ rw f (omega arith)
        ]) in
      let (linked', uids') = linked held' adds in
      rw (init_operands, made, same.operands p, e)
        (returns (
          os,
          defs,
          settles laws ctx ctx1 ctx2 p [] os same e (all_same laws ctx2)
              (Linked-same laws held' ctx1 ctx2 (laws.defnode-set_operands ctx1 p os) linked')
              (rw (laws.counter-set_operands ctx1 p os) uids'),
        ))
