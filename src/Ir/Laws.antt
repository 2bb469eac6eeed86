-- ===== src/Ir/Laws.antt =====
-- The objects of the IR implement the traits: what one method writes, only the matching one reads.
use pliron.Prelude.{
  ℕ, ◌≡◌, refl, sym, ap, ◌∙◌, some, List, arith, ==→≡, ==_refl, if◌then◌else◌, Bool-cases,
  Option-cases, ◌⊎◌, inl, inr,
}
use pliron.SmallTable.Vec.{set}
use pliron.DefUse.{Use}
use pliron.DefUse.Linked.{ChainLaws}
use pliron.Ir.{
  DefiningEntity, op, block, Value, ValueDef, Context, same_entity, same_value, uid_index,
  value_defs, with_value_defs, find_index, get_value_def, set_value_def, get_defnode, set_defnode,
  operands, set_operands, preds, set_preds, successors, set_successors, Values, Blocks,
}
use pliron.Ir.Places.{
  lookup_def, uid_index-lookup_def, lookup_def-uid, lookup_def-set, get_value_def-lookup_def,
  value_defs-with, operands-with, counter-with, value_defs-set_operands, same_entity→≡,
  same_value_refl, same_value→≡,
}

pub Blocks-laws : ChainLaws Blocks
unfolding preds set_preds successors set_successors
Blocks-laws = record {
  eq_refl = ==_refl;
  eq→≡ = ==→≡;
  get-set_defnode = λ ctx d e l old there. ground arith;
  operands-set_defnode = λ ctx d l p. ground arith;
  counter-set_defnode = λ ctx d l. ground arith;
  get-set_operands = λ ctx p x l old there. ground arith;
  defnode-set_operands = λ ctx p l d. ground arith;
  counter-set_operands = λ ctx p l. ground arith;
  counter-set = λ ctx n. refl;
  defnode-set_use_counter = λ ctx n d. refl;
  operands-set_use_counter = λ ctx n p. refl;
}

-- A definition that is there, with where it is kept.
found_value :
    (ctx : Context) (v : Value) (old : List Use)
    → get_defnode ctx v ≡ some old
    → (l : List ValueDef) × (i : ℕ) × (r : ValueDef) × (value_defs ctx v.defining_entity ≡ some l)
      × (uid_index l v.val_uid ≡ some i)
      × (lookup_def l v.val_uid ≡ some r)
      × (get_value_def ctx v ≡ some r)
unfolding get_defnode
found_value ctx v old there = elim (Option-cases (value_defs ctx v.defining_entity)) [
  | inl gone ↦ absurd (ground (arith, get_value_def-lookup_def ctx v))
  | inr (l, e) ↦ elim (Option-cases (uid_index l v.val_uid)) [
    | inl missing ↦
        absurd (ground (arith, get_value_def-lookup_def ctx v, uid_index-lookup_def l v.val_uid))
    | inr (i, at) ↦ elim (Option-cases (lookup_def l v.val_uid)) [
      | inl missing ↦ absurd (ground (arith, get_value_def-lookup_def ctx v))
      | inr (r, found) ↦ (l, i, r, e, at, found, get_value_def-lookup_def ctx v ∙ rw e found)
    ]
  ]
]

get-set_defnode :
    (ctx : Context) (d e : Value) (uses old : List Use)
    → get_defnode ctx d ≡ some old
    → get_defnode (set_defnode ctx d uses) e
      ≡ (if same_value d e then some uses else get_defnode ctx e)
unfolding get_defnode set_defnode set_value_def find_index
get-set_defnode ctx d e uses old there =
    let (l, i, r, defs, at, found, whole) = found_value ctx d old there in
    let r' : ValueDef = record r { def = uses } in
    let ctx' = with_value_defs ctx d.defining_entity (set l i r') in
    let written : set_defnode ctx d uses ≡ ctx' =
      rw (set_defnode, whole, set_value_def, find_index, defs, at) refl in
    let before = get_value_def-lookup_def ctx e in
    let after = get_value_def-lookup_def ctx' e in
    let now = value_defs-with ctx d.defining_entity e.defining_entity l (set l i r') defs in
    let set_there =
      lookup_def-set l d.val_uid e.val_uid i r' at (lookup_def-uid l d.val_uid r found) in
    rw (written, after, before, now)
      (elim (Bool-cases (same_entity d.defining_entity e.defining_entity)) [
        | inl t ↦
            let here : value_defs ctx e.defining_entity ≡ some l =
              ap (value_defs ctx) (sym (same_entity→≡ _ _ t)) ∙ defs in
            rw (t, here) (ground (arith, set_there))
        | inr f ↦ rw f (ground arith)
      ])

pub set_defnode-is-with :
    (ctx : Context) (d : Value) (uses : List Use)
    → (set_defnode ctx d uses ≡ ctx)
      ⊎ ((l : List ValueDef) × (set_defnode ctx d uses ≡ with_value_defs ctx d.defining_entity l))
unfolding set_defnode set_value_def
set_defnode-is-with ctx d uses = elim (Option-cases (get_value_def ctx d)) [
  | inl gone ↦ inl (rw (set_defnode, gone) refl)
  | inr (r, e) ↦ elim (Option-cases (find_index ctx d)) [
    | inl gone ↦ inl (rw (set_defnode, e, set_value_def, gone) refl)
    | inr (i, at) ↦ elim (Option-cases (value_defs ctx d.defining_entity)) [
      | inl gone ↦ inl (rw (set_defnode, e, set_value_def, at, gone) refl)
      | inr (l, defs) ↦
          inr (set l i (record r { def = uses }), rw (set_defnode, e, set_value_def, at, defs) refl)
    ]
  ]
]

operands-set_defnode :
    (ctx : Context) (d : Value) (uses : List Use) (p : ℕ)
    → operands (set_defnode ctx d uses) p ≡ operands ctx p
operands-set_defnode ctx d uses p = elim (set_defnode-is-with ctx d uses) [
  | inl same ↦ rw same refl
  | inr (l, e) ↦ rw e (operands-with ctx d.defining_entity l p)
]

pub counter-set_defnode :
    (ctx : Context) (d : Value) (uses : List Use)
    → (set_defnode ctx d uses).use_counter ≡ ctx.use_counter
counter-set_defnode ctx d uses = elim (set_defnode-is-with ctx d uses) [
  | inl same ↦ rw same refl
  | inr (l, e) ↦ rw e (counter-with ctx d.defining_entity l)
]

pub get_defnode-cong :
    (ctx ctx' : Context) (v : Value)
    → value_defs ctx' v.defining_entity ≡ value_defs ctx v.defining_entity
    → get_defnode ctx' v ≡ get_defnode ctx v
unfolding get_defnode
get_defnode-cong ctx ctx' v same =
    rw (get_value_def-lookup_def ctx v, get_value_def-lookup_def ctx' v, same) refl

pub value_defs-set_use_counter :
    (ctx : Context) (n : ℕ) (d : DefiningEntity)
    → value_defs (record ctx { use_counter = n }) d ≡ value_defs ctx d
unfolding value_defs
value_defs-set_use_counter ctx n (op p) = refl
value_defs-set_use_counter ctx n (block p) = refl

pub Values-laws : ChainLaws Values
unfolding operands set_operands
Values-laws = record {
  eq_refl = same_value_refl;
  eq→≡ = same_value→≡;
  get-set_defnode = get-set_defnode;
  operands-set_defnode = operands-set_defnode;
  counter-set_defnode = counter-set_defnode;
  get-set_operands = λ ctx p x l old there. ground arith;
  defnode-set_operands = λ ctx p l d.
      get_defnode-cong ctx (set_operands ctx p l) d
        (value_defs-set_operands ctx p l d.defining_entity);
  counter-set_operands = λ ctx p l. ground arith;
  counter-set = λ ctx n. refl;
  defnode-set_use_counter = λ ctx n d.
      get_defnode-cong ctx (record ctx { use_counter = n }) d
        (value_defs-set_use_counter ctx n d.defining_entity);
  operands-set_use_counter = λ ctx n p. refl;
}
