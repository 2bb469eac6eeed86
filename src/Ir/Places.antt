-- ===== src/Ir/Places.antt =====
-- Where the definitions of values are kept, and what writes elsewhere leave of them.
use pliron.Prelude.{
  ℕ, zero, suc, ◌≡◌, refl, ap, ◌∙◌, true, Option, none, some, List, [], ◌∷◌, arith, ◌==◌, ==→≡,
  ==_refl, if◌then◌else◌, Bool-cases, Option-cases, ◌>>=◌, inl, inr,
}
use pliron.SmallTable.Vec.{get_elem?, set, next, next-some, next-suc}
use pliron.DefUse.{Use, Operand}
use pliron.Ir.{
  DefiningEntity, op, block, Value, ValueDef, Context, same_entity, same_value, uid_index,
  value_defs, with_value_defs, find_index, get_value_def, operands, set_operands, preds, set_preds,
  successors, set_successors,
}

-- What `find_index` leads to.
unfoldable pub lookup_def : List ValueDef → ℕ → Option ValueDef
lookup_def [] uid = none
lookup_def (r ∷ l) uid = if r.val_uid == uid then some r else lookup_def l uid

pub next->>= :
    (o : Option ℕ) (r : ValueDef) (l : List ValueDef)
    → (next o >>= λ i. get_elem? (r ∷ l) i) ≡ (o >>= λ i. get_elem? l i)
next->>= none r l = refl
next->>= (some i) r l = refl

pub uid_index-lookup_def :
    (l : List ValueDef) (uid : ℕ) → (uid_index l uid >>= λ i. get_elem? l i) ≡ lookup_def l uid
unfolding uid_index lookup_def
uid_index-lookup_def [] uid = refl
uid_index-lookup_def (r ∷ l) uid = elim (Bool-cases (r.val_uid == uid)) [
  | inl t ↦ rw t refl
  | inr f ↦ rw f (next->>= (uid_index l uid) r l ∙ uid_index-lookup_def l uid)
]

pub lookup_def-uid :
    (l : List ValueDef) (uid : ℕ) (r : ValueDef) → lookup_def l uid ≡ some r → r.val_uid ≡ uid
unfolding lookup_def
lookup_def-uid [] uid r e = cc
lookup_def-uid (x ∷ l) uid r e = elim (Bool-cases (x.val_uid == uid)) [
  | inl t ↦ ground arith
  | inr f ↦ lookup_def-uid l uid r (ground arith)
]

-- A write at the index of an identifier, by a definition that has it.
pub lookup_def-set :
    (l : List ValueDef) (uid uid' i : ℕ) (d : ValueDef)
    → uid_index l uid ≡ some i
    → d.val_uid ≡ uid
    → lookup_def (set l i d) uid' ≡ (if uid == uid' then some d else lookup_def l uid')
unfolding lookup_def uid_index
lookup_def-set [] uid uid' i d e same = cc
lookup_def-set (x ∷ l) uid uid' zero d e same = elim (Bool-cases (x.val_uid == uid)) [
  | inl t ↦ ground arith
  | inr f ↦ absurd (next-suc (uid_index l uid) (ground arith))
]
lookup_def-set (x ∷ l) uid uid' (suc i) d e same = elim (Bool-cases (x.val_uid == uid)) [
  | inl t ↦ ground arith
  | inr f ↦
      let there : uid_index l uid ≡ some i = next-some (uid_index l uid) i (ground arith) in
      ground (arith, lookup_def-set l uid uid' i d there same)
]

pub get_value_def-lookup_def :
    (ctx : Context) (v : Value)
    → get_value_def ctx v ≡ (value_defs ctx v.defining_entity >>= λ l. lookup_def l v.val_uid)
unfolding get_value_def find_index
get_value_def-lookup_def ctx v = elim (Option-cases (value_defs ctx v.defining_entity)) [
  | inl gone ↦ rw (find_index, gone) refl
  | inr (l, e) ↦ rw (find_index, e) (uid_index-lookup_def l v.val_uid)
]

pub value_defs-with :
    (ctx : Context) (d e : DefiningEntity) (l l' : List ValueDef)
    → value_defs ctx d ≡ some l
    → value_defs (with_value_defs ctx d l') e
      ≡ (if same_entity d e then some l' else value_defs ctx e)
unfolding value_defs with_value_defs
value_defs-with ctx (op p) (op q) l l' there = ground arith
value_defs-with ctx (op p) (block q) l l' there = ground arith
value_defs-with ctx (block p) (op q) l l' there = ground arith
value_defs-with ctx (block p) (block q) l l' there = ground arith

pub operands-with :
    (ctx : Context) (d : DefiningEntity) (l : List ValueDef) (p : ℕ)
    → operands (with_value_defs ctx d l) p ≡ operands ctx p
unfolding operands with_value_defs
operands-with ctx (op p) l q = ground arith
operands-with ctx (block p) l q = ground arith

pub counter-with :
    (ctx : Context) (d : DefiningEntity) (l : List ValueDef)
    → (with_value_defs ctx d l).use_counter ≡ ctx.use_counter
unfolding with_value_defs
counter-with ctx (op p) l = ground arith
counter-with ctx (block p) l = ground arith

pub preds-with :
    (ctx : Context) (d : DefiningEntity) (l : List ValueDef) (b : ℕ)
    → preds (with_value_defs ctx d l) b ≡ preds ctx b
unfolding preds with_value_defs
preds-with ctx (op p) l b = ground arith
preds-with ctx (block p) l b = ground arith

pub successors-with :
    (ctx : Context) (d : DefiningEntity) (l : List ValueDef) (p : ℕ)
    → successors (with_value_defs ctx d l) p ≡ successors ctx p
unfolding successors with_value_defs
successors-with ctx (op p) l q = ground arith
successors-with ctx (block p) l q = ground arith

pub value_defs-set_preds :
    (ctx : Context) (b : ℕ) (l : List Use) (d : DefiningEntity)
    → value_defs (set_preds ctx b l) d ≡ value_defs ctx d
unfolding value_defs set_preds
value_defs-set_preds ctx b l (op q) = ground arith
value_defs-set_preds ctx b l (block q) = ground arith

pub value_defs-set_successors :
    (ctx : Context) (p : ℕ) (l : List (Operand ℕ)) (d : DefiningEntity)
    → value_defs (set_successors ctx p l) d ≡ value_defs ctx d
unfolding value_defs set_successors
value_defs-set_successors ctx p l (op q) = ground arith
value_defs-set_successors ctx p l (block q) = ground arith

pub value_defs-set_operands :
    (ctx : Context) (p : ℕ) (l : List (Operand Value)) (d : DefiningEntity)
    → value_defs (set_operands ctx p l) d ≡ value_defs ctx d
unfolding value_defs set_operands
value_defs-set_operands ctx p l (op q) = ground arith
value_defs-set_operands ctx p l (block q) = ground arith

pub same_entity→≡ : (d e : DefiningEntity) → same_entity d e ≡ true → d ≡ e
same_entity→≡ (op p) (op q) h = ap op (==→≡ p q h)
same_entity→≡ (op p) (block q) h = cc
same_entity→≡ (block p) (op q) h = cc
same_entity→≡ (block p) (block q) h = ap block (==→≡ p q h)

pub same_entity_refl : (d : DefiningEntity) → same_entity d d ≡ true
same_entity_refl (op p) = ==_refl p
same_entity_refl (block p) = ==_refl p

pub same_value_refl : (v : Value) → same_value v v ≡ true
same_value_refl v = ground (arith, same_entity_refl v.defining_entity)

pub same_value→≡ : (v w : Value) → same_value v w ≡ true → v ≡ w
same_value→≡ v w h = ground (arith, same_entity→≡ v.defining_entity w.defining_entity)
