-- ===== src/Ir/Grow.antt =====
-- New results of an operation and new arguments of a block have no uses, and change no other value.
use pliron.Prelude.{
  ℕ, ◌≡◌, refl, sym, ap, ◌∙◌, none, some, List, [], ◌∷◌, ◌++◌, arith, ◌==◌, if◌then◌else◌, ◌⊎◌,
  Bool-cases, Option-cases, inl, inr,
}
use pliron.DefUse.Uses.{or_empty}
use pliron.DefUse.Linked.{Linked, uses_of}
use pliron.DefUse.WellLinked.{Uids, WellLinked}
use pliron.Ir.{
  DefiningEntity, Value, ValueDef, Context, same_entity, value_defs, get_value_def, get_defnode,
  operands, Values,
}
use pliron.Ir.Places.{lookup_def, get_value_def-lookup_def, same_entity→≡}

unfoldable pub AllUnused : List ValueDef → Type 0
AllUnused [] = Unit
AllUnused (r ∷ l) = (r.def ≡ []) × AllUnused l

lookup_def-unused :
    (l : List ValueDef) (uid : ℕ) (r : ValueDef)
    → AllUnused l
    → lookup_def l uid ≡ some r
    → r.def ≡ []
unfolding lookup_def AllUnused
lookup_def-unused [] uid r a e = cc
lookup_def-unused (x ∷ l) uid r a e = elim (Bool-cases (x.val_uid == uid)) [
  | inl t ↦ ground arith
  | inr f ↦ lookup_def-unused l uid r a.1 (ground arith)
]

lookup_def-append :
    (l rs : List ValueDef) (uid : ℕ)
    → lookup_def (l ++ rs) uid
      ≡ elim (lookup_def l uid) [ none ↦ lookup_def rs uid | some r ↦ some r ]
unfolding lookup_def
lookup_def-append [] rs uid = refl
lookup_def-append (x ∷ l) rs uid = elim (Bool-cases (x.val_uid == uid)) [
  | inl t ↦ rw t refl
  | inr f ↦ rw f (lookup_def-append l rs uid)
]

-- One entity's definitions grew, by some without uses.
pub record Grown (ctx : Context) (d : DefiningEntity) (l rs : List ValueDef) (ctx' : Context)
    : Type 0 where
  pub before : value_defs ctx d ≡ some l
  pub after :
      (e : DefiningEntity)
      → value_defs ctx' e ≡ (if same_entity d e then some (l ++ rs) else value_defs ctx e)
  pub unused : AllUnused rs
  pub same_operands : (p : ℕ) → operands ctx' p ≡ operands ctx p
  pub same_counter : ctx'.use_counter ≡ ctx.use_counter

-- A value has the uses it had, or is new and has none.
pub Grown-defnode :
    (ctx ctx' : Context) (d : DefiningEntity) (l rs : List ValueDef) (v : Value)
    → Grown ctx d l rs ctx'
    → (get_defnode ctx' v ≡ get_defnode ctx v)
      ⊎ ((get_defnode ctx v ≡ none) × (get_defnode ctx' v ≡ some []))
unfolding get_defnode
Grown-defnode ctx ctx' d l rs v g =
    let old = get_value_def-lookup_def ctx v in
    let new = get_value_def-lookup_def ctx' v in
    elim (Bool-cases (same_entity d v.defining_entity)) [
      | inr f ↦ inl (rw (old, new, g.after v.defining_entity, f) refl)
      | inl t ↦
          let same_place : value_defs ctx v.defining_entity ≡ some l =
            ap (value_defs ctx) (sym (same_entity→≡ _ _ t)) ∙ g.before in
          let was : get_value_def ctx v ≡ lookup_def l v.val_uid = old ∙ rw same_place refl in
          let now : get_value_def ctx' v ≡ lookup_def (l ++ rs) v.val_uid =
            new ∙ rw (g.after v.defining_entity, t) refl in
          let joined = lookup_def-append l rs v.val_uid in
          elim (Option-cases (lookup_def l v.val_uid)) [
            | inr (r, e) ↦ inl (rw (was, now, joined, e) refl)
            | inl missing ↦ elim (Option-cases (lookup_def rs v.val_uid)) [
              | inl still ↦ inl (rw (was, now, joined, missing, still) refl)
              | inr (r, e) ↦ inr (
                rw (was, missing) refl,
                rw (now, joined, missing, e)
                    (ap some (lookup_def-unused rs v.val_uid r g.unused e)),
              )
            ]
          ]
    ]

pub Grown-WellLinked :
    (ctx ctx' : Context) (d : DefiningEntity) (l rs : List ValueDef)
    → Grown ctx d l rs ctx'
    → WellLinked Values ctx
    → WellLinked Values ctx'
unfolding Linked Uids
Grown-WellLinked ctx ctx' d l rs g w =
    let same_uses : (v : Value) → uses_of Values ctx' v ≡ uses_of Values ctx v = λ v.
      elim (Grown-defnode ctx ctx' d l rs v g) [
        | inl same ↦ ap or_empty same
        | inr (was, now) ↦ ap or_empty now ∙ sym (ap or_empty was)
      ] in
    record {
      linked = λ v p uid. rw (same_uses v, g.same_operands p) (w.linked v p uid);
      uids = λ p uid. rw (g.same_operands p, g.same_counter) (w.uids p uid);
    }
