-- ===== src/DefUse/Verifier.antt =====
-- What the verifier's checks of operands and of uses amount to: it accepts exactly the contexts whose
-- chains are well linked.
use pliron.Prelude.{
  zero, suc, ℕ, ◌<◌, ◌≤◌, ◌≡◌, refl, true, some, List, [], ◌∷◌, arith, Bool-cases, Option-cases,
  inl, inr, ◌==◌, ==→≡, sym, ◌↔◌,
}
use pliron.SmallTable.Vec.{get_elem?}
use pliron.DefUse.{
  Use, Operand, Chains, has_use_of, same_use, operand_index, verify_operands, verify_uses,
  verify_value,
}
use pliron.DefUse.Count.{count}
use pliron.DefUse.Uses.{same_use→≡}
use pliron.DefUse.Linked.{ChainLaws, Linked, uses_of, operands_of, is_operand}
use pliron.DefUse.WellLinked.{Uids, is_operand-le}
use pliron.DefUse.Verify.{Accepted, UsedOnce, where_live, verifier_accepts}

has_use_of-listed : (us : List Use) (u : Use) → has_use_of us u ≡ true → 0 < count (same_use u) us
unfolding has_use_of
has_use_of-listed [] u h = cc
has_use_of-listed (x ∷ us) u h = elim (Bool-cases (same_use u x)) [
  | inl t ↦ ground (arith, t)
  | inr f ↦ omega (arith, has_use_of-listed us u (ground (arith, f)))
]

both : (a b : ℕ) → a ≤ 1 → b ≤ 1 → (0 < a → 0 < b) → (0 < b → 0 < a) → a ≡ b
both a b small small' to from = ground arith

module _ {c : Chains} (laws : ChainLaws c) where
  open c use {Context, Def, eq, get_defnode, get_operands, use_counter}

  -- What the verifier saw of an operand that it accepted.
  operands_accepted :
      (ctx : Context) (p : ℕ) (l : List (Operand Def)) (d : Def) (uid : ℕ)
      → verify_operands c ctx p l ≡ some true
      → 0 < count (is_operand c d uid) l
      → 0 < count (same_use (record { user_op = p; use_uid = uid })) (uses_of c ctx d)
  unfolding verify_operands
  operands_accepted ctx p [] d uid ok held = absurd (omega arith)
  operands_accepted ctx p (o ∷ l) d uid ok held = elim (Option-cases (get_defnode ctx o.def)) [
    | inl e ↦ ground (arith, e, ok)
    | inr (us, e) ↦
        let u : Use = record { user_op = p; use_uid = o.use_uid } in
        elim (Bool-cases (has_use_of us u)) [
          | inl t ↦ elim (Bool-cases (is_operand c d uid o)) [
            | inl mine ↦
                let this : d ≡ o.def = sym (laws.eq→≡ o.def d (ground (arith, mine))) in
                let own : uid ≡ o.use_uid = sym (==→≡ o.use_uid uid (ground (arith, mine))) in
                rw (this, own, e) (has_use_of-listed us u t)
            | inr other ↦
                operands_accepted ctx p l d uid (ground (arith, e, t, ok))
                  (ground (arith, held, other))
          ]
          | inr f ↦ ground (arith, e, f, ok)
        ]
  ]

  -- What the verifier saw of a use that it accepted.
  operand_index-held :
      (l : List (Operand Def)) (uid i : ℕ) (o : Operand Def) (d : Def)
      → operand_index l uid ≡ some i
      → get_elem? l i ≡ some o
      → eq o.def d ≡ true
      → 0 < count (is_operand c d uid) l
  unfolding operand_index
  operand_index-held [] uid i o d at there same = cc
  operand_index-held (x ∷ l) uid zero o d at there same = elim (Bool-cases (x.use_uid == uid)) [
    | inl t ↦ ground arith
    | inr f ↦ elim (Option-cases (operand_index l uid)) [
      | inl e ↦ ground (arith, e, f, at)
      | inr (j, e) ↦ ground (arith, e, f, at)
    ]
  ]
  operand_index-held (x ∷ l) uid (suc i) o d at there same = elim (Bool-cases (x.use_uid == uid)) [
    | inl t ↦ ground (arith, t, at)
    | inr f ↦ elim (Option-cases (operand_index l uid)) [
      | inl e ↦ ground (arith, e, f, at)
      | inr (j, e) ↦
          let held = operand_index-held l uid i o d (ground (arith, e, f, at)) there same in
          ground (arith, held)
    ]
  ]

  uses_accepted :
      (ctx : Context) (d : Def) (us : List Use) (u : Use)
      → verify_uses c ctx d us ≡ some true
      → 0 < count (same_use u) us
      → 0 < count (is_operand c d u.use_uid) (operands_of c ctx u.user_op)
  unfolding verify_uses
  uses_accepted ctx d [] u ok listed = absurd (omega arith)
  uses_accepted ctx d (x ∷ us) u ok listed = elim (Option-cases (get_operands ctx x.user_op)) [
    | inl e ↦ ground (arith, e, ok)
    | inr (l, e) ↦ elim (Option-cases (operand_index l x.use_uid)) [
      | inl f ↦ ground (arith, e, f, ok)
      | inr (i, at) ↦ elim (Option-cases (get_elem? l i)) [
        | inl f ↦ ground (arith, e, at, f, ok)
        | inr (o, there) ↦ elim (Bool-cases (eq o.def d)) [
          | inr f ↦ ground (arith, e, at, there, f, ok)
          | inl same ↦
              let rest : verify_uses c ctx d us ≡ some true =
                ground (arith, e, at, there, same, ok) in
              elim (Bool-cases (same_use u x)) [
                | inl t ↦
                    let here = operand_index-held l x.use_uid i o d at there same in
                    rw (same_use→≡ u x t, e) here
                | inr f ↦ uses_accepted ctx d us u rest (ground (arith, listed, f))
              ]
        ]
      ]
    ]
  ]

  value_accepted :
      (ctx : Context) (d : Def)
      → where_live (get_defnode ctx d) (verify_value c ctx d) ≡ some true
      → verify_uses c ctx d (uses_of c ctx d) ≡ some true
  unfolding verify_value verify_uses
  value_accepted ctx d ok = elim (Option-cases (get_defnode ctx d)) [
    | inl e ↦ rw e refl
    | inr (us, e) ↦ ground (arith, e, ok)
  ]

  linked_if_accepted :
      (ctx : Context)
      → Uids c (operands_of c ctx) (use_counter ctx)
      → Accepted c ctx
      → UsedOnce c ctx
      → Linked c (operands_of c ctx) ctx
  unfolding Accepted UsedOnce verify_value Linked Uids
  linked_if_accepted ctx uids ok once d p uid =
      let u : Use = record { user_op = p; use_uid = uid } in
      let few = is_operand-le laws d uid (operands_of c ctx p) in
      both _ _ (once d u) (omega (arith, few, (uids p uid).0))
        (uses_accepted ctx d (uses_of c ctx d) u (value_accepted ctx d (ok.1 d)))
        (operands_accepted ctx p (operands_of c ctx p) d uid (ok.0 p))

  -- In a context where the identifiers of an operation's operands differ and are below the
  -- counter, the verifier accepts the operands of every operation and every definition, and no
  -- definition lists a use twice, exactly if each definition lists, once, a use for each operand
  -- that has it, and no other.
  pub Linked-Accepted :
      (ctx : Context)
      → Uids c (operands_of c ctx) (use_counter ctx)
      → Linked c (operands_of c ctx) ctx ↔ (Accepted c ctx × UsedOnce c ctx)
  Linked-Accepted ctx uids = (
    λ linked. verifier_accepts laws ctx (record { linked = linked; uids = uids }),
    λ (ok, once). linked_if_accepted ctx uids ok once,
  )
