-- ===== src/DefUse/Verify.antt =====
-- The checks of the verifier on operands and on uses pass in a well-linked context.
use pliron.Prelude.{
  ℕ, ◌<◌, ◌≤◌, ◌≡◌, refl, ◌∙◌, true, some, List, [], ◌∷◌, arith, Option-cases, inl, inr, Bool,
  Option, none,
}
use pliron.SmallTable.Vec.{get_elem?}
use pliron.DefUse.{
  Use, Operand, Chains, same_use, operand_index, get_def, verify_operands, verify_uses,
  verify_value,
}
use pliron.DefUse.Count.{count}
use pliron.DefUse.Uses.{has_use_of-present}
use pliron.DefUse.Linked.{
  ChainLaws, Linked, has_uid, uses_of, operands_of, is_operand, Linked-there, Linked-present,
}
use pliron.DefUse.WellLinked.{WellLinked, Uids, is_operand-le}
use pliron.DefUse.Redirect.{found}
use pliron.DefUse.Replace.{used_operand}

-- What the verifier says of an object, if there is the object.
abbrev pub where_live {ℓ} : {A : Type ℓ} → Option A → Option Bool → Option Bool
where_live none verified = some true
where_live (some a) verified = verified

module _ (c : Chains) where
  open c use {Context, Def, get_defnode}

  -- The verifier accepts the operands of every operation, and every definition.
  unfoldable pub Accepted : Context → Type 0
  Accepted ctx =
      ((p : ℕ) → verify_operands c ctx p (operands_of c ctx p) ≡ some true)
      × ((d : Def) → where_live (get_defnode ctx d) (verify_value c ctx d) ≡ some true)

  -- No definition lists a use twice.
  unfoldable pub UsedOnce : Context → Type 0
  UsedOnce ctx = (d : Def) (u : Use) → count (same_use u) (uses_of c ctx d) ≤ 1

module _ {c : Chains} (laws : ChainLaws c) where
  open c use {Context, Def, eq, get_defnode, get_operands, use_counter}

  operands_verified :
      (ctx : Context) (p : ℕ) (l : List (Operand Def))
      → WellLinked c ctx
      → ((d : Def) (uid : ℕ)
          → count (is_operand c d uid) l ≤ count (is_operand c d uid) (operands_of c ctx p))
      → verify_operands c ctx p l ≡ some true
  unfolding verify_operands
  operands_verified ctx p [] w fewer = refl
  operands_verified ctx p (o ∷ l) w fewer =
      let held : 0 < count (is_operand c o.def o.use_uid) (operands_of c ctx p) =
        ground (arith, fewer o.def o.use_uid, laws.eq_refl o.def) in
      let (us, e) = Linked-there laws (operands_of c ctx) ctx p o held w.linked in
      let present =
        has_use_of-present us (record { user_op = p; use_uid = o.use_uid })
          (Linked-present laws (operands_of c ctx) ctx us p o e held w.linked) in
      rw (verify_operands, e, present)
        (operands_verified ctx p l w λ d uid. omega (arith, fewer d uid))

  -- A use that a definition lists leads back to the definition.
  get_def-uses :
      (ctx : Context) (this : Def) (u : Use)
      → WellLinked c ctx
      → 0 < count (same_use u) (uses_of c ctx this)
      → get_def c ctx u ≡ some this
  unfolding get_def Uids
  get_def-uses ctx this u w listed =
      let (mine, l, e, stored, held_by) = used_operand laws ctx this u.user_op u.use_uid w listed in
      let once : count (has_uid u.use_uid) l ≤ 1 = ground (arith, w.uids u.user_op u.use_uid) in
      let (i, at, old, moved) = found laws this this u.user_op u.use_uid l once held_by in
      rw (get_def, stored, at, old) refl

  use_verified :
      (ctx : Context) (this : Def) (u : Use) (us : List Use) (l : List (Operand Def)) (i : ℕ)
      (o : Operand Def)
      → get_operands ctx u.user_op ≡ some l
      → operand_index l u.use_uid ≡ some i
      → get_elem? l i ≡ some o
      → eq o.def this ≡ true
      → verify_uses c ctx this (u ∷ us) ≡ verify_uses c ctx this us
  unfolding verify_uses
  use_verified ctx this u us l i o stored at there same = ground arith

  uses_verified :
      (ctx : Context) (this : Def) (us : List Use)
      → WellLinked c ctx
      → ((u : Use) → count (same_use u) us ≤ count (same_use u) (uses_of c ctx this))
      → verify_uses c ctx this us ≡ some true
  unfolding verify_uses Uids
  uses_verified ctx this [] w fewer = refl
  uses_verified ctx this (u ∷ us) w fewer =
      let listed : 0 < count (same_use u) (uses_of c ctx this) = ground (arith, fewer u) in
      let (mine, l, e, stored, held_by) = used_operand laws ctx this u.user_op u.use_uid w listed in
      let once : count (has_uid u.use_uid) l ≤ 1 = ground (arith, w.uids u.user_op u.use_uid) in
      let (i, at, old, moved) = found laws this this u.user_op u.use_uid l once held_by in
      use_verified ctx this u us l i _ stored at old (laws.eq_refl this)
      ∙ uses_verified ctx this us w λ v. omega (arith, fewer v)

  pub verifier_accepts : (ctx : Context) → WellLinked c ctx → Accepted c ctx × UsedOnce c ctx
  unfolding Accepted UsedOnce verify_value Linked Uids
  verifier_accepts ctx w = (
    (
      λ p. operands_verified ctx p (operands_of c ctx p) w λ d uid. omega arith,
      λ d. elim (Option-cases (get_defnode ctx d)) [
        | inl e ↦ rw e refl
        | inr (us, e) ↦ rw (verify_value, e) (uses_verified ctx d us w λ u. rw e (omega arith))
      ],
    ),
    λ d u.
        let held = w.uids u.user_op u.use_uid in
        omega (
          arith,
          held.0,
          w.linked d u.user_op u.use_uid,
          is_operand-le laws d u.use_uid (operands_of c ctx u.user_op),
        ),
  )
