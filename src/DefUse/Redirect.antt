-- ===== src/DefUse/Redirect.antt =====
-- The operands of one operation when uses of a definition become uses of another.
use pliron.Prelude.{
  ℕ, suc, ◌+◌, ◌<◌, ◌≤◌, ◌≡◌, refl, sym, ap, ◌∙◌, true, false, ◌&&◌, Option, none, some, List, [],
  ◌∷◌, map, arith, ◌==◌, if◌then◌else◌, Bool-cases, inl, inr,
}
use pliron.SmallTable.Vec.{get_elem?, set}
use pliron.DefUse.{Use, Operand, Chains, has_use_of, operand_index}
use pliron.DefUse.Count.{one_if, count}
use pliron.DefUse.Linked.{ChainLaws, has_uid, is_operand}
use pliron.DefUse.WellLinked.{is_operand-le}

module _ (c : Chains) where
  open c use {Context, Def, eq}

  -- An operand of `p`: `other` instead of `this`, if its use is among those listed.
  abbrev pub redirect : (this other : Def) → List Use → (p : ℕ) → Operand Def → Operand Def
  redirect this other us p o =
      if eq o.def this && has_use_of us (record { user_op = p; use_uid = o.use_uid })
      then record { def = other; use_uid = o.use_uid }
      else o

  abbrev pub redirected :
      (this other : Def)
      → List Use
      → (p : ℕ) → Option (List (Operand Def))
      → Option (List (Operand Def))
  redirected this other us p none = none
  redirected this other us p (some l) = some (map (redirect this other us p) l)

module _ {c : Chains} (laws : ChainLaws c) where
  open c use {Context, Def, eq}

  pub eq_false_sym : (d e : Def) → eq d e ≡ false → eq e d ≡ false
  eq_false_sym d e f = elim (Bool-cases (eq e d)) [
    | inl t ↦ absurd (cc (laws.eq→≡ e d t, laws.eq_refl d))
    | inr n ↦ n
  ]

  -- An identifier that stands for an operand with one definition stands for none with another.
  pub apart :
      (d e : Def) (uid : ℕ) (l : List (Operand Def))
      → eq d e ≡ false
      → count (is_operand c d uid) l + count (is_operand c e uid) l ≤ count (has_uid uid) l
  apart d e uid [] f = omega arith
  apart d e uid (o ∷ l) f = elim (Bool-cases (eq o.def d)) [
    | inl t ↦
        let other : eq o.def e ≡ false = ap (λ z. eq z e) (laws.eq→≡ o.def d t) ∙ f in
        ground (arith, apart d e uid l f)
    | inr n ↦ ground (arith, apart d e uid l f)
  ]

  -- Without the identifier, nothing is redirected.
  redirect-absent :
      (this other : Def) (p uid : ℕ) (l : List (Operand Def))
      → count (has_uid uid) l ≡ 0
      → map (redirect c this other ((record { user_op = p; use_uid = uid }) ∷ []) p) l ≡ l
  unfolding has_use_of
  redirect-absent this other p uid [] h = refl
  redirect-absent this other p uid (o ∷ l) h =
      let rest = redirect-absent this other p uid l (omega arith) in
      let same : redirect c this other ((record { user_op = p; use_uid = uid }) ∷ []) p o ≡ o =
        ground arith in
      rw (same, rest) refl

  -- Nor in another operation.
  redirect-elsewhere :
      (this other : Def) (u : Use) (x : ℕ) (l : List (Operand Def))
      → (u.user_op == x) ≡ false
      → map (redirect c this other (u ∷ []) x) l ≡ l
  unfolding has_use_of
  redirect-elsewhere this other u x [] f = refl
  redirect-elsewhere this other u x (o ∷ l) f =
      let same : redirect c this other (u ∷ []) x o ≡ o = ground arith in
      rw (same, redirect-elsewhere this other u x l f) refl

  pub redirected-elsewhere :
      (this other : Def) (u : Use) (x : ℕ) (l : Option (List (Operand Def)))
      → (u.user_op == x) ≡ false
      → l ≡ redirected c this other (u ∷ []) x l
  redirected-elsewhere this other u x none f = refl
  redirected-elsewhere this other u x (some l) f =
      ap some (sym (redirect-elsewhere this other u x l f))

  -- The operand with the identifier is found, and changing it is redirecting its use.
  pub found :
      (this other : Def) (p uid : ℕ) (l : List (Operand Def))
      → count (has_uid uid) l ≤ 1
      → 0 < count (is_operand c this uid) l
      → (i : ℕ) × (operand_index l uid ≡ some i)
        × (get_elem? l i ≡ some (record { def = this; use_uid = uid }))
        × (set l i (record { def = other; use_uid = uid })
            ≡ map (redirect c this other ((record { user_op = p; use_uid = uid }) ∷ []) p) l)
  unfolding operand_index has_use_of
  found this other p uid [] once h = absurd (omega arith)
  found this other p uid (o ∷ l) once h = elim (Bool-cases (o.use_uid == uid)) [
    | inl t ↦
        let none_left : count (has_uid uid) l ≡ 0 = omega (arith, ap one_if t) in
        let mine : eq o.def this ≡ true = ground (arith, is_operand-le laws this uid l) in
        let is_o : o ≡ record { def = this; use_uid = uid } =
          ground (arith, laws.eq→≡ o.def this mine) in
        let new : redirect c this other ((record { user_op = p; use_uid = uid }) ∷ []) p o
            ≡ record { def = other; use_uid = uid } =
          ground arith in
        (0, rw t refl, ap some is_o, rw (new, redirect-absent this other p uid l none_left) refl)
    | inr f ↦
        let (i, at, there, same) = found this other p uid l (omega arith) (ground arith) in
        let kept : redirect c this other ((record { user_op = p; use_uid = uid }) ∷ []) p o ≡ o =
          ground arith in
        (suc i, rw (f, at) refl, there, rw (kept, same) refl)
  ]
