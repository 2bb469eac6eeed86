-- ===== src/DefUse/Panics.antt =====
-- When the methods of an operation that change its operands panic.
use pliron.Prelude.{
  ℕ, zero, suc, ◌≤◌, ◌≡◌, refl, true, false, none, some, List, [], ◌∷◌, arith, leb, length,
}
use pliron.SmallTable.Vec.{get_elem?}
use pliron.DefUse.{Use, Operand, Chains, insert_operand, remove_operand, replace_operand}
use pliron.DefUse.Linked.{ChainLaws}
use pliron.DefUse.WellLinked.{WellLinked, new_operand_lem}

get_elem?-past : {A : Type 0} (l : List A) (i : ℕ) → length l ≤ i → get_elem? l i ≡ none
get_elem?-past [] i h = refl
get_elem?-past (x ∷ l) zero h = absurd (omega arith)
get_elem?-past (x ∷ l) (suc i) h = get_elem?-past l i (omega arith)

module _ {c : Chains} (laws : ChainLaws c) where
  open c use {Context, Def, get_defnode, get_operands, in_operation}

  -- In a well-linked context, for a live operation and definition, an index at or past the number
  -- of operands panics in remove_operand and in replace_operand, and the one after it does in
  -- insert_operand.
  pub operands_out_of_bounds :
      (ctx : Context) (p i : ℕ) (d : Def) (l : List (Operand Def)) {us : List Use}
      → WellLinked c ctx
      → get_defnode ctx d ≡ some us
      → get_operands ctx p ≡ some l
      → length l ≤ i
      → (remove_operand c ctx p i ≡ none)
        × (replace_operand c ctx p i d ≡ none)
        × (insert_operand c ctx p (suc i) d ≡ none)
  unfolding remove_operand replace_operand insert_operand
  operands_out_of_bounds ctx p i d l {us} w there e past =
      let (ctx1, made, linked, same, counter) = new_operand_lem laws ctx us p d there w in
      let missing = get_elem?-past l i past in
      let beyond : leb (suc i) (length l) ≡ false = ground arith in
      (
        rw (remove_operand, e, missing) refl,
        rw (replace_operand, made, same.operands p, e, missing) refl,
        rw (insert_operand, made, same.operands p, e, beyond) refl,
      )

  -- In a well-linked context, for a live operation and definition and an index within bounds,
  -- replace_operand panics when the operand that it replaces is a result of the operation itself:
  -- the operation is still mutably borrowed when the old operand drops its use.
  pub replace_operand_own :
      (ctx : Context) (p i : ℕ) (d : Def) (l : List (Operand Def)) (old : Operand Def)
      {us : List Use}
      → WellLinked c ctx
      → get_defnode ctx d ≡ some us
      → get_operands ctx p ≡ some l
      → get_elem? l i ≡ some old
      → in_operation old.def p ≡ true
      → replace_operand c ctx p i d ≡ none
  unfolding replace_operand
  replace_operand_own ctx p i d l old {us} w there e at own =
      let (ctx1, made, linked, same, counter) = new_operand_lem laws ctx us p d there w in
      rw (replace_operand, made, same.operands p, e, at, own) refl
