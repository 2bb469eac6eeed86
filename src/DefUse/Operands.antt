-- ===== src/DefUse/Operands.antt =====
-- What the methods of an operation that change its operands do. Its successors are the same code,
-- with blocks for definitions.
use pliron.Prelude.{
  ℕ, ◌+◌, ◌-◌, ◌≤◌, ◌≡◌, refl, sym, ap, Bool, true, false, some, List, [], ◌∷◌, ◌++◌, arith, ◌==◌,
  ==→≡, ltb, leb, if◌then◌else◌, Bool-cases, length, length-append, Returns, returns, inl, inr,
}
use pliron.SmallTable.Vec.{get_elem?, set}
use pliron.VecExns.{push_back}
use pliron.DefUse.{
  Use, Operand, Chains, insert_at, remove_at, push_operand, insert_operand, remove_operand,
  pop_operand, replace_operand,
}
use pliron.DefUse.Count.{one_if, count, count-append, count-insert_at, count-remove_at, count-set}
use pliron.DefUse.Linked.{ChainLaws, operands_of, Adds}
use pliron.DefUse.Stored.{Becomes, fresh_operand, stored, gains, loses, all_same}
use pliron.DefUse.WellLinked.{Uids-add, WellLinked, new_operand_lem}

pub get_elem?-snoc : {A : Type 0} (l : List A) (a : A) → get_elem? (l ++ a ∷ []) (length l) ≡ some a
get_elem?-snoc [] a = refl
get_elem?-snoc (x ∷ l) a = get_elem?-snoc l a

remove_at-snoc : {A : Type 0} (l : List A) (a : A) → remove_at (l ++ a ∷ []) (length l) ≡ l
unfolding remove_at
remove_at-snoc [] a = refl
remove_at-snoc (x ∷ l) a = ap (◌∷◌ x) (remove_at-snoc l a)

module _ {c : Chains} (laws : ChainLaws c) where
  open c use {Context, Def, get_defnode, get_operands, set_operands, use_counter, in_operation}

  -- In a well-linked context, for a live operation and definition, push_operand appends an operand
  -- with a new use and returns its index. No other operation changes, and the context stays well
  -- linked.
  pub push_operand-Becomes :
      (ctx : Context) (p : ℕ) (d : Def) (l : List (Operand Def)) {us : List Use}
      → WellLinked c ctx
      → get_defnode ctx d ≡ some us
      → get_operands ctx p ≡ some l
      → Returns
          (λ r. (r.0 ≡ length l) × Becomes c ctx p (l ++ fresh_operand c ctx d ∷ []) r.1)
          (push_operand c ctx p d)
  unfolding push_operand push_back
  push_operand-Becomes ctx p d l {us} w there e =
      let o = fresh_operand c ctx d in
      let (ctx1, made, linked, same, counter) = new_operand_lem laws ctx us p d there w in
      let more : (q : Operand Def → Bool) → count q (l ++ o ∷ []) ≡ count q l + one_if (q o) =
        λ q. omega (arith, count-append q l (o ∷ [])) in
      rw (push_operand, made, same.operands p, e)
        (returns (
          omega (arith, length-append l (o ∷ [])),
          gains laws ctx ctx1 p l (l ++ o ∷ []) o w linked same counter refl e more,
        ))

  -- In a well-linked context, for a live operation and definition, insert_operand puts an operand
  -- with a new use at an index up to the number of operands. No other operation changes, and the
  -- context stays well linked.
  pub insert_operand-Becomes :
      (ctx : Context) (p i : ℕ) (d : Def) (l : List (Operand Def)) {us : List Use}
      → WellLinked c ctx
      → get_defnode ctx d ≡ some us
      → get_operands ctx p ≡ some l
      → i ≤ length l
      → Returns
          (Becomes c ctx p (insert_at l i (fresh_operand c ctx d)))
          (insert_operand c ctx p i d)
  unfolding insert_operand
  insert_operand-Becomes ctx p i d l {us} w there e inside =
      let o = fresh_operand c ctx d in
      let (ctx1, made, linked, same, counter) = new_operand_lem laws ctx us p d there w in
      let fits : leb i (length l) ≡ true = ground arith in
      rw (insert_operand, made, same.operands p, e, fits)
        (returns (
          gains laws ctx ctx1 p l (insert_at l i o) o w linked same counter refl e
            λ q. count-insert_at q l i o))

  -- In a well-linked context, remove_operand takes out the operand of a live operation at an index
  -- within bounds and returns its definition, which loses the use. No other operation changes, and
  -- the context stays well linked.
  pub remove_operand-Becomes :
      (ctx : Context) (p i : ℕ) (l : List (Operand Def)) (o : Operand Def)
      → WellLinked c ctx
      → get_operands ctx p ≡ some l
      → get_elem? l i ≡ some o
      → Returns
          (λ r. (r.0 ≡ o.def) × Becomes c ctx p (remove_at l i) r.1)
          (remove_operand c ctx p i)
  unfolding remove_operand
  remove_operand-Becomes ctx p i l o w e at =
      let same = all_same laws ctx in
      let adds : Adds c (operands_of c (set_operands ctx p (remove_at l i))) (operands_of c ctx) p
          o =
        λ x q. rw (stored laws ctx ctx p x l (remove_at l i) same e) (elim (Bool-cases (p == x)) [
          | inl t ↦ rw (t, ← (==→≡ p x t), e) (sym (count-remove_at q l i o at))
          | inr f ↦ rw f (omega arith)
        ]) in
      let (ctx', dropped, becomes) =
        loses laws ctx ctx p l (remove_at l i) o (operands_of c ctx) same e w.linked w.uids adds in
      rw (remove_operand, e, at, dropped) (returns (refl, becomes))

  -- pop_operand takes out the last operand.
  pub pop_operand-Becomes :
      (ctx : Context) (p : ℕ) (l : List (Operand Def)) (o : Operand Def)
      → WellLinked c ctx
      → get_operands ctx p ≡ some (l ++ o ∷ [])
      → Returns (λ r. (r.0 ≡ o.def) × Becomes c ctx p l r.1) (pop_operand c ctx p)
  unfolding pop_operand
  pop_operand-Becomes ctx p l o w e =
      let short : length (l ++ o ∷ []) - 1 ≡ length l = omega (arith, length-append l (o ∷ [])) in
      let some_left : ltb 0 (length (l ++ o ∷ [])) ≡ true =
        ground (arith, length-append l (o ∷ [])) in
      let removed : Returns (λ r. (r.0 ≡ o.def) × Becomes c ctx p l r.1)
          (remove_operand c ctx p (length l)) =
        rw (remove_at-snoc l o) at
          (remove_operand-Becomes ctx p (length l) (l ++ o ∷ []) o w e (get_elem?-snoc l o)) in
      rw (pop_operand, e, some_left, short) removed

  -- In a well-linked context, for a live operation and definition, replace_operand puts an operand
  -- with a new use in the place of the one at an index within bounds, which drops its use, as long
  -- as that one is no result of the operation itself. No other operation changes, and the context
  -- stays well linked.
  pub replace_operand-Becomes :
      (ctx : Context) (p i : ℕ) (d : Def) (l : List (Operand Def)) (old : Operand Def)
      {us : List Use}
      → WellLinked c ctx
      → get_defnode ctx d ≡ some us
      → get_operands ctx p ≡ some l
      → get_elem? l i ≡ some old
      → in_operation old.def p ≡ false
      → Returns (Becomes c ctx p (set l i (fresh_operand c ctx d))) (replace_operand c ctx p i d)
  unfolding replace_operand
  replace_operand-Becomes ctx p i d l old {us} w there e at out =
      let o = fresh_operand c ctx d in
      let (ctx1, made, linked, same, counter) = new_operand_lem laws ctx us p d there w in
      let held = λ (x : ℕ). if p == x then o ∷ operands_of c ctx x else operands_of c ctx x in
      let more : Adds c (operands_of c ctx) held p o = λ x q. ground arith in
      let adds : Adds c (operands_of c (set_operands ctx1 p (set l i o))) held p old = λ x q.
        rw (stored laws ctx ctx1 p x l (set l i o) same e) (elim (Bool-cases (p == x)) [
          | inl t ↦ rw (t, ← (==→≡ p x t), e) (omega (arith, count-set q l i o old at))
          | inr f ↦ rw f (omega arith)
        ]) in
      let uids = Uids-add laws (operands_of c ctx) held (use_counter ctx) p o more refl w.uids in
      let (ctx', dropped, becomes) =
        loses laws ctx ctx1 p l (set l i o) old held same e (linked held more) (rw counter uids)
          adds in
      rw (replace_operand, made, same.operands p, e, at, out, dropped) (returns becomes)
