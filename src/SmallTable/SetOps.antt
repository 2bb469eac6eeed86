-- ===== src/SmallTable/SetOps.antt =====
-- SmallSet against its list of elements: what each method does does not depend on whether the set
-- is inline or spilled.
use mathlib.Core.Path.{subst}
use pliron.Prelude.{
  ℕ, ◌≤◌, ◌≡◌, refl, sym, ap, ◌∙◌, Bool, true, false, not, ◌&&◌, Option, none, some, List, [], ◌∷◌,
  ◌++◌, arith, ==→≡, ==_refl, ltb, length, length-append, has, has-append, Distinct, Bool-cases,
  inl, inr,
}
use pliron.SmallTable.Update.{append-nil, append-snoc}
use pliron.SmallTable.Values.{
  Without, removed_value-Without, missing-removed_value, found-removed_value, with_value-Distinct,
  filtered-Kept, filtered-Distinct,
}
use pliron.SmallTable.Set.{
  IndexSet, SetLaws, SmallSet, inline, spilled, index_of, with_value, removed_value, is_inline, len,
  iter, promote, drain_into, insert, contains, remove, retain,
}

module _ {lib : IndexSet} (laws : SetLaws lib) (n : ℕ) where
  -- Distinct elements, and no more than N inline.
  unfoldable pub ValidSet : SmallSet lib n → Type 0
  ValidSet (inline l) = Distinct l × (length l ≤ n)
  ValidSet (spilled s) = Distinct (lib.iter s)

  spilled-ValidSet : (s : lib.Set) → ValidSet (spilled s)
  unfolding ValidSet iter is_inline
  spilled-ValidSet s = laws.iter-Distinct s

  iter-drain_into :
      (l r : List ℕ) (s : lib.Set)
      → lib.iter s ≡ r
      → Distinct l
      → ((a : ℕ) → has a l ≡ true → has a r ≡ false)
      → lib.iter (drain_into lib n s l) ≡ r ++ l
  unfolding drain_into
  iter-drain_into [] r s e d apart = e ∙ sym (append-nil r)
  iter-drain_into (k ∷ l) r s e d apart =
      let new : has k r ≡ false = apart k (ground (arith, ==_refl k)) in
      let grown : lib.iter (lib.insert s k).0 ≡ r ++ k ∷ [] =
        laws.iter-insert s k ∙ ap (with_value k) e ∙ rw new refl in
      let rest =
        iter-drain_into l (r ++ k ∷ []) (lib.insert s k).0 grown d.1
          λ a h. rw (has-append a r (k ∷ [])) (ground (arith, apart a, ==→≡ a k, d.0)) in
      rest ∙ append-snoc r k l

  iter-promote : (l : List ℕ) → Distinct l → lib.iter (promote lib n l) ≡ l
  unfolding promote
  iter-promote l d = iter-drain_into l [] lib.new laws.iter-new d λ a h. refl

  -- contains tells whether the element is among those the iterator lists.
  pub contains-iter : (s : SmallSet lib n) (k : ℕ) → contains lib n s k ≡ has k (iter lib n s)
  unfolding contains iter
  contains-iter (inline l) k = refl
  contains-iter (spilled s) k = laws.contains_lem s k

  -- insert appends a new element and answers true, and changes nothing and answers false when the
  -- element is there, whether or not the set is inline; the set stays well formed.
  insert-with_value :
      (s : SmallSet lib n) (k : ℕ)
      → ValidSet s
      → ValidSet (insert lib n s k).0
        × (iter lib n (insert lib n s k).0 ≡ with_value k (iter lib n s))
        × ((insert lib n s k).1 ≡ not (contains lib n s k))
  unfolding insert iter contains ValidSet is_inline len
  insert-with_value (inline l) k w = elim (Bool-cases (has k l)) [
    | inl t ↦ rw (insert, t) (w, refl, refl)
    | inr f ↦ elim (Bool-cases (ltb (length l) n)) [
      | inl room ↦
          let d : Distinct (l ++ k ∷ []) = rw f at (with_value-Distinct k l w.0) in
          rw (insert, f, room) ((d, ground (arith, length-append l (k ∷ []))), refl, refl)
      | inr full ↦
          let e = iter-promote l w.0 in
          rw (insert, f, full)
            (
              spilled-ValidSet _,
              laws.iter-insert _ k ∙ ap (with_value k) e ∙ rw f refl,
              laws.insert_was_new _ k ∙ rw (e, f) refl,
            )
    ]
  ]
  insert-with_value (spilled s) k w = (
    spilled-ValidSet _,
    laws.iter-insert s k,
    rw (laws.contains_lem s k, laws.insert_was_new s k)
        (elim (Bool-cases (has k (lib.iter s))) [ inl t ↦ rw t refl | inr f ↦ rw f refl ]),
  )

  remove_by :
      (k : ℕ) (l : List ℕ) (o : Option ℕ)
      → index_of k l ≡ o
      → remove lib n (inline l) k ≡ (inline (removed_value k l), has k l)
  unfolding remove removed_value
  remove_by k l none e = rw (remove, removed_value, e, missing-removed_value k l e) refl
  remove_by k l (some i) e = rw (remove, removed_value, e, found-removed_value k i l e) refl

  -- remove drops the element and no other, and answers whether it was there; the set stays well
  -- formed.
  remove-Without :
      (s : SmallSet lib n) (k : ℕ)
      → ValidSet s
      → ValidSet (remove lib n s k).0
        × Without k (iter lib n s) (iter lib n (remove lib n s k).0)
        × ((remove lib n s k).1 ≡ contains lib n s k)
  unfolding remove iter contains ValidSet is_inline len Without
  remove-Without (inline l) k w =
      let without = removed_value-Without k l w.0 in
      rw (remove_by k l (index_of k l) refl)
        ((without.0, omega (arith, without.2, w.1)), without, refl)
  remove-Without (spilled s) k w = (
    spilled-ValidSet _,
    subst (Without k (lib.iter s)) (sym (laws.iter-swap_remove s k))
        (removed_value-Without k (lib.iter s) (laws.iter-Distinct s)),
    laws.swap_remove_was_there s k ∙ sym (laws.contains_lem s k),
  )

  -- retain keeps the set well formed, and contains then tells what was in the set and satisfies
  -- the predicate.
  contains-retain :
      (s : SmallSet lib n) (f : ℕ → Bool)
      → ValidSet s
      → ValidSet (retain lib n s f)
        × ((k : ℕ) → contains lib n (retain lib n s f) k ≡ (contains lib n s k && f k))
  unfolding retain iter contains ValidSet is_inline len
  contains-retain (inline l) f w = (
    (filtered-Distinct f l w.0, omega (arith, (filtered-Kept f l).0, w.1)),
    (filtered-Kept f l).1,
  )
  contains-retain (spilled s) f w = (
    spilled-ValidSet _,
    λ k.
        laws.contains_lem _ k
        ∙ ap (has k) (laws.iter-retain s f)
        ∙ (filtered-Kept f (lib.iter s)).1 k
        ∙ ap (λ z. z && f k) (sym (laws.contains_lem s k)),
  )
