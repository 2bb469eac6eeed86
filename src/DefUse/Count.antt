-- ===== src/DefUse/Count.antt =====
-- How many elements of a list pass a test, after each change of a vector.
use pliron.Prelude.{
  ℕ, zero, suc, ◌+◌, ◌≡◌, refl, sym, ap, ◌∙◌, Bool, true, false, Option, none, some, List, [], ◌∷◌,
  ◌++◌, arith, ◌==◌, length, Bool-cases, ==→≡, inl, inr,
}
use pliron.SmallTable.Vec.{get_elem?, set, init, last, swap_remove}
use pliron.DefUse.{insert_at, remove_at}

abbrev pub one_if : Bool → ℕ
one_if true = 1
one_if false = 0

module _ {A : Type 0} (q : A → Bool) where
  abbrev pub count : List A → ℕ
  count [] = 0
  count (x ∷ l) = one_if (q x) + count l

  pub count-append : (l m : List A) → count (l ++ m) ≡ count l + count m
  count-append [] m = omega arith
  count-append (x ∷ l) m = omega (arith, count-append l m)

  q_eq : (x y : A) → some x ≡ some y → one_if (q x) ≡ one_if (q y)
  q_eq x y e = ap (λ (o : Option A). elim o [ none ↦ 0 | some z ↦ one_if (q z) ]) e

  pub count-set :
      (l : List A) (i : ℕ) (a x : A)
      → get_elem? l i ≡ some x
      → count (set l i a) + one_if (q x) ≡ count l + one_if (q a)
  count-set [] i a x e = cc
  count-set (y ∷ l) zero a x e = omega (arith, q_eq y x e)
  count-set (y ∷ l) (suc i) a x e = omega (arith, count-set l i a x e)

  pub count-insert_at :
      (l : List A) (i : ℕ) (a : A) → count (insert_at l i a) ≡ count l + one_if (q a)
  unfolding insert_at
  count-insert_at l zero a = omega arith
  count-insert_at [] (suc i) a = omega arith
  count-insert_at (x ∷ l) (suc i) a = omega (arith, count-insert_at l i a)

  pub count-remove_at :
      (l : List A) (i : ℕ) (x : A)
      → get_elem? l i ≡ some x
      → count (remove_at l i) + one_if (q x) ≡ count l
  unfolding remove_at
  count-remove_at [] i x e = cc
  count-remove_at (y ∷ l) zero x e = omega (arith, q_eq y x e)
  count-remove_at (y ∷ l) (suc i) x e = omega (arith, count-remove_at l i x e)

  count-init : (x : A) (l : List A) → count (init x l) + one_if (q (last x l)) ≡ count (x ∷ l)
  count-init x [] = omega arith
  count-init x (y ∷ l) = omega (arith, count-init y l)

  -- The element at an index is the last one, or stands among the others.
  get_elem?-last : (y : A) (l : List A) → get_elem? (y ∷ l) (length (init y l)) ≡ some (last y l)
  get_elem?-last y [] = refl
  get_elem?-last y (z ∷ l) = get_elem?-last z l

  get_elem?-init :
      (y : A) (l : List A) (i : ℕ) (x : A)
      → get_elem? (y ∷ l) i ≡ some x
      → (i == length (init y l)) ≡ false
      → get_elem? (init y l) i ≡ some x
  get_elem?-init y [] zero x e f = cc
  get_elem?-init y [] (suc i) x e f = e
  get_elem?-init y (z ∷ l) zero x e f = e
  get_elem?-init y (z ∷ l) (suc i) x e f = get_elem?-init z l i x e (ground arith)

  pub count-swap_remove :
      (l : List A) (i : ℕ) (x : A)
      → get_elem? l i ≡ some x
      → count (swap_remove l i) + one_if (q x) ≡ count l
  unfolding swap_remove
  count-swap_remove [] i x e = cc
  count-swap_remove (y ∷ l) i x e = elim (Bool-cases (i == length (init y l))) [
    | inl t ↦
        let at_end : i ≡ length (init y l) = ==→≡ i _ t in
        let same = q_eq (last y l) x (sym (get_elem?-last y l) ∙ rw (← at_end) e) in
        rw t (omega (arith, count-init y l, same))
    | inr f ↦ rw f (
        omega
          (arith, count-set (init y l) i (last y l) x (get_elem?-init y l i x e f), count-init y l))
  ]
