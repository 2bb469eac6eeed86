-- ===== src/SmallTable/Laws.antt =====
-- SmallMap against its list of entries: what each method does does not depend on whether the map
-- is inline or spilled.
use pliron.Prelude.{
  ℕ, zero, suc, ◌≤◌, ◌≡◌, refl, sym, ap, ◌∙◌, Bool, Option, none, some, List, [], ◌∷◌, arith, ◌==◌,
  ltb, if◌then◌else◌, length, length-append, Distinct, Bool-cases, inl, inr,
}
use mathlib.Core.Path.{subst}
use pliron.SmallTable.Vec.{
  keys, upsert, lookup, position, set_value, removed, lookup-upsert, set_value-position,
  value_at-position, position-none,
}
use pliron.SmallTable.Index.{IndexMap, MapLaws, retained}
use pliron.SmallTable.Remove.{Dropped, removed-Dropped, lookup-missing}
use pliron.SmallTable.Update.{upsert-Distinct, retained-Distinct, length-retained, iter-promote}
use pliron.SmallTable.Map.{
  SmallMap, inline, spilled, iter, insert, get, remove, retain, promote, is_inline, len,
}

module _ {V : Type 0} {lib : IndexMap V} (laws : MapLaws lib) (n : ℕ) where
  -- Distinct keys, and no more than N inline entries.
  unfoldable pub Valid : SmallMap lib n → Type 0
  Valid (inline l) = Distinct (keys l) × (length l ≤ n)
  Valid (spilled m) = Distinct (keys (lib.iter m))

  -- The map has these entries, and is well formed.
  unfoldable pub Has : List (ℕ × V) → SmallMap lib n → Type 0
  Has l m = Valid m × (iter lib n m ≡ l)

  pub spilled-Has : (m : lib.Map) (l : List (ℕ × V)) → lib.iter m ≡ l → Has l (spilled m)
  unfolding Has Valid iter is_inline
  spilled-Has m l e = (laws.iter-Distinct m, e)

  pub length-set_value : (l : List (ℕ × V)) (i : ℕ) (v : V) → length (set_value l i v) ≡ length l
  unfolding set_value
  length-set_value [] i v = refl
  length-set_value (x ∷ l) zero v = refl
  length-set_value (x ∷ l) (suc i) v = ap suc (length-set_value l i v)

  -- The representations of insert.
  insert_by :
      (k : ℕ) (v : V) (l : List (ℕ × V)) (o : Option ℕ)
      → position k l ≡ o
      → Valid (inline l)
      → Has (upsert k v l) (insert lib n (inline l) k v).0
        × ((insert lib n (inline l) k v).1 ≡ lookup k l)
  unfolding insert Has Valid iter is_inline len
  insert_by k v l (some i) e w =
      let (written, old) = set_value-position k v l i e in
      rw (insert, e)
        (
          (
            (rw written (upsert-Distinct k v l w.0), omega (arith, length-set_value l i v, w.1)),
            written,
          ),
          old,
        )
  insert_by k v l none e w =
      let (new, missing) = position-none k v l e in
      elim (Bool-cases (ltb (length l) n)) [
        | inl room ↦
            rw (insert, e, room)
              (
                (
                  (
                    subst (λ z. Distinct (keys z)) new (upsert-Distinct k v l w.0),
                    ground (arith, length-append l ((k, v) ∷ [])),
                  ),
                  sym new,
                ),
                sym missing.0,
              )
        | inr full ↦
            let e' = iter-promote lib laws n l w.0 in
            let m = promote lib n l in
            rw (insert, e, full)
              (
                spilled-Has _ _ (laws.iter-insert m k v ∙ ap (upsert k v) e'),
                laws.insert_old m k v ∙ ap (lookup k) e',
              )
      ]

  -- insert writes the value of the key in its place, or appends the entry of a new key, and
  -- returns the value that was there, whether or not the map is inline; the map stays well formed.
  pub insert-upsert :
      (m : SmallMap lib n) (k : ℕ) (v : V)
      → Valid m
      → Has (upsert k v (iter lib n m)) (insert lib n m k v).0
        × ((insert lib n m k v).1 ≡ lookup k (iter lib n m))
  unfolding insert iter
  insert-upsert (inline l) k v w = insert_by k v l (position k l) refl w
  insert-upsert (spilled m) k v w =
      (spilled-Has _ _ (laws.iter-insert m k v), laws.insert_old m k v)

  -- What a look-up reads is what the list of entries has.
  pub get-lookup : (m : SmallMap lib n) (k : ℕ) → get lib n m k ≡ lookup k (iter lib n m)
  unfolding get iter
  get-lookup (inline l) k = refl
  get-lookup (spilled m) k = laws.get_lem m k

  -- After an insertion, get reads the value at the key and what it read before elsewhere.
  get-insert :
      (m : SmallMap lib n) (k j : ℕ) (v : V)
      → Valid m
      → get lib n (insert lib n m k v).0 j ≡ (if k == j then some v else get lib n m j)
  unfolding Has
  get-insert m k j v w = rw (get-lookup m j) (
      get-lookup _ j
      ∙ ap (lookup j) (insert-upsert m k v w).0.1
      ∙ lookup-upsert k j v (iter lib n m))

  remove_by :
      (k : ℕ) (l : List (ℕ × V)) (o : Option ℕ)
      → position k l ≡ o
      → ((remove lib n (inline l) k).0 ≡ inline (removed k l))
        × ((remove lib n (inline l) k).1 ≡ lookup k l)
  unfolding remove removed
  remove_by k l none e = rw (remove, removed, e) (refl, sym (lookup-missing k l e))
  remove_by k l (some i) e = rw (remove, removed, e) (refl, value_at-position k l i e)

  -- remove returns the value of the key, if any, and drops its entry and no other, whether or not
  -- the map is inline; the map stays well formed.
  pub remove-Dropped :
      (m : SmallMap lib n) (k : ℕ)
      → Valid m
      → Valid (remove lib n m k).0
        × Dropped k (iter lib n m) (iter lib n (remove lib n m k).0)
        × ((remove lib n m k).1 ≡ lookup k (iter lib n m))
  unfolding remove iter Valid is_inline len Dropped
  remove-Dropped (inline l) k w =
      let (new, old) = remove_by k l (position k l) refl in
      let dropped = removed-Dropped k l w.0 in
      (
        subst Valid (sym new) (dropped.0, omega (arith, dropped.2, w.1)),
        subst (λ z. Dropped k l (iter lib n z)) (sym new) dropped,
        old,
      )
  remove-Dropped (spilled m) k w = (
    laws.iter-Distinct _,
    subst (λ z. Dropped k (lib.iter m) z) (sym (laws.iter-swap_remove m k))
        (removed-Dropped k (lib.iter m) (laws.iter-Distinct m)),
    laws.swap_remove_old m k,
  )

  -- retain keeps the map well formed and leaves the entries that the predicate keeps, in order.
  pub retain-retained :
      (m : SmallMap lib n) (f : ℕ → V → Bool × V)
      → Valid m
      → Has (retained f (iter lib n m)) (retain lib n m f)
  unfolding retain iter Has Valid is_inline len
  retain-retained (inline l) f w =
      ((retained-Distinct f l w.0, omega (arith, length-retained f l, w.1)), refl)
  retain-retained (spilled m) f w = spilled-Has _ _ (laws.iter-retain m f)
