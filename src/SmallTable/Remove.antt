-- ===== src/SmallTable/Remove.antt =====
-- What swap_remove does to an array of pairs with distinct keys.
use pliron.Prelude.{
  ℕ, zero, suc, ◌≡◌, refl, sym, ap, ◌∙◌, true, false, Option, none, some, List, [], ◌∷◌, ◌++◌,
  arith, ◌==◌, ==→≡, ==_refl, ==_false_sym, if◌then◌else◌, length, length-append, has, has-append,
  ◌<◌, ◌≤◌, Distinct, Bool-cases, inl, inr,
}
use mathlib.Core.Path.{subst}
use pliron.SmallTable.Vec.{
  set, init, last, swap_remove, position, lookup, removed, keys, next-some, next-suc, next-none,
  position-none,
}

init-last : {A : Type 0} (x : A) (xs : List A) → x ∷ xs ≡ init x xs ++ last x xs ∷ []
init-last x [] = refl
init-last x (y ∷ ys) = ap (◌∷◌ x) (init-last y ys)

position-empty : (V : Type 0) {P : Type 0} (k i : ℕ) → position {V = V} k [] ≡ some i → P
unfolding position
position-empty V k i e = cc

dropping :
    {A : Type 0} (x y z l : A) (a k j : ℕ)
    → (a == k) ≡ false
    → l ≡ (if a == j then x else if k == j then y else z)
    → l ≡ (if k == j then y else if a == j then x else z)
dropping x y z l a k j h e = ground (arith, ==→≡ a j, ==→≡ k j)

module _ {V : Type 0} where
  -- A look-up that finds nothing for keys the list has not.
  pub lookup-none : (k : ℕ) (l : List (ℕ × V)) → has k (keys l) ≡ false → lookup k l ≡ none
  unfolding lookup
  lookup-none k [] h = refl
  lookup-none k ((j, w) ∷ l) h = ground (arith, lookup-none k l, ==_false_sym k j)

  pub keys-append : (l r : List (ℕ × V)) → keys (l ++ r) ≡ keys l ++ keys r
  keys-append [] r = refl
  keys-append ((j, w) ∷ l) r = ap (◌∷◌ j) (keys-append l r)

  -- The pairs of a list in which the key k gives place to another pair.
  Replaced : ℕ → ℕ × V → List (ℕ × V) → List (ℕ × V) → Type 0
  Replaced k p l r =
      Distinct (keys r)
      × ((j : ℕ)
          → has j (keys r) ≡ (if p.0 == j then true else if k == j then false else has j (keys l)))
      × ((j : ℕ)
          → lookup j r ≡ (if p.0 == j then some p.1 else if k == j then none else lookup j l))

  set-Replaced :
      (k : ℕ) (p : ℕ × V) (l : List (ℕ × V)) (i : ℕ)
      → position k l ≡ some i
      → Distinct (keys l)
      → has p.0 (keys l) ≡ false
      → Replaced k p l (set l i p)
  unfolding position lookup Replaced
  set-Replaced k p [] i e d h = cc
  set-Replaced k p ((j, w) ∷ l) zero e d h = elim (Bool-cases (j == k)) [
    | inl t ↦ (
      (ground (arith, ==→≡ j k t), d.1),
      λ a. ground (arith, ==_false_sym a p.0, ==→≡ j k t, d.0),
      λ a. ground (arith, lookup-none j l d.0, ==→≡ j k t),
    )
    | inr f ↦ absurd (next-suc (position k l) (ground arith))
  ]
  set-Replaced k p ((j, w) ∷ l) (suc i) e d h = elim (Bool-cases (j == k)) [
    | inl t ↦ ground arith
    | inr f ↦
        let rest =
          set-Replaced k p l i (next-some (position k l) i (ground arith)) d.1 (ground arith) in
        (
          (ground (arith, rest.1 j, d.0), rest.0),
          λ a. ground (arith, rest.1 a, ==_false_sym j a),
          λ a. ground (arith, rest.2 a),
        )
  ]

  -- The entry of k is gone, and no other.
  unfoldable pub Dropped : ℕ → List (ℕ × V) → List (ℕ × V) → Type 0
  Dropped k l r =
      Distinct (keys r)
      × ((j : ℕ) → lookup j r ≡ (if k == j then none else lookup j l))
      × (length r ≤ length l)

  position-append-none :
      (k : ℕ) (p : ℕ × V) (l : List (ℕ × V))
      → position k l ≡ none
      → position k (l ++ p ∷ []) ≡ (if p.0 == k then some (length l) else none)
  unfolding position
  position-append-none k p [] e = refl
  position-append-none k p ((j, w) ∷ l) e = elim (Bool-cases (j == k)) [
    | inl t ↦ ground arith
    | inr f ↦
        let rest = position-append-none k p l (next-none (position k l) (ground arith)) in
        elim (Bool-cases (p.0 == k)) [ inl t ↦ ground arith | inr g ↦ ground arith ]
  ]

  position-append-some :
      (k : ℕ) (p : ℕ × V) (l : List (ℕ × V)) (i : ℕ)
      → position k l ≡ some i
      → (position k (l ++ p ∷ []) ≡ some i) × (i < length l)
  unfolding position
  position-append-some k p [] i e = cc
  position-append-some k p ((j, w) ∷ l) zero e = elim (Bool-cases (j == k)) [
    | inl t ↦ (ground arith, omega arith)
    | inr f ↦ absurd (next-suc (position k l) (ground arith))
  ]
  position-append-some k p ((j, w) ∷ l) (suc i) e = elim (Bool-cases (j == k)) [
    | inl t ↦ ground arith
    | inr f ↦
        let rest = position-append-some k p l i (next-some (position k l) i (ground arith)) in
        (rw (f, rest.0) refl, omega (arith, rest.1))
  ]

  lookup-append :
      (j : ℕ) (p : ℕ × V) (l : List (ℕ × V))
      → has p.0 (keys l) ≡ false
      → lookup j (l ++ p ∷ []) ≡ (if p.0 == j then some p.1 else lookup j l)
  unfolding lookup
  lookup-append j p [] h = refl
  lookup-append j p ((i, w) ∷ l) h = ground (arith, lookup-append j p l)

  append-new :
      (p : ℕ × V) (l : List (ℕ × V))
      → Distinct (keys (l ++ p ∷ []))
      → Distinct (keys l) × (has p.0 (keys l) ≡ false)
  append-new p [] d = (tt, refl)
  append-new p ((i, w) ∷ l) d =
      let rest = append-new p l d.1 in
      let h : has i (keys l ++ p.0 ∷ []) ≡ false = rw (keys-append l (p ∷ [])) at d.0 in
      (
        (ground (arith, has-append i (keys l) (p.0 ∷ [])), rest.0),
        ground (arith, has-append i (keys l) (p.0 ∷ []), rest.1, ==_false_sym i p.0),
      )

  length-set : (l : List (ℕ × V)) (i : ℕ) (p : ℕ × V) → length (set l i p) ≡ length l
  length-set [] i p = refl
  length-set (x ∷ l) zero p = refl
  length-set (x ∷ l) (suc i) p = ap suc (length-set l i p)

  position-missing : (k : ℕ) (l : List (ℕ × V)) → has k (keys l) ≡ false → position k l ≡ none
  unfolding position
  position-missing k [] h = refl
  position-missing k ((j, w) ∷ l) h =
      let f : (j == k) ≡ false = ground (arith, ==_refl k) in
      rw (f, position-missing k l (ground arith)) refl

  -- swap_remove, for an array whose last element is known.
  removed_last :
      (k : ℕ) (p : ℕ × V) (l : List (ℕ × V)) (i : ℕ) (o : Option ℕ)
      → position k l ≡ o
      → position k (l ++ p ∷ []) ≡ some i
      → Distinct (keys (l ++ p ∷ []))
      → Dropped k (l ++ p ∷ []) (if i == length l then l else set l i p)
  unfolding Dropped Replaced
  removed_last k p l i none eo e d =
      let (dl, new) = append-new p l d in
      let last = position-append-none k p l eo in
      let missing = (position-none k p.1 l eo).1.0 in
      elim (Bool-cases (p.0 == k)) [
        | inl t ↦
            let here : (i == length l) ≡ true = ground (arith, last) in
            (
              rw here dl,
              λ j. rw (here, lookup-append j p l new) (ground (arith, ==→≡ p.0 k t, missing)),
              rw here (omega (arith, length-append l (p ∷ []))),
            )
        | inr f ↦ ground (arith, last)
      ]
  removed_last k p l i (some i') eo e d =
      let (dl, new) = append-new p l d in
      let (at, lt) = position-append-some k p l i' eo in
      let same : i' ≡ i = ground (arith, at) in
      let there : (i == length l) ≡ false = ground (arith, same, lt) in
      let other : (p.0 == k) ≡ false = elim (Bool-cases (p.0 == k)) [
        | inl t ↦ ground (arith, eo, position-missing k l (rw (==→≡ p.0 k t) at new))
        | inr f ↦ f
      ] in
      let rest = set-Replaced k p l i (eo ∙ ap some same) dl new in
      (
        rw there rest.0,
        λ j. rw (there, lookup-append j p l new) (dropping _ _ _ _ p.0 k j other (rest.2 j)),
        rw there (omega (arith, length-append l (p ∷ []), length-set l i p)),
      )

  pub lookup-missing : (k : ℕ) (l : List (ℕ × V)) → position k l ≡ none → lookup k l ≡ none
  unfolding position lookup
  lookup-missing k [] e = refl
  lookup-missing k ((j, w) ∷ l) e = elim (Bool-cases (j == k)) [
    | inl t ↦ ground arith
    | inr f ↦ rw f (lookup-missing k l (next-none (position k l) (ground arith)))
  ]

  removed_at :
      (k : ℕ) (l : List (ℕ × V)) (o : Option ℕ)
      → position k l ≡ o
      → Distinct (keys l)
      → Dropped k l (removed k l)
  unfolding removed swap_remove Dropped
  removed_at k l none e d =
      rw (removed, e) (d, λ j. ground (arith, ==→≡ k j, lookup-missing k l e), omega arith)
  removed_at k [] (some i) e d = position-empty V k i e
  removed_at k (x ∷ l) (some i) e d =
      let split = init-last x l in
      let at = subst (λ z. position k z ≡ some i) split e in
      let d' = subst (λ z. Distinct (keys z)) split d in
      let shorter = removed_last k (last x l) (init x l) i _ refl at d' in
      rw (removed, e) (subst (λ z. Dropped k z (swap_remove (x ∷ l) i)) (sym split) shorter)

  -- Removing a key from an array with distinct keys drops its entry.
  pub removed-Dropped : (k : ℕ) (l : List (ℕ × V)) → Distinct (keys l) → Dropped k l (removed k l)
  removed-Dropped k l d = removed_at k l (position k l) refl d
