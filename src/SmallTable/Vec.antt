-- ===== src/SmallTable/Vec.antt =====
-- The methods of SmallVec that the small tables call, and how they act on arrays of pairs.
use pliron.Prelude.{
  ℕ, zero, suc, ◌≡◌, ◌≢◌, refl, ap, false, Option, none, some, List, [], ◌∷◌, ◌++◌, arith, ◌==◌,
  ==_false_sym, if◌then◌else◌, length, has, Bool-cases, inl, inr,
}

module _ {A : Type 0} where
  abbrev pub get_elem? : List A → ℕ → Option A
  get_elem? [] i = none
  get_elem? (x ∷ xs) zero = some x
  get_elem? (x ∷ xs) (suc i) = get_elem? xs i

  abbrev pub set : List A → ℕ → A → List A
  set [] i v = []
  set (x ∷ xs) zero v = v ∷ xs
  set (x ∷ xs) (suc i) v = x ∷ set xs i v

  -- All but the last element, and the last.
  abbrev pub init : A → List A → List A
  init x [] = []
  init x (y ∷ ys) = x ∷ init y ys

  abbrev pub last : A → List A → A
  last x [] = x
  last x (y ∷ ys) = last y ys

  -- `swap_remove`: the last element takes the place of the one that is removed.
  unfoldable pub swap_remove : List A → ℕ → List A
  swap_remove [] i = []
  swap_remove (x ∷ xs) i =
      if i == length (init x xs) then init x xs else set (init x xs) i (last x xs)

abbrev pub next : Option ℕ → Option ℕ
next none = none
next (some i) = some (suc i)

pub next-some : (o : Option ℕ) (i : ℕ) → next o ≡ some (suc i) → o ≡ some i
next-some none i e = cc
next-some (some j) i e = ground arith

pub next-none : (o : Option ℕ) → next o ≡ none → o ≡ none
next-none none e = refl
next-none (some i) e = ground arith

pub next-suc : (o : Option ℕ) → next o ≢ some 0
next-suc none e = cc
next-suc (some j) e = ground arith

module _ {V : Type 0} where
  -- `iter().position(|(k, _)| *k == key)`
  unfoldable pub position : ℕ → List (ℕ × V) → Option ℕ
  position k [] = none
  position k ((j, v) ∷ l) = if j == k then some 0 else next (position k l)

  -- What a key is mapped to, by the first pair that has it.
  unfoldable pub lookup : ℕ → List (ℕ × V) → Option V
  lookup k [] = none
  lookup k ((j, v) ∷ l) = if j == k then some v else lookup k l

  -- `iter().find(|(k, _)| *k == key)`
  unfoldable pub find_pair : ℕ → List (ℕ × V) → Option (ℕ × V)
  find_pair k [] = none
  find_pair k ((j, v) ∷ l) = if j == k then some (j, v) else find_pair k l

  -- A new value for a key, in its place or at the end.
  unfoldable pub upsert : ℕ → V → List (ℕ × V) → List (ℕ × V)
  upsert k v [] = (k, v) ∷ []
  upsert k v ((j, w) ∷ l) = if j == k then (j, v) ∷ l else (j, w) ∷ upsert k v l

  abbrev pub keys : List (ℕ × V) → List ℕ
  keys [] = []
  keys ((j, v) ∷ l) = j ∷ keys l

  -- `v[i].1 = value`
  unfoldable pub set_value : List (ℕ × V) → ℕ → V → List (ℕ × V)
  set_value [] i v = []
  set_value ((j, w) ∷ l) zero v = (j, v) ∷ l
  set_value ((j, w) ∷ l) (suc i) v = (j, w) ∷ set_value l i v

  unfoldable pub value_at : List (ℕ × V) → ℕ → Option V
  value_at [] i = none
  value_at ((j, w) ∷ l) zero = some w
  value_at ((j, w) ∷ l) (suc i) = value_at l i

  -- `v[i].0`
  abbrev pub key_at : List (ℕ × V) → ℕ → Option ℕ
  key_at [] i = none
  key_at (x ∷ l) zero = some x.0
  key_at (x ∷ l) (suc i) = key_at l i

  -- `position` and then `swap_remove`.
  unfoldable pub removed : ℕ → List (ℕ × V) → List (ℕ × V)
  removed k l = elim (position k l) [ none ↦ l | some i ↦ swap_remove l i ]

  pub lookup-upsert :
      (k j : ℕ) (v : V) (l : List (ℕ × V))
      → lookup j (upsert k v l) ≡ (if k == j then some v else lookup j l)
  unfolding lookup upsert
  lookup-upsert k j v [] = refl
  lookup-upsert k j v ((i, w) ∷ l) = ground (arith, lookup-upsert k j v l)

  -- Writing at the key's position is an update in place.
  pub set_value-position :
      (k : ℕ) (v : V) (l : List (ℕ × V)) (i : ℕ)
      → position k l ≡ some i
      → (set_value l i v ≡ upsert k v l) × (value_at l i ≡ lookup k l)
  unfolding position set_value upsert value_at lookup
  set_value-position k v [] i e = cc
  set_value-position k v ((j, w) ∷ l) zero e = elim (Bool-cases (j == k)) [
    | inl h ↦ (rw h refl, rw h refl)
    | inr h ↦ absurd (next-suc (position k l) (ground arith))
  ]
  set_value-position k v ((j, w) ∷ l) (suc i) e = elim (Bool-cases (j == k)) [
    | inl h ↦ ground arith
    | inr h ↦
        let rest = set_value-position k v l i (next-some (position k l) i (ground arith)) in
        (rw h (ap (◌∷◌ (j, w)) rest.0), rw h rest.1)
  ]

  pub value_at-position :
      (k : ℕ) (l : List (ℕ × V)) (i : ℕ) → position k l ≡ some i → value_at l i ≡ lookup k l
  unfolding position value_at lookup
  value_at-position k [] i e = cc
  value_at-position k ((j, w) ∷ l) i e = (set_value-position k w ((j, w) ∷ l) i e).1

  -- A key with no position is new: the update appends, and the look-up misses.
  pub position-none :
      (k : ℕ) (v : V) (l : List (ℕ × V))
      → position k l ≡ none
      → (upsert k v l ≡ l ++ (k, v) ∷ []) × ((lookup k l ≡ none) × (has k (keys l) ≡ false))
  unfolding position upsert lookup
  position-none k v [] e = (refl, (refl, refl))
  position-none k v ((j, w) ∷ l) e = elim (Bool-cases (j == k)) [
    | inl h ↦ ground arith
    | inr h ↦
        let rest = position-none k v l (ground arith) in
        (rw h (ap (◌∷◌ (j, w)) rest.0), (rw h rest.1.0, ground (arith, ==_false_sym j k)))
  ]
