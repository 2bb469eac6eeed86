-- ===== src/SmallTable/Update.antt =====
-- What an update by upsert does to an array of pairs, and how promotion rebuilds the array.
use pliron.Prelude.{
  ℕ, ◌≡◌, ◌≤◌, refl, sym, ap, ◌∙◌, Bool, true, false, ◌||◌, List, [], ◌∷◌, ◌++◌, arith, ◌==◌, ==→≡,
  ==_refl, length, has, has-append, Distinct, Bool-cases, inl, inr,
}
use pliron.SmallTable.Vec.{keys, upsert}
use pliron.SmallTable.Index.{IndexMap, MapLaws, retained}
use pliron.SmallTable.Remove.{keys-append}
use pliron.SmallTable.Map.{drain_into, promote}

module _ {V : Type 0} where
  has-upsert :
      (k j : ℕ) (v : V) (l : List (ℕ × V))
      → has j (keys (upsert k v l)) ≡ ((j == k) || has j (keys l))
  unfolding upsert
  has-upsert k j v [] = refl
  has-upsert k j v ((i, w) ∷ l) = elim (Bool-cases (i == k)) [
    | inl t ↦ rw t (ground (arith, ==→≡ i k t))
    | inr f ↦ rw f (ground (arith, has-upsert k j v l))
  ]

  pub upsert-Distinct :
      (k : ℕ) (v : V) (l : List (ℕ × V)) → Distinct (keys l) → Distinct (keys (upsert k v l))
  unfolding upsert
  upsert-Distinct k v [] d = (refl, tt)
  upsert-Distinct k v ((i, w) ∷ l) d = elim (Bool-cases (i == k)) [
    | inl t ↦ rw t d
    | inr f ↦ rw f (ground (arith, has-upsert k i v l, d.0), upsert-Distinct k v l d.1)
  ]

  -- The update of a new key appends.
  pub upsert-new :
      (k : ℕ) (v : V) (l : List (ℕ × V)) → has k (keys l) ≡ false → upsert k v l ≡ l ++ (k, v) ∷ []
  unfolding upsert
  upsert-new k v [] h = refl
  upsert-new k v ((i, w) ∷ l) h =
      let f : (i == k) ≡ false = ground (arith, ==_refl k) in
      rw f (ap (◌∷◌ (i, w)) (upsert-new k v l (ground arith)))

  -- Filtering keeps the keys distinct, and looks up what it keeps.
  pub has-retained :
      (f : ℕ → V → Bool × V) (k : ℕ) (l : List (ℕ × V))
      → has k (keys l) ≡ false
      → has k (keys (retained f l)) ≡ false
  unfolding retained
  has-retained f k [] h = refl
  has-retained f k ((i, w) ∷ l) h = ground (arith, has-retained f k l)

  pub retained-Distinct :
      (f : ℕ → V → Bool × V) (l : List (ℕ × V)) → Distinct (keys l) → Distinct (keys (retained f l))
  unfolding retained
  retained-Distinct f [] d = tt
  retained-Distinct f ((i, w) ∷ l) d = elim (Bool-cases (f i w).0) [
    | inl t ↦ rw t (has-retained f i l d.0, retained-Distinct f l d.1)
    | inr e ↦ rw e (retained-Distinct f l d.1)
  ]

  pub length-retained : (f : ℕ → V → Bool × V) (l : List (ℕ × V)) → length (retained f l) ≤ length l
  unfolding retained
  length-retained f [] = omega arith
  length-retained f ((i, w) ∷ l) = elim (Bool-cases (f i w).0) [
    | inl t ↦ rw t (omega (arith, length-retained f l))
    | inr e ↦ rw e (omega (arith, length-retained f l))
  ]

pub append-nil : {A : Type 0} (r : List A) → r ++ [] ≡ r
append-nil [] = refl
append-nil (y ∷ r) = ap (◌∷◌ y) (append-nil r)

pub append-snoc : {A : Type 0} (r : List A) (x : A) (l : List A) → (r ++ x ∷ []) ++ l ≡ r ++ x ∷ l
append-snoc [] x l = refl
append-snoc (y ∷ r) x l = ap (◌∷◌ y) (append-snoc r x l)

module _ {V : Type 0} (lib : IndexMap V) (laws : MapLaws lib) (n : ℕ) where
  iter-drain_into :
      (l r : List (ℕ × V)) (m : lib.Map)
      → lib.iter m ≡ r
      → Distinct (keys l)
      → ((a : ℕ) → has a (keys l) ≡ true → has a (keys r) ≡ false)
      → lib.iter (drain_into lib n m l) ≡ r ++ l
  unfolding drain_into
  iter-drain_into [] r m e d apart = e ∙ sym (append-nil r)
  iter-drain_into ((k, v) ∷ l) r m e d apart =
      let new : has k (keys r) ≡ false = apart k (ground (arith, ==_refl k)) in
      let grown : lib.iter (lib.insert m k v).0 ≡ r ++ (k, v) ∷ [] =
        laws.iter-insert m k v ∙ ap (upsert k v) e ∙ upsert-new k v r new in
      let rest = iter-drain_into l (r ++ (k, v) ∷ []) (lib.insert m k v).0 grown d.1 λ a h.
        rw (keys-append r ((k, v) ∷ []), has-append a (keys r) (k ∷ []))
          (ground (arith, apart a, ==→≡ a k, d.0)) in
      rest ∙ append-snoc r (k, v) l

  -- promote keeps the entries and their order.
  pub iter-promote : (l : List (ℕ × V)) → Distinct (keys l) → lib.iter (promote lib n l) ≡ l
  unfolding promote
  iter-promote l d = iter-drain_into l [] lib.new laws.iter-new d λ a h. refl
