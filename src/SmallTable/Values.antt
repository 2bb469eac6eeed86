-- ===== src/SmallTable/Values.antt =====
-- The elements of a SmallSet as a list: insertion, removal by swap_remove, and filtering.
use mathlib.Core.Path.{subst}
use pliron.Prelude.{
  ℕ, zero, suc, ◌≤◌, ◌≡◌, refl, sym, ap, ◌∙◌, Bool, true, false, ◌&&◌, Option, none, some, List, [],
  ◌∷◌, arith, ◌==◌, ==→≡, ==_refl, ==_false_sym, if◌then◌else◌, length, has, Distinct,
  append-Distinct, Bool-cases, inl, inr, is_some,
}
use pliron.SmallTable.Vec.{
  set, init, last, swap_remove, position, lookup, removed, keys, next-none, next-some, next-suc,
}
use pliron.SmallTable.Remove.{Dropped, removed-Dropped}
use pliron.SmallTable.Set.{index_of, filtered, with_value, removed_value}

-- A list of elements as a list of pairs.
tagged : List ℕ → List (ℕ × Unit {0})
tagged [] = []
tagged (x ∷ l) = (x, tt) ∷ tagged l

keys-tagged : (l : List ℕ) → keys (tagged l) ≡ l
unfolding tagged
keys-tagged [] = refl
keys-tagged (x ∷ l) = ap (◌∷◌ x) (keys-tagged l)

length-tagged : (l : List ℕ) → length (tagged l) ≡ length l
unfolding tagged
length-tagged [] = refl
length-tagged (x ∷ l) = ap suc (length-tagged l)

index_of-tagged : (k : ℕ) (l : List ℕ) → index_of k l ≡ position k (tagged l)
unfolding tagged index_of position
index_of-tagged k [] = refl
index_of-tagged k (x ∷ l) = rw (index_of-tagged k l) refl

has-tagged : (k : ℕ) (l : List ℕ) → has k l ≡ is_some (lookup k (tagged l))
unfolding tagged lookup
has-tagged k [] = refl
has-tagged k (x ∷ l) = ground (arith, has-tagged k l, ==_false_sym k x, ==_false_sym x k)

set-tagged : (l : List ℕ) (i k : ℕ) → tagged (set l i k) ≡ set (tagged l) i (k, tt)
unfolding tagged
set-tagged [] i k = refl
set-tagged (x ∷ l) zero k = refl
set-tagged (x ∷ l) (suc i) k = ap (◌∷◌ (x, tt)) (set-tagged l i k)

init-tagged : (x : ℕ) (l : List ℕ) → tagged (init x l) ≡ init (x, tt) (tagged l)
unfolding tagged
init-tagged x [] = refl
init-tagged x (y ∷ l) = ap (◌∷◌ (x, tt)) (init-tagged y l)

last-tagged : (x : ℕ) (l : List ℕ) → (last x l, tt) ≡ last (x, tt) (tagged l)
unfolding tagged
last-tagged x [] = refl
last-tagged x (y ∷ l) = last-tagged y l

swap_remove-tagged : (l : List ℕ) (i : ℕ) → tagged (swap_remove l i) ≡ swap_remove (tagged l) i
unfolding tagged swap_remove
swap_remove-tagged [] i = refl
swap_remove-tagged (x ∷ l) i =
    let same = length-tagged (init x l) in
    rw (sym (init-tagged x l), sym (last-tagged x l), same)
      (elim (Bool-cases (i == length (init x l))) [
        | inl t ↦ rw t refl
        | inr f ↦ rw f (set-tagged (init x l) i (last x l))
      ])

removed-tagged : (k : ℕ) (l : List ℕ) → tagged (removed_value k l) ≡ removed k (tagged l)
unfolding removed removed_value
removed-tagged k l = go (index_of k l) refl
  where
    go : (o : Option ℕ) → index_of k l ≡ o → tagged (removed_value k l) ≡ removed k (tagged l)
    go none e = rw (removed_value, e, removed, sym (index_of-tagged k l) ∙ e) refl
    go (some i) e =
        rw (removed_value, e, removed, sym (index_of-tagged k l) ∙ e) (swap_remove-tagged l i)

-- An element is gone, and no other.
unfoldable pub Without : ℕ → List ℕ → List ℕ → Type 0
Without k l r =
    Distinct r × ((j : ℕ) → has j r ≡ (if k == j then false else has j l)) × (length r ≤ length l)

pub removed_value-Without : (k : ℕ) (l : List ℕ) → Distinct l → Without k l (removed_value k l)
unfolding Dropped Without
removed_value-Without k l d =
    let same = removed-tagged k l in
    let dropped = removed-Dropped k (tagged l) (subst Distinct (sym (keys-tagged l)) d) in
    let r = removed_value k l in
    (
      subst Distinct (ap keys (sym same) ∙ keys-tagged r) dropped.0,
      λ j.
          has-tagged j r
          ∙ ap (λ z. is_some (lookup j z)) same
          ∙ ap is_some (dropped.1 j)
          ∙ rw (has-tagged j l)
              (elim (Bool-cases (k == j)) [ inl t ↦ rw t refl | inr f ↦ rw f refl ]),
      omega (arith, length-tagged r, length-tagged l, ap length same, dropped.2),
    )

pub missing-removed_value : (k : ℕ) (l : List ℕ) → index_of k l ≡ none → has k l ≡ false
unfolding index_of
missing-removed_value k [] e = refl
missing-removed_value k (x ∷ l) e = elim (Bool-cases (x == k)) [
  | inl t ↦ ground arith
  | inr f ↦
      ground (
        arith,
        missing-removed_value k l (next-none (index_of k l) (ground arith)),
        ==_false_sym x k,
      )
]

pub found-removed_value : (k i : ℕ) (l : List ℕ) → index_of k l ≡ some i → has k l ≡ true
unfolding index_of
found-removed_value k i [] e = cc
found-removed_value k zero (x ∷ l) e = elim (Bool-cases (x == k)) [
  | inl t ↦ ground (arith, ==→≡ x k t, ==_refl k)
  | inr f ↦ absurd (next-suc (index_of k l) (ground arith))
]
found-removed_value k (suc i) (x ∷ l) e = elim (Bool-cases (x == k)) [
  | inl t ↦ ground (arith, ==→≡ x k t, ==_refl k)
  | inr f ↦ ground (arith, found-removed_value k i l (next-some (index_of k l) i (ground arith)))
]

pub with_value-Distinct : (k : ℕ) (l : List ℕ) → Distinct l → Distinct (with_value k l)
with_value-Distinct k l d = elim (Bool-cases (has k l)) [
  | inl t ↦ rw t d
  | inr f ↦ rw f (
      append-Distinct l (k ∷ []) d (refl, tt)
        λ a h. elim (Bool-cases (a == k)) [
          | inl t ↦ ground (arith, ==→≡ a k t)
          | inr g ↦ ground arith
        ])
]

pub filtered-Kept :
    (f : ℕ → Bool) (l : List ℕ)
    → (length (filtered f l) ≤ length l) × ((k : ℕ) → has k (filtered f l) ≡ (has k l && f k))
unfolding filtered
filtered-Kept f [] = (omega arith, λ k. refl)
filtered-Kept f (x ∷ l) =
    let rest = filtered-Kept f l in
    elim (Bool-cases (f x)) [
      | inl t ↦ rw t (
        omega (arith, rest.0),
        λ k. elim (Bool-cases (k == x)) [
          | inl s ↦ ground (arith, ap f (==→≡ k x s), rest.1 k)
          | inr g ↦ ground (arith, rest.1 k)
        ],
      )
      | inr e ↦ rw e (
        omega (arith, rest.0),
        λ k. elim (Bool-cases (k == x)) [
          | inl s ↦ ground (arith, ap f (==→≡ k x s), rest.1 k)
          | inr g ↦ ground (arith, rest.1 k)
        ],
      )
    ]

pub filtered-Distinct : (f : ℕ → Bool) (l : List ℕ) → Distinct l → Distinct (filtered f l)
unfolding filtered
filtered-Distinct f [] d = tt
filtered-Distinct f (x ∷ l) d = elim (Bool-cases (f x)) [
  | inl t ↦ rw t (ground (arith, (filtered-Kept f l).1 x, d.0), filtered-Distinct f l d.1)
  | inr e ↦ rw e (filtered-Distinct f l d.1)
]
