-- ===== src/Graph/Dominance/Walks.antt =====
-- Walks from the entry, domination, and walks that visit no node twice. A walk is the list of its
-- nodes, the last first, and the entry is node 0.
use pliron.Prelude.{
  ℕ, zero, suc, ◌+◌, ◌<◌, ◌≤◌, ◌≡◌, refl, sym, true, false, List, [], ◌∷◌, arith, ◌==◌, ==→≡,
  ==_refl, ltb, if◌then◌else◌, length, has, Distinct, Bool-cases, inl, inr,
}
use mathlib.Core.Path.{subst}

-- The elements other than a, and how many they are.
without : ℕ → List ℕ → List ℕ
without a [] = []
without a (x ∷ l) = if a == x then without a l else x ∷ without a l

has-without : (a b : ℕ) (l : List ℕ) → has b (without a l) ≡ (if a == b then false else has b l)
unfolding without
has-without a b [] = ground arith
has-without a b (x ∷ l) = ground (arith, has-without a b l)

without-new : (a : ℕ) (l : List ℕ) → has a l ≡ false → without a l ≡ l
unfolding without
without-new a [] h = refl
without-new a (x ∷ l) h = ground (arith, without-new a l)

Distinct-without :
    (a : ℕ) (l : List ℕ)
    → Distinct l
    → Distinct (without a l) × (length l ≤ suc (length (without a l)))
unfolding without
Distinct-without a [] d = (tt, omega arith)
Distinct-without a (x ∷ l) d = elim (Bool-cases (a == x)) [
  | inl t ↦ let same = without-new a l (ground (arith, ==→≡ a x)) in rw (t, same) (d.1, omega arith)
  | inr f ↦
      let rest = Distinct-without a l d.1 in
      rw f ((ground (arith, has-without a x l), rest.0), omega (arith, rest.1))
]

-- Numbers below n, each at most once, are n at most.
pub length_of_Distinct :
    (n : ℕ) (l : List ℕ) → Distinct l → ((x : ℕ) → has x l ≡ true → x < n) → length l ≤ n
length_of_Distinct zero [] d h = omega arith
length_of_Distinct zero (x ∷ l) d h = absurd (omega (arith, h x (ground (arith, ==_refl x))))
length_of_Distinct (suc n) l d h =
    let (d', shorter) = Distinct-without n l d in
    let rest =
      length_of_Distinct n (without n l) d' λ x k. ground (arith, has-without n x l, h x) in
    omega (arith, rest, shorter)

-- The edges of a walk that do not go to a greater node.
abbrev pub backs : List ℕ → ℕ
backs [] = 0
backs (j ∷ []) = 0
backs (j ∷ p ∷ l) = (if ltb p j then 0 else 1) + backs (p ∷ l)

pub backs-lt-length : (j : ℕ) (l : List ℕ) → backs (j ∷ l) < length (j ∷ l)
backs-lt-length j [] = omega arith
backs-lt-length j (p ∷ l) = ground (arith, backs-lt-length p l)

module _ (preds : ℕ → List ℕ) where
  abbrev pub IsWalk : List ℕ → Type 0
  IsWalk [] = ⊥
  IsWalk (j ∷ []) = j ≡ 0
  IsWalk (j ∷ p ∷ l) = (has p (preds j) ≡ true) × IsWalk (p ∷ l)

  -- Every walk from the entry to j visits x.
  unfoldable pub Dominates : ℕ → ℕ → Type 0
  Dominates x j = (l : List ℕ) → IsWalk (j ∷ l) → has x (j ∷ l) ≡ true

  -- A walk that visits j ends, up to there, in j.
  pub cut :
      (j : ℕ) (l : List ℕ)
      → IsWalk l
      → has j l ≡ true
      → (m : List ℕ) × IsWalk (j ∷ m)
        × ((x : ℕ) → has x l ≡ false → has x (j ∷ m) ≡ false)
        × (Distinct l → Distinct (j ∷ m))
        × (backs (j ∷ m) ≤ backs l)
  cut j [] w h = cc
  cut j (i ∷ []) w h =
      ([], ground (arith, ==→≡ j i), λ x k. ground (arith, ==→≡ j i), λ d. d, omega arith)
  cut j (i ∷ p ∷ l) w h = elim (Bool-cases (j == i)) [
    | inl t ↦
        let e = ==→≡ j i t in
        (
          p ∷ l,
          rw e w,
          λ x k. rw e k,
          λ d. subst (λ z. Distinct (z ∷ p ∷ l)) (sym e) d,
          rw e (omega arith),
        )
    | inr f ↦
        let (m, v, keep, dist, fewer) = cut j (p ∷ l) w.1 (ground arith) in
        (m, v, λ x k. keep x (ground arith), λ d. dist d.1, ground (arith, fewer))
  ]

  -- A walk can be made to visit no node twice, by fewer nodes.
  pub shorten :
      (j : ℕ) (l : List ℕ)
      → IsWalk (j ∷ l)
      → (m : List ℕ) × IsWalk (j ∷ m)
        × Distinct (j ∷ m)
        × ((x : ℕ) → has x (j ∷ l) ≡ false → has x (j ∷ m) ≡ false)
  shorten j [] w = ([], w, (refl, tt), λ x h. h)
  shorten j (p ∷ l) w =
      let (m, v, d, keep) = shorten p l w.1 in
      elim (Bool-cases (has j (p ∷ m))) [
        | inl t ↦
            let (k, u, keep', d', _) = cut j (p ∷ m) v t in
            (k, u, d' d, λ x h. keep' x (keep x (ground arith)))
        | inr f ↦ (p ∷ m, (w.0, v), (f, d), λ x h. ground (arith, keep x))
      ]
