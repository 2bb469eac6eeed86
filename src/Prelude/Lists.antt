-- ===== src/Prelude/Lists.antt =====
-- Lists of numbers: lengths, membership as a test, and distinctness.
use Prim.Native.Nat.{ℕ, suc, ◌+◌}
use mathlib.Core.Bool.{Bool, true, false, ◌||◌}
use mathlib.Core.List.{List, [], ◌∷◌, ◌++◌}
use mathlib.Core.Path.{◌≡◌, refl}
use native.Mathlib.Omega.{arith}
use pliron.Prelude.Tests.{◌==◌}

module _ {ℓ} {A : Type ℓ} where
  abbrev pub length : List A → ℕ
  length [] = 0
  length (x ∷ xs) = suc (length xs)

  pub length-append : (xs ys : List A) → length (xs ++ ys) ≡ length xs + length ys
  length-append [] ys = omega arith
  length-append (x ∷ xs) ys = omega (arith, length-append xs ys)

abbrev pub has : ℕ → List ℕ → Bool
has a [] = false
has a (x ∷ xs) = (a == x) || has a xs

abbrev pub Distinct : List ℕ → Type 0
Distinct [] = Unit
Distinct (x ∷ xs) = (has x xs ≡ false) × Distinct xs

pub has-append : (a : ℕ) (xs ys : List ℕ) → has a (xs ++ ys) ≡ (has a xs || has a ys)
has-append a [] ys = refl
has-append a (x ∷ xs) ys = ground (arith, has-append a xs ys)

pub Distinct-append :
    (xs ys : List ℕ)
    → Distinct (xs ++ ys)
    → Distinct xs × Distinct ys × ((a : ℕ) → has a xs ≡ true → has a ys ≡ false)
Distinct-append [] ys d = (tt, d, λ a h. cc)
Distinct-append (x ∷ xs) ys d =
    let rest = Distinct-append xs ys d.1 in
    (
      (ground (arith, has-append x xs ys), rest.0),
      rest.1,
      λ a h. ground (arith, rest.2 a, has-append x xs ys),
    )

pub append-Distinct :
    (xs ys : List ℕ)
    → Distinct xs
    → Distinct ys
    → ((a : ℕ) → has a xs ≡ true → has a ys ≡ false)
    → Distinct (xs ++ ys)
append-Distinct [] ys d e apart = e
append-Distinct (x ∷ xs) ys d e apart = (
  ground (arith, has-append x xs ys, apart x),
  append-Distinct xs ys d.1 e λ a h. ground (arith, apart a),
)
