-- ===== src/DefUse/Uses.antt =====
-- The list of a definition's uses: looking a use up, and removing it.
use pliron.Prelude.{
  ℕ, suc, ◌+◌, ◌<◌, ◌≡◌, refl, sym, ap, Bool, true, false, Option, none, some, List, [], ◌∷◌, arith,
  Bool-cases, inl, inr,
}
use pliron.SmallTable.Vec.{get_elem?}
use pliron.DefUse.{Use, same_use, has_use_of, use_index, without_use}
use pliron.DefUse.Count.{one_if, count, count-swap_remove}

abbrev pub or_empty : {A : Type 0} → Option (List A) → List A
or_empty none = []
or_empty (some l) = l

pub same_use→≡ : (u v : Use) → same_use u v ≡ true → u ≡ v
same_use→≡ u v h = ground arith

pub has_use_of-absent :
    (us : List Use) (u : Use) → count (same_use u) us ≡ 0 → has_use_of us u ≡ false
unfolding has_use_of
has_use_of-absent [] u h = refl
has_use_of-absent (x ∷ us) u h = elim (Bool-cases (same_use u x)) [
  | inl t ↦ absurd (omega (arith, ap one_if t))
  | inr f ↦ rw f (has_use_of-absent us u (omega arith))
]

pub has_use_of-present :
    (us : List Use) (u : Use) → 0 < count (same_use u) us → has_use_of us u ≡ true
unfolding has_use_of
has_use_of-present [] u h = absurd (omega arith)
has_use_of-present (x ∷ us) u h = elim (Bool-cases (same_use u x)) [
  | inl t ↦ rw t refl
  | inr f ↦ rw f (has_use_of-present us u (omega (arith, ap one_if f)))
]

use_index-get_elem? :
    (us : List Use) (u : Use)
    → 0 < count (same_use u) us
    → (i : ℕ) × (use_index us u ≡ some i) × (get_elem? us i ≡ some u)
unfolding use_index
use_index-get_elem? [] u h = absurd (omega arith)
use_index-get_elem? (x ∷ us) u h = elim (Bool-cases (same_use u x)) [
  | inl t ↦ (0, rw t refl, ap some (sym (same_use→≡ u x t)))
  | inr f ↦
      let (i, at, there) = use_index-get_elem? us u (omega (arith, ap one_if f)) in
      (suc i, rw (f, at) refl, there)
]

-- One fewer of the use, and of nothing else.
pub count-without_use :
    (q : Use → Bool) (us : List Use) (u : Use)
    → 0 < count (same_use u) us
    → count q (without_use us u) + one_if (q u) ≡ count q us
unfolding without_use
count-without_use q us u h =
    let (i, at, there) = use_index-get_elem? us u h in
    rw (without_use, at) (count-swap_remove q us i u there)
