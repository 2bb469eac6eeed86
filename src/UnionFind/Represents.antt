-- ===== src/UnionFind/Represents.antt =====
-- What a union-find structure stands for: a representative for each element.
use pliron.Prelude.{
  ℕ, ◌<◌, ◌≤◌, ◌^◌, ◌≡◌, Bool, true, false, ◌&&◌, none, some, List, arith, ◌==◌, ==→≡, is_some, has,
  length, Bool-cases, inl, inr,
}
use pliron.UnionFind.{UnionFind}

abbrev pub seen : UnionFind → ℕ → Bool
seen s v = is_some (s.parent v)

-- `ms` lists the seen elements that `r` represents, and their depths are at most logarithmic.
pub record Members (s : UnionFind) (rep depth : ℕ → ℕ) (r : ℕ) (ms : List ℕ) : Type 0 where
  pub listed : s.members r ≡ some ms
  pub complete : (a : ℕ) → has a ms ≡ (seen s a && (rep a == r))
  pub shallow : (a : ℕ) → seen s a ≡ true → rep a ≡ r → 2 ^ depth a ≤ length ms

-- `rep` is the representative of each element, and no parent chain from `v` is longer than
-- `depth v`.
pub record Represents (s : UnionFind) (rep depth : ℕ → ℕ) : Type 0 where
  pub unseen : (v : ℕ) → s.parent v ≡ none → rep v ≡ v
  pub root : (v : ℕ) → s.parent v ≡ some v → rep v ≡ v
  pub step :
      (v p : ℕ) → s.parent v ≡ some p → (p == v) ≡ false → (rep p ≡ rep v) × (depth p < depth v)
  pub rep_root : (v : ℕ) → seen s v ≡ true → s.parent (rep v) ≡ some (rep v)
  pub flat : (v : ℕ) → rep v ≡ v → depth v ≡ 0
  pub members : (r : ℕ) → s.parent r ≡ some r → (ms : List ℕ) × Members s rep depth r ms

module _ {s : UnionFind} {rep depth : ℕ → ℕ} (w : Represents s rep depth) where
  pub rep-rep : (v : ℕ) → rep (rep v) ≡ rep v
  rep-rep v = elim (Bool-cases (seen s v)) [
    | inl e ↦ w.root (rep v) (w.rep_root v e)
    | inr e ↦ let u = w.unseen v (ground arith) in ground arith
  ]

  pub parent-seen : (v p : ℕ) → s.parent v ≡ some p → seen s p ≡ true
  parent-seen v p e = elim (Bool-cases (p == v)) [
    | inl same ↦ ground (arith, ==→≡ p v)
    | inr other ↦ elim (Bool-cases (seen s p)) [
      | inl h ↦ h
      | inr h ↦
          let st = w.step v p e other in
          let u = w.unseen p (ground arith) in let r = w.rep_root v (ground arith) in ground arith
    ]
  ]

-- The members and depths do not depend on the parents but through `seen`.
pub Members-parent :
    {s s' : UnionFind} {rep depth : ℕ → ℕ} {r : ℕ} {ms : List ℕ}
    → Members s rep depth r ms
    → s'.members r ≡ s.members r
    → ((a : ℕ) → seen s' a ≡ seen s a)
    → Members s' rep depth r ms
Members-parent m e same = record {
  listed = ground (arith, m.listed);
  complete = λ a. ground (arith, m.complete a, same a);
  shallow = λ a h k. m.shallow a (ground (arith, same a)) k;
}
