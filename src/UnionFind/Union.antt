-- ===== src/UnionFind/Union.antt =====
-- `union` merges exactly the two sets, and union by size keeps the chains logarithmic.
use native.Mathlib.Numerals.{towards_suc}
use pliron.Prelude.{
  ℕ, ◌+◌, ◌<◌, ◌≤◌, ◌^◌, ◌≡◌, refl, sym, ◌∙◌, true, false, none, some, List, ◌++◌, arith, ◌==◌,
  ==→≡, ==_refl, ==_false_sym, is_some, has-append, length, length-append, Bool-cases, inl, inr,
  if◌then◌else◌,
}
use pliron.UnionFind.{UnionFind, attach, insert, remove}
use pliron.UnionFind.Represents.{Represents, Members, seen}

abbrev pub merged : (ℕ → ℕ) → (big small : ℕ) → ℕ → ℕ
merged rep big small x = if rep x == small then big else rep x

abbrev pub deeper : (rep depth : ℕ → ℕ) → (small : ℕ) → ℕ → ℕ
deeper rep depth small x = if rep x == small then depth x + 1 else depth x

abbrev pub attached : UnionFind → (big small : ℕ) → (bs ss : List ℕ) → UnionFind
attached s big small bs ss = record {
  parent = insert s.parent small big;
  members = insert (remove s.members small) big (bs ++ ss);
}

two_pow-suc : (d : ℕ) → 2 ^ (d + 1) ≡ 2 ^ d + 2 ^ d
two_pow-suc d = simp towards_suc (omega arith)

module _ {s : UnionFind} {rep depth : ℕ → ℕ} (w : Represents s rep depth) {big small : ℕ}
    (pb : s.parent big ≡ some big) (ps : s.parent small ≡ some small)
    (ne : (big == small) ≡ false) where
  root_big : rep big ≡ big
  root_big = w.root big pb

  root_small : rep small ≡ small
  root_small = w.root small ps

  merged-root : (v : ℕ) → (insert s.parent small big) v ≡ some v → merged rep big small v ≡ v
  merged-root v h = let b = root_big in ground (arith, ==→≡ v small, w.root v, ==_refl small)

  merged-unseen : (v : ℕ) → insert s.parent small big v ≡ none → merged rep big small v ≡ v
  merged-unseen v h = ground (arith, ==→≡ v small, w.unseen v)

  merged-step :
      (v p : ℕ)
      → insert s.parent small big v ≡ some p
      → (p == v) ≡ false
      → (merged rep big small p ≡ merged rep big small v)
        × (deeper rep depth small p < deeper rep depth small v)
  merged-step v p h k = elim (Bool-cases (v == small)) [
    | inl e ↦
        let b = root_big in
        let r = root_small in
        let db = w.flat big root_big in ground (arith, ==→≡ v small, ==_refl small)
    | inr e ↦ let (r, d) = w.step v p (ground arith) k in ground arith
  ]

  merged-rep_root :
      (v : ℕ)
      → is_some (insert s.parent small big v) ≡ true
      → insert s.parent small big (merged rep big small v) ≡ some (merged rep big small v)
  merged-rep_root v h =
      let r : s.parent (rep v) ≡ some (rep v) = w.rep_root v (ground (arith, ==→≡ v small)) in
      elim (Bool-cases (rep v == small)) [ inl e ↦ rw (e, ne) pb | inr e ↦ rw (e, e) r ]

  merged-flat : (v : ℕ) → merged rep big small v ≡ v → deeper rep depth small v ≡ 0
  merged-flat v h = let b = root_big in ground (arith, w.flat v, ==→≡ (rep v) small)

  module _ {bs ss : List ℕ} (mb : Members s rep depth big bs) (ms : Members s rep depth small ss)
      (le : length ss ≤ length bs) where
    pub merged-seen : (a : ℕ) → seen (attached s big small bs ss) a ≡ seen s a
    merged-seen a = ground (arith, ==→≡ a small)

    Members-big :
        Members
          (attached s big small bs ss)
          (merged rep big small)
          (deeper rep depth small)
          big
          (bs ++ ss)
    Members-big = record {
      listed = rw ==_refl refl;
      complete = λ a.
          has-append a bs ss
          ∙ ground (arith, mb.complete a, ms.complete a, merged-seen a, ==_refl big);
      shallow = λ a h k. elim (Bool-cases (rep a == small)) [
        | inl e ↦
            let small_bound = ms.shallow a (sym (merged-seen a) ∙ h) (==→≡ (rep a) small e) in
            rw e (omega (arith, two_pow-suc (depth a), length-append bs ss))
        | inr e ↦
            let big_bound = mb.shallow a (sym (merged-seen a) ∙ h) (rw e at k) in
            rw e (omega (arith, length-append bs ss))
      ];
    }

    Members-other :
        (r : ℕ) (rs : List ℕ)
        → (r == big) ≡ false
        → (r == small) ≡ false
        → Members s rep depth r rs
        → Members (attached s big small bs ss) (merged rep big small) (deeper rep depth small) r rs
    Members-other r rs nb ns m = record {
      listed = rw (nb, ns) m.listed;
      complete = λ a. ground (
        arith,
        m.complete a,
        merged-seen a,
        ==→≡ (rep a) small,
        ==_false_sym r big,
        ==_false_sym r small,
      );
      shallow = λ a h k. elim (Bool-cases (rep a == small)) [
        | inl e ↦ let k' : big ≡ r = rw e at k in ground (arith, ==_refl r)
        | inr e ↦ rw e (m.shallow a (sym (merged-seen a) ∙ h) (rw e at k))
      ];
    }

    pub attached-Represents :
        Represents (attached s big small bs ss) (merged rep big small) (deeper rep depth small)
    attached-Represents = record {
      unseen = merged-unseen;
      root = merged-root;
      step = merged-step;
      rep_root = merged-rep_root;
      flat = merged-flat;
      members = λ r h. elim (Bool-cases (r == big)) [
        | inl e ↦ (bs ++ ss, rw (==→≡ r big e) Members-big)
        | inr e ↦ elim (Bool-cases (r == small)) [
          | inl e' ↦ absurd (small_absurd r h e')
          | inr e' ↦ let (rs, m) = w.members r (rw e' at h) in (rs, Members-other r rs e e' m)
        ]
      ];
    }
      where
        small_absurd : (r : ℕ) → insert s.parent small big r ≡ some r → (r == small) ≡ true → ⊥
        small_absurd r h e = ground (arith, ==→≡ r small, ==_refl big)

    pub attach_lem : attach s big small ≡ some (attached s big small bs ss)
    unfolding attach
    attach_lem = rw (ms.listed, ne, mb.listed)
