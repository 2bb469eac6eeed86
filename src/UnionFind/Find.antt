-- ===== src/UnionFind/Find.antt =====
-- `find` returns the representative; it adds the element and shortens chains, and changes no set.
use pliron.Prelude.{
  ℕ, zero, suc, ◌<◌, ◌≡◌, refl, sym, ap, ◌∙◌, true, false, ◌||◌, Option, none, some, ◌⊎◌, List, [],
  ◌∷◌, arith, ◌==◌, ==→≡, ==_refl, ==_false_sym, Bool-cases, inl, inr, Returns, returns,
  Returns-bind,
}
use pliron.UnionFind.{UnionFind, find, insert}
use pliron.UnionFind.Represents.{Represents, Members, Members-parent, seen, rep-rep, parent-seen}

-- The outcome of `find v`.
pub record Found (s : UnionFind) (rep depth : ℕ → ℕ) (v r : ℕ) (s' : UnionFind) : Type 0 where
  pub is_rep : r ≡ rep v
  pub still : Represents s' rep depth
  pub sees : (a : ℕ) → seen s' a ≡ (seen s a || (a == v))

-- A new element.
abbrev added : UnionFind → ℕ → UnionFind
added s v = record s { parent = insert s.parent v v; members = insert s.members v (v ∷ []) }

-- The write of path compression.
abbrev compressed : UnionFind → (v r : ℕ) → UnionFind
compressed s v r = record s { parent = insert s.parent v r }

module _ {s : UnionFind} {rep depth : ℕ → ℕ} (w : Represents s rep depth) (v : ℕ)
    (new : s.parent v ≡ none) where
  added-seen : (a : ℕ) → seen (added s v) a ≡ (seen s a || (a == v))
  added-seen a = ground (arith, ==→≡ a v)

  rep-ne : (a : ℕ) → seen s a ≡ true → (rep a == v) ≡ false
  rep-ne a h = let r = w.rep_root a h in ground (arith, ==→≡ (rep a) v)

  added-root : (a : ℕ) → (added s v).parent a ≡ some a → rep a ≡ a
  added-root a h = let u = w.unseen v new in ground (arith, ==→≡ a v, w.root a)

  added-step :
      (a p : ℕ)
      → (added s v).parent a ≡ some p
      → (p == a) ≡ false
      → (rep p ≡ rep a) × (depth p < depth a)
  added-step a p h ne = w.step a p (ground (arith, ==→≡ a v)) ne

  added-rep_root : (a : ℕ) → seen (added s v) a ≡ true → (added s v).parent (rep a) ≡ some (rep a)
  added-rep_root a h = elim (Bool-cases (a == v)) [
    | inl e ↦ let u = w.unseen v new in ground (arith, ==→≡ a v, ==_refl v)
    | inr e ↦ let r = w.rep_root a (ground arith) in ground (arith, ==→≡ (rep a) v)
  ]

  new-Members : Members (added s v) rep depth v (v ∷ [])
  new-Members = record {
    listed = rw ==_refl refl;
    complete = λ a. elim (Bool-cases (a == v)) [
      | inl e ↦ let u = w.unseen v new in ground (arith, ==→≡ a v, ==_refl v)
      | inr e ↦ ground (arith, rep-ne a)
    ];
    shallow = λ a h k. elim (Bool-cases (a == v)) [
      | inl e ↦
          let u = w.unseen v new in
          let d : depth a ≡ 0 = w.flat a (ground (arith, ==→≡ a v)) in rw d (omega arith)
      | inr e ↦ ground (arith, rep-ne a, ==_refl v)
    ];
  }

  old-Members :
      (r : ℕ) (ms : List ℕ)
      → (r == v) ≡ false
      → Members s rep depth r ms
      → Members (added s v) rep depth r ms
  old-Members r ms ne m = record {
    listed = rw ne m.listed;
    complete = λ a. elim (Bool-cases (a == v)) [
      | inl e ↦ let u = w.unseen v new in ground (arith, ==→≡ a v, m.complete a, ==_false_sym r v)
      | inr e ↦ ground (arith, m.complete a)
    ];
    shallow = λ a h k. elim (Bool-cases (a == v)) [
      | inl e ↦ let u = w.unseen v new in ground (arith, ==→≡ a v, ==_refl v)
      | inr e ↦ m.shallow a (ground arith) k
    ];
  }

  added-Members :
      (r : ℕ) → (added s v).parent r ≡ some r → (ms : List ℕ) × Members (added s v) rep depth r ms
  added-Members r h = elim (Bool-cases (r == v)) [
    | inl e ↦ (v ∷ [], rw (==→≡ r v e) new-Members)
    | inr e ↦ let (ms, m) = w.members r (ground arith) in (ms, old-Members r ms e m)
  ]

  added-Represents : Represents (added s v) rep depth
  added-Represents = record {
    unseen = λ a h. w.unseen a (ground arith);
    root = added-root;
    step = added-step;
    rep_root = added-rep_root;
    flat = w.flat;
    members = added-Members;
  }

module _ {s : UnionFind} {rep depth : ℕ → ℕ} (w : Represents s rep depth) (v : ℕ)
    (old : seen s v ≡ true) (deep : depth (rep v) < depth v) where
  compressed-seen : (a : ℕ) → seen (compressed s v (rep v)) a ≡ seen s a
  compressed-seen a = ground (arith, ==→≡ a v)

  compressed-Represents : Represents (compressed s v (rep v)) rep depth
  compressed-Represents = record {
    unseen = λ a h. w.unseen a (ground arith);
    root = λ a h. ground (arith, ==→≡ a v, w.root a);
    step = λ a p h ne. elim (Bool-cases (a == v)) [
      | inl e ↦ ground (arith, ==→≡ a v, rep-rep w v)
      | inr e ↦ w.step a p (ground arith) ne
    ];
    rep_root = λ a h.
        let r = w.rep_root a (ground (arith, compressed-seen a)) in
        elim (Bool-cases (rep a == v)) [
          | inl e ↦ rw e (ap some (ap rep (sym (==→≡ (rep a) v e)) ∙ rep-rep w a))
          | inr e ↦ rw e r
        ];
    flat = w.flat;
    members = λ r h.
        let (ms, m) = w.members r (ground (arith, ==→≡ r v)) in
        (ms, Members-parent m refl compressed-seen);
  }

abbrev pub FoundBy : UnionFind → (rep depth : ℕ → ℕ) → ℕ → ℕ × UnionFind → Type 0
FoundBy s rep depth v (r, s') = Found s rep depth v r s'

module _ {s : UnionFind} {rep depth : ℕ → ℕ} (w : Represents s rep depth) (v p : ℕ)
    (e : s.parent v ≡ some p) (other : (p == v) ≡ false) where
  find-compress :
      {r : ℕ} {s' : UnionFind}
      → Found s rep depth p r s'
      → Found s rep depth v r (compressed s' v r)
  find-compress {r} {s'} fd =
      let (same, less) = w.step v p e other in
      let r-rep : r ≡ rep v = fd.is_rep ∙ same in
      let old : seen s' v ≡ true = ground (arith, fd.sees v) in
      let d : depth (rep v) ≡ 0 = w.flat (rep v) (rep-rep w v) in
      rw r-rep (record {
        is_rep = refl;
        still = compressed-Represents fd.still v old (omega arith);
        sees = λ a.
            compressed-seen fd.still v old (omega arith) a
            ∙ ground (arith, fd.sees a, parent-seen w v p, ==→≡ a v, ==→≡ a p);
      })

  find-step :
      (fuel : ℕ)
      → Returns (FoundBy s rep depth p) (find fuel s p)
      → Returns (FoundBy s rep depth v) (find (suc fuel) s v)
  unfolding find
  find-step fuel ih = rw (e, find, other) (Returns-bind ih λ (r, s') fd. returns (find-compress fd))

find-stop :
    (fuel : ℕ) {s : UnionFind} {rep depth : ℕ → ℕ} (v : ℕ)
    → Represents s rep depth
    → (s.parent v ≡ none) ⊎ (s.parent v ≡ some v)
    → Returns (FoundBy s rep depth v) (find (suc fuel) s v)
unfolding find
find-stop fuel v w (inl e) =
    rw (e, find)
      (returns (record {
        is_rep = sym (w.unseen v e);
        still = added-Represents w v e;
        sees = added-seen w v e;
      }))
find-stop fuel v w (inr e) =
    rw (e, find, ==_refl v)
      (returns
        (record { is_rep = sym (w.root v e); still = w; sees = λ a. ground (arith, ==→≡ a v) }))

-- How the parent of an element stands to it.
parent_cases :
    (s : UnionFind) (v : ℕ)
    → ((s.parent v ≡ none) ⊎ (s.parent v ≡ some v))
      ⊎ ((p : ℕ) × (s.parent v ≡ some p) × ((p == v) ≡ false))
parent_cases s v = go (s.parent v) refl
  where
    go :
        (o : Option ℕ)
        → s.parent v ≡ o
        → ((s.parent v ≡ none) ⊎ (s.parent v ≡ some v))
          ⊎ ((p : ℕ) × (s.parent v ≡ some p) × ((p == v) ≡ false))
    go none e = inl (inl e)
    go (some p) e = elim (Bool-cases (p == v)) [
      | inl same ↦ inl (inr (e ∙ ap some (==→≡ p v same)))
      | inr other ↦ inr (p, e, other)
    ]

-- With more fuel than the depth, `find` returns the representative.
pub find-Found :
    (fuel : ℕ) (s : UnionFind) (rep depth : ℕ → ℕ) (v : ℕ)
    → Represents s rep depth
    → depth v < fuel
    → Returns (FoundBy s rep depth v) (find fuel s v)
find-Found zero s rep depth v w f = absurd (omega arith)
find-Found (suc fuel) s rep depth v w f = elim (parent_cases s v) [
  | inl stop ↦ find-stop fuel v w stop
  | inr (p, e, other) ↦
      let st = w.step v p e other in
      find-step w v p e other fuel (find-Found fuel s rep depth p w (omega arith))
]
