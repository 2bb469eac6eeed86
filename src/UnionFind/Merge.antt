-- ===== src/UnionFind/Merge.antt =====
-- What `union`, `in_same_set` and `set_members` answer.
use native.Mathlib.Nat.{pow-le-pow_right}
use native.Mathlib.Decide.{dec_lt}
use pliron.Prelude.{
  ℕ, ◌<◌, ◌≤◌, ◌^◌, ◌≡◌, refl, ap, ◌∙◌, Bool, true, false, ◌&&◌, ◌||◌, some, List, arith, ◌==◌,
  ==→≡, ==_refl, ==_false_sym, leb, has, length, Bool-cases, inl, inr, Returns, returns,
  Returns-bind,
}
use pliron.UnionFind.{UnionFind, default, find, union, attach, in_same_set, set_members}
use pliron.UnionFind.Represents.{Represents, Members, seen}
use pliron.UnionFind.Find.{Found, FoundBy, find-Found}
use pliron.UnionFind.Union.{merged, deeper, attached-Represents, merged-seen, attach_lem}

-- The new structure puts two elements together exactly if the old one did, or they stood in the
-- two sets that were merged.
pub record United (s : UnionFind) (rep : ℕ → ℕ) (a b : ℕ) (s' : UnionFind) : Type 0 where
  pub rep' : ℕ → ℕ
  pub depth' : ℕ → ℕ
  pub represents : Represents s' rep' depth'
  pub merges :
      (x y : ℕ)
      → (rep' x == rep' y) ≡ (
          (rep x == rep y)
          || (((rep x == rep a) && (rep y == rep b)) || ((rep x == rep b) && (rep y == rep a))))
  pub sees : (x : ℕ) → seen s' x ≡ (seen s x || ((x == a) || (x == b)))

merges-same :
    (rep : ℕ → ℕ) (a b : ℕ)
    → (rep a == rep b) ≡ true
    → (x y : ℕ)
    → (rep x == rep y) ≡ (
        (rep x == rep y)
        || (((rep x == rep a) && (rep y == rep b)) || ((rep x == rep b) && (rep y == rep a))))
merges-same rep a b e x y = ground (arith, ==→≡ (rep a) (rep b))

merges-merged :
    (rep : ℕ → ℕ) (big small : ℕ)
    → (big == small) ≡ false
    → (x y : ℕ)
    → (merged rep big small x == merged rep big small y) ≡ (
        (rep x == rep y)
        || (((rep x == big) && (rep y == small)) || ((rep x == small) && (rep y == big))))
merges-merged rep big small ne x y = ground arith

merges-merged' :
    (rep : ℕ → ℕ) (big small : ℕ)
    → (big == small) ≡ false
    → (x y : ℕ)
    → (merged rep big small x == merged rep big small y) ≡ (
        (rep x == rep y)
        || (((rep x == small) && (rep y == big)) || ((rep x == big) && (rep y == small))))
merges-merged' rep big small ne x y = ground arith

-- Both elements were found.
record BothFound (s : UnionFind) (rep depth : ℕ → ℕ) (a b : ℕ) (s' : UnionFind) : Type 0 where
  still : Represents s' rep depth
  sees : (x : ℕ) → seen s' x ≡ (seen s x || ((x == a) || (x == b)))

abbrev BothFoundBy : UnionFind → (rep depth : ℕ → ℕ) → (a b : ℕ) → ℕ × ℕ × UnionFind → Type 0
BothFoundBy s rep depth a b (ra, rb, s') =
    (ra ≡ rep a) × (rb ≡ rep b) × BothFound s rep depth a b s'

module _ {s : UnionFind} {rep depth : ℕ → ℕ} (w : Represents s rep depth) where
  Found-Found :
      {a b ra rb : ℕ} {s1 s2 : UnionFind}
      → Found s rep depth a ra s1
      → Found s1 rep depth b rb s2
      → BothFound s rep depth a b s2
  Found-Found {a} {b} f g = record {
    still = g.still;
    sees = λ x. ground (arith, f.sees x, g.sees x);
  }

  module _ {a b : ℕ} {s2 : UnionFind} (bf : BothFound s rep depth a b s2) where
    seen_first : seen s2 a ≡ true
    seen_first = ground (arith, bf.sees a, ==_refl a)

    seen_second : seen s2 b ≡ true
    seen_second = ground (arith, bf.sees b, ==_refl b)

    root_first : s2.parent (rep a) ≡ some (rep a)
    root_first = bf.still.rep_root a seen_first

    root_second : s2.parent (rep b) ≡ some (rep b)
    root_second = bf.still.rep_root b seen_second

    United-same : (rep a == rep b) ≡ true → United s rep a b s2
    United-same e = record {
      rep' = rep;
      depth' = depth;
      represents = bf.still;
      merges = merges-same rep a b e;
      sees = bf.sees;
    }

    module _ {ms ms' : List ℕ} (m : Members s2 rep depth (rep a) ms)
        (m' : Members s2 rep depth (rep b) ms') (ne : (rep a == rep b) ≡ false) where
      attach_first : length ms' ≤ length ms → Returns (United s rep a b) (attach s2 (rep a) (rep b))
      attach_first le = rw (attach_lem bf.still root_first root_second ne m m' le) (
          returns (record {
            rep' = merged rep (rep a) (rep b);
            depth' = deeper rep depth (rep b);
            represents = attached-Represents bf.still root_first root_second ne m m' le;
            merges = merges-merged rep (rep a) (rep b) ne;
            sees = λ x. merged-seen bf.still root_first root_second ne m m' le x ∙ bf.sees x;
          }))

      attach_second :
          length ms ≤ length ms' → Returns (United s rep a b) (attach s2 (rep b) (rep a))
      attach_second le =
          let ne' = ==_false_sym (rep a) (rep b) ne in
          rw (attach_lem bf.still root_second root_first ne' m' m le) (
            returns (record {
              rep' = merged rep (rep b) (rep a);
              depth' = deeper rep depth (rep a);
              represents = attached-Represents bf.still root_second root_first ne' m' m le;
              merges = merges-merged' rep (rep b) (rep a) ne';
              sees = λ x. merged-seen bf.still root_second root_first ne' m' m le x ∙ bf.sees x;
            }))

-- `union` merges the two sets and no others.
pub union-United :
    (fuel : ℕ) (s : UnionFind) (rep depth : ℕ → ℕ) (a b : ℕ)
    → Represents s rep depth
    → depth a < fuel
    → depth b < fuel
    → Returns (United s rep a b) (union fuel s a b)
unfolding union
union-United fuel s rep depth a b w fa fb =
    Returns-bind (find-Found fuel s rep depth a w fa) λ (ra, s1) f.
      Returns-bind (find-Found fuel s1 rep depth b f.still fb) λ (rb, s2) g.
        let bf = Found-Found w f g in
        rw (f.is_rep, g.is_rep)
          (elim (Bool-cases (rep a == rep b)) [
            | inl e ↦ rw e (returns (United-same w bf e))
            | inr e ↦
                let (ms, m) = bf.still.members (rep a) (root_first w bf) in
                let (ms', m') = bf.still.members (rep b) (root_second w bf) in
                rw (e, m.listed, m'.listed)
                  (elim (Bool-cases (leb (length ms') (length ms))) [
                    | inl l ↦ rw l (attach_first w bf m m' e (ground arith))
                    | inr l ↦ rw l (attach_second w bf m m' e (ground arith))
                  ])
          ])

abbrev pub Same :
    (rep : ℕ → ℕ) → (a b : ℕ) → UnionFind → (rep depth : ℕ → ℕ) → Bool × UnionFind → Type 0
Same rep a b s rep' depth (answer, s') = (answer ≡ (rep a == rep b)) × Represents s' rep' depth

-- `in_same_set` tells whether the two have one representative, and changes no set.
in_same_set-rep :
    (fuel : ℕ) (s : UnionFind) (rep depth : ℕ → ℕ) (a b : ℕ)
    → Represents s rep depth
    → depth a < fuel
    → depth b < fuel
    → Returns (Same rep a b s rep depth) (in_same_set fuel s a b)
unfolding in_same_set
in_same_set-rep fuel s rep depth a b w fa fb =
    Returns-bind (find-Found fuel s rep depth a w fa) λ (ra, s1) f.
      Returns-bind (find-Found fuel s1 rep depth b f.still fb)
        λ (rb, s2) g. returns (rw (f.is_rep, g.is_rep) refl, g.still)

-- The list holds the seen elements of the set of `v`.
abbrev pub MembersOf : UnionFind → (rep depth : ℕ → ℕ) → ℕ → List ℕ × UnionFind → Type 0
MembersOf s rep depth v (ms, s') =
    ((x : ℕ) → has x ms ≡ ((seen s x || (x == v)) && (rep x == rep v))) × Represents s' rep depth

-- `set_members` lists the set of its argument.
set_members-MembersOf :
    (fuel : ℕ) (s : UnionFind) (rep depth : ℕ → ℕ) (v : ℕ)
    → Represents s rep depth
    → depth v < fuel
    → Returns (MembersOf s rep depth v) (set_members fuel s v)
unfolding set_members
set_members-MembersOf fuel s rep depth v w f =
    Returns-bind (find-Found fuel s rep depth v w f) λ (r, s1) fd.
      let root = fd.still.rep_root v (ground (arith, fd.sees v, ==_refl v)) in
      let (ms, m) = fd.still.members (rep v) root in
      rw (fd.is_rep, m.listed) (returns ((λ x. m.complete x ∙ rw (fd.sees x) refl), fd.still))

pow-lt : (d f : ℕ) → 2 ^ d < 2 ^ f → d < f
pow-lt d f h = elim (dec_lt d f) [
  | yes p ↦ p
  | no p ↦
      absurd (omega (arith, pow-le-pow_right {n = 2} (omega arith) {i = f} {j = d} (omega arith)))
]

-- Union by size: fuel whose power of two passes the size of the set is more than the depth.
pub depth-lt-fuel :
    (fuel : ℕ) (s : UnionFind) (rep depth : ℕ → ℕ) (v : ℕ) (ms : List ℕ)
    → Represents s rep depth
    → seen s v ≡ true
    → s.members (rep v) ≡ some ms
    → length ms < 2 ^ fuel
    → depth v < fuel
depth-lt-fuel fuel s rep depth v ms w h e lt =
    let (ms', m) = w.members (rep v) (w.rep_root v h) in
    let same : ms ≡ ms' = ground (arith, m.listed) in
    let bound = m.shallow v h refl in pow-lt (depth v) fuel (omega (arith, ap length same))

-- `find` on a set of `n` elements makes at most `log2 n + 1` calls.
pub find-logarithmic :
    (fuel : ℕ) (s : UnionFind) (rep depth : ℕ → ℕ) (v : ℕ) (ms : List ℕ)
    → Represents s rep depth
    → seen s v ≡ true
    → s.members (rep v) ≡ some ms
    → length ms < 2 ^ fuel
    → Returns (FoundBy s rep depth v) (find fuel s v)
find-logarithmic fuel s rep depth v ms w h e lt =
    find-Found fuel s rep depth v w (depth-lt-fuel fuel s rep depth v ms w h e lt)

-- In the empty structure every element is alone.
pub default-Represents : Represents default (λ v. v) (λ _. 0)
default-Represents = record {
  unseen = λ v h. refl;
  root = λ v h. refl;
  step = λ v p h k. cc;
  rep_root = λ v h. cc;
  flat = λ v h. refl;
  members = λ r h. cc;
}
