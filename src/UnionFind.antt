-- ===== src/UnionFind.antt =====
-- src/utils/union_find.rs: disjoint sets with path compression and union by size. The elements are
-- numbers: the code uses no more of them than their equality. A hash map is the function that
-- `get` computes.
pub mod Represents
pub mod Find
pub mod Union
pub mod Merge
mod Examples
use pliron.Prelude.{
  ℕ, zero, suc, Bool, true, false, Option, none, some, List, [], ◌∷◌, ◌++◌, ◌==◌, leb,
  if◌then◌else◌, ◌>>=◌, length,
}

pub record UnionFind : Type 0 where
  pub parent : ℕ → Option ℕ
  pub members : ℕ → Option (List ℕ)

abbrev pub default : UnionFind
default = record { parent = λ _. none; members = λ _. none }

-- `HMap::insert` and `HMap::remove`
abbrev pub insert {ℓ} : {V : Type ℓ} → (ℕ → Option V) → ℕ → V → ℕ → Option V
insert m k v a = if a == k then some v else m a

abbrev pub remove {ℓ} : {V : Type ℓ} → (ℕ → Option V) → ℕ → ℕ → Option V
remove m k a = if a == k then none else m a

-- The recursion of `find` runs on fuel; `none` is out of fuel.
unfoldable pub find : ℕ → UnionFind → ℕ → Option (ℕ × UnionFind)
find zero s v = none
find (suc fuel) s v = elim (s.parent v) [
  | none ↦
      some (v, record s { parent = insert s.parent v v; members = insert s.members v (v ∷ []) })
  | some p ↦ elim (p == v) [
    | true ↦ some (v, s)
    | false ↦ do
      (root, s') ← find fuel s p
      some (root, record s' { parent = insert s'.parent v root })
  ]
]

-- The end of `union`: the members of `small` go to `big`.
unfoldable pub attach : UnionFind → (big small : ℕ) → Option UnionFind
attach s big small = do
  small_members ← s.members small
  big_members ← remove s.members small big
  some (record {
    parent = insert s.parent small big;
    members = insert (remove s.members small) big (big_members ++ small_members);
  })

-- `none` is out of fuel, or the panic of a root with no members.
unfoldable pub union : ℕ → UnionFind → (a b : ℕ) → Option UnionFind
union fuel s a b = do
  (ra, s) ← find fuel s a
  (rb, s) ← find fuel s b
  if ra == rb then some s else do
    ms ← s.members ra
    ms' ← s.members rb
    if leb (length ms') (length ms) then attach s ra rb else attach s rb ra

unfoldable pub in_same_set : ℕ → UnionFind → (a b : ℕ) → Option (Bool × UnionFind)
in_same_set fuel s a b = do (ra, s) ← find fuel s a; (rb, s) ← find fuel s b; some (ra == rb, s)

unfoldable pub set_members : ℕ → UnionFind → ℕ → Option (List ℕ × UnionFind)
set_members fuel s v = do (root, s) ← find fuel s v; ms ← s.members root; some (ms, s)
