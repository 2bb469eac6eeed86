-- ===== src/UnionFind/Examples.antt =====
-- The union-find theorems at small structures, and runs of the code.
use pliron.Prelude.{ℕ, ◌≡◌, refl, none, some, [], ◌∷◌, arith, ◌==◌, ◌>>=◌, if◌then◌else◌, Returns}
use mathlib.Core.Option
use pliron.UnionFind.{UnionFind, default, find, union, attach, set_members}
use pliron.UnionFind.Represents.{Represents}
use pliron.UnionFind.Find.{FoundBy}
use pliron.UnionFind.Merge.{United, union-United, find-logarithmic}

-- Elements 1 and 2 in one set.
abbrev pair : UnionFind
pair = record {
  parent = λ a. if a == 2 then some 1 else if a == 1 then some 1 else none;
  members = λ a. if a == 1 then some (1 ∷ 2 ∷ []) else none;
}

abbrev rep : ℕ → ℕ
rep a = if a == 2 then 1 else a

abbrev depth : ℕ → ℕ
depth a = if a == 2 then 1 else 0

pair-Represents : Represents pair rep depth
pair-Represents = record {
  unseen = λ v h. ground arith;
  root = λ v h. ground arith;
  step = λ v p h k. ground arith;
  rep_root = λ v h. ground arith;
  flat = λ v h. ground arith;
  members = λ r h. (
    1 ∷ 2 ∷ [],
    record { listed = ground arith; complete = λ a. ground arith; shallow = λ a k e. ground arith },
  );
}

union-United_example : Returns (United pair rep 2 3) (union 2 pair 2 3)
union-United_example = union-United 2 pair rep depth 2 3 pair-Represents (omega arith) (omega arith)

find-logarithmic_example : Returns (FoundBy pair rep depth 2) (find 2 pair 2)
find-logarithmic_example =
    find-logarithmic 2 pair rep depth 2 (1 ∷ 2 ∷ []) pair-Represents refl refl (omega arith)

-- `union(1, 2); union(3, 4); union(2, 3)`, and the set of 4.
chain_run :
    Option.map
      (λ r. r.0)
      (union 2 default 1 2 >>= λ s. union 2 s 3 4 >>= λ s. union 2 s 2 3 >>= λ s. set_members 3 s 4)
    ≡ some (1 ∷ 2 ∷ 3 ∷ 4 ∷ [])
unfolding union find attach set_members
chain_run = refl
