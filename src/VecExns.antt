-- ===== src/VecExns.antt =====
-- src/utils/vec_exns.rs: the extensions of vectors and iterators. Elements that are compared are
-- numbers; the methods that compare nothing are generic.
pub mod Laws
mod Examples
use pliron.Prelude.{
  ℕ, zero, suc, ◌+◌, ◌-◌, Bool, Option, none, some, List, [], ◌∷◌, ◌++◌, ltb, if◌then◌else◌, length,
}
use pliron.SmallTable.Set.{index_of}

module _ {A : Type 0} where
  unfoldable pub push_back : List A → A → List A × ℕ
  push_back v t = (v ++ t ∷ [], length (v ++ t ∷ []) - 1)

  unfoldable pub push_back_with : List A → (ℕ → A) → List A × ℕ
  push_back_with v ctor = (v ++ ctor (length v) ∷ [], length v)

  -- `for i in start..start + count { v.push(initf(i)) }`
  unfoldable pub push_range : List A → (start count : ℕ) → (ℕ → A) → List A
  push_range v start zero initf = v
  push_range v start (suc count) initf = push_range (v ++ initf start ∷ []) (suc start) count initf

  unfoldable pub new_init : ℕ → (ℕ → A) → List A
  new_init size initf = push_range [] 0 size initf

  unfoldable pub grow_to : List A → ℕ → (ℕ → A) → List A
  grow_to v new_size initf =
      if ltb (length v) new_size then push_range v (length v) (new_size - length v) initf else v

unfoldable pub push_unique : List ℕ → ℕ → List ℕ × ℕ
push_unique v t = elim (index_of t v) [ some i ↦ (v, i) | none ↦ push_back v t ]

-- The loop of `collect_unique`.
unfoldable pub collect_into : List ℕ → List ℕ → List ℕ
collect_into collected [] = collected
collect_into collected (item ∷ items) = collect_into (push_unique collected item).0 items

unfoldable pub collect_unique : List ℕ → List ℕ
collect_unique items = collect_into [] items
