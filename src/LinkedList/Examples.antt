-- ===== src/LinkedList/Examples.antt =====
-- The list theorems at two small lists, and runs of the code.
use pliron.Prelude.{refl, none, some, List, [], ◌∷◌, arith, ◌==◌, ◌>>=◌, if◌then◌else◌, Returns}
use pliron.LinkedList.{Ptr, Context, insert_after, unlink, append_linked_list, iter}
use pliron.LinkedList.Chain.{IsList, IsFree, linked}
use pliron.LinkedList.Ops.{Becomes, insert_after-list}
use pliron.LinkedList.Unlink.{Unlinked, unlink-list}
use pliron.LinkedList.Append.{Moved, append_linked_list-list}
use pliron.LinkedList.Iterate.{front, back, drain, Drained, iter-drain}

-- Container 10 holds 1, 2 and 3, container 20 holds 5 and 6; 4 and 7 are free.
abbrev ctx : Context
ctx = record {
  nodes = λ a.
      if a == 1
      then some (linked 10 none (some 2))
      else if a == 2
      then some (linked 10 (some 1) (some 3))
      else if a == 3
      then some (linked 10 (some 2) none)
      else if a == 4
      then some (record { next = none; prev = none; container = none })
      else if a == 5
      then some (linked 20 none (some 6))
      else if a == 6
      then some (linked 20 (some 5) none)
      else if a == 7
      then some (record { next = none; prev = none; container = none })
      else none;
  containers = λ a.
      if a == 10
      then some (record { head = some 1; tail = some 3 })
      else if a == 20
      then some (record { head = some 5; tail = some 6 })
      else none;
}

abbrev ten : List Ptr
ten = 1 ∷ 2 ∷ 3 ∷ []

abbrev twenty : List Ptr
twenty = 5 ∷ 6 ∷ []

ten-IsList : IsList ctx 10 ten
ten-IsList = record {
  ends = refl;
  chain = (refl, (refl, (refl, tt)));
  distinct = (refl, (refl, (refl, tt)));
}

twenty-IsList : IsList ctx 20 twenty
twenty-IsList = record { ends = refl; chain = (refl, (refl, tt)); distinct = (refl, (refl, tt)) }

four-IsFree : IsFree ctx 4
four-IsFree = record { node = refl }

seven-IsFree : IsFree ctx 7
seven-IsFree = record { node = refl }

insert_after-list_example :
    Returns (Becomes 10 (4 ∷ ten) (1 ∷ 2 ∷ 4 ∷ 3 ∷ []) ctx) (insert_after ctx 4 2)
insert_after-list_example = insert_after-list four-IsFree (1 ∷ []) 2 (3 ∷ []) ten-IsList

unlink-list_example : Returns (Unlinked 10 2 (1 ∷ []) (3 ∷ []) ctx) (unlink ctx 2)
unlink-list_example = unlink-list ctx 10 (1 ∷ []) 2 (3 ∷ []) ten-IsList

append_linked_list-list_example :
    Returns (Moved 10 20 (1 ∷ 2 ∷ 3 ∷ 5 ∷ 6 ∷ [])) (append_linked_list 3 ctx 10 20)
append_linked_list-list_example =
    append_linked_list-list 10 20 refl 3 ctx ten twenty ten-IsList twenty-IsList (omega arith)

iter-drain_example :
    Returns (Drained ctx 10 ten 4) (iter ctx 10 >>= drain ctx (front ∷ back ∷ front ∷ back ∷ []))
iter-drain_example = iter-drain ctx 10 (front ∷ back ∷ front ∷ back ∷ []) ten ten-IsList
