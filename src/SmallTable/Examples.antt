-- ===== src/SmallTable/Examples.antt =====
-- The theorems on small maps and sets at tables of capacity two that are full.
use pliron.Prelude.{ℕ, ◌+◌, ◌≡◌, refl, Bool, false, some, List, [], ◌∷◌, arith, ltb, ◌>>=◌, Returns}
use pliron.SmallTable.Vec
use pliron.SmallTable.Vec.{upsert, lookup}
use pliron.SmallTable.Remove.{Dropped}
use pliron.SmallTable.Map.{
  SmallMap, inline, iter, is_inline, len, insert, remove, entry, and_modify, or_insert,
}
use pliron.SmallTable.Set
use pliron.SmallTable.Set.{SmallSet, with_value}
use pliron.SmallTable.Laws.{Valid, Has, insert-upsert, remove-Dropped}
use pliron.SmallTable.Modify.{Modified, and_modify-or_insert}
use pliron.SmallTable.SetOps.{ValidSet}
use pliron.SmallTable.Instance.{maps, map_laws, sets, set_laws}

abbrev pairs : List (ℕ × ℕ)
pairs = (1, 10) ∷ (2, 20) ∷ []

abbrev full : SmallMap maps 2
full = inline pairs

full-Valid : Valid map_laws 2 full
unfolding Valid iter is_inline len
full-Valid = ((refl, (refl, tt)), omega arith)

-- The third key spills the map, and a known key does not.
insert-spills : is_inline maps 2 (insert maps 2 full 3 30).0 ≡ false
unfolding is_inline insert Vec.position
insert-spills = refl

insert-replaces : insert maps 2 full 2 21 ≡ (inline ((1, 10) ∷ (2, 21) ∷ []), some 20)
unfolding insert Vec.position Vec.set_value Vec.value_at
insert-replaces = refl

insert-upsert_example :
    Has map_laws 2 (upsert 3 30 (iter maps 2 full)) (insert maps 2 full 3 30).0
    × ((insert maps 2 full 3 30).1 ≡ lookup 3 (iter maps 2 full))
insert-upsert_example = insert-upsert map_laws 2 full 3 30 full-Valid

remove-Dropped_example :
    Valid map_laws 2 (remove maps 2 full 1).0
    × Dropped 1 (iter maps 2 full) (iter maps 2 (remove maps 2 full 1).0)
    × ((remove maps 2 full 1).1 ≡ lookup 1 (iter maps 2 full))
remove-Dropped_example = remove-Dropped map_laws 2 full 1 full-Valid

abbrev repeated : List (ℕ × ℕ)
repeated = (1, 10) ∷ (2, 20) ∷ (1, 11) ∷ (3, 30) ∷ []

and_modify-or_insert_example :
    Returns
      (Modified map_laws 2 2 (◌+◌ 1) 1 (iter maps 2 full))
      (and_modify maps 2 (entry maps 2 full 2) (◌+◌ 1) >>= λ e. or_insert maps 2 e 1)
and_modify-or_insert_example = and_modify-or_insert map_laws 2 full 2 (◌+◌ 1) 1 full-Valid

abbrev both : SmallSet sets 2
both = Set.inline (1 ∷ 2 ∷ [])

both-ValidSet : ValidSet set_laws 2 both
unfolding ValidSet Set.iter Set.is_inline Set.len
both-ValidSet = ((refl, (refl, tt)), omega arith)

abbrev small : ℕ → Bool
small k = ltb k 2
