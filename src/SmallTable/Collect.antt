-- ===== src/SmallTable/Collect.antt =====
-- Building a SmallMap from a sequence of pairs.
use pliron.Prelude.{ℕ, arith, refl, ap, ◌∙◌, List, [], ◌∷◌}
use pliron.SmallTable.Vec.{upsert}
use pliron.SmallTable.Index.{IndexMap, MapLaws}
use pliron.SmallTable.Map.{SmallMap, inline, iter, insert, new, extend, from_iter}
use pliron.SmallTable.Laws.{Valid, Has, insert-upsert}

-- The entries after the pairs are written one after the other.
unfoldable pub upsert_all : {V : Type 0} → List (ℕ × V) → List (ℕ × V) → List (ℕ × V)
upsert_all [] l = l
upsert_all ((k, v) ∷ ps) l = upsert_all ps (upsert k v l)

module _ {V : Type 0} {lib : IndexMap V} (laws : MapLaws lib) (n : ℕ) where
  pub extend-upsert_all :
      (ps : List (ℕ × V)) (m : SmallMap lib n)
      → Valid laws n m
      → Has laws n (upsert_all ps (iter lib n m)) (extend lib n m ps)
  unfolding extend upsert_all Has
  extend-upsert_all [] m w = (w, refl)
  extend-upsert_all ((k, v) ∷ ps) m w =
      let first = (insert-upsert laws n m k v w).0 in
      let rest = extend-upsert_all ps (insert lib n m k v).0 first.0 in
      (rest.0, rest.1 ∙ ap (upsert_all ps) first.1)

  -- from_iter builds the entries of the first occurrence of each key with the last value written to
  -- it, and a well formed map.
  from_iter-upsert_all : (ps : List (ℕ × V)) → Has laws n (upsert_all ps []) (from_iter lib n ps)
  unfolding from_iter new iter Valid
  from_iter-upsert_all ps = extend-upsert_all ps (inline []) (tt, omega arith)
