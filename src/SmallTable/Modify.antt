-- ===== src/SmallTable/Modify.antt =====
-- The idiom entry(key).and_modify(f).or_insert(default) on a SmallMap.
use pliron.Prelude.{
  ℕ, zero, suc, ◌≡◌, refl, sym, ap, ◌∙◌, Option, none, some, List, [], ◌∷◌, ◌++◌, arith, ◌>>=◌,
  Distinct, Returns, returns, Returns-mono,
}
use mathlib.Core.Path.{subst}
use pliron.SmallTable.Vec.{
  keys, upsert, lookup, position, set_value, value_at, set_value-position, value_at-position,
  position-none,
}
use pliron.SmallTable.Index.{IndexMap, MapLaws}
use pliron.SmallTable.Update.{upsert-Distinct}
use pliron.SmallTable.Laws.{Valid, Has, spilled-Has, length-set_value}
use pliron.SmallTable.Entries.{lookup-found, or_insert-entry, OrInserted, kept_or_added, value_or}
use pliron.SmallTable.Map.{
  SmallMap, inline, spilled, iter, is_inline, len, entry, and_modify, or_insert, occupied_get,
  occupied_set, occupied_map,
}

-- The value of a key after the idiom.
unfoldable pub updated : {V : Type 0} → (V → V) → V → Option V → V
updated f d none = d
updated f d (some v) = f v

value_at-set_value :
    {V : Type 0} (l : List (ℕ × V)) (i : ℕ) (v x : V)
    → value_at l i ≡ some v
    → value_at (set_value l i x) i ≡ some x
unfolding value_at set_value
value_at-set_value [] i v x e = cc
value_at-set_value (p ∷ l) zero v x e = refl
value_at-set_value (p ∷ l) (suc i) v x e = value_at-set_value l i v x e

module _ {V : Type 0} {lib : IndexMap V} (laws : MapLaws lib) (n : ℕ) where
  unfoldable pub Modified : ℕ → (V → V) → V → List (ℕ × V) → SmallMap lib n × V → Type 0
  Modified k f d l out =
      Has laws n (upsert k (updated f d (lookup k l)) l) out.0 × (out.1 ≡ updated f d (lookup k l))

  Added-Modified :
      (k : ℕ) (f : V → V) (d : V) (l : List (ℕ × V)) (out : SmallMap lib n × V)
      → position k l ≡ none
      → OrInserted laws n k d l out
      → Modified k f d l out
  unfolding OrInserted Modified kept_or_added value_or updated
  Added-Modified k f d l out e o =
      let (new, missing) = position-none k d l e in
      let o' : Has laws n (l ++ (k, d) ∷ []) out.0 × (out.1 ≡ d) = rw missing.0 at o in
      rw (missing.0, new) o'

  modify_inline :
      (k : ℕ) (f : V → V) (d : V) (l : List (ℕ × V)) (o : Option ℕ)
      → position k l ≡ o
      → Valid laws n (inline l)
      → Returns
          (Modified k f d l)
          (and_modify lib n (entry lib n (inline l) k) f >>= λ e. or_insert lib n e d)
  unfolding and_modify entry occupied_get occupied_set or_insert occupied_map Modified updated Has
      Valid iter is_inline len
  modify_inline k f d l (some i) e w =
      let (v, found) = lookup-found k l i e in
      let read = value_at-position k l i e ∙ found in
      let (written, _) = set_value-position k (f v) l i e in
      rw (entry, e, and_modify, read, or_insert, value_at-set_value l i v (f v) read)
        (returns (
          rw found (
            (
              (
                subst (λ z. Distinct (keys z)) (sym written) (upsert-Distinct k (f v) l w.0),
                omega (arith, length-set_value laws n l i (f v), w.1),
              ),
              written,
            ),
            refl,
          )))
  modify_inline k f d l none e w =
      let inserted = or_insert-entry laws n (inline l) k d w in
      rw (entry, e, and_modify)
        (Returns-mono (rw (entry, e) at inserted) λ out o. Added-Modified k f d l out e o)

  modify_spilled :
      (k : ℕ) (f : V → V) (d : V) (m : lib.Map) (o : Option ℕ)
      → position k (lib.iter m) ≡ o
      → Returns
          (Modified k f d (lib.iter m))
          (and_modify lib n (entry lib n (spilled m) k) f >>= λ e. or_insert lib n e d)
  unfolding and_modify entry occupied_get occupied_set or_insert occupied_map Modified updated Valid
      iter is_inline
  modify_spilled k f d m (some i) e =
      let (v, found) = lookup-found k (lib.iter m) i e in
      let read = value_at-position k (lib.iter m) i e ∙ found in
      let (written, _) = set_value-position k (f v) (lib.iter m) i e in
      let stored = laws.iter-set_index m i (f v) in
      let read' =
        laws.get_index_lem _ i
        ∙ ap (λ z. value_at z i) stored
        ∙ value_at-set_value (lib.iter m) i v (f v) read in
      rw
        (entry, laws.entry_lem m k ∙ e, and_modify, laws.get_index_lem m i ∙ read, or_insert, read')
        (returns (rw found (spilled-Has laws n _ _ (stored ∙ written), refl)))
  modify_spilled k f d m none e =
      let inserted = or_insert-entry laws n (spilled m) k d (laws.iter-Distinct m) in
      rw (entry, laws.entry_lem m k ∙ e, and_modify)
        (Returns-mono (rw (entry, laws.entry_lem m k ∙ e) at inserted)
          λ out o. Added-Modified k f d (lib.iter m) out e o)

  -- entry(k).and_modify(f).or_insert(d) never panics: it changes the value of k by f in its place,
  -- or appends k with d, and reads the value that is then there. The map stays well formed.
  pub and_modify-or_insert :
      (m : SmallMap lib n) (k : ℕ) (f : V → V) (d : V)
      → Valid laws n m
      → Returns
          (Modified k f d (iter lib n m))
          (and_modify lib n (entry lib n m k) f >>= λ e. or_insert lib n e d)
  unfolding iter
  and_modify-or_insert (inline l) k f d w = modify_inline k f d l (position k l) refl w
  and_modify-or_insert (spilled m) k f d w = modify_spilled k f d m (position k (lib.iter m)) refl
