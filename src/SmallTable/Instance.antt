-- ===== src/SmallTable/Instance.antt =====
-- Maps and sets that meet the laws: lists with distinct keys.
use pliron.Prelude.{
  ℕ, zero, suc, ◌≡◌, refl, sym, ap, ◌∙◌, true, false, Option, none, some, List, [], ◌∷◌, arith,
  ◌==◌, ==→≡, if◌then◌else◌, length, has, Distinct, Bool-cases, inl, inr,
}
use mathlib.Core.Path.{subst}
use pliron.SmallTable.Vec.{
  keys, upsert, lookup, find_pair, position, next-some, next-suc, set_value, value_at, key_at, init,
  removed, swap_remove,
}
use pliron.SmallTable.Index.{IndexMap, MapLaws, retained}
use pliron.SmallTable.Remove.{Dropped, removed-Dropped}
use pliron.SmallTable.Update.{upsert-Distinct, retained-Distinct}
use pliron.SmallTable.Values.{
  Without, removed_value-Without, with_value-Distinct, filtered-Distinct,
}
use pliron.SmallTable.Set.{
  IndexSet, SetLaws, find_value, filtered, with_value, removed_value, all_but_last, last_value,
}

pub keys-set_value :
    {V : Type 0} (l : List (ℕ × V)) (i : ℕ) (v : V) → keys (set_value l i v) ≡ keys l
unfolding set_value
keys-set_value [] i v = refl
keys-set_value (x ∷ l) zero v = refl
keys-set_value (x ∷ l) (suc i) v = ap (◌∷◌ x.0) (keys-set_value l i v)

key_at-position :
    {V : Type 0} (k : ℕ) (l : List (ℕ × V)) (i : ℕ) → position k l ≡ some i → key_at l i ≡ some k
unfolding position
key_at-position k [] i e = cc
key_at-position k ((j, w) ∷ l) zero e = elim (Bool-cases (j == k)) [
  | inl t ↦ ap some (==→≡ j k t)
  | inr f ↦ absurd (next-suc (position k l) (ground arith))
]
key_at-position k ((j, w) ∷ l) (suc i) e = elim (Bool-cases (j == k)) [
  | inl t ↦ ground arith
  | inr f ↦ key_at-position k l i (next-some (position k l) i (ground arith))
]

pub drop-Distinct :
    {V : Type 0} (k : ℕ) (l : List (ℕ × V)) → Distinct (keys l) → Distinct (keys (removed k l))
unfolding Dropped
drop-Distinct k l d = (removed-Dropped k l d).0

abbrev pub Keyed : Type 0
Keyed = (l : List (ℕ × ℕ)) × Distinct (keys l)

abbrev pub drop_key : Keyed → Option ℕ → Keyed
drop_key m none = m
drop_key m (some k) = (removed k m.0, drop-Distinct k m.0 m.1)

abbrev pub maps : IndexMap ℕ
maps = record {
  Map = Keyed;
  new = ([], tt);
  len = λ m. length m.0;
  iter = λ m. m.0;
  insert = λ m k v. ((upsert k v m.0, upsert-Distinct k v m.0 m.1), lookup k m.0);
  get = λ m k. lookup k m.0;
  get_key_value = λ m k. find_pair k m.0;
  swap_remove = λ m k. ((removed k m.0, drop-Distinct k m.0 m.1), lookup k m.0);
  clear = λ m. ([], tt);
  retain = λ m f. (retained f m.0, retained-Distinct f m.0 m.1);
  entry = λ m k. position k m.0;
  get_index = λ m i. value_at m.0 i;
  get_index_key = λ m i. key_at m.0 i;
  set_index = λ m i v. (set_value m.0 i v, subst Distinct (sym (keys-set_value m.0 i v)) m.1);
  swap_remove_index = λ m i. drop_key m (key_at m.0 i);
}

pub drop_key-key_at :
    (m : Keyed) (k i : ℕ)
    → position k m.0 ≡ some i
    → (drop_key m (key_at m.0 i)).0 ≡ swap_remove m.0 i
unfolding removed
drop_key-key_at m k i e =
    ap (λ o. (drop_key m o).0) (key_at-position k m.0 i e) ∙ rw (removed, e) refl

abbrev pub map_laws : MapLaws maps
map_laws = record {
  iter-Distinct = λ m. m.1;
  iter-new = refl;
  len_lem = λ m. refl;
  iter-insert = λ m k v. refl;
  insert_old = λ m k v. refl;
  get_lem = λ m k. refl;
  iter-swap_remove = λ m k. refl;
  swap_remove_old = λ m k. refl;
  iter-clear = λ m. refl;
  iter-retain = λ m f. refl;
  entry_lem = λ m k. refl;
  get_index_lem = λ m i. refl;
  get_index_key_lem = λ m i. refl;
  iter-set_index = λ m i v. refl;
  iter-swap_remove_index = drop_key-key_at;
}

pub without-Distinct : (k : ℕ) (l : List ℕ) → Distinct l → Distinct (removed_value k l)
unfolding Without
without-Distinct k l d = (removed_value-Without k l d).0

has-init : (a x : ℕ) (l : List ℕ) → has a (x ∷ l) ≡ false → has a (init x l) ≡ false
has-init a x [] h = refl
has-init a x (y ∷ l) h = ground (arith, has-init a y l)

init-Distinct : (x : ℕ) (l : List ℕ) → Distinct (x ∷ l) → Distinct (init x l)
init-Distinct x [] d = tt
init-Distinct x (y ∷ l) d = (has-init x y l d.0, init-Distinct y l d.1)

pub all_but_last-Distinct : (l : List ℕ) → Distinct l → Distinct (all_but_last l)
all_but_last-Distinct [] d = tt
all_but_last-Distinct (x ∷ l) d = init-Distinct x l d

abbrev pub sets : IndexSet
sets = record {
  Set = (l : List ℕ) × Distinct l;
  new = ([], tt);
  len = λ s. length s.0;
  iter = λ s. s.0;
  insert =
      λ s k. ((with_value k s.0, with_value-Distinct k s.0 s.1), if has k s.0 then false else true);
  contains = λ s k. has k s.0;
  get = λ s k. find_value k s.0;
  swap_remove = λ s k. ((removed_value k s.0, without-Distinct k s.0 s.1), has k s.0);
  clear = λ s. ([], tt);
  pop = λ s. ((all_but_last s.0, all_but_last-Distinct s.0 s.1), last_value s.0);
  retain = λ s f. (filtered f s.0, filtered-Distinct f s.0 s.1);
}

abbrev pub set_laws : SetLaws sets
set_laws = record {
  iter-Distinct = λ s. s.1;
  iter-new = refl;
  len_lem = λ s. refl;
  iter-insert = λ s k. refl;
  insert_was_new = λ s k. refl;
  contains_lem = λ s k. refl;
  get_lem = λ s k. refl;
  iter-swap_remove = λ s k. refl;
  swap_remove_was_there = λ s k. refl;
  iter-pop = λ s. (refl, refl);
  iter-clear = λ s. refl;
  iter-retain = λ s f. refl;
}
