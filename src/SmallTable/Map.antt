-- ===== src/SmallTable/Map.antt =====
-- SmallMap: the representation, its methods, and the entries of a key. `none` is a panic where
-- the source indexes an array or unwraps. A reference that a method gives out is the value it
-- reads; the write of an insertion through an entry is a method of its own.
use pliron.Prelude.{
  ℕ, ◌-◌, Bool, ◌&&◌, map, true, false, Option, none, some, List, [], ◌∷◌, ◌++◌, ◌==◌, ltb, leb,
  if◌then◌else◌, ◌>>=◌, length, is_some,
}
use pliron.SmallTable.Vec.{position, lookup, set_value, value_at, key_at, find_pair, swap_remove}
use pliron.SmallTable.Index.{IndexMap, retained}

module _ {V : Type 0} (lib : IndexMap V) (n : ℕ) where
  open lib use {Map}

  pub data SmallMap : Type 0 where
    inline : List (ℕ × V) → SmallMap
    spilled : Map → SmallMap

  unfoldable pub new : SmallMap
  new = inline []

  unfoldable pub is_inline : SmallMap → Bool
  is_inline (inline v) = true
  is_inline (spilled m) = false

  unfoldable pub len : SmallMap → ℕ
  len (inline v) = length v
  len (spilled m) = lib.len m

  unfoldable pub is_empty : SmallMap → Bool
  is_empty self = len self == 0

  unfoldable pub clear : SmallMap → SmallMap
  clear (inline v) = inline []
  clear (spilled m) = spilled (lib.clear m)

  unfoldable pub retain : SmallMap → (ℕ → V → Bool × V) → SmallMap
  retain (inline v) f = inline (retained f v)
  retain (spilled m) f = spilled (lib.retain m f)

  unfoldable pub iter : SmallMap → List (ℕ × V)
  iter (inline v) = v
  iter (spilled m) = lib.iter m

  unfoldable pub keys : SmallMap → List ℕ
  keys self = map (λ p. p.0) (iter self)

  unfoldable pub values : SmallMap → List V
  values self = map (λ p. p.1) (iter self)

  -- The loop of `promote`.
  unfoldable pub drain_into : Map → List (ℕ × V) → Map
  drain_into m [] = m
  drain_into m ((k, v) ∷ l) = drain_into (lib.insert m k v).0 l

  unfoldable pub promote : List (ℕ × V) → Map
  promote v = drain_into lib.new v

  unfoldable pub insert : SmallMap → ℕ → V → SmallMap × Option V
  insert (inline v) key value = elim (position key v) [
    | some i ↦ (inline (set_value v i value), value_at v i)
    | none ↦
        if ltb (length v) n
        then (inline (v ++ (key, value) ∷ []), none)
        else let out = lib.insert (promote v) key value in (spilled out.0, out.1)
  ]
  insert (spilled m) key value = (spilled (lib.insert m key value).0, (lib.insert m key value).1)

  unfoldable pub get : SmallMap → ℕ → Option V
  get (inline v) key = lookup key v
  get (spilled m) key = lib.get m key

  unfoldable pub get_key_value : SmallMap → ℕ → Option (ℕ × V)
  get_key_value (inline v) key = find_pair key v
  get_key_value (spilled m) key = lib.get_key_value m key

  unfoldable pub contains_key : SmallMap → ℕ → Bool
  contains_key self key = is_some (get self key)

  unfoldable pub remove : SmallMap → ℕ → SmallMap × Option V
  remove (inline v) key = elim (position key v) [
    | none ↦ (inline v, none)
    | some i ↦ (inline (swap_remove v i), value_at v i)
  ]
  remove (spilled m) key = (spilled (lib.swap_remove m key).0, (lib.swap_remove m key).1)

  pub data OccupiedEntry : Type 0 where
    inline_occupied : (vec : List (ℕ × V)) (index : ℕ) → OccupiedEntry
    spilled_occupied : (map : Map) (index : ℕ) → OccupiedEntry

  pub data VacantEntry : Type 0 where
    inline_vacant : (repr : SmallMap) (key : ℕ) → VacantEntry
    spilled_vacant : (map : Map) (key : ℕ) → VacantEntry

  pub data Entry : Type 0 where
    occupied : OccupiedEntry → Entry
    vacant : VacantEntry → Entry

  unfoldable pub entry : SmallMap → ℕ → Entry
  entry (inline v) key = elim (position key v) [
    | some index ↦ occupied (inline_occupied v index)
    | none ↦ vacant (inline_vacant (inline v) key)
  ]
  entry (spilled m) key = elim (lib.entry m key) [
    | some index ↦ occupied (spilled_occupied m index)
    | none ↦ vacant (spilled_vacant m key)
  ]

  -- `get`, and the value that the references of `get_mut` and `into_mut` read.
  unfoldable pub occupied_get : OccupiedEntry → Option V
  occupied_get (inline_occupied v i) = value_at v i
  occupied_get (spilled_occupied m i) = lib.get_index m i

  unfoldable pub occupied_key : OccupiedEntry → Option ℕ
  occupied_key (inline_occupied v i) = key_at v i
  occupied_key (spilled_occupied m i) = lib.get_index_key m i

  unfoldable pub vacant_key : VacantEntry → ℕ
  vacant_key (inline_vacant repr key) = key
  vacant_key (spilled_vacant m key) = key

  unfoldable pub entry_key : Entry → Option ℕ
  entry_key (occupied e) = occupied_key e
  entry_key (vacant e) = some (vacant_key e)

  -- A write through the reference of `get_mut`.
  unfoldable pub occupied_set : OccupiedEntry → V → OccupiedEntry
  occupied_set (inline_occupied v i) value = inline_occupied (set_value v i value) i
  occupied_set (spilled_occupied m i) value = spilled_occupied (lib.set_index m i value) i

  unfoldable pub occupied_insert : OccupiedEntry → V → Option (OccupiedEntry × V)
  occupied_insert e value = do old ← occupied_get e; some (occupied_set e value, old)

  unfoldable pub occupied_remove : OccupiedEntry → Option (SmallMap × V)
  occupied_remove (inline_occupied v i) = do
    old ← value_at v i
    some (inline (swap_remove v i), old)
  occupied_remove (spilled_occupied m i) = do
    old ← lib.get_index m i
    some (spilled (lib.swap_remove_index m i), old)

  -- The map that an entry borrows.
  unfoldable pub occupied_map : OccupiedEntry → SmallMap
  occupied_map (inline_occupied v i) = inline v
  occupied_map (spilled_occupied m i) = spilled m

  -- `v.last_mut().unwrap().1` and `map.get_index_mut(map.len() - 1).unwrap().1`
  unfoldable pub last_inline : List (ℕ × V) → Option (SmallMap × V)
  last_inline v = value_at v (length v - 1) >>= λ read. some (inline v, read)

  unfoldable pub last_spilled : Map → Option (SmallMap × V)
  last_spilled m = lib.get_index m (lib.len m - 1) >>= λ read. some (spilled m, read)

  -- `insert`: the map, and what the reference reads.
  unfoldable pub vacant_insert : VacantEntry → V → Option (SmallMap × V)
  vacant_insert (inline_vacant (spilled m) key) value = none
  vacant_insert (inline_vacant (inline v) key) value =
      if leb n (length v)
      then last_spilled (lib.insert (promote v) key value).0
      else last_inline (v ++ (key, value) ∷ [])
  vacant_insert (spilled_vacant m key) value = some (spilled (lib.insert m key value).0, value)

  unfoldable pub and_modify : Entry → (V → V) → Option Entry
  and_modify (occupied e) f = do old ← occupied_get e; some (occupied (occupied_set e (f old)))
  and_modify (vacant e) f = some (vacant e)

  unfoldable pub or_insert : Entry → V → Option (SmallMap × V)
  or_insert (occupied e) default = do read ← occupied_get e; some (occupied_map e, read)
  or_insert (vacant e) default = vacant_insert e default

  unfoldable pub or_insert_with : Entry → (Unit {0} → V) → Option (SmallMap × V)
  or_insert_with (occupied e) default = do read ← occupied_get e; some (occupied_map e, read)
  or_insert_with (vacant e) default = vacant_insert e (default tt)

  unfoldable pub or_default : V → Entry → Option (SmallMap × V)
  or_default default e = or_insert_with e λ _. default

  unfoldable pub extend : SmallMap → List (ℕ × V) → SmallMap
  extend self [] = self
  extend self ((k, v) ∷ l) = extend (insert self k v).0 l

  unfoldable pub from_iter : List (ℕ × V) → SmallMap
  from_iter l = extend new l

  -- `other.get(k) == Some(v)` for every entry.
  unfoldable pub all_in : (V → V → Bool) → List (ℕ × V) → SmallMap → Bool
  all_in eq_value [] other = true
  all_in eq_value ((k, v) ∷ l) other =
      (elim (get other k) [ none ↦ false | some w ↦ eq_value w v ]) && all_in eq_value l other

  unfoldable pub eq : (V → V → Bool) → SmallMap → SmallMap → Bool
  eq eq_value self other = (len self == len other) && all_in eq_value (iter self) other
