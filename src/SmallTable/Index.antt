-- ===== src/SmallTable/Index.antt =====
-- The crate indexmap, as the small tables use it: a map keeps its entries in an order, and the
-- laws say what each method does to the list of entries.
use pliron.Prelude.{ℕ, ◌≡◌, Bool, Option, some, List, [], ◌∷◌, if◌then◌else◌, length, Distinct}
use pliron.SmallTable.Vec.{
  keys, position, lookup, upsert, set_value, value_at, key_at, swap_remove, removed,
}

module _ {V : Type 0} where
  -- What `retain` leaves: the predicate may change the values it sees.
  unfoldable pub retained : (ℕ → V → Bool × V) → List (ℕ × V) → List (ℕ × V)
  retained f [] = []
  retained f ((k, v) ∷ l) = if (f k v).0 then (k, (f k v).1) ∷ retained f l else retained f l

-- An entry of a map is the map with the entry's place.
pub record IndexMap (V : Type 0) : Type 1 where
  pub Map : Type 0
  pub new : Map
  pub len : Map → ℕ
  pub iter : Map → List (ℕ × V)
  pub insert : Map → ℕ → V → Map × Option V
  pub get : Map → ℕ → Option V
  pub get_key_value : Map → ℕ → Option (ℕ × V)
  pub swap_remove : Map → ℕ → Map × Option V
  pub clear : Map → Map
  pub retain : Map → (ℕ → V → Bool × V) → Map
  pub entry : Map → ℕ → Option ℕ
  pub get_index : Map → ℕ → Option V
  pub get_index_key : Map → ℕ → Option ℕ
  pub set_index : Map → ℕ → V → Map
  pub swap_remove_index : Map → ℕ → Map

module _ {V : Type 0} (lib : IndexMap V) where
  open lib use {Map, iter}

  -- The documented behaviour.
  pub record MapLaws : Type 0 where
    pub iter-Distinct : (m : Map) → Distinct (keys (iter m))
    pub iter-new : iter lib.new ≡ []
    pub len_lem : (m : Map) → lib.len m ≡ length (iter m)
    pub iter-insert : (m : Map) (k : ℕ) (v : V) → iter (lib.insert m k v).0 ≡ upsert k v (iter m)
    pub insert_old : (m : Map) (k : ℕ) (v : V) → (lib.insert m k v).1 ≡ lookup k (iter m)
    pub get_lem : (m : Map) (k : ℕ) → lib.get m k ≡ lookup k (iter m)
    pub iter-swap_remove : (m : Map) (k : ℕ) → iter (lib.swap_remove m k).0 ≡ removed k (iter m)
    pub swap_remove_old : (m : Map) (k : ℕ) → (lib.swap_remove m k).1 ≡ lookup k (iter m)
    pub iter-clear : (m : Map) → iter (lib.clear m) ≡ []
    pub iter-retain : (m : Map) (f : ℕ → V → Bool × V) → iter (lib.retain m f) ≡ retained f (iter m)
    pub entry_lem : (m : Map) (k : ℕ) → lib.entry m k ≡ position k (iter m)
    pub get_index_lem : (m : Map) (i : ℕ) → lib.get_index m i ≡ value_at (iter m) i
    pub get_index_key_lem : (m : Map) (i : ℕ) → lib.get_index_key m i ≡ key_at (iter m) i
    pub iter-set_index :
        (m : Map) (i : ℕ) (v : V) → iter (lib.set_index m i v) ≡ set_value (iter m) i v
    pub iter-swap_remove_index :
        (m : Map) (k i : ℕ)
        → position k (iter m) ≡ some i
        → iter (lib.swap_remove_index m i) ≡ swap_remove (iter m) i
