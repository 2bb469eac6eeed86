-- ===== src/SmallTable/Set.antt =====
-- SmallSet, and the set of the crate indexmap that it is spilled to.
use pliron.Prelude.{
  ℕ, ◌≡◌, Bool, ◌&&◌, true, false, Option, none, some, List, [], ◌∷◌, ◌++◌, ◌==◌, ltb,
  if◌then◌else◌, length, has, Distinct,
}
use pliron.SmallTable.Vec.{next, init, last, swap_remove}

-- `iter().position(|x| value.equivalent(x))`
unfoldable pub index_of : ℕ → List ℕ → Option ℕ
index_of k [] = none
index_of k (x ∷ l) = if x == k then some 0 else next (index_of k l)

-- `iter().find(|&x| value.equivalent(x))`
unfoldable pub find_value : ℕ → List ℕ → Option ℕ
find_value k [] = none
find_value k (x ∷ l) = if x == k then some x else find_value k l

unfoldable pub filtered : (ℕ → Bool) → List ℕ → List ℕ
filtered f [] = []
filtered f (x ∷ l) = if f x then x ∷ filtered f l else filtered f l

-- What `pop` leaves, and what it returns.
abbrev pub all_but_last : List ℕ → List ℕ
all_but_last [] = []
all_but_last (x ∷ l) = init x l

abbrev pub last_value : List ℕ → Option ℕ
last_value [] = none
last_value (x ∷ l) = some (last x l)

-- The elements after an insertion, and after a removal by `swap_remove`.
abbrev pub with_value : ℕ → List ℕ → List ℕ
with_value k l = if has k l then l else l ++ k ∷ []

unfoldable pub removed_value : ℕ → List ℕ → List ℕ
removed_value k l = elim (index_of k l) [ none ↦ l | some i ↦ swap_remove l i ]

pub record IndexSet : Type 1 where
  pub Set : Type 0
  pub new : Set
  pub len : Set → ℕ
  pub iter : Set → List ℕ
  pub insert : Set → ℕ → Set × Bool
  pub contains : Set → ℕ → Bool
  pub get : Set → ℕ → Option ℕ
  pub swap_remove : Set → ℕ → Set × Bool
  pub clear : Set → Set
  pub pop : Set → Set × Option ℕ
  pub retain : Set → (ℕ → Bool) → Set

module _ (lib : IndexSet) where
  open lib use {Set, iter}

  -- The documented behaviour.
  pub record SetLaws : Type 0 where
    pub iter-Distinct : (s : Set) → Distinct (iter s)
    pub iter-new : iter lib.new ≡ []
    pub len_lem : (s : Set) → lib.len s ≡ length (iter s)
    pub iter-insert : (s : Set) (k : ℕ) → iter (lib.insert s k).0 ≡ with_value k (iter s)
    pub insert_was_new :
        (s : Set) (k : ℕ) → (lib.insert s k).1 ≡ (if has k (iter s) then false else true)
    pub contains_lem : (s : Set) (k : ℕ) → lib.contains s k ≡ has k (iter s)
    pub get_lem : (s : Set) (k : ℕ) → lib.get s k ≡ find_value k (iter s)
    pub iter-swap_remove :
        (s : Set) (k : ℕ) → iter (lib.swap_remove s k).0 ≡ removed_value k (iter s)
    pub swap_remove_was_there : (s : Set) (k : ℕ) → (lib.swap_remove s k).1 ≡ has k (iter s)
    pub iter-pop :
        (s : Set)
        → (iter (lib.pop s).0 ≡ all_but_last (iter s)) × ((lib.pop s).1 ≡ last_value (iter s))
    pub iter-clear : (s : Set) → iter (lib.clear s) ≡ []
    pub iter-retain : (s : Set) (f : ℕ → Bool) → iter (lib.retain s f) ≡ filtered f (iter s)

module _ (lib : IndexSet) (n : ℕ) where
  open lib use {Set}

  pub data SmallSet : Type 0 where
    inline : List ℕ → SmallSet
    spilled : Set → SmallSet

  unfoldable pub new : SmallSet
  new = inline []

  unfoldable pub is_inline : SmallSet → Bool
  is_inline (inline v) = true
  is_inline (spilled s) = false

  unfoldable pub len : SmallSet → ℕ
  len (inline v) = length v
  len (spilled s) = lib.len s

  unfoldable pub is_empty : SmallSet → Bool
  is_empty self = len self == 0

  unfoldable pub clear : SmallSet → SmallSet
  clear (inline v) = inline []
  clear (spilled s) = spilled (lib.clear s)

  unfoldable pub retain : SmallSet → (ℕ → Bool) → SmallSet
  retain (inline v) f = inline (filtered f v)
  retain (spilled s) f = spilled (lib.retain s f)

  unfoldable pub iter : SmallSet → List ℕ
  iter (inline v) = v
  iter (spilled s) = lib.iter s

  -- The loop of `promote`.
  unfoldable pub drain_into : Set → List ℕ → Set
  drain_into s [] = s
  drain_into s (v ∷ l) = drain_into (lib.insert s v).0 l

  unfoldable pub promote : List ℕ → Set
  promote v = drain_into lib.new v

  unfoldable pub insert : SmallSet → ℕ → SmallSet × Bool
  insert (inline v) value =
      if has value v
      then (inline v, false)
      else if ltb (length v) n
      then (inline (v ++ value ∷ []), true)
      else let out = lib.insert (promote v) value in (spilled out.0, out.1)
  insert (spilled s) value = (spilled (lib.insert s value).0, (lib.insert s value).1)

  unfoldable pub contains : SmallSet → ℕ → Bool
  contains (inline v) value = has value v
  contains (spilled s) value = lib.contains s value

  unfoldable pub get : SmallSet → ℕ → Option ℕ
  get (inline v) value = find_value value v
  get (spilled s) value = lib.get s value

  unfoldable pub remove : SmallSet → ℕ → SmallSet × Bool
  remove (inline v) value = elim (index_of value v) [
    | some i ↦ (inline (swap_remove v i), true)
    | none ↦ (inline v, false)
  ]
  remove (spilled s) value = (spilled (lib.swap_remove s value).0, (lib.swap_remove s value).1)

  unfoldable pub extend : SmallSet → List ℕ → SmallSet
  extend self [] = self
  extend self (v ∷ l) = extend (insert self v).0 l

  unfoldable pub from_iter : List ℕ → SmallSet
  from_iter l = extend new l

  -- `self.iter().all(|v| other.contains(v))`
  unfoldable pub all_contained : List ℕ → SmallSet → Bool
  all_contained [] other = true
  all_contained (v ∷ l) other = contains other v && all_contained l other

  unfoldable pub eq : SmallSet → SmallSet → Bool
  eq self other = (len self == len other) && all_contained (iter self) other
