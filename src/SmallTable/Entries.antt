-- ===== src/SmallTable/Entries.antt =====
-- The entries of a key of a SmallMap: what or_insert and and_modify do, in any representation.
use pliron.Prelude.{
  ℕ, zero, suc, ◌-◌, ◌≡◌, refl, ap, ◌∙◌, Option, none, some, List, [], ◌∷◌, ◌++◌, arith, ◌==◌, leb,
  if◌then◌else◌, length, length-append, Distinct, Bool-cases, inl, inr, is_some, Returns, returns,
}
use mathlib.Core.Path.{subst}
use pliron.SmallTable.Vec.{
  keys, upsert, lookup, position, value_at, value_at-position, position-none, next-suc, next-some,
}
use pliron.SmallTable.Index.{IndexMap, MapLaws}
use pliron.SmallTable.Update.{upsert-Distinct, iter-promote}
use pliron.SmallTable.Laws.{Valid, Has, spilled-Has}
use pliron.SmallTable.Map.{
  SmallMap, inline, spilled, iter, is_inline, len, entry, or_insert, occupied_get, occupied_map,
  vacant_insert, last_inline, last_spilled,
}

module _ {V : Type 0} where
  pub lookup-found :
      (k : ℕ) (l : List (ℕ × V)) (i : ℕ) → position k l ≡ some i → (v : V) × (lookup k l ≡ some v)
  unfolding position lookup
  lookup-found k [] i e = cc
  lookup-found k ((j, w) ∷ l) zero e = elim (Bool-cases (j == k)) [
    | inl t ↦ (w, rw t refl)
    | inr f ↦ absurd (next-suc (position k l) (ground arith))
  ]
  lookup-found k ((j, w) ∷ l) (suc i) e = elim (Bool-cases (j == k)) [
    | inl t ↦ (w, rw t refl)
    | inr f ↦ rw f (lookup-found k l i (next-some (position k l) i (ground arith)))
  ]

  value_at-last :
      (l : List (ℕ × V)) (k : ℕ) (v : V) → value_at (l ++ (k, v) ∷ []) (length l) ≡ some v
  unfolding value_at
  value_at-last [] k v = refl
  value_at-last (x ∷ l) k v = value_at-last l k v

  -- The entries and the value read after or_insert: what is there stays, else the default is added.
  unfoldable pub kept_or_added : ℕ → V → List (ℕ × V) → List (ℕ × V)
  kept_or_added k d l = if is_some (lookup k l) then l else l ++ (k, d) ∷ []

  unfoldable pub value_or : V → Option V → V
  value_or d none = d
  value_or d (some v) = v

module _ {V : Type 0} {lib : IndexMap V} (laws : MapLaws lib) (n : ℕ) where
  unfoldable pub OrInserted : ℕ → V → List (ℕ × V) → SmallMap lib n × V → Type 0
  OrInserted k d l out = Has laws n (kept_or_added k d l) out.0 × (out.1 ≡ value_or d (lookup k l))

  last_inline-Returns :
      (l : List (ℕ × V)) (k : ℕ) (v : V)
      → last_inline lib n (l ++ (k, v) ∷ []) ≡ some (inline (l ++ (k, v) ∷ []), v)
  unfolding last_inline
  last_inline-Returns l k v =
      let at : length (l ++ (k, v) ∷ []) - 1 ≡ length l =
        omega (arith, length-append l ((k, v) ∷ [])) in
      rw (last_inline, at, value_at-last l k v) refl

  last_spilled-Returns :
      (m : lib.Map) (l : List (ℕ × V)) (k : ℕ) (v : V)
      → lib.iter m ≡ l ++ (k, v) ∷ []
      → last_spilled lib n m ≡ some (spilled m, v)
  unfolding last_spilled
  last_spilled-Returns m l k v e =
      let at : lib.len m - 1 ≡ length l =
        omega (arith, length-append l ((k, v) ∷ []), laws.len_lem m, ap length e) in
      let read : lib.get_index m (length l) ≡ some v =
        laws.get_index_lem m (length l) ∙ ap (λ z. value_at z (length l)) e ∙ value_at-last l k v in
      rw (last_spilled, at, read) refl

  pub occupied_inline :
      (k i : ℕ) (d : V) (l : List (ℕ × V))
      → position k l ≡ some i
      → Valid laws n (inline l)
      → Returns (OrInserted k d l) (or_insert lib n (entry lib n (inline l) k) d)
  unfolding or_insert entry occupied_get occupied_map OrInserted Has kept_or_added value_or iter
  occupied_inline k i d l e w =
      let (v, found) = lookup-found k l i e in
      let read = value_at-position k l i e ∙ found in
      rw (entry, e, or_insert, read) (returns (rw found ((w, refl), refl)))

  pub vacant_inline :
      (k : ℕ) (d : V) (l : List (ℕ × V))
      → position k l ≡ none
      → Valid laws n (inline l)
      → Returns (OrInserted k d l) (or_insert lib n (entry lib n (inline l) k) d)
  unfolding or_insert entry vacant_insert OrInserted Has kept_or_added value_or iter Valid is_inline
      len
  vacant_inline k d l e w =
      let (new, missing) = position-none k d l e in
      let dist = subst (λ z. Distinct (keys z)) new (upsert-Distinct k d l w.0) in
      elim (Bool-cases (leb n (length l))) [
        | inl full ↦
            let grown =
              laws.iter-insert _ k d ∙ ap (upsert k d) (iter-promote lib laws n l w.0) ∙ new in
            rw (entry, e, or_insert, vacant_insert, full, last_spilled-Returns _ l k d grown)
              (returns (rw missing.0 (spilled-Has laws n _ _ grown, refl)))
        | inr room ↦
            rw (entry, e, or_insert, vacant_insert, room, last_inline-Returns l k d)
              (returns (
                rw missing.0 (((dist, ground (arith, length-append l ((k, d) ∷ []))), refl), refl)))
      ]

  pub or_insert_by :
      (m : lib.Map) (k : ℕ) (d : V) (o : Option ℕ)
      → position k (lib.iter m) ≡ o
      → Returns (OrInserted k d (lib.iter m)) (or_insert lib n (entry lib n (spilled m) k) d)
  unfolding or_insert entry vacant_insert occupied_get occupied_map OrInserted kept_or_added
      value_or
  or_insert_by m k d (some i) e =
      let (v, found) = lookup-found k (lib.iter m) i e in
      let read = laws.get_index_lem m i ∙ value_at-position k (lib.iter m) i e ∙ found in
      rw (entry, laws.entry_lem m k ∙ e, or_insert, read)
        (returns (rw found (spilled-Has laws n m _ refl, refl)))
  or_insert_by m k d none e =
      let (new, missing) = position-none k d (lib.iter m) e in
      rw (entry, laws.entry_lem m k ∙ e, or_insert, vacant_insert)
        (returns (rw missing.0 (spilled-Has laws n _ _ (laws.iter-insert m k d ∙ new), refl)))

  -- or_insert never panics; an entry of the key stays as it is and its value is read, and otherwise
  -- the default is appended and read. The map stays well formed.
  pub or_insert-entry :
      (m : SmallMap lib n) (k : ℕ) (d : V)
      → Valid laws n m
      → Returns (OrInserted k d (iter lib n m)) (or_insert lib n (entry lib n m k) d)
  unfolding iter
  or_insert-entry (inline l) k d w = go (position k l) refl
    where
      go :
          (o : Option ℕ)
          → position k l ≡ o
          → Returns (OrInserted k d l) (or_insert lib n (entry lib n (inline l) k) d)
      go (some i) e = occupied_inline k i d l e w
      go none e = vacant_inline k d l e w
  or_insert-entry (spilled m) k d w = or_insert_by m k d (position k (lib.iter m)) refl
