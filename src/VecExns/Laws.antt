-- ===== src/VecExns/Laws.antt =====
-- What the extensions of vectors build.
use pliron.Prelude.{
  ℕ, zero, suc, ◌+◌, ◌-◌, ◌≡◌, refl, sym, ap, ◌∙◌, false, ◌||◌, Option, none, some, List, [], ◌∷◌,
  ◌++◌, arith, ◌==◌, ==→≡, ltb, if◌then◌else◌, length, length-append, has, has-append, Distinct,
  append-Distinct, Bool-cases, inl, inr,
}
use pliron.SmallTable.Vec.{get_elem?}
use pliron.SmallTable.Set.{index_of}
use pliron.SmallTable.Values.{missing-removed_value, found-removed_value}
use pliron.VecExns.{
  push_back, push_range, new_init, grow_to, push_unique, collect_into, collect_unique,
}

module _ {A : Type 0} where
  get_elem?-append :
      (v : List A) (t : A) (i : ℕ)
      → get_elem? (v ++ t ∷ []) i ≡ (if i == length v then some t else get_elem? v i)
  get_elem?-append [] t zero = refl
  get_elem?-append [] t (suc i) = ground arith
  get_elem?-append (x ∷ v) t zero = ground arith
  get_elem?-append (x ∷ v) t (suc i) = get_elem?-append v t i ∙ same
    where
      same :
          (if i == length v then some t else get_elem? v i)
          ≡ (if suc i == suc (length v) then some t else get_elem? v i)
      same = ground arith

  get_elem?-past : (v : List A) (i : ℕ) → ltb i (length v) ≡ false → get_elem? v i ≡ none
  get_elem?-past [] i h = refl
  get_elem?-past (x ∷ v) zero h = ground arith
  get_elem?-past (x ∷ v) (suc i) h = get_elem?-past v i (ground arith)

  get_elem?-push_range :
      (v : List A) (s n : ℕ) (f : ℕ → A) (i : ℕ)
      → s ≡ length v
      → get_elem? (push_range v s n f) i
        ≡ (if ltb i s then get_elem? v i else if ltb i (s + n) then some (f i) else none)
  unfolding push_range
  get_elem?-push_range v s zero f i e = elim (Bool-cases (ltb i s)) [
    | inl t ↦ rw t refl
    | inr g ↦ rw g (get_elem?-past v i (ground (arith, e)) ∙ ground arith)
  ]
  get_elem?-push_range v s (suc n) f i e =
      let rest =
        get_elem?-push_range (v ++ f s ∷ []) (suc s) n f i
          (omega (arith, length-append v (f s ∷ []), e)) in
      rest ∙ rw (get_elem?-append v (f s) i, sym e) (ground (arith, ap f))

  -- new_init builds the vector of the given size whose element at each index is the function's
  -- value there.
  get_elem?-new_init :
      (n : ℕ) (f : ℕ → A) (i : ℕ)
      → get_elem? (new_init n f) i ≡ (if ltb i n then some (f i) else none)
  unfolding new_init
  get_elem?-new_init n f i = get_elem?-push_range [] 0 n f i refl ∙ ground arith

  -- grow_to keeps the elements that are there, and fills up to the new size by the function.
  get_elem?-grow_to :
      (v : List A) (n : ℕ) (f : ℕ → A) (i : ℕ)
      → get_elem? (grow_to v n f) i
        ≡ (if ltb i (length v) then get_elem? v i else if ltb i n then some (f i) else none)
  unfolding grow_to
  get_elem?-grow_to v n f i = elim (Bool-cases (ltb (length v) n)) [
    | inl t ↦
        let whole : length v + (n - length v) ≡ n = ground arith in
        rw (grow_to, t) (get_elem?-push_range v (length v) (n - length v) f i refl ∙ rw whole refl)
    | inr g ↦ elim (Bool-cases (ltb i (length v))) [
      | inl t ↦ rw (grow_to, g, t) refl
      | inr h ↦
          let beyond : ltb i n ≡ false = ground arith in
          rw (grow_to, g, h, beyond) (get_elem?-past v i h)
    ]
  ]

-- What push_unique leaves.
collected :
    (v : List ℕ) (t : ℕ)
    → Distinct v
    → Distinct (push_unique v t).0 × ((a : ℕ) → has a (push_unique v t).0 ≡ (has a v || (a == t)))
unfolding push_unique push_back
collected v t d = go (index_of t v) refl
  where
    go :
        (o : Option ℕ)
        → index_of t v ≡ o
        → Distinct (push_unique v t).0
          × ((a : ℕ) → has a (push_unique v t).0 ≡ (has a v || (a == t)))
    go none e =
        let new = missing-removed_value t v e in
        rw (push_unique, e)
          (
            append-Distinct v (t ∷ []) d (refl, tt) λ a h. ground (arith, ==→≡ a t, new, h),
            λ a. ground (arith, has-append a v (t ∷ [])),
          )
    go (some i) e =
        let there = found-removed_value t i v e in
        rw (push_unique, e) (d, λ a. ground (arith, there, ==→≡ a t))

collected_into :
    (items v : List ℕ)
    → Distinct v
    → Distinct (collect_into v items)
      × ((a : ℕ) → has a (collect_into v items) ≡ (has a v || has a items))
unfolding collect_into
collected_into [] v d = (d, λ a. ground arith)
collected_into (t ∷ items) v d =
    let first = collected v t d in
    let rest = collected_into items (push_unique v t).0 first.0 in
    (rest.0, λ a. ground (arith, rest.1 a, first.1 a))

-- collect_unique collects every item of the iterator, each exactly once.
collect_unique-Distinct :
    (items : List ℕ)
    → Distinct (collect_unique items) × ((a : ℕ) → has a (collect_unique items) ≡ has a items)
unfolding collect_unique
collect_unique-Distinct items = collected_into items [] tt
