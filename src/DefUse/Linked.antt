-- ===== src/DefUse/Linked.antt =====
-- The two directions of the def-use chains agree: a definition lists a use for each operand that
-- has it, and no other. The context may be in the middle of a change, so the operands that each
-- operation counts as holding are given apart.
use pliron.Prelude.{
  ℕ, ◌+◌, ◌<◌, ◌≡◌, refl, sym, ap, ◌∙◌, Bool, true, false, ◌&&◌, some, List, [], ◌∷◌, ◌++◌, arith,
  ◌==◌, if◌then◌else◌, ◌⊎◌, Bool-cases, Option-cases, inl, inr,
}
use pliron.DefUse.{Use, Operand, Chains, same_use, without_use}
use pliron.DefUse.Count.{one_if, count, count-append}
use pliron.DefUse.Uses.{or_empty, count-without_use}

-- What an implementation of the traits keeps apart.
pub record ChainLaws (c : Chains) : Type 0 where
  pub eq_refl : (d : c.Def) → c.eq d d ≡ true
  pub eq→≡ : (d e : c.Def) → c.eq d e ≡ true → d ≡ e
  pub get-set_defnode :
      (ctx : c.Context) (d e : c.Def) (l old : List Use)
      → c.get_defnode ctx d ≡ some old
      → c.get_defnode (c.set_defnode ctx d l) e ≡ (if c.eq d e then some l else c.get_defnode ctx e)
  pub operands-set_defnode :
      (ctx : c.Context) (d : c.Def) (l : List Use) (p : ℕ)
      → c.get_operands (c.set_defnode ctx d l) p ≡ c.get_operands ctx p
  pub counter-set_defnode :
      (ctx : c.Context) (d : c.Def) (l : List Use)
      → c.use_counter (c.set_defnode ctx d l) ≡ c.use_counter ctx
  pub get-set_operands :
      (ctx : c.Context) (p x : ℕ) (l old : List (Operand c.Def))
      → c.get_operands ctx p ≡ some old
      → c.get_operands (c.set_operands ctx p l) x
        ≡ (if p == x then some l else c.get_operands ctx x)
  pub defnode-set_operands :
      (ctx : c.Context) (p : ℕ) (l : List (Operand c.Def)) (d : c.Def)
      → c.get_defnode (c.set_operands ctx p l) d ≡ c.get_defnode ctx d
  pub counter-set_operands :
      (ctx : c.Context) (p : ℕ) (l : List (Operand c.Def))
      → c.use_counter (c.set_operands ctx p l) ≡ c.use_counter ctx
  pub counter-set : (ctx : c.Context) (n : ℕ) → c.use_counter (c.set_use_counter ctx n) ≡ n
  pub defnode-set_use_counter :
      (ctx : c.Context) (n : ℕ) (d : c.Def)
      → c.get_defnode (c.set_use_counter ctx n) d ≡ c.get_defnode ctx d
  pub operands-set_use_counter :
      (ctx : c.Context) (n p : ℕ)
      → c.get_operands (c.set_use_counter ctx n) p ≡ c.get_operands ctx p

abbrev pub has_uid : {T : Type 0} → ℕ → Operand T → Bool
has_uid uid o = o.use_uid == uid

module _ (c : Chains) where
  open c use {Context, Def, eq, get_defnode, get_operands}

  abbrev pub uses_of : Context → Def → List Use
  uses_of ctx d = or_empty (get_defnode ctx d)

  abbrev pub operands_of : Context → ℕ → List (Operand Def)
  operands_of ctx p = or_empty (get_operands ctx p)

  abbrev pub is_operand : Def → ℕ → Operand Def → Bool
  is_operand d uid o = eq o.def d && (o.use_uid == uid)

  -- The operands that operations hold are those listed, once for each, as uses.
  unfoldable pub Linked : (ℕ → List (Operand Def)) → Context → Type 0
  Linked held ctx =
      (d : Def) (p uid : ℕ)
      → count (same_use (record { user_op = p; use_uid = uid })) (uses_of ctx d)
        ≡ count (is_operand d uid) (held p)

  -- An operation holds `o` besides.
  abbrev pub Adds : (held held' : ℕ → List (Operand Def)) (p : ℕ) (o : Operand Def) → Type 0
  Adds held held' p o =
      (x : ℕ) (q : Operand Def → Bool)
      → count q (held' x) ≡ count q (held x) + one_if ((p == x) && q o)

module _ {c : Chains} (laws : ChainLaws c) where
  open c use {Context, Def, eq, get_defnode, set_defnode}

  pub Linked-same :
      (held : ℕ → List (Operand Def)) (ctx ctx' : Context)
      → ((d : Def) → get_defnode ctx' d ≡ get_defnode ctx d)
      → Linked c held ctx
      → Linked c held ctx'
  unfolding Linked
  Linked-same held ctx ctx' same w d p uid = rw (same d) (w d p uid)

  -- Writing one definition's uses.
  pub uses_of-set :
      (ctx : Context) (d e : Def) (l : List Use) {old : List Use}
      → get_defnode ctx d ≡ some old
      → ((eq d e ≡ true) × (uses_of c ctx e ≡ old) × (uses_of c (set_defnode ctx d l) e ≡ l))
        ⊎ ((eq d e ≡ false) × (uses_of c (set_defnode ctx d l) e ≡ uses_of c ctx e))
  uses_of-set ctx d e l {old} there = elim (Bool-cases (eq d e)) [
    | inl t ↦ inl (
      t,
      ap or_empty (ap (get_defnode ctx) (sym (laws.eq→≡ d e t)) ∙ there),
      rw (laws.get-set_defnode ctx d e l old there, t) refl,
    )
    | inr f ↦ inr (f, rw (laws.get-set_defnode ctx d e l old there, f) refl)
  ]

  pub Linked-add :
      (held held' : ℕ → List (Operand Def)) (ctx : Context) (us : List Use) (p : ℕ)
      (o : Operand Def)
      → get_defnode ctx o.def ≡ some us
      → Adds c held held' p o
      → Linked c held ctx
      → Linked c held'
          (set_defnode ctx o.def (us ++ (record { user_op = p; use_uid = o.use_uid }) ∷ []))
  unfolding Linked
  Linked-add held held' ctx us p o e adds w d x uid =
      let u : Use = record { user_op = p; use_uid = o.use_uid } in
      let v : Use = record { user_op = x; use_uid = uid } in
      let linked = w d x uid in
      let one_more = adds x (is_operand c d uid) in
      elim (uses_of-set ctx o.def d (us ++ u ∷ []) e) [
        | inl (t, before, after) ↦
            rw after
              (ground (arith, count-append (same_use v) us (u ∷ []), linked, one_more, before, t))
        | inr (f, same) ↦ rw same (ground (arith, linked, one_more, f))
      ]

  pub held-Adds :
      (held held' : ℕ → List (Operand Def)) (p : ℕ) (o : Operand Def)
      → Adds c held held' p o
      → 0 < count (is_operand c o.def o.use_uid) (held' p)
  held-Adds held held' p o adds =
      ground (arith, adds p (is_operand c o.def o.use_uid), laws.eq_refl o.def)

  -- The definition of an operand that is held has its use.
  pub Linked-present :
      (held : ℕ → List (Operand Def)) (ctx : Context) (us : List Use) (p : ℕ) (o : Operand Def)
      → get_defnode ctx o.def ≡ some us
      → 0 < count (is_operand c o.def o.use_uid) (held p)
      → Linked c held ctx
      → 0 < count (same_use (record { user_op = p; use_uid = o.use_uid })) us
  unfolding Linked
  Linked-present held ctx us p o e h w = ground (arith, w o.def p o.use_uid)

  pub Linked-there :
      (held : ℕ → List (Operand Def)) (ctx : Context) (p : ℕ) (o : Operand Def)
      → 0 < count (is_operand c o.def o.use_uid) (held p)
      → Linked c held ctx
      → (us : List Use) × (get_defnode ctx o.def ≡ some us)
  unfolding Linked
  Linked-there held ctx p o h w = elim (Option-cases (get_defnode ctx o.def)) [
    | inl gone ↦ absurd (ground (arith, w o.def p o.use_uid))
    | inr found ↦ found
  ]

  pub Linked-drop :
      (held held' : ℕ → List (Operand Def)) (ctx : Context) (us : List Use) (p : ℕ)
      (o : Operand Def)
      → get_defnode ctx o.def ≡ some us
      → Adds c held' held p o
      → Linked c held ctx
      → Linked c held'
          (set_defnode ctx o.def (without_use us (record { user_op = p; use_uid = o.use_uid })))
  unfolding Linked
  Linked-drop held held' ctx us p o e adds w d x uid =
      let u : Use = record { user_op = p; use_uid = o.use_uid } in
      let v : Use = record { user_op = x; use_uid = uid } in
      let linked = w d x uid in
      let one_more = adds x (is_operand c d uid) in
      let present = Linked-present held ctx us p o e (held-Adds held' held p o adds) w in
      elim (uses_of-set ctx o.def d (without_use us u) e) [
        | inl (t, before, after) ↦ rw after (
            ground
              (arith, count-without_use (same_use v) us u present, linked, one_more, before, t))
        | inr (f, same) ↦ rw same (ground (arith, linked, one_more, f))
      ]
