-- ===== src/DefUse.antt =====
-- src/value.rs, src/operation.rs: def-use chains. A definition, a value or a block, lists its uses,
-- and an operation has an operand for each. The traits DefTrait and UseTrait are the record Chains,
-- `none` is a panic, and a SmallSet is the list of its elements.
mod Count
pub mod Uses
pub mod Linked
pub mod WellLinked
pub mod Stored
pub mod Operands
pub mod Panics
pub mod Redirect
mod Move
pub mod Replace
pub mod ReplaceAll
pub mod Verify
pub mod Verifier
pub mod Batch
pub mod Keeps
pub mod PushPop
use pliron.Prelude.{
  ℕ, zero, suc, ◌+◌, ◌-◌, ◌≡◌, Bool, true, false, not, ◌&&◌, Option, none, some, List, [], ◌∷◌,
  ◌++◌, ◌==◌, ltb, leb, if◌then◌else◌, ◌>>=◌, ◌>>◌, assert, length, is_some,
}
use pliron.VecExns.{push_back}
use pliron.SmallTable.Vec.{get_elem?, set, swap_remove, next}

pub record Use : Type 0 where
  pub user_op : ℕ
  pub use_uid : ℕ

-- An operand, with the definition that its UseNode points to.
pub record Operand (T : Type 0) : Type 0 where
  pub def : T
  pub use_uid : ℕ

abbrev pub same_use : Use → Use → Bool
same_use a b = a.user_op == b.user_op && a.use_uid == b.use_uid

unfoldable pub has_use_of : List Use → Use → Bool
has_use_of [] u = false
has_use_of (x ∷ uses) u = if same_use u x then true else has_use_of uses u

unfoldable pub use_index : List Use → Use → Option ℕ
use_index [] u = none
use_index (x ∷ uses) u = if same_use u x then some 0 else next (use_index uses u)

-- An insertion that finds the use there is a panic.
unfoldable pub add_use : List Use → Use → Option (List Use)
add_use uses u = if has_use_of uses u then none else some (uses ++ u ∷ [])

-- `uses.remove(use)`: what is left.
unfoldable pub without_use : List Use → Use → List Use
without_use uses u = elim (use_index uses u) [ none ↦ uses | some i ↦ swap_remove uses i ]

unfoldable pub remove_use : List Use → Use → Option (List Use)
remove_use uses u = if has_use_of uses u then some (without_use uses u) else none

-- `Vec::insert` and `Vec::remove`, at an index within bounds.
module _ {A : Type 0} where
  unfoldable pub insert_at : List A → ℕ → A → List A
  insert_at l zero a = a ∷ l
  insert_at [] (suc i) a = a ∷ []
  insert_at (x ∷ l) (suc i) a = x ∷ insert_at l i a

  unfoldable pub remove_at : List A → ℕ → List A
  remove_at [] i = []
  remove_at (x ∷ l) zero = l
  remove_at (x ∷ l) (suc i) = x ∷ remove_at l i

-- `iter().position(|operand| operand.use_uid == use_uid)`
unfoldable pub operand_index : {T : Type 0} → List (Operand T) → ℕ → Option ℕ
operand_index [] uid = none
operand_index (o ∷ l) uid = if o.use_uid == uid then some 0 else next (operand_index l uid)

-- How a kind of definitions, and the operands that use them, are kept in a context. To write is to
-- replace what was read; `in_operation` says that the definition's uses are a part of an operation.
pub record Chains : Type 1 where
  pub Context : Type 0
  pub Def : Type 0
  pub eq : Def → Def → Bool
  pub get_defnode : Context → Def → Option (List Use)
  pub set_defnode : Context → Def → List Use → Context
  pub get_operands : Context → ℕ → Option (List (Operand Def))
  pub set_operands : Context → ℕ → List (Operand Def) → Context
  pub use_counter : Context → ℕ
  pub set_use_counter : Context → ℕ → Context
  pub in_operation : Def → ℕ → Bool

module _ (c : Chains) where
  open c use {
    Context, Def, eq, get_defnode, set_defnode, get_operands, set_operands, use_counter,
    set_use_counter, in_operation,
  }

  unfoldable pub get_new_use_uid : Context → ℕ × Context
  get_new_use_uid ctx = (use_counter ctx, set_use_counter ctx (use_counter ctx + 1))

  unfoldable pub new_operand : Context → Def → (user_op : ℕ) → Option (Operand Def × Context)
  new_operand ctx def user_op = do
    let fresh = get_new_use_uid ctx
    let u : Use = record { user_op = user_op; use_uid = fresh.0 }
    uses ← get_defnode fresh.1 def
    uses ← add_use uses u
    some (record { def = def; use_uid = fresh.0 }, set_defnode fresh.1 def uses)

  unfoldable pub drop_use : Context → Operand Def → (op : ℕ) → Option Context
  drop_use ctx o op = do
    uses ← get_defnode ctx o.def
    uses ← remove_use uses (record { user_op = op; use_uid = o.use_uid })
    some (set_defnode ctx o.def uses)

  unfoldable pub push_operand : Context → (this : ℕ) → Def → Option (ℕ × Context)
  push_operand ctx this new_opd = do
    (o, ctx) ← new_operand ctx new_opd this
    operands ← get_operands ctx this
    let (operands, index) = push_back operands o
    some (index, set_operands ctx this operands)

  -- The operation is still borrowed when the old operand drops its use.
  unfoldable pub replace_operand : Context → (this opd_idx : ℕ) → Def → Option Context
  replace_operand ctx this opd_idx other = do
    (o, ctx) ← new_operand ctx other this
    operands ← get_operands ctx this
    old ← get_elem? operands opd_idx
    let ctx = set_operands ctx this (set operands opd_idx o)
    assert (not (in_operation old.def this))
    drop_use ctx old this

  unfoldable pub insert_operand : Context → (this opd_idx : ℕ) → Def → Option Context
  insert_operand ctx this opd_idx new_opd = do
    (o, ctx) ← new_operand ctx new_opd this
    operands ← get_operands ctx this
    assert (leb opd_idx (length operands))
    some (set_operands ctx this (insert_at operands opd_idx o))

  unfoldable pub remove_operand : Context → (this opd_idx : ℕ) → Option (Def × Context)
  remove_operand ctx this opd_idx = do
    operands ← get_operands ctx this
    o ← get_elem? operands opd_idx
    ctx ← drop_use (set_operands ctx this (remove_at operands opd_idx)) o this
    some (o.def, ctx)

  unfoldable pub pop_operand : Context → (this : ℕ) → Option (Def × Context)
  pop_operand ctx this = do
    operands ← get_operands ctx this
    assert (ltb 0 (length operands))
    remove_operand ctx this (length operands - 1)

  -- What `Operation::new` does for the operands of the operation that it allocated.
  unfoldable pub new_operands :
      Context → (newop : ℕ) → List Def → Option (List (Operand Def) × Context)
  new_operands ctx newop [] = some ([], ctx)
  new_operands ctx newop (def ∷ defs) = new_operand ctx def newop >>= λ (o, ctx').
      new_operands ctx' newop defs >>= λ (rest, ctx''). some (o ∷ rest, ctx'')

  unfoldable pub init_operands : Context → (newop : ℕ) → List Def → Option Context
  init_operands ctx newop defs = do
    (operands, ctx) ← new_operands ctx newop defs
    get_operands ctx newop
    some (set_operands ctx newop operands)

  -- What `Operation::drop_all_uses` does for the operands.
  unfoldable pub drop_each : Context → List (Operand Def) → (op : ℕ) → Option Context
  drop_each ctx [] op = some ctx
  drop_each ctx (o ∷ operands) op = drop_use ctx o op >>= λ ctx'. drop_each ctx' operands op

  unfoldable pub drop_operands : Context → (op : ℕ) → Option Context
  drop_operands ctx op = do
    operands ← get_operands ctx op
    drop_each (set_operands ctx op []) operands op

  -- `Use::get_def`: the definition of the operand that has the use's identifier.
  unfoldable pub get_def : Context → Use → Option Def
  get_def ctx self = do
    operands ← get_operands ctx self.user_op
    index ← operand_index operands self.use_uid
    o ← get_elem? operands index
    some o.def

  -- `this` and `other` are two definitions, and `theirs` are the uses of `other`.
  unfoldable pub move_use :
      Context → (this : Def) → Use → (other : Def) → (theirs : List Use) → Option Context
  move_use ctx this u other theirs = do
    uses ← add_use theirs u
    let ctx = set_defnode ctx other uses
    operands ← get_operands ctx u.user_op
    i ← operand_index operands u.use_uid
    let ctx =
        set_operands ctx u.user_op (set operands i (record { def = other; use_uid = u.use_uid }))
    uses ← get_defnode ctx this
    some (set_defnode ctx this (without_use uses u))

  unfoldable pub replace_use_with : Context → (this : Def) → Use → (other : Def) → Option Context
  replace_use_with ctx this u other = do
    get_defnode ctx this
    theirs ← get_defnode ctx other
    if eq this other then some ctx else move_use ctx this u other theirs

  -- The loop over the touched uses.
  unfoldable pub replace_each : Context → Def → List Use → Def → Option Context
  replace_each ctx this [] other = some ctx
  replace_each ctx this (u ∷ uses) other =
      replace_use_with ctx this u other >>= λ ctx'. replace_each ctx' this uses other

  unfoldable pub satisfying : (Use → Bool) → List Use → List Use
  satisfying predicate [] = []
  satisfying predicate (u ∷ uses) =
      if predicate u then u ∷ satisfying predicate uses else satisfying predicate uses

  unfoldable pub replace_some_uses_with :
      Context → Def → (Context → Use → Bool) → Def → Option Context
  replace_some_uses_with ctx this predicate other =
      get_defnode ctx this >>= λ uses. replace_each ctx this (satisfying (predicate ctx) uses) other

  unfoldable pub replace_all_uses_with : Context → Def → Def → Option Context
  replace_all_uses_with ctx this other = replace_some_uses_with ctx this (λ _ _. true) other

  -- `Operand::verify`, for each operand.
  unfoldable pub verify_operands : Context → (user_op : ℕ) → List (Operand Def) → Option Bool
  verify_operands ctx user_op [] = some true
  verify_operands ctx user_op (o ∷ l) = get_defnode ctx o.def >>= λ uses.
      let rest = verify_operands ctx user_op l in
      if has_use_of uses (record { user_op = user_op; use_uid = o.use_uid })
      then rest
      else some false

  -- `Value::verify` but for the type: each use stands for an operand that has the value.
  unfoldable pub verify_uses : Context → (this : Def) → List Use → Option Bool
  verify_uses ctx this [] = some true
  verify_uses ctx this (u ∷ us) = get_operands ctx u.user_op >>= λ operands.
      let rest = verify_uses ctx this us in
      elim (operand_index operands u.use_uid) [
        | none ↦ some false
        | some i ↦ get_elem? operands i >>= λ o. if eq o.def this then rest else some false
      ]

  unfoldable pub verify_value : Context → (this : Def) → Option Bool
  verify_value ctx this = get_defnode ctx this >>= λ uses. verify_uses ctx this uses
