-- ===== src/Ir.antt =====
-- src/value.rs, src/operation.rs, src/basic_block.rs, src/context.rs: the objects of the IR, as far
-- as def-use chains go, and the implementations of the traits DefTrait and UseTrait for values and
-- for blocks. An arena is a function from pointers, and `none` at a pointer that is not alive, whose
-- dereference panics.
mod Places
mod Laws
pub mod Results
mod Whole
mod Grow
mod Create
mod Push
mod Init
mod Successors
mod Retarget
mod Sample
mod Examples
use pliron.Prelude.{
  ℕ, zero, suc, ◌+◌, ◌≡◌, Bool, true, false, not, ◌&&◌, Option, none, some, List, [], ◌∷◌, ◌==◌,
  if◌then◌else◌, ◌>>=◌, ◌>>◌, assert, length,
}
use pliron.SmallTable.Vec.{get_elem?, set, next}
use pliron.VecExns.{push_back}
use pliron.DefUse.{Use, Operand, Chains}

pub data DefiningEntity : Type 0 where
  op : ℕ → DefiningEntity
  block : ℕ → DefiningEntity

pub record Value : Type 0 where
  pub val_uid : ℕ
  pub defining_entity : DefiningEntity

-- OpResult and BlockArgument, which have the same fields.
pub record ValueDef : Type 0 where
  pub def : List Use
  pub val_uid : ℕ
  pub ty : ℕ

pub record Operation : Type 0 where
  pub results : List ValueDef
  pub operands : List (Operand Value)
  pub successors : List (Operand ℕ)

pub record BasicBlock : Type 0 where
  pub args : List ValueDef
  pub preds : List Use

pub record Context : Type 0 where
  pub value_counter : ℕ
  pub use_counter : ℕ
  pub operations : ℕ → Option Operation
  pub basic_blocks : ℕ → Option BasicBlock

abbrev pub same_entity : DefiningEntity → DefiningEntity → Bool
same_entity (op p) (op q) = p == q
same_entity (op p) (block q) = false
same_entity (block p) (op q) = false
same_entity (block p) (block q) = p == q

-- Definitions that are alive share a DefNode just if they are the same value.
abbrev pub same_value : Value → Value → Bool
same_value v w = v.val_uid == w.val_uid && same_entity v.defining_entity w.defining_entity

-- A write through a pointer.
abbrev pub update : {A : Type 0} → (ℕ → Option A) → ℕ → A → ℕ → Option A
update f p a x = if p == x then some a else f x

unfoldable pub get_new_value_uid : Context → ℕ × Context
get_new_value_uid ctx = (ctx.value_counter, record ctx { value_counter = ctx.value_counter + 1 })

-- `iter().position(|res| res.val_uid == self.val_uid)`
unfoldable pub uid_index : List ValueDef → ℕ → Option ℕ
uid_index [] uid = none
uid_index (r ∷ l) uid = if r.val_uid == uid then some 0 else next (uid_index l uid)

-- The results of the defining operation, or the arguments of the defining block.
unfoldable pub value_defs : Context → DefiningEntity → Option (List ValueDef)
value_defs ctx (op p) = ctx.operations p >>= λ o. some o.results
value_defs ctx (block b) = ctx.basic_blocks b >>= λ o. some o.args

unfoldable pub with_value_defs : Context → DefiningEntity → List ValueDef → Context
with_value_defs ctx (op p) l = elim (ctx.operations p) [
  | none ↦ ctx
  | some o ↦ record ctx { operations = update ctx.operations p (record o { results = l }) }
]
with_value_defs ctx (block b) l = elim (ctx.basic_blocks b) [
  | none ↦ ctx
  | some o ↦ record ctx { basic_blocks = update ctx.basic_blocks b (record o { args = l }) }
]

-- `Value::find_index`
unfoldable pub find_index : Context → Value → Option ℕ
find_index ctx self = value_defs ctx self.defining_entity >>= λ l. uid_index l self.val_uid

unfoldable pub get_value_def : Context → Value → Option ValueDef
get_value_def ctx self = do
  index ← find_index ctx self
  l ← value_defs ctx self.defining_entity
  get_elem? l index

unfoldable pub set_value_def : Context → Value → ValueDef → Option Context
set_value_def ctx self d = do
  index ← find_index ctx self
  l ← value_defs ctx self.defining_entity
  some (with_value_defs ctx self.defining_entity (set l index d))

unfoldable pub get_defnode : Context → Value → Option (List Use)
get_defnode ctx self = get_value_def ctx self >>= λ d. some d.def

unfoldable pub set_defnode : Context → Value → List Use → Context
set_defnode ctx self uses =
    elim (get_value_def ctx self >>= λ d. set_value_def ctx self (record d { def = uses })) [
      | none ↦ ctx
      | some ctx' ↦ ctx'
    ]

unfoldable pub operands : Context → ℕ → Option (List (Operand Value))
operands ctx p = ctx.operations p >>= λ o. some o.operands

unfoldable pub set_operands : Context → ℕ → List (Operand Value) → Context
set_operands ctx p l = elim (ctx.operations p) [
  | none ↦ ctx
  | some o ↦ record ctx { operations = update ctx.operations p (record o { operands = l }) }
]

unfoldable pub preds : Context → ℕ → Option (List Use)
preds ctx b = ctx.basic_blocks b >>= λ o. some o.preds

unfoldable pub set_preds : Context → ℕ → List Use → Context
set_preds ctx b uses = elim (ctx.basic_blocks b) [
  | none ↦ ctx
  | some o ↦ record ctx { basic_blocks = update ctx.basic_blocks b (record o { preds = uses }) }
]

unfoldable pub successors : Context → ℕ → Option (List (Operand ℕ))
successors ctx p = ctx.operations p >>= λ o. some o.successors

unfoldable pub set_successors : Context → ℕ → List (Operand ℕ) → Context
set_successors ctx p l = elim (ctx.operations p) [
  | none ↦ ctx
  | some o ↦ record ctx { operations = update ctx.operations p (record o { successors = l }) }
]

abbrev pub result_of : Value → ℕ → Bool
result_of v p = same_entity v.defining_entity (op p)

-- Values, which operands use.
abbrev pub Values : Chains
Values = record {
  Context = Context;
  Def = Value;
  eq = same_value;
  get_defnode = get_defnode;
  set_defnode = set_defnode;
  get_operands = operands;
  set_operands = set_operands;
  use_counter = λ ctx. ctx.use_counter;
  set_use_counter = λ ctx n. record ctx { use_counter = n };
  in_operation = result_of;
}

-- Blocks, which successors use. A block is no part of an operation's object.
abbrev pub Blocks : Chains
Blocks = record {
  Context = Context;
  Def = ℕ;
  eq = λ a b. a == b;
  get_defnode = preds;
  set_defnode = set_preds;
  get_operands = successors;
  set_operands = set_successors;
  use_counter = λ ctx. ctx.use_counter;
  set_use_counter = λ ctx n. record ctx { use_counter = n };
  in_operation = λ b p. false;
}
