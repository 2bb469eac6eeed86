-- ===== src/Ir/Results.antt =====
-- src/value.rs, src/operation.rs, src/basic_block.rs: values, the results of operations and the
-- arguments of blocks. What an operation drops and gains of both kinds of uses at once.
use pliron.Prelude.{
  ℕ, ◌+◌, Bool, false, not, ◌||◌, Option, some, List, [], ◌∷◌, ◌==◌, ◌>>=◌, length,
}
use pliron.SmallTable.Vec.{get_elem?}
use pliron.VecExns.{push_back}
use pliron.DefUse.{
  init_operands, drop_operands, push_operand, pop_operand, insert_operand, remove_operand,
  replace_operand,
}
use pliron.Ir.{
  op, block, Value, ValueDef, Operation, Context, update, get_new_value_uid, get_value_def,
  set_value_def, get_defnode, preds, Values, Blocks,
}

-- `OpResult::new` and `BlockArgument::new`
unfoldable pub new_value_def : Context → (ty : ℕ) → ValueDef × Context
new_value_def ctx ty =
    let fresh = get_new_value_uid ctx in (record { def = []; val_uid = fresh.0; ty = ty }, fresh.1)

unfoldable pub push_result : Context → (this ty : ℕ) → Option (ℕ × Context)
push_result ctx this ty = do
  let (new_result, ctx) = new_value_def ctx ty
  o ← ctx.operations this
  let (results, index) = push_back o.results new_result
  some (
    index,
    record ctx { operations = update ctx.operations this (record o { results = results }) },
  )

unfoldable pub push_argument : Context → (this ty : ℕ) → Option (ℕ × Context)
push_argument ctx this ty = do
  let (new_arg, ctx) = new_value_def ctx ty
  b ← ctx.basic_blocks this
  let (args, index) = push_back b.args new_arg
  some
      (index, record ctx { basic_blocks = update ctx.basic_blocks this (record b { args = args }) })

unfoldable pub get_result : Context → (this idx : ℕ) → Option Value
get_result ctx this idx = do
  o ← ctx.operations this
  r ← get_elem? o.results idx
  some (record { val_uid = r.val_uid; defining_entity = op this })

unfoldable pub get_argument : Context → (this idx : ℕ) → Option Value
get_argument ctx this idx = do
  b ← ctx.basic_blocks this
  r ← get_elem? b.args idx
  some (record { val_uid = r.val_uid; defining_entity = block this })

unfoldable pub get_type : Context → Value → Option ℕ
get_type ctx self = get_value_def ctx self >>= λ d. some d.ty

unfoldable pub set_type : Context → Value → (ty : ℕ) → Option Context
set_type ctx self ty = get_value_def ctx self >>= λ d. set_value_def ctx self (record d { ty = ty })

unfoldable pub num_uses : Context → Value → Option ℕ
num_uses ctx self = get_defnode ctx self >>= λ uses. some (length uses)

unfoldable pub is_used : Context → Value → Option Bool
is_used ctx self = get_defnode ctx self >>= λ uses. some (not (length uses == 0))

-- `self.results.iter().any(|res| res.def.is_used())`, and the fold that adds up the uses.
unfoldable pub any_used : List ValueDef → Bool
any_used [] = false
any_used (r ∷ l) = not (length r.def == 0) || any_used l

unfoldable pub has_use : Operation → Bool
has_use self = any_used self.results

unfoldable pub add_uses : ℕ → List ValueDef → ℕ
add_uses count [] = count
add_uses count (r ∷ l) = add_uses (count + length r.def) l

unfoldable pub op_num_uses : Operation → ℕ
op_num_uses self = add_uses 0 self.results

-- `Operation::drop_all_uses`, for an operation without regions.
unfoldable pub drop_all_uses : Context → (ptr : ℕ) → Option Context
drop_all_uses ctx ptr = drop_operands Values ctx ptr >>= λ ctx'. drop_operands Blocks ctx' ptr

-- What `Operation::new` puts in the operation that it allocated, if it has no regions.
unfoldable pub new_results : Context → (result_types : List ℕ) → List ValueDef × Context
new_results ctx [] = ([], ctx)
new_results ctx (ty ∷ types) =
    let (r, ctx') = new_value_def ctx ty in
    let (rest, ctx'') = new_results ctx' types in (r ∷ rest, ctx'')

unfoldable pub init_results : Context → (newop : ℕ) → (result_types : List ℕ) → Option Context
init_results ctx newop result_types = do
  let (results, ctx) = new_results ctx result_types
  o ← ctx.operations newop
  some (record ctx { operations = update ctx.operations newop (record o { results = results }) })

unfoldable pub init_operation :
    Context
    → (newop : ℕ) → (result_types : List ℕ) → List Value
    → (successors : List ℕ) → Option Context
init_operation ctx newop result_types operands successors = do
  ctx ← init_results ctx newop result_types
  ctx ← init_operands Values ctx newop operands
  init_operands Blocks ctx newop successors

-- The methods on successors are those on operands, with blocks for definitions.
unfoldable pub push_successor : Context → (this new_succ : ℕ) → Option (ℕ × Context)
push_successor ctx this new_succ = push_operand Blocks ctx this new_succ

unfoldable pub pop_successor : Context → (this : ℕ) → Option (ℕ × Context)
pop_successor ctx this = pop_operand Blocks ctx this

unfoldable pub insert_successor : Context → (this succ_idx new_succ : ℕ) → Option Context
insert_successor ctx this succ_idx new_succ = insert_operand Blocks ctx this succ_idx new_succ

unfoldable pub remove_successor : Context → (this succ_idx : ℕ) → Option (ℕ × Context)
remove_successor ctx this succ_idx = remove_operand Blocks ctx this succ_idx

unfoldable pub replace_successor : Context → (this succ_idx other : ℕ) → Option Context
replace_successor ctx this succ_idx other = replace_operand Blocks ctx this succ_idx other

unfoldable pub has_pred : Context → (self : ℕ) → Option Bool
has_pred ctx self = preds ctx self >>= λ uses. some (not (length uses == 0))

unfoldable pub num_preds : Context → (self : ℕ) → Option ℕ
num_preds ctx self = preds ctx self >>= λ uses. some (length uses)
