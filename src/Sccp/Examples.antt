-- ===== src/Sccp/Examples.antt =====
-- The theorems on constant propagation at one operation with a region of one block.
use pliron.Prelude.{none, some, List, [], ◌∷◌, ◌==◌, if◌then◌else◌}
use pliron.SmallTable.Instance.{sets, set_laws}
use pliron.Sccp.{
  Ir, IrNode, operation, basic_block, region, constant, undetermined, leq, meet, SccpState, new,
  merge_val_state, pop_op,
}
use pliron.Sccp.Merge.{Merged, merge_val_state-Merged}
use pliron.Sccp.Steps.{Steps, done, then_step, merging, popping, Advances, Steps-Advances}
use pliron.Prelude.{true, refl, ◌≢◌, ℕ, ◌≡◌, ◌>>=◌}
use pliron.Sccp.{
  get_val_state, visit_all, visit, extend_undetermined, set_val, seed_nested_regions, seed_regions,
  seed_entry, mark_block_reachable, mark_if_some, mark_reachable, is_reachable, set_reachable,
  enqueue, enqueue_users, merge_arguments,
}
use pliron.Sccp.Process.{
  Dialect, process_fold_op, operand_attrs, attrs_of, operand_state, known_state, merge_results,
}
use pliron.Sccp.Fold.{Outcome, process_fold_op-Outcome}
use pliron.Sccp.Start.{new-Steps, new-WorklistReachable}

-- Operation 0 has region 0 with block 0, in which operation 1 defines value 1, and operation 2 uses
-- it and defines value 2.
abbrev tiny : Ir
tiny = record {
  results = λ op. if op == 1 then 1 ∷ [] else if op == 2 then 2 ∷ [] else [];
  regions = λ op. if op == 0 then 0 ∷ [] else [];
  next = λ op. if op == 1 then some 2 else none;
  entry_block = λ r. some 0;
  arguments = λ b. [];
  head = λ b. some 1;
  users = λ v. if v == 1 then 2 ∷ [] else [];
}

abbrev nodes : List IrNode
nodes = operation 0 ∷ region 0 ∷ basic_block 0 ∷ operation 1 ∷ operation 2 ∷ []

abbrev start : SccpState sets
start = new sets tiny nodes 0

abbrev later : SccpState sets
later = merge_val_state sets tiny (pop_op sets start).0 1 (constant 7)

abbrev two_steps : Steps set_laws tiny start later
two_steps = then_step (then_step (done start) (popping start)) (merging _ 1 (constant 7))

merge_val_state-Merged_example :
    Merged set_laws tiny start 1 (constant 7) (merge_val_state sets tiny start 1 (constant 7)) 2
merge_val_state-Merged_example = merge_val_state-Merged set_laws tiny start 1 (constant 7) 2

Steps-Advances_example : Advances set_laws start later
Steps-Advances_example =
    Steps-Advances set_laws tiny two_steps (new-WorklistReachable set_laws tiny nodes 0)

-- Operation 1 folds to 7 and has no operands; operation 2 reads value 1.
abbrev dialect : Dialect
dialect = record {
  ir = tiny;
  operands = λ op. if op == 2 then 1 ∷ [] else [];
  has_ssa_dominance = λ v. true;
  check_fold = λ op attrs. some 7 ∷ [];
}

process_fold_op-Outcome_example :
    Outcome set_laws dialect later 2 (process_fold_op sets dialect later 2)
    × ((v : ℕ) → operand_state sets dialect later v ≢ some undetermined)
process_fold_op-Outcome_example =
    process_fold_op-Outcome set_laws dialect later 2 (new-Steps set_laws tiny nodes 0 two_steps)

-- Value 2, the result of operation 2, gets 7, since value 1 is known.
folded_runs :
    (process_fold_op sets dialect later 2 >>= λ s. some (get_val_state sets s 2))
    ≡ some (constant 7)
unfolding get_val_state new merge_val_state pop_op visit_all visit extend_undetermined set_val
    seed_nested_regions seed_regions seed_entry mark_block_reachable mark_if_some mark_reachable
    is_reachable set_reachable enqueue enqueue_users leq meet merge_arguments process_fold_op
    operand_attrs attrs_of operand_state known_state merge_results
folded_runs = refl
