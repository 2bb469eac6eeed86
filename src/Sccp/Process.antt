-- ===== src/Sccp/Process.antt =====
-- src/opts/constants/sccp.rs: processing an operation that folds, and one that nothing is known of.
-- `Dialect` is what the analysis asks of the IR and of the interfaces that dialects implement;
-- `none` is the assertion on an operand of which nothing is known yet.
use pliron.Prelude.{
  ℕ, Bool, true, false, not, Option, none, some, List, [], ◌∷◌, ◌>>=◌, ◌>>◌, assert,
}
use pliron.SmallTable.Set.{IndexSet, SetLaws}
use pliron.Sccp.{
  Constness, undetermined, constant, not_a_constant, Ir, SccpState, get_val_state, merge_val_state,
}
use pliron.Sccp.Steps.{WorklistReachable, Advances, Steps, done, then_step, merging, Steps-Advances}

pub record Dialect : Type 0 where
  pub ir : Ir
  pub operands : ℕ → List ℕ
  -- Whether the region of the value has SSA dominance.
  pub has_ssa_dominance : ℕ → Bool
  -- `ConstFoldInterface::check_fold` of an operation.
  pub check_fold : ℕ → List (Option ℕ) → List (Option ℕ)

-- `Some(val) => Constness::Constant { val }, None => Constness::NotAConstant`
abbrev pub folded_state : Option ℕ → Constness
folded_state none = not_a_constant
folded_state (some val) = constant val

abbrev pub attr_of : Constness → Option ℕ
attr_of undetermined = none
attr_of (constant val) = some val
attr_of not_a_constant = none

abbrev pub is_undetermined : Constness → Bool
is_undetermined undetermined = true
is_undetermined (constant val) = false
is_undetermined not_a_constant = false

module _ (lib : IndexSet) (d : Dialect) where
  -- The match of `operand_state`.
  unfoldable pub known_state : ℕ → Constness → Option Constness
  known_state val undetermined = do assert (not (d.has_ssa_dominance val)); some not_a_constant
  known_state val (constant c) = some (constant c)
  known_state val not_a_constant = some not_a_constant

  unfoldable pub operand_state : SccpState lib → ℕ → Option Constness
  operand_state s val = known_state val (get_val_state lib s val)

  unfoldable pub attrs_of : SccpState lib → List ℕ → Option (List (Option ℕ))
  attrs_of s [] = some []
  attrs_of s (v ∷ vs) = do c ← operand_state s v; rest ← attrs_of s vs; some (attr_of c ∷ rest)

  unfoldable pub operand_attrs : SccpState lib → ℕ → Option (List (Option ℕ))
  operand_attrs s op = attrs_of s (d.operands op)

  -- The loop over the results and what they fold to.
  unfoldable pub merge_results : SccpState lib → List ℕ → List (Option ℕ) → SccpState lib
  merge_results s [] attrs = s
  merge_results s (res ∷ results) [] = s
  merge_results s (res ∷ results) (attr ∷ attrs) =
      merge_results (merge_val_state lib d.ir s res (folded_state attr)) results attrs

  unfoldable pub process_fold_op : SccpState lib → ℕ → Option (SccpState lib)
  process_fold_op s op = do
    attrs ← operand_attrs s op
    some (merge_results s (d.ir.results op) (d.check_fold op attrs))

  unfoldable pub merge_bottom : SccpState lib → List ℕ → SccpState lib
  merge_bottom s [] = s
  merge_bottom s (res ∷ results) =
      merge_bottom (merge_val_state lib d.ir s res not_a_constant) results

  unfoldable pub process_generic_op : SccpState lib → ℕ → SccpState lib
  process_generic_op s op = merge_bottom s (d.ir.results op)

module _ {lib : IndexSet} (laws : SetLaws lib) (d : Dialect) where
  pub merge_results-Steps :
      (results : List ℕ) (attrs : List (Option ℕ)) {s t : SccpState lib}
      → Steps laws d.ir s t
      → Steps laws d.ir s (merge_results lib d t results attrs)
  unfolding merge_results
  merge_results-Steps [] attrs before = before
  merge_results-Steps (res ∷ results) [] before = before
  merge_results-Steps (res ∷ results) (attr ∷ attrs) before =
      merge_results-Steps results attrs (then_step before (merging _ res (folded_state attr)))

  merge_bottom-Steps :
      (results : List ℕ) {s t : SccpState lib}
      → Steps laws d.ir s t
      → Steps laws d.ir s (merge_bottom lib d t results)
  unfolding merge_bottom
  merge_bottom-Steps [] before = before
  merge_bottom-Steps (res ∷ results) before =
      merge_bottom-Steps results (then_step before (merging _ res not_a_constant))

  -- From a state whose worklist holds reachable operations only, process_generic_op only lowers
  -- values, keeps what is reachable, and queues reachable operations only.
  pub process_generic_op-Advances :
      (s : SccpState lib) (op : ℕ)
      → WorklistReachable laws s
      → Advances laws s (process_generic_op lib d s op)
  unfolding process_generic_op
  process_generic_op-Advances s op w =
      Steps-Advances laws d.ir (merge_bottom-Steps (d.ir.results op) (done s)) w
