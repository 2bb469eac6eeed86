-- ===== src/Sccp.antt =====
-- src/opts/constants/state.rs: the state of sparse conditional constant propagation. Attributes,
-- values, operations, blocks and regions are numbers; a hash map is a function; the worklist is an
-- indexed set. The analysis only reads the IR: `Ir` is what it reads.
pub mod Lattice
pub mod Merge
pub mod Steps
pub mod Start
pub mod Process
pub mod Fold
mod Examples
use pliron.Prelude.{ℕ, Bool, true, false, Option, none, some, List, [], ◌∷◌, ◌==◌, if◌then◌else◌}
use pliron.SmallTable.Set.{IndexSet}

pub data Constness : Type 0 where
  undetermined : Constness
  constant : (val : ℕ) → Constness
  not_a_constant : Constness

unfoldable pub leq : Constness → Constness → Bool
leq not_a_constant b = true
leq undetermined undetermined = true
leq undetermined (constant vb) = false
leq undetermined not_a_constant = false
leq (constant va) undetermined = true
leq (constant va) (constant vb) = va == vb
leq (constant va) not_a_constant = false

unfoldable pub meet : Constness → Constness → Constness
meet not_a_constant b = not_a_constant
meet undetermined not_a_constant = not_a_constant
meet undetermined undetermined = undetermined
meet undetermined (constant vb) = constant vb
meet (constant va) not_a_constant = not_a_constant
meet (constant va) undetermined = constant va
meet (constant va) (constant vb) = if va == vb then constant va else not_a_constant

-- `unwrap_or(Constness::NotAConstant)`
abbrev pub unwrap_or_bottom : Option Constness → Constness
unwrap_or_bottom none = not_a_constant
unwrap_or_bottom (some c) = c

pub record Ir : Type 0 where
  pub results : ℕ → List ℕ
  pub regions : ℕ → List ℕ
  pub next : ℕ → Option ℕ
  pub entry_block : ℕ → Option ℕ
  pub arguments : ℕ → List ℕ
  pub head : ℕ → Option ℕ
  -- The operations that use a value, in the order of its uses.
  pub users : ℕ → List ℕ

pub data IrNode : Type 0 where
  operation : ℕ → IrNode
  basic_block : ℕ → IrNode
  region : ℕ → IrNode

module _ (lib : IndexSet) where
  pub record SccpState : Type 0 where
    pub root_op : ℕ
    pub val_states : ℕ → Option Constness
    pub reachable_ops : ℕ → Bool
    pub op_worklist : lib.Set

  unfoldable pub get_val_state : SccpState → ℕ → Constness
  get_val_state s val = unwrap_or_bottom (s.val_states val)

  unfoldable pub is_reachable : SccpState → ℕ → Bool
  is_reachable s op = s.reachable_ops op

  unfoldable pub set_val : SccpState → ℕ → Constness → SccpState
  set_val s val c = record {
    root_op = s.root_op;
    val_states = λ v. if v == val then some c else s.val_states v;
    reachable_ops = s.reachable_ops;
    op_worklist = s.op_worklist;
  }

  unfoldable pub enqueue : SccpState → ℕ → SccpState
  enqueue s op = record {
    root_op = s.root_op;
    val_states = s.val_states;
    reachable_ops = s.reachable_ops;
    op_worklist = (lib.insert s.op_worklist op).0;
  }

  unfoldable pub set_reachable : SccpState → ℕ → SccpState
  set_reachable s op = record {
    root_op = s.root_op;
    val_states = s.val_states;
    reachable_ops = λ o. if o == op then true else s.reachable_ops o;
    op_worklist = s.op_worklist;
  }

  -- The loop over the users of a value.
  unfoldable pub enqueue_users : List ℕ → SccpState → SccpState
  enqueue_users [] s = s
  enqueue_users (user ∷ us) s = enqueue_users us (if is_reachable s user then enqueue s user else s)

  unfoldable pub merge_val_state : Ir → SccpState → ℕ → Constness → SccpState
  merge_val_state ir s val incoming =
      let old = get_val_state s val in
      let new = meet old incoming in
      if leq old new then s else enqueue_users (ir.users val) (set_val s val new)

  unfoldable pub mark_reachable : SccpState → ℕ → SccpState
  mark_reachable s op = if is_reachable s op then s else enqueue (set_reachable s op) op

  unfoldable pub mark_if_some : SccpState → Option ℕ → SccpState
  mark_if_some s none = s
  mark_if_some s (some op) = mark_reachable s op

  unfoldable pub mark_block_reachable : Ir → SccpState → ℕ → SccpState
  mark_block_reachable ir s block = mark_if_some s (ir.head block)

  unfoldable pub mark_next_reachable : Ir → SccpState → ℕ → SccpState
  mark_next_reachable ir s op = if op == s.root_op then s else mark_if_some s (ir.next op)

  unfoldable pub is_block_reachable : Ir → SccpState → ℕ → Bool
  is_block_reachable ir s block = elim (ir.head block) [
    | none ↦ false
    | some first ↦ is_reachable s first
  ]

  unfoldable pub pop_op : SccpState → SccpState × Option ℕ
  pop_op s = (
    record {
      root_op = s.root_op;
      val_states = s.val_states;
      reachable_ops = s.reachable_ops;
      op_worklist = (lib.pop s.op_worklist).0;
    },
    (lib.pop s.op_worklist).1,
  )

  unfoldable pub merge_arguments : Ir → SccpState → List ℕ → SccpState
  merge_arguments ir s [] = s
  merge_arguments ir s (arg ∷ args) =
      merge_arguments ir (merge_val_state ir s arg not_a_constant) args

  unfoldable pub seed_entry : Ir → SccpState → Option ℕ → SccpState
  seed_entry ir s none = s
  seed_entry ir s (some entry) =
      mark_block_reachable ir (merge_arguments ir s (ir.arguments entry)) entry

  unfoldable pub seed_regions : Ir → SccpState → List ℕ → SccpState
  seed_regions ir s [] = s
  seed_regions ir s (r ∷ rs) = seed_regions ir (seed_entry ir s (ir.entry_block r)) rs

  unfoldable pub seed_nested_regions : Ir → SccpState → ℕ → SccpState
  seed_nested_regions ir s op = seed_regions ir s (ir.regions op)

  unfoldable pub extend_undetermined : SccpState → List ℕ → SccpState
  extend_undetermined s [] = s
  extend_undetermined s (value ∷ values) = extend_undetermined (set_val s value undetermined) values

  -- The callback of the walk.
  unfoldable pub visit : Ir → SccpState → IrNode → SccpState
  visit ir s (operation op) = if op == s.root_op then s else extend_undetermined s (ir.results op)
  visit ir s (basic_block b) = extend_undetermined s (ir.arguments b)
  visit ir s (region r) = s

  unfoldable pub visit_all : Ir → SccpState → List IrNode → SccpState
  visit_all ir s [] = s
  visit_all ir s (node ∷ nodes) = visit_all ir (visit ir s node) nodes

  -- The nodes are those that walk_op visits, in its order.
  unfoldable pub new : Ir → List IrNode → ℕ → SccpState
  new ir nodes root_op =
      let empty : SccpState = record {
        root_op = root_op;
        val_states = λ v. none;
        reachable_ops = λ o. false;
        op_worklist = lib.new;
      } in
      seed_nested_regions ir (visit_all ir empty nodes) root_op
