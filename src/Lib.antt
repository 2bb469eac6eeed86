-- ===== src/Lib.antt =====
-- A verification library for pliron, a compiler framework for SSA intermediate representations.
--
-- The program keeps operations, basic blocks and regions in arenas of a context. The operations
-- of a block and the blocks of a region are doubly linked lists through those arenas
-- (src/linked_list.rs). Values and blocks list the operands and successors that use them, and
-- operations hold these with the definitions they use (src/value.rs, src/operation.rs). The
-- analyses and passes stand on small data structures: disjoint sets (src/utils/union_find.rs),
-- small maps and sets (src/utils/table.rs), and integers of any width that constant folding
-- computes with (src/utils/apint.rs); sparse conditional constant propagation keeps its
-- knowledge in a state with a worklist (src/opts/constants/state.rs). Passes ask for the
-- dominator tree of a control flow graph (src/graph/dominance.rs), which a traversal
-- (src/graph/traversals.rs) numbers.
--
-- Prelude: Boolean tests on numbers, the option monad in which `none` is a panic, lists of
-- numbers, integers. `Returns P o` says that the call `o` does not panic and that its result
-- satisfies P.
--
-- LinkedList models src/linked_list.rs. A context is two arenas, of nodes and of containers, as
-- functions from indices; a dangling pointer gives `none`. Each operation is one function with
-- the assertions of the code as `assert`; where the code reads a node that it has already
-- borrowed mutably, a RefCell panics, and so does the model. The loop of append_linked_list runs
-- on fuel, and more fuel than nodes is enough for two different containers. LinkedList.Chain
-- says when the pointers form a list, Splice what the insertions share, Insert and Ops what each
-- insertion does, Unlink, Append and Iterate the rest, and Panics where the operations panic.
--
-- UnionFind models src/utils/union_find.rs, with hash maps as functions and elements as numbers.
-- find runs on fuel; UnionFind.Represents is the invariant, with a representative and a depth
-- for each element, and union by size keeps 2^depth within the size of the set, so that fuel
-- whose power of two passes the size of the set is enough.
--
-- ApInt models src/utils/apint.rs over the crate awint, which is a parameter: ApInt.Bits lists
-- the operations that the code calls, ApInt.Laws what it relies on, and ApInt.Instance meets the
-- laws by bit vectors as pairs of numbers. A usize has 64 bits. Text conversion and byte slices
-- are not modelled.
--
-- SmallTable models the module smalltable of src/utils/table.rs, maps and sets that are arrays
-- of at most N entries and then indexed tables of the crate indexmap, which are parameters:
-- SmallTable.Index and SmallTable.Set list their methods and what the code relies on, and
-- SmallTable.Instance meets it by lists. Vec has the methods of arrays that the code calls, Map
-- and Set the operations, Remove, Update and Values the lemmas on arrays, and Laws, Entries,
-- Modify, Collect and SetOps what each operation does to the entries, whichever the
-- representation.
--
-- Sccp models src/opts/constants/state.rs, the state of sparse conditional constant propagation,
-- with the worklist an indexed set of the same interface. What the analysis reads of the IR is
-- the record Ir, and the order in which walk_op visits nodes is an argument. Steps takes every
-- operation on the state as a step, Process has two of the ways in which
-- src/opts/constants/sccp.rs processes an operation, over the parameter Dialect, and Fold what
-- the first of them does.
--
-- Graph models src/graph: mod.rs, the trait ControlFlowGraph as a record with nodes as numbers;
-- traversals.rs, in Traversals, where the walk of a component runs on fuel and the nodes and
-- edges of the graph (size) are enough; and of dominance.rs, in Dominance, the fixpoint of
-- compute_dominator_tree over indices in the reverse post-order, with one round more than there
-- are nodes as fuel, and in Dominance.Tree the whole function and the queries of DomTree.
-- Traversals.Walk and Steps have the invariant of the walk, Component and Order what it adds and
-- the whole order, Reversed and Topological the order that is its reverse. Dominance.Walks has
-- walks and domination by index, Ancestors the invariant of the array, Intersect the nearest
-- common ancestor, Update, Budget and Loop that each round settles the nodes that walks with one
-- more back edge reach. In Dominance.Tree, Numbers and Paths go from indices to nodes, Nodes,
-- Build and Link build the tree, and Queries, Correct and Answers lead to Dominators.
-- Dominance.Frontier has the dominance frontiers: Runners what the insertions do, Below which
-- nodes they are for, Lone the nodes that are skipped, Correct the loops, with as many steps per
-- node as the tree has nodes. That the entry has no predecessors, as src/region.rs asks, is a
-- hypothesis.
--
-- DefUse models the def-use chains of src/value.rs and the operands of src/operation.rs: a
-- definition lists its uses, an operation has an operand for each. The record DefUse.Chains is
-- what the traits DefTrait and UseTrait give, and each method is one function over it. A small
-- set of uses is the list of its elements, as SmallTable shows that it acts in either form.
-- Count, Uses and Redirect are about lists; Linked and WellLinked have the invariant, that
-- operands and uses match one to one and identifiers are new; Stored, Operands, PushPop, Panics
-- and Batch the methods of operations; Move, Replace and ReplaceAll the replacement of uses;
-- Verify and Verifier the verifier, but for its check of types; and Keeps what the operations on
-- one kind of chains leave alone.
--
-- Ir has the objects of src/operation.rs, src/basic_block.rs and src/context.rs as far as these
-- chains go, with arenas as functions from pointers, and the two implementations of Chains:
-- Values, for values and operands, and Blocks, for blocks and successors, whose laws are in
-- Ir.Places and Ir.Laws. The methods on successors are those on operands over Blocks, in
-- Ir.Results with the other methods on both. Whole, Grow, Create, Push, Init and Successors have
-- what is shown of them, and Retarget the blocks that branches go to, with the block that an
-- operation is in an argument. The IR of Sample serves the Examples. The names of results and
-- arguments, which are attributes, are left out.
--
-- VecExns models src/utils/vec_exns.rs, the extensions of vectors.
--
-- Not modelled: the allocation of objects and their erasure, the removal of results and arguments,
-- regions, post-dominators and the other graph analyses, the other passes and the rewriters.
-- Printing, parsing, the derive macros, the LLVM bindings and the lints are text processing,
-- generated code and foreign calls.
pub mod ApInt
pub mod DefUse
pub mod Graph
pub mod Ir
pub mod LinkedList
pub mod Prelude
pub mod Sccp
pub mod SmallTable
pub mod UnionFind
pub mod VecExns
