-- ===== src/Ir/Successors.antt =====
-- The successors of an operation and the predecessors of blocks.
use pliron.Prelude.{ℕ, ◌≡◌, refl, some, List, Returns}
use pliron.SmallTable.Vec.{get_elem?, set}
use pliron.DefUse.{Use, Operand}
use pliron.DefUse.Stored.{Becomes, fresh_operand}
use pliron.DefUse.Operands.{replace_operand-Becomes}
use pliron.Ir.{Context, preds, successors, Blocks}
use pliron.Ir.Laws.{Blocks-laws}
use pliron.Ir.Results.{replace_successor}
use pliron.Ir.Whole.{WellFormed}

-- replace_successor, unlike replace_operand, has no successor that it panics at: in a well-formed
-- context, within bounds and with a live block, it puts the block in the place of the one at the
-- index, with a new use, and the old block loses its use.
pub replace_successor-Becomes :
    (ctx : Context) (p i b : ℕ) (l : List (Operand ℕ)) (old : Operand ℕ) {us : List Use}
    → WellFormed ctx
    → preds ctx b ≡ some us
    → successors ctx p ≡ some l
    → get_elem? l i ≡ some old
    → Returns
        (Becomes Blocks ctx p (set l i (fresh_operand Blocks ctx b)))
        (replace_successor ctx p i b)
unfolding replace_successor
replace_successor-Becomes ctx p i b l old w there e at =
    replace_operand-Becomes Blocks-laws ctx p i b l old w.blocks there e at refl
