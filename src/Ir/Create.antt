-- ===== src/Ir/Create.antt =====
-- The context in which an operation has more results, or a block more arguments.
use pliron.Prelude.{ℕ, ◌≡◌, refl, some, List, ◌++◌, arith, if◌then◌else◌}
use pliron.DefUse.Keeps.{Keeps, Keeps-WellLinked}
use pliron.Ir.{
  DefiningEntity, op, block, ValueDef, Operation, BasicBlock, Context, same_entity, update,
  value_defs, operands, preds, successors, Blocks,
}
use pliron.Ir.Whole.{WellFormed}
use pliron.Ir.Grow.{AllUnused, Grown, Grown-WellLinked}

-- The context in which an operation's results, or a block's arguments, were replaced.
abbrev pub with_results : Context → (n p : ℕ) → Operation → List ValueDef → Context
with_results ctx n p o rs = record ctx {
  value_counter = n;
  operations = update ctx.operations p (record o { results = rs });
}

abbrev pub with_args : Context → (n b : ℕ) → BasicBlock → List ValueDef → Context
with_args ctx n b o rs = record ctx {
  value_counter = n;
  basic_blocks = update ctx.basic_blocks b (record o { args = rs });
}

module _ (ctx : Context) (n p : ℕ) where
  value_defs-with_results :
      (o : Operation) (rs : List ValueDef) (e : DefiningEntity)
      → value_defs (with_results ctx n p o rs) e
        ≡ (if same_entity (op p) e then some rs else value_defs ctx e)
  unfolding value_defs
  value_defs-with_results o rs (op q) = ground arith
  value_defs-with_results o rs (block q) = ground arith

  value_defs-with_args :
      (o : BasicBlock) (rs : List ValueDef) (e : DefiningEntity)
      → value_defs (with_args ctx n p o rs) e
        ≡ (if same_entity (block p) e then some rs else value_defs ctx e)
  unfolding value_defs
  value_defs-with_args o rs (op q) = ground arith
  value_defs-with_args o rs (block q) = ground arith

  pub with_results-Grown :
      (o : Operation) (rs : List ValueDef)
      → ctx.operations p ≡ some o
      → AllUnused rs
      → Grown ctx (op p) o.results rs (with_results ctx n p o (o.results ++ rs))
  unfolding value_defs operands
  with_results-Grown o rs e unused = record {
    before = rw e refl;
    after = value_defs-with_results o (o.results ++ rs);
    unused = unused;
    same_operands = λ q. ground arith;
    same_counter = refl;
  }

  pub with_args-Grown :
      (o : BasicBlock) (rs : List ValueDef)
      → ctx.basic_blocks p ≡ some o
      → AllUnused rs
      → Grown ctx (block p) o.args rs (with_args ctx n p o (o.args ++ rs))
  unfolding value_defs operands
  with_args-Grown o rs e unused = record {
    before = rw e refl;
    after = value_defs-with_args o (o.args ++ rs);
    unused = unused;
    same_operands = λ q. refl;
    same_counter = refl;
  }

  pub with_results-WellFormed :
      (o : Operation) (rs : List ValueDef)
      → ctx.operations p ≡ some o
      → AllUnused rs
      → WellFormed ctx
      → WellFormed (with_results ctx n p o (o.results ++ rs))
  unfolding preds successors
  with_results-WellFormed o rs e unused w =
      let ctx' = with_results ctx n p o (o.results ++ rs) in
      let keeps : Keeps Blocks ctx ctx' = record {
        defnodes = λ b. refl;
        operands = λ q. ground arith;
        counter = omega arith;
      } in
      record {
        values =
            Grown-WellLinked ctx ctx' (op p) o.results rs (with_results-Grown o rs e unused)
              w.values;
        blocks = Keeps-WellLinked ctx ctx' keeps w.blocks;
      }

  pub with_args-WellFormed :
      (o : BasicBlock) (rs : List ValueDef)
      → ctx.basic_blocks p ≡ some o
      → AllUnused rs
      → WellFormed ctx
      → WellFormed (with_args ctx n p o (o.args ++ rs))
  unfolding preds successors
  with_args-WellFormed o rs e unused w =
      let ctx' = with_args ctx n p o (o.args ++ rs) in
      let keeps : Keeps Blocks ctx ctx' = record {
        defnodes = λ b. ground arith;
        operands = λ q. refl;
        counter = omega arith;
      } in
      record {
        values =
            Grown-WellLinked ctx ctx' (block p) o.args rs (with_args-Grown o rs e unused) w.values;
        blocks = Keeps-WellLinked ctx ctx' keeps w.blocks;
      }
