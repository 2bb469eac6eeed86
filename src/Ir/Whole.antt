-- ===== src/Ir/Whole.antt =====
-- Both kinds of chains of the IR at once: what changes the one leaves the other alone.
use pliron.Prelude.{
  ℕ, ◌+◌, ◌≡◌, refl, ◌∙◌, Option, some, [], arith, Returns, returns, Returns-bind, Returns-mono,
  inl, inr,
}
use pliron.DefUse.WellLinked.{WellLinked}
use pliron.DefUse.Batch.{drop_operands-Becomes}
use pliron.DefUse.Keeps.{Always, holds, Respects, Keeps, Keeps-WellLinked, drop_operands-Respects}
use pliron.Ir.{
  Operation, Context, operands, set_operands, preds, set_preds, successors, set_successors, Values,
  Blocks,
}
use pliron.Ir.Laws.{
  Values-laws, Blocks-laws, set_defnode-is-with, get_defnode-cong, value_defs-set_use_counter,
}
use pliron.Ir.Places.{
  value_defs-set_preds, value_defs-set_successors, preds-with, successors-with, counter-with,
}
use pliron.Ir.Results.{drop_all_uses}

-- The chains of values and those of blocks are well linked.
pub record WellFormed (ctx : Context) : Type 0 where
  pub values : WellLinked Values ctx
  pub blocks : WellLinked Blocks ctx

pub both :
    {A : Type 0} {P Q : A → Type 0} {r : Option A}
    → Returns P r
    → Always Q r
    → Returns (λ a. P a × Q a) r
both (returns p) (holds q) = returns (p, q)

pub Values-Keeps-Blocks : Respects Values (Keeps Blocks)
unfolding operands set_operands preds successors
Values-Keeps-Blocks = record {
  same = λ ctx. record { defnodes = λ d. refl; operands = λ p. refl; counter = omega arith };
  then = λ k k'. record {
    defnodes = λ d. k'.defnodes d ∙ k.defnodes d;
    operands = λ p. k'.operands p ∙ k.operands p;
    counter = omega (arith, k.counter, k'.counter);
  };
  defnode = λ ctx d l. elim (set_defnode-is-with ctx d l) [
    | inl e ↦ rw e (record { defnodes = λ b. refl; operands = λ p. refl; counter = omega arith })
    | inr (l', e) ↦ rw e (record {
      defnodes = preds-with ctx d.defining_entity l';
      operands = successors-with ctx d.defining_entity l';
      counter = omega (arith, counter-with ctx d.defining_entity l');
    })
  ];
  operands = λ ctx p l. record {
    defnodes = λ b. ground arith;
    operands = λ q. ground arith;
    counter = ground arith;
  };
  counter = λ ctx. record { defnodes = λ d. refl; operands = λ p. refl; counter = omega arith };
}

pub Blocks-Keeps-Values : Respects Blocks (Keeps Values)
unfolding operands set_preds set_successors
Blocks-Keeps-Values = record {
  same = λ ctx. record { defnodes = λ d. refl; operands = λ p. refl; counter = omega arith };
  then = λ k k'. record {
    defnodes = λ d. k'.defnodes d ∙ k.defnodes d;
    operands = λ p. k'.operands p ∙ k.operands p;
    counter = omega (arith, k.counter, k'.counter);
  };
  defnode = λ ctx b l. record {
    defnodes = λ d.
        get_defnode-cong ctx (set_preds ctx b l) d (value_defs-set_preds ctx b l d.defining_entity);
    operands = λ q. ground arith;
    counter = ground arith;
  };
  operands = λ ctx p l. record {
    defnodes = λ d.
        get_defnode-cong ctx (set_successors ctx p l) d
          (value_defs-set_successors ctx p l d.defining_entity);
    operands = λ q. ground arith;
    counter = ground arith;
  };
  counter = λ ctx. record {
    defnodes = λ d.
        get_defnode-cong ctx (record ctx { use_counter = ctx.use_counter + 1 }) d
          (value_defs-set_use_counter ctx (ctx.use_counter + 1) d.defining_entity);
    operands = λ p. refl;
    counter = omega arith;
  };
}

-- If both kinds of chains are well linked, a live operation that drops all its uses has neither
-- operands nor successors, and both kinds of chains are well linked as before.
pub drop_all_uses-WellFormed :
    (ctx : Context) (ptr : ℕ) (o : Operation)
    → WellFormed ctx
    → ctx.operations ptr ≡ some o
    → Returns
        (λ ctx'. WellFormed ctx' × (operands ctx' ptr ≡ some []) × (successors ctx' ptr ≡ some []))
        (drop_all_uses ctx ptr)
unfolding drop_all_uses operands successors
drop_all_uses-WellFormed ctx ptr o w e =
    let first =
      both (drop_operands-Becomes Values-laws ctx ptr o.operands w.values (rw e refl))
        (drop_operands-Respects Values-Keeps-Blocks ctx ptr) in
    Returns-bind first λ ctx1 (becomes, keeps).
      let blocks = Keeps-WellLinked ctx ctx1 keeps w.blocks in
      let second =
        both
          (drop_operands-Becomes Blocks-laws ctx1 ptr o.successors blocks
            (keeps.operands ptr ∙ rw e refl))
          (drop_operands-Respects Blocks-Keeps-Values ctx1 ptr) in
      Returns-mono second λ ctx2 (becomes', keeps'). (
        record { values = Keeps-WellLinked ctx1 ctx2 keeps' becomes.well; blocks = becomes'.well },
        keeps'.operands ptr ∙ becomes.here,
        becomes'.here,
      )
