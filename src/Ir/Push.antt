-- ===== src/Ir/Push.antt =====
-- Results and arguments that are pushed: what is appended, and what stays.
use pliron.Prelude.{
  ℕ, ◌+◌, ◌≡◌, refl, none, some, List, [], ◌∷◌, ◌++◌, arith, if◌then◌else◌, length, length-append,
  ◌⊎◌, Returns, returns, ==_refl,
}
use pliron.VecExns.{push_back}
use pliron.DefUse.Operands.{get_elem?-snoc}
use pliron.Ir.{
  DefiningEntity, op, block, Value, ValueDef, Operation, BasicBlock, Context, same_entity,
  get_new_value_uid, value_defs, get_defnode, operands, successors,
}
use pliron.Ir.Results.{new_value_def, push_result, push_argument, get_result, get_argument}
use pliron.Ir.Whole.{WellFormed}
use pliron.Ir.Grow.{AllUnused, Grown-defnode}
use pliron.Ir.Create.{
  with_results, with_args, with_results-Grown, with_args-Grown, with_results-WellFormed,
  with_args-WellFormed,
}

-- `r` is the index and the context after a definition of type `ty` without uses, with the next
-- identifier of values, was put after the definitions `l` of `e`. No other entity's definitions
-- changed, and no operands and successors; a value has the uses it had, or was not there and has
-- none.
pub record Appended (ctx : Context) (e : DefiningEntity) (l : List ValueDef) (ty : ℕ)
    (r : ℕ × Context) : Type 0 where
  pub index : r.0 ≡ length l
  pub defs :
      (d : DefiningEntity)
      → value_defs r.1 d ≡ (
          if same_entity e d
          then some (l ++ record { def = []; val_uid = ctx.value_counter; ty = ty } ∷ [])
          else value_defs ctx d)
  pub counter : r.1.value_counter ≡ ctx.value_counter + 1
  pub same_operands : (q : ℕ) → operands r.1 q ≡ operands ctx q
  pub same_successors : (q : ℕ) → successors r.1 q ≡ successors ctx q
  pub uses :
      (v : Value)
      → (get_defnode r.1 v ≡ get_defnode ctx v)
        ⊎ ((get_defnode ctx v ≡ none) × (get_defnode r.1 v ≡ some []))
  pub well : WellFormed r.1

module _ (ctx : Context) (ty : ℕ) where
  abbrev fresh_def : ValueDef
  fresh_def = record { def = []; val_uid = ctx.value_counter; ty = ty }

  with_results-Appended :
      (p i : ℕ) (o : Operation)
      → ctx.operations p ≡ some o
      → i ≡ length o.results
      → WellFormed ctx
      → Appended ctx
          (op p)
          o.results
          ty
          (i, with_results ctx (ctx.value_counter + 1) p o (o.results ++ fresh_def ∷ []))
  unfolding AllUnused successors
  with_results-Appended p i o e at w =
      let n = ctx.value_counter + 1 in
      let g = with_results-Grown ctx n p o (fresh_def ∷ []) e (refl, tt) in
      record {
        index = at;
        defs = g.after;
        counter = refl;
        same_operands = g.same_operands;
        same_successors = λ q. ground arith;
        uses = λ v. Grown-defnode ctx _ (op p) o.results (fresh_def ∷ []) v g;
        well = with_results-WellFormed ctx n p o (fresh_def ∷ []) e (refl, tt) w;
      }

  with_args-Appended :
      (b i : ℕ) (o : BasicBlock)
      → ctx.basic_blocks b ≡ some o
      → i ≡ length o.args
      → WellFormed ctx
      → Appended ctx
          (block b)
          o.args
          ty
          (i, with_args ctx (ctx.value_counter + 1) b o (o.args ++ fresh_def ∷ []))
  unfolding AllUnused successors
  with_args-Appended b i o e at w =
      let n = ctx.value_counter + 1 in
      let g = with_args-Grown ctx n b o (fresh_def ∷ []) e (refl, tt) in
      record {
        index = at;
        defs = g.after;
        counter = refl;
        same_operands = g.same_operands;
        same_successors = λ q. refl;
        uses = λ v. Grown-defnode ctx _ (block b) o.args (fresh_def ∷ []) v g;
        well = with_args-WellFormed ctx n b o (fresh_def ∷ []) e (refl, tt) w;
      }

-- On a live operation and a live block, in a context whose chains are well linked, push_result and
-- push_argument put a definition of the given type, without uses and with the next identifier of
-- values, after those there are, and return its index. get_result and get_argument at the index
-- give the new value, the counter of identifiers is one higher, no other definitions, no operands
-- and no successors change, any value has the uses it had, or was not there and has none, and both
-- kinds of chains stay well linked.
pub push_result-Appended :
    (ctx : Context) (p b ty : ℕ) (o : Operation) (o' : BasicBlock)
    → WellFormed ctx
    → ctx.operations p ≡ some o
    → ctx.basic_blocks b ≡ some o'
    → Returns
        (λ r.
          Appended ctx (op p) o.results ty r
          × (get_result r.1 p r.0
              ≡ some (record { val_uid = ctx.value_counter; defining_entity = op p })))
        (push_result ctx p ty)
      × Returns
          (λ r.
            Appended ctx (block b) o'.args ty r
            × (get_argument r.1 b r.0
                ≡ some (record { val_uid = ctx.value_counter; defining_entity = block b })))
          (push_argument ctx b ty)
unfolding push_result push_argument new_value_def get_new_value_uid push_back get_result
    get_argument
push_result-Appended ctx p b ty o o' w e e' =
    let r = fresh_def ctx ty in
    let at : (push_back o.results r).1 ≡ length o.results =
      omega (arith, length-append o.results (r ∷ [])) in
    let at' : (push_back o'.args r).1 ≡ length o'.args =
      omega (arith, length-append o'.args (r ∷ [])) in
    (
      rw (push_result, e)
          (returns (
            with_results-Appended ctx ty p _ o e at w,
            rw (==_refl, at, get_elem?-snoc o.results r) refl,
          )),
      rw (push_argument, e')
          (returns (
            with_args-Appended ctx ty b _ o' e' at' w,
            rw (==_refl, at', get_elem?-snoc o'.args r) refl,
          )),
    )
