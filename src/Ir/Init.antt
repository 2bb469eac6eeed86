-- ===== src/Ir/Init.antt =====
-- An operation that is created with its results, operands and successors.
use pliron.Prelude.{
  ℕ, ◌+◌, ◌≡◌, refl, ap, ◌∙◌, true, some, List, [], ◌∷◌, arith, ==_refl, Returns, Returns-bind,
  Returns-mono, inl, inr,
}
use pliron.DefUse.{Operand}
use pliron.DefUse.Batch.{all_there, defs_of, init_operands-Becomes}
use pliron.DefUse.Keeps.{Keeps-WellLinked, init_operands-Respects}
use pliron.Ir.{
  op, Value, ValueDef, Operation, Context, get_new_value_uid, operands, preds, successors, Values,
  Blocks,
}
use pliron.Ir.Laws.{Values-laws, Blocks-laws}
use pliron.Ir.Results.{new_value_def, new_results, init_results, init_operation}
use pliron.Ir.Whole.{WellFormed, both, Values-Keeps-Blocks, Blocks-Keeps-Values}
use pliron.Ir.Grow.{AllUnused, Grown, Grown-defnode}
use pliron.Ir.Create.{with_results, with_results-Grown, with_results-WellFormed}

abbrev types_of : List ValueDef → List ℕ
types_of [] = []
types_of (r ∷ l) = r.ty ∷ types_of l

new_results-unused :
    (ctx : Context) (types : List ℕ)
    → (rs : List ValueDef) × (n : ℕ) × (new_results ctx types
        ≡ (rs, record ctx { value_counter = n }))
      × AllUnused rs
      × (types_of rs ≡ types)
unfolding new_results new_value_def get_new_value_uid AllUnused
new_results-unused ctx [] = ([], ctx.value_counter, refl, tt, refl)
new_results-unused ctx (ty ∷ types) =
    let (rs, n, e, unused, tys) =
      new_results-unused (record ctx { value_counter = ctx.value_counter + 1 }) types in
    let r : ValueDef = record { def = []; val_uid = ctx.value_counter; ty = ty } in
    (r ∷ rs, n, rw (new_results, e) refl, (refl, unused), ap (◌∷◌ ty) tys)

Grown-all_there :
    (ctx ctx' : Context) (p : ℕ) (l rs : List ValueDef) (vs : List Value)
    → Grown ctx (op p) l rs ctx'
    → all_there Values ctx vs ≡ true
    → all_there Values ctx' vs ≡ true
Grown-all_there ctx ctx' p l rs [] g there = refl
Grown-all_there ctx ctx' p l rs (v ∷ vs) g there =
    let rest = Grown-all_there ctx ctx' p l rs vs g (ground arith) in
    elim (Grown-defnode ctx ctx' (op p) l rs v g) [
      | inl same ↦ rw (same, rest) (ground arith)
      | inr (was, now) ↦ rw (now, rest) refl
    ]

all_there-Keeps :
    (ctx ctx' : Context) (bs : List ℕ)
    → ((b : ℕ) → preds ctx' b ≡ preds ctx b)
    → all_there Blocks ctx' bs ≡ all_there Blocks ctx bs
all_there-Keeps ctx ctx' [] k = refl
all_there-Keeps ctx ctx' (b ∷ bs) k = rw (k b, all_there-Keeps ctx ctx' bs k) refl

-- In a context whose chains are well linked, an operation that was just allocated gets operands and
-- successors with the given definitions, in order, if these are all there, besides its results.
-- Both kinds of chains are well linked as before.
pub init_operation-WellFormed :
    (ctx : Context) (p : ℕ) (o : Operation) (types : List ℕ) (vs : List Value) (bs : List ℕ)
    → WellFormed ctx
    → ctx.operations p ≡ some o
    → o ≡ record { results = []; operands = []; successors = [] }
    → all_there Values ctx vs ≡ true
    → all_there Blocks ctx bs ≡ true
    → Returns
        (λ ctx'.
          WellFormed ctx'
          × ((os : List (Operand Value)) × (operands ctx' p ≡ some os) × (defs_of Values os ≡ vs))
          × ((ss : List (Operand ℕ)) × (successors ctx' p ≡ some ss) × (defs_of Blocks ss ≡ bs)))
        (init_operation ctx p types vs bs)
unfolding init_operation init_results operands successors preds
init_operation-WellFormed ctx p o types vs bs w e fresh there blocks_there =
    let e0 : ctx.operations p ≡ some (record { results = []; operands = []; successors = [] }) =
      e ∙ ap some fresh in
    let o0 : Operation = record { results = []; operands = []; successors = [] } in
    let (rs, n, made, unused, tys) = new_results-unused ctx types in
    let ctx1 = with_results ctx n p o0 rs in
    let g = with_results-Grown ctx n p o0 rs e0 unused in
    let w1 = with_results-WellFormed ctx n p o0 rs e0 unused w in
    let here : init_results ctx p types ≡ some ctx1 = rw (init_results, made, e0) refl in
    let first =
      both
        (init_operands-Becomes Values-laws ctx1 p vs w1.values (rw (==_refl p) refl)
          (Grown-all_there ctx ctx1 p [] rs vs g there))
        (init_operands-Respects Values-Keeps-Blocks ctx1 p vs) in
    rw here (
      Returns-bind first λ ctx2 (has, keeps).
        let blocks = Keeps-WellLinked ctx1 ctx2 keeps w1.blocks in
        let second =
          both
            (init_operands-Becomes Blocks-laws ctx2 p bs blocks
              (keeps.operands p ∙ rw (==_refl p) refl)
              (all_there-Keeps ctx1 ctx2 bs keeps.defnodes
                ∙ all_there-Keeps ctx ctx1 bs (λ b. refl)
                ∙ blocks_there))
            (init_operands-Respects Blocks-Keeps-Values ctx2 p bs) in
        Returns-mono second λ ctx3 (has', keeps'). (
          record { values = Keeps-WellLinked ctx2 ctx3 keeps' has.2.well; blocks = has'.2.well },
          (has.0, keeps'.operands p ∙ has.2.here, has.1),
          (has'.0, has'.2.here, has'.1),
        ))
