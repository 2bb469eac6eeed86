-- ===== src/Sccp/Start.antt =====
-- The state that an analysis starts from, and what holds whenever it is interrupted.
use pliron.Prelude.{
  ℕ, ◌≡◌, refl, ◌∙◌, ap, false, not, ◌&&◌, List, [], ◌∷◌, ◌==◌, has, Bool-cases, inl, inr, none,
}
use pliron.SmallTable.Set.{IndexSet, SetLaws}
use pliron.Sccp.{
  Ir, IrNode, operation, basic_block, region, SccpState, undetermined, is_reachable, set_val,
  extend_undetermined, visit, visit_all, seed_nested_regions, new,
}
use pliron.Sccp.Steps.{WorklistReachable, Advances, Steps, Steps-Advances, seeded}

module _ {lib : IndexSet} (laws : SetLaws lib) where
  -- Recording values does not touch the worklist.
  worklist-extend_undetermined :
      (vs : List ℕ) (s : SccpState lib) → (extend_undetermined lib s vs).op_worklist ≡ s.op_worklist
  unfolding extend_undetermined set_val
  worklist-extend_undetermined [] s = refl
  worklist-extend_undetermined (v ∷ vs) s =
      worklist-extend_undetermined vs (set_val lib s v undetermined)

  worklist-visit :
      (ir : Ir) (s : SccpState lib) (node : IrNode)
      → (visit lib ir s node).op_worklist ≡ s.op_worklist
  unfolding visit
  worklist-visit ir s (operation op) = elim (Bool-cases (op == s.root_op)) [
    | inl t ↦ rw (visit, t) refl
    | inr f ↦ rw (visit, f) (worklist-extend_undetermined (ir.results op) s)
  ]
  worklist-visit ir s (basic_block b) = worklist-extend_undetermined (ir.arguments b) s
  worklist-visit ir s (region r) = refl

  worklist-visit_all :
      (ir : Ir) (nodes : List IrNode) (s : SccpState lib)
      → (visit_all lib ir s nodes).op_worklist ≡ s.op_worklist
  unfolding visit_all
  worklist-visit_all ir [] s = refl
  worklist-visit_all ir (node ∷ nodes) s =
      worklist-visit_all ir nodes (visit lib ir s node) ∙ worklist-visit ir s node

  pub new-WorklistReachable :
      (ir : Ir) (nodes : List IrNode) (root_op : ℕ)
      → WorklistReachable laws (new lib ir nodes root_op)
  unfolding new seed_nested_regions Advances WorklistReachable
  new-WorklistReachable ir nodes root_op =
      let empty : SccpState lib = record {
        root_op = root_op;
        val_states = λ v. none;
        reachable_ops = λ o. false;
        op_worklist = lib.new;
      } in
      (seeded laws ir (ir.regions root_op) (visit_all lib ir empty nodes) λ op.
        ap (λ z. has op (lib.iter z) && not (is_reachable lib (visit_all lib ir empty nodes) op))
          (worklist-visit_all ir nodes empty)
        ∙ ap (λ z. has op z && not (is_reachable lib (visit_all lib ir empty nodes) op))
            laws.iter-new).0

  -- From the initial state on, whatever the analysis calls, an operation that waits in the worklist
  -- has been marked reachable.
  pub new-Steps :
      (ir : Ir) (nodes : List IrNode) (root_op : ℕ) {t : SccpState lib}
      → Steps laws ir (new lib ir nodes root_op) t
      → WorklistReachable laws t
  unfolding Advances
  new-Steps ir nodes root_op steps =
      (Steps-Advances laws ir steps (new-WorklistReachable ir nodes root_op)).0
