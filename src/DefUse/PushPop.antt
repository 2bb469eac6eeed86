-- ===== src/DefUse/PushPop.antt =====
-- An operand that is pushed and popped.
use pliron.Prelude.{ℕ, ◌≡◌, ◌∙◌, some, List, ◌>>=◌, Returns, Returns-bind, Returns-mono}
use pliron.DefUse.{Use, Operand, Chains, push_operand, pop_operand}
use pliron.DefUse.Linked.{ChainLaws}
use pliron.DefUse.WellLinked.{WellLinked}
use pliron.DefUse.Stored.{Becomes, fresh_operand}
use pliron.DefUse.Operands.{push_operand-Becomes, pop_operand-Becomes}

module _ {c : Chains} (laws : ChainLaws c) where
  open c use {Context, Def, get_defnode, get_operands}

  -- In a well-linked context, for a live operation and definition, pop_operand after push_operand
  -- returns the definition that was pushed, and the operation has the operands it had; no other
  -- operation changed, and the context is well linked.
  pub pop_operand-push_operand :
      (ctx : Context) (p : ℕ) (d : Def) (l : List (Operand Def)) {us : List Use}
      → WellLinked c ctx
      → get_defnode ctx d ≡ some us
      → get_operands ctx p ≡ some l
      → Returns
          (λ r. (r.0 ≡ d) × Becomes c ctx p l r.1)
          (push_operand c ctx p d >>= λ r. pop_operand c r.1 p)
  pop_operand-push_operand ctx p d l w there e =
      Returns-bind (push_operand-Becomes laws ctx p d l w there e) λ r (index, b).
        Returns-mono (pop_operand-Becomes laws r.1 p l (fresh_operand c ctx d) b.well b.here)
          λ r' (same, b'). (
            same,
            record {
              well = b'.well;
              here = b'.here;
              elsewhere = λ x f. b'.elsewhere x f ∙ b.elsewhere x f;
              defs = λ f. b'.defs f ∙ b.defs f;
            },
          )
