-- ===== src/Ir/Retarget.antt =====
-- src/value.rs: branches to a block that are made to go to another block. The block that contains
-- an operation, a link of linked lists, is an argument, and `none` where the operation is in none.
use pliron.Prelude.{
  ℕ, ◌≡◌, refl, Bool, true, false, ◌&&◌, Option, none, some, List, [], ◌∷◌, arith, ◌==◌,
  if◌then◌else◌, is_some, ◌>>=◌,
}
use pliron.DefUse.{
  Use, satisfying, replace_each, replace_use_with, replace_some_uses_with, replace_all_uses_with,
}
use pliron.DefUse.Linked.{uses_of}
use pliron.DefUse.WellLinked.{WellLinked}
use pliron.DefUse.Replace.{Replaced}
use pliron.DefUse.ReplaceAll.{
  satisfying-all, substituted, replace_some_uses_with-Replaced, replace_all_uses_with-substituted,
}
use pliron.Ir.{Context, preds, successors, Blocks}
use pliron.Ir.Laws.{Blocks-laws}

module _ (get_container : ℕ → Option ℕ) where
  -- The uses whose operation is in a block that satisfies the predicate.
  unfoldable pub satisfying_preds : (ℕ → Bool) → List Use → Option (List Use)
  satisfying_preds predicate [] = some []
  satisfying_preds predicate (u ∷ uses) = get_container u.user_op >>= λ pred_block.
      satisfying_preds predicate uses >>= λ rest.
      some (if predicate pred_block then u ∷ rest else rest)

  unfoldable pub retarget_some_preds_to :
      Context → (self : ℕ) → (Context → ℕ → Bool) → (other : ℕ) → Option Context
  retarget_some_preds_to ctx self predicate other = preds ctx self >>= λ uses.
      satisfying_preds (predicate ctx) uses >>= λ touched.
      replace_each Blocks ctx self touched other

  unfoldable pub retarget_all_preds_to : Context → (self other : ℕ) → Option Context
  retarget_all_preds_to ctx self other = retarget_some_preds_to ctx self (λ _ _. true) other

  -- All the operations are in blocks.
  abbrev pub in_blocks : List Use → Bool
  in_blocks [] = true
  in_blocks (u ∷ uses) = is_some (get_container u.user_op) && in_blocks uses

  abbrev pub pred_satisfies : (ℕ → Bool) → Use → Bool
  pred_satisfies predicate u = elim (get_container u.user_op) [
    | none ↦ false
    | some pred_block ↦ predicate pred_block
  ]

  satisfying_preds-satisfying :
      (predicate : ℕ → Bool) (uses : List Use)
      → in_blocks uses ≡ true
      → satisfying_preds predicate uses ≡ some (satisfying Blocks (pred_satisfies predicate) uses)
  unfolding satisfying_preds satisfying
  satisfying_preds-satisfying predicate [] h = refl
  satisfying_preds-satisfying predicate (u ∷ uses) h =
      ground (arith, satisfying_preds-satisfying predicate uses)

  satisfying_preds-panics :
      (predicate : ℕ → Bool) (uses : List Use)
      → in_blocks uses ≡ false
      → satisfying_preds predicate uses ≡ none
  unfolding satisfying_preds
  satisfying_preds-panics predicate [] h = cc
  satisfying_preds-panics predicate (u ∷ uses) h =
      ground (arith, satisfying_preds-panics predicate uses)

  always_satisfied :
      (uses : List Use)
      → in_blocks uses ≡ true
      → satisfying Blocks (pred_satisfies (λ _. true)) uses ≡ uses
  unfolding satisfying
  always_satisfied [] h = refl
  always_satisfied (u ∷ uses) h = ground (arith, always_satisfied uses)

unfoldable pub retarget_pred_to : Context → (self : ℕ) → Use → (other : ℕ) → Option Context
retarget_pred_to ctx self block_use other = replace_use_with Blocks ctx self block_use other

-- In a context whose blocks are well linked, between different live blocks, and if every operation
-- that branches to the first is in a block, retarget_some_preds_to moves the uses whose block
-- satisfied the predicate, and no other: their successors are the other block, and the first keeps
-- the rest of its uses.
pub retarget_some_preds_to-Replaced :
    (get_container : ℕ → Option ℕ) (ctx : Context) (self other : ℕ) (predicate : Context → ℕ → Bool)
    (us : List Use)
    → WellLinked Blocks ctx
    → (self == other) ≡ false
    → preds ctx self ≡ some us
    → is_some (preds ctx other) ≡ true
    → in_blocks get_container us ≡ true
    → (ctx' : Context) × (retarget_some_preds_to get_container ctx self predicate other ≡ some ctx')
      × Replaced Blocks ctx self other
          (satisfying Blocks (pred_satisfies get_container (predicate ctx)) us)
          ctx'
unfolding retarget_some_preds_to replace_some_uses_with
retarget_some_preds_to-Replaced gc ctx self other predicate us w differ e there linked =
    let (ctx', done, replaced) =
      replace_some_uses_with-Replaced Blocks-laws ctx self other
        (λ ctx. pred_satisfies gc (predicate ctx)) us w differ e there in
    let moved = satisfying_preds-satisfying gc (predicate ctx) us linked in
    (ctx', rw (retarget_some_preds_to, e, moved) (rw (replace_some_uses_with, e) at done), replaced)

-- In a context whose blocks are well linked, between different live blocks, and if every operation
-- that branches to the first is in a block, retarget_all_preds_to leaves the first without
-- predecessors. Every successor of any operation that was the block is the other one, in its place
-- and with its use, other successors are as they were, and the blocks stay well linked.
pub retarget_all_preds_to-substituted :
    (get_container : ℕ → Option ℕ) (ctx : Context) (self other : ℕ) (us : List Use)
    → WellLinked Blocks ctx
    → (self == other) ≡ false
    → preds ctx self ≡ some us
    → is_some (preds ctx other) ≡ true
    → in_blocks get_container us ≡ true
    → (ctx' : Context) × (retarget_all_preds_to get_container ctx self other ≡ some ctx')
      × WellLinked Blocks ctx'
      × (uses_of Blocks ctx' self ≡ [])
      × ((p : ℕ) → successors ctx' p ≡ substituted Blocks self other (successors ctx p))
unfolding retarget_all_preds_to retarget_some_preds_to replace_all_uses_with replace_some_uses_with
retarget_all_preds_to-substituted gc ctx self other us w differ e there linked =
    let r = replace_all_uses_with-substituted Blocks-laws ctx self other us w differ e there in
    let each : replace_each Blocks ctx self us other ≡ some r.0 =
      rw (replace_all_uses_with, replace_some_uses_with, e, satisfying-all Blocks us) at r.1 in
    let moved = satisfying_preds-satisfying gc (λ _. true) us linked in
    let all = always_satisfied gc us linked in
    (r.0, rw (retarget_all_preds_to, retarget_some_preds_to, e, moved, all) each, r.2, r.3, r.4)

-- If an operation that branches to the block is in no block, both panic, whatever the predicate.
retarget_unlinked :
    (get_container : ℕ → Option ℕ) (ctx : Context) (self other : ℕ) (predicate : Context → ℕ → Bool)
    (us : List Use)
    → preds ctx self ≡ some us
    → in_blocks get_container us ≡ false
    → (retarget_some_preds_to get_container ctx self predicate other ≡ none)
      × (retarget_all_preds_to get_container ctx self other ≡ none)
unfolding retarget_some_preds_to retarget_all_preds_to
retarget_unlinked gc ctx self other predicate us e unlinked =
    let stops = satisfying_preds-panics gc (predicate ctx) us unlinked in
    let stops' = satisfying_preds-panics gc (λ _. true) us unlinked in
    (rw (e, stops) refl, rw (e, stops') refl)
