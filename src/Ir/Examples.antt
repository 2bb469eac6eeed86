-- ===== src/Ir/Examples.antt =====
-- The theorems on def-use chains at a small piece of IR, and runs of the code.
use pliron.Prelude.{
  Option, ◌==◌, if◌then◌else◌, ℕ, ◌≡◌, ◌↔◌, refl, Bool, true, none, some, List, [], ◌∷◌, ◌++◌,
  arith, ◌==◌, ◌>>=◌, is_some, Returns,
}
use pliron.DefUse.{
  Use, Operand, insert_at, remove_at, push_operand, pop_operand, insert_operand, remove_operand,
  replace_operand, satisfying, replace_some_uses_with, replace_all_uses_with,
}
use pliron.DefUse.Linked.{Linked, uses_of, operands_of}
use pliron.DefUse.WellLinked.{WellLinked}
use pliron.DefUse.Stored.{Becomes}
use pliron.DefUse.Batch.{defs_of}
use pliron.DefUse.Operands.{
  push_operand-Becomes, insert_operand-Becomes, remove_operand-Becomes, replace_operand-Becomes,
}
use pliron.DefUse.PushPop.{pop_operand-push_operand}
use pliron.DefUse.Panics.{operands_out_of_bounds, replace_operand_own}
use pliron.DefUse.Replace.{Replaced}
use pliron.DefUse.ReplaceAll.{
  substituted, replace_some_uses_with-Replaced, replace_all_uses_with-substituted,
}
use pliron.DefUse.Verify.{Accepted, UsedOnce}
use pliron.DefUse.Verifier.{Linked-Accepted}
use pliron.Ir.{op, block, Value, Context, get_defnode, operands, preds, successors, Values, Blocks}
use pliron.Ir.Laws.{Values-laws}
use pliron.Ir.Results.{
  is_used, num_uses, set_type, get_type, has_pred, num_preds, push_result, push_argument,
  get_result, get_argument, init_operation, drop_all_uses, replace_successor,
}
use pliron.Ir.Whole.{WellFormed, drop_all_uses-WellFormed}
use pliron.Ir.Push.{Appended, push_result-Appended}
use pliron.Ir.Retarget.{
  retarget_some_preds_to, retarget_all_preds_to, retarget_some_preds_to-Replaced,
  retarget_all_preds_to-substituted,
}
use pliron.Ir.Successors.{replace_successor-Becomes}
use pliron.Ir.Init.{init_operation-WellFormed}
use pliron.Ir.Sample.{
  empty_operation, with_first, first_result, second_result, with_first-WellFormed, user,
  user-WellFormed, get_or, operand, three, use_of_two, user_operands, first_uses, second_uses,
  own_result, looped, looped-WellFormed, looped_operands, looped_second_uses,
}

init_operation-WellFormed_example :
    Returns
      (λ ctx'.
        WellFormed ctx'
        × ((os : List (Operand Value)) × (operands ctx' 2 ≡ some os)
            × (defs_of Values os ≡ first_result ∷ first_result ∷ second_result ∷ []))
        × ((ss : List (Operand ℕ)) × (successors ctx' 2 ≡ some ss) × (defs_of Blocks ss ≡ 0 ∷ [])))
      (init_operation with_first 2
        (9 ∷ [])
        (first_result ∷ first_result ∷ second_result ∷ [])
        (0 ∷ []))
unfolding user
init_operation-WellFormed_example =
    init_operation-WellFormed with_first 2 empty_operation (9 ∷ [])
      (first_result ∷ first_result ∷ second_result ∷ []) (0 ∷ []) with_first-WellFormed refl refl
      refl refl

some_second : is_some (get_defnode user second_result) ≡ true
unfolding user
some_second = refl

abbrev second_gains : List (Operand Value)
second_gains = three ++ operand second_result 4 ∷ []

push_operand-Becomes_example :
    Returns
      (λ r. (r.0 ≡ 3) × Becomes Values user 2 second_gains r.1)
      (push_operand Values user 2 second_result)
unfolding user
push_operand-Becomes_example =
    push_operand-Becomes Values-laws user 2 second_result three user-WellFormed.values second_uses
      user_operands

pop_operand-push_operand_example :
    Returns
      (λ r. (r.0 ≡ second_result) × Becomes Values user 2 three r.1)
      (push_operand Values user 2 second_result >>= λ r. pop_operand Values r.1 2)
pop_operand-push_operand_example =
    pop_operand-push_operand Values-laws user 2 second_result three user-WellFormed.values
      second_uses user_operands

insert_operand-Becomes_example :
    Returns
      (Becomes Values user 2 (
        operand first_result 0
        ∷ operand second_result 4
        ∷ operand first_result 1
        ∷ operand second_result 2
        ∷ []))
      (insert_operand Values user 2 1 second_result)
unfolding user insert_at
insert_operand-Becomes_example =
    insert_operand-Becomes Values-laws user 2 1 second_result three user-WellFormed.values
      second_uses user_operands (omega arith)

remove_operand-Becomes_example :
    Returns
      (λ r.
        (r.0 ≡ first_result)
        × Becomes Values user 2 (operand first_result 1 ∷ operand second_result 2 ∷ []) r.1)
      (remove_operand Values user 2 0)
unfolding remove_at
remove_operand-Becomes_example =
    remove_operand-Becomes Values-laws user 2 0 three (operand first_result 0)
      user-WellFormed.values user_operands refl

replace_operand-Becomes_example :
    Returns
      (Becomes Values user 2
        (operand first_result 0 ∷ operand second_result 4 ∷ operand second_result 2 ∷ []))
      (replace_operand Values user 2 1 second_result)
unfolding user
replace_operand-Becomes_example =
    replace_operand-Becomes Values-laws user 2 1 second_result three (operand first_result 1)
      user-WellFormed.values second_uses user_operands refl refl

operands_out_of_bounds_example :
    (remove_operand Values user 2 3 ≡ none)
    × (replace_operand Values user 2 3 second_result ≡ none)
    × (insert_operand Values user 2 4 second_result ≡ none)
operands_out_of_bounds_example =
    operands_out_of_bounds Values-laws user 2 3 second_result three user-WellFormed.values
      second_uses user_operands (omega arith)

replace_operand_own_example : replace_operand Values looped.1 2 3 second_result ≡ none
replace_operand_own_example =
    replace_operand_own Values-laws looped.1 2 3 second_result (three ++ operand own_result 4 ∷ [])
      (operand own_result 4) looped-WellFormed looped_second_uses looped_operands refl refl

-- The first of the uses of value 0, and no other.
abbrev is_first : Context → Use → Bool
is_first ctx u = u.use_uid == 0

replace_some_uses_with-Replaced_example :
    (ctx' : Context) × (replace_some_uses_with Values user first_result is_first second_result
      ≡ some ctx')
    × Replaced Values user first_result second_result (use_of_two 0 ∷ []) ctx'
unfolding satisfying
replace_some_uses_with-Replaced_example =
    replace_some_uses_with-Replaced Values-laws user first_result second_result is_first
      (use_of_two 0 ∷ use_of_two 1 ∷ []) user-WellFormed.values refl first_uses some_second

replace_all_uses_with-substituted_example :
    (ctx' : Context) × (replace_all_uses_with Values user first_result second_result ≡ some ctx')
    × WellLinked Values ctx'
    × (uses_of Values ctx' first_result ≡ [])
    × ((p : ℕ) → operands ctx' p ≡ substituted Values first_result second_result (operands user p))
replace_all_uses_with-substituted_example =
    replace_all_uses_with-substituted Values-laws user first_result second_result
      (use_of_two 0 ∷ use_of_two 1 ∷ []) user-WellFormed.values refl first_uses some_second

Linked-Accepted_example :
    Linked Values (operands_of Values user) user ↔ (Accepted Values user × UsedOnce Values user)
Linked-Accepted_example = Linked-Accepted Values-laws user user-WellFormed.values.uids

drop_all_uses-WellFormed_example :
    Returns
      (λ ctx'. WellFormed ctx' × (operands ctx' 2 ≡ some []) × (successors ctx' 2 ≡ some []))
      (drop_all_uses user 2)
unfolding user
drop_all_uses-WellFormed_example =
    drop_all_uses-WellFormed user 2 (get_or empty_operation (user.operations 2)) user-WellFormed
      refl

push_result-Appended_example :
    Returns
      (λ r.
        Appended with_first (op 1) (get_or empty_operation (with_first.operations 1)).results 7 r
        × (get_result r.1 1 r.0 ≡ some (record { val_uid = 2; defining_entity = op 1 })))
      (push_result with_first 1 7)
    × Returns
        (λ r.
          Appended with_first (block 0) [] 7 r
          × (get_argument r.1 0 r.0 ≡ some (record { val_uid = 2; defining_entity = block 0 })))
        (push_argument with_first 0 7)
unfolding user
push_result-Appended_example =
    push_result-Appended with_first 1 0 7 (get_or empty_operation (with_first.operations 1))
      (record { args = []; preds = [] }) with_first-WellFormed refl refl

replace_successor-Becomes_example :
    Returns
      (Becomes Blocks user 2 (record { def = 1; use_uid = 4 } ∷ []))
      (replace_successor user 2 0 1)
unfolding user
replace_successor-Becomes_example =
    replace_successor-Becomes user 2 0 1 (record { def = 0; use_uid = 3 } ∷ [])
      (record { def = 0; use_uid = 3 }) user-WellFormed refl refl refl

-- Operation 2 is in block 1.
abbrev container_of_two : ℕ → Option ℕ
container_of_two p = if p == 2 then some 1 else none

zero_preds : preds user 0 ≡ some (use_of_two 3 ∷ [])
unfolding user
zero_preds = refl

some_one : is_some (preds user 1) ≡ true
unfolding user
some_one = refl

retarget_some_preds_to-Replaced_example :
    (ctx' : Context) × (retarget_some_preds_to container_of_two user 0 (λ _ b. b == 1) 1
      ≡ some ctx')
    × Replaced Blocks user 0 1 (use_of_two 3 ∷ []) ctx'
unfolding satisfying
retarget_some_preds_to-Replaced_example =
    retarget_some_preds_to-Replaced container_of_two user 0 1 (λ _ b. b == 1) (use_of_two 3 ∷ [])
      user-WellFormed.blocks refl zero_preds some_one refl

retarget_all_preds_to-substituted_example :
    (ctx' : Context) × (retarget_all_preds_to container_of_two user 0 1 ≡ some ctx')
    × WellLinked Blocks ctx'
    × (uses_of Blocks ctx' 0 ≡ [])
    × ((p : ℕ) → successors ctx' p ≡ substituted Blocks 0 1 (successors user p))
retarget_all_preds_to-substituted_example =
    retarget_all_preds_to-substituted container_of_two user 0 1 (use_of_two 3 ∷ [])
      user-WellFormed.blocks refl zero_preds some_one refl

-- Runs of the code.
first_used : (is_used user first_result ≡ some true) × (num_uses user first_result ≡ some 2)
unfolding user is_used num_uses
first_used = (refl, refl)

type_set : (set_type user first_result 5 >>= λ ctx'. get_type ctx' first_result) ≡ some 5
unfolding user set_type get_type
type_set = refl

zero_has_pred : (has_pred user 0 ≡ some true) × (num_preds user 0 ≡ some 1)
unfolding user has_pred num_preds
zero_has_pred = (refl, refl)
