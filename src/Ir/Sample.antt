-- ===== src/Ir/Sample.antt =====
-- A small piece of IR, made by the code from objects that were just allocated.
use pliron.Prelude.{
  ℕ, ◌≡◌, refl, Option, none, some, List, [], ◌∷◌, ◌++◌, arith, ltb, if◌then◌else◌, Returns,
  returns, Bool-cases, inl, inr,
}
use pliron.VecExns.{push_back}
use pliron.DefUse.{
  Use, Operand, has_use_of, add_use, get_new_use_uid, new_operand, new_operands, init_operands,
  push_operand,
}
use pliron.DefUse.Linked.{Linked}
use pliron.DefUse.WellLinked.{Uids, WellLinked}
use pliron.DefUse.Operands.{push_operand-Becomes}
use pliron.Ir.{
  DefiningEntity, op, block, Value, Operation, Context, get_new_value_uid, uid_index, value_defs,
  with_value_defs, find_index, get_value_def, set_value_def, get_defnode, set_defnode, operands,
  set_operands, preds, set_preds, successors, set_successors, Values,
}
use pliron.Ir.Laws.{Values-laws}
use pliron.Ir.Results.{new_value_def, new_results, init_results, init_operation}
use pliron.Ir.Whole.{WellFormed}
use pliron.Ir.Init.{init_operation-WellFormed}

abbrev pub empty_operation : Operation
empty_operation = record { results = []; operands = []; successors = [] }

-- Four operations and two blocks that were just allocated.
abbrev allocated : Context
allocated = record {
  value_counter = 0;
  use_counter = 0;
  operations = λ p. if ltb p 4 then some empty_operation else none;
  basic_blocks = λ b. if ltb b 2 then some (record { args = []; preds = [] }) else none;
}

allocated_unused :
    (uid : ℕ) (e : DefiningEntity)
    → get_defnode allocated (record { val_uid = uid; defining_entity = e }) ≡ none
unfolding get_defnode get_value_def find_index value_defs uid_index
allocated_unused uid (op p) = elim (Bool-cases (ltb p 4)) [ inl t ↦ rw t refl | inr f ↦ rw f refl ]
allocated_unused uid (block p) = elim (Bool-cases (ltb p 2)) [
  | inl t ↦ rw t refl
  | inr f ↦ rw f refl
]

allocated-WellFormed : WellFormed allocated
unfolding Linked Uids operands preds successors
allocated-WellFormed = record {
  values = record {
    linked = λ d p uid.
        let gone : get_defnode allocated d ≡ none = allocated_unused d.val_uid d.defining_entity in
        rw gone (elim (Bool-cases (ltb p 4)) [ inl t ↦ rw t refl | inr f ↦ rw f refl ]);
    uids = λ p uid. elim (Bool-cases (ltb p 4)) [
      | inl t ↦ rw t (omega arith, λ h. refl)
      | inr f ↦ rw f (omega arith, λ h. refl)
    ];
  };
  blocks = record {
    linked = λ d p uid. elim (Bool-cases (ltb d 2)) [
      | inl t ↦ rw t (elim (Bool-cases (ltb p 4)) [ inl t ↦ rw t refl | inr f ↦ rw f refl ])
      | inr f ↦ rw f (elim (Bool-cases (ltb p 4)) [ inl t ↦ rw t refl | inr f ↦ rw f refl ])
    ];
    uids = λ p uid. elim (Bool-cases (ltb p 4)) [
      | inl t ↦ rw t (omega arith, λ h. refl)
      | inr f ↦ rw f (omega arith, λ h. refl)
    ];
  };
}

module _ {A : Type 0} where
  abbrev pub get_or : A → Option A → A
  get_or a none = a
  get_or a (some a') = a'

  pub returned : {P : A → Type 0} {r : Option A} (a : A) → Returns P r → P (get_or a r)
  returned a (returns p) = p

-- Operation 1 with results 0 and 1.
abbrev pub with_first : Context
with_first = get_or allocated (init_operation allocated 1 (7 ∷ 8 ∷ []) [] [])

abbrev pub first_result : Value
first_result = record { val_uid = 0; defining_entity = op 1 }

abbrev pub second_result : Value
second_result = record { val_uid = 1; defining_entity = op 1 }

pub with_first-WellFormed : WellFormed with_first
with_first-WellFormed =
    (returned allocated (
      init_operation-WellFormed allocated 1 empty_operation (7 ∷ 8 ∷ []) [] [] allocated-WellFormed
        refl refl refl refl)).0

-- Operation 2 uses the first of them twice, has a result of its own, value 2, and branches to
-- block 0.
unfoldable pub user : Context
unfolding init_operation init_results init_operands new_operands new_operand get_new_use_uid add_use
    has_use_of new_results new_value_def get_new_value_uid operands set_operands preds set_preds
    successors set_successors get_defnode set_defnode get_value_def set_value_def find_index
    value_defs with_value_defs uid_index
user = get_or with_first (
    init_operation with_first 2 (9 ∷ []) (first_result ∷ first_result ∷ second_result ∷ [])
      (0 ∷ []))

pub user-WellFormed : WellFormed user
unfolding user
user-WellFormed =
    (returned with_first (
      init_operation-WellFormed with_first 2 empty_operation (9 ∷ [])
        (first_result ∷ first_result ∷ second_result ∷ []) (0 ∷ []) with_first-WellFormed refl refl
        refl refl)).0

abbrev pub operand : Value → ℕ → Operand Value
operand v uid = record { def = v; use_uid = uid }

abbrev pub three : List (Operand Value)
three = operand first_result 0 ∷ operand first_result 1 ∷ operand second_result 2 ∷ []

abbrev pub use_of_two : ℕ → Use
use_of_two uid = record { user_op = 2; use_uid = uid }

pub user_operands : operands user 2 ≡ some three
unfolding user
user_operands = refl

pub first_uses : get_defnode user first_result ≡ some (use_of_two 0 ∷ use_of_two 1 ∷ [])
unfolding user
first_uses = refl

pub second_uses : get_defnode user second_result ≡ some (use_of_two 2 ∷ [])
unfolding user
second_uses = refl

-- Operation 2 with its own result as a fourth operand.
abbrev pub own_result : Value
own_result = record { val_uid = 2; defining_entity = op 2 }

abbrev pub looped : ℕ × Context
looped = get_or (0, user) (push_operand Values user 2 own_result)

own_unused : get_defnode user own_result ≡ some []
unfolding user
own_unused = refl

pub looped-WellFormed : WellLinked Values looped.1
looped-WellFormed =
    (returned (0, user)
      (push_operand-Becomes Values-laws user 2 own_result three user-WellFormed.values own_unused
        user_operands)).1.well

pub looped_operands : operands looped.1 2 ≡ some (three ++ operand own_result 4 ∷ [])
unfolding user push_operand push_back
looped_operands = refl

pub looped_second_uses : get_defnode looped.1 second_result ≡ some (use_of_two 2 ∷ [])
unfolding user push_operand push_back
looped_second_uses = refl
