-- ===== src/Graph/Dominance.antt =====
-- src/graph/dominance.rs: the fixpoint of compute_dominator_tree. A node is its index in the reverse
-- post-order, and a predecessor that is not reachable from the entry has none. `none` is a panic, or
-- that the fuel of a loop has run out.
pub mod Walks
pub mod Ancestors
pub mod Intersect
pub mod Update
pub mod Budget
pub mod Loop
pub mod Tree
pub mod Frontier
use pliron.Prelude.{
  ℕ, zero, suc, ◌+◌, ◌-◌, Bool, true, false, ◌||◌, Option, none, some, List, [], ◌∷◌, ◌==◌, ltb,
  if◌then◌else◌, ◌>>=◌, is_some, is_none,
}
use pliron.SmallTable.Vec.{get_elem?, set}

abbrev pub Dom : Type 0
Dom = List (Option ℕ)

-- `vec![None; n]` with `dom[0] = Some(0)`.
abbrev pub blank : ℕ → Dom
blank zero = []
blank (suc n) = none ∷ blank n

abbrev pub initial : ℕ → Dom
initial zero = []
initial (suc n) = some 0 ∷ blank n

-- `dom[i]`, for an index from `rpo_index` or the array: none of these is past the end.
unfoldable pub dom_at : Dom → ℕ → Option ℕ
dom_at [] i = none
dom_at (x ∷ dom) zero = x
dom_at (x ∷ dom) (suc i) = dom_at dom i

-- `while finger > target { finger = dom[finger].unwrap(); }`
unfoldable pub climb : ℕ → Dom → (finger target : ℕ) → Option ℕ
climb zero dom finger target = none
climb (suc fuel) dom finger target =
    let up = dom_at dom finger >>= (λ parent. climb fuel dom parent target) in
    if ltb target finger then up else some finger

unfoldable pub intersect : ℕ → (finger1 finger2 : ℕ) → Dom → Option ℕ
intersect zero finger1 finger2 dom = none
intersect (suc fuel) finger1 finger2 dom =
    let round = climb (suc finger1) dom finger1 finger2 >>= λ f1.
    climb (suc finger2) dom finger2 f1 >>= λ f2. intersect fuel f1 f2 dom in
    if finger1 == finger2 then some finger1 else round

-- The first processed predecessor.
unfoldable pub find_processed : Dom → List ℕ → Option ℕ
find_processed dom [] = none
find_processed dom (p ∷ ps) = if is_some (dom_at dom p) then some p else find_processed dom ps

-- The loop over the other predecessors.
unfoldable pub meet_preds : Dom → (picked_pred : ℕ) → List ℕ → (new_idom : ℕ) → Option ℕ
meet_preds dom picked_pred [] new_idom = some new_idom
meet_preds dom picked_pred (p ∷ ps) new_idom =
    let next =
      intersect (suc (p + new_idom)) p new_idom dom >>= (λ d. meet_preds dom picked_pred ps d) in
    if p == picked_pred || is_none (dom_at dom p)
    then meet_preds dom picked_pred ps new_idom
    else next

unfoldable pub compute_idom : Dom → List ℕ → Option ℕ
compute_idom dom preds = find_processed dom preds >>= λ p. meet_preds dom p preds p

abbrev pub is_value : Option ℕ → ℕ → Bool
is_value none v = false
is_value (some w) v = w == v

-- One round of the `for` loop, with whether it changed the array.
unfoldable pub process_node : Dom → ℕ → List ℕ → Option (Dom × Bool)
process_node dom i preds = compute_idom dom preds >>= λ new_idom.
    if is_value (dom_at dom i) new_idom
    then some (dom, false)
    else some (set dom i (some new_idom), true)

-- The `for` loop, from index i on for a number of nodes.
unfoldable pub pass : (ℕ → List ℕ) → Dom → Bool → (i count : ℕ) → Option (Dom × Bool)
pass preds dom changed i zero = some (dom, changed)
pass preds dom changed i (suc count) =
    process_node dom i (preds i) >>= λ (dom', c). pass preds dom' (changed || c) (suc i) count

-- The `while` loop on fuel.
unfoldable pub fixpoint : ℕ → (ℕ → List ℕ) → (n : ℕ) → Dom → Option Dom
fixpoint zero preds n dom = none
fixpoint (suc fuel) preds n dom = pass preds dom false 1 (n - 1) >>= λ (dom', changed).
    let again = fixpoint fuel preds n dom' in if changed then again else some dom'
