-- ===== src/Graph/Dominance/Frontier.antt =====
-- src/graph/dominance.rs: DomFrontierMap::new. The hash map is a function, and `none` is a panic, or
-- that the fuel for the dominators of a node has run out.
pub mod Runners
pub mod Below
pub mod Lone
pub mod Correct
pub mod Frontiers
use pliron.Prelude.{
  ℕ, zero, suc, Bool, true, false, not, ◌||◌, Option, none, some, List, [], ◌∷◌, ◌++◌, ◌==◌, ltb,
  if◌then◌else◌, ◌>>=◌, has,
}
use pliron.Graph.{ControlFlowGraph, num_predecessors}
use pliron.Graph.Dominance.Tree.{DomTree, contains, idom, dominators}

abbrev pub DomFrontierMap : Type 0
DomFrontierMap = ℕ → Option (List ℕ)

-- An insertion into an `ISet`.
abbrev pub add_element : List ℕ → ℕ → List ℕ
add_element s b = if has b s then s else s ++ b ∷ []

-- `res.get_mut(&runner).unwrap().insert(b)`
unfoldable pub insert_at : DomFrontierMap → (runner b : ℕ) → Option DomFrontierMap
insert_at res runner b =
    res runner >>= λ s. some (λ n. if n == runner then some (add_element s b) else res n)

-- `take_while(|n| *n != b_idom)`
abbrev pub take_until : (b_idom : ℕ) → List ℕ → List ℕ
take_until b_idom [] = []
take_until b_idom (n ∷ l) = if n == b_idom then [] else n ∷ take_until b_idom l

unfoldable pub add_runners : DomFrontierMap → (b : ℕ) → List ℕ → Option DomFrontierMap
add_runners res b [] = some res
add_runners res b (runner ∷ l) = insert_at res runner b >>= λ res'. add_runners res' b l

-- The loop over the predecessors that the tree contains.
unfoldable pub add_preds :
    ℕ → DomTree → DomFrontierMap → (b b_idom : ℕ) → List ℕ → Option DomFrontierMap
add_preds fuel t res b b_idom [] = some res
add_preds fuel t res b b_idom (p ∷ preds) =
    let added = dominators fuel t p >>= λ l. add_runners res b (take_until b_idom l) in
    (if contains t p then added else some res) >>= λ res'. add_preds fuel t res' b b_idom preds

-- The round of the loop for a node.
unfoldable pub add_node :
    ℕ → ControlFlowGraph → DomTree → DomFrontierMap → ℕ → Option DomFrontierMap
add_node fuel g t res b =
    if not (contains t b) || ltb (num_predecessors g b) 2
    then some res
    else idom t b >>= λ o. o >>= λ b_idom. add_preds fuel t res b b_idom (g.predecessors b)

unfoldable pub add_nodes :
    ℕ → ControlFlowGraph → DomTree → DomFrontierMap → List ℕ → Option DomFrontierMap
add_nodes fuel g t res [] = some res
add_nodes fuel g t res (b ∷ nodes) =
    add_node fuel g t res b >>= λ res'. add_nodes fuel g t res' nodes

unfoldable pub new : ℕ → ControlFlowGraph → DomTree → Option DomFrontierMap
new fuel g t = add_nodes fuel g t (λ n. if has n g.nodes then some [] else none) g.nodes

-- A node that the graph does not have is a panic.
unfoldable pub frontier : DomFrontierMap → ℕ → Option (List ℕ)
frontier res n = res n
