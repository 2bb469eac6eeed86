-- ===== src/Graph/Traversals/Reversed.antt =====
-- The topological order by component against the post-order by component.
use pliron.Prelude.{
  Option-cases, ℕ, ◌≡◌, refl, ap, Bool, false, some, List, [], ◌∷◌, ◌>>=◌, inl, inr,
}
use mathlib.Core.List.{reverse}
use pliron.Graph.{ControlFlowGraph}
use pliron.Graph.Traversals.{
  post_order_walk_component, push_component, components, post_order_by_component, push_reversed,
  reversed_components, topological_order_by_component,
}

abbrev pub reverse_all : List (List ℕ) → List (List ℕ)
reverse_all [] = []
reverse_all (l ∷ ls) = reverse l ∷ reverse_all ls

push_reversed-reverse_all :
    (po : List ℕ) (comps : List (List ℕ))
    → push_reversed po (reverse_all comps) ≡ reverse_all (push_component po comps)
push_reversed-reverse_all [] comps = refl
push_reversed-reverse_all (v ∷ po) comps = refl

reversed_components-reverse_all :
    (fuel : ℕ) (g : ControlFlowGraph) (nodes : List ℕ) (seen : ℕ → Bool)
    → reversed_components fuel g seen nodes
      ≡ (components fuel g seen nodes >>= λ comps. some (reverse_all comps))
unfolding reversed_components components
reversed_components-reverse_all fuel g [] seen = refl
reversed_components-reverse_all fuel g (node ∷ nodes) seen =
    elim (Option-cases (post_order_walk_component fuel g node seen)) [
      | inl e ↦ rw e refl
      | inr ((seen', po), e) ↦
          let rest = reversed_components-reverse_all fuel g nodes seen' in
          elim (Option-cases (components fuel g seen' nodes)) [
            | inl e' ↦ rw (e, rest, e') refl
            | inr (comps, e') ↦ rw (e, rest, e') (ap some (push_reversed-reverse_all po comps))
          ]
    ]

-- On any graph and with any fuel, topological_order_by_component gives the components of
-- post_order_by_component, each reversed, and panics or runs out of fuel exactly where it does.
pub topological_order_by_component-reverse_all :
    (fuel : ℕ) (g : ControlFlowGraph)
    → topological_order_by_component fuel g
      ≡ (post_order_by_component fuel g >>= λ comps. some (reverse_all comps))
unfolding topological_order_by_component post_order_by_component
topological_order_by_component-reverse_all fuel g =
    reversed_components-reverse_all fuel g g.nodes (λ v. false)
