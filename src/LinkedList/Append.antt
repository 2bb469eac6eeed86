-- ===== src/LinkedList/Append.antt =====
-- Lists of different containers do not meet, and `append_linked_list` moves one behind the other.
use mathlib.Core.List.{append-nil, append_assoc}
use pliron.Prelude.{
  ℕ, zero, suc, ◌<◌, ◌≡◌, refl, ap, ◌∙◌, true, false, Option, none, some, List, [], ◌∷◌, ◌++◌,
  arith, ◌==◌, ==→≡, Bool-cases, inl, inr, ==_false_sym, has, length, Returns, returns,
  Returns-mono, Returns-bind, ◌>>=◌, length-append,
}
use pliron.LinkedList.{Ptr, Node, Context, append_loop, append_linked_list}
use pliron.LinkedList.Chain.{
  IsList, SameOutside, Nodes, Chain, Chain-frame, not-mem-Chain, first_or,
}
use pliron.LinkedList.Ops.{ne_of_mem, insert_at_back-list}
use pliron.LinkedList.Unlink.{unlink-list}

pub mem-container :
    (g : Nodes) (c : Ptr) (p : Option Ptr) (xs : List Ptr) (z : Option Ptr) (a : Ptr)
    → Chain g c p xs z
    → has a xs ≡ true
    → (n : Node) × (g a ≡ some n) × (n.container ≡ some c)
mem-container g c p [] z a h m = cc
mem-container g c p (x ∷ xs) z a h m = elim (Bool-cases (a == x)) [
  | inl e ↦ (_, ap g (==→≡ a x e) ∙ h.0, refl)
  | inr e ↦ mem-container g c (some x) xs z a h.1 (ground arith)
]

-- A node is in one list at most.
pub IsList-disjoint :
    {ctx : Context} {c d : Ptr} (xs ys : List Ptr)
    → IsList ctx c xs
    → IsList ctx d ys
    → (c == d) ≡ false
    → (a : Ptr) → has a xs ≡ true
    → has a ys ≡ false
IsList-disjoint {ctx} {c} {d} xs ys is is' ne a m =
    let (n, e, f) = mem-container ctx.nodes c none xs none a is.chain m in
    not-mem-Chain ctx.nodes d none ys none a is'.chain λ k e' f'. ground (arith)

-- A list keeps its nodes where none of them is written.
pub IsList-frame :
    {ctx ctx' : Context} {c d : Ptr} (xs ys : List Ptr)
    → IsList ctx c xs
    → SameOutside d ys ctx ctx'
    → (c == d) ≡ false
    → ((a : Ptr) → has a xs ≡ true → has a ys ≡ false)
    → IsList ctx' c xs
IsList-frame {ctx} {ctx'} {c} xs ys is same ne apart = record {
  ends = same.containers c ne ∙ is.ends;
  chain = Chain-frame ctx.nodes c ctx'.nodes none xs none is.chain λ b m. same.nodes b (apart b m);
  distinct = is.distinct;
}

abbrev pub Moved : (donee donor : Ptr) (zs : List Ptr) → Context → Type 0
Moved donee donor zs ctx' = IsList ctx' donee zs × IsList ctx' donor []

module _ (donee donor : Ptr) (ne : (donee == donor) ≡ false) where
  append_loop-list :
      (fuel : ℕ) (ctx : Context) (xs ys : List Ptr)
      → IsList ctx donee xs
      → IsList ctx donor ys
      → length ys < fuel
      → Returns (Moved donee donor (xs ++ ys)) (append_loop fuel ctx donee (first_or ys none))
  unfolding append_loop
  append_loop-list zero ctx xs ys is is' f = absurd (omega arith)
  append_loop-list (suc fuel) ctx xs [] is is' f = returns (rw append-nil is, is')
  append_loop-list (suc fuel) ctx xs (y ∷ ys) is is' f = rw is'.chain.0 (
      Returns-bind (unlink-list ctx donor [] y ys is') λ ctx1 u.
        let kept = IsList-frame xs (y ∷ ys) is u.same ne (IsList-disjoint xs (y ∷ ys) is is' ne) in
        Returns-bind (insert_at_back-list u.free xs kept) λ ctx2 b.
          let gone = IsList-frame ys (y ∷ xs) u.list b.1 (==_false_sym donee donor ne) λ a m. rw (
            ne_of_mem a y ys m is'.distinct.0,
            IsList-disjoint ys xs u.list kept (==_false_sym donee donor ne) a m,
          ) in
          let rest = append_loop-list fuel ctx2 (xs ++ y ∷ []) ys b.0 gone (omega arith) in
          Returns-mono rest λ ctx3 m. rw append_assoc at m)

  -- Of two different containers that hold the nodes `xs` and `ys`, append_linked_list moves all nodes
  -- of the donor behind those of the donee, in order, and leaves the donor empty. Fuel above the
  -- number of the donor's nodes is enough.
  pub append_linked_list-list :
      (fuel : ℕ) (ctx : Context) (xs ys : List Ptr)
      → IsList ctx donee xs
      → IsList ctx donor ys
      → length ys < fuel
      → Returns (Moved donee donor (xs ++ ys)) (append_linked_list fuel ctx donee donor)
  unfolding append_linked_list
  append_linked_list-list fuel ctx xs ys is is' f =
      rw is'.ends (append_loop-list fuel ctx xs ys is is' f)

bind_none :
    {A B : Type 0} {P : A → Type 0} {r : Option A} (k : A → Option B)
    → Returns P r
    → ((a : A) → P a → k a ≡ none)
    → (r >>= k) ≡ none
bind_none k (returns {a} p) stops = stops a p

-- Of one container with two nodes or more, no fuel is enough: each node is moved behind itself.
append_loop-itself :
    (c : Ptr) (fuel : ℕ) (ctx : Context) (xs : List Ptr)
    → IsList ctx c xs
    → 1 < length xs
    → append_loop fuel ctx c (first_or xs none) ≡ none
unfolding append_loop
append_loop-itself c zero ctx xs is many = refl
append_loop-itself c (suc fuel) ctx [] is many = absurd (omega arith)
append_loop-itself c (suc fuel) ctx (x ∷ []) is many = absurd (omega arith)
append_loop-itself c (suc fuel) ctx (x ∷ y ∷ ys) is many = rw is.chain.0 (
    bind_none _ (unlink-list ctx c [] x (y ∷ ys) is) λ ctx1 u.
      bind_none _ (insert_at_back-list u.free (y ∷ ys) u.list) λ ctx2 b.
        append_loop-itself c fuel ctx2 (y ∷ ys ++ x ∷ []) b.0
          (omega (arith, length-append ys (x ∷ []))))
