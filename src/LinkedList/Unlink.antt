-- ===== src/LinkedList/Unlink.antt =====
-- `unlink` takes one node out of its list and leaves it free.
use pliron.Prelude.{
  ◌≡◌, refl, ◌∙◌, false, Option, none, some, List, [], ◌∷◌, ◌++◌, arith, ◌==◌, ==_refl, has,
  has-append, append-Distinct, Returns, returns, Returns-mono, if◌then◌else◌, ==_false_sym,
}
use pliron.LinkedList.{
  Ptr, Node, Context, unlink, unlink_next, unlink_prev, set_next, set_prev, set_container, set_head,
  set_tail,
}
use pliron.LinkedList.Chain.{
  IsList, IsFree, SameOutside, Nodes, Around, IsList-Around, Chain-join, linked, first_or, last_or,
  first_or-append, last_or-append,
}
use pliron.LinkedList.Ops.{ne_of_mem, at_last}
use pliron.LinkedList.Splice.{
  at, with_next, with_prev, Chain-left, Chain-right, first-mem, last-not-mem, not-mem-left,
}

abbrev free_node : Node
free_node = record { next = none; prev = none; container = none }

abbrev unspliced : Nodes → (m : Ptr) → (p n : Option Ptr) → Nodes
unspliced g m p n a =
    if a == m
    then some free_node
    else if at p a
    then with_next g a n
    else if at n a
    then with_prev g a p
    else g a

-- `m` was taken from between the ends `p` and `n`, and the container has the ends `hd` and `tl`.
record Removal (c m : Ptr) (p n hd tl : Option Ptr) (ctx ctx' : Context) : Type 0 where
  nodes : (a : Ptr) → ctx'.nodes a ≡ unspliced ctx.nodes m p n a
  containers :
      (a : Ptr)
      → ctx'.containers a
        ≡ (if a == c then some (record { head = hd; tail = tl }) else ctx.containers a)

module _ {ctx : Context} {c m : Ptr} {p n hd tl : Option Ptr}
    (at_m : ctx.nodes m ≡ some (linked c p n))
    (ends : ctx.containers c ≡ some (record { head = hd; tail = tl })) where
  unlink-only : p ≡ none → n ≡ none → Returns (Removal c m none none none none ctx) (unlink ctx m)
  unfolding unlink unlink_next unlink_prev set_next set_prev set_container set_head set_tail
  unlink-only ep en =
      simp (at_m, ep, en, ends, ==_refl)
        (returns (record { nodes = λ a. ground arith; containers = λ a. ground arith }))

  unlink-first :
      {x : Ptr} {n' : Option Ptr}
      → p ≡ none
      → n ≡ some x
      → ctx.nodes x ≡ some (linked c (some m) n')
      → (m == x) ≡ false
      → Returns (Removal c m none (some x) (some x) tl ctx) (unlink ctx m)
  unfolding unlink unlink_next unlink_prev set_next set_prev set_container set_head set_tail
  unlink-first {x} ep en at_x mx =
      simp (at_m, ep, en, at_x, ends, ==_refl, mx)
        (returns (record { nodes = λ a. ground arith; containers = λ a. ground arith }))

  unlink-last :
      {y : Ptr} {p' : Option Ptr}
      → p ≡ some y
      → n ≡ none
      → ctx.nodes y ≡ some (linked c p' (some m))
      → (m == y) ≡ false
      → Returns (Removal c m (some y) none hd (some y) ctx) (unlink ctx m)
  unfolding unlink unlink_next unlink_prev set_next set_prev set_container set_head set_tail
  unlink-last {y} ep en at_y my =
      simp (at_m, ep, en, at_y, ends, ==_refl, my)
        (returns (record { nodes = λ a. ground arith; containers = λ a. ground arith }))

  unlink-inner :
      {x y : Ptr} {n' p' : Option Ptr}
      → p ≡ some y
      → n ≡ some x
      → ctx.nodes x ≡ some (linked c (some m) n')
      → ctx.nodes y ≡ some (linked c p' (some m))
      → (m == x) ≡ false
      → (m == y) ≡ false
      → (y == x) ≡ false
      → Returns (Removal c m (some y) (some x) hd tl ctx) (unlink ctx m)
  unfolding unlink unlink_next unlink_prev set_next set_prev set_container set_head set_tail
  unlink-inner {x} {y} ep en at_x at_y mx my yx =
      simp (at_m, ep, en, at_x, at_y, ends, ==_refl, mx, my, yx)
        (returns (record { nodes = λ a. ground arith; containers = λ a. ground arith }))

abbrev Removed : (c m : Ptr) (l r : List Ptr) → Context → Context → Type 0
Removed c m l r =
    Removal c m (last_or none l) (first_or r none) (first_or l (first_or r none))
      (last_or (last_or none l) r)

-- The list without `m`, and `m` free.
pub record Unlinked (c m : Ptr) (l r : List Ptr) (ctx ctx' : Context) : Type 0 where
  pub list : IsList ctx' c (l ++ r)
  pub free : IsFree ctx' m
  pub same : SameOutside c (l ++ m ∷ r) ctx ctx'

unspliced-left :
    (g : Nodes) (m : Ptr) (p n : Option Ptr) (a : Ptr)
    → (a == m) ≡ false
    → at n a ≡ false
    → unspliced g m p n a ≡ (if at p a then with_next g a n else g a)
unspliced-left g m p n a h k = rw (h, k)

unspliced-right :
    (g : Nodes) (m : Ptr) (p n : Option Ptr) (a : Ptr)
    → (a == m) ≡ false
    → at p a ≡ false
    → unspliced g m p n a ≡ (if at n a then with_prev g a p else g a)
unspliced-right g m p n a h k = rw (h, k)

unspliced-outside :
    (g : Nodes) (m : Ptr) (p n : Option Ptr) (a : Ptr)
    → (a == m) ≡ false
    → at p a ≡ false
    → at n a ≡ false
    → unspliced g m p n a ≡ g a
unspliced-outside g m p n a h k j = rw (h, k, j)

module _ {ctx ctx' : Context} {c m : Ptr} (l r : List Ptr) (ar : Around ctx c l m r)
    (rem : Removed c m l r ctx ctx') where
  removed-IsList : IsList ctx' c (l ++ r)
  removed-IsList = record {
    ends = rem.containers c ∙ rw (==_refl, first_or-append l r none, last_or-append none l r);
    chain =
        Chain-join ctx'.nodes c none l r none
          (Chain-left ctx.nodes c ctx'.nodes (first_or r none) none l (some m) ar.before
            ar.before_distinct
            λ b e.
              rem.nodes b
              ∙ unspliced-left ctx.nodes m (last_or none l) (first_or r none) b
                  (ne_of_mem b m l e ar.not_before) (first-mem r b (ar.apart b e)))
          (Chain-right ctx.nodes c ctx'.nodes (last_or none l) (some m) r none ar.after
            ar.after_distinct
            λ b e.
              rem.nodes b
              ∙ unspliced-right ctx.nodes m (last_or none l) (first_or r none) b
                  (ne_of_mem b m r e ar.not_after)
                  (last-not-mem l b (not-mem-left l r ar.apart b e)));
    distinct = append-Distinct l r ar.before_distinct ar.after_distinct ar.apart;
  }

  removed-SameOutside : SameOutside c (l ++ m ∷ r) ctx ctx'
  removed-SameOutside = record {
    nodes = λ a h.
        let (hl, (hm, hr)) = outside a h in
        rem.nodes a
        ∙ unspliced-outside ctx.nodes m (last_or none l) (first_or r none) a hm
            (last-not-mem l a hl) (first-mem r a hr);
    containers = λ a h. rem.containers a ∙ rw h refl;
  }
    where
      outside :
          (a : Ptr)
          → has a (l ++ m ∷ r) ≡ false
          → (has a l ≡ false) × (((a == m) ≡ false) × (has a r ≡ false))
      outside a h = let e = has-append a l (m ∷ r) in (ground arith, (ground arith, ground arith))

  removed-Unlinked : Unlinked c m l r ctx ctx'
  removed-Unlinked = record {
    list = removed-IsList;
    free = record { node = rem.nodes m ∙ rw ==_refl refl };
    same = removed-SameOutside;
  }

-- A node of a list is unlinked: the others keep their order, and the node is free again.
pub unlink-list :
    (ctx : Context) (c : Ptr) (l : List Ptr) (m : Ptr) (r : List Ptr)
    → IsList ctx c (l ++ m ∷ r)
    → Returns (Unlinked c m l r ctx) (unlink ctx m)
unlink-list ctx c l m r is =
    Returns-mono (removed l r is)
      λ ctx' rem. removed-Unlinked l r (IsList-Around ctx c l m r is) rem
  where
    removed :
        (l r : List Ptr) → IsList ctx c (l ++ m ∷ r) → Returns (Removed c m l r ctx) (unlink ctx m)
    removed [] [] is = unlink-only is.chain.0 is.ends refl refl
    removed [] (x ∷ xs) is =
        let ar = IsList-Around ctx c [] m (x ∷ xs) is in
        unlink-first is.chain.0 is.ends refl refl ar.after.0 (ground (arith, ar.not_after))
    removed (y ∷ ys) [] is =
        let ar = IsList-Around ctx c (y ∷ ys) m [] is in
        let (t, e, mem, (q, at_t)) = at_last ctx c y ys (m ∷ []) is in
        let tm = ne_of_mem t m (y ∷ ys) mem ar.not_before in
        rw e (unlink-last ar.node is.ends e refl at_t (==_false_sym t m tm))
    removed (y ∷ ys) (x ∷ xs) is =
        let ar = IsList-Around ctx c (y ∷ ys) m (x ∷ xs) is in
        let (t, e, mem, (q, at_t)) = at_last ctx c y ys (m ∷ x ∷ xs) is in
        let tm = ne_of_mem t m (y ∷ ys) mem ar.not_before in
        let ends : ctx.containers c ≡ some (record { head = some y; tail = last_or (some x) xs }) =
          is.ends ∙ rw (last_or-append (some y) ys (m ∷ x ∷ xs)) in
        rw e (
          unlink-inner ar.node ends e refl ar.after.0 at_t (ground (arith, ar.not_after))
            (==_false_sym t m tm) (first-mem (x ∷ xs) t (ar.apart t mem)))
