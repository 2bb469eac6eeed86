-- ===== src/LinkedList/Splice.antt =====
-- The effect that the four insertions share: `s` comes to stand between `l` and `r`.
use pliron.Prelude.{
  ◌≡◌, refl, ◌∙◌, Bool, true, false, Option, none, some, List, [], ◌∷◌, ◌++◌, arith, ◌==◌, ==_refl,
  has, has-append, Distinct, Distinct-append, append-Distinct, if◌then◌else◌,
}
use pliron.LinkedList.{Ptr, Node, Context}
use pliron.LinkedList.Chain.{
  IsList, IsFree, SameOutside, Nodes, Chain, Chain-split, Chain-join, Chain-frame, not-mem-Chain,
  linked, first_or, last_or, first_or-append, last_or-append,
}

-- Is `a` the end `q`?
abbrev pub at : Option Ptr → Ptr → Bool
at none a = false
at (some p) a = a == p

abbrev pub with_next : Nodes → Ptr → Option Ptr → Option Node
with_next g a q = elim (g a) [ none ↦ none | some n ↦ some (record n { next = q }) ]

abbrev pub with_prev : Nodes → Ptr → Option Ptr → Option Node
with_prev g a q = elim (g a) [ none ↦ none | some n ↦ some (record n { prev = q }) ]

abbrev pub spliced : Nodes → (c s : Ptr) → (p n : Option Ptr) → Nodes
spliced g c s p n a =
    if a == s
    then some (linked c p n)
    else if at p a
    then with_next g a (some s)
    else if at n a
    then with_prev g a (some s)
    else g a

-- `s` was put between the ends `p` and `n`, and the container has the ends `hd` and `tl`.
pub record Effect (c s : Ptr) (p n hd tl : Option Ptr) (ctx ctx' : Context) : Type 0 where
  pub nodes : (a : Ptr) → ctx'.nodes a ≡ spliced ctx.nodes c s p n a
  pub containers :
      (a : Ptr)
      → ctx'.containers a
        ≡ (if a == c then some (record { head = hd; tail = tl }) else ctx.containers a)

abbrev pub Spliced : (c s : Ptr) (l r : List Ptr) → Context → Context → Type 0
Spliced c s l r =
    Effect c s (last_or none l) (first_or r none) (first_or l (some s)) (last_or (some s) r)

has_head : (x : Ptr) (xs : List Ptr) → has x (x ∷ xs) ≡ true
has_head x xs = rw ==_refl

has_tail : (a x : Ptr) (xs : List Ptr) → has a xs ≡ true → has a (x ∷ xs) ≡ true
has_tail a x xs h = ground arith

-- The last of a list that is not empty is among its members.
pub last-mem :
    (x : Ptr) (xs : List Ptr) (a : Ptr) → at (last_or (some x) xs) a ≡ true → has a (x ∷ xs) ≡ true
last-mem x [] a h = ground arith
last-mem x (y ∷ ys) a h = ground (arith, last-mem y ys a)

pub last-not-mem : (l : List Ptr) (a : Ptr) → has a l ≡ false → at (last_or none l) a ≡ false
last-not-mem [] a h = refl
last-not-mem (x ∷ xs) a h = ground (arith, last-mem x xs a)

module _ (g : Nodes) (c : Ptr) where
  pub node_at_last :
      (p : Option Ptr) (l : List Ptr) (a : Option Ptr) (t : Ptr)
      → Chain g c p l a
      → last_or none l ≡ some t
      → (q : Option Ptr) × (g t ≡ some (linked c q a))
  node_at_last p [] a t h e = cc
  node_at_last p (x ∷ []) a t h e = (p, ground arith)
  node_at_last p (x ∷ y ∷ ys) a t h e = node_at_last (some x) (y ∷ ys) a t h.1 e

  -- The left part, once its last node points to `q`.
  pub Chain-left :
      (g' : Nodes) (q p : Option Ptr) (l : List Ptr) (a : Option Ptr)
      → Chain g c p l a
      → Distinct l
      → ((b : Ptr)
          → has b l ≡ true
          → g' b ≡ (if at (last_or none l) b then with_next g b q else g b))
      → Chain g' c p l q
  Chain-left g' q p [] a h d w = tt
  Chain-left g' q p (x ∷ []) a h d w = (ground (arith, w x, ==_refl x), tt)
  Chain-left g' q p (x ∷ y ∷ ys) a h d w =
      let inner : at (last_or (some y) ys) x ≡ false = last-not-mem (y ∷ ys) x d.0 in
      (
        w x (has_head x (y ∷ ys)) ∙ rw inner h.0,
        Chain-left g' q (some x) (y ∷ ys) a h.1 d.1 λ b e. w b (has_tail b x (y ∷ ys) e),
      )

  -- The right part, once its first node points back to `q`.
  pub Chain-right :
      (g' : Nodes) (q p : Option Ptr) (r : List Ptr) (a : Option Ptr)
      → Chain g c p r a
      → Distinct r
      → ((b : Ptr)
          → has b r ≡ true
          → g' b ≡ (if at (first_or r none) b then with_prev g b q else g b))
      → Chain g' c q r a
  Chain-right g' q p [] a h d w = tt
  Chain-right g' q p (x ∷ xs) a h d w = (
    ground (arith, w x, ==_refl x),
    Chain-frame g c g' (some x) xs a h.1 λ b e. ground (arith, w b),
  )

pub first-mem : (r : List Ptr) (a : Ptr) → has a r ≡ false → at (first_or r none) a ≡ false
first-mem [] a h = refl
first-mem (x ∷ xs) a h = ground arith

spliced-left :
    (g : Nodes) (c s : Ptr) (p n : Option Ptr) (a : Ptr)
    → (a == s) ≡ false
    → at n a ≡ false
    → spliced g c s p n a ≡ (if at p a then with_next g a (some s) else g a)
spliced-left g c s p n a h k = rw (h, k)

spliced-right :
    (g : Nodes) (c s : Ptr) (p n : Option Ptr) (a : Ptr)
    → (a == s) ≡ false
    → at p a ≡ false
    → spliced g c s p n a ≡ (if at n a then with_prev g a (some s) else g a)
spliced-right g c s p n a h k = rw (h, k)

pub not-mem-left :
    (l r : List Ptr)
    → ((a : Ptr) → has a l ≡ true → has a r ≡ false)
    → (b : Ptr) → has b r ≡ true
    → has b l ≡ false
not-mem-left l r apart b e = ground (arith, apart b)

module _ {ctx ctx' : Context} {c s : Ptr} (l r : List Ptr) (is : IsList ctx c (l ++ r))
    (free : IsFree ctx s) (sp : Spliced c s l r ctx ctx') where
  not-mem_of_free : has s (l ++ r) ≡ false
  not-mem_of_free =
      not-mem-Chain ctx.nodes c none (l ++ r) none s is.chain λ n e f. ground (arith, free.node)

  ne_of_mem_left : (b : Ptr) → has b l ≡ true → (b == s) ≡ false
  ne_of_mem_left b e = ground (arith, has-append s l r, not-mem_of_free)

  ne_of_mem_right : (b : Ptr) → has b r ≡ true → (b == s) ≡ false
  ne_of_mem_right b e = ground (arith, has-append s l r, not-mem_of_free)

  splice-Chain : Chain ctx'.nodes c none (l ++ s ∷ r) none
  splice-Chain =
      let (hl, hr) = Chain-split ctx.nodes c none l r none is.chain in
      let (dl, dr, apart) = Distinct-append l r is.distinct in
      Chain-join ctx'.nodes c none l (s ∷ r) none
        (Chain-left ctx.nodes c ctx'.nodes (some s) none l (first_or r none) hl dl λ b e.
          sp.nodes b
          ∙ spliced-left ctx.nodes c s (last_or none l) (first_or r none) b (ne_of_mem_left b e)
              (first-mem r b (apart b e)))
        (
          sp.nodes s ∙ rw ==_refl refl,
          Chain-right ctx.nodes c ctx'.nodes (some s) (last_or none l) r none hr dr λ b e.
              sp.nodes b
              ∙ spliced-right ctx.nodes c s (last_or none l) (first_or r none) b
                  (ne_of_mem_right b e) (last-not-mem l b (not-mem-left l r apart b e)),
        )

  splice-Distinct : Distinct (l ++ s ∷ r)
  splice-Distinct =
      let (dl, dr, apart) = Distinct-append l r is.distinct in
      append-Distinct l (s ∷ r) dl (ground (arith, has-append s l r, not_mem), dr)
        λ a h. ground (arith, apart a, has-append s l r, not_mem, h)
    where
      not_mem : has s (l ++ r) ≡ false
      not_mem = not-mem_of_free

  -- The list with `s` between `l` and `r`.
  pub splice-IsList : IsList ctx' c (l ++ s ∷ r)
  splice-IsList = record {
    ends = sp.containers c ∙ rw (==_refl, first_or-append, last_or-append);
    chain = splice-Chain;
    distinct = splice-Distinct;
  }

  pub splice-SameOutside : SameOutside c (s ∷ l ++ r) ctx ctx'
  splice-SameOutside = record {
    nodes = λ a h. ground (arith, sp.nodes a, has-append a l r, last-not-mem l a, first-mem r a);
    containers = λ a h. ground (arith, sp.containers a);
  }
