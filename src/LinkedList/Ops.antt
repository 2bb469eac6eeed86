-- ===== src/LinkedList/Ops.antt =====
-- The insertions on lists: each puts the free node at its place and keeps every other node.
use pliron.Prelude.{
  ◌≡◌, refl, ◌∙◌, true, false, Option, none, some, Bool-cases, inl, inr, ==_refl, ==→≡, List, [],
  ◌∷◌, ◌++◌, arith, ◌==◌, has, has-append, Returns, Returns-mono,
}
use mathlib.Core.List.{append-nil, append_assoc}
use pliron.LinkedList.{Ptr, Context, insert_after, insert_before, insert_at_front, insert_at_back}
use pliron.LinkedList.Chain.{
  IsList, IsFree, SameOutside, Chain-split, linked, IsList-Around, first_or, last_or,
  first_or-append, last_or-append, not-mem-Chain,
}
use pliron.LinkedList.Splice.{Spliced, last-mem, node_at_last, splice-IsList, splice-SameOutside}
use pliron.LinkedList.Insert.{
  insert_after-last, insert_after-inner, insert_before-first, insert_before-inner,
  insert_at_front-empty, insert_at_front-some, insert_at_back-empty, insert_at_back-some,
}

-- The list of `c` becomes `ys`, and only the nodes `xs` and the container are written.
abbrev pub Becomes : Ptr → (xs ys : List Ptr) → Context → Context → Type 0
Becomes c xs ys ctx ctx' = IsList ctx' c ys × SameOutside c xs ctx ctx'

last-some : (x : Ptr) (xs : List Ptr) → (t : Ptr) × (last_or (some x) xs ≡ some t)
last-some x [] = (x, refl)
last-some x (y ∷ ys) = last-some y ys

mem_third : (n : Ptr) (l : List Ptr) (m : Ptr) (r : List Ptr) → has n (l ++ m ∷ n ∷ r) ≡ true
mem_third n [] m r = ground (arith, ==_refl n)
mem_third n (x ∷ xs) m r = ground (arith, mem_third n xs m r)

pub mem_left : (a : Ptr) (xs ys : List Ptr) → has a xs ≡ true → has a (xs ++ ys) ≡ true
mem_left a xs ys h = rw (has-append a xs ys, h)

pub ne_of_mem : (t m : Ptr) (xs : List Ptr) → has t xs ≡ true → has m xs ≡ false → (t == m) ≡ false
ne_of_mem t m [] h k = cc
ne_of_mem t m (x ∷ xs) h k = ground (arith, ne_of_mem t m xs)

-- The last node of a list, and what stands there.
pub at_last :
    (ctx : Context) (c : Ptr) (x : Ptr) (xs r : List Ptr)
    → IsList ctx c (x ∷ xs ++ r)
    → (t : Ptr) × (last_or (some x) xs ≡ some t)
      × (has t (x ∷ xs) ≡ true)
      × ((q : Option Ptr) × (ctx.nodes t ≡ some (linked c q (first_or r none))))
at_last ctx c x xs r is =
    let (t, e) = last-some x xs in
    let (h, _) = Chain-split ctx.nodes c none (x ∷ xs) r none is.chain in
    (
      t,
      e,
      last-mem x xs t (rw (e, ==_refl)),
      node_at_last ctx.nodes c none (x ∷ xs) (first_or r none) t h e,
    )

module _ {ctx : Context} {c s : Ptr} (free : IsFree ctx s) where
  free-ne : (l : List Ptr) (m : Ptr) (r : List Ptr) → IsList ctx c (l ++ m ∷ r) → (s == m) ≡ false
  free-ne l m r is =
      let out : has s (l ++ m ∷ r) ≡ false =
        not-mem-Chain ctx.nodes c none (l ++ m ∷ r) none s is.chain
          λ n e f. ground (arith, free.node) in
      ground (arith, has-append s l (m ∷ r))

  free-ne-mem : (xs : List Ptr) (t : Ptr) → IsList ctx c xs → has t xs ≡ true → (s == t) ≡ false
  free-ne-mem xs t is h =
      let out : has s xs ≡ false =
        not-mem-Chain ctx.nodes c none xs none s is.chain λ n e f. ground (arith, free.node) in
      elim (Bool-cases (s == t)) [ inl e ↦ cc (==→≡ s t e) | inr e ↦ e ]

  finish :
      (l r : List Ptr) {o : Option Context}
      → IsList ctx c (l ++ r)
      → Returns (Spliced c s l r ctx) o
      → Returns (Becomes c (s ∷ l ++ r) (l ++ s ∷ r) ctx) o
  finish l r is ret =
      Returns-mono ret λ ctx' sp. (splice-IsList l r is free sp, splice-SameOutside l r is free sp)

  insert_at_front-list :
      (xs : List Ptr)
      → IsList ctx c xs
      → Returns (Becomes c (s ∷ xs) (s ∷ xs) ctx) (insert_at_front ctx s c)
  insert_at_front-list [] is = finish [] [] is (insert_at_front-empty free is.ends refl)
  insert_at_front-list (x ∷ xs) is =
      finish [] (x ∷ xs) is (insert_at_front-some free is.ends refl is.chain.0 (free-ne [] x xs is))

  -- `insert_at_back` appends the node.
  pub insert_at_back-list :
      (xs : List Ptr)
      → IsList ctx c xs
      → Returns (Becomes c (s ∷ xs) (xs ++ s ∷ []) ctx) (insert_at_back ctx s c)
  insert_at_back-list [] is = finish [] [] is (insert_at_back-empty free is.ends refl)
  insert_at_back-list (x ∷ xs) is =
      let is' : IsList ctx c (x ∷ xs ++ []) = rw append-nil is in
      let (t, e, mem, (q, at_t)) = at_last ctx c x xs [] is' in
      Returns-mono
        (finish (x ∷ xs) [] is'
          (rw e (insert_at_back-some free is.ends e at_t (free-ne-mem (x ∷ xs) t is mem))))
        λ ctx' b. rw append-nil at b

  -- `insert_after` puts the node behind the mark.
  pub insert_after-list :
      (l : List Ptr) (m : Ptr) (r : List Ptr)
      → IsList ctx c (l ++ m ∷ r)
      → Returns (Becomes c (s ∷ l ++ m ∷ r) (l ++ m ∷ s ∷ r) ctx) (insert_after ctx s m)
  insert_after-list l m r is =
      let front : (ys : List Ptr) → (l ++ m ∷ []) ++ ys ≡ l ++ m ∷ ys = append_assoc l (m ∷ []) in
      let is' : IsList ctx c ((l ++ m ∷ []) ++ r) = rw (front r) is in
      Returns-mono (finish (l ++ m ∷ []) r is' (spliced_after r is))
        λ ctx' b. rw (front r, front (s ∷ r)) at b
    where
      spliced_after :
          (r : List Ptr)
          → IsList ctx c (l ++ m ∷ r)
          → Returns (Spliced c s (l ++ m ∷ []) r ctx) (insert_after ctx s m)
      spliced_after [] is =
          let ar = IsList-Around ctx c l m [] is in
          let ends : ctx.containers c
              ≡ some (record { head = first_or l (some m); tail = some m }) =
            is.ends ∙ rw (first_or-append l (m ∷ []) none, last_or-append none l (m ∷ [])) in
          rw (first_or-append l (m ∷ []) (some s), last_or-append none l (m ∷ []))
            (insert_after-last free ends ar.node (free-ne l m [] is) refl refl)
      spliced_after (n ∷ r) is =
          let ar = IsList-Around ctx c l m (n ∷ r) is in
          let ends : ctx.containers c
              ≡ some (record { head = first_or l (some m); tail = last_or (some n) r }) =
            is.ends ∙ rw (first_or-append l (m ∷ n ∷ r) none, last_or-append none l (m ∷ n ∷ r)) in
          rw (first_or-append l (m ∷ []) (some s), last_or-append none l (m ∷ []))
            (insert_after-inner free ends ar.node (free-ne l m (n ∷ r) is) refl ar.after.0
              (free-ne-mem (l ++ m ∷ n ∷ r) n is (mem_third n l m r))
              (ground (arith, ar.not_after)))

  -- `insert_before` puts the node before the mark.
  insert_before-list :
      (l : List Ptr) (m : Ptr) (r : List Ptr)
      → IsList ctx c (l ++ m ∷ r)
      → Returns (Becomes c (s ∷ l ++ m ∷ r) (l ++ s ∷ m ∷ r) ctx) (insert_before ctx s m)
  insert_before-list [] m r is =
      finish [] (m ∷ r) is
        (insert_before-first free is.ends is.chain.0 (free-ne [] m r is) refl refl)
  insert_before-list (x ∷ xs) m r is =
      let ar = IsList-Around ctx c (x ∷ xs) m r is in
      let (t, e, mem, (q, at_t)) = at_last ctx c x xs (m ∷ r) is in
      let ends : ctx.containers c ≡ some (record { head = some x; tail = last_or (some m) r }) =
        is.ends ∙ rw (last_or-append (some x) xs (m ∷ r)) in
      finish (x ∷ xs) (m ∷ r) is (
        rw e (
          insert_before-inner free ends ar.node (free-ne (x ∷ xs) m r is) e at_t
            (free-ne-mem (x ∷ xs ++ m ∷ r) t is (mem_left t (x ∷ xs) (m ∷ r) mem))
            (ne_of_mem t m (x ∷ xs) mem ar.not_before)))
