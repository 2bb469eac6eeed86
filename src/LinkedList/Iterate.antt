-- ===== src/LinkedList/Iterate.antt =====
-- The double-ended iterator: from either side it hands out the nodes that are left, each once.
use pliron.Prelude.{
  ℕ, suc, ◌-◌, length, length-append, ap, ◌>>=◌, Returns, returns, Returns-bind, ◌≡◌, refl, ◌∙◌,
  false, Option, none, some, List, [], ◌∷◌, ◌++◌, arith, ◌==◌, ==_refl, has, Distinct,
  Distinct-append,
}
use mathlib.Core.Path.{subst}
use mathlib.Core.List.{append-nil, append_assoc}
use pliron.LinkedList.{
  Ptr, Context, Iter, iter, iter_next, iter_next_at, iter_next_back, iter_next_back_at,
}
use pliron.LinkedList.Chain.{IsList, Chain, Chain-split, first_or, last_or, last_or-append}

-- The iterator has the nodes `xs` left, which stand together in the list of `c`.
pub record Left (ctx : Context) (c : Ptr) (it : Iter) (xs : List Ptr) : Type 0 where
  pub next : it.next ≡ first_or xs none
  pub next_back : it.next_back ≡ last_or none xs
  pub chain : (p : Option Ptr) × ((a : Option Ptr) × Chain ctx.nodes c p xs a)
  pub distinct : Distinct xs

ne_end : (x y : Ptr) (ys : List Ptr) → has y (ys ++ x ∷ []) ≡ false → (x == y) ≡ false
ne_end x y [] h = ground arith
ne_end x y (z ∷ zs) h = ne_end x y zs (ground arith)

snoc_cases : (x : Ptr) (xs : List Ptr) → (l : List Ptr) × ((t : Ptr) × (x ∷ xs ≡ l ++ t ∷ []))
snoc_cases x [] = ([], (x, refl))
snoc_cases x (y ∷ ys) = let (l, (t, e)) = snoc_cases y ys in (x ∷ l, (t, ap (◌∷◌ x) e))

-- A side that the iterator is asked at.
pub data Side : Type 0 where
  front back : Side

-- What a request hands out, before or after the other items.
abbrev pub add_front : Option Ptr → List Ptr → List Ptr
add_front none l = l
add_front (some x) l = x ∷ l

abbrev pub add_back : List Ptr → Option Ptr → List Ptr
add_back l none = l
add_back l (some x) = l ++ x ∷ []

-- The items handed out at the front and at the back, both in the order of the list, and the
-- iterator that is left. A request at the end hands out nothing, and the next ones are still made.
unfoldable pub drain : Context → List Side → Iter → Option (List Ptr × List Ptr × Iter)
drain ctx [] it = some ([], [], it)
drain ctx (front ∷ s) it = do
  (o, it') ← iter_next ctx it
  (fs, bs, rest) ← drain ctx s it'
  some (add_front o fs, bs, rest)
drain ctx (back ∷ s) it = do
  (o, it') ← iter_next_back ctx it
  (fs, bs, rest) ← drain ctx s it'
  some (fs, add_back bs o, rest)

-- `xs` is what was handed out in `n` requests around the nodes that the iterator still has, and
-- each request took a node while there was one.
abbrev pub Drained : Context → Ptr → List Ptr → (n : ℕ) → List Ptr × List Ptr × Iter → Type 0
Drained ctx c xs n (fs, bs, it) =
    (mid : List Ptr) × (xs ≡ fs ++ (mid ++ bs)) × (length mid ≡ length xs - n) × Left ctx c it mid

fewer :
    (n x : ℕ) (xs l : List Ptr) (t : Ptr)
    → x ∷ xs ≡ l ++ t ∷ []
    → length l - n ≡ length (x ∷ xs) - suc n
fewer n x xs l t e = omega (arith, ap length e, length-append l (t ∷ []))

module _ (ctx : Context) (c : Ptr) where
  -- `iter` starts with the whole list.
  pub iter-Left :
      (xs : List Ptr) → IsList ctx c xs → (it : Iter) × (iter ctx c ≡ some it) × Left ctx c it xs
  unfolding iter
  iter-Left xs is = (
    record { next = first_or xs none; next_back = last_or none xs },
    rw is.ends,
    record {
      next = refl;
      next_back = refl;
      chain = (none, (none, is.chain));
      distinct = is.distinct;
    },
  )

  pub iter_next-nil : (it : Iter) → Left ctx c it [] → iter_next ctx it ≡ some (none, it)
  unfolding iter_next iter_next_at
  iter_next-nil it left = rw left.next

  pub iter_next_back-nil : (it : Iter) → Left ctx c it [] → iter_next_back ctx it ≡ some (none, it)
  unfolding iter_next_back iter_next_back_at
  iter_next_back-nil it left = rw left.next_back

  last-ne :
      (x y : Ptr) (ys : List Ptr)
      → has x (y ∷ ys) ≡ false
      → (t : Ptr) × (last_or (some y) ys ≡ some t) × ((x == t) ≡ false)
  last-ne x y [] h = (y, refl, ground arith)
  last-ne x y (z ∷ zs) h = last-ne x z zs (ground arith)

  -- `next` hands out the first node that is left.
  pub iter_next-cons :
      (it : Iter) (x : Ptr) (xs : List Ptr)
      → Left ctx c it (x ∷ xs)
      → (it' : Iter) × (iter_next ctx it ≡ some (some x, it')) × Left ctx c it' xs
  unfolding iter_next iter_next_at
  iter_next-cons it x [] left = (
    record { next = none; next_back = none },
    rw (left.next, left.next_back, ==_refl),
    record { next = refl; next_back = refl; chain = (none, (none, tt)); distinct = tt },
  )
  iter_next-cons it x (y ∷ ys) left =
      let (p, (a, ch)) = left.chain in
      let (t, e, ne) = last-ne x y ys left.distinct.0 in
      (
        record it { next = some y },
        simp (left.next, left.next_back, e, ne, ch.0),
        record {
          next = refl;
          next_back = left.next_back;
          chain = (some x, (a, ch.1));
          distinct = left.distinct.1;
        },
      )

  -- `next_back` hands out the last node that is left.
  pub iter_next_back-snoc :
      (it : Iter) (xs : List Ptr) (x : Ptr)
      → Left ctx c it (xs ++ x ∷ [])
      → (it' : Iter) × (iter_next_back ctx it ≡ some (some x, it')) × Left ctx c it' xs
  unfolding iter_next_back iter_next_back_at
  iter_next_back-snoc it [] x left = (
    record { next = none; next_back = none },
    rw (left.next_back, left.next, ==_refl),
    record { next = refl; next_back = refl; chain = (none, (none, tt)); distinct = tt },
  )
  iter_next_back-snoc it (y ∷ ys) x left =
      let (p, (a, ch)) = left.chain in
      let (h, k) = Chain-split ctx.nodes c p (y ∷ ys) (x ∷ []) a ch in
      let (d, _, apart) = Distinct-append (y ∷ ys) (x ∷ []) left.distinct in
      let back : it.next_back ≡ some x = left.next_back ∙ last_or-append (some y) ys (x ∷ []) in
      let xy = ne_end x y ys left.distinct.0 in
      (
        record it { next_back = last_or none (y ∷ ys) },
        simp (back, left.next, xy, k.0),
        record { next = left.next; next_back = refl; chain = (p, (some x, h)); distinct = d },
      )

  -- Whatever sides are asked, no call panics, and every node is handed out once, in its place.
  drain-Drained :
      (s : List Side) (it : Iter) (xs : List Ptr)
      → Left ctx c it xs
      → Returns (Drained ctx c xs (length s)) (drain ctx s it)
  unfolding drain
  drain-Drained [] it xs left = returns (xs, rw append-nil refl, omega arith, left)
  drain-Drained (front ∷ s) it [] left = rw (iter_next-nil it left) (
      Returns-bind (drain-Drained s it [] left)
        λ (fs, bs, rest) (mid, e', n, l). returns (mid, e', omega arith, l))
  drain-Drained (front ∷ s) it (x ∷ xs) left =
      let (it', e, left') = iter_next-cons it x xs left in
      rw e (
        Returns-bind (drain-Drained s it' xs left')
          λ (fs, bs, rest) (mid, e', n, l). returns (mid, ap (◌∷◌ x) e', omega arith, l))
  drain-Drained (back ∷ s) it [] left = rw (iter_next_back-nil it left) (
      Returns-bind (drain-Drained s it [] left)
        λ (fs, bs, rest) (mid, e', n, l). returns (mid, e', omega arith, l))
  drain-Drained (back ∷ s) it (x ∷ xs) left =
      let (l, (t, split)) = snoc_cases x xs in
      let (it', e, left') = iter_next_back-snoc it l t (subst (Left ctx c it) split left) in
      rw e (
        Returns-bind (drain-Drained s it' l left') λ (fs, bs, rest) (mid, e', n, lf). returns (
          mid,
          split ∙ rw (e', append_assoc, append_assoc) refl,
          n ∙ fewer (length s) x xs l t split,
          lf,
        ))

  -- From the iterator of a container that holds the nodes `xs`, any sequence of requests at the
  -- front and at the back runs without a panic. What was handed out at the front, the nodes that
  -- the iterator still has and what was handed out at the back make up `xs` in its order, and the
  -- iterator has as many nodes fewer as there were requests, or none if there were more.
  pub iter-drain :
      (s : List Side) (xs : List Ptr)
      → IsList ctx c xs
      → Returns (Drained ctx c xs (length s)) (iter ctx c >>= drain ctx s)
  iter-drain s xs is = let (it, e, left) = iter-Left xs is in rw e (drain-Drained s it xs left)
