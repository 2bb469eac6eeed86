-- ===== src/LinkedList/Chain.antt =====
-- When the pointers of the context form the list `xs` of a container, and what keeps them so.
use pliron.Prelude.{
  ◌≡◌, refl, ◌∙◌, true, false, Option, none, some, List, [], ◌∷◌, ◌++◌, arith, ◌==◌, Bool-cases,
  ==_refl, has, Distinct, Distinct-append, inl, inr,
}
use pliron.LinkedList.{Ptr, Node, Context}

-- The first of `xs` and then `a`; the last of `p` and then `xs`.
abbrev pub first_or : List Ptr → Option Ptr → Option Ptr
first_or [] a = a
first_or (x ∷ xs) a = some x

abbrev pub last_or : Option Ptr → List Ptr → Option Ptr
last_or p [] = p
last_or p (x ∷ xs) = last_or (some x) xs

pub first_or-append :
    (xs ys : List Ptr) (a : Option Ptr) → first_or (xs ++ ys) a ≡ first_or xs (first_or ys a)
first_or-append [] ys a = refl
first_or-append (x ∷ xs) ys a = refl

pub last_or-append :
    (p : Option Ptr) (xs ys : List Ptr) → last_or p (xs ++ ys) ≡ last_or (last_or p xs) ys
last_or-append p [] ys = refl
last_or-append p (x ∷ xs) ys = last_or-append (some x) xs ys

abbrev pub linked : Ptr → Option Ptr → Option Ptr → Node
linked c p n = record { next = n; prev = p; container = some c }

abbrev pub Nodes : Type 0
Nodes = Ptr → Option Node

-- Between `p` and `a` the nodes of `c` are `xs`, linked both ways.
abbrev pub Chain : Nodes → Ptr → Option Ptr → List Ptr → Option Ptr → Type 0
Chain g c p [] a = Unit
Chain g c p (x ∷ xs) a = (g x ≡ some (linked c p (first_or xs a))) × Chain g c (some x) xs a

-- `xs` are the nodes of the container `c`, in order and without repetition.
pub record IsList (ctx : Context) (c : Ptr) (xs : List Ptr) : Type 0 where
  pub ends : ctx.containers c ≡ some (record { head = first_or xs none; tail = last_or none xs })
  pub chain : Chain ctx.nodes c none xs none
  pub distinct : Distinct xs

-- `p` is a node that is in no list.
pub record IsFree (ctx : Context) (p : Ptr) : Type 0 where
  pub node : ctx.nodes p ≡ some (record { next = none; prev = none; container = none })

-- The two contexts differ at most at the nodes `xs` and at the container `c`.
pub record SameOutside (c : Ptr) (xs : List Ptr) (ctx ctx' : Context) : Type 0 where
  pub nodes : (a : Ptr) → has a xs ≡ false → ctx'.nodes a ≡ ctx.nodes a
  pub containers : (a : Ptr) → (a == c) ≡ false → ctx'.containers a ≡ ctx.containers a

module _ (g : Nodes) (c : Ptr) where
  pub Chain-split :
      (p : Option Ptr) (xs ys : List Ptr) (a : Option Ptr)
      → Chain g c p (xs ++ ys) a
      → Chain g c p xs (first_or ys a) × Chain g c (last_or p xs) ys a
  Chain-split p [] ys a h = (tt, h)
  Chain-split p (x ∷ xs) ys a h =
      let rest = Chain-split (some x) xs ys a h.1 in
      ((ground (arith, first_or-append xs ys a), rest.0), rest.1)

  pub Chain-join :
      (p : Option Ptr) (xs ys : List Ptr) (a : Option Ptr)
      → Chain g c p xs (first_or ys a)
      → Chain g c (last_or p xs) ys a
      → Chain g c p (xs ++ ys) a
  Chain-join p [] ys a h k = k
  Chain-join p (x ∷ xs) ys a h k =
      (ground (arith, first_or-append xs ys a), Chain-join (some x) xs ys a h.1 k)

  pub Chain-frame :
      (g' : Nodes) (p : Option Ptr) (xs : List Ptr) (a : Option Ptr)
      → Chain g c p xs a
      → ((b : Ptr) → has b xs ≡ true → g' b ≡ g b)
      → Chain g' c p xs a
  Chain-frame g' p [] a h same = tt
  Chain-frame g' p (x ∷ xs) a h same = (
    same x (ground (arith, ==_refl x)) ∙ h.0,
    Chain-frame g' (some x) xs a h.1 λ b e. same b (ground arith),
  )

  -- A node of another container, or of none, is not among the nodes of `c`.
  pub not-mem-Chain :
      (p : Option Ptr) (xs : List Ptr) (a : Option Ptr) (s : Ptr)
      → Chain g c p xs a
      → ((n : Node) → g s ≡ some n → n.container ≡ some c → ⊥)
      → has s xs ≡ false
  not-mem-Chain p [] a s h other = refl
  not-mem-Chain p (x ∷ xs) a s h other =
      ground (arith, other (linked c p (first_or xs a)), not-mem-Chain (some x) xs a s h.1 other)

-- What is known at a node `m` between `l` and `r`.
pub record Around (ctx : Context) (c : Ptr) (l : List Ptr) (m : Ptr) (r : List Ptr) : Type 0 where
  pub before : Chain ctx.nodes c none l (some m)
  pub node : ctx.nodes m ≡ some (linked c (last_or none l) (first_or r none))
  pub after : Chain ctx.nodes c (some m) r none
  pub not_before : has m l ≡ false
  pub not_after : has m r ≡ false
  pub before_distinct : Distinct l
  pub after_distinct : Distinct r
  pub apart : (a : Ptr) → has a l ≡ true → has a r ≡ false

pub IsList-Around :
    (ctx : Context) (c : Ptr) (l : List Ptr) (m : Ptr) (r : List Ptr)
    → IsList ctx c (l ++ m ∷ r)
    → Around ctx c l m r
IsList-Around ctx c l m r is =
    let (b, a) = Chain-split ctx.nodes c none l (m ∷ r) none is.chain in
    let (dl, dr, apart) = Distinct-append l (m ∷ r) is.distinct in
    record {
      before = b;
      node = a.0;
      after = a.1;
      not_before = elim (Bool-cases (has m l)) [
        | inl e ↦ ground (arith, apart m e, ==_refl m)
        | inr e ↦ e
      ];
      not_after = dr.0;
      before_distinct = dl;
      after_distinct = dr.1;
      apart = λ a h. ground (arith, apart a h);
    }
