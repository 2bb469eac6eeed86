-- ===== src/LinkedList/Panics.antt =====
-- Where the list operations panic, and what `is_linked` answers.
use pliron.Prelude.{◌≡◌, refl, true, false, none, some, List, has}
use pliron.LinkedList.{
  Ptr, Node, Context, is_unlinked, insert_after, insert_before, insert_at_front, insert_at_back,
  is_linked, unlink,
}
use pliron.LinkedList.Chain.{IsList, IsFree}
use pliron.LinkedList.Append.{mem-container}

-- A node that still has a neighbour or a container is inserted nowhere: the four insertions panic.
insert-linked :
    (ctx : Context) (s m c : Ptr) (n : Node)
    → ctx.nodes s ≡ some n
    → is_unlinked n ≡ false
    → (insert_after ctx s m ≡ none)
      × (insert_before ctx s m ≡ none)
      × (insert_at_front ctx s c ≡ none)
      × (insert_at_back ctx s c ≡ none)
unfolding insert_after insert_before insert_at_front insert_at_back
insert-linked ctx s m c n e f = (rw (e, f) refl, rw (e, f) refl, rw (e, f) refl, rw (e, f) refl)

-- Nothing is inserted beside a mark that is in no list, and such a node cannot be unlinked.
free-mark :
    (ctx : Context) (s m : Ptr)
    → IsFree ctx s
    → IsFree ctx m
    → (insert_after ctx s m ≡ none) × (insert_before ctx s m ≡ none) × (unlink ctx m ≡ none)
unfolding insert_after insert_before unlink
free-mark ctx s m fs fm = (rw (fs.node, fm.node) refl, rw (fs.node, fm.node) refl, rw fm.node refl)

-- `is_linked` is true at the nodes of a list and false at a free node, and panics at neither.
is_linked_lem :
    (ctx : Context) (c : Ptr) (xs : List Ptr) (a s : Ptr)
    → IsList ctx c xs
    → has a xs ≡ true
    → IsFree ctx s
    → (is_linked ctx a ≡ some true) × (is_linked ctx s ≡ some false)
unfolding is_linked
is_linked_lem ctx c xs a s is m free =
    let (n, e, f) = mem-container ctx.nodes c none xs none a is.chain m in
    (rw (e, f) refl, rw free.node refl)
