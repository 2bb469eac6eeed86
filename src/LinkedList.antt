-- ===== src/LinkedList.antt =====
-- src/linked_list.rs: the doubly linked lists that hold the operations of a block and the blocks of
-- a region, over the arenas of the context.
pub mod Chain
pub mod Splice
pub mod Insert
pub mod Ops
pub mod Unlink
pub mod Append
pub mod Iterate
pub mod Panics
mod Examples
use pliron.Prelude.{
  ℕ, zero, suc, Bool, true, false, not, ◌&&◌, ◌||◌, Option, none, some, ◌==◌, if◌then◌else◌, ◌>>=◌,
  ◌>>◌, assert, is_some, is_none,
}

-- An index into an arena.
abbrev pub Ptr : Type 0
Ptr = ℕ

pub record Node : Type 0 where
  pub next : Option Ptr
  pub prev : Option Ptr
  pub container : Option Ptr

pub record Container : Type 0 where
  pub head : Option Ptr
  pub tail : Option Ptr

-- The arena of the nodes and that of their containers; `none` is a dangling pointer.
pub record Context : Type 0 where
  pub nodes : Ptr → Option Node
  pub containers : Ptr → Option Container

abbrev pub update {ℓ} : {A : Type ℓ} → (Ptr → Option A) → Ptr → A → Ptr → Option A
update f p v a = if a == p then some v else f a

abbrev pub put : Context → Ptr → Node → Context
put ctx p n = record ctx { nodes = update ctx.nodes p n }

abbrev pub put_container : Context → Ptr → Container → Context
put_container ctx p c = record ctx { containers = update ctx.containers p c }

unfoldable pub set_next : Context → Ptr → Option Ptr → Option Context
set_next ctx p q = do n ← ctx.nodes p; some (put ctx p (record n { next = q }))

unfoldable pub set_prev : Context → Ptr → Option Ptr → Option Context
set_prev ctx p q = do n ← ctx.nodes p; some (put ctx p (record n { prev = q }))

unfoldable pub set_container : Context → Ptr → Option Ptr → Option Context
set_container ctx p q = do n ← ctx.nodes p; some (put ctx p (record n { container = q }))

unfoldable pub set_head : Context → Ptr → Option Ptr → Option Context
set_head ctx c q = do r ← ctx.containers c; some (put_container ctx c (record r { head = q }))

unfoldable pub set_tail : Context → Ptr → Option Ptr → Option Context
set_tail ctx c q = do r ← ctx.containers c; some (put_container ctx c (record r { tail = q }))

-- "LinkedList node must be unlinked before relinking"
abbrev pub is_unlinked : Node → Bool
is_unlinked n = is_none n.prev && (is_none n.next && is_none n.container)

-- The match on `next` in `insert_after`, while `mark` is mutably borrowed: to borrow it again
-- panics.
link_next : Context → (self mark container : Ptr) → Option Ptr → Option Context
link_next ctx self mark container (some next) = do
  assert (not (next == mark))
  n ← ctx.nodes next
  p ← n.prev
  assert (p == mark)
  set_prev ctx next (some self)
link_next ctx self mark container none = do
  c ← ctx.containers container
  t ← c.tail
  assert (t == mark)
  set_tail ctx container (some self)

pub insert_after : Context → (self mark : Ptr) → Option Context
unfolding link_next
insert_after ctx self mark = do
  node ← ctx.nodes self
  assert (is_unlinked node)
  m ← ctx.nodes mark
  container ← m.container
  ctx ← link_next ctx self mark container m.next
  ctx ← set_next ctx mark (some self)
  ctx ← set_next ctx self m.next
  ctx ← set_prev ctx self (some mark)
  set_container ctx self (some container)

-- The match on `prev` in `insert_before`.
link_prev : Context → (self mark container : Ptr) → Option Ptr → Option Context
link_prev ctx self mark container (some prev) = do
  assert (not (prev == mark))
  n ← ctx.nodes prev
  q ← n.next
  assert (q == mark)
  set_next ctx prev (some self)
link_prev ctx self mark container none = do
  c ← ctx.containers container
  h ← c.head
  assert (h == mark)
  set_head ctx container (some self)

pub insert_before : Context → (self mark : Ptr) → Option Context
unfolding link_prev
insert_before ctx self mark = do
  node ← ctx.nodes self
  assert (is_unlinked node)
  m ← ctx.nodes mark
  container ← m.container
  ctx ← link_prev ctx self mark container m.prev
  ctx ← set_prev ctx mark (some self)
  ctx ← set_prev ctx self m.prev
  ctx ← set_next ctx self (some mark)
  set_container ctx self (some container)

-- The match on `head` in `insert_at_front`, while `self` is mutably borrowed.
link_head : Context → (self container : Ptr) → Option Ptr → Option Context
link_head ctx self container (some head) = do
  assert (not (head == self))
  n ← ctx.nodes head
  assert (is_none n.prev)
  set_prev ctx head (some self)
link_head ctx self container none = set_tail ctx container (some self)

pub insert_at_front : Context → (self container : Ptr) → Option Context
unfolding link_head
insert_at_front ctx self container = do
  node ← ctx.nodes self
  assert (is_unlinked node)
  c ← ctx.containers container
  ctx ← link_head ctx self container c.head
  ctx ← set_next ctx self c.head
  ctx ← set_head ctx container (some self)
  set_container ctx self (some container)

-- The match on `tail` in `insert_at_back`, while `self` is mutably borrowed.
link_tail : Context → (self container : Ptr) → Option Ptr → Option Context
link_tail ctx self container (some tail) = do
  assert (not (tail == self))
  n ← ctx.nodes tail
  assert (is_none n.next)
  set_next ctx tail (some self)
link_tail ctx self container none = set_head ctx container (some self)

pub insert_at_back : Context → (self container : Ptr) → Option Context
unfolding link_tail
insert_at_back ctx self container = do
  node ← ctx.nodes self
  assert (is_unlinked node)
  c ← ctx.containers container
  ctx ← link_tail ctx self container c.tail
  ctx ← set_prev ctx self c.tail
  ctx ← set_tail ctx container (some self)
  set_container ctx self (some container)

pub is_linked : Context → Ptr → Option Bool
is_linked ctx self = do
  node ← ctx.nodes self
  assert (is_some node.container || (is_none node.next && is_none node.prev))
  some (is_some node.container)

-- The two matches of `unlink`.
unlink_next : Context → (container : Ptr) → (next prev : Option Ptr) → Option Context
unlink_next ctx container (some next) prev = set_prev ctx next prev
unlink_next ctx container none prev = set_tail ctx container prev

unlink_prev : Context → (container : Ptr) → (next prev : Option Ptr) → Option Context
unlink_prev ctx container next (some prev) = set_next ctx prev next
unlink_prev ctx container next none = set_head ctx container next

pub unlink : Context → Ptr → Option Context
unfolding unlink_next unlink_prev
unlink ctx self = do
  node ← ctx.nodes self
  container ← node.container
  ctx ← unlink_next ctx container node.next node.prev
  ctx ← unlink_prev ctx container node.next node.prev
  ctx ← set_next ctx self none
  ctx ← set_prev ctx self none
  set_container ctx self none

-- The loop of `append_linked_list`; out of fuel is `none`.
append_loop : ℕ → Context → (donee : Ptr) → (current : Option Ptr) → Option Context
append_loop zero ctx donee current = none
append_loop (suc fuel) ctx donee none = some ctx
append_loop (suc fuel) ctx donee (some node) = do
  n ← ctx.nodes node
  ctx ← unlink ctx node
  ctx ← insert_at_back ctx node donee
  append_loop fuel ctx donee n.next

pub append_linked_list : ℕ → Context → (donee donor : Ptr) → Option Context
unfolding append_loop
append_linked_list fuel ctx donee donor = do
  c ← ctx.containers donor
  append_loop fuel ctx donee c.head

pub record Iter : Type 0 where
  pub next : Option Ptr
  pub next_back : Option Ptr

pub iter : Context → (container : Ptr) → Option Iter
iter ctx container = do
  c ← ctx.containers container
  some (record { next = c.head; next_back = c.tail })

-- `Iter::next`: the item, and the iterator that is left; `none` outside is a panic.
iter_next_at : Context → Iter → Option Ptr → Option (Option Ptr × Iter)
iter_next_at ctx it none = some (none, it)
iter_next_at ctx it (some curr) = do
  back ← it.next_back
  if curr == back
      then some (some curr, record { next = none; next_back = none })
      else do n ← ctx.nodes curr; some (some curr, record it { next = n.next })

pub iter_next : Context → Iter → Option (Option Ptr × Iter)
unfolding iter_next_at
iter_next ctx it = iter_next_at ctx it it.next

-- `Iter::next_back`
iter_next_back_at : Context → Iter → Option Ptr → Option (Option Ptr × Iter)
iter_next_back_at ctx it none = some (none, it)
iter_next_back_at ctx it (some curr) = do
  front ← it.next
  if curr == front
      then some (some curr, record { next = none; next_back = none })
      else do n ← ctx.nodes curr; some (some curr, record it { next_back = n.prev })

pub iter_next_back : Context → Iter → Option (Option Ptr × Iter)
unfolding iter_next_back_at
iter_next_back ctx it = iter_next_back_at ctx it it.next_back
