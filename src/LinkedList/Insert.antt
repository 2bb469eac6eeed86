-- ===== src/LinkedList/Insert.antt =====
-- What the four insertions write, from what stands at the nodes that they read.
use pliron.Prelude.{◌≡◌, false, Option, none, some, arith, ◌==◌, ==_refl, Returns, returns}
use pliron.LinkedList.{
  Ptr, Context, insert_after, insert_before, insert_at_front, insert_at_back, link_next, link_prev,
  link_head, link_tail, set_next, set_prev, set_container, set_head, set_tail,
}
use pliron.LinkedList.Chain.{IsFree, linked}
use pliron.LinkedList.Splice.{Effect}

module _ {ctx : Context} {c s : Ptr} (free : IsFree ctx s) {hd tl : Option Ptr}
    (ends : ctx.containers c ≡ some (record { head = hd; tail = tl })) where
  module _ {m : Ptr} {p q : Option Ptr} (at_m : ctx.nodes m ≡ some (linked c p q))
      (sm : (s == m) ≡ false) where
    pub insert_after-last :
        q ≡ none
        → tl ≡ some m
        → Returns (Effect c s (some m) none hd (some s) ctx) (insert_after ctx s m)
    unfolding insert_after link_next set_next set_prev set_container set_tail
    insert_after-last eq et =
        simp (free.node, at_m, eq, ends, et, ==_refl, sm)
          (returns (record { nodes = λ a. ground arith; containers = λ a. ground arith }))

    pub insert_after-inner :
        {n : Ptr} {q' : Option Ptr}
        → q ≡ some n
        → ctx.nodes n ≡ some (linked c (some m) q')
        → (s == n) ≡ false
        → (n == m) ≡ false
        → Returns (Effect c s (some m) (some n) hd tl ctx) (insert_after ctx s m)
    unfolding insert_after link_next set_next set_prev set_container set_tail
    insert_after-inner {n} eq at_n sn nm =
        let mn : (m == n) ≡ false = ground arith in
        simp (free.node, at_m, eq, at_n, ==_refl, sm, sn, nm, mn)
          (returns (record { nodes = λ a. ground arith; containers = λ a. ground arith }))

    pub insert_before-first :
        p ≡ none
        → hd ≡ some m
        → Returns (Effect c s none (some m) (some s) tl ctx) (insert_before ctx s m)
    unfolding insert_before link_prev set_next set_prev set_container set_head
    insert_before-first ep eh =
        simp (free.node, at_m, ep, ends, eh, ==_refl, sm)
          (returns (record { nodes = λ a. ground arith; containers = λ a. ground arith }))

    pub insert_before-inner :
        {n : Ptr} {p' : Option Ptr}
        → p ≡ some n
        → ctx.nodes n ≡ some (linked c p' (some m))
        → (s == n) ≡ false
        → (n == m) ≡ false
        → Returns (Effect c s (some n) (some m) hd tl ctx) (insert_before ctx s m)
    unfolding insert_before link_prev set_next set_prev set_container set_head
    insert_before-inner {n} ep at_n sn nm =
        let mn : (m == n) ≡ false = ground arith in
        simp (free.node, at_m, ep, at_n, ==_refl, sm, sn, nm, mn)
          (returns (record { nodes = λ a. ground arith; containers = λ a. ground arith }))

  pub insert_at_front-empty :
      hd ≡ none → Returns (Effect c s none none (some s) (some s) ctx) (insert_at_front ctx s c)
  unfolding insert_at_front link_head set_next set_prev set_container set_head set_tail
  insert_at_front-empty eh =
      simp (free.node, ends, eh, ==_refl)
        (returns (record { nodes = λ a. ground arith; containers = λ a. ground arith }))

  pub insert_at_front-some :
      {n : Ptr} {q : Option Ptr}
      → hd ≡ some n
      → ctx.nodes n ≡ some (linked c none q)
      → (s == n) ≡ false
      → Returns (Effect c s none (some n) (some s) tl ctx) (insert_at_front ctx s c)
  unfolding insert_at_front link_head set_next set_prev set_container set_head set_tail
  insert_at_front-some {n} eh at_n sn =
      let ns : (n == s) ≡ false = ground arith in
      simp (free.node, ends, eh, at_n, ==_refl, sn, ns)
        (returns (record { nodes = λ a. ground arith; containers = λ a. ground arith }))

  pub insert_at_back-empty :
      tl ≡ none → Returns (Effect c s none none (some s) (some s) ctx) (insert_at_back ctx s c)
  unfolding insert_at_back link_tail set_next set_prev set_container set_head set_tail
  insert_at_back-empty et =
      simp (free.node, ends, et, ==_refl)
        (returns (record { nodes = λ a. ground arith; containers = λ a. ground arith }))

  pub insert_at_back-some :
      {n : Ptr} {p : Option Ptr}
      → tl ≡ some n
      → ctx.nodes n ≡ some (linked c p none)
      → (s == n) ≡ false
      → Returns (Effect c s (some n) none hd (some s) ctx) (insert_at_back ctx s c)
  unfolding insert_at_back link_tail set_next set_prev set_container set_head set_tail
  insert_at_back-some {n} et at_n sn =
      let ns : (n == s) ≡ false = ground arith in
      simp (free.node, ends, et, at_n, ==_refl, sn, ns)
        (returns (record { nodes = λ a. ground arith; containers = λ a. ground arith }))
