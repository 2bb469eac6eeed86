-- ===== src/Graph/Traversals/Walk.antt =====
-- What the walk of a component keeps.
use pliron.Prelude.{
  ℕ, suc, ◌<◌, ◌≤◌, ◌≡◌, refl, sym, ap, ◌∙◌, Bool, true, false, ◌||◌, ◌&&◌, some, List, [], ◌∷◌,
  ◌++◌, arith, ◌==◌, ==→≡, ==_refl, length, has, has-append, Distinct, append-Distinct, Bool-cases,
  inl, inr, ◌⊎◌,
}
use mathlib.Core.Path.{subst}
use pliron.SmallTable.Vec.{get_elem?}
use pliron.Graph.{ControlFlowGraph}
use pliron.Graph.Traversals.{WalkState, mark_seen}
use pliron.Graph.Traversals.Lists.{before, before-snoc, names, has_of_get_elem?, get_elem?_of_has}

module _ (g : ControlFlowGraph) (seen0 : ℕ → Bool) (root : ℕ) where
  abbrev pub Edge : ℕ → ℕ → Type 0
  Edge v w = has w (g.successors v) ≡ true

  -- The successors that a frame is past have been seen.
  abbrev pub Past : (ℕ → Bool) → List (ℕ × ℕ) → Type 0
  Past seen [] = Unit
  Past seen ((node, i) ∷ stack) =
      ((j w : ℕ) → j < i → get_elem? (g.successors node) j ≡ some w → seen w ≡ true)
      × Past seen stack

  -- Each frame is a successor of the one below, and the root is at the bottom.
  abbrev pub Chain : List (ℕ × ℕ) → Type 0
  Chain [] = Unit
  Chain ((node, i) ∷ []) = node ≡ root
  Chain ((node, i) ∷ (m, k) ∷ stack) = Edge m node × Chain ((m, k) ∷ stack)

  -- Another node that is done has a predecessor that is done later, or on the stack.
  abbrev pub Led : List ℕ → List (ℕ × ℕ) → ℕ → Type 0
  Led po stack v =
      ((u : ℕ) × Edge u v × (before v u po ≡ true))
      ⊎ ((u : ℕ) × Edge u v × (has u (names stack) ≡ true))

  -- Along edges a rank falls, so there is no cycle.
  abbrev pub Falls : (ℕ → ℕ) → Type 0
  Falls rank = (v w : ℕ) → Edge v w → rank w < rank v

  pub record WalkInv (s : WalkState) : Type 0 where
    pub once : Distinct s.po
    pub once_stack : Distinct (names s.stack)
    pub apart : (v : ℕ) → (has v s.po && has v (names s.stack)) ≡ false
    pub parts : (v : ℕ) → s.seen_nodes v ≡ (seen0 v || (has v s.po || has v (names s.stack)))
    pub fresh : (v : ℕ) → ((has v s.po || has v (names s.stack)) && seen0 v) ≡ false
    pub inside : (v : ℕ) → (has v (names s.stack) || has v s.po) ≡ true → has v g.nodes ≡ true
    pub past : Past s.seen_nodes s.stack
    pub chain : Chain s.stack
    pub closed : (v w : ℕ) → has v s.po ≡ true → Edge v w → s.seen_nodes w ≡ true
    pub led : (v : ℕ) → has v s.po ≡ true → (v == root) ≡ false → Led s.po s.stack v
    -- Where there is no cycle, a successor is done first.
    pub ordered :
        (rank : ℕ → ℕ)
        → Falls rank
        → (v w : ℕ) → has v s.po ≡ true
        → Edge v w
        → (seen0 w || before w v s.po) ≡ true
    pub last_root : s.stack ≡ [] → (l : List ℕ) × (s.po ≡ l ++ root ∷ [])

  Past-mark_seen :
      (seen : ℕ → Bool) (x : ℕ) (stack : List (ℕ × ℕ))
      → Past seen stack
      → Past (mark_seen seen x) stack
  Past-mark_seen seen x [] p = tt
  Past-mark_seen seen x ((node, i) ∷ stack) p =
      ((λ j w h e. ground (arith, p.0 j w h e)), Past-mark_seen seen x stack p.1)

  -- A frame goes past a successor that has been seen.
  Past-next :
      (seen : ℕ → Bool) (node i succ : ℕ) (stack : List (ℕ × ℕ))
      → get_elem? (g.successors node) i ≡ some succ
      → seen succ ≡ true
      → Past seen ((node, i) ∷ stack)
      → Past seen ((node, suc i) ∷ stack)
  Past-next seen node i succ stack e h p = (
    (λ j w lt e'. elim (Bool-cases (j == i)) [
      | inl t ↦
          let same : succ ≡ w =
            ground (arith, sym e ∙ ap (get_elem? (g.successors node)) (sym (==→≡ j i t)) ∙ e') in
          subst (λ z. seen z ≡ true) same h
      | inr f ↦ p.0 j w (ground arith) e'
    ]),
    p.1,
  )

  next_chain :
      (node i : ℕ) (stack : List (ℕ × ℕ))
      → Chain ((node, i) ∷ stack)
      → Chain ((node, suc i) ∷ stack)
  next_chain node i [] c = c
  next_chain node i (f ∷ stack) c = c

  -- The nodes on the stack have no lower rank than the top.
  Chain-rank :
      (rank : ℕ → ℕ)
      → Falls rank
      → (node i : ℕ) (stack : List (ℕ × ℕ)) → Chain ((node, i) ∷ stack)
      → (u : ℕ) → has u (node ∷ names stack) ≡ true
      → rank node ≤ rank u
  Chain-rank rank falls node i [] c u h =
      let same : u ≡ node = ground (arith, ==→≡ u node) in omega (arith, ap rank same)
  Chain-rank rank falls node i ((m, k) ∷ stack) c u h = elim (Bool-cases (u == node)) [
    | inl t ↦ omega (arith, ap rank (==→≡ u node t))
    | inr f ↦
        let up = Chain-rank rank falls m k stack c.1 u (ground arith) in
        omega (arith, up, falls m node c.0)
  ]

  module _ (seen : ℕ → Bool) (po : List ℕ) (node i : ℕ) (stack : List (ℕ × ℕ))
      (inv : WalkInv (record { seen_nodes = seen; stack = (node, i) ∷ stack; po = po })) where
    pub skipped :
        (succ : ℕ)
        → get_elem? (g.successors node) i ≡ some succ
        → seen succ ≡ true
        → WalkInv (record { seen_nodes = seen; stack = (node, suc i) ∷ stack; po = po })
    skipped succ e h = record {
      once = inv.once;
      once_stack = inv.once_stack;
      apart = inv.apart;
      parts = inv.parts;
      fresh = inv.fresh;
      inside = inv.inside;
      past = Past-next seen node i succ stack e h inv.past;
      chain = next_chain node i stack inv.chain;
      closed = inv.closed;
      led = inv.led;
      ordered = inv.ordered;
      last_root = λ h. cc;
    }

    pub descended :
        (succ : ℕ)
        → get_elem? (g.successors node) i ≡ some succ
        → seen succ ≡ false
        → has succ g.nodes ≡ true
        → WalkInv (record {
          seen_nodes = mark_seen seen succ;
          stack = (succ, 0) ∷ (node, suc i) ∷ stack;
          po = po;
        })
    descended succ e h inside =
        let new : (seen0 succ || (has succ po || has succ (node ∷ names stack))) ≡ false =
          sym (inv.parts succ) ∙ h in
        record {
          once = inv.once;
          once_stack = (ground arith, inv.once_stack);
          apart = λ v. ground (arith, inv.apart v, ==→≡ v succ);
          parts = λ v. ground (arith, inv.parts v, ==→≡ v succ);
          fresh = λ v. ground (arith, inv.fresh v, ==→≡ v succ);
          inside = λ v k. elim (Bool-cases (v == succ)) [
            | inl t ↦ subst (λ z. has z g.nodes ≡ true) (sym (==→≡ v succ t)) inside
            | inr f ↦ inv.inside v (ground arith)
          ];
          past = (
            (λ j w lt e'. absurd (omega arith)),
            Past-next (mark_seen seen succ) node i succ stack e (ground (arith, ==_refl succ))
                (Past-mark_seen seen succ ((node, i) ∷ stack) inv.past),
          );
          chain =
              (has_of_get_elem? (g.successors node) i succ e, next_chain node i stack inv.chain);
          closed = λ v w k edge. ground (arith, inv.closed v w k edge);
          led = λ v k ne. elim (inv.led v k ne) [
            | inl later ↦ inl later
            | inr (u, edge, on) ↦ inr (u, edge, ground arith)
          ];
          ordered = inv.ordered;
          last_root = λ h. cc;
        }

    -- A frame that has seen all its successors is done.
    pub finished :
        length (g.successors node) ≤ i
        → WalkInv (record { seen_nodes = seen; stack = stack; po = po ++ node ∷ [] })
    finished le =
        let here : has node po ≡ false = ground (arith, inv.apart node, ==_refl node) in
        record {
          once =
              append-Distinct po (node ∷ []) inv.once (refl, tt)
                λ v k. ground (arith, ==→≡ v node, here, k);
          once_stack = inv.once_stack.1;
          apart = λ v.
              ground
                (arith, inv.apart v, has-append v po (node ∷ []), ==→≡ v node, inv.once_stack.0);
          parts = λ v. ground (arith, inv.parts v, has-append v po (node ∷ []));
          fresh = λ v. ground (arith, inv.fresh v, has-append v po (node ∷ []));
          inside = λ v k. inv.inside v (ground (arith, has-append v po (node ∷ [])));
          past = inv.past.1;
          chain = below stack inv.chain;
          closed = λ v w k edge. elim (Bool-cases (has v po)) [
            | inl t ↦ inv.closed v w t edge
            | inr f ↦
                let same : v ≡ node = ground (arith, has-append v po (node ∷ []), ==→≡ v node) in
                let (j, lt, e) =
                  get_elem?_of_has (g.successors node) w (subst (λ z. Edge z w) same edge) in
                inv.past.0 j w (omega arith) e
          ];
          led = λ v k ne. elim (Bool-cases (has v po)) [
            | inl t ↦ elim (inv.led v t ne) [
              | inl (u, edge, later) ↦ inl (u, edge, ground (arith, before-snoc v u node po))
              | inr (u, edge, on) ↦ elim (Bool-cases (u == node)) [
                | inl t' ↦ inl (u, edge, ground (arith, before-snoc v u node po))
                | inr f' ↦ inr (u, edge, ground arith)
              ]
            ]
            | inr f ↦
                let same : v ≡ node = ground (arith, has-append v po (node ∷ []), ==→≡ v node) in
                inr (from_below stack inv.chain v same ne)
          ];
          ordered = λ rank falls v w k edge. elim (Bool-cases (has v po)) [
            | inl t ↦ ground (arith, before-snoc w v node po, inv.ordered rank falls v w t edge)
            | inr f ↦
                let same : v ≡ node = ground (arith, has-append v po (node ∷ []), ==→≡ v node) in
                let edge' = subst (λ z. Edge z w) same edge in
                let (j, lt, e) = get_elem?_of_has (g.successors node) w edge' in
                let seen_w = inv.past.0 j w (omega arith) e in
                let lower = falls node w edge' in
                elim (Bool-cases (has w (node ∷ names stack))) [
                  | inl on ↦
                      absurd
                        (omega (arith, lower, Chain-rank rank falls node i stack inv.chain w on))
                  | inr off ↦
                      ground (arith, before-snoc w v node po, inv.parts w, same, ==_refl node)
                ]
          ];
          last_root = λ h. (po, ap (λ z. po ++ z ∷ []) (bottom stack inv.chain h));
        }
      where
        below : (stack : List (ℕ × ℕ)) → Chain ((node, i) ∷ stack) → Chain stack
        below [] c = tt
        below (f ∷ stack) c = c.1

        bottom : (stack : List (ℕ × ℕ)) → Chain ((node, i) ∷ stack) → stack ≡ [] → node ≡ root
        bottom [] c e = c
        bottom (f ∷ stack) c e = cc

        from_below :
            (stack : List (ℕ × ℕ))
            → Chain ((node, i) ∷ stack)
            → (v : ℕ) → v ≡ node
            → (v == root) ≡ false
            → (u : ℕ) × Edge u v × (has u (names stack) ≡ true)
        from_below [] c v same ne = ground (arith, c, same, ==_refl v)
        from_below ((m, k) ∷ stack) c v same ne =
            (m, subst (Edge m) (sym same) c.0, ground (arith, ==_refl m))
