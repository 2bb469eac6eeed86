-- ===== src/Graph/Dominance/Frontier/Runners.antt =====
-- The insertions into the frontiers.
use pliron.Prelude.{
  Option-cases, ℕ, ◌≡◌, refl, sym, ap, ◌∙◌, Bool, true, false, ◌||◌, Option, none, some, List, [],
  ◌∷◌, arith, ◌==◌, ==→≡, ==_refl, if◌then◌else◌, has, has-append, is_some, Bool-cases, inl, inr,
  ◌⊎◌, Returns, returns, Returns-mono, Returns-bind,
}
use pliron.Graph.Dominance.Frontier.{DomFrontierMap, add_element, insert_at, add_runners}

-- c is in the frontier of v.
abbrev pub inside : DomFrontierMap → ℕ → ℕ → Bool
inside res v c = elim (res v) [ none ↦ false | some s ↦ has c s ]

-- What is new in the frontiers is b, for the nodes that P says.
pub record Added (res : DomFrontierMap) (b : ℕ) (P : ℕ → Type 0) (res' : DomFrontierMap)
    : Type 0 where
  pub keys : (v : ℕ) → is_some (res' v) ≡ is_some (res v)
  pub old : (v c : ℕ) → inside res v c ≡ true → inside res' v c ≡ true
  pub fresh : (v : ℕ) → P v → inside res' v b ≡ true
  pub only : (v c : ℕ) → inside res' v c ≡ true → (inside res v c ≡ true) ⊎ ((c ≡ b) × P v)

has-add_element : (b : ℕ) (s : List ℕ) (c : ℕ) → has c (add_element s b) ≡ (has c s || (c == b))
has-add_element b s c = elim (Bool-cases (has b s)) [
  | inl t ↦ rw t (ground (arith, t, ==→≡ c b))
  | inr f ↦ rw f (ground (arith, has-append c s (b ∷ [])))
]

module _ {b : ℕ} where
  pub Added-none : (res : DomFrontierMap) {P : ℕ → Type 0} → ((v : ℕ) → P v → ⊥) → Added res b P res
  Added-none res empty = record {
    keys = λ v. refl;
    old = λ v c h. h;
    fresh = λ v p. absurd (empty v p);
    only = λ v c h. inl h;
  }

  -- One addition after the other.
  pub Added-then :
      {res res' res'' : DomFrontierMap} {P Q R : ℕ → Type 0}
      → Added res b P res'
      → Added res' b Q res''
      → ((v : ℕ) → R v → P v ⊎ Q v)
      → ((v : ℕ) → P v → R v)
      → ((v : ℕ) → Q v → R v)
      → Added res b R res''
  Added-then x y split left right = record {
    keys = λ v. y.keys v ∙ x.keys v;
    old = λ v c h. y.old v c (x.old v c h);
    fresh = λ v r. elim (split v r) [ inl p ↦ y.old v b (x.fresh v p) | inr q ↦ y.fresh v q ];
    only = λ v c h. elim (y.only v c h) [
      | inr (e, q) ↦ inr (e, right v q)
      | inl k ↦ elim (x.only v c k) [ inl k' ↦ inl k' | inr (e, p) ↦ inr (e, left v p) ]
    ];
  }

  written-Added :
      (res : DomFrontierMap) (runner : ℕ) (s : List ℕ)
      → res runner ≡ some s
      → Added res b (λ v. v ≡ runner) (λ n. if n == runner then some (add_element s b) else res n)
  written-Added res runner s e = record {
    keys = λ v. elim (Bool-cases (v == runner)) [
      | inl t ↦ rw (==→≡ v runner t, ==_refl runner, e) refl
      | inr f ↦ rw f refl
    ];
    old = λ v c k. elim (Bool-cases (v == runner)) [
      | inl t ↦ by_test v c true t ∙ ground (arith, has-add_element b s c, at_runner v c t, k)
      | inr f ↦ by_test v c false f ∙ k
    ];
    fresh = λ v same.
        by_test v b true (ground (arith, same, ==_refl runner))
        ∙ ground (arith, has-add_element b s b, ==_refl b);
    only = λ v c k. elim (Bool-cases (v == runner)) [
      | inl t ↦
          let now : has c (add_element s b) ≡ true = sym (by_test v c true t) ∙ k in
          elim (Bool-cases (c == b)) [
            | inl t' ↦ inr (==→≡ c b t', ==→≡ v runner t)
            | inr f' ↦ inl (at_runner v c t ∙ ground (arith, has-add_element b s c, now, f'))
          ]
      | inr f ↦ inl (sym (by_test v c false f) ∙ k)
    ];
  }
    where
      by_test :
          (v c : ℕ) (z : Bool)
          → (v == runner) ≡ z
          → inside (λ n. if n == runner then some (add_element s b) else res n) v c
            ≡ inside (λ n. if z then some (add_element s b) else res n) v c
      by_test v c z h = ap (λ y. inside (λ n. if y then some (add_element s b) else res n) v c) h

      at_runner : (v c : ℕ) → (v == runner) ≡ true → inside res v c ≡ has c s
      at_runner v c t =
          ap (λ z. inside res z c) (==→≡ v runner t)
          ∙ ap (λ (o : Option (List ℕ)). elim o [ none ↦ false | some m ↦ has c m ]) e

  insert_at-Added :
      (res : DomFrontierMap) (runner : ℕ)
      → is_some (res runner) ≡ true
      → Returns (Added res b (λ v. v ≡ runner)) (insert_at res runner b)
  unfolding insert_at
  insert_at-Added res runner h = elim (Option-cases (res runner)) [
    | inl e ↦ absurd (ground (arith, e, h))
    | inr (s, e) ↦ rw e (returns (written-Added res runner s e))
  ]

  pub add_runners-Added :
      (l : List ℕ) (res : DomFrontierMap)
      → ((v : ℕ) → has v l ≡ true → is_some (res v) ≡ true)
      → Returns (Added res b (λ v. has v l ≡ true)) (add_runners res b l)
  unfolding add_runners
  add_runners-Added [] res known = returns (Added-none res λ v h. cc)
  add_runners-Added (r ∷ l) res known =
      Returns-bind (insert_at-Added res r (known r (ground (arith, ==_refl r)))) λ res' x.
        Returns-mono (add_runners-Added l res' λ v h. x.keys v ∙ known v (ground arith)) λ res'' y.
          Added-then x y (λ v h. by_head v h) (λ v e. ground (arith, e, ==_refl r))
            (λ v h. ground arith)
    where
      by_head : (v : ℕ) → has v (r ∷ l) ≡ true → (v ≡ r) ⊎ (has v l ≡ true)
      by_head v h = elim (Bool-cases (v == r)) [
        | inl t ↦ inl (==→≡ v r t)
        | inr f ↦ inr (ground arith)
      ]
