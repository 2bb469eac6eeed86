-- ===== src/DefUse/Keeps.antt =====
-- What the operations on one kind of chains keep: a relation that each write satisfies.
use pliron.Prelude.{
  ℕ, ◌+◌, ◌≤◌, ◌≡◌, Option, none, some, List, [], ◌∷◌, arith, Option-cases, ◌>>=◌, inl, inr,
}
use pliron.DefUse.{
  Use, Operand, Chains, get_new_use_uid, add_use, remove_use, new_operand, drop_use, new_operands,
  init_operands, drop_each, drop_operands,
}
use pliron.DefUse.Linked.{Linked}
use pliron.DefUse.WellLinked.{Uids, WellLinked}

-- What the call returns, if it does not panic, satisfies `P`.
pub data Always {A : Type 0} (P : A → Type 0) : Option A → Type 0 where
  panics : Always P none
  holds : {a : A} → P a → Always P (some a)

module _ {A : Type 0} where
  pub Always-of : {P : A → Type 0} {a : A} → Always P (some a) → P a
  Always-of (holds p) = p

  Always-bind :
      {B : Type 0} {P : A → Type 0} {Q : B → Type 0} {r : Option A} {k : A → Option B}
      → Always P r
      → ((a : A) → P a → Always Q (k a))
      → Always Q (r >>= k)
  Always-bind panics f = panics
  Always-bind (holds p) f = f _ p

  Always-mono : {P Q : A → Type 0} {r : Option A} → Always P r → ((a : A) → P a → Q a) → Always Q r
  Always-mono panics f = panics
  Always-mono (holds p) f = holds (f _ p)

  anything : (r : Option A) → Always (λ a. Unit) r
  anything none = panics
  anything (some a) = holds tt

-- A relation that the writes of one kind of chains satisfy.
pub record Respects (c : Chains) (R : c.Context → c.Context → Type 0) : Type 0 where
  pub same : (ctx : c.Context) → R ctx ctx
  pub then : {a b d : c.Context} → R a b → R b d → R a d
  pub defnode : (ctx : c.Context) (d : c.Def) (l : List Use) → R ctx (c.set_defnode ctx d l)
  pub operands :
      (ctx : c.Context) (p : ℕ) (l : List (Operand c.Def)) → R ctx (c.set_operands ctx p l)
  pub counter : (ctx : c.Context) → R ctx (c.set_use_counter ctx (c.use_counter ctx + 1))

module _ {c : Chains} {R : c.Context → c.Context → Type 0} (r : Respects c R) where
  open c use {Context, Def, get_defnode, get_operands}

  new_operand-Respects :
      (ctx : Context) (d : Def) (p : ℕ) → Always (λ out. R ctx out.1) (new_operand c ctx d p)
  unfolding new_operand get_new_use_uid
  new_operand-Respects ctx d p =
      let fresh = get_new_use_uid c ctx in
      elim (Option-cases (get_defnode fresh.1 d)) [
        | inl e ↦ rw (new_operand, e) panics
        | inr (uses, e) ↦
            elim (Option-cases (add_use uses (record { user_op = p; use_uid = fresh.0 }))) [
              | inl e' ↦ rw (new_operand, e, e') panics
              | inr (uses', e') ↦
                  rw (new_operand, e, e') (holds (r.then (r.counter ctx) (r.defnode _ d uses')))
            ]
      ]

  new_operands-Respects :
      (ctx : Context) (p : ℕ) (ds : List Def)
      → Always (λ out. R ctx out.1) (new_operands c ctx p ds)
  unfolding new_operands
  new_operands-Respects ctx p [] = holds (r.same ctx)
  new_operands-Respects ctx p (d ∷ ds) = Always-bind (new_operand-Respects ctx d p) λ out step.
      Always-bind (new_operands-Respects out.1 p ds) λ more rest. holds (r.then step rest)

  pub init_operands-Respects :
      (ctx : Context) (p : ℕ) (ds : List Def) → Always (R ctx) (init_operands c ctx p ds)
  unfolding init_operands
  init_operands-Respects ctx p ds =
      Always-bind (new_operands-Respects ctx p ds)
        λ out step. Always-bind (anything _) λ _ _. holds (r.then step (r.operands out.1 p out.0))

  drop_use-Respects :
      (ctx : Context) (o : Operand Def) (p : ℕ) → Always (R ctx) (drop_use c ctx o p)
  unfolding drop_use
  drop_use-Respects ctx o p = elim (Option-cases (get_defnode ctx o.def)) [
    | inl e ↦ rw (drop_use, e) panics
    | inr (uses, e) ↦
        elim (Option-cases (remove_use uses (record { user_op = p; use_uid = o.use_uid }))) [
          | inl e' ↦ rw (drop_use, e, e') panics
          | inr (uses', e') ↦ rw (drop_use, e, e') (holds (r.defnode ctx o.def uses'))
        ]
  ]

  drop_each-Respects :
      (ctx : Context) (os : List (Operand Def)) (p : ℕ) → Always (R ctx) (drop_each c ctx os p)
  unfolding drop_each
  drop_each-Respects ctx [] p = holds (r.same ctx)
  drop_each-Respects ctx (o ∷ os) p =
      Always-bind (drop_use-Respects ctx o p)
        λ ctx' step. Always-mono (drop_each-Respects ctx' os p) λ ctx'' rest. r.then step rest

  pub drop_operands-Respects : (ctx : Context) (p : ℕ) → Always (R ctx) (drop_operands c ctx p)
  unfolding drop_operands
  drop_operands-Respects ctx p = Always-bind (anything _) λ os _.
      Always-mono (drop_each-Respects (c.set_operands ctx p []) os p)
        λ ctx' rest. r.then (r.operands ctx p []) rest

-- Another kind of chains, in the same context, that is as it was, but for new identifiers.
pub record Keeps (c : Chains) (ctx ctx' : c.Context) : Type 0 where
  pub defnodes : (d : c.Def) → c.get_defnode ctx' d ≡ c.get_defnode ctx d
  pub operands : (p : ℕ) → c.get_operands ctx' p ≡ c.get_operands ctx p
  pub counter : c.use_counter ctx ≤ c.use_counter ctx'

pub Keeps-WellLinked :
    {c : Chains} (ctx ctx' : c.Context) → Keeps c ctx ctx' → WellLinked c ctx → WellLinked c ctx'
unfolding Linked Uids
Keeps-WellLinked ctx ctx' k w = record {
  linked = λ d p uid. rw (k.defnodes d, k.operands p) (w.linked d p uid);
  uids = λ p uid.
      rw (k.operands p) ((w.uids p uid).0, λ h. (w.uids p uid).1 (omega (arith, k.counter)));
}
