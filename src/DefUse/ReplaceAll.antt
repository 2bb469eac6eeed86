-- ===== src/DefUse/ReplaceAll.antt =====
-- The loops over replace_use_with: some, or all, of the uses of a definition become uses of another.
use pliron.Prelude.{
  ℕ, ◌<◌, ◌≤◌, ◌≡◌, refl, ap, ◌∙◌, Bool, true, false, Option, none, some, List, [], ◌∷◌, map, arith,
  if◌then◌else◌, Bool-cases, Option-cases, is_some, inl, inr,
}
use pliron.DefUse.{
  Use, Operand, Chains, same_use, has_use_of, replace_each, replace_all_uses_with,
  replace_some_uses_with, satisfying,
}
use pliron.DefUse.Count.{count}
use pliron.DefUse.Uses.{has_use_of-present}
use pliron.DefUse.Linked.{ChainLaws, uses_of, is_operand, Linked}
use pliron.DefUse.WellLinked.{WellLinked}
use pliron.DefUse.Redirect.{redirect, redirected, eq_false_sym}
use pliron.DefUse.Replace.{Replaced, replace_use_with-Replaced}

-- A use counts itself.
count_self : (u : Use) (us : List Use) → 0 < count (same_use u) (u ∷ us)
count_self u us = ground arith

count-satisfying :
    (c : Chains) (f q : Use → Bool) (us : List Use) → count q (satisfying c f us) ≤ count q us
unfolding satisfying
count-satisfying c f q [] = omega arith
count-satisfying c f q (u ∷ us) = ground (arith, count-satisfying c f q us)

pub satisfying-all : (c : Chains) (us : List Use) → satisfying c (λ _. true) us ≡ us
unfolding satisfying
satisfying-all c [] = refl
satisfying-all c (u ∷ us) = ap (◌∷◌ u) (satisfying-all c us)

count_zero : (us : List Use) → count (λ _. true) us ≡ 0 → us ≡ []
count_zero [] h = refl
count_zero (u ∷ us) h = absurd (omega arith)

pub some_of : {A : Type 0} (o : Option A) → is_some o ≡ true → (a : A) × (o ≡ some a)
some_of none h = cc
some_of (some a) h = (a, refl)

module _ (c : Chains) where
  open c use {Def, eq}

  abbrev pub substitute : (this other : Def) → Operand Def → Operand Def
  substitute this other o = if eq o.def this then record { def = other; use_uid = o.use_uid } else o

  abbrev pub substituted :
      (this other : Def) → Option (List (Operand Def)) → Option (List (Operand Def))
  substituted this other none = none
  substituted this other (some l) = some (map (substitute this other) l)

module _ {c : Chains} (laws : ChainLaws c) where
  open c use {Context, Def, eq, get_defnode, get_operands}

  redirect-redirect :
      (this other : Def) (u : Use) (us : List Use) (p : ℕ) (l : List (Operand Def))
      → eq this other ≡ false
      → map (redirect c this other us p) (map (redirect c this other (u ∷ []) p) l)
        ≡ map (redirect c this other (u ∷ us) p) l
  unfolding has_use_of
  redirect-redirect this other u us p [] f = refl
  redirect-redirect this other u us p (o ∷ l) f =
      let back = eq_false_sym laws this other f in
      let one : redirect c this other us p (redirect c this other (u ∷ []) p o)
          ≡ redirect c this other (u ∷ us) p o =
        ground arith in
      rw (one, redirect-redirect this other u us p l f) refl

  redirected-redirected :
      (this other : Def) (u : Use) (us : List Use) (p : ℕ) (l : Option (List (Operand Def)))
      → eq this other ≡ false
      → redirected c this other us p (redirected c this other (u ∷ []) p l)
        ≡ redirected c this other (u ∷ us) p l
  redirected-redirected this other u us p none f = refl
  redirected-redirected this other u us p (some l) f =
      ap some (redirect-redirect this other u us p l f)

  redirect-nothing :
      (this other : Def) (p : ℕ) (l : List (Operand Def)) → l ≡ map (redirect c this other [] p) l
  unfolding has_use_of
  redirect-nothing this other p [] = refl
  redirect-nothing this other p (o ∷ l) =
      let same : redirect c this other [] p o ≡ o = ground arith in
      rw (same, ← (redirect-nothing this other p l)) refl

  redirected-nothing :
      (this other : Def) (p : ℕ) (l : Option (List (Operand Def)))
      → l ≡ redirected c this other [] p l
  redirected-nothing this other p none = refl
  redirected-nothing this other p (some l) = ap some (redirect-nothing this other p l)

  -- replace_each moves all the uses of a list in which none stands more often than the definition
  -- has it.
  replace_each-Replaced :
      (ctx : Context) (this other : Def) (us : List Use)
      → WellLinked c ctx
      → eq this other ≡ false
      → is_some (get_defnode ctx other) ≡ true
      → ((u : Use) → count (same_use u) us ≤ count (same_use u) (uses_of c ctx this))
      → (ctx' : Context) × (replace_each c ctx this us other ≡ some ctx')
        × Replaced c ctx this other us ctx'
  unfolding replace_each
  replace_each-Replaced ctx this other [] w f there fewer = (
    ctx,
    refl,
    record {
      well = w;
      operands = λ p. redirected-nothing this other p (get_operands ctx p);
      left = λ q. omega arith;
      defs = λ d. refl;
    },
  )
  replace_each-Replaced ctx this other (u ∷ us) w f there fewer =
      let (theirs, e) = some_of (get_defnode ctx other) there in
      let (ctx1, first, r) =
        replace_use_with-Replaced laws ctx this other u w f e
          (omega (arith, fewer u, count_self u us)) in
      let (ctx2, others, r') =
        replace_each-Replaced ctx1 this other us r.well f (r.defs other ∙ there)
          λ v. omega (arith, fewer v, r.left (same_use v)) in
      (
        ctx2,
        rw (replace_each, first) others,
        record {
          well = r'.well;
          operands = λ p.
              r'.operands p
              ∙ rw (r.operands p) (redirected-redirected this other u us p (get_operands ctx p) f);
          left = λ q. omega (arith, r.left q, r'.left q);
          defs = λ d. r'.defs d ∙ r.defs d;
        },
      )

  -- In a well-linked context, between different live definitions, replace_some_uses_with moves the
  -- uses that satisfied the predicate at the start, and no other: their operands have the other
  -- definition, and the definition keeps the rest of its uses. The context stays well linked.
  pub replace_some_uses_with-Replaced :
      (ctx : Context) (this other : Def) (predicate : Context → Use → Bool) (us : List Use)
      → WellLinked c ctx
      → eq this other ≡ false
      → get_defnode ctx this ≡ some us
      → is_some (get_defnode ctx other) ≡ true
      → (ctx' : Context) × (replace_some_uses_with c ctx this predicate other ≡ some ctx')
        × Replaced c ctx this other (satisfying c (predicate ctx) us) ctx'
  unfolding replace_some_uses_with
  replace_some_uses_with-Replaced ctx this other predicate us w f e there =
      let (ctx', done, replaced) =
        replace_each-Replaced ctx this other (satisfying c (predicate ctx) us) w f there
          λ u. rw e (count-satisfying c (predicate ctx) (same_use u) us) in
      (ctx', rw (replace_some_uses_with, e) done, replaced)

  -- If the uses listed are those of the operands, all operands of the definition are redirected.
  redirect_all :
      (this other : Def) (us : List Use) (p : ℕ) (l : List (Operand Def))
      → ((uid : ℕ)
          → 0 < count (is_operand c this uid) l
          → has_use_of us (record { user_op = p; use_uid = uid }) ≡ true)
      → map (redirect c this other us p) l ≡ map (substitute c this other) l
  redirect_all this other us p [] h = refl
  redirect_all this other us p (o ∷ l) h =
      let rest = redirect_all this other us p l λ uid n. h uid (omega arith) in
      let one : redirect c this other us p o ≡ substitute c this other o =
        elim (Bool-cases (eq o.def this)) [
          | inl t ↦ rw (t, h o.use_uid (ground arith)) refl
          | inr f ↦ rw f refl
        ] in
      rw (one, rest) refl

  redirected_all :
      (ctx : Context) (this other : Def) (us : List Use) (p : ℕ)
      → WellLinked c ctx
      → get_defnode ctx this ≡ some us
      → redirected c this other us p (get_operands ctx p)
        ≡ substituted c this other (get_operands ctx p)
  unfolding Linked
  redirected_all ctx this other us p w e = elim (Option-cases (get_operands ctx p)) [
    | inl gone ↦ rw gone refl
    | inr (l, here) ↦ rw here (
        ap some (
          redirect_all this other us p l λ uid n.
            has_use_of-present us (record { user_op = p; use_uid = uid })
              (ground (arith, w.linked this p uid))))
  ]

  -- In a well-linked context, between different live definitions, replace_all_uses_with leaves the
  -- definition without uses. Every operand of any operation that had it has the other one, in its
  -- place and with its use, other operands are as they were, and the context stays well linked.
  pub replace_all_uses_with-substituted :
      (ctx : Context) (this other : Def) (us : List Use)
      → WellLinked c ctx
      → eq this other ≡ false
      → get_defnode ctx this ≡ some us
      → is_some (get_defnode ctx other) ≡ true
      → (ctx' : Context) × (replace_all_uses_with c ctx this other ≡ some ctx')
        × WellLinked c ctx'
        × (uses_of c ctx' this ≡ [])
        × ((p : ℕ) → get_operands ctx' p ≡ substituted c this other (get_operands ctx p))
  unfolding replace_all_uses_with
  replace_all_uses_with-substituted ctx this other us w f e there =
      let (ctx', done, r) =
        replace_some_uses_with-Replaced ctx this other (λ _ _. true) us w f e there in
      let all = satisfying-all c us in
      (
        ctx',
        done,
        r.well,
        count_zero (uses_of c ctx' this) (ground (arith, rw (all, e) at (r.left λ _. true))),
        λ p. r.operands p ∙ rw all (redirected_all ctx this other us p w e),
      )
