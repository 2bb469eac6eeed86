-- ===== src/ApInt/Overflow.antt =====
-- The overflow flags of addition, subtraction and multiplication.
use pliron.Prelude.{
  ℕ, zero, suc, ◌+◌, ◌-◌, ◌*◌, ◌%◌, ◌^◌, ◌≤◌, ◌<◌, ◌≡◌, refl, sym, ap, ◌∙◌, Bool, true, not, arith,
  ==_refl, ltb, leb, Returns, returns,
}
use native.Mathlib.Nat.{pow-suc, mod-eq_of_lt, mul-le-mul}
use mathlib.Core.Path.{subst}
use pliron.Prelude.Int.{
  pos, signed, out_of_range, ◌+ℤ◌, ◌-ℤ◌, signed_at, +ℤ_parts, -ℤ_parts, pos_part, neg_part,
  eq_of_parts,
}
use pliron.ApInt.{ApInt, bw, sub_overflow, mul_overflow, mul}
use pliron.ApInt.Bits.{Awint}
use pliron.ApInt.Laws.{Laws}

-- 2^w is twice 2^(w - 1).
pub two_pow_half : (w : ℕ) → 0 < w → 2 ^ w ≡ 2 ^ (w - 1) + 2 ^ (w - 1)
two_pow_half zero h = absurd (omega arith)
two_pow_half (suc w) h = let e : suc w - 1 ≡ w = omega arith in rw e (pow-suc 2 w ∙ omega arith)

-- ~b as an integer is -b - 1, so adding it with a carry subtracts b.
signed_at-not :
    (full half a b : ℕ)
    → full ≡ half + half
    → b < full
    → signed_at full half a +ℤ signed_at full half (full - 1 - b) +ℤ pos 1
      ≡ signed_at full half a -ℤ signed_at full half b
signed_at-not full half a b h lt =
    let x = signed_at full half a in
    let y = signed_at full half (full - 1 - b) in
    let z = signed_at full half b in
    let parts : pos_part y + pos_part z + 1 ≡ neg_part y + neg_part z = ground arith in
    eq_of_parts (x +ℤ y +ℤ pos 1) (x -ℤ z)
      (omega (arith, +ℤ_parts (x +ℤ y) (pos 1), +ℤ_parts x y, -ℤ_parts x z))

signed-not :
    (w a b : ℕ)
    → 0 < w
    → b < 2 ^ w
    → signed w a +ℤ signed w (2 ^ w - 1 - b) +ℤ pos 1 ≡ signed w a -ℤ signed w b
signed-not w a b h lt = signed_at-not (2 ^ w) (2 ^ (w - 1)) a b (two_pow_half w h) lt

difference_value : (full a b : ℕ) → b < full → a + (full - 1 - b) % full + 1 ≡ a + full - b
difference_value full a b lt =
    let small : (full - 1 - b) % full ≡ full - 1 - b = mod-eq_of_lt (omega arith) in
    rw small (omega arith)

difference_flag :
    (full a b : ℕ) → a < full → b < full → not (leb full (a + (full - 1 - b) % full + 1)) ≡ ltb a b
difference_flag full a b la lt = rw (difference_value full a b lt) (ground arith)

two_pow_double : (w : ℕ) → 2 ^ (w * 2) ≡ 2 ^ w * 2 ^ w
two_pow_double zero = refl
two_pow_double (suc w) =
    let e : suc w * 2 ≡ suc (suc (w * 2)) = omega arith in
    rw (e, pow-suc 2 (suc (w * 2)), pow-suc 2 (w * 2), pow-suc 2 w, two_pow_double w) (omega arith)

pub zero_mod : (w : ℕ) → 0 % 2 ^ w ≡ 0
zero_mod w = omega arith

exact_product :
    (w a b : ℕ)
    → a < 2 ^ w
    → b < 2 ^ w
    → (a % 2 ^ (w * 2) ≡ a) × ((b % 2 ^ (w * 2) ≡ b) × ((a * b) % 2 ^ (w * 2) ≡ a * b))
exact_product w a b la lt =
    let bound : a * b < 2 ^ w * 2 ^ w = mul-lt-mul la lt in
    let wide : 2 ^ w ≤ 2 ^ w * 2 ^ w = grind arith in
    rw two_pow_double (mod-eq_of_lt (omega arith), (mod-eq_of_lt (omega arith), mod-eq_of_lt bound))
  where
    mul-lt-mul : {a b n : ℕ} → a < n → b < n → a * b < n * n
    mul-lt-mul {a} {b} {n} h k = grind (arith, mul-le-mul)

module _ (lib : Awint) (laws : Laws lib) where
  open laws use {
    val, val-lt, bw_pos, zero_lem, not_lem, cin_sum_lem, arb_umul_add_lem, zero_resize_lem,
    mul_add_lem,
  }

  -- The difference, and when it overflows as unsigned and as signed.
  pub record Difference (a b : ApInt lib) (out : ApInt lib × Bool × Bool) : Type 0 where
    pub width : bw lib out.0 ≡ bw lib a
    pub value : val out.0.value ≡ (val a.value + 2 ^ bw lib a - val b.value) % 2 ^ bw lib a
    pub unsigned : out.1 ≡ ltb (val a.value) (val b.value)
    pub signed_flag :
        out.2
        ≡ out_of_range
            (bw lib a)
            (signed (bw lib a) (val a.value) -ℤ signed (bw lib a) (val b.value))

  pub sub_overflow-Difference :
      (a b : ApInt lib) → bw lib a ≡ bw lib b → Returns (Difference a b) (sub_overflow lib a b)
  unfolding bw sub_overflow
  sub_overflow-Difference a b e =
      let w = lib.bw a.value in
      let n = not_lem b.value in
      let (out, eq, sum) =
        cin_sum_lem (lib.zero w) true a.value (lib.not_ b.value) (zero_lem w (bw_pos a.value)).width
          ((zero_lem w (bw_pos a.value)).width ∙ e ∙ sym n.width) in
      let lt : val b.value < 2 ^ w = subst (λ k. val b.value < 2 ^ k) (sym e) (val-lt b.value) in
      let nv : val (lib.not_ b.value) ≡ (2 ^ w - 1 - val b.value) % 2 ^ w =
        n.value ∙ ap (λ k. (2 ^ k - 1 - val b.value) % 2 ^ k) (sym e) in
      rw (e, ==_refl)
        (rw (← e) (
          rw eq (
            returns (record {
              width = sum.sum.width;
              value =
                  sum.sum.value
                  ∙ ap (λ k. k % 2 ^ w)
                      (rw nv (difference_value (2 ^ w) (val a.value) (val b.value) lt));
              unsigned =
                  ap not sum.unsigned
                  ∙ rw nv (difference_flag (2 ^ w) (val a.value) (val b.value) (val-lt a.value) lt);
              signed_flag =
                  sum.signed_flag
                  ∙ ap (λ k. out_of_range w (signed w (val a.value) +ℤ signed w k +ℤ pos 1))
                      (nv ∙ mod-eq_of_lt (omega arith))
                  ∙ ap (out_of_range w)
                      (signed-not w (val a.value) (val b.value) (bw_pos a.value) lt);
            }))))

  -- The product, and when it overflows as unsigned.
  pub record Product (a b : ApInt lib) (out : ApInt lib × Bool × Bool) : Type 0 where
    pub width : bw lib out.0 ≡ bw lib a
    pub value : val out.0.value ≡ (val a.value * val b.value) % 2 ^ bw lib a
    pub unsigned : out.1 ≡ leb (2 ^ bw lib a) (val a.value * val b.value)

  -- A double-width zero-extended product is exact.
  wide_product :
      (a b : ApInt lib)
      → bw lib a ≡ bw lib b
      → val (
          lib.arb_umul_add_
            (lib.zero (bw lib a * 2))
            (lib.zero_resize_ (lib.zero (bw lib a * 2)) a.value).0
            (lib.zero_resize_ (lib.zero (bw lib a * 2)) b.value).0)
        ≡ val a.value * val b.value
  unfolding bw
  wide_product a b e =
      let w = lib.bw a.value in
      let d = zero_lem (w * 2) (omega (arith, bw_pos a.value)) in
      let za = (zero_resize_lem (lib.zero (w * 2)) a.value).0 in
      let zb = (zero_resize_lem (lib.zero (w * 2)) b.value).0 in
      let m =
        arb_umul_add_lem (lib.zero (w * 2)) (lib.zero_resize_ (lib.zero (w * 2)) a.value).0
          (lib.zero_resize_ (lib.zero (w * 2)) b.value).0 in
      let lt : val b.value < 2 ^ w = subst (λ k. val b.value < 2 ^ k) (sym e) (val-lt b.value) in
      let (ea, (eb, ep)) = exact_product w (val a.value) (val b.value) (val-lt a.value) lt in
      let va : val (lib.zero_resize_ (lib.zero (w * 2)) a.value).0 ≡ val a.value =
        za.value ∙ ap (λ k. val a.value % 2 ^ k) d.width ∙ ea in
      let vb : val (lib.zero_resize_ (lib.zero (w * 2)) b.value).0 ≡ val b.value =
        zb.value ∙ ap (λ k. val b.value % 2 ^ k) d.width ∙ eb in
      let vd : val (lib.zero (w * 2)) ≡ 0 = d.value ∙ zero_mod (w * 2) in
      m.value ∙ rw (d.width, va, vb, vd) (ap (λ k. k % 2 ^ (w * 2)) (omega arith) ∙ ep)

  -- `mul_overflow`: the product wraps, and the unsigned flag says exactly when.
  mul_overflow-Product :
      (a b : ApInt lib) → bw lib a ≡ bw lib b → Returns (Product a b) (mul_overflow lib a b)
  unfolding bw mul_overflow mul
  mul_overflow-Product a b e =
      let w = lib.bw a.value in
      let d = zero_lem w (bw_pos a.value) in
      let (out, eq, m) = mul_add_lem (lib.zero w) a.value b.value d.width (d.width ∙ e) in
      let vd : val (lib.zero w) ≡ 0 = d.value ∙ zero_mod w in
      rw (e, ==_refl)
        (rw (← e) (
          rw eq (
            returns (record {
              width = m.width ∙ d.width;
              value = m.value ∙ rw (d.width, vd) (ap (λ k. k % 2 ^ w) (omega arith));
              unsigned = (zero_resize_lem (lib.zero w) _).1 ∙ rw (d.width, wide_product a b e) refl;
            }))))
