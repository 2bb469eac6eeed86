-- ===== src/ApInt/Resize.antt =====
-- Extension, truncation and division.
use mathlib.Core.Path.{subst}
use native.Mathlib.Nat.{mod-eq_of_lt, pow-le-pow_right, div-add-mod, div-le_self, mod-lt}
use pliron.Prelude.{
  ℕ, ◌+◌, ◌*◌, ◌/◌, ◌%◌, ◌^◌, ◌≤◌, ◌<◌, ◌≡◌, refl, sym, ◌∙◌, true, false, none, some, arith,
  ==_refl, leb, ◌>>=◌, Returns, returns,
}
use pliron.Prelude.Int.{signed}
use pliron.ApInt.{ApInt, bw, sext, zext, trunc, udiv, urem, is_zero}
use pliron.ApInt.Bits.{Awint}
use pliron.ApInt.Laws.{Laws}
use pliron.ApInt.Shift.{Result}

module _ (lib : Awint) (laws : Laws lib) where
  open laws use {
    val, val-lt, bw_pos, zero_lem, zero_resize_lem, sign_resize_wide, udivide_lem, is_zero_lem,
  }

  -- Zero extension keeps the value, and truncation to the old width undoes it.
  trunc-zext :
      (a : ApInt lib) (width : ℕ)
      → bw lib a ≤ width
      → Result lib laws (zext lib a width) (val a.value) (zext lib a width)
        × Returns (Result lib laws a (val a.value)) (trunc lib (zext lib a width) (bw lib a))
  unfolding bw zext trunc
  trunc-zext a width le =
      let w = lib.bw a.value in
      let p = bw_pos a.value in
      let d = zero_lem width (omega arith) in
      let z = (zero_resize_lem (lib.zero width) a.value).0 in
      let zw : lib.bw (lib.zero_resize_ (lib.zero width) a.value).0 ≡ width = z.width ∙ d.width in
      let big : 2 ^ w ≤ 2 ^ width = pow-le-pow_right {n = 2} (omega arith) le in
      let lt = val-lt a.value in
      let zv : val (lib.zero_resize_ (lib.zero width) a.value).0 ≡ val a.value =
        z.value ∙ rw d.width (mod-eq_of_lt (omega arith)) in
      let d' = zero_lem w p in
      let t = (zero_resize_lem (lib.zero w) (lib.zero_resize_ (lib.zero width) a.value).0).0 in
      let fits : leb w width ≡ true = ground arith in
      (
        record { width = refl; value = zv },
        rw (zw, fits)
            (returns (record {
              width = t.width ∙ d'.width;
              value = t.value ∙ rw (d'.width, zv) (mod-eq_of_lt lt);
            })),
      )

  -- Sign extension keeps the integer.
  sext-signed :
      (a : ApInt lib) (width : ℕ)
      → bw lib a ≤ width
      → (bw lib (sext lib a width) ≡ width)
        × (signed width (val (sext lib a width).value) ≡ signed (bw lib a) (val a.value))
  unfolding bw sext
  sext-signed a width le =
      let p = bw_pos a.value in
      let d = zero_lem width (omega arith) in
      let (w, v) =
        sign_resize_wide (lib.zero width) a.value
          (subst (λ k. lib.bw a.value ≤ k) (sym d.width) le) in
      (w ∙ d.width, rw d.width at v)

  -- Truncation to a greater width panics.
  pub trunc_panics : (a : ApInt lib) (width : ℕ) → bw lib a < width → trunc lib a width ≡ none
  unfolding bw trunc
  trunc_panics a width h = let e : leb width (lib.bw a.value) ≡ false = ground arith in rw e

  -- Quotient and remainder.
  abbrev pub Divides : ApInt lib → ApInt lib → ApInt lib × ApInt lib → Type 0
  Divides a b (q, r) =
      (val a.value ≡ val b.value * val q.value + val r.value) × (val r.value < val b.value)

  -- `udiv` and `urem` give the quotient and the remainder of a division by a non-zero number.
  pub udiv-urem :
      (a b : ApInt lib)
      → bw lib a ≡ bw lib b
      → 0 < val b.value
      → Returns (Divides a b) (udiv lib a b >>= λ q. urem lib a b >>= λ r. some (q, r))
  unfolding bw udiv urem is_zero
  udiv-urem a b e pos =
      let w = lib.bw a.value in
      let d = zero_lem w (bw_pos a.value) in
      let ((q, r), eq, hq, hr) =
        udivide_lem (lib.zero w) (lib.zero w) a.value b.value d.width d.width (sym e) pos in
      let nz : lib.is_zero b.value ≡ false = is_zero_lem b.value ∙ ground arith in
      let lt = val-lt a.value in
      let small : val a.value % val b.value < val b.value = mod-lt (val a.value) pos in
      let lb : val b.value < 2 ^ w = subst (λ k. val b.value < 2 ^ k) (sym e) (val-lt b.value) in
      let vq : val q ≡ val a.value / val b.value =
        hq.value ∙ mod-eq_of_lt (omega (arith, div-le_self (val a.value) (val b.value))) in
      let vr : val r ≡ val a.value % val b.value = hr.value ∙ mod-eq_of_lt (omega arith) in
      rw (e, ==_refl)
        (rw (← e, nz, eq)
          (returns (rw (vq, vr) (sym (div-add-mod (val a.value) (val b.value))), rw vr small)))

  -- Division by zero panics.
  pub udiv_zero :
      (a b : ApInt lib) → val b.value ≡ 0 → (udiv lib a b ≡ none) × (urem lib a b ≡ none)
  unfolding udiv urem is_zero
  udiv_zero a b z =
      let zb : lib.is_zero b.value ≡ true = is_zero_lem b.value ∙ rw z refl in
      (rw zb (ground arith), rw zb (ground arith))
