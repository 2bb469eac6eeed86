-- ===== src/ApInt/Shift.antt =====
-- Shifts: the result at every shift amount, and what `shl_overflow` reports.
use mathlib.Core.Path.{subst}
use native.Mathlib.Decide.{dec_lt}
use native.Mathlib.Nat.{
  mod-eq_of_lt, mod-lt, pow-suc, div-eq_of_lt, div-lt_iff_lt-mul, mul-div_cancel,
}
use Prim.Native.Nat.{min}
use pliron.Prelude.{
  ℕ, zero, suc, ◌+◌, ◌-◌, ◌*◌, ◌/◌, ◌%◌, ◌^◌, ◌≤◌, ◌<◌, ◌≡◌, refl, sym, ap, ◌∙◌, true, not, arith,
  ◌==◌, ==_refl, ltb, leb, if◌then◌else◌, Returns, returns, Returns-mono, Bool-cases, inl, inr,
}
use pliron.ApInt.{ApInt, bw, shl, lshr, ashr, shl_overflow}
use pliron.ApInt.Bits.{Awint}
use pliron.ApInt.Laws.{Laws}
use pliron.ApInt.Overflow.{zero_mod, two_pow_half}

pub two_pow_pos : (s : ℕ) → 0 < 2 ^ s
two_pow_pos zero = omega arith
two_pow_pos (suc s) = rw (pow-suc 2 s) (omega (arith, two_pow_pos s))

-- Shifting back gives `a` again exactly if no bit was lost.
lost_bits :
    (full p a : ℕ) → a < full → 0 < p → not (((a * p) % full / p % full) == a) ≡ leb full (a * p)
lost_bits full p a lt pos = elim (dec_lt (a * p) full) [
  | yes h ↦
      let e : (a * p) % full / p % full ≡ a =
        ap (λ k. k / p % full) (mod-eq_of_lt h)
        ∙ ap (λ k. k % full) (mul-div_cancel a pos)
        ∙ mod-eq_of_lt lt in
      rw e (ground (arith, ==_refl a))
  | no h ↦
      let r : (a * p) % full < a * p = omega (arith, mod-lt (a * p) {m = full} (omega arith)) in
      let q : (a * p) % full / p < a = (div-lt_iff_lt-mul pos).1 r in
      let e : (a * p) % full / p % full ≡ (a * p) % full / p = mod-eq_of_lt (omega arith) in
      rw e (ground arith)
]

module _ (lib : Awint) (laws : Laws lib) where
  open laws use {
    val, val-lt, bw_pos, zero_lem, shl_out, shl_in, lshr_out, lshr_in, ashr_in, to_usize_lem,
    eq_lem,
  }

  -- The result has the width of `a` and the value `n`.
  pub record Result (a : ApInt lib) (n : ℕ) (r : ApInt lib) : Type 0 where
    pub width : bw lib r ≡ bw lib a
    pub value : val r.value ≡ n

  -- `shl` reads the low 64 bits of the amount; from the width on the result is zero.
  shl-Result :
      (a b : ApInt lib)
      → bw lib a ≡ bw lib b
      → Returns
          (Result a (
            if ltb (val b.value % 2 ^ 64) (bw lib a)
            then (val a.value * 2 ^ (val b.value % 2 ^ 64)) % 2 ^ bw lib a
            else 0))
          (shl lib a b)
  unfolding bw shl
  shl-Result a b e =
      rw (e, ==_refl)
        (rw (← e, to_usize_lem b.value)
          (elim (Bool-cases (ltb s w)) [
            | inl h ↦
                let (out, eq, holds) = shl_in a.value s (ground arith) in
                rw (h, eq) (returns (record { width = holds.width; value = holds.value }))
            | inr h ↦
                let z = zero_lem w (bw_pos a.value) in
                rw (h, shl_out a.value s (ground arith))
                  (returns (record { width = z.width; value = z.value ∙ zero_mod w }))
          ]))
    where
      w : ℕ
      w = lib.bw a.value

      s : ℕ
      s = val b.value % 2 ^ 64

  -- `lshr`, likewise.
  lshr-Result :
      (a b : ApInt lib)
      → bw lib a ≡ bw lib b
      → Returns
          (Result a (
            if ltb (val b.value % 2 ^ 64) (bw lib a)
            then val a.value / 2 ^ (val b.value % 2 ^ 64) % 2 ^ bw lib a
            else 0))
          (lshr lib a b)
  unfolding bw lshr
  lshr-Result a b e =
      rw (e, ==_refl)
        (rw (← e, to_usize_lem b.value)
          (elim (Bool-cases (ltb s w)) [
            | inl h ↦
                let (out, eq, holds) = lshr_in a.value s (ground arith) in
                rw (h, eq) (returns (record { width = holds.width; value = holds.value }))
            | inr h ↦
                let z = zero_lem w (bw_pos a.value) in
                rw (h, lshr_out a.value s (ground arith))
                  (returns (record { width = z.width; value = z.value ∙ zero_mod w }))
          ]))
    where
      w : ℕ
      w = lib.bw a.value

      s : ℕ
      s = val b.value % 2 ^ 64

  -- For widths beyond 64 bits the amount 2^64 shifts by nothing, though it is no less than the
  -- width: the result is `a` and not zero.
  pub shl_wide :
      (a b : ApInt lib)
      → bw lib a ≡ bw lib b
      → val b.value ≡ 2 ^ 64
      → bw lib a ≤ val b.value
      → Returns (Result a (val a.value)) (shl lib a b)
  unfolding bw
  shl_wide a b e full le =
      let zero_amount : val b.value % 2 ^ 64 ≡ 0 = ap (λ k. k % 2 ^ 64) full in
      let inside : ltb 0 (lib.bw a.value) ≡ true = let p = bw_pos a.value in ground arith in
      Returns-mono (shl-Result a b e) λ r res. record {
        width = res.width;
        value =
            res.value
            ∙ rw (zero_amount, inside)
                (ap (λ k. k % 2 ^ lib.bw a.value) (omega arith) ∙ mod-eq_of_lt (val-lt a.value));
      }

  -- An amount beyond the width leaves copies of the sign bit.
  ashr_out-Result :
      (a b : ApInt lib)
      → bw lib a ≡ bw lib b
      → bw lib a ≤ val b.value % 2 ^ 64
      → Returns
          (Result a (if ltb (val a.value) (2 ^ (bw lib a - 1)) then 0 else 2 ^ bw lib a - 1))
          (ashr lib a b)
  unfolding bw ashr
  ashr_out-Result a b e le =
      let w = lib.bw a.value in
      let p = bw_pos a.value in
      let lt = val-lt a.value in
      let half = two_pow_half w p in
      let least : min (val b.value % 2 ^ 64) (w - 1) ≡ w - 1 = omega arith in
      let (out, eq, holds) = ashr_in a.value (w - 1) (omega arith) in
      rw (e, ==_refl)
        (rw (← e, to_usize_lem b.value, least, eq)
          (returns (record {
            width = holds.width;
            value = holds.value ∙ clamped (2 ^ w) (2 ^ (w - 1)) (val a.value) half lt;
          })))
    where
      clamped :
          (full half n : ℕ)
          → full ≡ half + half
          → n < full
          → (if ltb n half then n / half else full - 1 - (full - 1 - n) / half) % full
            ≡ (if ltb n half then 0 else full - 1)
      clamped full half n e lt = elim (Bool-cases (ltb n half)) [
        | inl h ↦ let q : n / half ≡ 0 = div-eq_of_lt (ground arith) in rw (h, q) (omega arith)
        | inr h ↦
            let ge : half ≤ n = ground arith in
            let q : (full - 1 - n) / half ≡ 0 = div-eq_of_lt (omega arith) in
            rw (h, q) (mod-eq_of_lt (omega arith) ∙ omega arith)
      ]

  -- The flags of `shl_overflow`: a set bit is shifted out exactly if the true product is too large.
  shl_overflow-unsigned :
      (a b : ApInt lib)
      → bw lib a ≡ bw lib b
      → val b.value % 2 ^ 64 < bw lib a
      → Returns
          (λ out.
            Result a ((val a.value * 2 ^ (val b.value % 2 ^ 64)) % 2 ^ bw lib a) out.0
            × (out.1 ≡ leb (2 ^ bw lib a) (val a.value * 2 ^ (val b.value % 2 ^ 64))))
          (shl_overflow lib a b)
  unfolding bw shl_overflow shl
  shl_overflow-unsigned a b e lt =
      let w = lib.bw a.value in
      let s = val b.value % 2 ^ 64 in
      let inside : ltb s w ≡ true = ground arith in
      let (r, er, hr) = shl_in a.value s lt in
      let lt' : s < lib.bw r = subst (λ k. s < k) (sym hr.width) lt in
      let (u, eu, hu) = lshr_in r s lt' in
      let (g, eg, hg) = ashr_in r s lt' in
      let back : val u ≡ (val a.value * 2 ^ s) % 2 ^ w / 2 ^ s % 2 ^ w =
        hu.value ∙ rw (hr.width, hr.value) refl in
      rw (e, ==_refl)
        (rw (← e, to_usize_lem b.value, inside, er, eu, eg)
          (returns (
            record { width = hr.width; value = hr.value },
            ap not (eq_lem u a.value)
                ∙ rw (hu.width, hr.width, ==_refl, back)
                    (lost_bits (2 ^ w) (2 ^ s) (val a.value) (val-lt a.value) (two_pow_pos s)),
          )))
