-- ===== src/ApInt/Laws.antt =====
-- What apint.rs relies on of awint: `val` is the unsigned value of a bit vector.
use pliron.Prelude.{
  ℕ, ◌+◌, ◌-◌, ◌*◌, ◌/◌, ◌%◌, ◌^◌, ◌≤◌, ◌<◌, ◌≡◌, Bool, true, false, ◌&&◌, none, some, ◌==◌, ltb,
  leb, if◌then◌else◌,
}
use pliron.Prelude.Int.{pos, signed, out_of_range, ◌+ℤ◌}
use pliron.ApInt.Bits.{Awint}

abbrev pub bit : Bool → ℕ
bit true = 1
bit false = 0

module _ (lib : Awint) where
  open lib use {Awi}

  -- `r` has the width of `w` and the value `n` modulo its power of two.
  pub record Holds (val : Awi → ℕ) (w n : ℕ) (r : Awi) : Type 0 where
    pub width : lib.bw r ≡ w
    pub value : val r ≡ n % 2 ^ w

  -- The outcome of `cin_sum_`.
  pub record Sum (val : Awi → ℕ) (c : Bool) (l r : Awi) (out : Awi × Bool × Bool) : Type 0 where
    pub sum : Holds val (lib.bw l) (val l + val r + bit c) out.0
    pub unsigned : out.1 ≡ leb (2 ^ lib.bw l) (val l + val r + bit c)
    pub signed_flag :
        out.2
        ≡ out_of_range
            (lib.bw l)
            (signed (lib.bw l) (val l) +ℤ signed (lib.bw l) (val r) +ℤ pos (bit c))

  pub record Laws : Type 0 where
    pub val : Awi → ℕ
    pub val-lt : (x : Awi) → val x < 2 ^ lib.bw x
    pub bw_pos : (x : Awi) → 0 < lib.bw x
    pub zero_lem : (w : ℕ) → 0 < w → Holds val w 0 (lib.zero w)
    pub eq_lem : (x y : Awi) → lib.eq x y ≡ ((lib.bw x == lib.bw y) && (val x == val y))
    pub not_lem : (x : Awi) → Holds val (lib.bw x) (2 ^ lib.bw x - 1 - val x) (lib.not_ x)
    pub cin_sum_lem :
        (x : Awi) (c : Bool) (l r : Awi)
        → lib.bw x ≡ lib.bw l
        → lib.bw x ≡ lib.bw r
        → (out : Awi × Bool × Bool) × (lib.cin_sum_ x c l r ≡ some out) × Sum val c l r out
    pub mul_add_lem :
        (x l r : Awi)
        → lib.bw x ≡ lib.bw l
        → lib.bw x ≡ lib.bw r
        → (out : Awi) × (lib.mul_add_ x l r ≡ some out)
          × Holds val (lib.bw x) (val x + val l * val r) out
    pub arb_umul_add_lem :
        (x l r : Awi) → Holds val (lib.bw x) (val x + val l * val r) (lib.arb_umul_add_ x l r)
    pub zero_resize_lem :
        (x y : Awi)
        → Holds val (lib.bw x) (val y) (lib.zero_resize_ x y).0
          × ((lib.zero_resize_ x y).1 ≡ leb (2 ^ lib.bw x) (val y))
    -- Truncation keeps the low bits, extension the integer.
    pub sign_resize_narrow :
        (x y : Awi) → lib.bw x ≤ lib.bw y → Holds val (lib.bw x) (val y) (lib.sign_resize_ x y).0
    pub sign_resize_wide :
        (x y : Awi)
        → lib.bw y ≤ lib.bw x
        → (lib.bw (lib.sign_resize_ x y).0 ≡ lib.bw x)
          × (signed (lib.bw x) (val (lib.sign_resize_ x y).0) ≡ signed (lib.bw y) (val y))
    pub shl_out : (x : Awi) (s : ℕ) → lib.bw x ≤ s → lib.shl_ x s ≡ none
    pub shl_in :
        (x : Awi) (s : ℕ)
        → s < lib.bw x
        → (out : Awi) × (lib.shl_ x s ≡ some out) × Holds val (lib.bw x) (val x * 2 ^ s) out
    pub lshr_out : (x : Awi) (s : ℕ) → lib.bw x ≤ s → lib.lshr_ x s ≡ none
    pub lshr_in :
        (x : Awi) (s : ℕ)
        → s < lib.bw x
        → (out : Awi) × (lib.lshr_ x s ≡ some out) × Holds val (lib.bw x) (val x / 2 ^ s) out
    -- The sign bit fills the high bits: a negative pattern is shifted as its complement.
    pub ashr_in :
        (x : Awi) (s : ℕ)
        → s < lib.bw x
        → (out : Awi) × (lib.ashr_ x s ≡ some out)
          × Holds val
              (lib.bw x)
              (if ltb (val x) (2 ^ (lib.bw x - 1))
                then val x / 2 ^ s
                else 2 ^ lib.bw x - 1 - (2 ^ lib.bw x - 1 - val x) / 2 ^ s)
              out
    pub udivide_lem :
        (q r x y : Awi)
        → lib.bw q ≡ lib.bw x
        → lib.bw r ≡ lib.bw x
        → lib.bw y ≡ lib.bw x
        → 0 < val y
        → (out : Awi × Awi) × (lib.udivide q r x y ≡ some out)
          × Holds val (lib.bw x) (val x / val y) out.0
          × Holds val (lib.bw x) (val x % val y) out.1
    pub is_zero_lem : (x : Awi) → lib.is_zero x ≡ (val x == 0)
    -- `usize` has 64 bits.
    pub to_usize_lem : (x : Awi) → lib.to_usize x ≡ val x % 2 ^ 64
