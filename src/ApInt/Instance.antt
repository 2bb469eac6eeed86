-- ===== src/ApInt/Instance.antt =====
-- A library that meets the laws: bit vectors as pairs of a width, less one, and a number.
use native.Mathlib.Nat.{mod-lt, mod-eq_of_lt, pow-le-pow_right}
use Prim.Native.Nat.{bit_and, bit_or, bit_xor}
use mathlib.Core.Bool.{xor}
use pliron.Prelude.{
  ℕ, suc, ◌+◌, ◌-◌, ◌*◌, ◌/◌, ◌%◌, ◌^◌, ◌≤◌, ◌<◌, ◌≡◌, refl, ap, Bool, true, false, not, ◌&&◌,
  Option, none, some, arith, ◌==◌, ==_refl, ltb, leb, if◌then◌else◌, Bool-cases, inl, inr,
}
use pliron.Prelude.Int.{pos, signed, signed_at, out_of_range, ◌+ℤ◌}
use pliron.ApInt.Bits.{Awint}
use pliron.ApInt.Laws.{Laws, Holds, bit}
use pliron.ApInt.Overflow.{two_pow_half}
use pliron.ApInt.Shift.{two_pow_pos}

abbrev pub Vector : Type 0
Vector = ℕ × ℕ

abbrev pub width : Vector → ℕ
width (w, n) = suc w

abbrev pub value : Vector → ℕ
value (w, n) = n % 2 ^ suc w

abbrev pub make : ℕ → ℕ → Vector
make w n = (w - 1, n)

abbrev pub same {ℓ} : {A : Type ℓ} → Vector → Vector → A → Option A
same x y a = if width x == width y then some a else none

abbrev pub negative : Vector → Bool
negative x = not (ltb (value x) (2 ^ (width x - 1)))

abbrev pub sign_extended : ℕ → Vector → ℕ
sign_extended w y = if negative y then value y + (2 ^ w - 2 ^ width y) else value y

abbrev pub arithmetic : Vector → ℕ → ℕ
arithmetic x s =
    if ltb (value x) (2 ^ (width x - 1))
    then value x / 2 ^ s
    else 2 ^ width x - 1 - (2 ^ width x - 1 - value x) / 2 ^ s

abbrev pub below : Vector → Vector → Bool
below x y =
    ltb (value x + (if negative x then 0 else 2 ^ width x))
      (value y + (if negative y then 0 else 2 ^ width y))

abbrev pub magnitude : Vector → ℕ
magnitude x = if negative x then 2 ^ width x - value x else value x

abbrev pub with_sign : ℕ → Bool → ℕ → ℕ
with_sign w minus n = if minus then 2 ^ w - n else n

abbrev pub vectors : Awint
vectors = record {
  Awi = Vector;
  bw = width;
  zero = λ w. make w 0;
  is_zero = λ x. value x == 0;
  msb = negative;
  eq = λ x y. (width x == width y) && (value x == value y);
  add_ = λ x y. same x y (make (width x) (value x + value y));
  sub_ = λ x y. same x y (make (width x) (value x + 2 ^ width x - value y));
  not_ = λ x. make (width x) (2 ^ width x - 1 - value x);
  cin_sum_ = λ x c l r.
      if width x == width l
      then same x r (
        make (width l) (value l + value r + bit c),
        leb (2 ^ width l) (value l + value r + bit c),
        out_of_range (width l)
            (signed (width l) (value l) +ℤ signed (width l) (value r) +ℤ pos (bit c)),
      )
      else none;
  mul_add_ = λ x l r.
      if width x == width l then same x r (make (width x) (value x + value l * value r)) else none;
  arb_umul_add_ = λ x l r. make (width x) (value x + value l * value r);
  arb_imul_add_ =
      λ x l r. make (width x) (value x + sign_extended (width x) l * sign_extended (width x) r);
  zero_resize_ = λ x y. (make (width x) (value y), leb (2 ^ width x) (value y));
  sign_resize_ = λ x y. (
    make (width x) (if leb (width x) (width y) then value y else sign_extended (width x) y),
    out_of_range (width x) (signed (width y) (value y)),
  );
  shl_ = λ x s. if ltb s (width x) then some (make (width x) (value x * 2 ^ s)) else none;
  lshr_ = λ x s. if ltb s (width x) then some (make (width x) (value x / 2 ^ s)) else none;
  ashr_ = λ x s. if ltb s (width x) then some (make (width x) (arithmetic x s)) else none;
  udivide = λ q r x y.
      if value y == 0
      then none
      else same x y (make (width x) (value x / value y), make (width x) (value x % value y));
  idivide = λ q r x y.
      if value y == 0
      then none
      else same x y (
        make (width x)
            (with_sign (width x) (xor (negative x) (negative y)) (magnitude x / magnitude y)),
        make (width x) (with_sign (width x) (negative x) (magnitude x % magnitude y)),
      );
  and_ = λ x y. same x y (make (width x) (bit_and (value x) (value y)));
  or_ = λ x y. same x y (make (width x) (bit_or (value x) (value y)));
  xor_ = λ x y. same x y (make (width x) (bit_xor (value x) (value y)));
  ult = λ x y. same x y (ltb (value x) (value y));
  ule = λ x y. same x y (leb (value x) (value y));
  ugt = λ x y. same x y (ltb (value y) (value x));
  uge = λ x y. same x y (leb (value y) (value x));
  ilt = λ x y. same x y (below x y);
  ile = λ x y. same x y (not (below y x));
  igt = λ x y. same x y (below y x);
  ige = λ x y. same x y (not (below x y));
  umax = λ w. make w (2 ^ w - 1);
  imax = λ w. make w (2 ^ (w - 1) - 1);
  imin = λ w. make w (2 ^ (w - 1));
  uone = λ w. make w 1;
  to_usize = λ x. value x % 2 ^ 64;
  set_unsigned = λ bits x n. make (width x) (n % 2 ^ bits);
  set_signed = λ bits x n. make (width x) (sign_extended (width x) (make bits n));
  get_unsigned = λ bits x. value x % 2 ^ bits;
  get_signed = λ bits x. sign_extended bits x % 2 ^ bits;
}

pub make-Holds : (w n : ℕ) → 0 < w → Holds vectors value w n (make w n)
make-Holds w n h =
    let e : suc (w - 1) ≡ w = omega arith in record { width = e; value = ap (λ k. n % 2 ^ k) e }

pub value-lt : (x : Vector) → value x < 2 ^ width x
value-lt (w, n) = mod-lt n (two_pow_pos (suc w))

pub width_pos : (x : Vector) → 0 < width x
width_pos (w, n) = omega arith

-- The arithmetic of sign extension from `full` to the larger `wide`.
extended :
    (full half wide wide_half v : ℕ)
    → full ≡ half + half
    → wide ≡ wide_half + wide_half
    → half ≤ wide_half
    → v < full
    → signed_at wide wide_half ((if not (ltb v half) then v + (wide - full) else v) % wide)
      ≡ signed_at full half v
extended full half wide wide_half v e f le lt = elim (Bool-cases (ltb v half)) [
  | inl h ↦ let s : v % wide ≡ v = mod-eq_of_lt (ground arith) in rw (h, s) (ground arith)
  | inr h ↦
      let ge : half ≤ v = ground arith in
      let s : (v + (wide - full)) % wide ≡ v + (wide - full) = mod-eq_of_lt (omega arith) in
      rw (h, s) (ground arith)
]

pub both_widths {ℓ} :
    {A : Type ℓ} (x l r : Vector) {a : A}
    → width x ≡ width l
    → width x ≡ width r
    → (if width x == width l then same x r a else none) ≡ some a
both_widths x l r e f = rw (← e, ← f, ==_refl) refl

pub too_far {ℓ} :
    {A : Type ℓ} (x : Vector) (s : ℕ) (a : A)
    → width x ≤ s
    → (if ltb s (width x) then some a else none) ≡ none
too_far x s a h = ground arith

pub in_reach {ℓ} :
    {A : Type ℓ} (x : Vector) (s : ℕ) {a : A}
    → s < width x
    → (if ltb s (width x) then some a else none) ≡ some a
in_reach x s h = ground arith

pub divisible {ℓ} :
    {A : Type ℓ} (x y : Vector) {a : A}
    → width y ≡ width x
    → 0 < value y
    → (if value y == 0 then none else same x y a) ≡ some a
divisible x y g h = let z : (value y == 0) ≡ false = ground arith in rw (z, g, ==_refl) refl

pub narrowed :
    (x y : Vector)
    → width x ≤ width y
    → Holds vectors value
        (width x)
        (value y)
        (make (width x) (if leb (width x) (width y) then value y else sign_extended (width x) y))
narrowed x y h =
    let e : leb (width x) (width y) ≡ true = ground arith in
    rw e (make-Holds (width x) (value y) (width_pos x))

not_shorter :
    (x y : Vector)
    → width y ≤ width x
    → (if leb (width x) (width y) then value y else sign_extended (width x) y)
      ≡ sign_extended (width x) y
not_shorter x y h = elim (Bool-cases (leb (width x) (width y))) [
  | inl e ↦ let same_w : width x ≡ width y = ground arith in rw (e, same_w) (ground arith)
  | inr e ↦ rw e
]

pub widened :
    (x y : Vector)
    → width y ≤ width x
    → (width
          (make (width x) (if leb (width x) (width y) then value y else sign_extended (width x) y))
        ≡ width x)
      × (signed (width x) (
            value (
              make
                (width x)
                (if leb (width x) (width y) then value y else sign_extended (width x) y)))
          ≡ signed (width y) (value y))
widened x y h =
    let w : suc (width x - 1) ≡ width x = omega arith in
    let half =
      pow-le-pow_right {n = 2} (omega arith) {i = width y - 1} {j = width x - 1} (omega arith) in
    let grown : (if leb (width x) (width y) then value y else sign_extended (width x) y)
        ≡ sign_extended (width x) y =
      not_shorter x y h in
    (
      w,
      rw (w, grown)
          (extended (2 ^ width y) (2 ^ (width y - 1)) (2 ^ width x) (2 ^ (width x - 1)) (value y)
            (two_pow_half (width y) (width_pos y)) (two_pow_half (width x) (width_pos x)) half
            (value-lt y)),
    )

unfoldable pub vectors-Laws : Laws vectors
vectors-Laws = record {
  val = value;
  val-lt = value-lt;
  bw_pos = width_pos;
  zero_lem = λ w h. make-Holds w 0 h;
  eq_lem = λ x y. refl;
  not_lem = λ x. make-Holds (width x) (2 ^ width x - 1 - value x) (width_pos x);
  cin_sum_lem = λ x c l r e f. (
    _,
    both_widths x l r e f,
    record {
      sum = make-Holds (width l) (value l + value r + bit c) (width_pos l);
      unsigned = refl;
      signed_flag = refl;
    },
  );
  mul_add_lem = λ x l r e f.
      (_, both_widths x l r e f, make-Holds (width x) (value x + value l * value r) (width_pos x));
  arb_umul_add_lem = λ x l r. make-Holds (width x) (value x + value l * value r) (width_pos x);
  zero_resize_lem = λ x y. (make-Holds (width x) (value y) (width_pos x), refl);
  sign_resize_narrow = λ x y h. narrowed x y h;
  sign_resize_wide = λ x y h. widened x y h;
  shl_out = λ x s h. too_far x s _ h;
  shl_in = λ x s h. (_, in_reach x s h, make-Holds (width x) (value x * 2 ^ s) (width_pos x));
  lshr_out = λ x s h. too_far x s _ h;
  lshr_in = λ x s h. (_, in_reach x s h, make-Holds (width x) (value x / 2 ^ s) (width_pos x));
  ashr_in = λ x s h. (_, in_reach x s h, make-Holds (width x) (arithmetic x s) (width_pos x));
  udivide_lem = λ q r x y e f g h. (
    _,
    divisible x y g h,
    make-Holds (width x) (value x / value y) (width_pos x),
    make-Holds (width x) (value x % value y) (width_pos x),
  );
  is_zero_lem = λ x. refl;
  to_usize_lem = λ x. refl;
}
