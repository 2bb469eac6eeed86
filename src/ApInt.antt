-- ===== src/ApInt.antt =====
-- src/utils/apint.rs: integers of any width, as a layer over the bit vectors of the crate awint.
-- `none` is a panic.
pub mod Bits
pub mod Laws
pub mod Overflow
pub mod Shift
pub mod Resize
mod Instance
mod Examples
use pliron.Prelude.{
  ℕ, ◌*◌, ◌-◌, Bool, true, false, not, Option, none, some, ◌==◌, ltb, leb, if◌then◌else◌, ◌>>=◌,
  ◌>>◌, assert,
}
use Prim.Native.Nat.{min}
use Bits.{Awint}

module _ (lib : Awint) where
  open lib use {Awi}

  pub record ApInt : Type 0 where
    pub value : Awi

  abbrev pub ap : Awi → ApInt
  ap v = record { value = v }

  unfoldable pub bw : ApInt → ℕ
  bw a = lib.bw a.value

  unfoldable pub zero : ℕ → ApInt
  zero width = ap (lib.zero width)

  unfoldable pub is_zero : ApInt → Bool
  is_zero a = lib.is_zero a.value

  unfoldable pub is_negative : ApInt → Bool
  is_negative a = lib.msb a.value

  -- `assert_eq!(self.bw(), rhs.bw())`
  abbrev pub same_width : ApInt → ApInt → Option (Unit {0})
  same_width a b = assert (lib.bw a.value == lib.bw b.value)

  unfoldable pub add : ApInt → ApInt → Option ApInt
  add a b = do same_width a b; v ← lib.add_ a.value b.value; some (ap v)

  unfoldable pub add_overflow : ApInt → ApInt → Option (ApInt × Bool × Bool)
  add_overflow a b = do
    same_width a b
    (v, u, s) ← lib.cin_sum_ (lib.zero (lib.bw a.value)) false a.value b.value
    some (ap v, u, s)

  unfoldable pub sub : ApInt → ApInt → Option ApInt
  sub a b = do same_width a b; v ← lib.sub_ a.value b.value; some (ap v)

  unfoldable pub sub_overflow : ApInt → ApInt → Option (ApInt × Bool × Bool)
  sub_overflow a b = do
    same_width a b
    let not_rhs = lib.not_ b.value
    (v, carry_out, s) ← lib.cin_sum_ (lib.zero (lib.bw a.value)) true a.value not_rhs
    some (ap v, not carry_out, s)

  unfoldable pub mul : ApInt → ApInt → Option ApInt
  mul a b = do
    same_width a b
    v ← lib.mul_add_ (lib.zero (lib.bw a.value)) a.value b.value
    some (ap v)

  unfoldable pub mul_overflow : ApInt → ApInt → Option (ApInt × Bool × Bool)
  mul_overflow a b = do
    same_width a b
    let width = lib.bw a.value
    let double = lib.zero (width * 2)
    let uprod =
        lib.arb_umul_add_ double (lib.zero_resize_ double a.value).0
          (lib.zero_resize_ double b.value).0
    let unsigned_overflow = (lib.zero_resize_ (lib.zero width) uprod).1
    let sprod =
        lib.arb_imul_add_ double (lib.sign_resize_ double a.value).0
          (lib.sign_resize_ double b.value).0
    let signed_overflow = (lib.sign_resize_ (lib.zero width) sprod).1
    v ← mul a b
    some (v, unsigned_overflow, signed_overflow)

  -- The result of a shift, which is zero where the library refuses the shift amount.
  abbrev pub or_zero : Awi → Option Awi → ApInt
  or_zero v none = ap (lib.zero (lib.bw v))
  or_zero v (some r) = ap r

  unfoldable pub shl : ApInt → ApInt → Option ApInt
  shl a b = do same_width a b; some (or_zero a.value (lib.shl_ a.value (lib.to_usize b.value)))

  unfoldable pub lshr : ApInt → ApInt → Option ApInt
  lshr a b = do same_width a b; some (or_zero a.value (lib.lshr_ a.value (lib.to_usize b.value)))

  unfoldable pub ashr : ApInt → ApInt → Option ApInt
  ashr a b = do
    same_width a b
    v ← lib.ashr_ a.value (min (lib.to_usize b.value) (lib.bw a.value - 1))
    some (ap v)

  unfoldable pub sext : ApInt → (width : ℕ) → ApInt
  sext a width = ap (lib.sign_resize_ (lib.zero width) a.value).0

  unfoldable pub zext : ApInt → (width : ℕ) → ApInt
  zext a width = ap (lib.zero_resize_ (lib.zero width) a.value).0

  unfoldable pub trunc : ApInt → (width : ℕ) → Option ApInt
  unfolding zext
  trunc a width = do assert (leb width (lib.bw a.value)); some (zext a width)

  unfoldable pub shl_overflow : ApInt → ApInt → Option (ApInt × Bool × Bool)
  shl_overflow a b = do
    same_width a b
    let shamt = lib.to_usize b.value
    assert (ltb shamt (lib.bw a.value))
    result ← shl a b
    u ← lib.lshr_ result.value shamt
    s ← lib.ashr_ result.value shamt
    some (result, not (lib.eq u a.value), not (lib.eq s a.value))

  unfoldable pub udiv : ApInt → ApInt → Option ApInt
  udiv a b = do
    same_width a b
    assert (not (is_zero b))
    (quo, rem) ← lib.udivide (lib.zero (lib.bw a.value)) (lib.zero (lib.bw a.value)) a.value b.value
    some (ap quo)

  unfoldable pub sdiv : ApInt → ApInt → Option ApInt
  sdiv a b = do
    same_width a b
    assert (not (is_zero b))
    (quo, rem) ← lib.idivide (lib.zero (lib.bw a.value)) (lib.zero (lib.bw a.value)) a.value b.value
    some (ap quo)

  unfoldable pub urem : ApInt → ApInt → Option ApInt
  urem a b = do
    same_width a b
    assert (not (is_zero b))
    (quo, rem) ← lib.udivide (lib.zero (lib.bw a.value)) (lib.zero (lib.bw a.value)) a.value b.value
    some (ap rem)

  unfoldable pub srem : ApInt → ApInt → Option ApInt
  srem a b = do
    same_width a b
    assert (not (is_zero b))
    (quo, rem) ← lib.idivide (lib.zero (lib.bw a.value)) (lib.zero (lib.bw a.value)) a.value b.value
    some (ap rem)

  unfoldable pub bit_and : ApInt → ApInt → Option ApInt
  bit_and a b = do v ← lib.and_ a.value b.value; some (ap v)

  unfoldable pub bit_or : ApInt → ApInt → Option ApInt
  bit_or a b = do v ← lib.or_ a.value b.value; some (ap v)

  unfoldable pub bit_xor : ApInt → ApInt → Option ApInt
  bit_xor a b = do v ← lib.xor_ a.value b.value; some (ap v)

  unfoldable pub ult : ApInt → ApInt → Option Bool
  ult a b = do same_width a b; lib.ult a.value b.value

  unfoldable pub ule : ApInt → ApInt → Option Bool
  ule a b = do same_width a b; lib.ule a.value b.value

  unfoldable pub ugt : ApInt → ApInt → Option Bool
  ugt a b = do same_width a b; lib.ugt a.value b.value

  unfoldable pub uge : ApInt → ApInt → Option Bool
  uge a b = do same_width a b; lib.uge a.value b.value

  unfoldable pub slt : ApInt → ApInt → Option Bool
  slt a b = do same_width a b; lib.ilt a.value b.value

  unfoldable pub sle : ApInt → ApInt → Option Bool
  sle a b = do same_width a b; lib.ile a.value b.value

  unfoldable pub sgt : ApInt → ApInt → Option Bool
  sgt a b = do same_width a b; lib.igt a.value b.value

  unfoldable pub sge : ApInt → ApInt → Option Bool
  sge a b = do same_width a b; lib.ige a.value b.value

  unfoldable pub umax : ℕ → ApInt
  umax width = ap (lib.umax width)

  unfoldable pub imax : ℕ → ApInt
  imax width = ap (lib.imax width)

  unfoldable pub imin : ℕ → ApInt
  imin width = ap (lib.imin width)

  unfoldable pub uone : ℕ → ApInt
  uone width = ap (lib.uone width)

  unfoldable pub to_usize : ApInt → ℕ
  to_usize a = lib.to_usize a.value

  -- A primitive number `value` of `bits` bits, given by its bit pattern: `from_u8` to `from_u128`
  -- and `from_usize` hand it to the library's `u8_` to `u128_`, which all zero-extend or truncate.
  unfoldable pub from_unsigned : (bits value width : ℕ) → ApInt
  from_unsigned bits value width = ap (lib.set_unsigned bits (lib.zero width) value)

  -- `from_i8` to `from_i128`, over the library's `i8_` to `i128_`, which sign-extend or truncate.
  unfoldable pub from_signed : (bits value width : ℕ) → ApInt
  from_signed bits value width = ap (lib.set_signed bits (lib.zero width) value)

  -- `to_u8` to `to_u128`.
  unfoldable pub to_unsigned : (bits : ℕ) → ApInt → ℕ
  to_unsigned bits a = lib.get_unsigned bits a.value

  -- `to_i8` to `to_i128`, as bit patterns.
  unfoldable pub to_signed : (bits : ℕ) → ApInt → ℕ
  to_signed bits a = lib.get_signed bits a.value
