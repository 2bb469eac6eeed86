-- ===== src/ApInt/Bits.antt =====
-- The operations of the crate awint that apint.rs calls. A method that writes to its receiver takes
-- the old receiver and returns the new one; `none` is its refusal.
use pliron.Prelude.{ℕ, Bool, Option}

pub record Awint : Type 1 where
  pub Awi : Type 0
  pub bw : Awi → ℕ
  pub zero : (width : ℕ) → Awi
  pub is_zero : Awi → Bool
  pub msb : Awi → Bool
  pub eq : Awi → Awi → Bool
  pub add_ : Awi → Awi → Option Awi
  pub sub_ : Awi → Awi → Option Awi
  pub not_ : Awi → Awi
  -- The sum, and whether it overflows as unsigned and as signed.
  pub cin_sum_ : Awi → (cin : Bool) → Awi → Awi → Option (Awi × Bool × Bool)
  pub mul_add_ : Awi → Awi → Awi → Option Awi
  pub arb_umul_add_ : Awi → Awi → Awi → Awi
  pub arb_imul_add_ : Awi → Awi → Awi → Awi
  -- The resized value, and whether its meaning changed.
  pub zero_resize_ : Awi → Awi → Awi × Bool
  pub sign_resize_ : Awi → Awi → Awi × Bool
  pub shl_ : Awi → ℕ → Option Awi
  pub lshr_ : Awi → ℕ → Option Awi
  pub ashr_ : Awi → ℕ → Option Awi
  -- Quotient and remainder.
  pub udivide : Awi → Awi → Awi → Awi → Option (Awi × Awi)
  pub idivide : Awi → Awi → Awi → Awi → Option (Awi × Awi)
  pub and_ : Awi → Awi → Option Awi
  pub or_ : Awi → Awi → Option Awi
  pub xor_ : Awi → Awi → Option Awi
  pub ult : Awi → Awi → Option Bool
  pub ule : Awi → Awi → Option Bool
  pub ugt : Awi → Awi → Option Bool
  pub uge : Awi → Awi → Option Bool
  pub ilt : Awi → Awi → Option Bool
  pub ile : Awi → Awi → Option Bool
  pub igt : Awi → Awi → Option Bool
  pub ige : Awi → Awi → Option Bool
  pub umax : (width : ℕ) → Awi
  pub imax : (width : ℕ) → Awi
  pub imin : (width : ℕ) → Awi
  pub uone : (width : ℕ) → Awi
  pub to_usize : Awi → ℕ
  -- `u8_` to `u128_` and `i8_` to `i128_`, `to_u8` to `to_u128` and `to_i8` to `to_i128`.
  pub set_unsigned : (bits : ℕ) → Awi → (value : ℕ) → Awi
  pub set_signed : (bits : ℕ) → Awi → (value : ℕ) → Awi
  pub get_unsigned : (bits : ℕ) → Awi → ℕ
  pub get_signed : (bits : ℕ) → Awi → ℕ
