-- ===== src/ApInt/Examples.antt =====
-- The theorems on integers at bytes and at a 128-bit shift amount.
use pliron.Prelude.{◌^◌, ◌≡◌, refl, sym, arith, Returns}
use pliron.ApInt.{ApInt, bw, sub_overflow, shl}
use pliron.ApInt.Instance.{vectors, vectors-Laws}
use pliron.ApInt.Overflow.{Difference, sub_overflow-Difference}
use pliron.ApInt.Shift.{Result, shl_wide}

-- The byte 200, or -56; the bytes 100, 9 and 2.
abbrev a200 : ApInt vectors
a200 = record { value = (7, 200) }

abbrev b100 : ApInt vectors
b100 = record { value = (7, 100) }

abbrev b9 : ApInt vectors
b9 = record { value = (7, 9) }

abbrev b2 : ApInt vectors
b2 = record { value = (7, 2) }

-- 5 and 2^64 in 128 bits.
abbrev wide5 : ApInt vectors
wide5 = record { value = (127, 5) }

abbrev wide_amount : ApInt vectors
wide_amount = record { value = (127, 2 ^ 64) }

same_width : bw vectors a200 ≡ bw vectors b100
unfolding bw
same_width = refl

same_width9 : bw vectors a200 ≡ bw vectors b9
unfolding bw
same_width9 = refl

sub_overflow-Difference_example :
    Returns (Difference vectors vectors-Laws b100 a200) (sub_overflow vectors b100 a200)
sub_overflow-Difference_example =
    sub_overflow-Difference vectors vectors-Laws b100 a200 (sym same_width)

shl_wide_example :
    Returns
      (Result vectors vectors-Laws wide5 (vectors-Laws.val (127, 5)))
      (shl vectors wide5 wide_amount)
unfolding vectors-Laws bw
shl_wide_example = shl_wide vectors vectors-Laws wide5 wide_amount refl refl (omega arith)
