-- ===== src/Sccp/Lattice.antt =====
-- The order of what is known of a value, and its meet.
use pliron.Prelude.{◌≡◌, true, ◌&&◌, arith}
use pliron.Sccp.{Constness, leq, meet}

pub leq_refl : (a : Constness) → leq a a ≡ true
unfolding leq
leq_refl a = grind arith

pub leq_trans : (a b c : Constness) → leq a b ≡ true → leq b c ≡ true → leq a c ≡ true
unfolding leq
leq_trans a b c p q = grind arith

pub leq_antisym : (a b : Constness) → leq a b ≡ true → leq b a ≡ true → a ≡ b
unfolding leq
leq_antisym a b p q = grind arith

-- meet is the greatest lower bound in the order: c is below the meet of a and b exactly if it is
-- below both.
leq-meet : (a b c : Constness) → leq c (meet a b) ≡ (leq c a && leq c b)
unfolding leq meet
leq-meet a b c = grind arith

pub meet-leq : (a b : Constness) → leq (meet a b) a ≡ true
unfolding leq meet
meet-leq a b = grind arith

-- A meet that is not below what was known leaves it.
pub meet-same : (a b : Constness) → leq a (meet a b) ≡ true → meet a b ≡ a
meet-same a b h = leq_antisym (meet a b) a (meet-leq a b) h
