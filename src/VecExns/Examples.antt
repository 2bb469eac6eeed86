-- ===== src/VecExns/Examples.antt =====
-- The theorems on vectors at small vectors.
use pliron.Prelude.{ℕ, List, [], ◌∷◌}

abbrev two_items : List ℕ
two_items = 9 ∷ 8 ∷ []

abbrev repeated : List ℕ
repeated = 3 ∷ 1 ∷ 3 ∷ []
