-- ===== src/Table/Slot.antt =====
-- `HashObj(key) & (_numofnodes - 1)`: the main position of a key.
use squirrel_gobject.Prelude.{ℕ, zero, suc, ◌-◌, ◌/◌, ◌≤◌, ◌<◌, min, arith}
use Prim.Native.Nat.{bit_and, digits, bit_and-bitwise}

unfoldable pub slot : ℕ → ℕ → ℕ
slot hash n = bit_and hash (n - 1)

and_bits-le : (n a b : ℕ) → digits (λ _. zero) min n a b ≤ b
and_bits-le zero a b = omega arith
and_bits-le (suc n) zero b = omega arith
and_bits-le (suc n) (suc a) b = omega (arith, and_bits-le n (suc a / 2) (b / 2))

-- A main position is an index of a node.
pub slot-lt : (hash n : ℕ) → 0 < n → slot hash n < n
unfolding slot
slot-lt hash n h = omega (arith, bit_and-bitwise hash (n - 1), and_bits-le hash hash (n - 1))
