-- ===== src/Prelude/Int.antt =====
-- SQInteger as a mathematical integer; where the code wraps, the operation says so.
use Prim.Native.Nat.{ℕ, suc, ◌+◌, ◌-◌, ◌%◌, ◌^◌}
use mathlib.Core.Bool.{Bool, true, false}
use squirrel_gobject.Prelude.Tests.{leb, if◌then◌else◌}

-- `negsuc n` is -(n + 1).
pub data ℤ : Type 0 where
  pos : ℕ → ℤ
  negsuc : ℕ → ℤ

-- x < 0
abbrev pub is_neg : ℤ → Bool
is_neg (pos n) = false
is_neg (negsuc n) = true

-- The value of an integer that is known not to be negative.
abbrev pub nonneg : ℤ → ℕ
nonneg (pos n) = n
nonneg (negsuc n) = 0

abbrev pub neg_part : ℤ → ℕ
neg_part (pos n) = 0
neg_part (negsuc n) = suc n

-- n + z for a count n.
abbrev pub offset : ℕ → ℤ → ℤ
offset n (pos k) = pos (n + k)
offset n (negsuc k) = if leb (suc k) n then pos (n - suc k) else negsuc (k - n)

-- n in 64 bits
abbrev pub wrap : ℕ → ℕ
wrap n = n % 2 ^ 64
