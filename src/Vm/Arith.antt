-- ===== src/Vm/Arith.antt =====
-- Arithmetic on numbers: `BW_OP`, `ARITH_OP`, the macros `_ARITH_` and `_ARITH_NOZERO`, `NEG_OP`.
-- What is not a number is left to `fallback`: string concatenation and the metamethods.
use Prim.Native.Nat.{bit_and, bit_or, bit_xor}
use squirrel_gobject.Prelude.{
  ℕ, ◌+◌, ◌-◌, ◌*◌, ◌/◌, ◌%◌, ◌^◌, ltb, ◌==◌, if◌then◌else◌, Bool, true, false, ◌&&◌, not,
}
use squirrel_gobject.Prelude.Outcome.{ok, err, out_of_fuel}
use squirrel_gobject.Vm.Value.{
  Value, integer, float, Checked, Floats, wrap, negative, negate, magnitude, minus_one, int_min,
  integer_min, undefined_behaviour, division_by_zero, modulo_by_zero, integer_overflow,
  bitwise_types, negate_type,
}

-- `op` of `ARITH_OP`
pub data Operator : Type 0 where
  plus minus times over modulo : Operator

-- `BitWiseOP`
pub data BitwiseOp : Type 0 where
  bw_and bw_or bw_xor bw_shiftl bw_shiftr bw_ushiftr : BitwiseOp

-- the integer of a sign and an absolute value
abbrev pub with_sign : Bool → ℕ → ℕ
with_sign true n = negate n
with_sign false n = n

abbrev pub differ : Bool → Bool → Bool
differ true b = not b
differ false b = b

-- a / b in C++: towards zero
unfoldable pub quotient : ℕ → ℕ → ℕ
quotient a b = with_sign (differ (negative a) (negative b)) (magnitude a / magnitude b)

-- a % b in C++: with the sign of a
unfoldable pub remainder : ℕ → ℕ → ℕ
remainder a b = with_sign (negative a) (magnitude a % magnitude b)

-- The division of the processor: it has no result for the least integer by -1.
unfoldable pub divide : ℕ → ℕ → Checked ℕ
divide a b =
    if a == integer_min && (b == minus_one) then err undefined_behaviour else ok (quotient a b)

unfoldable pub modulus : ℕ → ℕ → Checked ℕ
modulus a b =
    if a == integer_min && (b == minus_one) then err undefined_behaviour else ok (remainder a b)

-- `ARITH_OP`, the case of two integers
unfoldable pub integer_op : Operator → ℕ → ℕ → Checked ℕ
integer_op plus a b = ok (wrap (a + b))
integer_op minus a b = ok (wrap (a + (2 ^ 64 - b)))
integer_op times a b = ok (wrap (a * b))
integer_op over a b =
    if b == 0
    then err division_by_zero
    else if b == minus_one && (a == int_min)
    then err integer_overflow
    else divide a b
integer_op modulo a b =
    if b == 0
    then err modulo_by_zero
    else if b == minus_one && (a == int_min)
    then ok 0
    else modulus a b

-- `_ARITH_NOZERO`, the case of two integers
unfoldable pub fast_over : ℕ → ℕ → Checked ℕ
fast_over a b = if b == 0 then err division_by_zero else divide a b

abbrev pub to_integer : Checked ℕ → Checked Value
to_integer (ok n) = ok (integer n)
to_integer (err e) = err e
to_integer out_of_fuel = out_of_fuel

module _ (fl : Floats) where
  -- `ARITH_OP`, the case of floats
  abbrev pub float_op : Operator → ℕ → ℕ → ℕ
  float_op plus a b = fl.plus a b
  float_op minus a b = fl.minus a b
  float_op times a b = fl.times a b
  float_op over a b = fl.over a b
  float_op modulo a b = fl.fmod a b

  module _ (fallback : Operator → Value → Value → Checked Value) where
    -- `ARITH_OP`
    unfoldable pub arith_op : Operator → Value → Value → Checked Value
    arith_op op (integer a) (integer b) = to_integer (integer_op op a b)
    arith_op op (integer a) (float b) = ok (float (float_op op (fl.of_integer a) b))
    arith_op op (float a) (integer b) = ok (float (float_op op a (fl.of_integer b)))
    arith_op op (float a) (float b) = ok (float (float_op op a b))
    arith_op op a b = fallback op a b

    -- `_ARITH_NOZERO`, of _OP_DIV
    unfoldable pub arith_nozero : Value → Value → Checked Value
    arith_nozero (integer a) (integer b) = to_integer (fast_over a b)
    arith_nozero a b = arith_op over a b

  -- `NEG_OP`, without metamethods
  abbrev pub neg_op : Value → Checked Value
  neg_op (integer a) = ok (integer (negate a))
  neg_op (float a) = ok (float (fl.negated a))
  neg_op a = err negate_type

-- a >> n
abbrev pub shift_right : ℕ → ℕ → ℕ
shift_right a n = if negative a then minus_one - (minus_one - a) / 2 ^ n else a / 2 ^ n

-- C++ has no shift by 64 places or more.
abbrev pub shifted : ℕ → ℕ → Checked ℕ
shifted n r = if ltb n 64 then ok r else err undefined_behaviour

unfoldable pub bitwise_op : BitwiseOp → ℕ → ℕ → Checked ℕ
bitwise_op bw_and a b = ok (bit_and a b)
bitwise_op bw_or a b = ok (bit_or a b)
bitwise_op bw_xor a b = ok (bit_xor a b)
bitwise_op bw_shiftl a b = shifted b (wrap (a * 2 ^ b))
bitwise_op bw_shiftr a b = shifted b (shift_right a b)
bitwise_op bw_ushiftr a b = shifted b (a / 2 ^ b)

-- `BW_OP`
abbrev pub bw_op : BitwiseOp → Value → Value → Checked Value
bw_op op (integer a) (integer b) = to_integer (bitwise_op op a b)
bw_op op a b = err bitwise_types
