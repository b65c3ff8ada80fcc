-- ===== src/Vm/Value.antt =====
-- Values as far as arithmetic and comparison look at them: sqobject.h and squirrel.h.
use squirrel_gobject.Prelude.{ℕ, ◌+◌, ◌-◌, ◌^◌, ltb, if◌then◌else◌, Bool, not, List}
pub use squirrel_gobject.Prelude.Int.{wrap}
use squirrel_gobject.Prelude.Outcome.{Outcome}

-- the types behind a pointer
pub data Kind : Type 0 where
  table array userdata closure native_closure generator : Kind
  userpointer thread funcproto class instance weakref outer : Kind

-- the code of a type, for comparisons of two types
abbrev pub kind_number : Kind → ℕ
kind_number table = 0
kind_number array = 1
kind_number userdata = 2
kind_number closure = 3
kind_number native_closure = 4
kind_number generator = 5
kind_number userpointer = 6
kind_number thread = 7
kind_number funcproto = 8
kind_number class = 9
kind_number instance = 10
kind_number weakref = 11
kind_number outer = 12

-- `SQObject`: an integer is its 64 bits, a float its 32 bits, an object its address. A string is
-- given by its bytes: strings are interned, so that the same bytes are the same address.
pub data Value : Type 0 where
  null : Value
  bool integer float : ℕ → Value
  string : List ℕ → Value
  object : Kind → ℕ → Value

pub data VmError : Type 0 where
  division_by_zero modulo_by_zero integer_overflow : VmError
  bitwise_types compare_types negate_type arith_types bitwise_op_failed : VmError
  -- C++ does not say what the operation does.
  undefined_behaviour : VmError

abbrev pub Checked {ℓ} : Type ℓ → Type ℓ
Checked = Outcome VmError

-- The arithmetic of `SQFloat` on the bits of a number: that of the processor.
pub record Floats : Type 0 where
  pub plus : ℕ → ℕ → ℕ
  pub minus : ℕ → ℕ → ℕ
  pub times : ℕ → ℕ → ℕ
  pub over : ℕ → ℕ → ℕ
  pub fmod : ℕ → ℕ → ℕ
  pub negated : ℕ → ℕ
  pub less : ℕ → ℕ → Bool
  pub equal : ℕ → ℕ → Bool
  pub of_integer : ℕ → ℕ

-- whether an integer's bits are those of a negative number
abbrev pub negative : ℕ → Bool
negative a = not (ltb a (2 ^ 63))

-- -a
abbrev pub negate : ℕ → ℕ
negate a = wrap (2 ^ 64 - a)

-- the absolute value
abbrev pub magnitude : ℕ → ℕ
magnitude a = if negative a then 2 ^ 64 - a else a

-- a < b
unfoldable pub integer_less : ℕ → ℕ → Bool
integer_less a b = ltb (wrap (a + 2 ^ 63)) (wrap (b + 2 ^ 63))

-- the bits of -1
abbrev pub minus_one : ℕ
minus_one = 2 ^ 64 - 1

-- `INT_MIN`, the 32-bit constant, as an SQInteger
abbrev pub int_min : ℕ
int_min = 2 ^ 64 - 2 ^ 31

-- the least SQInteger
abbrev pub integer_min : ℕ
integer_min = 2 ^ 63
