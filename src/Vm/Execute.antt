-- ===== src/Vm/Execute.antt =====
-- The interface of Vm/Machine filled with the models of arithmetic and comparison.
use squirrel_gobject.Prelude.{ℕ, ◌==◌, if◌then◌else◌, Option, none, some, ◌+◌, ◌^◌, ◌-◌, ltb}
use squirrel_gobject.Prelude.Int.{ℤ}
use squirrel_gobject.Prelude.Outcome.{ok, err, ◌>>=◌}
use squirrel_gobject.Func.Instr.{Instr}
use squirrel_gobject.Vm.Machine.{Machine, Stepped, Ops, ArithOp, add, sub, mul, div}
use squirrel_gobject.Vm.Value.{
  Value, null, bool, integer, float, VmError, Checked, Floats, undefined_behaviour,
  bitwise_op_failed,
}
use squirrel_gobject.Vm.Arith.{
  Operator, plus, minus, times, modulo, arith_op, arith_nozero, bw_op, bw_and, bw_or, bw_xor,
  bw_shiftl, bw_shiftr, bw_ushiftr,
}
use squirrel_gobject.Vm.Compare.{cmp_g, cmp_ge, cmp_l, cmp_le, cmp_3w, cmp_op, is_equal, is_false}

-- (SQInteger)(SQInt32)arg1
abbrev pub sign_extend : ℕ → ℕ
sign_extend n = if ltb n (2 ^ 31) then n else n + (2 ^ 64 - 2 ^ 32)

-- What is behind the operations that are not modelled: literals, accesses, free variables.
pub record Rest (H : Type 0) : Type 0 where
  pub constants : ℕ → Value
  pub get : ℕ → Value → Value → H → Checked (Value × H)
  pub assign : ℕ → Value → Value → Value → H → Checked H
  pub create_slot : Value → Value → Value → H → Checked H
  pub append_to : Value → Value → H → H
  pub outer_value : ℕ → H → Value
  pub set_outer : ℕ → Value → H → H
  pub debug_hook : Option (ℕ → H → H)
  pub other : Instr → Machine Value H → Stepped Value H VmError

abbrev pub with_heap : {H : Type 0} → Checked Value → H → Checked (Value × H)
with_heap r h = do v ← r; ok (v, h)

-- `_OP_MOD` goes on where ARITH_OP fails.
abbrev pub if_any : Checked Value → Option Value
if_any (ok v) = some v
if_any _ = none

-- `BW_OP` by the number of `BitWiseOP`
abbrev pub bitwise_of : ℕ → Value → Value → Checked Value
bitwise_of op a b =
    if op == 0
    then bw_op bw_and a b
    else if op == 2
    then bw_op bw_or a b
    else if op == 3
    then bw_op bw_xor a b
    else if op == 4
    then bw_op bw_shiftl a b
    else if op == 5
    then bw_op bw_shiftr a b
    else if op == 6
    then bw_op bw_ushiftr a b
    else err bitwise_op_failed

module _ (fl : Floats) (fallback : Operator → Value → Value → Checked Value) where
  -- the arithmetic of `_OP_ADD`, `_OP_SUB`, `_OP_MUL` and `_OP_DIV`
  abbrev pub arith_of : ArithOp → Value → Value → Checked Value
  arith_of add a b = arith_op fl fallback plus a b
  arith_of sub a b = arith_op fl fallback minus a b
  arith_of mul a b = arith_op fl fallback times a b
  arith_of div a b = arith_nozero fl fallback a b

module _ (fl : Floats) (cmp_metamethod : Value → Value → Option (Checked ℤ)) where
  -- `CMP_OP` by the number of `CmpOP`
  abbrev pub compare_of : ℕ → Value → Value → Checked Value
  compare_of op a b =
      if op == 0
      then cmp_op fl cmp_metamethod cmp_g a b
      else if op == 2
      then cmp_op fl cmp_metamethod cmp_ge a b
      else if op == 3
      then cmp_op fl cmp_metamethod cmp_l a b
      else if op == 4
      then cmp_op fl cmp_metamethod cmp_le a b
      else if op == 5
      then cmp_op fl cmp_metamethod cmp_3w a b
      else err undefined_behaviour

module _ {H : Type 0} (fl : Floats) (fallback : Operator → Value → Value → Checked Value)
    (cmp_metamethod : Value → Value → Option (Checked ℤ)) where
  -- the operations of the virtual machine on values
  abbrev pub value_ops : Rest H → Ops Value H VmError
  value_ops r = record {
    literals = r.constants;
    null = null;
    integer = λ n. integer (sign_extend n);
    float = λ n. float n;
    bool = λ n. bool n;
    get = r.get;
    assign = r.assign;
    create_slot = r.create_slot;
    arith = λ op a b h. with_heap (arith_of fl fallback op a b) h;
    modulo = λ a b h. (if_any (arith_op fl fallback modulo a b), h);
    bitwise = bitwise_of;
    equal = is_equal fl;
    compare = λ op a b h. with_heap (compare_of fl cmp_metamethod op a b) h;
    is_false = is_false fl;
    append_to = r.append_to;
    outer_value = r.outer_value;
    set_outer = r.set_outer;
    debug_hook = r.debug_hook;
    other = r.other;
  }
