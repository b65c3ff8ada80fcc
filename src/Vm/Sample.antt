-- ===== src/Vm/Sample.antt =====
-- A small machine to try the model of the virtual machine on.
use squirrel_gobject.Prelude.{Option, ◌==◌, ltb, ◌+◌, ◌-◌, none, List, [], ◌∷◌}
use squirrel_gobject.Prelude.Int.{ℤ}
use squirrel_gobject.Prelude.Outcome.{ok, err}
use squirrel_gobject.Vm.Machine.{Machine, Ops}
use squirrel_gobject.Vm.Value.{Value, null, integer, VmError, Checked, Floats, arith_types}
use squirrel_gobject.Vm.Arith.{Operator}
use squirrel_gobject.Vm.Execute.{Rest, value_ops}

-- floats as whole numbers
abbrev pub whole_floats : Floats
whole_floats = record {
  plus = λ a b. a + b;
  minus = λ a b. a - b;
  times = λ a b. a;
  over = λ a b. a;
  fmod = λ a b. a;
  negated = λ a. a;
  less = λ a b. ltb a b;
  equal = λ a b. a == b;
  of_integer = λ a. a;
}

abbrev pub no_concatenation : Operator → Value → Value → Checked Value
no_concatenation op a b = err arith_types

abbrev pub no_metamethod : Value → Value → Option (Checked ℤ)
no_metamethod a b = none

-- a heap of the values that were appended
abbrev pub small_rest : Rest (List Value)
small_rest = record {
  constants = λ n. integer (n + 100);
  get = λ r a k h. ok (k, h);
  assign = λ r a k v h. ok (v ∷ h);
  create_slot = λ a k v h. ok (v ∷ h);
  append_to = λ a v h. v ∷ h;
  outer_value = λ n h. null;
  set_outer = λ n v h. v ∷ h;
  debug_hook = none;
  other = λ i m. ok (m, none);
}

abbrev pub small_ops : Ops Value (List Value) VmError
small_ops = value_ops whole_floats no_concatenation no_metamethod small_rest

abbrev pub blank : Machine Value (List Value)
blank = record { regs = λ j. null; heap = [] }
