-- ===== src/Vm/Machine.antt =====
-- The loop of `SQVM::Execute` for code that stays in its frame: loads, moves, arithmetic,
-- comparisons, accesses and jumps. What is behind them (`Get`, `Set`, the literals, ...) is the
-- record `Ops`, over the values `V`, the rest of the machine `H` and the errors `E`.
use squirrel_gobject.Prelude.{
  ℕ, zero, suc, ◌+◌, ◌^◌, ◌==◌, leb, if◌then◌else◌, Bool, true, not, Option, none, some, List, [],
  ◌∷◌,
}
use squirrel_gobject.Prelude.Outcome.{Outcome, ok, ◌>>=◌}
use squirrel_gobject.Func.Instr.{
  Opcode, Instr, op_line, op_load, op_loadint, op_loadfloat, op_dload, op_prepcall, op_prepcallk,
  op_getk, op_move, op_newslot, op_set, op_get, op_eq, op_ne, op_add, op_sub, op_mul, op_div,
  op_mod, op_bitw, op_loadnulls, op_loadbool, op_dmove, op_jmp, op_jcmp, op_jz, op_setouter,
  op_getouter, op_appendarray, op_cmp, aat_stack, aat_literal, aat_int, aat_float, aat_bool,
}

-- The registers from `_stackbase` on, `STK(a)`, and everything else.
pub record Machine (V H : Type 0) : Type 0 where
  pub regs : ℕ → V
  pub heap : H

-- What an instruction leaves: the machine, and the 32 bits by which `_ip` moves, if it does.
abbrev pub Stepped : Type 0 → Type 0 → Type 0 → Type 0
Stepped V H E = Outcome E (Machine V H × Option ℕ)

pub data ArithOp : Type 0 where
  add sub mul div : ArithOp

-- The operations on values, and the debug hook, where one is set: what it does by the number of
-- a line to all but the registers of the frame. `modulo` has no value where ARITH_OP fails, since the case of _OP_MOD
-- goes on in spite of it. `equal` is `IsEqual`, `get` is `Get` with the register of its object, and
-- `other` the instructions that the model leaves out.
pub record Ops (V H E : Type 0) : Type 0 where
  pub literals : ℕ → V
  pub null : V
  pub integer : ℕ → V
  pub float : ℕ → V
  pub bool : ℕ → V
  pub get : ℕ → V → V → H → Outcome E (V × H)
  pub assign : ℕ → V → V → V → H → Outcome E H
  pub create_slot : V → V → V → H → Outcome E H
  pub arith : ArithOp → V → V → H → Outcome E (V × H)
  pub modulo : V → V → H → Option V × H
  pub bitwise : ℕ → V → V → Outcome E V
  pub equal : V → V → Bool
  pub compare : ℕ → V → V → H → Outcome E (V × H)
  pub is_false : V → Bool
  pub append_to : V → V → H → H
  pub outer_value : ℕ → H → V
  pub set_outer : ℕ → V → H → H
  pub debug_hook : Option (ℕ → H → H)
  pub other : Instr → Machine V H → Stepped V H E

module _ {V : Type 0} where
  -- `STK(a) = v`
  abbrev pub store : (ℕ → V) → ℕ → V → ℕ → V
  store regs a v j = if j == a then v else regs j

  -- _OP_LOADNULLS
  abbrev pub load_nulls : V → ℕ → ℕ → (ℕ → V) → ℕ → V
  load_nulls v a zero regs = regs
  load_nulls v a (suc n) regs = store (load_nulls v a n regs) (a + n) v

-- `if (_debughook) CallDebugHook(...)`
abbrev pub call_debug_hook : {H : Type 0} → Option (ℕ → H → H) → ℕ → H → H
call_debug_hook none line h = h
call_debug_hook (some hook) line h = hook line h

module _ {V H E : Type 0} where
  -- `TARGET = v`, then the next instruction
  abbrev pub to_target : Instr → Machine V H → V × H → Stepped V H E
  to_target i m (v, h) = ok (record { regs = store m.regs i.arg0 v; heap = h }, none)

  -- TARGET keeps its value where there is none.
  abbrev pub modulo_target : Instr → Machine V H → Option V × H → Stepped V H E
  modulo_target i m (some v, h) = to_target i m (v, h)
  modulo_target i m (none, h) = ok (record m { heap = h }, none)

  -- `if(arg0 != 0xFF) TARGET = v`
  abbrev pub to_optional_target : Instr → Machine V H → V → H → Stepped V H E
  to_optional_target i m v h =
      if i.arg0 == 255 then ok (record m { heap = h }, none) else to_target i m (v, h)

  abbrev pub jump_if : Bool → ℕ → Machine V H → Stepped V H E
  jump_if b offset m = ok (m, if b then some offset else none)

  -- What runs behind an instruction, unless it has moved `_ip`.
  abbrev pub unless_jump : (Machine V H → Stepped V H E) → Machine V H × Option ℕ → Stepped V H E
  unless_jump next (m, none) = next m
  unless_jump next (m, some offset) = ok (m, some offset)

module _ {V H E : Type 0} (o : Ops V H E) where
  abbrev pub bool_of : Bool → V
  bool_of b = o.bool (if b then 1 else 0)

  -- `COND_LITERAL`
  abbrev pub cond_literal : Instr → Machine V H → V
  cond_literal i m = if i.arg3 == 0 then m.regs i.arg1 else o.literals i.arg1

  -- _OP_PREPCALL and _OP_PREPCALLK, behind the choice of the key
  abbrev pub prepare_call : Instr → Machine V H → V → Stepped V H E
  prepare_call i m key = do
    r ← o.get i.arg2 (m.regs i.arg2) key m.heap
    to_target i (record m { regs = store m.regs i.arg3 (m.regs i.arg2) }) r

  abbrev pub arith_target : ArithOp → Instr → Machine V H → Stepped V H E
  arith_target a i m = do r ← o.arith a (m.regs i.arg2) (m.regs i.arg1) m.heap; to_target i m r

  -- the value of _OP_APPENDARRAY, by `arg2`
  abbrev pub append_value : Instr → Machine V H → ℕ → V
  append_value i m aat =
      if aat == aat_stack
      then m.regs i.arg1
      else if aat == aat_literal
      then o.literals i.arg1
      else if aat == aat_int
      then o.integer i.arg1
      else if aat == aat_float
      then o.float i.arg1
      else if aat == aat_bool
      then o.bool i.arg1
      else o.integer 0

  -- the switch of `Execute`
  unfoldable pub step_on : Opcode → Instr → Machine V H → Stepped V H E
  step_on op_line i m = ok (record m { heap = call_debug_hook o.debug_hook i.arg1 m.heap }, none)
  step_on op_load i m = to_target i m (o.literals i.arg1, m.heap)
  step_on op_loadint i m = to_target i m (o.integer i.arg1, m.heap)
  step_on op_loadfloat i m = to_target i m (o.float i.arg1, m.heap)
  step_on op_dload i m =
      let regs = store m.regs i.arg0 (o.literals i.arg1) in
      ok (record m { regs = store regs i.arg2 (o.literals i.arg3) }, none)
  step_on op_prepcall i m = prepare_call i m (m.regs i.arg1)
  step_on op_prepcallk i m = prepare_call i m (o.literals i.arg1)
  step_on op_getk i m = do
    r ← o.get i.arg2 (m.regs i.arg2) (o.literals i.arg1) m.heap
    to_target i m r
  step_on op_move i m = to_target i m (m.regs i.arg1, m.heap)
  step_on op_newslot i m = do
    h ← o.create_slot (m.regs i.arg1) (m.regs i.arg2) (m.regs i.arg3) m.heap
    to_optional_target i m (m.regs i.arg3) h
  step_on op_set i m = do
    h ← o.assign i.arg1 (m.regs i.arg1) (m.regs i.arg2) (m.regs i.arg3) m.heap
    to_optional_target i m (m.regs i.arg3) h
  step_on op_get i m = do r ← o.get i.arg1 (m.regs i.arg1) (m.regs i.arg2) m.heap; to_target i m r
  step_on op_eq i m = to_target i m (bool_of (o.equal (m.regs i.arg2) (cond_literal i m)), m.heap)
  step_on op_ne i m =
      to_target i m (bool_of (not (o.equal (m.regs i.arg2) (cond_literal i m))), m.heap)
  step_on op_add i m = arith_target add i m
  step_on op_sub i m = arith_target sub i m
  step_on op_mul i m = arith_target mul i m
  step_on op_div i m = arith_target div i m
  step_on op_mod i m = modulo_target i m (o.modulo (m.regs i.arg2) (m.regs i.arg1) m.heap)
  step_on op_bitw i m = do
    v ← o.bitwise i.arg3 (m.regs i.arg2) (m.regs i.arg1)
    to_target i m (v, m.heap)
  step_on op_loadnulls i m =
      let n = if leb (2 ^ 31) i.arg1 then 0 else i.arg1 in
      ok (record m { regs = load_nulls o.null i.arg0 n m.regs }, none)
  step_on op_loadbool i m = to_target i m (bool_of (not (i.arg1 == 0)), m.heap)
  step_on op_dmove i m =
      let regs = store m.regs i.arg0 (m.regs i.arg1) in
      ok (record m { regs = store regs i.arg2 (regs i.arg3) }, none)
  step_on op_jmp i m = jump_if true i.arg1 m
  step_on op_jcmp i m = do
    (v, h) ← o.compare i.arg3 (m.regs i.arg2) (m.regs i.arg0) m.heap
    jump_if (o.is_false v) i.arg1 (record m { heap = h })
  step_on op_jz i m = jump_if (o.is_false (m.regs i.arg0)) i.arg1 m
  step_on op_getouter i m = to_target i m (o.outer_value i.arg1 m.heap, m.heap)
  step_on op_setouter i m =
      to_optional_target i m (m.regs i.arg2) (o.set_outer i.arg1 (m.regs i.arg2) m.heap)
  step_on op_appendarray i m =
      ok (record m { heap = o.append_to (m.regs i.arg0) (append_value i m i.arg2) m.heap }, none)
  step_on op_cmp i m = do
    r ← o.compare i.arg3 (m.regs i.arg2) (m.regs i.arg1) m.heap
    to_target i m r
  step_on _ i m = o.other i m

  unfoldable pub step : Instr → Machine V H → Stepped V H E
  step i m = step_on i.op i m

  -- A piece of code up to its end or the first jump.
  unfoldable pub run : List Instr → Machine V H → Stepped V H E
  run [] m = ok (m, none)
  run (i ∷ code) m = step i m >>= unless_jump (run code)
