-- ===== src/Func/Emit.antt =====
-- The emission of code with its optimiser: `AddInstruction`, `DiscardTarget`, `AddLineInfos` and
-- the assignments to an instruction that stands already.
use squirrel_gobject.Prelude.{
  ℕ, ◌+◌, ◌-◌, ltb, ◌==◌, if◌then◌else◌, Bool, true, false, not, ◌&&◌, ◌||◌, Option, none, some,
  List, [], ◌∷◌, ◌++◌, length,
}
use squirrel_gobject.Func.Instr.{
  Opcode, Instr, op_line, op_load, op_loadint, op_loadfloat, op_dload, op_tailcall, op_call,
  op_prepcall, op_prepcallk, op_getk, op_move, op_newslot, op_set, op_get, op_eq, op_ne, op_add,
  op_sub, op_mul, op_div, op_mod, op_bitw, op_return, op_loadnulls, op_loadbool, op_dmove, op_jcmp,
  op_jz, op_setouter, op_appendarray, op_cmp, op_close, byte, word, instruction, max_func_stacksize,
  signed_below, aat_literal, aat_int, aat_float, aat_bool,
}
use squirrel_gobject.Func.State.{FuncState, LineInfo, without_last, back, is_local}
use squirrel_gobject.Func.Targets.{pop_target}

-- What becomes of the previous instruction and of a new one.
pub data Emitted : Type 0 where
  -- one instruction in place of both
  replaced : Instr → Emitted
  -- one instruction, which the next one is not to be joined with
  moved : Instr → Emitted
  added : Instr → Instr → Emitted
  -- the previous instruction and its line go
  line_again : Emitted

-- One function for each case of the switch: the previous instruction's code, the previous
-- instruction `pi` and the new one `i`.
abbrev pub on_jz : Opcode → Instr → Instr → Emitted
on_jz op_cmp pi i =
    if signed_below pi.arg1 255
    then replaced (record pi { op = op_jcmp; arg0 = byte pi.arg1; arg1 = i.arg1 })
    else added pi i
on_jz _ pi i = added pi i

abbrev pub no_target : Instr → Instr
no_target i = record i { arg0 = 255 }

abbrev pub on_set : Instr → Instr → Emitted
on_set pi i = added pi (if i.arg0 == i.arg3 then no_target i else i)

abbrev pub on_setouter : Instr → Instr → Emitted
on_setouter pi i = added pi (if i.arg0 == i.arg2 then no_target i else i)

-- `_returnexp < size - 1`
abbrev pub behind_returnexp : FuncState → Bool
behind_returnexp s = elim s.returnexp [ none ↦ true | some n ↦ ltb n (length s.instructions - 1) ]

abbrev pub is_tailcall : FuncState → Instr → Bool
is_tailcall s i = s.has_parent && (not (i.arg0 == max_func_stacksize) && behind_returnexp s)

abbrev pub on_return : FuncState → Opcode → Instr → Instr → Emitted
on_return s op_call pi i = added (if is_tailcall s i then record pi { op = op_tailcall } else pi) i
on_return s op_close pi i = replaced i
on_return s _ pi i = added pi i

-- `pi._arg0 == a && (!IsLocal(pi._arg0))`
abbrev pub loads_temporary : FuncState → Instr → ℕ → Bool
loads_temporary s pi a = pi.arg0 == a && not (is_local s pi.arg0)

abbrev pub on_get : FuncState → Opcode → Instr → Instr → Emitted
on_get s op_load pi i =
    if loads_temporary s pi i.arg2
    then replaced (record pi { op = op_getk; arg0 = i.arg0; arg2 = byte i.arg1 })
    else added pi i
on_get s _ pi i = added pi i

abbrev pub on_prepcall : FuncState → Opcode → Instr → Instr → Emitted
on_prepcall s op_load pi i =
    if loads_temporary s pi i.arg1
    then replaced (record pi { op = op_prepcallk; arg0 = i.arg0; arg2 = i.arg2; arg3 = i.arg3 })
    else added pi i
on_prepcall s _ pi i = added pi i

-- `aat`: none for -1
abbrev pub append_type : Opcode → Option ℕ
append_type op_load = some aat_literal
append_type op_loadint = some aat_int
append_type op_loadbool = some aat_bool
append_type op_loadfloat = some aat_float
append_type _ = none

abbrev pub appended : FuncState → Option ℕ → Instr → Instr → Emitted
appended s (some aat) pi i =
    if loads_temporary s pi i.arg1
    then replaced (record pi {
      op = op_appendarray;
      arg0 = i.arg0;
      arg2 = byte aat;
      arg3 = max_func_stacksize;
    })
    else added pi i
appended s none pi i = added pi i

abbrev pub on_appendarray : FuncState → Opcode → Instr → Instr → Emitted
on_appendarray s op pi i = appended s (append_type op) pi i

-- the inner switch of the case of _OP_MOVE
abbrev pub computes_target : Opcode → Bool
computes_target op_get = true
computes_target op_add = true
computes_target op_sub = true
computes_target op_mul = true
computes_target op_div = true
computes_target op_mod = true
computes_target op_bitw = true
computes_target op_loadint = true
computes_target op_loadfloat = true
computes_target op_loadbool = true
computes_target op_load = true
computes_target _ = false

abbrev pub move_again : Opcode → Instr → Instr → Emitted
move_again op_move pi i = replaced (record pi { op = op_dmove; arg2 = i.arg0; arg3 = byte i.arg1 })
move_again _ pi i = added pi i

abbrev pub on_move : Opcode → Instr → Instr → Emitted
on_move op pi i =
    if computes_target op && (pi.arg0 == i.arg1)
    then moved (record pi { arg0 = i.arg0 })
    else move_again op pi i

abbrev pub on_load : Opcode → Instr → Instr → Emitted
on_load op_load pi i =
    if signed_below i.arg1 256
    then replaced (record pi { op = op_dload; arg2 = i.arg0; arg3 = byte i.arg1 })
    else added pi i
on_load _ pi i = added pi i

abbrev pub on_equal : FuncState → Opcode → Instr → Instr → Emitted
on_equal s op_load pi i =
    if loads_temporary s pi i.arg1
    then replaced (record pi { op = i.op; arg0 = i.arg0; arg2 = i.arg2; arg3 = max_func_stacksize })
    else added pi i
on_equal s _ pi i = added pi i

abbrev pub on_loadnulls : Opcode → Instr → Instr → Emitted
on_loadnulls op_loadnulls pi i =
    if word (pi.arg0 + pi.arg1) == i.arg0
    then replaced (record pi { arg1 = word (pi.arg1 + 1) })
    else added pi i
on_loadnulls _ pi i = added pi i

abbrev pub on_line : Opcode → Instr → Instr → Emitted
on_line op_line pi i = line_again
on_line _ pi i = added pi i

-- the switch of `AddInstruction`, by the new instruction's code
unfoldable pub rewrite : Opcode → FuncState → Instr → Instr → Emitted
rewrite op_jz s pi i = on_jz pi.op pi i
rewrite op_set s pi i = on_set pi i
rewrite op_newslot s pi i = on_set pi i
rewrite op_setouter s pi i = on_setouter pi i
rewrite op_return s pi i = on_return s pi.op pi i
rewrite op_get s pi i = on_get s pi.op pi i
rewrite op_prepcall s pi i = on_prepcall s pi.op pi i
rewrite op_appendarray s pi i = on_appendarray s pi.op pi i
rewrite op_move s pi i = on_move pi.op pi i
rewrite op_load s pi i = on_load pi.op pi i
rewrite op_eq s pi i = on_equal s pi.op pi i
rewrite op_ne s pi i = on_equal s pi.op pi i
rewrite op_loadnulls s pi i = on_loadnulls pi.op pi i
rewrite op_line s pi i = on_line pi.op pi i
rewrite _ s pi i = added pi i

-- The effect on the state; `before` is the code before the previous instruction.
unfoldable pub emit : Instr → FuncState → List Instr → Emitted → FuncState
emit i s before (replaced pi) = record s { instructions = before ++ pi ∷ [] }
emit i s before (moved pi) = record s { instructions = before ++ pi ∷ []; optimization = false }
emit i s before (added pi i') = record s {
  instructions = before ++ pi ∷ i' ∷ [];
  optimization = true;
}
emit i s before line_again = record s {
  instructions = before ++ i ∷ [];
  lineinfos = without_last s.lineinfos;
  optimization = true;
}

abbrev pub no_instruction : Instr
no_instruction = instruction op_line 0 0 0 0

abbrev pub push_instruction : Instr → FuncState → FuncState
push_instruction i s = record s { instructions = s.instructions ++ i ∷ []; optimization = true }

-- `AddInstruction`
unfoldable pub add_instruction : Instr → FuncState → FuncState
add_instruction i s =
    let pi = back s.instructions no_instruction in
    if ltb 0 (length s.instructions) && s.optimization
    then emit i s (without_last s.instructions) (rewrite i.op s pi i)
    else push_instruction i s

-- the codes that `DiscardTarget` takes the target from
abbrev pub may_discard : Opcode → Bool
may_discard op_set = true
may_discard op_newslot = true
may_discard op_setouter = true
may_discard op_call = true
may_discard _ = false

-- `DiscardTarget`
unfoldable pub discard_target : FuncState → FuncState
discard_target s =
    let (discarded, r) = pop_target s in
    let pi = back r.instructions no_instruction in
    if ltb 0 (length r.instructions) && r.optimization
    then if may_discard pi.op && (pi.arg0 == discarded)
      then record r { instructions = without_last r.instructions ++ no_target pi ∷ [] }
      else r
    else r

-- `AddLineInfos`
unfoldable pub add_line_infos : ℕ → Bool → Bool → FuncState → FuncState
add_line_infos line lineop force s =
    let li : LineInfo = record { line = line; op = length s.instructions } in
    let r = if lineop then add_instruction (instruction op_line 0 line 0 0) s else s in
    let lineinfos = if s.lastline == line then r.lineinfos else r.lineinfos ++ li ∷ [] in
    if not (s.lastline == line) || force
    then record r { lineinfos = lineinfos; lastline = line }
    else s
