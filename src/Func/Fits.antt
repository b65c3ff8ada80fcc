-- ===== src/Func/Fits.antt =====
-- Where the optimiser of `AddInstruction` may join two instructions, and what it keeps then.
use squirrel_gobject.Prelude.{ℕ, ◌+◌, ◌^◌, ◌<◌, ◌≤◌, ◌≡◌, ◌≢◌, ◌⊎◌, List, [], ◌∷◌, true}
use squirrel_gobject.Func.State.{FuncState, is_local}
use squirrel_gobject.Func.Emit.{Emitted, replaced, moved, added, line_again}
use squirrel_gobject.Func.Fused.{Kept, KeptCall}
use squirrel_gobject.Func.Joined.{Every}
use squirrel_gobject.Func.Instr.{
  Opcode, Instr, op_load, op_call, op_prepcall, op_move, op_get, op_eq, op_ne, op_mod, op_return,
  op_loadnulls, op_loadbool, op_jz, op_appendarray, op_cmp, op_close, aat_stack,
}

-- What the compiler sees to: an instruction has one register for one purpose, its registers and
-- literals are small, a JZ tests what the CMP before it computes, LOADNULLS clears one register.
-- The rules for RETURN change a call or leave out a CLOSE, which the model of `Execute` does not
-- cover; nor does a MOVE follow a MOD whose result it takes, since MOD may leave its target alone.
abbrev pub FitsOn : Opcode → Instr → Instr → Type 0
FitsOn op_jz pi i = (pi.op ≡ op_cmp → i.arg0 ≡ pi.arg0) × (pi.arg1 < 2 ^ 31)
FitsOn op_get pi i = (i.arg1 ≢ i.arg2) × (i.arg1 < 256)
FitsOn op_prepcall pi i = i.arg2 ≢ i.arg1
FitsOn op_appendarray pi i =
    (i.arg2 ≡ aat_stack) × (i.arg0 ≢ i.arg1) × (pi.op ≡ op_loadbool → pi.arg1 ≤ 1)
FitsOn op_move pi i = (i.arg1 < 256) × (pi.op ≡ op_mod → pi.arg0 ≢ i.arg1)
FitsOn op_load pi i = i.arg1 < 2 ^ 31
FitsOn op_eq pi i = (i.arg3 ≡ 0) × (i.arg2 ≢ i.arg1)
FitsOn op_ne pi i = (i.arg3 ≡ 0) × (i.arg2 ≢ i.arg1)
FitsOn op_loadnulls pi i = (i.arg1 ≡ 1) × (pi.arg0 + pi.arg1 + 1 < 2 ^ 31)
FitsOn op_return pi i = (pi.op ≢ op_call) × (pi.op ≢ op_close)
FitsOn _ pi i = Unit

abbrev pub Fits : Instr → Instr → Type 0
Fits pi i = FitsOn i.op pi i

-- The registers that keep their meaning where one instruction stands for two: all but the target
-- of the first one, and that too where the second one writes it. A named local is kept as well, but
-- not by the rules for JZ and MOVE, which do not look whether the target is one.
abbrev pub LiveOn : Opcode → FuncState → Instr → Instr → ℕ → Type 0
LiveOn op_jz s pi i j = j ≢ pi.arg0
LiveOn op_get s pi i j = Kept pi i j ⊎ (is_local s pi.arg0 ≡ true)
LiveOn op_prepcall s pi i j = KeptCall pi i j ⊎ (is_local s pi.arg0 ≡ true)
LiveOn op_appendarray s pi i j = (j ≢ pi.arg0) ⊎ (is_local s pi.arg0 ≡ true)
LiveOn op_eq s pi i j = Kept pi i j ⊎ (is_local s pi.arg0 ≡ true)
LiveOn op_ne s pi i j = Kept pi i j ⊎ (is_local s pi.arg0 ≡ true)
LiveOn _ s pi i j = Unit

abbrev pub Live : Opcode → FuncState → Instr → Instr → Emitted → ℕ → Type 0
Live op s pi i (replaced w) = LiveOn op s pi i
Live op s pi i (moved w) = Kept pi i
Live op s pi i (added w w') = Every
Live op s pi i line_again = Every

-- the code at the end, in place of both instructions
abbrev pub code_of : Instr → Emitted → List Instr
code_of i (replaced w) = w ∷ []
code_of i (moved w) = w ∷ []
code_of i (added w w') = w ∷ w' ∷ []
code_of i line_again = i ∷ []
