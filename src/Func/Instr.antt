-- ===== src/Func/Instr.antt =====
-- The instructions: sqopcodes.h.
use squirrel_gobject.Prelude.{ℕ, ◌%◌, ◌^◌, ltb, leb, Bool, ◌||◌}

-- `SQOpcode`: those that the optimiser or the model of `Execute` name; `op_other` has the number
-- of any other.
pub data Opcode : Type 0 where
  op_line op_load op_loadint op_loadfloat op_dload op_tailcall op_call : Opcode
  op_prepcall op_prepcallk op_getk op_move op_newslot op_set op_get : Opcode
  op_eq op_ne op_add op_sub op_mul op_div op_mod op_bitw op_return : Opcode
  op_loadnulls op_loadbool op_dmove op_jmp op_jcmp op_jz : Opcode
  op_setouter op_getouter op_appendarray op_cmp op_close : Opcode
  op_other : ℕ → Opcode

-- `SQInstruction`: three bytes, and in `arg1` the 32 bits of a signed integer.
pub record Instr : Type 0 where
  pub op : Opcode
  pub arg0 : ℕ
  pub arg1 : ℕ
  pub arg2 : ℕ
  pub arg3 : ℕ

-- `(unsigned char)n`
abbrev pub byte : ℕ → ℕ
byte n = n % 256

-- `(SQInt32)n`
abbrev pub word : ℕ → ℕ
word n = n % 2 ^ 32

-- `SQInstruction(_op, a0, a1, a2, a3)`
unfoldable pub instruction : Opcode → ℕ → ℕ → ℕ → ℕ → Instr
instruction op a0 a1 a2 a3 = record {
  op = op;
  arg0 = byte a0;
  arg1 = word a1;
  arg2 = byte a2;
  arg3 = byte a3;
}

-- `MAX_FUNC_STACKSIZE`, also the target that stands for none
abbrev pub max_func_stacksize : ℕ
max_func_stacksize = 255

-- The comparison of a signed `arg1` with a small number.
abbrev pub signed_below : ℕ → ℕ → Bool
signed_below bits n = ltb bits n || leb (2 ^ 31) bits

-- `AppendArrayType`
abbrev pub aat_stack : ℕ
aat_stack = 0

abbrev pub aat_literal : ℕ
aat_literal = 1

abbrev pub aat_int : ℕ
aat_int = 2

abbrev pub aat_float : ℕ
aat_float = 3

abbrev pub aat_bool : ℕ
aat_bool = 4
