-- ===== src/Func/State.antt =====
-- The state of the code generator for one function: `SQFuncState`.
use squirrel_gobject.Prelude.{
  ℕ, ◌+◌, ◌-◌, ◌%◌, ◌^◌, leb, if◌then◌else◌, Bool, true, false, Option, none, some, List, [], ◌∷◌,
  length, get_or,
}
use squirrel_gobject.Func.Instr.{Instr}

-- `SQLocalVarInfo`: no name for a temporary; a name is the identity of its interned string.
pub record LocalVarInfo : Type 0 where
  pub name : Option ℕ
  pub start_op : ℕ
  pub end_op : ℕ
  pub pos : ℕ

-- `SQLineInfo`
pub record LineInfo : Type 0 where
  pub line : ℕ
  pub op : ℕ

-- `SQOuterType`
pub data OuterType : Type 0 where
  ot_local ot_outer : OuterType

-- `SQOuterVar`
pub record OuterVar : Type 0 where
  pub type : OuterType
  pub name : ℕ
  pub src : ℕ

-- `SQFuncState`, as far as its own functions use it. `has_parent` says whether `_parent` is set;
-- the parents themselves stand in a list behind the function. `returnexp` is none for -1.
pub record FuncState : Type 0 where
  pub returnexp : Option ℕ
  pub vlocals : List LocalVarInfo
  pub targetstack : List ℕ
  pub stacksize : ℕ
  pub parameters : List ℕ
  pub outervalues : List OuterVar
  pub instructions : List Instr
  pub localvarinfos : List LocalVarInfo
  pub lineinfos : List LineInfo
  pub has_parent : Bool
  pub lastline : ℕ
  pub outers : ℕ
  pub optimization : Bool

-- the constructor `SQFuncState`
unfoldable pub new_state : Bool → FuncState
new_state has_parent = record {
  returnexp = some 0;
  vlocals = [];
  targetstack = [];
  stacksize = 0;
  parameters = [];
  outervalues = [];
  instructions = [];
  localvarinfos = [];
  lineinfos = [];
  has_parent = has_parent;
  lastline = 0;
  outers = 0;
  optimization = true;
}

-- `SQLocalVarInfo()`
abbrev pub temporary : LocalVarInfo
temporary = record { name = none; start_op = 0; end_op = 0; pos = 0 }

-- `UINT_MINUS_ONE`, the `_end_op` of a local that a closure takes
abbrev pub uint_minus_one : ℕ
uint_minus_one = 2 ^ 64 - 1

-- `without_last`
abbrev pub without_last {ℓ} : {A : Type ℓ} → List A → List A
without_last [] = []
without_last (x ∷ []) = []
without_last (x ∷ y ∷ xs) = x ∷ without_last (y ∷ xs)

-- `back()`, of a vector that is not empty
abbrev pub back {ℓ} : {A : Type ℓ} → List A → A → A
back xs d = get_or xs (length xs - 1) d

abbrev pub has_name : Option ℕ → Bool
has_name (some n) = true
has_name none = false

-- `GetCurrentPos`, as a 64-bit pattern: -1 for no instruction
abbrev pub current_pos : FuncState → ℕ
current_pos s = (length s.instructions + (2 ^ 64 - 1)) % 2 ^ 64

-- `IsLocal`
unfoldable pub is_local : FuncState → ℕ → Bool
is_local s stkpos =
    if leb (length s.vlocals) stkpos
    then false
    else has_name (get_or s.vlocals stkpos temporary).name

-- `SnoozeOpt`
unfoldable pub snooze_opt : FuncState → FuncState
snooze_opt s = record s { optimization = false }
