-- ===== src/Func/Targets.antt =====
-- The stack of targets and the local variables: from `AllocStackPos` to `AddParameter`.
use squirrel_gobject.Prelude.{
  ℕ, zero, suc, ◌+◌, ◌-◌, ltb, leb, ◌==◌, if◌then◌else◌, Bool, false, Option, none, some, List, [],
  ◌∷◌, ◌++◌, length, get_or, set,
}
use squirrel_gobject.Prelude.Outcome.{Outcome, ok, err, ◌>>=◌}
use squirrel_gobject.Func.Instr.{max_func_stacksize}
use squirrel_gobject.Func.State.{
  LocalVarInfo, FuncState, temporary, uint_minus_one, without_last, back, has_name, current_pos,
}

-- `Error` leaves the compiler by `longjmp`.
pub data CompileError : Type 0 where
  too_many_locals : CompileError

abbrev pub Compiled {ℓ} : Type ℓ → Type ℓ
Compiled = Outcome CompileError

-- The `_stacksize` is raised to the number of positions in use.
abbrev pub with_local : LocalVarInfo → FuncState → FuncState
with_local lvi s =
    let vlocals = s.vlocals ++ lvi ∷ [] in
    record s {
      vlocals = vlocals;
      stacksize = if ltb s.stacksize (length vlocals) then length vlocals else s.stacksize;
    }

-- `AllocStackPos`
unfoldable pub alloc_stack_pos : FuncState → Compiled (ℕ × FuncState)
alloc_stack_pos s =
    if ltb s.stacksize (length s.vlocals + 1)
    then if ltb max_func_stacksize s.stacksize
      then err too_many_locals
      else ok (length s.vlocals, with_local temporary s)
    else ok (length s.vlocals, with_local temporary s)

abbrev pub with_target : ℕ × FuncState → ℕ × FuncState
with_target (n, s) = (n, record s { targetstack = s.targetstack ++ n ∷ [] })

-- `PushTarget`: none for -1
unfoldable pub push_target : Option ℕ → FuncState → Compiled (ℕ × FuncState)
push_target (some n) s = ok (with_target (n, s))
push_target none s = do r ← alloc_stack_pos s; ok (with_target r)

-- `TopTarget`
abbrev pub top_target : FuncState → ℕ
top_target s = back s.targetstack 0

-- `GetUpTarget`
abbrev pub get_up_target : ℕ → FuncState → ℕ
get_up_target n s = get_or s.targetstack (length s.targetstack - 1 - n) 0

-- `PopTarget`
unfoldable pub pop_target : FuncState → ℕ × FuncState
pop_target s =
    let npos = top_target s in
    (
      npos,
      record s {
        vlocals =
            if has_name (get_or s.vlocals npos temporary).name
            then s.vlocals
            else without_last s.vlocals;
        targetstack = without_last s.targetstack;
      },
    )

-- `PushLocalVariable`
unfoldable pub push_local_variable : ℕ → FuncState → ℕ × FuncState
push_local_variable name s = (
  length s.vlocals,
  with_local
      (record {
        name = some name;
        start_op = length s.instructions;
        end_op = 0;
        pos = length s.vlocals;
      })
      s,
)

-- `AddParameter`
unfoldable pub add_parameter : ℕ → FuncState → FuncState
add_parameter name s =
    let r = (push_local_variable name s).1 in record r { parameters = r.parameters ++ name ∷ [] }

-- `sq_type(lvi._name)==OT_STRING && _string(lvi._name)==_string(name)`
abbrev pub is_named : ℕ → Option ℕ → Bool
is_named name (some other) = other == name
is_named name none = false

-- `GetLocalVariable`, its loop: the number of locals to look at; none for -1
abbrev pub find_local : ℕ → ℕ → List LocalVarInfo → Option ℕ
find_local name zero vlocals = none
find_local name (suc n) vlocals =
    let rest = find_local name n vlocals in
    if is_named name (get_or vlocals n temporary).name then some n else rest

unfoldable pub get_local_variable : ℕ → FuncState → Option ℕ
get_local_variable name s = find_local name (length s.vlocals) s.vlocals

-- `MarkLocalAsOuter`
unfoldable pub mark_local_as_outer : ℕ → FuncState → FuncState
mark_local_as_outer pos s =
    let lvi = get_or s.vlocals pos temporary in
    record s {
      vlocals = set s.vlocals pos (record lvi { end_op = uint_minus_one });
      outers = s.outers + 1;
    }

abbrev pub is_outer : LocalVarInfo → Bool
is_outer lvi = lvi.end_op == uint_minus_one

-- `CountOuters`, its loop: the positions above `stacksize`, of which `n` are left
abbrev pub count_from : ℕ → ℕ → List LocalVarInfo → ℕ
count_from stacksize zero vlocals = 0
count_from stacksize (suc n) vlocals =
    let rest = count_from stacksize n vlocals in
    if leb stacksize n then if is_outer (get_or vlocals n temporary) then rest + 1 else rest else 0

unfoldable pub count_outers : ℕ → FuncState → ℕ
count_outers stacksize s = count_from stacksize (length s.vlocals) s.vlocals

-- The last local goes out of scope.
abbrev pub drop_local : FuncState → FuncState
drop_local s =
    let lvi = back s.vlocals temporary in
    let r = record s { vlocals = without_last s.vlocals } in
    if has_name lvi.name
    then record r {
      outers = if is_outer lvi then s.outers - 1 else s.outers;
      localvarinfos = s.localvarinfos ++ record lvi { end_op = current_pos s } ∷ [];
    }
    else r

-- `SetStackSize`, its loop: the number of locals above `n`
abbrev pub drop_locals : ℕ → FuncState → FuncState
drop_locals zero s = s
drop_locals (suc k) s = drop_locals k (drop_local s)

unfoldable pub set_stack_size : ℕ → FuncState → FuncState
set_stack_size n s = drop_locals (length s.vlocals - n) s
