-- ===== src/Func/Tests.antt =====
-- The code generator at concrete inputs.
use squirrel_gobject.Prelude.{some, ◌≡◌, refl, arith, true, false, none, List, [], ◌∷◌, ◌++◌}
use squirrel_gobject.Prelude.Outcome.{Ends}
use squirrel_gobject.Func.Bounds.{InFrame, push_target-InFrame}
use squirrel_gobject.Vm.Machine.{run}
use squirrel_gobject.Vm.Value.{Value, VmError}
use squirrel_gobject.Vm.Same.{Same}
use squirrel_gobject.Vm.Sample.{small_ops, blank}
use squirrel_gobject.Func.Instr.{
  Instr, op_load, op_loadint, op_get, op_move, op_cmp, op_jz, op_jcmp,
}
use squirrel_gobject.Func.State.{FuncState, new_state, is_local}
use squirrel_gobject.Func.Emit.{add_instruction, rewrite, emit}
use squirrel_gobject.Func.Fits.{Live, code_of}
use squirrel_gobject.Func.Optimise.{add_instruction-Acts}
use squirrel_gobject.Func.Targets.{push_target, push_local_variable, get_local_variable}
use squirrel_gobject.Func.Frame.{
  Frame, StackOp, push_fresh, push_alias, pop_op, declare, leave, exec_ops, spec_ops,
}
use squirrel_gobject.Func.Outers.{get_outer_variable}
use squirrel_gobject.Func.Scopes.{Scoped}
use squirrel_gobject.Func.Capture.{get_outer_variable-Scoped}
use squirrel_gobject.Func.Runs.{RunMatches, exec_ops-RunMatches}

-- the key of an access, loaded into register 5
abbrev load_key : Instr
load_key = record { op = op_load; arg0 = 5; arg1 = 3; arg2 = 0; arg3 = 0 }

abbrev get_field : Instr
get_field = record { op = op_get; arg0 = 4; arg1 = 2; arg2 = 5; arg3 = 0 }

abbrev empty : FuncState
empty = record (new_state false) { lastline = 0 }

abbrev loaded : FuncState
loaded = record (new_state false) { instructions = load_key ∷ [] }

add_instruction-Acts_example :
    let e = rewrite op_get loaded load_key get_field in
    ((add_instruction get_field loaded).instructions ≡ [] ++ code_of get_field e)
    × Same {V = Value} {H = List Value} {E = VmError}
        (Live op_get loaded load_key get_field e)
        (run small_ops (load_key ∷ get_field ∷ []) blank)
        (run small_ops (code_of get_field e) blank)
unfolding new_state
add_instruction-Acts_example =
    add_instruction-Acts small_ops loaded [] load_key get_field blank refl refl
      ((λ e. ground arith), omega arith) (λ e. absurd (cc e))

abbrev empty_frame : Frame
empty_frame = record { entries = []; peak = 0 }

abbrev some_ops : List StackOp
some_ops = declare 7 ∷ push_fresh ∷ push_alias 0 ∷ pop_op ∷ declare 8 ∷ leave 1 ∷ pop_op ∷ []

exec_ops-RunMatches_example :
    RunMatches (spec_ops some_ops empty_frame) (exec_ops some_ops (new_state false))
unfolding new_state
exec_ops-RunMatches_example =
    exec_ops-RunMatches some_ops empty_frame (new_state false)
      (record { vlocals = refl; targetstack = refl; stacksize = refl })
      (refl, (refl, (refl, (refl, (refl, (refl, (refl, tt)))))))

-- `local a = 1, b = a`: the move to b replaces the load of a, which is a named local.
abbrev local_a : FuncState
local_a = record (push_local_variable 7 (new_state false)).1 {
  instructions = record { op = op_loadint; arg0 = 0; arg1 = 1; arg2 = 0; arg3 = 0 } ∷ [];
}

abbrev move_to_b : Instr
move_to_b = record { op = op_move; arg0 = 1; arg1 = 0; arg2 = 0; arg3 = 0 }

drops_local :
    (is_local local_a 0 ≡ true)
    × ((add_instruction move_to_b local_a).instructions
        ≡ record { op = op_loadint; arg0 = 1; arg1 = 1; arg2 = 0; arg3 = 0 } ∷ [])
unfolding add_instruction is_local push_local_variable new_state rewrite emit
drops_local = (refl, refl)

-- `if (a < b, x)`: the jump on x, in register 3, becomes one on the comparison, in register 5.
abbrev compared : FuncState
compared = record (new_state false) {
  instructions = record { op = op_cmp; arg0 = 5; arg1 = 1; arg2 = 2; arg3 = 3 } ∷ [];
}

abbrev jump_on_x : Instr
jump_on_x = record { op = op_jz; arg0 = 3; arg1 = 9; arg2 = 0; arg3 = 0 }

tests_comparison :
    (add_instruction jump_on_x compared).instructions
    ≡ record { op = op_jcmp; arg0 = 1; arg1 = 9; arg2 = 2; arg3 = 3 } ∷ []
unfolding add_instruction rewrite emit new_state
tests_comparison = refl

push_target-InFrame_example : Ends InFrame (push_target none (new_state false))
unfolding new_state
push_target-InFrame_example = push_target-InFrame (new_state false) (omega arith) (omega arith)

-- a function inside one with the local 7
abbrev nested : List FuncState
nested = new_state true ∷ (push_local_variable 7 (new_state false)).1 ∷ []

get_outer_variable-Scoped_example : Scoped 7 nested (get_outer_variable 7 nested)
unfolding new_state push_local_variable
get_outer_variable-Scoped_example =
    get_outer_variable-Scoped 7 nested ((λ i v e. absurd (cc e)), ((λ i v e. absurd (cc e)), tt))

captured : (get_outer_variable 7 nested).0 ≡ some 0
unfolding get_outer_variable new_state push_local_variable get_local_variable
captured = refl
