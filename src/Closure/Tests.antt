-- ===== src/Closure/Tests.antt =====
-- Native closures at concrete inputs.
use squirrel_gobject.Prelude.{◌≡◌, refl, arith, some, [], ◌∷◌}
use squirrel_gobject.Closure.{
  null, user_pointer, native_closure, plain, Vm, contents, wrapped_closure, call_frame,
  exec_native_closure, new_closure,
}
use squirrel_gobject.Closure.Laws.{Holds, with_closure, wrapped_closure-Holds}
use squirrel_gobject.Prelude.Int.{negsuc}
use squirrel_gobject.Closure.Stack.{remove, contents-remove}
use squirrel_gobject.Closure.Frame.{closure_of, exec_native_closure-call_frame}

-- one object, and two free variables on top of it
abbrev three : Vm
three = record {
  stack = plain 1 ∷ plain 2 ∷ plain 3 ∷ null ∷ null ∷ [];
  top = 3;
  stackbase = 0;
  closures = [];
}

wrapped_closure-Holds_example :
    Holds
      (plain 1 ∷ native_closure 0 ∷ [])
      (with_closure 70 (plain 3 ∷ plain 2 ∷ user_pointer 90 ∷ []) three)
      (wrapped_closure 70 90 2 three)
wrapped_closure-Holds_example =
    wrapped_closure-Holds 70 90 (plain 3 ∷ plain 2 ∷ []) (plain 1 ∷ []) three (omega arith) refl
      (omega arith)

abbrev wrapped_frame : Vm
wrapped_frame = call_frame (closure_of 70 (plain 8 ∷ user_pointer 90 ∷ [])) 2 1 three

abbrev user_frame : Vm
user_frame = call_frame (closure_of 80 (plain 8 ∷ [])) 2 1 three

exec_native_closure-call_frame_example :
    ((exec_native_closure wrapped_frame).0 ≡ some 90)
    × (contents (exec_native_closure wrapped_frame).1 ≡ contents user_frame)
    × ((exec_native_closure wrapped_frame).1.stackbase ≡ user_frame.stackbase)
exec_native_closure-call_frame_example =
    exec_native_closure-call_frame 70 80 90 2 1 (plain 8 ∷ []) three (omega arith)

user_sees : contents user_frame ≡ plain 1 ∷ plain 2 ∷ plain 3 ∷ plain 8 ∷ []
unfolding call_frame
user_sees = refl

registered : contents (new_closure 80 2 three) ≡ plain 1 ∷ native_closure 0 ∷ []
unfolding new_closure
registered = refl

contents-remove_example : contents (remove (negsuc 1) three) ≡ plain 1 ∷ plain 3 ∷ []
contents-remove_example =
    contents-remove (negsuc 1) three (plain 1 ∷ []) (plain 3 ∷ []) (plain 2) refl refl (omega arith)
