-- ===== src/Closure.antt =====
-- Native closures with free variables: the stack of the virtual machine (Squirrel3/squirrel/sqvm.cpp
-- and sqvm.h), `sq_newclosure` and its companions (sqapi.cpp), and the closures of the GObject
-- wrapper (src/vm.c), which hide a pointer of their own behind the free variables of the user.
-- Closures live on a heap, and an object refers to one by its number. Functions and pointers are
-- addresses. The stack is as long as its vector, with what is above `top` still in it.
pub mod Laws
pub mod Frame
pub mod Stack
pub mod Tests
use squirrel_gobject.Prelude.{
  ℕ, zero, suc, ◌+◌, ◌-◌, ◌*◌, ltb, if◌then◌else◌, Option, none, some, List, [], ◌∷◌, ◌++◌, length,
  take, replicate, get_or, set,
}
use squirrel_gobject.Prelude.Int.{ℤ, pos, negsuc}

pub data Object : Type 0 where
  null : Object
  user_pointer : ℕ → Object
  native_closure : ℕ → Object
  plain : ℕ → Object

pub record NativeClosure : Type 0 where
  pub function : ℕ
  pub outervalues : List Object
  pub env : Option Object

pub record Vm : Type 0 where
  pub stack : List Object
  pub top : ℕ
  pub stackbase : ℕ
  pub closures : List NativeClosure

-- what is on the stack
abbrev pub contents : Vm → List Object
contents v = take v.top v.stack

unfoldable pub push : Object → Vm → Vm
push o v = record v { stack = set v.stack v.top o; top = v.top + 1 }

unfoldable pub pop : Vm → Vm
pop v = record v { stack = set v.stack (v.top - 1) null; top = v.top - 1 }

unfoldable pub top_value : Vm → Object
top_value v = get_or v.stack (v.top - 1) null

-- `stack_get`, by a position from the base of the frame or back from the top
unfoldable pub stack_get : ℤ → Vm → Object
stack_get (pos i) v = get_or v.stack (i + v.stackbase - 1) null
stack_get (negsuc k) v = get_or v.stack (v.top - suc k) null

-- the loop of `sq_newclosure`
unfoldable pub pop_outers : ℕ → Vm → Vm × List Object
unfolding pop top_value
pop_outers zero v = (v, [])
pop_outers (suc n) v = let (w, outers) = pop_outers n (pop v) in (w, top_value v ∷ outers)

unfoldable pub new_closure : ℕ → ℕ → Vm → Vm
unfolding pop_outers push
new_closure func nfreevars v =
    let (w, outers) = pop_outers nfreevars v in
    push (native_closure (length w.closures)) (record w {
      closures = w.closures ++ record { function = func; outervalues = outers; env = none } ∷ [];
    })

-- the first loop of `squirrel_vm_new_closure`
unfoldable pub save_freevars : ℕ → Vm → Vm × List Object
unfolding pop stack_get
save_freevars zero v = (v, [])
save_freevars (suc n) v =
    let (w, freevars) = save_freevars n (pop v) in (w, stack_get (negsuc 0) v ∷ freevars)

-- its second loop, from the last of the saved objects down to the first
unfoldable pub restore_freevars : ℕ → List Object → Vm → Vm
unfolding push
restore_freevars zero freevars v = v
restore_freevars (suc i) freevars v = restore_freevars i freevars (push (get_or freevars i null) v)

-- `squirrel_vm_new_closure`: `exec` is the address of `squirrel_exec_native_closure`, `data` that
-- of the function and its user data
unfoldable pub wrapped_closure : ℕ → ℕ → ℕ → Vm → Vm
unfolding save_freevars restore_freevars push new_closure
wrapped_closure exec data_of nfreevars v =
    if ltb 0 nfreevars
    then (let (w, freevars) = save_freevars nfreevars v in
        new_closure exec (nfreevars + 1)
          (restore_freevars nfreevars freevars (push (user_pointer data_of) w)))
    else new_closure exec (nfreevars + 1) (push (user_pointer data_of) v)

-- what `EnterFrame` does to the stack, outside of a call of a metamethod, which may not extend it;
-- MIN_STACK_OVERHEAD is 15
unfoldable pub enter_frame : ℕ → ℕ → Vm → Vm
enter_frame newbase newtop v =
    let wide = newtop + 15 * 4 in
    record v {
      stackbase = newbase;
      top = newtop;
      stack =
          if ltb (length v.stack) (newtop + 15)
          then take wide v.stack ++ replicate (wide - length v.stack) null
          else v.stack;
    }

-- the loop of `CallNative` that puts the free variables behind the arguments
unfoldable pub place_outers : ℕ → List Object → List Object → List Object
place_outers i [] stack = stack
place_outers i (o ∷ outers) stack = place_outers (i + 1) outers (set stack i o)

-- `CallNative` up to the call of the function, past its checks of the parameters
unfoldable pub call_frame : NativeClosure → ℕ → ℕ → Vm → Vm
unfolding enter_frame place_outers
call_frame nclosure nargs newbase v =
    let newtop = newbase + nargs + length nclosure.outervalues in
    let framed = enter_frame newbase newtop v in
    let filled = place_outers (newbase + nargs) nclosure.outervalues framed.stack in
    record framed { stack = elim nclosure.env [ none ↦ filled | some o ↦ set filled newbase o ] }

-- `sq_getuserpointer`
abbrev pub pointer_of : Object → Option ℕ
pointer_of null = none
pointer_of (user_pointer p) = some p
pointer_of (native_closure k) = none
pointer_of (plain x) = none

-- `squirrel_exec_native_closure` up to the call of the user's function: the address of the
-- function and its data, where there is one, and the stack that the function sees
unfoldable pub exec_native_closure : Vm → Option ℕ × Vm
unfolding stack_get pop
exec_native_closure v = (pointer_of (stack_get (negsuc 0) v), pop v)
