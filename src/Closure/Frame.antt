-- ===== src/Closure/Frame.antt =====
-- What a native function sees on the stack, with and without the wrapper around it.
use squirrel_gobject.Prelude.{
  ℕ, suc, ◌+◌, ◌*◌, ◌≤◌, ◌≡◌, refl, ap, min, sym, ◌∙◌, ltb, Bool-cases, inl, inr, ltb→le, none,
  some, List, [], ◌∷◌, ◌++◌, length, take, set, arith, length-set, length-append, length-take,
  length-replicate,
}
use squirrel_gobject.Prelude.Segments.{take-set_last, take-append_left, take-take}
use squirrel_gobject.Closure.{
  Object, user_pointer, NativeClosure, Vm, contents, enter_frame, place_outers, call_frame,
  exec_native_closure, pointer_of,
}
use squirrel_gobject.Closure.Laws.{Holds, Holds-self, pop-Holds, top_is}
use native.Mathlib.Numerals.{add-one}
use mathlib.Core.Path.{subst}
use mathlib.Core.List.{append_assoc, append-nil}

length-place_outers :
    (i : ℕ) (outers stack : List Object) → length (place_outers i outers stack) ≡ length stack
unfolding place_outers
length-place_outers i [] stack = refl
length-place_outers i (o ∷ outers) stack =
    length-place_outers (i + 1) outers (set stack i o) ∙ length-set stack i o

take-place_outers :
    (i : ℕ) (outers stack : List Object)
    → i + length outers ≤ length stack
    → take (i + length outers) (place_outers i outers stack) ≡ take i stack ++ outers
unfolding place_outers
take-place_outers i [] stack l =
    let e : i + 0 ≡ i = omega arith in rw e (sym (append-nil (take i stack)))
take-place_outers i (o ∷ outers) stack l =
    let n = length outers in
    let e : i + suc n ≡ (i + 1) + n = omega arith in
    ap (λ m. take m (place_outers (i + 1) outers (set stack i o))) e
    ∙ take-place_outers (i + 1) outers (set stack i o) (omega (arith, length-set stack i o))
    ∙ ap (λ s. s ++ outers) (rw add-one (take-set_last i stack o (omega arith)))
    ∙ append_assoc (take i stack) (o ∷ []) outers

-- `EnterFrame` leaves what is on the stack and makes the stack long enough for the frame.
enter_frame_lem :
    (newbase newtop i : ℕ) (v : Vm)
    → i ≤ length v.stack
    → i ≤ newtop
    → (newtop ≤ length (enter_frame newbase newtop v).stack)
      × (take i (enter_frame newbase newtop v).stack ≡ take i v.stack)
unfolding enter_frame
enter_frame_lem newbase newtop i v l l' =
    let wide = newtop + 15 * 4 in
    elim (Bool-cases (ltb (length v.stack) (newtop + 15))) [
      | inl e ↦
          let long : length (take wide v.stack) ≡ min wide (length v.stack) =
            length-take wide v.stack in
          rw e (
            rw (length-append, length-take, length-replicate) (omega arith),
            take-append_left i (take wide v.stack) _ (omega arith)
                ∙ take-take i wide v.stack (omega arith),
          )
      | inr e ↦ rw e (omega (arith, ltb→le (length v.stack) (newtop + 15) e), refl)
    ]

enter_frame_top : (newbase newtop : ℕ) (v : Vm) → (enter_frame newbase newtop v).top ≡ newtop
unfolding enter_frame
enter_frame_top newbase newtop v = refl

-- a closure as `sq_newclosure` makes it
abbrev pub closure_of : ℕ → List Object → NativeClosure
closure_of func outers = record { function = func; outervalues = outers; env = none }

call_frame_lem :
    (func nargs newbase : ℕ) (outers : List Object) (v : Vm)
    → newbase + nargs ≤ length v.stack
    → let w = call_frame (closure_of func outers) nargs newbase v in
      (w.top ≤ length w.stack) × (contents w ≡ take (newbase + nargs) v.stack ++ outers)
unfolding call_frame
call_frame_lem func nargs newbase outers v l =
    let i = newbase + nargs in
    let newtop = i + length outers in
    let framed = enter_frame newbase newtop v in
    let (long, same) = enter_frame_lem newbase newtop i v l (omega arith) in
    (
      omega (
        arith,
        long,
        length-place_outers i outers framed.stack,
        enter_frame_top newbase newtop v,
      ),
      ap (λ t. take t (place_outers i outers framed.stack)) (enter_frame_top newbase newtop v)
          ∙ take-place_outers i outers framed.stack long
          ∙ ap (λ s. s ++ outers) same,
    )

frame_base :
    (f g nargs newbase : ℕ) (xs ys : List Object) (v : Vm)
    → (call_frame (closure_of f xs) nargs newbase v).stackbase
      ≡ (call_frame (closure_of g ys) nargs newbase v).stackbase
unfolding call_frame enter_frame
frame_base f g nargs newbase xs ys v = refl

-- In the frame of a wrapped closure `squirrel_exec_native_closure` finds the pointer of the
-- wrapper, whatever the free variables and the arguments are, and leaves to the user's function
-- the very stack, from the same base, that it would see if it had been registered itself with
-- those free variables. The arguments are on the stack, which the frame may have to extend.
pub exec_native_closure-call_frame :
    (exec user data_of nargs newbase : ℕ) (fs : List Object) (v : Vm)
    → newbase + nargs ≤ length v.stack
    → let w = call_frame (closure_of exec (fs ++ user_pointer data_of ∷ [])) nargs newbase v in
      let u = call_frame (closure_of user fs) nargs newbase v in
      ((exec_native_closure w).0 ≡ some data_of)
      × (contents (exec_native_closure w).1 ≡ contents u)
      × ((exec_native_closure w).1.stackbase ≡ u.stackbase)
unfolding exec_native_closure
exec_native_closure-call_frame exec user data_of nargs newbase fs v l =
    let up = user_pointer data_of in
    let args = take (newbase + nargs) v.stack in
    let w = call_frame (closure_of exec (fs ++ up ∷ [])) nargs newbase v in
    let (fits, held) = call_frame_lem exec nargs newbase (fs ++ up ∷ []) v l in
    let (_, plain_held) = call_frame_lem user nargs newbase fs v l in
    let h : Holds ((args ++ fs) ++ up ∷ []) w w =
      subst (λ s. Holds s w w) (held ∙ sym (append_assoc args fs (up ∷ []))) (Holds-self w fits) in
    (
      ap pointer_of (top_is up (args ++ fs) w w h),
      (pop-Holds up (args ++ fs) w w h).same ∙ sym plain_held,
      (pop-Holds up (args ++ fs) w w h).base ∙ frame_base exec user nargs newbase _ _ v,
    )
