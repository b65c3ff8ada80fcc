-- ===== src/Closure/Laws.antt =====
-- What the stack operations and the two ways to make a closure leave on the stack and the heap.
use squirrel_gobject.Prelude.{
  ℕ, zero, suc, ◌+◌, ◌-◌, ◌≤◌, ◌<◌, ◌≡◌, refl, ap, sym, ◌∙◌, lt→ltb, none, List, [], ◌∷◌, ◌++◌,
  length, take, get_or, arith, length-set, length-append, length-take,
}
use squirrel_gobject.Prelude.Segments.{
  take-set_last, take-set_beyond, get_or-take, get_or-append_right, take-append_left, take-take,
  take_all,
}
use squirrel_gobject.Closure.{
  Object, null, user_pointer, native_closure, NativeClosure, Vm, contents, push, pop, pop_outers,
  new_closure, save_freevars, restore_freevars, wrapped_closure,
}
use native.Mathlib.Numerals.{add-one}
use mathlib.Core.Path.{subst}
use mathlib.Core.List.{reverse, append_assoc, append-nil, reverse-append}

-- The stack of `w` holds `c`, has the room of `v`, and all else is as in `v`.
pub record Holds (c : List Object) (v w : Vm) : Type 0 where
  pub same : contents w ≡ c
  pub fits : w.top ≤ length w.stack
  pub room : length w.stack ≡ length v.stack
  pub base : w.stackbase ≡ v.stackbase
  pub heap : w.closures ≡ v.closures

length-contents : (v : Vm) → v.top ≤ length v.stack → length (contents v) ≡ v.top
length-contents v h = omega (arith, length-take v.top v.stack)

pub Holds-self : (v : Vm) → v.top ≤ length v.stack → Holds (contents v) v v
Holds-self v h = record { same = refl; fits = h; room = refl; base = refl; heap = refl }

height : {c : List Object} {v w : Vm} → Holds c v w → length c ≡ w.top
height {c} {v} {w} h = omega (arith, ap length h.same, length-contents w h.fits)

pub push-Holds :
    (o : Object) (c : List Object) (v w : Vm)
    → Holds c v w
    → length c < length v.stack
    → Holds (c ++ o ∷ []) v (push o w)
unfolding push
push-Holds o c v w h l =
    let inside : w.top < length w.stack = omega (arith, height h, h.room) in
    record {
      same = rw add-one (take-set_last w.top w.stack o inside) ∙ ap (λ s. s ++ o ∷ []) h.same;
      fits = omega (arith, length-set w.stack w.top o);
      room = length-set w.stack w.top o ∙ h.room;
      base = h.base;
      heap = h.heap;
    }

-- the object on top
pub top_is :
    (x : Object) (c : List Object) (v w : Vm)
    → Holds (c ++ x ∷ []) v w
    → get_or w.stack (w.top - 1) null ≡ x
top_is x c v w h =
    let tall : length c + 1 ≡ w.top = omega (arith, height h, length-append c (x ∷ [])) in
    sym (get_or-take w.top (w.top - 1) w.stack null (omega arith))
    ∙ ap (λ s. get_or s (w.top - 1) null) h.same
    ∙ get_or-append_right c (x ∷ []) (w.top - 1) 0 null (omega arith)

pub pop-Holds :
    (x : Object) (c : List Object) (v w : Vm) → Holds (c ++ x ∷ []) v w → Holds c v (pop w)
unfolding pop
pop-Holds x c v w h =
    let tall : length c ≡ w.top - 1 = omega (arith, height h, length-append c (x ∷ [])) in
    record {
      same =
          take-set_beyond (w.top - 1) (w.top - 1) w.stack null (omega arith)
          ∙ sym (take-take (w.top - 1) w.top w.stack (omega arith))
          ∙ ap (take (w.top - 1)) h.same
          ∙ rw (sym tall) (take-append_left (length c) c (x ∷ []) (omega arith) ∙ take_all c);
      fits = omega (arith, length-set w.stack (w.top - 1) null, h.fits);
      room = length-set w.stack (w.top - 1) null ∙ h.room;
      base = h.base;
      heap = h.heap;
    }

length-reverse : (xs : List Object) → length (reverse xs) ≡ length xs
length-reverse [] = refl
length-reverse (x ∷ xs) =
    rw (reverse-append (x ∷ []) xs, length-append) (omega (arith, length-reverse xs))

-- `c` with the objects `fs` pushed, so that the first of `fs` is on top
abbrev pub under : List Object → List Object → List Object
under c fs = c ++ reverse fs

under-cons : (c fs : List Object) (x : Object) → under c (x ∷ fs) ≡ under c fs ++ x ∷ []
under-cons c fs x =
    ap (λ r. c ++ r) (reverse-append (x ∷ []) fs) ∙ sym (append_assoc c (reverse fs) (x ∷ []))

pub pop_outers_lem :
    (fs c : List Object) (v w : Vm)
    → Holds (under c fs) v w
    → Holds c v (pop_outers (length fs) w).0 × ((pop_outers (length fs) w).1 ≡ fs)
unfolding pop_outers
pop_outers_lem [] c v w h = (subst (λ s. Holds s v w) (append-nil c) h, refl)
pop_outers_lem (x ∷ fs) c v w h =
    let h' = subst (λ s. Holds s v w) (under-cons c fs x) h in
    let r = pop_outers_lem fs c v (pop w) (pop-Holds x (under c fs) v w h') in
    (r.0, λ i. top_is x (under c fs) v w h' i ∷ r.1 i)

pub save_freevars_lem :
    (fs c : List Object) (v w : Vm)
    → Holds (under c fs) v w
    → Holds c v (save_freevars (length fs) w).0 × ((save_freevars (length fs) w).1 ≡ fs)
unfolding save_freevars
save_freevars_lem [] c v w h = (subst (λ s. Holds s v w) (append-nil c) h, refl)
save_freevars_lem (x ∷ fs) c v w h =
    let h' = subst (λ s. Holds s v w) (under-cons c fs x) h in
    let r = save_freevars_lem fs c v (pop w) (pop-Holds x (under c fs) v w h') in
    (r.0, λ i. top_is x (under c fs) v w h' i ∷ r.1 i)

take-suc :
    (i : ℕ) (fs : List Object)
    → i < length fs
    → take (suc i) fs ≡ take i fs ++ get_or fs i null ∷ []
take-suc i [] l = absurd (omega arith)
take-suc zero (x ∷ fs) l = refl
take-suc (suc i) (x ∷ fs) l = ap (◌∷◌ x) (take-suc i fs (omega arith))

pub restore_freevars_lem :
    (i : ℕ) (fs c : List Object) (v w : Vm)
    → Holds c v w
    → i ≤ length fs
    → length c + i ≤ length v.stack
    → Holds (under c (take i fs)) v (restore_freevars i fs w)
unfolding restore_freevars
restore_freevars_lem zero fs c v w h l room = subst (λ s. Holds s v w) (sym (append-nil c)) h
restore_freevars_lem (suc i) fs c v w h l room =
    let x = get_or fs i null in
    let pushed = push-Holds x c v w h (omega arith) in
    let r =
      restore_freevars_lem i fs (c ++ x ∷ []) v (push x w) pushed (omega arith)
        (omega (arith, length-append c (x ∷ []))) in
    let same : under (c ++ x ∷ []) (take i fs) ≡ under c (take (suc i) fs) =
      append_assoc c (x ∷ []) (reverse (take i fs))
      ∙ ap (λ r. c ++ r)
          (sym (reverse-append (take i fs) (x ∷ []))
            ∙ ap reverse (sym (take-suc i fs (omega arith)))) in
    subst (λ s. Holds s v (restore_freevars i fs (push x w))) same r

-- The heap with one more closure.
abbrev pub with_closure : ℕ → List Object → Vm → Vm
with_closure func outers v = record v {
  closures = v.closures ++ record { function = func; outervalues = outers; env = none } ∷ [];
}

pub new_closure-Holds :
    (func : ℕ) (fs c : List Object) (v w : Vm)
    → Holds (under c fs) v w
    → length c < length v.stack
    → Holds
        (c ++ native_closure (length v.closures) ∷ [])
        (with_closure func fs v)
        (new_closure func (length fs) w)
unfolding new_closure
new_closure-Holds func fs c v w h l =
    let p = pop_outers_lem fs c v w h in
    let w' = (pop_outers (length fs) w).0 in
    let close : List Object → List NativeClosure → Vm = λ outers hs.
      push (native_closure (length hs)) (record w' {
        closures = hs ++ record { function = func; outervalues = outers; env = none } ∷ [];
      }) in
    let added : List NativeClosure = (with_closure func fs v).closures in
    let kept : Holds c (with_closure func fs v) (record w' { closures = added }) = record {
      same = p.0.same;
      fits = p.0.fits;
      room = p.0.room;
      base = p.0.base;
      heap = refl;
    } in
    let done =
      push-Holds (native_closure (length v.closures)) c (with_closure func fs v)
        (record w' { closures = added }) kept l in
    subst (Holds (c ++ native_closure (length v.closures) ∷ []) (with_closure func fs v))
      (λ i. close (sym p.1 i) (sym p.0.heap i)) done

-- `squirrel_vm_new_closure` takes the free variables `fs` off the stack, the first of them from the
-- top, and leaves one closure in their place, where there is room for one more object. The
-- closure runs `squirrel_exec_native_closure`, with the pointer of the wrapper as its last free
-- variable behind those that `sq_newclosure` would give the user.
pub wrapped_closure-Holds :
    (exec data_of : ℕ) (fs c : List Object) (v : Vm)
    → v.top ≤ length v.stack
    → contents v ≡ under c fs
    → v.top < length v.stack
    → Holds
        (c ++ native_closure (length v.closures) ∷ [])
        (with_closure exec (fs ++ user_pointer data_of ∷ []) v)
        (wrapped_closure exec data_of (length fs) v)
unfolding wrapped_closure
wrapped_closure-Holds exec data_of [] c v h e l =
    let up = user_pointer data_of in
    let start : Holds (under c []) v v = subst (λ s. Holds s v v) e (Holds-self v h) in
    let low : length c ≤ v.top = omega (arith, height start, length-append c (reverse [])) in
    let pushed = push-Holds up (under c []) v v start (omega (arith, height start)) in
    new_closure-Holds exec (up ∷ []) c v (push up v)
      (subst (λ s. Holds s v (push up v)) (sym (under-cons c [] up)) pushed) (omega arith)
wrapped_closure-Holds exec data_of (x ∷ fs) c v h e l =
    let up = user_pointer data_of in
    let all : List Object = x ∷ fs in
    let start : Holds (under c all) v v = subst (λ s. Holds s v v) e (Holds-self v h) in
    let room : length c + length all ≤ v.top =
      omega (arith, height start, length-append c (reverse all), length-reverse all) in
    let saved = save_freevars_lem all c v v start in
    let w = (save_freevars (length all) v).0 in
    let pushed = push-Holds up c v w saved.0 (omega arith) in
    let restored =
      restore_freevars_lem (length all) all (c ++ up ∷ []) v (push up w) pushed (omega arith)
        (omega (arith, length-append c (up ∷ []))) in
    let order : under (c ++ up ∷ []) (take (length all) all) ≡ under c (all ++ up ∷ []) =
      ap (under (c ++ up ∷ [])) (take_all all)
      ∙ append_assoc c (up ∷ []) (reverse all)
      ∙ ap (λ r. c ++ r) (sym (reverse-append all (up ∷ []))) in
    let before = restore_freevars (length all) all (push up w) in
    let made =
      new_closure-Holds exec (all ++ up ∷ []) c v before
        (subst (λ s. Holds s v before) order restored) (omega arith) in
    let run : ℕ → List Object → Vm =
      λ n freevars. new_closure exec n (restore_freevars (length all) freevars (push up w)) in
    rw (lt→ltb 0 (length all) (omega arith)) (
      subst
        (Holds (c ++ native_closure (length v.closures) ∷ [])
          (with_closure exec (all ++ up ∷ []) v))
        (λ i. run (length-append all (up ∷ []) i) (sym saved.1 i)) made)
