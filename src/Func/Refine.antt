-- ===== src/Func/Refine.antt =====
-- The stack of targets implements the stack of Func/Frame.
use squirrel_gobject.Prelude.{
  ℕ, zero, suc, ◌-◌, ◌≤◌, ◌≡◌, refl, sym, ap, ◌∙◌, if◌then◌else◌, Bool, true, false, none, some,
  List, [], ◌∷◌, ◌++◌, map, length, get_or, arith,
}
use squirrel_gobject.Prelude.Outcome.{ok}
use squirrel_gobject.Func.State.{
  FuncState, LocalVarInfo, temporary, has_name, back, without_last, current_pos,
}
use squirrel_gobject.Func.Targets.{
  pop_target, set_stack_size, drop_local, drop_locals, top_target, is_outer,
}
use squirrel_gobject.Func.Snoc.{
  get_or-snoc, length-snoc, back-snoc, without_last-snoc, map-without_last,
}
use squirrel_gobject.Func.Frame.{
  Entry, local, fresh, alias, Frame, names, targets, StackOp, push_fresh, pop_op, push_alias,
  declare, leave, exec_op, only_locals, on_top, allowed, drop_entries, spec_op,
}
use squirrel_gobject.Func.Represents.{
  name_of, Represents, Matches, length-vlocals, vlocals_name, declare-Represents,
  push_fresh-Matches, push_alias-Matches,
}

-- the vector of locals behind a pop of position `n`
abbrev rest_locals : Bool → FuncState → List LocalVarInfo
rest_locals b s = if b then s.vlocals else without_last s.vlocals

-- One target is popped: its position, and whether that has a name.
popped-Matches :
    (n : ℕ) (es' : List Entry) (b : Bool) (f : Frame) (s : FuncState)
    → Represents f s
    → targets f.entries ≡ targets es' ++ n ∷ []
    → has_name (get_or (names f.entries) n none) ≡ b
    → map name_of (rest_locals b s) ≡ names es'
    → Matches (ok (some n, record f { entries = es' })) (exec_op pop_op s)
unfolding exec_op pop_target
popped-Matches n es' b f s r t h e =
    let same : s.targetstack ≡ targets es' ++ n ∷ [] = r.targetstack ∙ t in
    let top : top_target s ≡ n = ap (λ l. back l 0) same ∙ back-snoc (targets es') n 0 in
    let test : has_name (get_or s.vlocals (top_target s) temporary).name ≡ b =
      ap (λ m. has_name (get_or s.vlocals m temporary).name) top
      ∙ ap has_name (vlocals_name f s n r)
      ∙ h in
    (
      ap some (sym top),
      record {
        vlocals = ap (λ c. map name_of (rest_locals c s)) test ∙ e;
        targetstack = ap without_last same ∙ without_last-snoc (targets es') n;
        stacksize = r.stacksize;
      },
    )

pop-Matches :
    (es : List Entry) (peak : ℕ) (s : FuncState)
    → let f : Frame = record { entries = es; peak = peak } in
      Represents f s → on_top es ≡ true → Matches (spec_op pop_op f) (exec_op pop_op s)
pop-Matches (fresh ∷ es) peak s r h =
    popped-Matches (length (names es)) es false _ s r refl
      (ap has_name (get_or-snoc (names es) none none))
      (map-without_last name_of s.vlocals
        ∙ ap without_last r.vlocals
        ∙ without_last-snoc (names es) none)
pop-Matches (alias n ∷ es) peak s r h = popped-Matches n es true _ s r refl h r.vlocals
pop-Matches (local x ∷ es) peak s r h = ground arith
pop-Matches [] peak s r h = ground arith

drop_local-Represents :
    (x peak : ℕ) (es : List Entry) (s : FuncState)
    → Represents (record { entries = local x ∷ es; peak = peak }) s
    → Represents (record { entries = es; peak = peak }) (drop_local s)
drop_local-Represents x peak es s r =
    let v : map name_of (without_last s.vlocals) ≡ names es =
      map-without_last name_of s.vlocals
      ∙ ap without_last r.vlocals
      ∙ without_last-snoc (names es) (some x) in
    either (has_name (back s.vlocals temporary).name) v
  where
    lvi : LocalVarInfo
    lvi = back s.vlocals temporary

    r' : FuncState
    r' = record s { vlocals = without_last s.vlocals }

    either :
        (b : Bool)
        → map name_of (without_last s.vlocals) ≡ names es
        → Represents
            (record { entries = es; peak = peak })
            (if b
              then record r' {
                outers = if is_outer lvi then s.outers - 1 else s.outers;
                localvarinfos = s.localvarinfos ++ record lvi { end_op = current_pos s } ∷ [];
              }
              else r')
    either true v = record { vlocals = v; targetstack = r.targetstack; stacksize = r.stacksize }
    either false v = record { vlocals = v; targetstack = r.targetstack; stacksize = r.stacksize }

drop_locals-Represents :
    (k peak : ℕ) (es : List Entry) (s : FuncState)
    → only_locals k es ≡ true
    → Represents (record { entries = es; peak = peak }) s
    → Represents (record { entries = drop_entries k es; peak = peak }) (drop_locals k s)
drop_locals-Represents zero peak es s h r = r
drop_locals-Represents (suc k) peak [] s h r = ground arith
drop_locals-Represents (suc k) peak (local x ∷ es) s h r =
    drop_locals-Represents k peak es (drop_local s) h (drop_local-Represents x peak es s r)
drop_locals-Represents (suc k) peak (fresh ∷ es) s h r = ground arith
drop_locals-Represents (suc k) peak (alias n ∷ es) s h r = ground arith

only_locals_bound : (k : ℕ) (es : List Entry) → only_locals k es ≡ true → k ≤ length (names es)
only_locals_bound zero es h = omega arith
only_locals_bound (suc k) [] h = ground arith
only_locals_bound (suc k) (local x ∷ es) h =
    omega (arith, only_locals_bound k es h, length-snoc (names es) (some x))
only_locals_bound (suc k) (fresh ∷ es) h = ground arith
only_locals_bound (suc k) (alias n ∷ es) h = ground arith

leave-Matches :
    (k : ℕ) (f : Frame) (s : FuncState)
    → Represents f s
    → only_locals k f.entries ≡ true
    → Matches (spec_op (leave k) f) (exec_op (leave k) s)
unfolding exec_op set_stack_size
leave-Matches k f s r h =
    let l = length-vlocals f s r in
    let e : length s.vlocals - (length s.vlocals - k) ≡ k =
      omega (arith, l, only_locals_bound k f.entries h) in
    (refl, rw e (drop_locals-Represents k f.peak f.entries s h r))

pub exec_op-Matches :
    (op : StackOp) (f : Frame) (s : FuncState)
    → Represents f s
    → allowed op f ≡ true
    → Matches (spec_op op f) (exec_op op s)
exec_op-Matches push_fresh f s r h = push_fresh-Matches f s r
exec_op-Matches pop_op f s r h = pop-Matches f.entries f.peak s r h
exec_op-Matches (push_alias n) f s r h = push_alias-Matches n f s r
exec_op-Matches (declare x) f s r h = declare-Represents x f s r
exec_op-Matches (leave k) f s r h = leave-Matches k f s r h
