-- ===== src/Func/Represents.antt =====
-- What it means that the stack of targets holds the stack of Func/Frame, and what is put on it.
use squirrel_gobject.Prelude.{
  ℕ, ◌+◌, ◌≡◌, refl, sym, ap, ◌∙◌, ltb, if◌then◌else◌, Bool, true, false, ◌&&◌, Option, none, some,
  max, [], ◌∷◌, ◌++◌, map, length, get_or, arith,
}
use mathlib.Core.Path.{subst}
use squirrel_gobject.Prelude.Outcome.{ok, err, out_of_fuel, ◌>>=◌}
use squirrel_gobject.Func.State.{FuncState, LocalVarInfo, temporary}
use squirrel_gobject.Func.Targets.{
  too_many_locals, with_local, with_target, alloc_stack_pos, push_target, push_local_variable,
}
use squirrel_gobject.Func.Snoc.{length-snoc, length-map, map-snoc, get_or-map}
use squirrel_gobject.Func.Frame.{
  fresh, Frame, names, targets, push_fresh, push_alias, declare, Answer, answered, exec_op, placed,
  spec_op,
}

abbrev pub name_of : LocalVarInfo → Option ℕ
name_of v = v.name

pub record Represents (f : Frame) (s : FuncState) : Type 0 where
  pub vlocals : map name_of s.vlocals ≡ names f.entries
  pub targetstack : s.targetstack ≡ targets f.entries
  pub stacksize : s.stacksize ≡ f.peak

-- The same error, or the same position and a stack that is represented.
abbrev pub Matches : Answer Frame → Answer FuncState → Type 0
Matches (ok (n, f)) (ok (m, s)) = (n ≡ m) × Represents f s
Matches (err e) (err e') = e ≡ e'
Matches out_of_fuel out_of_fuel = Unit
Matches _ _ = ⊥

pub length-vlocals :
    (f : Frame) (s : FuncState) → Represents f s → length s.vlocals ≡ length (names f.entries)
length-vlocals f s r = sym (length-map name_of s.vlocals) ∙ ap length r.vlocals

pub vlocals_name :
    (f : Frame) (s : FuncState) (n : ℕ)
    → Represents f s
    → (get_or s.vlocals n temporary).name ≡ get_or (names f.entries) n none
vlocals_name f s n r =
    get_or-map name_of s.vlocals n temporary ∙ ap (λ l. get_or l n none) r.vlocals

raised : (n k : ℕ) → (if ltb n (k + 1) then k + 1 else n) ≡ max n (k + 1)
raised n k = ground arith

with_local-stacksize :
    (lvi : LocalVarInfo) (f : Frame) (s : FuncState)
    → Represents f s
    → (with_local lvi s).stacksize ≡ max f.peak (length (names f.entries) + 1)
with_local-stacksize lvi f s r =
    let e : length (s.vlocals ++ lvi ∷ []) ≡ length (names f.entries) + 1 =
      length-snoc s.vlocals lvi ∙ ap (λ n. n + 1) (length-vlocals f s r) in
    rw (e, r.stacksize) (raised f.peak (length (names f.entries)))

pub declare-Represents :
    (x : ℕ) (f : Frame) (s : FuncState)
    → Represents f s
    → Matches (spec_op (declare x) f) (exec_op (declare x) s)
unfolding exec_op push_local_variable
declare-Represents x f s r = (
  ap some (sym (length-vlocals f s r)),
  record {
    vlocals = map-snoc name_of s.vlocals _ ∙ ap (λ l. l ++ some x ∷ []) r.vlocals;
    targetstack = r.targetstack;
    stacksize = with_local-stacksize _ f s r;
  },
)

allocated :
    (c d : Bool) (a : Option ℕ × Frame) (r : ℕ × FuncState)
    → Matches (ok a) (ok (some (with_target r).0, (with_target r).1))
    → Matches (if c && d then err too_many_locals else ok a) (
        answered
          (do t ← if c then if d then err too_many_locals else ok r else ok r; ok (with_target t)))
allocated true true a r h = refl
allocated true false a r h = h
allocated false d a r h = h

pub push_fresh-Matches :
    (f : Frame) (s : FuncState)
    → Represents f s
    → Matches (spec_op push_fresh f) (exec_op push_fresh s)
unfolding exec_op push_target alloc_stack_pos
push_fresh-Matches f s r =
    let n = length (names f.entries) in
    let l = length-vlocals f s r in
    let pushed : Represents (placed fresh f)
        (with_target (length s.vlocals, with_local temporary s)).1 =
      record {
        vlocals = map-snoc name_of s.vlocals temporary ∙ ap (λ l. l ++ none ∷ []) r.vlocals;
        targetstack = rw (r.targetstack, l) refl;
        stacksize = with_local-stacksize temporary f s r;
      } in
    let wide = ltb s.stacksize (length s.vlocals + 1) in
    let e : wide ≡ ltb f.peak (n + 1) = rw (r.stacksize, l) refl in
    let e' : ltb 255 s.stacksize ≡ ltb 255 f.peak = rw r.stacksize refl in
    let answer : Answer Frame = ok (some n, placed fresh f) in
    subst
      (λ c.
        Matches (if c && ltb 255 f.peak then err too_many_locals else answer)
          (exec_op push_fresh s))
      e
      (subst
        (λ d. Matches (if wide && d then err too_many_locals else answer) (exec_op push_fresh s)) e'
        (allocated wide (ltb 255 s.stacksize) (some n, placed fresh f)
          (length s.vlocals, with_local temporary s) (ap some (sym l), pushed)))

pub push_alias-Matches :
    (n : ℕ) (f : Frame) (s : FuncState)
    → Represents f s
    → Matches (spec_op (push_alias n) f) (exec_op (push_alias n) s)
unfolding exec_op push_target
push_alias-Matches n f s r = (
  refl,
  record {
    vlocals = r.vlocals;
    targetstack = ap (λ t. t ++ n ∷ []) r.targetstack;
    stacksize = r.stacksize;
  },
)
