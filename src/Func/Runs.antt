-- ===== src/Func/Runs.antt =====
-- Runs of the stack of targets.
use squirrel_gobject.Prelude.{ℕ, ◌≡◌, refl, Option, List, [], ◌∷◌}
use squirrel_gobject.Prelude.Outcome.{ok, err, out_of_fuel, ◌>>=◌}
use squirrel_gobject.Func.State.{FuncState}
use squirrel_gobject.Func.Targets.{Compiled}
use squirrel_gobject.Func.Frame.{
  Frame, StackOp, Answer, exec_op, spec_op, exec_ops, spec_ops, Allowed, AllowedThen,
}
use squirrel_gobject.Func.Represents.{Represents, Matches}
use squirrel_gobject.Func.Refine.{exec_op-Matches}

-- The same error, or the same positions and a stack that is represented.
abbrev pub RunMatches :
    Compiled (List (Option ℕ) × Frame) → Compiled (List (Option ℕ) × FuncState) → Type 0
RunMatches (ok (ns, f)) (ok (ms, s)) = (ns ≡ ms) × Represents f s
RunMatches (err e) (err e') = e ≡ e'
RunMatches out_of_fuel out_of_fuel = Unit
RunMatches _ _ = ⊥

cons-RunMatches :
    (n m : Option ℕ) (x : Compiled (List (Option ℕ) × Frame))
    (y : Compiled (List (Option ℕ) × FuncState))
    → n ≡ m
    → RunMatches x y
    → RunMatches (do (ns, f) ← x; ok (n ∷ ns, f)) (do (ns, s) ← y; ok (m ∷ ns, s))
cons-RunMatches n m (ok (ns, f)) (ok (ms, s)) e (q, r) = (cc (e, q), r)
cons-RunMatches n m (err a) (err b) e q = q
cons-RunMatches n m (ok a) (err b) e q = absurd q
cons-RunMatches n m (ok a) out_of_fuel e q = absurd q
cons-RunMatches n m (err a) (ok b) e q = absurd q
cons-RunMatches n m (err a) out_of_fuel e q = absurd q
cons-RunMatches n m out_of_fuel (ok b) e q = absurd q
cons-RunMatches n m out_of_fuel (err b) e q = absurd q
cons-RunMatches n m out_of_fuel out_of_fuel e q = tt

then-RunMatches :
    (ops : List StackOp) (a : Answer Frame) (b : Answer FuncState)
    → Matches a b
    → AllowedThen (Allowed ops) a
    → ((f : Frame) (s : FuncState)
        → Represents f s
        → Allowed ops f
        → RunMatches (spec_ops ops f) (exec_ops ops s))
    → RunMatches
        (do (n, f) ← a; (ns, f') ← spec_ops ops f; ok (n ∷ ns, f'))
        (do (n, s) ← b; (ns, s') ← exec_ops ops s; ok (n ∷ ns, s'))
then-RunMatches ops (ok (n, f)) (ok (m, s)) (e, r) h go =
    cons-RunMatches n m (spec_ops ops f) (exec_ops ops s) e (go f s r h)
then-RunMatches ops (err e) (err e') h g go = h
then-RunMatches ops (ok a) (err b) h g go = absurd h
then-RunMatches ops (ok a) out_of_fuel h g go = absurd h
then-RunMatches ops (err a) (ok b) h g go = absurd h
then-RunMatches ops (err a) out_of_fuel h g go = absurd h
then-RunMatches ops out_of_fuel (ok b) h g go = absurd h
then-RunMatches ops out_of_fuel (err b) h g go = absurd h
then-RunMatches ops out_of_fuel out_of_fuel h g go = tt

-- For every run of pushes, pops, declarations and scopes that only pops targets that are on top and
-- only leaves locals behind: the code answers the positions of the abstract stack, ends with the
-- same vector of names, the same stack of targets and the largest number of positions that were
-- in use, or stops with the same error where there are too many.
pub exec_ops-RunMatches :
    (ops : List StackOp) (f : Frame) (s : FuncState)
    → Represents f s
    → Allowed ops f
    → RunMatches (spec_ops ops f) (exec_ops ops s)
unfolding exec_ops
exec_ops-RunMatches [] f s r h = (refl, r)
exec_ops-RunMatches (op ∷ ops) f s r (h, g) =
    then-RunMatches ops (spec_op op f) (exec_op op s) (exec_op-Matches op f s r h) g
      (exec_ops-RunMatches ops)
