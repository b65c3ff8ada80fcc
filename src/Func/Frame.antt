-- ===== src/Func/Frame.antt =====
-- What the stack of targets promises to the compiler: one stack of locals and of targets, of
-- which a target is a new temporary or stands for a local.
use squirrel_gobject.Prelude.{
  ℕ, zero, suc, ◌+◌, ◌-◌, ◌≡◌, ltb, if◌then◌else◌, Bool, true, false, ◌&&◌, Option, none, some, max,
  List, [], ◌∷◌, ◌++◌, length, get_or,
}
use squirrel_gobject.Prelude.Outcome.{ok, err, ◌>>=◌}
use squirrel_gobject.Func.State.{FuncState, has_name}
use squirrel_gobject.Func.Targets.{
  Compiled, too_many_locals, push_target, pop_target, push_local_variable, set_stack_size,
}

pub data Entry : Type 0 where
  local : ℕ → Entry
  fresh : Entry
  alias : ℕ → Entry

-- the newest entry first, and the largest number of positions that were in use at once
pub record Frame : Type 0 where
  pub entries : List Entry
  pub peak : ℕ

-- the names at the positions
abbrev pub names : List Entry → List (Option ℕ)
names [] = []
names (local x ∷ es) = names es ++ some x ∷ []
names (fresh ∷ es) = names es ++ none ∷ []
names (alias n ∷ es) = names es

abbrev pub targets : List Entry → List ℕ
targets [] = []
targets (local x ∷ es) = targets es
targets (fresh ∷ es) = targets es ++ length (names es) ∷ []
targets (alias n ∷ es) = targets es ++ n ∷ []

abbrev pub names_local : List Entry → ℕ → Bool
names_local es n = has_name (get_or (names es) n none)

-- what the compiler does with the stack: the last one leaves a scope of so many locals
pub data StackOp : Type 0 where
  push_fresh pop_op : StackOp
  push_alias declare leave : ℕ → StackOp

-- The answer of a call: a position where it gives one.
abbrev pub Answer : Type 0 → Type 0
Answer S = Compiled (Option ℕ × S)

abbrev pub answered {ℓ} : {S : Type ℓ} → Compiled (ℕ × S) → Compiled (Option ℕ × S)
answered r = do (n, s) ← r; ok (some n, s)

-- the code's own operations
unfoldable pub exec_op : StackOp → FuncState → Answer FuncState
exec_op push_fresh s = answered (push_target none s)
exec_op (push_alias n) s = answered (push_target (some n) s)
exec_op pop_op s = ok (some (pop_target s).0, (pop_target s).1)
exec_op (declare x) s = ok (some (push_local_variable x s).0, (push_local_variable x s).1)
exec_op (leave k) s = ok (none, set_stack_size (length s.vlocals - k) s)

-- what the compiler may do: a target stands for a local, one is popped where one is on top, and
-- only locals leave a scope
abbrev pub only_locals : ℕ → List Entry → Bool
only_locals zero es = true
only_locals (suc k) (local x ∷ es) = only_locals k es
only_locals (suc k) es = false

abbrev pub on_top : List Entry → Bool
on_top (fresh ∷ es) = true
on_top (alias n ∷ es) = names_local es n
on_top es = false

abbrev pub allowed : StackOp → Frame → Bool
allowed push_fresh f = true
allowed (push_alias n) f = names_local f.entries n
allowed pop_op f = on_top f.entries
allowed (declare x) f = true
allowed (leave k) f = only_locals k f.entries

abbrev pub drop_entries : ℕ → List Entry → List Entry
drop_entries zero es = es
drop_entries (suc k) [] = []
drop_entries (suc k) (e ∷ es) = drop_entries k es

abbrev pub popped : List Entry → Option ℕ × List Entry
popped (fresh ∷ es) = (some (length (names es)), es)
popped (alias n ∷ es) = (some n, es)
popped es = (none, es)

abbrev pub placed : Entry → Frame → Frame
placed e f = record { entries = e ∷ f.entries; peak = max f.peak (length (names f.entries) + 1) }

-- the same operations on the abstract stack
abbrev pub spec_op : StackOp → Frame → Answer Frame
spec_op push_fresh f =
    let n = length (names f.entries) in
    if ltb f.peak (n + 1) && ltb 255 f.peak
    then err too_many_locals
    else ok (some n, placed fresh f)
spec_op (push_alias n) f = ok (some n, record f { entries = alias n ∷ f.entries })
spec_op pop_op f = let (n, es) = popped f.entries in ok (n, record f { entries = es })
spec_op (declare x) f = ok (some (length (names f.entries)), placed (local x) f)
spec_op (leave k) f = ok (none, record f { entries = drop_entries k f.entries })

-- runs of both, with the positions that are answered
unfoldable pub exec_ops : List StackOp → FuncState → Compiled (List (Option ℕ) × FuncState)
exec_ops [] s = ok ([], s)
exec_ops (op ∷ ops) s = do (n, s₁) ← exec_op op s; (ns, s₂) ← exec_ops ops s₁; ok (n ∷ ns, s₂)

abbrev pub spec_ops : List StackOp → Frame → Compiled (List (Option ℕ) × Frame)
spec_ops [] f = ok ([], f)
spec_ops (op ∷ ops) f = do (n, f₁) ← spec_op op f; (ns, f₂) ← spec_ops ops f₁; ok (n ∷ ns, f₂)

abbrev pub AllowedThen : (Frame → Type 0) → Answer Frame → Type 0
AllowedThen next (ok (n, f)) = next f
AllowedThen next _ = Unit

-- Every operation of a run is allowed where its turn comes.
abbrev pub Allowed : List StackOp → Frame → Type 0
Allowed [] f = Unit
Allowed (op ∷ ops) f = (allowed op f ≡ true) × AllowedThen (Allowed ops) (spec_op op f)
