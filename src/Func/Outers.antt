-- ===== src/Func/Outers.antt =====
-- The variables that a function takes from the functions around it: `GetOuterVariable`. The function
-- stands first in a list, the functions around it behind it.
use squirrel_gobject.Prelude.{
  ℕ, suc, ◌==◌, if◌then◌else◌, Option, none, some, List, [], ◌∷◌, ◌++◌, length,
}
use squirrel_gobject.Func.State.{FuncState, OuterVar, OuterType, ot_local, ot_outer}
use squirrel_gobject.Func.Targets.{get_local_variable, mark_local_as_outer}

-- the loop of `GetOuterVariable` over the variables that the function has, from index `i` on
abbrev pub find_outer : ℕ → ℕ → List OuterVar → Option ℕ
find_outer name i [] = none
find_outer name i (v ∷ vs) =
    let rest = find_outer name (suc i) vs in if v.name == name then some i else rest

-- `_outervalues.push_back(SQOuterVar(name, pos, type))`
abbrev pub push_outer : ℕ → OuterType → ℕ → FuncState → FuncState
push_outer name type pos s = record s {
  outervalues = s.outervalues ++ record { type = type; name = name; src = pos } ∷ [];
}

abbrev pub Chain : Type 0
Chain = List FuncState

-- a variable of the parent's own parents
abbrev pub from_parent_outer : ℕ → FuncState → Option ℕ × Chain → Option ℕ × Chain
from_parent_outer name s (some pos, ps) =
    (some (length s.outervalues), push_outer name ot_outer pos s ∷ ps)
from_parent_outer name s (none, ps) = (none, s ∷ ps)

-- a local variable of the parent, where there is one
abbrev pub from_parent :
    ℕ → FuncState → Option ℕ → FuncState → Chain → Option ℕ × Chain → Option ℕ × Chain
from_parent name s (some pos) p ps up =
    (some (length s.outervalues), push_outer name ot_local pos s ∷ mark_local_as_outer pos p ∷ ps)
from_parent name s none p ps up = from_parent_outer name s up

-- what follows the search in the function's own variables
abbrev pub unless_found : Option ℕ → FuncState → Chain → Option ℕ × Chain → Option ℕ × Chain
unless_found (some i) s ps r = (some i, s ∷ ps)
unless_found none s ps r = r

-- `GetOuterVariable`
abbrev pub in_parents : ℕ → FuncState → Chain → Option ℕ × Chain → Option ℕ × Chain
in_parents name s [] up = (none, s ∷ [])
in_parents name s (p ∷ ps) up = from_parent name s (get_local_variable name p) p ps up

unfoldable pub get_outer_variable : ℕ → Chain → Option ℕ × Chain
get_outer_variable name [] = (none, [])
get_outer_variable name (s ∷ ps) =
    let up = get_outer_variable name ps in
    unless_found (find_outer name 0 s.outervalues) s ps (in_parents name s ps up)
