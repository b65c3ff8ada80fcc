-- ===== src/Func/Capture.antt =====
-- What `GetOuterVariable` answers and leaves behind.
use squirrel_gobject.Prelude.{
  ℕ, ◌≡◌, inl, inr, refl, sym, ◌∙◌, Option, none, some, [], ◌∷◌, length, get_elem?, arith,
}
use mathlib.Core.Path.{subst}
use squirrel_gobject.Func.State.{FuncState, OuterVar, OuterType, ot_local, ot_outer}
use squirrel_gobject.Func.Targets.{get_local_variable, mark_local_as_outer}
use squirrel_gobject.Func.Outers.{
  Chain, find_outer, push_outer, from_parent, unless_found, get_outer_variable,
}
use squirrel_gobject.Func.Names.{
  find_outer_lem, find_local_lem, find_local-none, get_elem?-snoc, get_elem?-append, get_elem?-last,
  name-set,
}
use squirrel_gobject.Func.Scopes.{
  name_at, Resolves, taken_local, taken_outer, Closed, Grown, Grown-refl, Resolves-Grown, Scoped,
}

mark_lem : (pos : ℕ) (p : FuncState) (n : ℕ) → name_at p n ≡ name_at (mark_local_as_outer pos p) n
unfolding mark_local_as_outer
mark_lem pos p n = name-set p.vlocals pos n _ refl

mark-Grown :
    (pos : ℕ) (p : FuncState) (ps : Chain) → Grown (p ∷ ps) (mark_local_as_outer pos p ∷ ps)
unfolding mark_local_as_outer
mark-Grown pos p ps = (mark_lem pos p, λ i v e. e, Grown-refl ps)

mark-Closed :
    (pos : ℕ) (p : FuncState) (ps : Chain)
    → Closed (p ∷ ps)
    → Closed (mark_local_as_outer pos p ∷ ps)
unfolding mark_local_as_outer
mark-Closed pos p ps (h, c) =
    (λ i v e. Resolves-Grown v.name i (p ∷ ps) _ (mark-Grown pos p ps) (h i v e), c)

-- A variable more, which resolves.
push_lem :
    (name : ℕ) (type : OuterType) (pos : ℕ) (s : FuncState) (ps qs : Chain)
    → Closed (s ∷ ps)
    → Grown ps qs
    → Closed qs
    → Resolves name (length s.outervalues) (push_outer name type pos s ∷ qs)
    → Closed (push_outer name type pos s ∷ qs) × Grown (s ∷ ps) (push_outer name type pos s ∷ qs)
push_lem name type pos s ps qs (h, _) g c r =
    let w : OuterVar = record { type = type; name = name; src = pos } in
    let t = push_outer name type pos s in
    let grown : Grown (s ∷ ps) (t ∷ qs) =
      (λ n. refl, λ i v e. get_elem?-append s.outervalues (w ∷ []) i v e, g) in
    let each : (i : ℕ) (v : OuterVar)
        → get_elem? t.outervalues i ≡ some v
        → Resolves v.name i (t ∷ qs) =
      λ i v e. elim (get_elem?-last s.outervalues w i v e) [
        | inl f ↦ Resolves-Grown v.name i (s ∷ ps) (t ∷ qs) grown (h i v f)
        | inr (q, f) ↦
            subst (λ k. Resolves v.name k (t ∷ qs)) (sym q)
              (subst (λ u. Resolves u.name (length s.outervalues) (t ∷ qs)) f r)
      ] in
    ((each, c), grown)

from_parent-Scoped :
    (name : ℕ) (s p : FuncState) (ps : Chain) (up : Option ℕ × Chain) (o : Option ℕ)
    → get_local_variable name p ≡ o
    → Closed (s ∷ p ∷ ps)
    → Scoped name (p ∷ ps) up
    → Scoped name (s ∷ p ∷ ps) (from_parent name s o p ps up)
unfolding get_local_variable
from_parent-Scoped name s p ps up (some pos) e h w =
    let here = find_local_lem name (length p.vlocals) p.vlocals pos e in
    let r =
      taken_local (get_elem?-snoc s.outervalues _) refl refl (sym (mark_lem pos p pos) ∙ here) in
    let (c, g) =
      push_lem name ot_local pos s (p ∷ ps) (mark_local_as_outer pos p ∷ ps) h (mark-Grown pos p ps)
        (mark-Closed pos p ps h.1) r in
    (c, g, r)
from_parent-Scoped name s p ps (some pos, qs) none e h (c, g, a) =
    let r = taken_outer (get_elem?-snoc s.outervalues _) refl refl a in
    let (c', g') = push_lem name ot_outer pos s (p ∷ ps) qs h g c r in (c', g', r)
from_parent-Scoped name s p ps (none, qs) none e h (c, g, a) =
    let grown : Grown (s ∷ p ∷ ps) (s ∷ qs) = (λ n. refl, λ i v f. f, g) in
    (
      (λ i v f. Resolves-Grown v.name i (s ∷ p ∷ ps) (s ∷ qs) grown (h.0 i v f), c),
      grown,
      (find_local-none name (length p.vlocals) p.vlocals e, a),
    )

found-Scoped :
    (name i : ℕ) (s : FuncState) (ps : Chain)
    → find_outer name 0 s.outervalues ≡ some i
    → Closed (s ∷ ps)
    → Scoped name (s ∷ ps) (some i, s ∷ ps)
found-Scoped name i s ps e h =
    let (j, q, v, f, n) = find_outer_lem name 0 s.outervalues i e in
    let same : j ≡ i = omega (arith, q) in
    (
      h,
      Grown-refl (s ∷ ps),
      subst (λ k. Resolves name k (s ∷ ps)) same (subst (λ x. Resolves x j (s ∷ ps)) n (h.0 j v f)),
    )

-- Where the variables of a function and of those around it resolve, they do so after
-- GetOuterVariable, and no name and no variable is lost. An answer is the index of a variable that
-- comes, through a variable of each function in between, from a local variable of the name; -1 is
-- answered only where no function around has such a local variable.
pub get_outer_variable-Scoped :
    (name : ℕ) (fs : Chain) → Closed fs → Scoped name fs (get_outer_variable name fs)
unfolding get_outer_variable
get_outer_variable-Scoped name [] h = (tt, tt, tt)
get_outer_variable-Scoped name (s ∷ []) h = either (find_outer name 0 s.outervalues) refl
  where
    either :
        (o : Option ℕ)
        → find_outer name 0 s.outervalues ≡ o
        → Scoped name (s ∷ []) (unless_found o s [] (none, s ∷ []))
    either (some i) e = found-Scoped name i s [] e h
    either none e = (h, Grown-refl (s ∷ []), tt)
get_outer_variable-Scoped name (s ∷ p ∷ ps) h =
    either (find_outer name 0 s.outervalues) refl (get_outer_variable-Scoped name (p ∷ ps) h.1)
  where
    up : Option ℕ × Chain
    up = get_outer_variable name (p ∷ ps)

    either :
        (o : Option ℕ)
        → find_outer name 0 s.outervalues ≡ o
        → Scoped name (p ∷ ps) up
        → Scoped name
            (s ∷ p ∷ ps)
            (unless_found o s (p ∷ ps) (from_parent name s (get_local_variable name p) p ps up))
    either (some i) e w = found-Scoped name i s (p ∷ ps) e h
    either none e w = from_parent-Scoped name s p ps up (get_local_variable name p) refl h w
