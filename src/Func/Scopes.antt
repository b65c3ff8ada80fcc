-- ===== src/Func/Scopes.antt =====
-- Where the variables of `GetOuterVariable` come from.
use squirrel_gobject.Prelude.{
  ℕ, ◌<◌, length, ◌≢◌, ◌≡◌, refl, sym, ◌∙◌, Option, none, some, [], ◌∷◌, get_or, get_elem?,
}
use squirrel_gobject.Func.State.{FuncState, OuterVar, ot_local, ot_outer, temporary}
use squirrel_gobject.Func.Outers.{Chain}

-- The name of a position.
abbrev pub name_at : FuncState → ℕ → Option ℕ
name_at s n = (get_or s.vlocals n temporary).name

-- A variable called `name` at index `i` of the first function comes, through a variable of each function in
-- between, from a local variable of that name in a function further out.
pub data Resolves (name : ℕ) : ℕ → Chain → Type 0 where
  taken_local :
      {i : ℕ} {s p : FuncState} {ps : Chain} {v : OuterVar}
      → get_elem? s.outervalues i ≡ some v
      → v.name ≡ name
      → v.type ≡ ot_local
      → name_at p v.src ≡ some name
      → Resolves name i (s ∷ p ∷ ps)
  taken_outer :
      {i : ℕ} {s : FuncState} {ps : Chain} {v : OuterVar}
      → get_elem? s.outervalues i ≡ some v
      → v.name ≡ name
      → v.type ≡ ot_outer
      → Resolves name v.src ps
      → Resolves name i (s ∷ ps)

-- The variables of each function resolve.
abbrev pub Closed : Chain → Type 0
Closed [] = Unit
Closed (s ∷ ps) =
    ((i : ℕ) (v : OuterVar) → get_elem? s.outervalues i ≡ some v → Resolves v.name i (s ∷ ps))
    × Closed ps

-- The same functions with the same names, and perhaps further variables.
abbrev pub Grown : Chain → Chain → Type 0
Grown [] [] = Unit
Grown (s ∷ ps) (t ∷ qs) =
    ((n : ℕ) → name_at s n ≡ name_at t n)
    × ((i : ℕ) (v : OuterVar)
        → get_elem? s.outervalues i ≡ some v
        → get_elem? t.outervalues i ≡ some v)
    × Grown ps qs
Grown _ _ = ⊥

pub Grown-refl : (ps : Chain) → Grown ps ps
Grown-refl [] = tt
Grown-refl (s ∷ ps) = (λ n. refl, λ i v e. e, Grown-refl ps)

pub Resolves-Grown :
    (name i : ℕ) (ps qs : Chain) → Grown ps qs → Resolves name i ps → Resolves name i qs
Resolves-Grown name i [] [] g r = r
Resolves-Grown name i [] (t ∷ qs) g r = absurd g
Resolves-Grown name i (s ∷ ps) [] g r = absurd g
Resolves-Grown name i (s ∷ p ∷ ps) (t ∷ []) (n, o, g) r = absurd g
Resolves-Grown name i (s ∷ p ∷ ps) (t ∷ q ∷ qs) (n, o, g) (taken_local {v = v} e a b c) =
    taken_local (o i v e) a b (sym (g.0 v.src) ∙ c)
Resolves-Grown name i (s ∷ ps) (t ∷ qs) (n, o, g) (taken_outer {v = v} e a b r) =
    taken_outer (o i v e) a b (Resolves-Grown name v.src ps qs g r)

-- No local variable of the function has the name.
abbrev pub Undeclared : ℕ → FuncState → Type 0
Undeclared name p = (n : ℕ) → n < length p.vlocals → name_at p n ≢ some name

-- No function around has a local variable of the name.
abbrev pub Unbound : ℕ → Chain → Type 0
Unbound name [] = Unit
Unbound name (s ∷ []) = Unit
Unbound name (s ∷ p ∷ ps) = Undeclared name p × Unbound name (p ∷ ps)

abbrev pub Answers : ℕ → Chain → Option ℕ × Chain → Type 0
Answers name fs (some i, gs) = Resolves name i gs
Answers name fs (none, gs) = Unbound name fs

abbrev pub Scoped : ℕ → Chain → Option ℕ × Chain → Type 0
Scoped name fs r = Closed r.1 × Grown fs r.1 × Answers name fs r
