-- ===== src/Func/Names.antt =====
-- The searches for a name, and vectors with one element more.
use squirrel_gobject.Prelude.{
  ℕ, ◌<◌, ◌≢◌, zero, suc, ◌+◌, ◌≡◌, ◌⊎◌, inl, inr, refl, sym, ap, ◌==◌, true, Bool-cases, Option,
  none, some, List, [], ◌∷◌, ◌++◌, length, get_or, set, get_elem?, arith, ==→eq,
}
use mathlib.Core.Path.{subst}
use squirrel_gobject.Func.State.{LocalVarInfo, OuterVar, temporary}
use squirrel_gobject.Func.Targets.{is_named, find_local}
use squirrel_gobject.Func.Outers.{find_outer}

-- The search answers a variable of the name.
pub find_outer_lem :
    (name k : ℕ) (vs : List OuterVar) (i : ℕ)
    → find_outer name k vs ≡ some i
    → (j : ℕ) × (i ≡ k + j) × (v : OuterVar) × (get_elem? vs j ≡ some v) × (v.name ≡ name)
find_outer_lem name k [] i e = absurd (cc e)
find_outer_lem name k (v ∷ vs) i e = elim (Bool-cases (v.name == name)) [
  | inl t ↦ let q : k ≡ i = cc (rw t at e) in (0, omega (arith, q), v, refl, ==→eq v.name name t)
  | inr t ↦
      let (j, q, w, f, n) = find_outer_lem name (suc k) vs i (rw t at e) in
      (suc j, omega (arith, q), w, f, n)
]

pub is_named-eq : (name : ℕ) (o : Option ℕ) → is_named name o ≡ true → o ≡ some name
is_named-eq name (some other) h = ap some (==→eq other name h)
is_named-eq name none h = absurd (cc h)

named_eq : (name : ℕ) (o : Option ℕ) → o ≡ some name → is_named name o ≡ true
named_eq name (some other) h = ground (arith, h)
named_eq name none h = absurd (cc h)

-- The search of a local variable answers a position of the name.
pub find_local_lem :
    (name n : ℕ) (vs : List LocalVarInfo) (i : ℕ)
    → find_local name n vs ≡ some i
    → (get_or vs i temporary).name ≡ some name
find_local_lem name zero vs i e = absurd (cc e)
find_local_lem name (suc n) vs i e =
    elim (Bool-cases (is_named name (get_or vs n temporary).name)) [
      | inl t ↦
          let q : n ≡ i = cc (rw t at e) in
          subst (λ m. (get_or vs m temporary).name ≡ some name) q (is_named-eq name _ t)
      | inr t ↦ find_local_lem name n vs i (rw t at e)
    ]

-- Where the search fails, no position has the name.
pub find_local-none :
    (name n : ℕ) (vs : List LocalVarInfo)
    → find_local name n vs ≡ none
    → (i : ℕ) → i < n
    → (get_or vs i temporary).name ≢ some name
find_local-none name zero vs e i l = absurd (omega arith)
find_local-none name (suc n) vs e i l =
    elim (Bool-cases (is_named name (get_or vs n temporary).name)) [
      | inl t ↦ absurd (cc (rw t at e))
      | inr t ↦ elim (Bool-cases (i == n)) [
        | inl q ↦ λ h.
            let same = ==→eq i n q in
            cc (named_eq name _ (subst (λ m. (get_or vs m temporary).name ≡ some name) same h), t)
        | inr q ↦ find_local-none name n vs (rw t at e) i (ground (arith, q, l))
      ]
    ]

pub get_elem?-snoc :
    (vs : List OuterVar) (w : OuterVar) → get_elem? (vs ++ w ∷ []) (length vs) ≡ some w
get_elem?-snoc [] w = refl
get_elem?-snoc (v ∷ vs) w = get_elem?-snoc vs w

pub get_elem?-append :
    (vs ws : List OuterVar) (i : ℕ) (v : OuterVar)
    → get_elem? vs i ≡ some v
    → get_elem? (vs ++ ws) i ≡ some v
get_elem?-append [] ws i v e = absurd (cc e)
get_elem?-append (x ∷ vs) ws zero v e = e
get_elem?-append (x ∷ vs) ws (suc i) v e = get_elem?-append vs ws i v e

-- An element of a list with one more is one of the list or the last one.
pub get_elem?-last :
    (vs : List OuterVar) (w : OuterVar) (i : ℕ) (v : OuterVar)
    → get_elem? (vs ++ w ∷ []) i ≡ some v
    → (get_elem? vs i ≡ some v) ⊎ ((i ≡ length vs) × (w ≡ v))
get_elem?-last [] w zero v e = inr (refl, cc e)
get_elem?-last [] w (suc i) v e = absurd (cc e)
get_elem?-last (x ∷ vs) w zero v e = inl e
get_elem?-last (x ∷ vs) w (suc i) v e = elim (get_elem?-last vs w i v e) [
  | inl f ↦ inl f
  | inr (q, f) ↦ inr (ap suc q, f)
]

pub name-set :
    (vs : List LocalVarInfo) (pos n : ℕ) (w : LocalVarInfo)
    → w.name ≡ (get_or vs pos temporary).name
    → (get_or vs n temporary).name ≡ (get_or (set vs pos w) n temporary).name
name-set [] pos n w e = refl
name-set (x ∷ vs) zero zero w e = sym e
name-set (x ∷ vs) zero (suc n) w e = refl
name-set (x ∷ vs) (suc pos) zero w e = refl
name-set (x ∷ vs) (suc pos) (suc n) w e = name-set vs pos n w e
