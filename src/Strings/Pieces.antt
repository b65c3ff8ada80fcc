-- ===== src/Strings/Pieces.antt =====
-- What `split` gives.
use squirrel_gobject.Prelude.{
  ℕ, ◌≡◌, refl, ap, sym, ◌∙◌, ◌==◌, ==→eq, if◌then◌else◌, Bool, true, false, not, ◌||◌, Bool-cases,
  inl, inr, Option, none, some, List, [], ◌∷◌, ◌++◌, length, arith,
}
use mathlib.Core.List.{append_assoc, append-nil}
use mathlib.Core.Path.{subst}
use squirrel_gobject.Strings.{is_separator, last_piece, split_loop, split, c_string}

-- The character stands in the list.
pub data In (c : ℕ) : List ℕ → Type 0 where
  first : {d : ℕ} {s : List ℕ} → d ≡ c → In c (d ∷ s)
  later : {d : ℕ} {s : List ℕ} → In c s → In c (d ∷ s)

-- No character of the text stands among the separators.
abbrev pub Free : List ℕ → List ℕ → Type 0
Free seps [] = Unit
Free seps (c ∷ s) = (In c seps → ⊥) × Free seps s

-- The text is cut at every separator in it: `fields` are what stands before one, in their order,
-- and `rest` is what stands behind the last one.
pub data Cut (seps : List ℕ) : List ℕ → List (List ℕ) → List ℕ → Type 0 where
  uncut : {rest : List ℕ} → Free seps rest → Cut seps rest [] rest
  cut_at :
      {field text rest : List ℕ} {d : ℕ} {fields : List (List ℕ)}
      → Free seps field
      → In d seps
      → Cut seps text fields rest
      → Cut seps (field ++ d ∷ text) (field ∷ fields) rest

abbrev pub nonempty : List (List ℕ) → List (List ℕ)
nonempty [] = []
nonempty ([] ∷ ps) = nonempty ps
nonempty ((c ∷ p) ∷ ps) = (c ∷ p) ∷ nonempty ps

-- The pieces to answer: every field, or those with something in them, and the rest unless it is
-- empty.
abbrev pub shown : Bool → List (List ℕ) → List ℕ → List (List ℕ)
shown true fields rest = nonempty fields ++ nonempty (rest ∷ [])
shown false fields rest = fields ++ nonempty (rest ∷ [])

-- what `split` may answer
abbrev pub Pieces : List ℕ → List ℕ → Bool → Option (List (List ℕ)) → Type 0
Pieces text seps skip none = seps ≡ []
Pieces text seps skip (some ps) =
    (fields : List (List ℕ)) × (rest : List ℕ) × Cut seps text fields rest
    × (ps ≡ shown skip fields rest)

is_separator-In : (seps : List ℕ) (c : ℕ) → is_separator seps c ≡ true → In c seps
is_separator-In [] c h = absurd (cc h)
is_separator-In (d ∷ seps) c h = elim (Bool-cases (c == d)) [
  | inl e ↦ let same = ==→eq c d e in first (omega (arith, same))
  | inr e ↦ later (is_separator-In seps c (rw e at h))
]

In-is_separator : (seps : List ℕ) (c : ℕ) → In c seps → is_separator seps c ≡ true
In-is_separator [] c h = elim h [ ]
In-is_separator (d ∷ seps) c (first e) = ground (arith, e)
In-is_separator (d ∷ seps) c (later r) = ground (arith, In-is_separator seps c r)

Free-append :
    (seps piece : List ℕ) (c : ℕ)
    → Free seps piece
    → is_separator seps c ≡ false
    → Free seps (piece ++ c ∷ [])
Free-append seps [] c h n = ((λ r. cc (In-is_separator seps c r, n)), tt)
Free-append seps (d ∷ piece) c (a, h) n = (a, Free-append seps piece c h n)

-- the pieces where a separator ends one
pieces_at : Bool → List ℕ → List (List ℕ) → List (List ℕ)
pieces_at skip piece more = if not skip || not (length piece == 0) then piece ∷ more else more

longer_piece : (c : ℕ) (piece : List ℕ) → (length (c ∷ piece) == 0) ≡ false
longer_piece c piece = ground arith

pieces_at-shown :
    (skip : Bool) (piece rest : List ℕ) (fields : List (List ℕ))
    → pieces_at skip piece (shown skip fields rest) ≡ shown skip (piece ∷ fields) rest
unfolding pieces_at
pieces_at-shown false piece rest fields = refl
pieces_at-shown true [] rest fields = refl
pieces_at-shown true (c ∷ piece) rest fields = rw (longer_piece c piece) refl

last_piece-nonempty : (piece : List ℕ) → last_piece piece ≡ nonempty (piece ∷ [])
last_piece-nonempty [] = refl
last_piece-nonempty (c ∷ piece) = refl

at_end :
    (seps : List ℕ) (skip : Bool) (piece : List ℕ)
    → Free seps piece
    → Pieces (piece ++ []) seps skip (some (last_piece piece))
at_end seps true piece h = (
  [],
  piece,
  subst (λ t. Cut seps t [] piece) (sym (append-nil piece)) (uncut h),
  last_piece-nonempty piece,
)
at_end seps false piece h = (
  [],
  piece,
  subst (λ t. Cut seps t [] piece) (sym (append-nil piece)) (uncut h),
  last_piece-nonempty piece,
)

at_separator :
    (seps : List ℕ) (skip : Bool) (piece text : List ℕ) (d : ℕ) (more : List (List ℕ))
    → Free seps piece
    → is_separator seps d ≡ true
    → Pieces text seps skip (some more)
    → Pieces (piece ++ d ∷ text) seps skip (some (pieces_at skip piece more))
at_separator seps skip piece text d more h e (fields, rest, c, q) = (
  piece ∷ fields,
  rest,
  cut_at h (is_separator-In seps d e) c,
  ap (pieces_at skip piece) q ∙ pieces_at-shown skip piece rest fields,
)

split_loop-Pieces :
    (seps : List ℕ) (skip : Bool) (piece s : List ℕ)
    → Free seps piece
    → Pieces (piece ++ c_string s) seps skip (some (split_loop seps skip piece s))
unfolding split_loop c_string pieces_at
split_loop-Pieces seps skip piece [] h = at_end seps skip piece h
split_loop-Pieces seps skip piece (c ∷ s) h = elim (Bool-cases (c == 0)) [
  | inl z ↦ rw z (at_end seps skip piece h)
  | inr z ↦ elim (Bool-cases (is_separator seps c)) [
    | inl d ↦
        rw (z, d)
          (at_separator seps skip piece (c_string s) c (split_loop seps skip [] s) h d
            (split_loop-Pieces seps skip [] s tt))
    | inr d ↦
        rw (z, d)
          (subst (λ t. Pieces t seps skip (some (split_loop seps skip (piece ++ c ∷ []) s)))
            (append_assoc piece (c ∷ []) (c_string s))
            (split_loop-Pieces seps skip (piece ++ c ∷ []) s (Free-append seps piece c h d)))
  ]
]

-- `split` fails only where there is no separator. Else the string, up to its first zero byte, is
-- cut at every separator in it, and nowhere else. What stands before a separator is a piece, in
-- order, unless it is empty and empty pieces are skipped; what stands behind the last one is a
-- piece unless it is empty.
pub split-Pieces :
    (s seps : List ℕ) (skip : Bool) → Pieces (c_string s) seps skip (split s seps skip)
unfolding split
split-Pieces s [] skip = refl
split-Pieces s (d ∷ seps) skip =
    rw (longer_piece d seps) (split_loop-Pieces (d ∷ seps) skip [] s tt)
