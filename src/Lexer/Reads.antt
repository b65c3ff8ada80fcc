-- ===== src/Lexer/Reads.antt =====
-- How the lexer moves over its text: it goes forward, and counts the line ends it passes.
use squirrel_gobject.Prelude.{
  ℕ, zero, suc, ◌+◌, ◌-◌, ◌≤◌, ◌≡◌, ◌≢◌, refl, ap, ◌∙◌, ◌==◌, if◌then◌else◌, Bool, false,
  Bool-cases, Option, none, some, inl, inr, List, [], ◌∷◌, length, arith,
}
pub use squirrel_gobject.Prelude.Outcome.{Ends, bind-Ends, map-Ends, if-Ends}
use squirrel_gobject.Lexer.Token.{Token}
use squirrel_gobject.Lexer.Cursor.{
  Cursor, cur, head_of, tail_of, next, next_line, span, read_while, read_at_most,
}
use squirrel_gobject.Lexer.Scan.{
  skip_block, block_comment, skip_line, line_comment, less_than, greater_than, dots, signed, slash,
  operator, two,
}

abbrev pub newlines : List ℕ → ℕ
newlines [] = 0
newlines (c ∷ cs) = (if c == b'\n' then 1 else 0) + newlines cs

-- the line on which the text will end
abbrev pub last_line : Cursor → ℕ
last_line k = k.line + newlines k.chars

-- `k'` stands further on in the text than `k`, or at the same place, and has counted the line
-- ends between the two.
pub record Reads (k k' : Cursor) : Type 0 where
  pub counted : last_line k' ≡ last_line k
  pub shorter : length k'.chars ≤ length k.chars

pub Reads-refl : (k : Cursor) → Reads k k
Reads-refl k = record { counted = refl; shorter = omega arith }

pub Reads-trans : {j k l : Cursor} → Reads j k → Reads k l → Reads j l
Reads-trans p q = record { counted = q.counted ∙ p.counted; shorter = omega arith }

newlines-tail : (cs : List ℕ) → head_of cs ≢ b'\n' → newlines (tail_of cs) ≡ newlines cs
newlines-tail [] h = refl
newlines-tail (c ∷ cs) h = ground arith

newlines-line_end : (cs : List ℕ) → head_of cs ≡ b'\n' → newlines (tail_of cs) + 1 ≡ newlines cs
newlines-line_end [] h = absurd (omega arith)
newlines-line_end (c ∷ cs) h = ground arith

length-tail : (cs : List ℕ) → length (tail_of cs) ≡ length cs - 1
length-tail [] = refl
length-tail (c ∷ cs) = omega arith

pub next-Reads : (k : Cursor) → cur k ≢ b'\n' → Reads k (next k)
unfolding next
next-Reads k h = omega (arith, newlines-tail k.chars h, length-tail k.chars)

pub length-next : (k : Cursor) → length (next k).chars ≡ length k.chars - 1
unfolding next
length-next k = length-tail k.chars

less_than-Reads : (k : Cursor) → Reads k (less_than k).1
unfolding less_than
less_than-Reads k = ground (arith, next-Reads k, next-Reads (next k))

greater_than-Reads : (k : Cursor) → Reads k (greater_than k).1
unfolding greater_than
greater_than-Reads k = ground (arith, next-Reads k, next-Reads (next k))

signed-Reads :
    (c : ℕ) (assign double : Token) (k : Cursor) → c ≢ b'\n' → Reads k (signed c assign double k).1
unfolding signed
signed-Reads c assign double k h = ground (arith, next-Reads k)

slash-Reads : (k : Cursor) → Reads k (slash k).1
unfolding slash
slash-Reads k = ground (arith, next-Reads k)

two-Reads :
    (short : Token) (second : ℕ) (long : Token) (k : Cursor)
    → second ≢ b'\n'
    → Reads k (two short second long k).1
two-Reads short second long k h = ground (arith, next-Reads k)

abbrev pub OnSome {ℓ} : {A : Type ℓ} → (A → Type 0) → Option A → Type 0
OnSome P none = Unit
OnSome P (some a) = P a

pub dots-Ends : (k : Cursor) → Ends (λ (r : Token × Cursor). Reads k r.1) (dots k)
unfolding dots
dots-Ends k = ground (arith, next-Reads k, next-Reads (next k))

pub operator-Reads :
    (c : ℕ) (k : Cursor) → OnSome (λ (r : Token × Cursor). Reads k r.1) (operator c k)
unfolding operator
operator-Reads c k = ground (
  arith,
  Reads-refl k,
  less_than-Reads k,
  greater_than-Reads k,
  slash-Reads k,
  next-Reads k,
  signed-Reads c Token.tk_minuseq Token.tk_minusminus k,
  signed-Reads c Token.tk_pluseq Token.tk_plusplus k,
)

pub next_line-Reads : (k : Cursor) → cur k ≡ b'\n' → Reads k (next_line k)
unfolding next_line next
next_line-Reads k e = omega (arith, newlines-line_end k.chars e, length-tail k.chars)

skip_line-Reads :
    (cs : List ℕ) (line column col : ℕ)
    → Reads (record { chars = cs; line = line; column = col }) (skip_line cs line column)
unfolding skip_line
skip_line-Reads [] line column col = omega arith
skip_line-Reads (c ∷ cs) line column col = ground (arith, skip_line-Reads cs line (column + 1) col)

pub line_comment-Reads : (k : Cursor) → Reads (next k) (line_comment k)
unfolding line_comment
line_comment-Reads k =
    let start = next k in skip_line-Reads start.chars start.line start.column start.column

skip_block-Ends :
    (cs : List ℕ) (line column col : ℕ)
    → Ends (Reads (record { chars = cs; line = line; column = col })) (skip_block cs line column)
unfolding skip_block
skip_block-Ends [] line column col = tt
skip_block-Ends (c ∷ cs) line column col = ground (
  arith,
  skip_block-Ends cs line (column + 1) col,
  skip_block-Ends cs (line + 1) (column + 1) col,
  newlines-tail cs,
  length-tail cs,
)

pub block_comment-Ends : (k : Cursor) → Ends (Reads k) (block_comment k)
unfolding block_comment
block_comment-Ends k = skip_block-Ends k.chars k.line k.column k.column

-- A test that no line end passes.
abbrev pub OneLine : (ℕ → Bool) → Type 0
OneLine test = test b'\n' ≡ false

span-lines :
    (test : ℕ → Bool) (cs : List ℕ)
    → OneLine test
    → (newlines (span test cs).1 ≡ newlines cs) × (length (span test cs).1 ≤ length cs)
unfolding span
span-lines test [] h = (refl, omega arith)
span-lines test (c ∷ cs) h = elim (Bool-cases (test c)) [
  | inl t ↦
      let apart : c ≢ b'\n' = λ e. cc (ap test e) in rw t (ground (arith, span-lines test cs h))
  | inr t ↦ rw t (refl, omega arith)
]

pub read_while-Reads : (test : ℕ → Bool) (k : Cursor) → OneLine test → Reads k (read_while test k).1
unfolding read_while
read_while-Reads test k h = omega (arith, span-lines test k.chars h)

pub read_at_most-Reads :
    (n : ℕ) (test : ℕ → Bool) (k : Cursor) → OneLine test → Reads k (read_at_most n test k).1
unfolding read_at_most
read_at_most-Reads zero test k h = Reads-refl k
read_at_most-Reads (suc n) test k h = elim (Bool-cases (test (cur k))) [
  | inl t ↦
      let apart : cur k ≢ b'\n' = λ e. cc (ap test e) in
      rw t (Reads-trans (next-Reads k apart) (read_at_most-Reads n test (next k) h))
  | inr t ↦ rw t (Reads-refl k)
]
