-- ===== src/Strings/Quoted.antt =====
-- What `escape` writes, the lexer reads back.
use squirrel_gobject.Prelude.{
  ℕ, suc, ◌+◌, ◌≡◌, refl, sym, ◌==◌, ==→eq, if◌then◌else◌, Bool, true, false, List, ◌∷◌, ◌++◌,
  length, length-append, arith,
}
use mathlib.Core.Path.{subst}
use squirrel_gobject.Prelude.Chars.{head_of}
use squirrel_gobject.Lexer.Token.{Token, tk_string_literal}
use squirrel_gobject.Lexer.Cursor.{
  at, Result, ok, err, out_of_fuel, unfinished_string, error_parsing_string, ◌>>=◌, Cursor, Lexer,
  move,
}
use squirrel_gobject.Lexer.Literal.{string_loop, literal, read_string}
use squirrel_gobject.Lexer.Scan.{return_token, lex}
use squirrel_gobject.Strings.{escape_loop, string_escape}
use squirrel_gobject.Strings.Escape.{
  Ascii, Yields, escape_loop-Yields, string_escape-text, escape_loop-longer,
}

-- The token is the string literal `s`, and the lexer stands before `rest`, on the same line.
abbrev pub ReadsBack : List ℕ → List ℕ → ℕ → Result (Token × Lexer) → Type 0
ReadsBack s rest line (ok (token, w)) =
    (token ≡ tk_string_literal) × (w.svalue ≡ s) × (w.at.chars ≡ rest) × (w.at.line ≡ line)
ReadsBack s rest line (err e) = ⊥
ReadsBack s rest line out_of_fuel = ⊥

-- a string as a program writes it: escaped, between double quotes
abbrev pub quoted : List ℕ → List ℕ → List ℕ
quoted s rest = b'"' ∷ string_escape s ++ b'"' ∷ rest

literal-ReadsBack :
    (s rest : List ℕ) (line : ℕ) (v : Lexer) (r : Result (List ℕ × Cursor))
    → Yields s rest line r
    → ReadsBack s rest line (r >>= λ (text, end). literal b'"' text end v)
unfolding literal
literal-ReadsBack s rest line v (ok (t, k)) (p, q, l) = (refl, p, q, l)
literal-ReadsBack s rest line v (err e) h = h
literal-ReadsBack s rest line v out_of_fuel h = h

-- A text that begins with a zero is no string.
string_loop-zero :
    (text : List ℕ) (f line column : ℕ)
    → head_of text ≡ 0
    → string_loop (suc f) b'"' false (at text line column) ≡ err unfinished_string
unfolding string_loop at
string_loop-zero text f line column e = rw e refl

zero-Yields :
    (s rest text : List ℕ) (f line line' column : ℕ)
    → head_of text ≡ 0
    → Yields s rest line (string_loop (suc f) b'"' false (at text line' column))
    → ⊥
zero-Yields s rest text f line line' column e h =
    subst (λ r. Yields s rest line r) (string_loop-zero text f line' column e) h

if-ReadsBack :
    (s rest : List ℕ) (line : ℕ) (b : Bool) (x y : Result (Token × Lexer))
    → (b ≡ true → ⊥)
    → ReadsBack s rest line y
    → ReadsBack s rest line (if b then x else y)
if-ReadsBack s rest line true x y n h = absurd (n refl)
if-ReadsBack s rest line false x y n h = h

read_string-quote :
    (text : List ℕ) (line column : ℕ) (v : Lexer)
    → read_string b'"' false (move (at (b'"' ∷ text) line column) v) ≡ (
        if head_of text == 0
        then err error_parsing_string
        else string_loop (suc (length text)) b'"' false (at text line (column + 1))
          >>= λ (body, end). literal b'"' body end (move (at (b'"' ∷ text) line column) v))
unfolding read_string at
read_string-quote text line column v = refl

read_string-ReadsBack :
    (s rest text : List ℕ) (line column : ℕ) (v : Lexer)
    → Yields s rest line (string_loop (suc (length text)) b'"' false (at text line (column + 1)))
    → ReadsBack s rest line (read_string b'"' false (move (at (b'"' ∷ text) line column) v))
read_string-ReadsBack s rest text line column v h =
    let body = string_loop (suc (length text)) b'"' false (at text line (column + 1)) in
    subst (λ r. ReadsBack s rest line r) (sym (read_string-quote text line column v))
      (if-ReadsBack s rest line (head_of text == 0) _ _
        (λ t.
          zero-Yields s rest text (length text) line line (column + 1) (==→eq (head_of text) 0 t) h)
        (literal-ReadsBack s rest line (move (at (b'"' ∷ text) line column) v) body h))

return-ReadsBack :
    (s rest : List ℕ) (line : ℕ) (r : Result (Token × Lexer))
    → ReadsBack s rest line r
    → ReadsBack s rest line (r >>= λ read. ok (return_token read))
return-ReadsBack s rest line (ok read) h = h
return-ReadsBack s rest line (err e) h = h
return-ReadsBack s rest line out_of_fuel h = h

-- For every string without bytes from 128 on, `string_escape` between double quotes is one token for
-- the lexer: `lex` answers the string literal with the same string and stops behind the quotes, on the
-- same line.
pub lex-string_escape :
    (s rest : List ℕ) (line column : ℕ) (v : Lexer)
    → Ascii s
    → ReadsBack s rest line (lex (move (at (quoted s rest) line column) v))
unfolding lex at
lex-string_escape s rest line column v a =
    let text = string_escape s ++ b'"' ∷ rest in
    let from = record v { lasttokenline = line } in
    return-ReadsBack s rest line (read_string b'"' false (move (at (b'"' ∷ text) line column) from))
      (read_string-ReadsBack s rest text line column from (
        rw (string_escape-text s) (
          escape_loop-Yields s rest (suc (length ((escape_loop s).0 ++ b'"' ∷ rest))) line
            (column + 1) a
            (omega (arith, length-append (escape_loop s).0 (b'"' ∷ rest), escape_loop-longer s)))))
