-- ===== src/Lexer/Decimal.antt =====
-- The value of a decimal number: `LexInteger` counts modulo 2 ^ 64.
use squirrel_gobject.Prelude.{
  ℕ, zero, suc, ◌+◌, ◌-◌, ◌*◌, ◌%◌, ◌^◌, ◌<◌, ◌≡◌, ◌≢◌, refl, ap, ◌==◌, Bool, true, false, ◌||◌,
  List, [], ◌∷◌, ◌++◌, length, length-append, arith,
}
use squirrel_gobject.Prelude.Chars.{head_of, is_digit}
use squirrel_gobject.Lexer.Token.{Token, tk_integer}
use squirrel_gobject.Lexer.Cursor.{at, Result, ok, err, out_of_fuel, ◌>>=◌, Cursor, Lexer, move}
use squirrel_gobject.Lexer.Number.{
  NumberType, tint, is_exponent, lex_integer, number_loop, decimal, read_number,
}

-- the number that the digits write, behind one that is read already
abbrev pub value_from : ℕ → List ℕ → ℕ
value_from n [] = n
value_from n (c ∷ s) = value_from (n * 10 + (c - b'0')) s

lex_integer-value_from : (n : ℕ) (s : List ℕ) → lex_integer (n % 2 ^ 64) s ≡ value_from n s % 2 ^ 64
unfolding lex_integer
lex_integer-value_from n [] = refl
lex_integer-value_from n (c ∷ s) =
    let step : (n % 2 ^ 64 * 10 + (c - b'0')) % 2 ^ 64 ≡ (n * 10 + (c - b'0')) % 2 ^ 64 =
      omega arith in
    rw step (lex_integer-value_from (n * 10 + (c - b'0')) s)

abbrev pub Digits : List ℕ → Type 0
Digits [] = Unit
Digits (c ∷ s) = (is_digit c ≡ true) × Digits s

-- the characters that go on with a number
abbrev pub goes_on : ℕ → Bool
goes_on c = c == b'.' || is_digit c || is_exponent c

-- The loop has read the digits, and no more.
abbrev Took : List ℕ → List ℕ → ℕ → Result (List ℕ × NumberType × Cursor) → Type 0
Took s rest line (ok (t, type, k)) = (t ≡ s) × (type ≡ tint) × (k.chars ≡ rest) × (k.line ≡ line)
Took s rest line (err e) = ⊥
Took s rest line out_of_fuel = ⊥

prepend-Took :
    (c : ℕ) (s rest : List ℕ) (line : ℕ) (r : Result (List ℕ × NumberType × Cursor))
    → Took s rest line r
    → Took (c ∷ s) rest line (r >>= λ (t, type, k). ok (c ∷ t, type, k))
prepend-Took c s rest line (ok (t, type, k)) (p, q, r, l) = (ap (λ x. c ∷ x) p, q, r, l)
prepend-Took c s rest line (err e) h = h
prepend-Took c s rest line out_of_fuel h = h

number_loop-stop :
    (f : ℕ) (rest : List ℕ) (line column : ℕ)
    → goes_on (head_of rest) ≡ false
    → number_loop (suc f) tint (at rest line column) ≡ ok ([], tint, at rest line column)
unfolding number_loop at
number_loop-stop f rest line column h = rw h refl

stopped-Took :
    (rest : List ℕ) (line column : ℕ) → Took [] rest line (ok ([], tint, at rest line column))
unfolding at
stopped-Took rest line column = (refl, refl, refl, refl)

number_loop-digit :
    (f c : ℕ) (rest : List ℕ) (line column : ℕ)
    → is_digit c ≡ true
    → number_loop (suc f) tint (at (c ∷ rest) line column)
      ≡ (number_loop f tint (at rest line (column + 1)) >>= λ (t, type, k). ok (c ∷ t, type, k))
unfolding number_loop at
number_loop-digit f c rest line column h =
    let dot : (c == b'.') ≡ false = ground arith in
    let small : (c == b'e') ≡ false = ground arith in
    let large : (c == b'E') ≡ false = ground arith in rw (h, dot, small, large) refl

number_loop-Took :
    (s rest : List ℕ) (f line column : ℕ)
    → Digits s
    → goes_on (head_of rest) ≡ false
    → length s < f
    → Took s rest line (number_loop f tint (at (s ++ rest) line column))
number_loop-Took s rest zero line column d g l = absurd (omega arith)
number_loop-Took [] rest (suc f) line column d g l =
    rw (number_loop-stop f rest line column g) (stopped-Took rest line column)
number_loop-Took (c ∷ s) rest (suc f) line column (h, d) g l =
    rw (number_loop-digit f c (s ++ rest) line column h) (
      prepend-Took c s rest line (number_loop f tint (at (s ++ rest) line (column + 1)))
        (number_loop-Took s rest f line (column + 1) d g (omega arith)))

-- The token is the integer `n`, and the lexer stands before `rest`, on the same line.
abbrev pub ReadsInteger : ℕ → List ℕ → ℕ → Result (Token × Lexer) → Type 0
ReadsInteger n rest line (ok (token, w)) =
    (token ≡ tk_integer) × (w.nvalue ≡ n) × (w.at.chars ≡ rest) × (w.at.line ≡ line)
ReadsInteger n rest line (err e) = ⊥
ReadsInteger n rest line out_of_fuel = ⊥

decimal-ReadsInteger :
    (c : ℕ) (s rest : List ℕ) (line : ℕ) (v : Lexer) (r : Result (List ℕ × NumberType × Cursor))
    → Took s rest line r
    → ReadsInteger
        (value_from 0 (c ∷ s) % 2 ^ 64)
        rest
        line
        (r >>= λ (t, type, k). ok (decimal (c ∷ t) type k v))
unfolding decimal
decimal-ReadsInteger c s rest line v (ok (t, type, k)) (p, q, a, l) =
    rw (p, q) (refl, lex_integer-value_from 0 (c ∷ s), a, l)
decimal-ReadsInteger c s rest line v (err e) h = h
decimal-ReadsInteger c s rest line v out_of_fuel h = h

read_number-first :
    (c : ℕ) (text : List ℕ) (line column : ℕ) (v : Lexer)
    → c ≢ b'0'
    → read_number (move (at (c ∷ text) line column) v) ≡ (
        number_loop (suc (length text)) tint (at text line (column + 1)) >>= λ (t, type, k).
        ok (decimal (c ∷ t) type k (move (at (c ∷ text) line column) v)))
unfolding read_number at
read_number-first c text line column v n =
    let first : (c == b'0') ≡ false = ground arith in rw first refl

-- For digits of which the first is not 0, before a character that does not go on with a number:
-- `read_number` answers the integer that they write, modulo 2 ^ 64, and stops behind them, on the
-- same line.
pub read_number-decimal :
    (c : ℕ) (s rest : List ℕ) (line column : ℕ) (v : Lexer)
    → c ≢ b'0'
    → Digits s
    → goes_on (head_of rest) ≡ false
    → ReadsInteger
        (value_from 0 (c ∷ s) % 2 ^ 64)
        rest
        line
        (read_number (move (at (c ∷ s ++ rest) line column) v))
read_number-decimal c s rest line column v n d g =
    rw (read_number-first c (s ++ rest) line column v n) (
      decimal-ReadsInteger c s rest line (move (at (c ∷ s ++ rest) line column) v)
        (number_loop (suc (length (s ++ rest))) tint (at (s ++ rest) line (column + 1)))
        (number_loop-Took s rest (suc (length (s ++ rest))) line (column + 1) d g
          (omega (arith, length-append s rest))))
