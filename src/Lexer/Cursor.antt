-- ===== src/Lexer/Cursor.antt =====
-- Where the lexer stands in its text, and the errors it raises.
use squirrel_gobject.Prelude.{ℕ, zero, suc, ◌+◌, if◌then◌else◌, Bool, List, [], ◌∷◌, length}
pub use squirrel_gobject.Prelude.Chars.{head_of, tail_of}
pub use squirrel_gobject.Prelude.Outcome.{ok, err, out_of_fuel, ◌>>=◌}
use squirrel_gobject.Prelude.Outcome.{Outcome}
use squirrel_gobject.Lexer.Token.{Token}

pub data LexError : Type 0 where
  missing_comment_end error_parsing_string invalid_dots unexpected_control : LexError
  hexadecimal_expected unfinished_string newline_in_constant unrecognised_escape : LexError
  empty_constant constant_too_long invalid_octal too_many_hex_digits : LexError
  invalid_format exponent_expected : LexError

abbrev pub Result {ℓ} : Type ℓ → Type ℓ
Result = Outcome LexError

-- what is left of the text, the current character first, with `_currentline` and `_currentcolumn`
pub record Cursor : Type 0 where
  pub chars : List ℕ
  pub line : ℕ
  pub column : ℕ

-- `CUR_CHAR`
abbrev pub cur : Cursor → ℕ
cur k = head_of k.chars

unfoldable pub at : List ℕ → ℕ → ℕ → Cursor
at chars line column = record { chars = chars; line = line; column = column }

-- `NEXT()`
unfoldable pub next : Cursor → Cursor
next k = record k { chars = tail_of k.chars; column = k.column + 1 }

-- `_currentline++; NEXT();`
unfoldable pub next_line : Cursor → Cursor
unfolding next
next_line k = record (next k) { line = k.line + 1 }

-- the characters that pass the test, and the rest
unfoldable pub span : (ℕ → Bool) → List ℕ → List ℕ × List ℕ
span test [] = ([], [])
span test (c ∷ cs) =
    let more = span test cs in if test c then (c ∷ more.0, more.1) else ([], c ∷ cs)

-- `while (test(CUR_CHAR)) { APPEND_CHAR(CUR_CHAR); NEXT(); }`
unfoldable pub read_while : (ℕ → Bool) → Cursor → List ℕ × Cursor
unfolding span
read_while test k =
    let (text, rest) = span test k.chars in
    (text, record k { chars = rest; column = k.column + length text })

-- `while (test(CUR_CHAR) && n < max)`, with the rounds left
unfoldable pub read_at_most : ℕ → (ℕ → Bool) → Cursor → List ℕ × Cursor
unfolding next
read_at_most zero test k = ([], k)
read_at_most (suc n) test k =
    let more = read_at_most n test (next k) in
    if test (cur k) then (cur k ∷ more.0, more.1) else ([], k)

-- `SQLexer`
pub record Lexer : Type 0 where
  pub at : Cursor
  pub lasttokenline : ℕ
  pub prevtoken : Token
  pub curtoken : Token
  pub svalue : List ℕ
  pub nvalue : ℕ
  pub fvalue : List ℕ

abbrev pub move : Cursor → Lexer → Lexer
move k v = record v { at = k }
