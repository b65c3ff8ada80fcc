-- ===== src/Lexer/Number.antt =====
-- Numbers and identifiers: `ReadNumber`, `ReadID`, `LexInteger`, `LexHexadecimal` and `LexOctal`.
use squirrel_gobject.Prelude.{
  ℕ, zero, suc, ◌+◌, ◌-◌, ◌*◌, ◌==◌, ltb, if◌then◌else◌, Bool, ◌&&◌, ◌||◌, List, [], ◌∷◌, ◌++◌,
  length,
}
use squirrel_gobject.Prelude.Int.{wrap}
use squirrel_gobject.Prelude.Chars.{between, is_digit, is_xdigit, is_alnum, to_upper}
use squirrel_gobject.Lexer.Token.{
  Token, tk_integer, tk_float, tk_identifier, tk_constructor, id_type,
}
use squirrel_gobject.Lexer.Cursor.{
  Result, ok, err, ◌>>=◌, invalid_octal, too_many_hex_digits, exponent_expected, out_of_fuel,
  Cursor, cur, next, read_while, Lexer, move,
}

unfoldable pub lex_integer : ℕ → List ℕ → ℕ
lex_integer res [] = res
lex_integer res (c ∷ s) = lex_integer (wrap (res * 10 + (c - b'0'))) s

unfoldable pub lex_octal : ℕ → List ℕ → ℕ
lex_octal res [] = res
lex_octal res (c ∷ s) = lex_octal (wrap (res * 8 + (c - b'0'))) s

abbrev pub hex_digit : ℕ → ℕ
hex_digit c = if is_digit c then c - b'0' else to_upper c - b'A' + 10

unfoldable pub lex_hexadecimal : ℕ → List ℕ → ℕ
lex_hexadecimal res [] = res
lex_hexadecimal res (c ∷ s) = lex_hexadecimal (wrap (res * 16 + hex_digit c)) s

abbrev pub is_octal : ℕ → Bool
is_octal = between b'0' b'7'

abbrev pub is_exponent : ℕ → Bool
is_exponent c = c == b'e' || c == b'E'

pub data NumberType : Type 0 where
  tint tfloat tscientific : NumberType

-- the sign behind an exponent
unfoldable pub exponent_sign : Cursor → List ℕ × Cursor
unfolding next
exponent_sign k = if cur k == b'+' || cur k == b'-' then (cur k ∷ [], next k) else ([], k)

-- The loop of a decimal number. The test for a second exponent stands behind the assignment of
-- TFLOAT, and so it never fails.
unfoldable pub number_loop : ℕ → NumberType → Cursor → Result (List ℕ × NumberType × Cursor)
unfolding exponent_sign next
number_loop zero type k = out_of_fuel
number_loop (suc f) type k =
    let c = cur k in
    let exponent = do
      let (sign, digits) = exponent_sign (next k)
      (text, last, end) ←
          if is_digit (cur digits)
          then number_loop f tscientific (next digits)
          else err exponent_expected
      ok (c ∷ (sign ++ cur digits ∷ text), last, end)
    in let plain = do
      (text, last, end) ← number_loop f (if c == b'.' then tfloat else type) (next k)
      ok (c ∷ text, last, end)
      in if c == b'.' || is_digit c || is_exponent c
        then if is_exponent c then exponent else plain
        else ok ([], type, k)

abbrev pub integer : ℕ → Cursor → Lexer → Token × Lexer
integer n k v = (tk_integer, record v { at = k; nvalue = n })

unfoldable pub read_octal : Cursor → Lexer → Result (Token × Lexer)
unfolding read_while lex_octal
read_octal k v =
    let (text, end) = read_while is_octal k in
    if is_digit (cur end) then err invalid_octal else ok (integer (lex_octal 0 text) end v)

-- MAX_HEX_DIGITS is 16
unfoldable pub read_hexadecimal : Cursor → Lexer → Result (Token × Lexer)
unfolding read_while lex_hexadecimal
read_hexadecimal k v =
    let (text, end) = read_while is_xdigit k in
    if ltb 16 (length text)
    then err too_many_hex_digits
    else ok (integer (lex_hexadecimal 0 text) end v)

unfoldable pub decimal : List ℕ → NumberType → Cursor → Lexer → Token × Lexer
unfolding lex_integer
decimal text tint k v = integer (lex_integer 0 text) k v
decimal text tfloat k v = (tk_float, record v { at = k; fvalue = text })
decimal text tscientific k v = (tk_float, record v { at = k; fvalue = text })

unfoldable pub read_number : Lexer → Result (Token × Lexer)
unfolding next number_loop read_octal read_hexadecimal decimal
read_number v =
    let first = cur v.at in
    let k = next v.at in
    if first == b'0' && (to_upper (cur k) == b'X' || is_octal (cur k))
    then if is_octal (cur k) then read_octal k v else read_hexadecimal (next k) v
    else do
      (text, type, end) ← number_loop (suc (length k.chars)) tint k
      ok (decimal (first ∷ text) type end v)

abbrev pub is_ident : ℕ → Bool
is_ident c = is_alnum c || c == b'_'

-- `ReadID` keeps the text of an identifier and of the word `constructor`.
abbrev pub named : Token → List ℕ → Cursor → Lexer → Lexer
named tk_identifier name k v = record v { at = k; svalue = name }
named tk_constructor name k v = record v { at = k; svalue = name }
named other name k v = move k v

unfoldable pub read_id : Lexer → Token × Lexer
unfolding next read_while id_type
read_id v =
    let (text, end) = read_while is_ident (next v.at) in
    let name = cur v.at ∷ text in let token = id_type name in (token, named token name end v)
