-- ===== src/Lexer/Literal.antt =====
-- String literals and character constants: `ReadString`, `ProcessStringHexEscape` and `AddUTF8`.
-- A character is one byte (SQUNICODE is off).
use Prim.Native.Nat.{bit_or}
use squirrel_gobject.Prelude.{
  ℕ, zero, suc, ◌+◌, ◌-◌, ◌/◌, ◌%◌, ◌^◌, ◌==◌, ltb, if◌then◌else◌, Bool, not, ◌&&◌, ◌||◌, List, [],
  ◌∷◌, ◌++◌, length,
}
use squirrel_gobject.Prelude.Chars.{is_xdigit}
use squirrel_gobject.Lexer.Token.{Token, tk_integer, tk_string_literal}
use squirrel_gobject.Lexer.Number.{lex_hexadecimal}
use squirrel_gobject.Lexer.Cursor.{
  Result, ok, err, ◌>>=◌, hexadecimal_expected, unfinished_string, newline_in_constant,
  unrecognised_escape, empty_constant, constant_too_long, error_parsing_string, out_of_fuel, Cursor,
  cur, head_of, next, next_line, read_at_most, Lexer,
}

-- `AddUTF8`: the bytes it appends
unfoldable pub add_utf8 : ℕ → List ℕ
add_utf8 ch =
    if ltb ch 0x80
    then ch ∷ []
    else if ltb ch 0x800
    then bit_or (ch / 64) 0xC0 ∷ bit_or (ch % 64) 0x80 ∷ []
    else if ltb ch 0x10000
    then bit_or (ch / 4096) 0xE0 ∷ bit_or (ch / 64 % 64) 0x80 ∷ bit_or (ch % 64) 0x80 ∷ []
    else if ltb ch 0x110000
    then bit_or (ch / 262144) 0xF0
      ∷ bit_or (ch / 4096 % 64) 0x80
      ∷ bit_or (ch / 64 % 64) 0x80
      ∷ bit_or (ch % 64) 0x80
      ∷ []
    else []

-- `ProcessStringHexEscape`, with the number that `scstrtoul` reads from its digits
unfoldable pub hex_escape : ℕ → Cursor → Result (ℕ × Cursor)
unfolding next read_at_most lex_hexadecimal
hex_escape maxdigits k =
    let digits = next k in
    let (text, end) = read_at_most maxdigits is_xdigit digits in
    if is_xdigit (cur digits) then ok (lex_hexadecimal 0 text, end) else err hexadecimal_expected

-- the escapes of one character: the byte that each stands for
unfoldable pub simple_escape : ℕ → Result ℕ
simple_escape c =
    if c == b't'
    then ok 9
    else if c == b'a'
    then ok 7
    else if c == b'b'
    then ok 8
    else if c == b'n'
    then ok 10
    else if c == b'r'
    then ok 13
    else if c == b'v'
    then ok 11
    else if c == b'f'
    then ok 12
    else if c == b'0'
    then ok 0
    else if c == b'\\' || c == b'"' || c == 39
    then ok c
    else err unrecognised_escape

-- behind a backslash: the bytes that are appended
unfoldable pub escape : Cursor → Result (List ℕ × Cursor)
unfolding hex_escape simple_escape add_utf8 next
escape k =
    let c = cur k in
    if c == b'x'
    then (do (n, end) ← hex_escape 2 k; ok (n % 256 ∷ [], end))
    else if c == b'U'
    then (do (n, end) ← hex_escape 8 k; ok (add_utf8 n, end))
    else if c == b'u'
    then (do (n, end) ← hex_escape 4 k; ok (add_utf8 n, end))
    else (do byte ← simple_escape c; ok (byte ∷ [], next k))

abbrev pub prepend : List ℕ → Result (List ℕ × Cursor) → Result (List ℕ × Cursor)
prepend bytes r = r >>= λ (text, end). ok (bytes ++ text, end)

-- The two loops of `ReadString`, up to the character behind the closing delimiter. In a verbatim
-- string the delimiter twice stands for itself.
unfoldable pub string_loop : ℕ → ℕ → Bool → Cursor → Result (List ℕ × Cursor)
unfolding next next_line escape
string_loop zero delim verbatim k = out_of_fuel
string_loop (suc f) delim verbatim k =
    let c = cur k in
    let doubled = prepend (b'"' ∷ []) (string_loop f delim verbatim (next (next k))) in
    let line_end = prepend (c ∷ []) (string_loop f delim verbatim (next_line k)) in
    let plain = prepend (c ∷ []) (string_loop f delim verbatim (next k)) in
    let escaped = do
      (bytes, end) ← escape (next k)
      prepend bytes (string_loop f delim verbatim end)
    in if c == delim
      then if verbatim && cur (next k) == b'"' then doubled else ok ([], next k)
      else if c == 0
      then err unfinished_string
      else if c == b'\n'
      then if verbatim then line_end else err newline_in_constant
      else if c == b'\\' && not verbatim
      then escaped
      else plain

-- a `char` of the machine, which is signed, as a 64-bit integer
abbrev pub signed_char : ℕ → ℕ
signed_char c = if ltb c 128 then c else c + (2 ^ 64 - 256)

unfoldable pub literal : ℕ → List ℕ → Cursor → Lexer → Result (Token × Lexer)
literal delim text end v =
    if delim == 39
    then if length text == 0
      then err empty_constant
      else if ltb 1 (length text)
      then err constant_too_long
      else ok (tk_integer, record v { at = end; nvalue = signed_char (head_of text) })
    else ok (tk_string_literal, record v { at = end; svalue = text })

-- `ReadString`, and the error that `Lex` makes of -1, its answer at the end of the text
unfoldable pub read_string : ℕ → Bool → Lexer → Result (Token × Lexer)
unfolding string_loop next literal
read_string delim verbatim v =
    let start = next v.at in
    let body = do
      (text, end) ← string_loop (suc (length start.chars)) delim verbatim start
      literal delim text end v
    in if cur start == 0 then err error_parsing_string else body
