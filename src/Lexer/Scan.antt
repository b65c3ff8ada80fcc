-- ===== src/Lexer/Scan.antt =====
-- Comments, operators and the main loop: `LexBlockComment`, `LexLineComment` and `Lex`.
use squirrel_gobject.Prelude.{
  ℕ, zero, suc, ◌+◌, ◌==◌, if◌then◌else◌, Bool, true, false, ◌&&◌, ◌||◌, Option, none, some, List,
  [], ◌∷◌, length,
}
use squirrel_gobject.Prelude.Chars.{is_digit, is_alpha, is_cntrl}
use squirrel_gobject.Lexer.Token.{Token}
use squirrel_gobject.Lexer.Number.{read_number, read_id}
use squirrel_gobject.Lexer.Literal.{read_string}
use squirrel_gobject.Lexer.Cursor.{
  Result, ok, err, ◌>>=◌, missing_comment_end, invalid_dots, unexpected_control, out_of_fuel,
  Cursor, head_of, tail_of, cur, next, next_line, Lexer, move,
}

-- the loop of `LexBlockComment`
unfoldable pub skip_block : List ℕ → ℕ → ℕ → Result Cursor
skip_block [] line column = err missing_comment_end
skip_block (c ∷ cs) line column =
    let more = skip_block cs (if c == b'\n' then line + 1 else line) (column + 1) in
    if c == 0
    then err missing_comment_end
    else if c == b'*' && head_of cs == b'/'
    then ok (record { chars = tail_of cs; line = line; column = column + 2 })
    else more

unfoldable pub block_comment : Cursor → Result Cursor
unfolding skip_block
block_comment k = skip_block k.chars k.line k.column

-- the loop of `LexLineComment` behind its first `NEXT()`
unfoldable pub skip_line : List ℕ → ℕ → ℕ → Cursor
skip_line [] line column = record { chars = []; line = line; column = column }
skip_line (c ∷ cs) line column =
    let more = skip_line cs line (column + 1) in
    if c == b'\n' || c == 0 then record { chars = c ∷ cs; line = line; column = column } else more

unfoldable pub line_comment : Cursor → Cursor
unfolding skip_line next
line_comment k = let start = next k in skip_line start.chars start.line start.column

-- a second character makes a longer token
abbrev pub two : Token → ℕ → Token → Cursor → Token × Cursor
two short second long k = if cur k == second then (long, next k) else (short, k)

-- The operators behind their first character `c`.
unfoldable pub less_than : Cursor → Token × Cursor
unfolding next
less_than k =
    if cur k == b'='
    then two Token.tk_le b'>' Token.tk_3wayscmp (next k)
    else if cur k == b'-'
    then (Token.tk_newslot, next k)
    else if cur k == b'<'
    then (Token.tk_shiftl, next k)
    else if cur k == b'/'
    then (Token.tk_attr_open, next k)
    else (Token.char b'<', k)

unfoldable pub greater_than : Cursor → Token × Cursor
unfolding next
greater_than k =
    if cur k == b'='
    then (Token.tk_ge, next k)
    else if cur k == b'>'
    then two Token.tk_shiftr b'>' Token.tk_ushiftr (next k)
    else (Token.char b'>', k)

unfoldable pub dots : Cursor → Result (Token × Cursor)
unfolding next
dots k =
    if cur k == b'.'
    then if cur (next k) == b'.' then ok (Token.tk_varparams, next (next k)) else err invalid_dots
    else ok (Token.char b'.', k)

-- `+` and `-`: with `=`, or doubled
unfoldable pub signed : ℕ → Token → Token → Cursor → Token × Cursor
unfolding next
signed c assign double k =
    if cur k == b'='
    then (assign, next k)
    else if cur k == c
    then (double, next k)
    else (Token.char c, k)

-- `/` where no comment begins
unfoldable pub slash : Cursor → Token × Cursor
unfolding next
slash k =
    if cur k == b'='
    then (Token.tk_diveq, next k)
    else if cur k == b'>'
    then (Token.tk_attr_close, next k)
    else (Token.char b'/', k)

abbrev pub is_bracket : ℕ → Bool
is_bracket c =
    c == b'{'
    || c == b'}'
    || c == b'('
    || c == b')'
    || c == b'['
    || c == b']'
    || c == b';'
    || c == b','
    || c == b'?'
    || c == b'^'
    || c == b'~'

-- the token that begins with the operator `c`, where it is one; `k` is behind it
unfoldable pub operator : ℕ → Cursor → Option (Token × Cursor)
unfolding less_than greater_than signed slash next
operator c k =
    if c == b'='
    then some (two (Token.char c) b'=' Token.tk_eq k)
    else if c == b'<'
    then some (less_than k)
    else if c == b'>'
    then some (greater_than k)
    else if c == b'!'
    then some (two (Token.char c) b'=' Token.tk_ne k)
    else if is_bracket c
    then some (Token.char c, k)
    else if c == b'&'
    then some (two (Token.char c) b'&' Token.tk_and k)
    else if c == b'|'
    then some (two (Token.char c) b'|' Token.tk_or k)
    else if c == b':'
    then some (two (Token.char c) b':' Token.tk_double_colon k)
    else if c == b'*'
    then some (two (Token.char c) b'=' Token.tk_muleq k)
    else if c == b'%'
    then some (two (Token.char c) b'=' Token.tk_modeq k)
    else if c == b'-'
    then some (signed c Token.tk_minuseq Token.tk_minusminus k)
    else if c == b'+'
    then some (signed c Token.tk_pluseq Token.tk_plusplus k)
    else if c == b'/'
    then some (slash k)
    else none

-- `default:` of the switch
unfoldable pub other_token : Lexer → Result (Token × Lexer)
unfolding read_number read_id next
other_token v =
    let c = cur v.at in
    if is_digit c
    then read_number v
    else if is_alpha c || c == b'_'
    then ok (read_id v)
    else if is_cntrl c
    then err unexpected_control
    else ok (Token.char c, move (next v.at) v)

-- the token that begins at the current character
unfoldable pub read_token : Lexer → Result (Token × Lexer)
unfolding operator dots read_string other_token next
read_token v =
    let k = v.at in
    let c = cur k in
    if c == b'@'
    then if cur (next k) == b'"'
      then read_string b'"' true (move (next k) v)
      else ok (Token.char c, move (next k) v)
    else if c == b'"' || c == 39
    then read_string c false v
    else if c == b'.'
    then (do (token, end) ← dots (next k); ok (token, move end v))
    else elim (operator c (next k)) [
      | some (token, end) ↦ ok (token, move end v)
      | none ↦ other_token v
    ]

-- What stands between the tokens, where something does: white space, a line end or a comment.
unfoldable pub blank : Lexer → Result (Option Lexer)
unfolding next next_line line_comment block_comment
blank v =
    let k = v.at in
    let c = cur k in
    if c == b'\t' || c == b'\r' || c == b' '
    then ok (some (move (next k) v))
    else if c == b'\n'
    then ok (
        some (record v {
          at = record (next_line k) { column = 1 };
          prevtoken = v.curtoken;
          curtoken = Token.char b'\n';
        }))
    else if c == b'#'
    then ok (some (move (line_comment k) v))
    else if c == b'/' && cur (next k) == b'*'
    then (do end ← block_comment (next (next k)); ok (some (move end v)))
    else if c == b'/' && cur (next k) == b'/'
    then ok (some (move (line_comment (next k)) v))
    else ok none

-- `RETURN_TOKEN`
abbrev pub return_token : Token × Lexer → Token × Lexer
return_token (token, v) = (token, record v { prevtoken = v.curtoken; curtoken = token })

unfoldable pub lex_loop : ℕ → Lexer → Result (Token × Lexer)
unfolding blank read_token
lex_loop zero v = out_of_fuel
lex_loop (suc f) v =
    let onward = do
      skipped ← blank v
      elim skipped [ some w ↦ lex_loop f w | none ↦ do read ← read_token v; ok (return_token read) ]
    in if cur v.at == 0 then ok (Token.tk_end, v) else onward

unfoldable pub lex : Lexer → Result (Token × Lexer)
unfolding lex_loop
lex v = lex_loop (suc (length v.at.chars)) (record v { lasttokenline = v.at.line })
