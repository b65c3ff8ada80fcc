-- ===== src/Strings.antt =====
-- String functions of the standard library (Squirrel3/sqstdlib/sqstdstring.cpp), behind the reads of
-- their arguments: `escape`, `strip`, `lstrip`, `rstrip`, `split`, `startswith` and `endswith`. A
-- string is its bytes, as many as its size says; a function that takes the text for a C string stops
-- at a zero byte.
use squirrel_gobject.Prelude.{
  ℕ, zero, suc, ◌+◌, ◌-◌, ◌*◌, ◌/◌, ◌%◌, ◌==◌, ltb, leb, if◌then◌else◌, Bool, true, false, not,
  ◌&&◌, ◌||◌, Option, none, some, List, [], ◌∷◌, ◌++◌, length, take, drop, replicate, get_or,
}
use squirrel_gobject.Prelude.Chars.{is_print, is_space, same_text, head_of}
pub mod Escape
pub mod Quoted
pub mod Strip
pub mod Pieces
pub mod Affixes
pub mod Tests

-- the character behind the backslash of an escape, or 0: the switch of `_string_escape`
unfoldable pub escape_char : ℕ → ℕ
escape_char c =
    if c == 7
    then b'a'
    else if c == 8
    then b'b'
    else if c == 9
    then b't'
    else if c == 10
    then b'n'
    else if c == 11
    then b'v'
    else if c == 12
    then b'f'
    else if c == 13
    then b'r'
    else if c == b'\\' || c == b'"' || c == 39
    then c
    else if c == 0
    then b'0'
    else 0

abbrev pub hex_char : ℕ → ℕ
hex_char d = if ltb d 10 then b'0' + d else b'a' + (d - 10)

-- What `%02x` prints for a `char`: a negative one is extended to an int of 32 bits.
unfoldable pub print_hex : ℕ → List ℕ
print_hex c =
    let digits = hex_char (c / 16) ∷ hex_char (c % 16) ∷ [] in
    if ltb c 128 then digits else replicate 6 b'f' ++ digits

-- the bytes for one byte, and whether they are counted as an escape
unfoldable pub escape_byte : ℕ → List ℕ × Bool
unfolding escape_char print_hex
escape_byte c =
    let escch = escape_char c in
    if is_print c || c == 0
    then if escch == 0 then (c ∷ [], false) else (b'\\' ∷ escch ∷ [], true)
    else (b'\\' ∷ b'x' ∷ print_hex c, true)

-- the loop of `_string_escape`: the text and the count of escapes
unfoldable pub escape_loop : List ℕ → List ℕ × ℕ
unfolding escape_byte
escape_loop [] = ([], 0)
escape_loop (c ∷ s) =
    let (text, escaped) = escape_loop s in
    let (bytes, counted) = escape_byte c in
    (bytes ++ text, if counted then escaped + 1 else escaped)

unfoldable pub string_escape : List ℕ → List ℕ
unfolding escape_loop
string_escape s =
    let (text, escaped) = escape_loop s in
    if length s == 0 then s else if escaped == 0 then s else text

-- `__strip_l`: the position of the first byte that is no space
unfoldable pub strip_l : List ℕ → ℕ
strip_l [] = 0
strip_l (c ∷ s) = let more = strip_l s in if not (c == 0) && is_space c then suc more else 0

-- the loop of `__strip_r`: the position behind the last of the first `n` bytes that is no space
unfoldable pub strip_r_loop : ℕ → List ℕ → ℕ
strip_r_loop zero s = 0
strip_r_loop (suc n) s =
    let more = strip_r_loop n s in if is_space (get_or s n 0) then more else suc n

unfoldable pub strip_r : List ℕ → ℕ
unfolding strip_r_loop
strip_r s = if length s == 0 then 0 else strip_r_loop (length s) s

-- a C string ends at its first zero
unfoldable pub c_string : List ℕ → List ℕ
c_string [] = []
c_string (c ∷ s) = let more = c_string s in if c == 0 then [] else c ∷ more

-- `_string_strip`. Where the end lies before the start, `sq_pushstring` gets a negative length, and
-- takes the C string at the start.
unfoldable pub strip : List ℕ → List ℕ
unfolding strip_l strip_r c_string
strip s =
    let start = strip_l s in
    let end = strip_r s in
    if ltb end start then c_string (drop start s) else take (end - start) (drop start s)

unfoldable pub lstrip : List ℕ → List ℕ
unfolding strip_l c_string
lstrip s = c_string (drop (strip_l s) s)

unfoldable pub rstrip : List ℕ → List ℕ
unfolding strip_r
rstrip s = take (strip_r s) s

-- the loop over the separators
abbrev pub is_separator : List ℕ → ℕ → Bool
is_separator [] c = false
is_separator (d ∷ seps) c = c == d || is_separator seps c

-- what is left between `start` and `end` at the end of the text
abbrev pub last_piece : List ℕ → List (List ℕ)
last_piece [] = []
last_piece (c ∷ piece) = (c ∷ piece) ∷ []

-- The loop of `_string_split`: what lies between `start` and `end` is the piece that is being read.
unfoldable pub split_loop : List ℕ → Bool → List ℕ → List ℕ → List (List ℕ)
split_loop seps skipempty piece [] = last_piece piece
split_loop seps skipempty piece (c ∷ s) =
    let next_piece = split_loop seps skipempty [] s in
    let longer = split_loop seps skipempty (piece ++ c ∷ []) s in
    if c == 0
    then last_piece piece
    else if is_separator seps c
    then if not skipempty || not (length piece == 0) then piece ∷ next_piece else next_piece
    else longer

-- `_string_split`, with none for its error
unfoldable pub split : List ℕ → List ℕ → Bool → Option (List (List ℕ))
unfolding split_loop
split s seps skipempty = if length seps == 0 then none else some (split_loop seps skipempty [] s)

unfoldable pub startswith : List ℕ → List ℕ → Bool
startswith s cmp = leb (length cmp) (length s) && same_text (take (length cmp) s) cmp

unfoldable pub endswith : List ℕ → List ℕ → Bool
endswith s cmp = leb (length cmp) (length s) && same_text (drop (length s - length cmp) s) cmp
