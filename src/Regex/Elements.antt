-- ===== src/Regex/Elements.antt =====
-- What the compiler reads without calling itself: `sqstd_rex_expect`, `sqstd_rex_escapechar`,
-- `sqstd_rex_charclass`, `sqstd_rex_charnode`, `sqstd_rex_class` and `sqstd_rex_parsenumber`.
use squirrel_gobject.Prelude.{
  ℕ, zero, suc, ◌+◌, ◌-◌, ◌*◌, ◌%◌, ◌==◌, ltb, if◌then◌else◌, Bool, true, not, ◌&&◌, ◌||◌, Option,
  none, some, List, [], ◌∷◌, length,
}
use squirrel_gobject.Prelude.Chars.{is_digit, is_print}
use squirrel_gobject.Regex.Node
use squirrel_gobject.Regex.Node.{
  NodeType, char, Result, ok, err, out_of_fuel, ◌>>=◌, Rex, cur, head_of, advance, newnode, node_at,
  put, set_left, set_right, set_next,
}

unfoldable pub expect : ℕ → Rex → Result Rex
unfolding advance
expect n e = if cur e == n then ok (advance e) else err Node.expected_paren

-- The escape takes the character behind the backslash whatever it is; where that is the end of
-- the pattern, the source would read on behind it.
unfoldable pub escaped : Rex → Result (ℕ × Rex)
unfolding advance
escaped e =
    let c = cur e in
    if c == 0
    then err Node.past_end
    else ok (
      if c == b'v'
          then 11
          else if c == b'n'
          then 10
          else if c == b't'
          then 9
          else if c == b'r'
          then 13
          else if c == b'f'
          then 12
          else c,
      advance e,
    )

unfoldable pub escapechar : Rex → Result (ℕ × Rex)
unfolding escaped advance
escapechar e =
    let c = cur e in
    if c == b'\\'
    then escaped (advance e)
    else if is_print c
    then ok (c, advance e)
    else err Node.letter_expected

unfoldable pub charclass : ℕ → Rex → ℕ × Rex
unfolding newnode put
charclass classid e = let (n, f) = newnode Node.op_cclass e in (n, set_left n classid f)

-- the letters that stand for a class of characters behind a backslash
abbrev pub is_class_letter : ℕ → Bool
is_class_letter c =
    c == b'a'
    || c == b'A'
    || c == b'w'
    || c == b'W'
    || c == b's'
    || c == b'S'
    || c == b'd'
    || c == b'D'
    || c == b'x'
    || c == b'X'
    || c == b'c'
    || c == b'C'
    || c == b'p'
    || c == b'P'
    || c == b'l'
    || c == b'u'

-- `\m` with the two characters behind it
unfoldable pub balanced : Rex → Result (ℕ × Rex)
unfolding advance newnode put
balanced e =
    let begin = advance e in
    let end = advance begin in
    let cb = cur begin in
    let ce = cur end in
    let (n, f) = newnode Node.op_mb (advance end) in
    if cb == 0 || ce == 0
    then err Node.balanced_expected
    else if cb == ce
    then err Node.same_brackets
    else ok (n, set_right n ce (set_left n cb f))

unfoldable pub word_boundary : Rex → ℕ × Rex
unfolding newnode put advance
word_boundary e = let (n, f) = newnode Node.op_wb e in (n, advance (set_left n (cur e) f))

-- the node for what stands behind a backslash
unfoldable pub escaped_node : Bool → Rex → Result (ℕ × Rex)
unfolding newnode charclass balanced word_boundary advance
escaped_node isclass e =
    let c = cur e in
    let behind = advance e in
    if c == b'n'
    then ok (newnode (char 10) behind)
    else if c == b't'
    then ok (newnode (char 9) behind)
    else if c == b'r'
    then ok (newnode (char 13) behind)
    else if c == b'f'
    then ok (newnode (char 12) behind)
    else if c == b'v'
    then ok (newnode (char 11) behind)
    else if is_class_letter c
    then ok (charclass c behind)
    else if c == b'm'
    then balanced e
    else if c == 0
    then err Node.argument_expected
    else if (c == b'b' || c == b'B') && not isclass
    then ok (word_boundary e)
    else ok (newnode (char c) behind)

unfoldable pub charnode : Bool → Rex → Result (ℕ × Rex)
unfolding escaped_node newnode advance
charnode isclass e =
    let c = cur e in
    if c == b'\\'
    then escaped_node isclass (advance e)
    else if is_print c
    then ok (newnode (char c) (advance e))
    else err Node.letter_expected

-- the order of two bytes as signed numbers
abbrev pub signed_less : ℕ → ℕ → Bool
signed_less a b = ltb ((a + 128) % 256) ((b + 128) % 256)

-- `a > c` for the type `a` of a node: the code of an operator is larger than every character.
unfoldable pub range_start : NodeType → ℕ → Result ℕ
range_start (char a) c = if signed_less c a then err Node.invalid_range else ok a
range_start other c = err Node.invalid_range

-- The node of a range: `first` is the node of its first character, and the dash is the current
-- character. The test for `]` stands on the dash, and never holds.
unfoldable pub range : ℕ → Rex → Result (ℕ × Rex)
unfolding advance newnode range_start escapechar put
range first e = do
  let (r, e1) = newnode Node.op_range (advance e)
  a ← range_start (node_at e1 first).type (cur e1)
  (t, e2) ← escapechar (set_left r a e1)
  ok (r, set_right r t e2)

-- the last link of a class, where a character waits for it
unfoldable pub link_first : ℕ → Option ℕ → Rex → Rex
unfolding put
link_first chain none e = e
link_first chain (some c) e = set_next chain c e

-- The loop of `sqstd_rex_class` up to `]`, and the link behind it. `_eol` is NULL while a pattern is
-- compiled, so that the test of `_p` against it is always true.
unfoldable pub class_loop : ℕ → ℕ → Option ℕ → Rex → Result Rex
unfolding charnode range link_first put
class_loop zero chain first e = out_of_fuel
class_loop (suc f) chain first e =
    let single = do
      (n, e1) ← charnode true e
      elim first [
        | none ↦ class_loop f chain (some n) e1
        | some c ↦ class_loop f c (some n) (set_next chain c e1)
      ]
    in let ranged = λ (c : ℕ). do (r, e1) ← range c e; class_loop f r none (set_next chain r e1)
      in if cur e == b']'
        then ok (link_first chain first e)
        else if cur e == b'-'
        then elim first [ some c ↦ ranged c | none ↦ single ]
        else single

-- what the links of a class become: `left = next` and `next = -1`
unfoldable pub close_class : ℕ → Rex → Rex
unfolding put
close_class n e = let node = node_at e n in put n (record node { left = node.next; next = none }) e

unfoldable pub class_of : NodeType → Rex → Result (ℕ × Rex)
unfolding newnode class_loop close_class
class_of type e = do
  let (ret, e1) = newnode type e
  e2 ← if cur e1 == b']' then err Node.empty_class else class_loop (suc (length e1.p)) ret none e1
  ok (ret, close_class ret e2)

unfoldable pub class : Rex → Result (ℕ × Rex)
unfolding class_of advance
class e = if cur e == b'^' then class_of Node.op_nclass (advance e) else class_of Node.op_class e

-- the loop of `sqstd_rex_parsenumber`, with what is left behind the digits
unfoldable pub more_digits : ℕ → ℕ → List ℕ → Result (ℕ × List ℕ)
more_digits ret positions [] = ok (ret, [])
more_digits ret positions (c ∷ cs) =
    let more = more_digits (ret * 10 + (c - b'0')) (positions * 10) cs in
    if is_digit c
    then if positions == 1000000000 then err Node.number_overflow else more
    else ok (ret, c ∷ cs)

-- The number, cut to an `unsigned short` as its caller does. The current character is a digit.
unfoldable pub parsenumber : Rex → Result (ℕ × Rex)
unfolding more_digits advance
parsenumber e = do
  (n, rest) ← more_digits (cur e - b'0') 10 (advance e).p
  ok (n % 65536, record e { p = rest })
