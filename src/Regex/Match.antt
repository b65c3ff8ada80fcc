-- ===== src/Regex/Match.antt =====
-- The matcher, as far as a class of characters: `sqstd_rex_matchcclass` and `sqstd_rex_matchclass`.
use squirrel_gobject.Prelude.{
  ℕ, zero, suc, ◌==◌, if◌then◌else◌, Bool, true, false, not, ◌&&◌, ◌||◌, Option, none, some,
}
use squirrel_gobject.Prelude.Chars.{
  is_alpha, is_alnum, is_space, is_digit, is_xdigit, is_cntrl, is_punct, is_lower, is_upper,
}
use squirrel_gobject.Regex.Node
use squirrel_gobject.Regex.Node.{NodeType, char, Result, ok, err, out_of_fuel, Rex, nsize, node_at}
use squirrel_gobject.Regex.Elements.{signed_less}

unfoldable pub matchcclass : ℕ → ℕ → Bool
matchcclass cclass c =
    if cclass == b'a'
    then is_alpha c
    else if cclass == b'A'
    then not (is_alpha c)
    else if cclass == b'w'
    then is_alnum c || c == b'_'
    else if cclass == b'W'
    then not (is_alnum c) && not (c == b'_')
    else if cclass == b's'
    then is_space c
    else if cclass == b'S'
    then not (is_space c)
    else if cclass == b'd'
    then is_digit c
    else if cclass == b'D'
    then not (is_digit c)
    else if cclass == b'x'
    then is_xdigit c
    else if cclass == b'X'
    then not (is_xdigit c)
    else if cclass == b'c'
    then is_cntrl c
    else if cclass == b'C'
    then not (is_cntrl c)
    else if cclass == b'p'
    then is_punct c
    else if cclass == b'P'
    then not (is_punct c)
    else if cclass == b'l'
    then is_lower c
    else if cclass == b'u'
    then is_upper c
    else false

-- the character in an operand, which is set where it is read
abbrev pub operand : Option ℕ → ℕ
operand none = 0
operand (some c) = c

-- The switch on the type of a link. The code of an operator is equal to no character.
abbrev pub type_matches : NodeType → Option ℕ → Option ℕ → ℕ → Bool
type_matches Node.op_range left right c =
    not (signed_less c (operand left)) && not (signed_less (operand right) c)
type_matches Node.op_cclass left right c = matchcclass (operand left) c
type_matches (char d) left right c = c == d
type_matches other left right c = false

abbrev pub node_matches : Node.Node → ℕ → Bool
node_matches node c = type_matches node.type node.left node.right c

unfoldable pub matchclass : ℕ → Rex → ℕ → ℕ → Result Bool
matchclass zero e i c = out_of_fuel
matchclass (suc f) e i c =
    let node = node_at e i in
    let later : Result Bool = elim node.next [ some j ↦ matchclass f e j c | none ↦ ok false ] in
    if node_matches node c then ok true else later
