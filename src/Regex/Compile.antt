-- ===== src/Regex/Compile.antt =====
-- The compiler: `sqstd_rex_element`, `sqstd_rex_list` and `sqstd_rex_compile`. A call of the
-- compiler by itself is a parameter of the first two; `parse` ties them together.
use squirrel_gobject.Prelude.{
  ℕ, zero, suc, ◌+◌, ◌*◌, ◌==◌, if◌then◌else◌, Bool, false, ◌||◌, Option, none, some, List, [],
  length,
}
use squirrel_gobject.Prelude.Chars.{is_digit}
use squirrel_gobject.Regex.Node
use squirrel_gobject.Regex.Node.{
  NodeType, Result, ok, err, out_of_fuel, ◌>>=◌, Rex, cur, advance, newnode, node_at, put, set_left,
  set_right, set_next,
}
use squirrel_gobject.Regex.Elements.{expect, charnode, class, parsenumber}

-- A part of the compiler: it answers the index of the node that it has made.
abbrev pub Parser : Type 0
Parser = Rex → Result (ℕ × Rex)

-- a group behind its opening, `(` or `(?:`
unfoldable pub group_of : NodeType → Parser → Parser
unfolding newnode put expect
group_of type list e = do
  let (expr, e1) = newnode type e
  (newn, e2) ← list e1
  e3 ← expect b')' (set_left expr newn e2)
  ok (expr, e3)

unfoldable pub group : Parser → Parser
unfolding group_of advance expect
group list e =
    if cur e == b'?'
    then (do e1 ← expect b':' (advance e); group_of Node.op_nocapexpr list e1)
    else group_of Node.op_expr list e

-- the first switch of `sqstd_rex_element`
unfoldable pub atom : Parser → Parser
unfolding group class expect newnode charnode advance
atom list e =
    let c = cur e in
    if c == b'('
    then group list (advance e)
    else if c == b'['
    then (do (ret, e1) ← class (advance e); e2 ← expect b']' e1; ok (ret, e2))
    else if c == b'$'
    then ok (newnode Node.op_eol (advance e))
    else if c == b'.'
    then ok (newnode Node.op_dot (advance e))
    else charnode false e

-- behind the least number of a `{}`: the largest one
unfoldable pub upper_bound : ℕ → Rex → Result (ℕ × Rex)
unfolding advance parsenumber expect
upper_bound p0 e =
    let behind = advance e in
    if cur e == b'}'
    then ok (p0, behind)
    else if cur e == b','
    then (do
      (p1, e1) ← if is_digit (cur behind) then parsenumber behind else ok (65535, behind)
      e2 ← expect b'}' e1
      ok (p1, e2))
    else err Node.comma_expected

-- the second switch: how often the element is repeated, where that is written
unfoldable pub repetition : Rex → Result (Option ℕ × Rex)
unfolding advance parsenumber upper_bound
repetition e =
    let c = cur e in
    let behind = advance e in
    if c == b'*'
    then ok (some 65535, behind)
    else if c == b'+'
    then ok (some (65536 + 65535), behind)
    else if c == b'?'
    then ok (some 1, behind)
    else if c == b'{'
    then (do
      (p0, e1) ← if is_digit (cur behind) then parsenumber behind else err Node.number_expected
      (p1, e2) ← upper_bound p0 e1
      ok (some (p0 * 65536 + p1), e2))
    else ok (none, e)

unfoldable pub repeated : ℕ → Option ℕ × Rex → ℕ × Rex
unfolding newnode put
repeated ret (none, e) = (ret, e)
repeated ret (some bounds, e) =
    let (n, e1) = newnode Node.op_greedy e in (n, set_right n bounds (set_left n ret e1))

-- the characters before which a sequence of elements stops
abbrev pub stops : ℕ → Bool
stops c = c == b'|' || c == b')' || c == b'*' || c == b'+' || c == 0

unfoldable pub element : Parser → Parser → Parser
unfolding atom repetition repeated put
element list again e = do
  (inner, e1) ← atom list e
  quantified ← repetition e1
  let (ret, e2) = repeated inner quantified
  let follow = do (n, e3) ← again e2; ok (ret, set_next ret n e3)
  if stops (cur e2) then ok (ret, e2) else follow

-- the elements of a list, behind `^` where it stands
unfoldable pub branch : Parser → Parser
unfolding advance newnode put
branch elements e =
    if cur e == b'^'
    then (do
      let (ret, e1) = newnode Node.op_bol (advance e)
      (n, e2) ← elements e1
      ok (ret, set_next ret n e2))
    else elements e

unfoldable pub list : Parser → Parser → Parser
unfolding branch advance newnode put
list elements again e = do
  (ret, e1) ← branch elements e
  let (temp, e2) = newnode Node.op_or (advance e1)
  let alternative = do
    (tright, e3) ← again (set_left temp ret e2)
    ok (temp, set_right temp tright e3)
  if cur e1 == b'|' then alternative else ok (ret, e1)

pub data Rule : Type 0 where
  an_element a_list : Rule

unfoldable pub parse : ℕ → Rule → Parser
unfolding element list
parse zero rule e = out_of_fuel
parse (suc f) an_element e = element (parse f a_list) (parse f an_element) e
parse (suc f) a_list e = list (parse f an_element) (parse f a_list) e

-- the state before the node of the whole pattern is made
abbrev pub fresh : List ℕ → Rex
fresh pattern = record { p = pattern; nodes = []; nallocated = length pattern; nsubexpr = 0 }

unfoldable pub compile : List ℕ → Result Rex
unfolding newnode parse put
compile pattern = do
  let (first, e) = newnode Node.op_expr (fresh pattern)
  (res, e1) ← parse (2 * length pattern + 2) a_list e
  if cur e1 == 0 then ok (set_left first res e1) else err Node.unexpected_character
