-- ===== src/Regex/Node.antt =====
-- The nodes of a compiled expression and the compiler's state: `SQRexNode`, `SQRex`,
-- `sqstd_rex_newnode` and the assignments to a node's fields.
use squirrel_gobject.Prelude.{
  ℕ, ◌+◌, ◌*◌, ltb, if◌then◌else◌, Option, none, some, List, [], ◌∷◌, ◌++◌, length, get_or, set,
}
pub use squirrel_gobject.Prelude.Chars.{head_of, tail_of}
pub use squirrel_gobject.Prelude.Outcome.{ok, err, out_of_fuel, ◌>>=◌}
use squirrel_gobject.Prelude.Outcome.{Outcome}

-- the values of `type`: a character, or one of the codes above MAX_CHAR
pub data NodeType : Type 0 where
  char : ℕ → NodeType
  op_greedy op_or op_expr op_nocapexpr op_dot op_class op_cclass : NodeType
  op_nclass op_range op_eol op_bol op_wb op_mb : NodeType

-- `SQRexNode`: an index or a character in `left` and `right`, none for -1. A `right` of op_greedy
-- is the least number of rounds times 65536, with the largest one added.
pub record Node : Type 0 where
  pub type : NodeType
  pub left : Option ℕ
  pub right : Option ℕ
  pub next : Option ℕ

pub data RexError : Type 0 where
  expected_paren letter_expected balanced_expected same_brackets argument_expected : RexError
  empty_class unfinished_range invalid_range class_in_range number_overflow : RexError
  number_expected comma_expected unexpected_character past_end : RexError

-- `sqstd_rex_error` leaves the compiler by `longjmp`.
abbrev pub Result {ℓ} : Type ℓ → Type ℓ
Result = Outcome RexError

-- `SQRex`, as far as the compiler uses it: what is left of the pattern behind `_p`, the `_nsize`
-- nodes that are written, the nodes that memory was asked for, and the groups counted
pub record Rex : Type 0 where
  pub p : List ℕ
  pub nodes : List Node
  pub nallocated : ℕ
  pub nsubexpr : ℕ

-- `*exp->_p`
abbrev pub cur : Rex → ℕ
cur e = head_of e.p

-- `exp->_p++`
unfoldable pub advance : Rex → Rex
advance e = record e { p = tail_of e.p }

abbrev pub nsize : Rex → ℕ
nsize e = length e.nodes

-- the `right` of a new node, and the groups counted behind it
abbrev pub capture : NodeType → ℕ → Option ℕ × ℕ
capture op_expr n = (some n, n + 1)
capture other n = (none, n)

abbrev pub new_node : NodeType → ℕ → Node
new_node type groups = record {
  type = type;
  left = none;
  right = (capture type groups).0;
  next = none;
}

-- `sqstd_rex_newnode`: the new node's index
unfoldable pub newnode : NodeType → Rex → ℕ × Rex
newnode type e = (
  nsize e,
  record e {
    nodes = e.nodes ++ new_node type e.nsubexpr ∷ [];
    nallocated = if ltb e.nallocated (nsize e + 1) then e.nallocated * 2 else e.nallocated;
    nsubexpr = (capture type e.nsubexpr).1;
  },
)

abbrev pub no_node : Node
no_node = record { type = char 0; left = none; right = none; next = none }

-- `exp->_nodes[n]`
abbrev pub node_at : Rex → ℕ → Node
node_at e n = get_or e.nodes n no_node

unfoldable pub put : ℕ → Node → Rex → Rex
put n node e = record e { nodes = set e.nodes n node }

abbrev pub set_left : ℕ → ℕ → Rex → Rex
set_left n v e = put n (record (node_at e n) { left = some v }) e

abbrev pub set_right : ℕ → ℕ → Rex → Rex
set_right n v e = put n (record (node_at e n) { right = some v }) e

abbrev pub set_next : ℕ → ℕ → Rex → Rex
set_next n v e = put n (record (node_at e n) { next = some v }) e
