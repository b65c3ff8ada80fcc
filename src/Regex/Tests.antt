-- ===== src/Regex/Tests.antt =====
-- The compiler at concrete patterns.
use squirrel_gobject.Prelude.{◌≤◌, ◌≡◌, refl, List, [], ◌∷◌, arith}
use squirrel_gobject.Prelude.Chars.{codes}
use squirrel_gobject.Prelude.Outcome.{Ends}
use squirrel_gobject.Regex.Node
use squirrel_gobject.Regex.Node.{NodeType, char, Result, ok, err, out_of_fuel, ◌>>=◌, Rex, nsize}
use squirrel_gobject.Regex.Compile.{compile, fresh}
use squirrel_gobject.Regex.Match.{matchclass}
use squirrel_gobject.Regex.Matching.{Decided, matchclass_lem}
use squirrel_gobject.Regex.Built.{Compiled, compile-Ends, compile-Room}

types : Rex → List NodeType
types e = walk e.nodes
  where
    walk : List Node.Node → List NodeType
    walk [] = []
    walk (n ∷ ns) = n.type ∷ walk ns

types_of_pattern :
    (compile (codes "(a|[0-9x])+") >>= λ e. ok (types e))
    ≡ ok (
        Node.op_expr
        ∷ Node.op_expr
        ∷ char b'a'
        ∷ Node.op_or
        ∷ Node.op_class
        ∷ char b'0'
        ∷ Node.op_range
        ∷ char b'x'
        ∷ Node.op_greedy
        ∷ [])
unfolding compile types
types_of_pattern = refl

unclosed_group : compile (codes "(ab") ≡ err Node.expected_paren
unfolding compile
unclosed_group = refl

compile-Ends_example : Ends Compiled (compile (codes "(a|[0-9x])+"))
compile-Ends_example = compile-Ends (codes "(a|[0-9x])+")

compile-Room_example : Ends (λ e. nsize e ≤ e.nallocated) (compile (codes "(a|[0-9x])+"))
compile-Room_example = compile-Room (codes "(a|[0-9x])+") (omega arith)

-- the compiled expression of a class, of which the node 2 is the first link
abbrev class_of_digits : Rex
class_of_digits = made (compile (codes "[x0-9]"))
  where
    made : Result Rex → Rex
    made (ok e) = e
    made (err x) = fresh []
    made out_of_fuel = fresh []

first_link : nsize class_of_digits ≡ 5
unfolding compile
first_link = refl

matchclass_lem_example : Decided class_of_digits 2 b'7' (matchclass 5 class_of_digits 2 b'7')
unfolding compile
matchclass_lem_example =
    matchclass_lem class_of_digits 2 b'7' (compile-Ends (codes "[x0-9]")) (omega arith)
