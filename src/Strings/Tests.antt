-- ===== src/Strings/Tests.antt =====
-- The string functions at concrete strings.
use squirrel_gobject.Prelude.{ℕ, ◌≡◌, ◌↔◌, refl, true, some, List, [], ◌∷◌, ◌++◌, arith}
use squirrel_gobject.Prelude.Chars.{codes}
use squirrel_gobject.Lexer.Token
use squirrel_gobject.Lexer.Cursor.{at, Lexer, move}
use squirrel_gobject.Lexer.Scan.{lex}
use squirrel_gobject.Strings.{string_escape, strip, split, c_string, startswith, endswith}
use squirrel_gobject.Strings.Quoted.{ReadsBack, quoted, lex-string_escape}
use squirrel_gobject.Strings.Strip.{Trimmed, strip-Trimmed}
use squirrel_gobject.Strings.Pieces.{Pieces, split-Pieces}
use squirrel_gobject.Strings.Affixes.{startswith-endswith}

abbrev lexer : Lexer
lexer = record {
  at = record { chars = []; line = 1; column = 0 };
  lasttokenline = 1;
  prevtoken = Token.tk_end;
  curtoken = Token.tk_end;
  svalue = [];
  nvalue = 0;
  fvalue = [];
}

abbrev two_lines : List ℕ
two_lines = b'a' ∷ 10 ∷ b'"' ∷ b'b' ∷ []

escaped_lines : string_escape two_lines ≡ codes "a\\x0a\\\"b"
unfolding string_escape
escaped_lines = refl

lex-string_escape_example :
    ReadsBack two_lines (codes ";") 1 (lex (move (at (quoted two_lines (codes ";")) 1 0) lexer))
lex-string_escape_example =
    lex-string_escape two_lines (codes ";") 1 0 lexer
      (omega arith, (omega arith, (omega arith, (omega arith, tt))))

strip-Trimmed_example : Trimmed (codes "  a b ") (strip (codes "  a b "))
strip-Trimmed_example = strip-Trimmed (codes "  a b ")

stripped : strip (codes "  a b ") ≡ codes "a b"
unfolding strip
stripped = refl

split_words : split (codes "a,,b;") (codes ",;") true ≡ some (codes "a" ∷ codes "b" ∷ [])
unfolding split
split_words = refl

split-Pieces_example :
    Pieces (c_string (codes "a,,b;")) (codes ",;") true (split (codes "a,,b;") (codes ",;") true)
split-Pieces_example = split-Pieces (codes "a,,b;") (codes ",;") true

startswith-endswith_example :
    ((startswith (codes "vm.c") (codes "vm") ≡ true)
      ↔ ((rest : List ℕ) × (codes "vm.c" ≡ codes "vm" ++ rest)))
    × ((endswith (codes "vm.c") (codes "vm") ≡ true)
        ↔ ((before : List ℕ) × (codes "vm.c" ≡ before ++ codes "vm")))
startswith-endswith_example = startswith-endswith (codes "vm.c") (codes "vm")
