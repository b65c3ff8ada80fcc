-- ===== src/Lexer/Tests.antt =====
-- The lexer at concrete texts.
use squirrel_gobject.Prelude.{arith, ℕ, ◌≡◌, refl, List, [], ◌∷◌}
use squirrel_gobject.Prelude.Chars.{codes}
use squirrel_gobject.Lexer.Token.{Token}
use squirrel_gobject.Lexer.Cursor.{at, move, Lexer, ok, ◌>>=◌}
use squirrel_gobject.Lexer.Scan.{lex}
use squirrel_gobject.Lexer.Reads.{Ends}
use squirrel_gobject.Lexer.Number.{read_number}
use squirrel_gobject.Lexer.Decimal.{ReadsInteger, read_number-decimal}
use squirrel_gobject.Lexer.Progress.{Lexed, lex-Ends, tokens, tokens-Ends}

abbrev start : List ℕ → Lexer
start text = record {
  at = record { chars = text; line = 1; column = 1 };
  lasttokenline = 1;
  prevtoken = Token.tk_end;
  curtoken = Token.tk_end;
  svalue = [];
  nvalue = 0;
  fvalue = [];
}

tokens_of_assignment :
    tokens 20 (start (codes "local x_1 <- 0x1F // note"))
    ≡ ok (Token.tk_local ∷ Token.tk_identifier ∷ Token.tk_newslot ∷ Token.tk_integer ∷ [])
unfolding tokens
tokens_of_assignment = refl

lex-Ends_example :
    Ends (Lexed (start (codes "/* a */ while"))) (lex (start (codes "/* a */ while")))
lex-Ends_example = lex-Ends (start (codes "/* a */ while"))

read_number-decimal_example :
    ReadsInteger 42 (codes ";") 1 (read_number (move (at (codes "42;") 1 0) (start [])))
read_number-decimal_example =
    read_number-decimal b'4' (codes "2") (codes ";") 1 0 (start []) (λ e. absurd (omega arith))
      (refl, tt) refl

-- 2 ^ 64 + 1
wrapped_value : lex (start (codes "18446744073709551617")) >>= (λ (token, v). ok v.nvalue) ≡ ok 1
unfolding lex
wrapped_value = refl

tokens-Ends_example : Ends (λ _. Unit {0}) (tokens 7 (start (codes "x += 2")))
tokens-Ends_example = tokens-Ends (start (codes "x += 2"))
