-- ===== src/Lexer/Token.antt =====
-- The tokens (Squirrel3/squirrel/sqcompiler.h) and the keywords that the constructor of `SQLexer`
-- enters in its table (sqlexer.cpp). A token of one character is that character; 0 is the end.
use squirrel_gobject.Prelude.{ℕ, Option, none, some, List, [], ◌∷◌, if◌then◌else◌}
use squirrel_gobject.Prelude.Chars.{codes, same_text}

pub data Token : Type 0 where
  tk_end : Token
  char : ℕ → Token
  tk_identifier tk_string_literal tk_integer tk_float tk_base tk_delete tk_eq tk_ne : Token
  tk_le tk_ge tk_switch tk_arrow tk_and tk_or tk_if tk_else : Token
  tk_while tk_break tk_for tk_do tk_null tk_foreach tk_in tk_newslot : Token
  tk_modulo tk_local tk_clone tk_function tk_return tk_typeof tk_uminus tk_pluseq : Token
  tk_minuseq tk_continue tk_yield tk_try tk_catch tk_throw tk_shiftl tk_shiftr : Token
  tk_resume tk_double_colon tk_case tk_default tk_this tk_plusplus tk_minusminus tk_3wayscmp : Token
  tk_ushiftr tk_class tk_extends tk_constructor tk_instanceof tk_varparams tk_line tk_file : Token
  tk_true tk_false tk_muleq tk_diveq tk_modeq tk_attr_open tk_attr_close tk_static : Token
  tk_enum tk_const tk_rawcall : Token

-- `_keywords`
abbrev pub keywords : List (List ℕ × Token)
keywords =
    (codes "while", tk_while)
    ∷ (codes "do", tk_do)
    ∷ (codes "if", tk_if)
    ∷ (codes "else", tk_else)
    ∷ (codes "break", tk_break)
    ∷ (codes "continue", tk_continue)
    ∷ (codes "return", tk_return)
    ∷ (codes "null", tk_null)
    ∷ (codes "function", tk_function)
    ∷ (codes "local", tk_local)
    ∷ (codes "for", tk_for)
    ∷ (codes "foreach", tk_foreach)
    ∷ (codes "in", tk_in)
    ∷ (codes "typeof", tk_typeof)
    ∷ (codes "base", tk_base)
    ∷ (codes "delete", tk_delete)
    ∷ (codes "try", tk_try)
    ∷ (codes "catch", tk_catch)
    ∷ (codes "throw", tk_throw)
    ∷ (codes "clone", tk_clone)
    ∷ (codes "yield", tk_yield)
    ∷ (codes "resume", tk_resume)
    ∷ (codes "switch", tk_switch)
    ∷ (codes "case", tk_case)
    ∷ (codes "default", tk_default)
    ∷ (codes "this", tk_this)
    ∷ (codes "class", tk_class)
    ∷ (codes "extends", tk_extends)
    ∷ (codes "constructor", tk_constructor)
    ∷ (codes "instanceof", tk_instanceof)
    ∷ (codes "true", tk_true)
    ∷ (codes "false", tk_false)
    ∷ (codes "static", tk_static)
    ∷ (codes "enum", tk_enum)
    ∷ (codes "const", tk_const)
    ∷ (codes "__LINE__", tk_line)
    ∷ (codes "__FILE__", tk_file)
    ∷ (codes "rawcall", tk_rawcall)
    ∷ []

pub lookup : List ℕ → List (List ℕ × Token) → Option Token
lookup name [] = none
lookup name ((key, token) ∷ rest) =
    let later = lookup name rest in if same_text key name then some token else later

-- `GetIDType`
unfoldable pub id_type : List ℕ → Token
unfolding lookup
id_type name = elim (lookup name keywords) [ none ↦ tk_identifier | some token ↦ token ]
