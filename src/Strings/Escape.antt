-- ===== src/Strings/Escape.antt =====
-- What `escape` writes, the loop of `ReadString` reads back.
use squirrel_gobject.Prelude.{
  ℕ, zero, suc, ◌+◌, ◌/◌, ◌%◌, ◌≤◌, ◌<◌, ◌≡◌, ◌≢◌, refl, sym, ap, ◌∙◌, ◌==◌, ltb, Bool, true, false,
  ◌||◌, Bool-cases, ==→eq, inl, inr, List, [], ◌∷◌, ◌++◌, length, length-append, arith,
}
use mathlib.Core.List.{append_assoc}
use squirrel_gobject.Prelude.Chars.{is_print, is_xdigit}
use squirrel_gobject.Lexer.Cursor.{at, Result, ok, err, out_of_fuel, Cursor}
use squirrel_gobject.Lexer.Number.{lex_hexadecimal, hex_digit}
use squirrel_gobject.Lexer.Literal.{prepend, string_loop}
use squirrel_gobject.Strings.{
  escape_char, hex_char, print_hex, escape_byte, escape_loop, string_escape,
}

-- The answer is `text`, and the lexer stands before `rest` on the same line.
abbrev pub Yields : List ℕ → List ℕ → ℕ → Result (List ℕ × Cursor) → Type 0
Yields text rest line (ok (t, k)) = (t ≡ text) × (k.chars ≡ rest) × (k.line ≡ line)
Yields text rest line (err e) = ⊥
Yields text rest line out_of_fuel = ⊥

prepend-Yields :
    (c : ℕ) (text rest : List ℕ) (line : ℕ) (r : Result (List ℕ × Cursor))
    → Yields text rest line r
    → Yields (c ∷ text) rest line (prepend (c ∷ []) r)
prepend-Yields c text rest line (ok (t, k)) (p, q, l) = (ap (λ x. c ∷ x) p, q, l)
prepend-Yields c text rest line (err e) h = h
prepend-Yields c text rest line out_of_fuel h = h

hex_char-is_xdigit : (d : ℕ) → d < 16 → is_xdigit (hex_char d) ≡ true
hex_char-is_xdigit d h = ground arith

hex_digit-hex_char : (d : ℕ) → d < 16 → hex_digit (hex_char d) ≡ d
hex_digit-hex_char d h = ground arith

lex_hexadecimal-print_hex :
    (c : ℕ) → c < 128 → lex_hexadecimal 0 (hex_char (c / 16) ∷ hex_char (c % 16) ∷ []) ≡ c
unfolding lex_hexadecimal
lex_hexadecimal-print_hex c h =
    rw (hex_digit-hex_char (c / 16) (omega arith), hex_digit-hex_char (c % 16) (omega arith))
      (omega arith)

-- The loop reads `bytes` as the byte `c`.
abbrev ReadsAs : List ℕ → ℕ → Type 0
ReadsAs bytes c =
    (f : ℕ) (more : List ℕ) (line column : ℕ)
    → (column' : ℕ) × (string_loop (suc f) b'"' false (at (bytes ++ more) line column)
        ≡ prepend (c ∷ []) (string_loop f b'"' false (at more line column')))

plain-ReadsAs : (c : ℕ) → c ≢ b'"' → c ≢ 0 → c ≢ b'\n' → c ≢ b'\\' → ReadsAs (c ∷ []) c
unfolding string_loop at
plain-ReadsAs c q z n b f more line column =
    let q' : (c == b'"') ≡ false = ground arith in
    let z' : (c == 0) ≡ false = ground arith in
    let n' : (c == b'\n') ≡ false = ground arith in
    let b' : (c == b'\\') ≡ false = ground arith in (column + 1, rw (q', z', n', b') refl)

quote-ReadsAs : ReadsAs (b'\\' ∷ b'"' ∷ []) b'"'
unfolding string_loop at
quote-ReadsAs f more line column = (column + 1 + 1, refl)

apostrophe-ReadsAs : ReadsAs (b'\\' ∷ 39 ∷ []) 39
unfolding string_loop at
apostrophe-ReadsAs f more line column = (column + 1 + 1, refl)

backslash-ReadsAs : ReadsAs (b'\\' ∷ b'\\' ∷ []) b'\\'
unfolding string_loop at
backslash-ReadsAs f more line column = (column + 1 + 1, refl)

zero-ReadsAs : ReadsAs (b'\\' ∷ b'0' ∷ []) 0
unfolding string_loop at
zero-ReadsAs f more line column = (column + 1 + 1, refl)

hex_step :
    (a b f : ℕ) (more : List ℕ) (line column : ℕ)
    → is_xdigit a ≡ true
    → is_xdigit b ≡ true
    → string_loop (suc f) b'"' false (at (b'\\' ∷ b'x' ∷ a ∷ b ∷ more) line column)
      ≡ prepend
          (lex_hexadecimal 0 (a ∷ b ∷ []) % 256 ∷ [])
          (string_loop f b'"' false (at more line (column + 1 + 1 + 1 + 1)))
unfolding string_loop at
hex_step a b f more line column p q = rw (p, q) refl

print_hex-small : (c : ℕ) → c < 128 → print_hex c ≡ hex_char (c / 16) ∷ hex_char (c % 16) ∷ []
unfolding print_hex
print_hex-small c h = let small : ltb c 128 ≡ true = ground arith in rw small refl

hex-ReadsAs : (c : ℕ) → c < 128 → ReadsAs (b'\\' ∷ b'x' ∷ print_hex c) c
hex-ReadsAs c h f more line column =
    let a = hex_char (c / 16) in
    let b = hex_char (c % 16) in
    let value : lex_hexadecimal 0 (a ∷ b ∷ []) % 256 ≡ c =
      rw (lex_hexadecimal-print_hex c h) (omega arith) in
    (
      column + 1 + 1 + 1 + 1,
      rw (print_hex-small c h) (
          hex_step a b f more line column (hex_char-is_xdigit (c / 16) (omega arith))
            (hex_char-is_xdigit (c % 16) (omega arith))
          ∙ ap
              (λ x.
                prepend (x ∷ []) (string_loop f b'"' false (at more line (column + 1 + 1 + 1 + 1))))
              value),
    )

-- The bytes that are written with a backslash and themselves.
special : ℕ → Bool
special c = c == b'"' || c == 39 || c == b'\\' || c == 0

escape_char-plain : (c : ℕ) → special c ≡ false → is_print c ≡ true → escape_char c ≡ 0
unfolding escape_char special
escape_char-plain c s p = ground arith

escape_byte-plain : (c : ℕ) → special c ≡ false → is_print c ≡ true → (escape_byte c).0 ≡ c ∷ []
unfolding escape_byte
escape_byte-plain c s p = rw (p, escape_char-plain c s p) refl

escape_byte-hex :
    (c : ℕ)
    → special c ≡ false
    → is_print c ≡ false
    → (escape_byte c).0 ≡ b'\\' ∷ b'x' ∷ print_hex c
unfolding escape_byte special
escape_byte-hex c s p = let z : (c == 0) ≡ false = ground arith in rw (p, z) refl

special-ReadsAs : (c : ℕ) → special c ≡ true → ReadsAs (escape_byte c).0 c
unfolding escape_byte special
special-ReadsAs c s = elim (Bool-cases (c == b'"')) [
  | inl q ↦ rw (==→eq c b'"' q) quote-ReadsAs
  | inr q ↦ elim (Bool-cases (c == 39)) [
    | inl a ↦ rw (==→eq c 39 a) apostrophe-ReadsAs
    | inr a ↦ elim (Bool-cases (c == b'\\')) [
      | inl b ↦ rw (==→eq c b'\\' b) backslash-ReadsAs
      | inr b ↦ let z : c ≡ 0 = ground arith in rw z zero-ReadsAs
    ]
  ]
]

plain_byte :
    (c : ℕ)
    → special c ≡ false
    → is_print c ≡ true
    → (c ≢ b'"') × (c ≢ 0) × (c ≢ b'\n') × (c ≢ b'\\')
unfolding special
plain_byte c s p = ground arith

escape_byte-ReadsAs : (c : ℕ) → c < 128 → ReadsAs (escape_byte c).0 c
escape_byte-ReadsAs c h = elim (Bool-cases (special c)) [
  | inl s ↦ special-ReadsAs c s
  | inr s ↦ elim (Bool-cases (is_print c)) [
    | inl p ↦
        let (q, z, n, b) = plain_byte c s p in
        rw (escape_byte-plain c s p) (plain-ReadsAs c q z n b)
    | inr p ↦ rw (escape_byte-hex c s p) (hex-ReadsAs c h)
  ]
]

-- no byte is negative as a `char`
abbrev pub Ascii : List ℕ → Type 0
Ascii [] = Unit
Ascii (c ∷ s) = (c < 128) × Ascii s

quote-Yields :
    (rest : List ℕ) (f line column : ℕ)
    → Yields [] rest line (string_loop (suc f) b'"' false (at (b'"' ∷ rest) line column))
unfolding string_loop at
quote-Yields rest f line column = (refl, refl, refl)

pub escape_loop-Yields :
    (s rest : List ℕ) (f line column : ℕ)
    → Ascii s
    → length s < f
    → Yields s rest line
        (string_loop f b'"' false (at ((escape_loop s).0 ++ b'"' ∷ rest) line column))
unfolding escape_loop
escape_loop-Yields s rest zero line column a l = absurd (omega arith)
escape_loop-Yields [] rest (suc f) line column a l = quote-Yields rest f line column
escape_loop-Yields (c ∷ s) rest (suc f) line column (small, a) l =
    let bytes = (escape_byte c).0 in
    let text = (escape_loop s).0 in
    let (column', step) = escape_byte-ReadsAs c small f (text ++ b'"' ∷ rest) line column in
    rw (append_assoc bytes text (b'"' ∷ rest), step)
      (prepend-Yields c s rest line
        (string_loop f b'"' false (at (text ++ b'"' ∷ rest) line column'))
        (escape_loop-Yields s rest f line column' a (omega arith)))

escape_byte-nonempty : (c : ℕ) → 0 < length (escape_byte c).0
unfolding escape_byte
escape_byte-nonempty c = ground arith

pub escape_loop-longer : (s : List ℕ) → length s ≤ length (escape_loop s).0
unfolding escape_loop
escape_loop-longer [] = omega arith
escape_loop-longer (c ∷ s) = omega (
  arith,
  escape_loop-longer s,
  escape_byte-nonempty c,
  length-append (escape_byte c).0 (escape_loop s).0,
)

escape_byte-kept : (c : ℕ) → (escape_byte c).1 ≡ false → (escape_byte c).0 ≡ c ∷ []
unfolding escape_byte
escape_byte-kept c h = ground arith

escape_loop-kept : (s : List ℕ) → (escape_loop s).1 ≡ 0 → (escape_loop s).0 ≡ s
unfolding escape_loop
escape_loop-kept [] h = refl
escape_loop-kept (c ∷ s) h = elim (Bool-cases (escape_byte c).1) [
  | inl t ↦ absurd (ground arith)
  | inr t ↦
      let none_left : (escape_loop s).1 ≡ 0 = ground arith in
      rw (escape_byte-kept c t, escape_loop-kept s none_left) refl
]

pub string_escape-text : (s : List ℕ) → string_escape s ≡ (escape_loop s).0
unfolding string_escape escape_loop
string_escape-text [] = refl
string_escape-text (c ∷ s) =
    let nonempty : (length (c ∷ s) == 0) ≡ false = ground arith in
    elim (Bool-cases ((escape_loop (c ∷ s)).1 == 0)) [
      | inl t ↦
          rw (nonempty, t) (sym (escape_loop-kept (c ∷ s) (==→eq (escape_loop (c ∷ s)).1 0 t)))
      | inr t ↦ rw (nonempty, t) refl
    ]
