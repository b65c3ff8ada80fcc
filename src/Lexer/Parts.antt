-- ===== src/Lexer/Parts.antt =====
-- Numbers, names and strings end within the fuel of the model, and read forward.
use squirrel_gobject.Prelude.{
  ℕ, zero, suc, ◌%◌, ◌<◌, ◌≡◌, ◌≢◌, refl, ◌==◌, ltb, if◌then◌else◌, Bool, not, ◌&&◌, ◌||◌, ==→eq,
  List, [], ◌∷◌, length, arith,
}
use squirrel_gobject.Prelude.Chars.{is_digit, is_xdigit, to_upper}
use squirrel_gobject.Lexer.Token.{Token, tk_identifier, tk_constructor, id_type}
use squirrel_gobject.Lexer.Cursor.{
  Result, ok, Cursor, cur, head_of, next, next_line, read_while, Lexer,
}
use squirrel_gobject.Lexer.Number.{
  NumberType, tint, tfloat, tscientific, exponent_sign, number_loop, is_exponent, is_octal,
  is_ident, read_octal, read_hexadecimal, decimal, read_number, read_id, named,
}
use squirrel_gobject.Lexer.Literal.{
  add_utf8, hex_escape, simple_escape, escape, prepend, string_loop, literal, read_string,
}
use squirrel_gobject.Lexer.Reads.{
  Reads, Reads-refl, Reads-trans, next-Reads, next_line-Reads, Ends, bind-Ends, map-Ends, if-Ends,
  read_while-Reads, read_at_most-Reads, length-next,
}

exponent_sign-Reads : (k : Cursor) → Reads k (exponent_sign k).1
unfolding exponent_sign
exponent_sign-Reads k = ground (arith, next-Reads k, Reads-refl k)

abbrev After : Cursor → List ℕ × NumberType × Cursor → Type 0
After k r = Reads k r.2

pub nonempty : (k : Cursor) → cur k ≢ 0 → 0 < length k.chars
nonempty k h = some_left k.chars h
  where
    some_left : (cs : List ℕ) → head_of cs ≢ 0 → 0 < length cs
    some_left [] h = absurd (h refl)
    some_left (c ∷ cs) h = omega arith

pub after_next : (k l : Cursor) → cur k ≢ b'\n' → Reads (next k) l → Reads k l
after_next k l h r = Reads-trans (next-Reads k h) r

pub shorter_next :
    (k : Cursor) (f : ℕ) → cur k ≢ 0 → length k.chars < suc f → length (next k).chars < f
shorter_next k f h l = omega (arith, nonempty k h, length-next k)

number_loop-Ends :
    (f : ℕ) (type : NumberType) (k : Cursor)
    → length k.chars < f
    → Ends (After k) (number_loop f type k)
unfolding number_loop
number_loop-Ends zero type k l = absurd (omega arith)
number_loop-Ends (suc f) type k l =
    let c = cur k in
    if-Ends (After k) (c == b'.' || is_digit c || is_exponent c) _ _
      (λ t.
        let here : (c ≢ b'\n') × (c ≢ 0) = ground arith in
        let less = shorter_next k f here.1 l in
        if-Ends (After k) (is_exponent c) _ _
          (λ _.
            let digits = (exponent_sign (next k)).1 in
            let signed : Reads k digits =
              after_next k digits here.0 (exponent_sign-Reads (next k)) in
            let signed_less : length digits.chars < f =
              omega (arith, exponent_sign-Reads (next k)) in
            bind-Ends (After k) (After k) _ _
              (if-Ends (After k) (is_digit (cur digits)) _ _
                (λ d.
                  let there : (cur digits ≢ b'\n') × (cur digits ≢ 0) = ground arith in
                  map-Ends (After (next digits)) (After k) _
                    (number_loop-Ends f tscientific (next digits)
                      (omega (arith, next-Reads digits there.0)))
                    (λ r h. Reads-trans signed (after_next digits r.2 there.0 h)))
                (λ _. tt))
              (λ r h. h))
          (λ _.
            bind-Ends (After (next k)) (After k) _ _
              (number_loop-Ends f (if c == b'.' then tfloat else type) (next k) less)
              (λ r h. after_next k r.2 here.0 h)))
      (λ _. Reads-refl k)

-- What is read of a token whose first character is passed already.
abbrev pub Behind : Cursor → Token × Lexer → Type 0
Behind k r = Reads k r.1.at

decimal-at :
    (text : List ℕ) (type : NumberType) (k : Cursor) (v : Lexer) → Behind k (decimal text type k v)
unfolding decimal
decimal-at text tint k v = Reads-refl k
decimal-at text tfloat k v = Reads-refl k
decimal-at text tscientific k v = Reads-refl k

read_octal-Ends : (k : Cursor) (v : Lexer) → Ends (Behind k) (read_octal k v)
unfolding read_octal
read_octal-Ends k v =
    if-Ends (Behind k) (is_digit (cur (read_while is_octal k).1)) _ _ (λ _. tt)
      (λ _. read_while-Reads is_octal k refl)

read_hexadecimal-Ends : (k : Cursor) (v : Lexer) → Ends (Behind k) (read_hexadecimal k v)
unfolding read_hexadecimal
read_hexadecimal-Ends k v =
    if-Ends (Behind k) (ltb 16 (length (read_while is_xdigit k).0)) _ _ (λ _. tt)
      (λ _. read_while-Reads is_xdigit k refl)

pub read_number-Ends : (v : Lexer) → Ends (Behind (next v.at)) (read_number v)
unfolding read_number
read_number-Ends v =
    let k = next v.at in
    if-Ends (Behind k) (cur v.at == b'0' && (to_upper (cur k) == b'X' || is_octal (cur k))) _ _
      (λ t.
        if-Ends (Behind k) (is_octal (cur k)) _ _ (λ _. read_octal-Ends k v)
          (λ o.
            let here : cur k ≢ b'\n' = ground arith in
            map-Ends (Behind (next k)) (Behind k) _ (read_hexadecimal-Ends (next k) v)
              (λ r h. after_next k r.1.at here h)))
      (λ _.
        bind-Ends (After k) (Behind k) (number_loop (suc (length k.chars)) tint k) _
          (number_loop-Ends (suc (length k.chars)) tint k (omega arith))
          (λ (text, type, end) h. Reads-trans h (decimal-at (cur v.at ∷ text) type end v)))

named-at : (token : Token) (name : List ℕ) (k : Cursor) (v : Lexer) → (named token name k v).at ≡ k
named-at tk_identifier name k v = refl
named-at tk_constructor name k v = refl
named-at other name k v = refl

pub read_id-Behind : (v : Lexer) → Behind (next v.at) (read_id v)
unfolding read_id
read_id-Behind v =
    let (text, end) = read_while is_ident (next v.at) in
    rw (named-at (id_type (cur v.at ∷ text)) (cur v.at ∷ text) end v)
      (read_while-Reads is_ident (next v.at) refl)

-- What is read of a string from `k` on.
abbrev Text : Cursor → List ℕ × Cursor → Type 0
Text k r = Reads k r.1

hex_escape-Ends :
    (n : ℕ) (k : Cursor) → cur k ≢ b'\n' → Ends (λ (r : ℕ × Cursor). Reads k r.1) (hex_escape n k)
unfolding hex_escape
hex_escape-Ends n k h =
    if-Ends (λ (r : ℕ × Cursor). Reads k r.1) (is_xdigit (cur (next k))) _ _
      (λ _. Reads-trans (next-Reads k h) (read_at_most-Reads n is_xdigit (next k) refl)) (λ _. tt)

simple_escape-Ends : (c : ℕ) → Ends (λ (b : ℕ). c ≢ b'\n') (simple_escape c)
unfolding simple_escape
simple_escape-Ends c = ground arith

escape-Ends : (k : Cursor) → Ends (Text k) (escape k)
unfolding escape
escape-Ends k =
    let hex = λ (n : ℕ) (h : cur k ≢ b'\n') (g : ℕ → List ℕ).
      bind-Ends (λ (r : ℕ × Cursor). Reads k r.1) (Text k) (hex_escape n k) (λ r. ok (g r.0, r.1))
        (hex_escape-Ends n k h) (λ r e. e) in
    if-Ends (Text k) (cur k == b'x') _ _ (λ e. hex 2 (ground arith) (λ n. n % 256 ∷ []))
      (λ _.
        if-Ends (Text k) (cur k == b'U') _ _ (λ e. hex 8 (ground arith) add_utf8)
          (λ _.
            if-Ends (Text k) (cur k == b'u') _ _ (λ e. hex 4 (ground arith) add_utf8)
              (λ _.
                bind-Ends (λ _. cur k ≢ b'\n') (Text k) (simple_escape (cur k)) _
                  (simple_escape-Ends (cur k)) (λ _ h. next-Reads k h))))

prepend-Ends :
    (k l : Cursor) (bytes : List ℕ) (r : Result (List ℕ × Cursor))
    → Reads k l
    → Ends (Text l) r
    → Ends (Text k) (prepend bytes r)
prepend-Ends k l bytes r p h = bind-Ends (Text l) (Text k) r _ h (λ a q. Reads-trans p q)

less_line : (k : Cursor) (f : ℕ) → length (next k).chars < f → length (next_line k).chars < f
unfolding next_line
less_line k f h = h

string_loop-Ends :
    (f delim : ℕ) (verbatim : Bool) (k : Cursor)
    → length k.chars < f
    → delim ≢ 0
    → delim ≢ b'\n'
    → Ends (Text k) (string_loop f delim verbatim k)
unfolding string_loop
string_loop-Ends zero delim verbatim k l z n = absurd (omega arith)
string_loop-Ends (suc f) delim verbatim k l z n =
    let c = cur k in
    let onward = λ (bytes : List ℕ) (j : Cursor) (p : Reads k j) (s : length j.chars < f).
      prepend-Ends k j bytes (string_loop f delim verbatim j) p
        (string_loop-Ends f delim verbatim j s z n) in
    if-Ends (Text k) (c == delim) _ _
      (λ e.
        let same = ==→eq c delim e in
        let here : (c ≢ b'\n') × (c ≢ 0) = ground arith in
        if-Ends (Text k) (verbatim && cur (next k) == b'"') _ _
          (λ d.
            let there : cur (next k) ≢ b'\n' = ground arith in
            let twice : Reads k (next (next k)) =
              Reads-trans (next-Reads k here.0) (next-Reads (next k) there) in
            onward (b'"' ∷ []) (next (next k)) twice
              (omega (arith, shorter_next k f here.1 l, length-next (next k))))
          (λ _. next-Reads k here.0))
      (λ _.
        if-Ends (Text k) (c == 0) _ _ (λ _. tt)
          (λ nz.
            let here : c ≢ 0 = ground arith in
            let less = shorter_next k f here l in
            if-Ends (Text k) (c == b'\n') _ _
              (λ e.
                if-Ends (Text k) verbatim _ _
                  (λ _.
                    onward (c ∷ []) (next_line k) (next_line-Reads k (==→eq c b'\n' e))
                      (less_line k f less))
                  (λ _. tt))
              (λ nl.
                let line : c ≢ b'\n' = ground arith in
                if-Ends (Text k) (c == b'\\' && not verbatim) _ _
                  (λ _.
                    bind-Ends (Text (next k)) (Text k) (escape (next k)) _ (escape-Ends (next k))
                      (λ r h. onward r.0 r.1 (after_next k r.1 line h) (omega arith)))
                  (λ _. onward (c ∷ []) (next k) (next-Reads k line) less))))

literal-at :
    (delim : ℕ) (text : List ℕ) (k : Cursor) (v : Lexer) → Ends (Behind k) (literal delim text k v)
unfolding literal
literal-at delim text k v = ground (arith, Reads-refl k)

pub read_string-Ends :
    (delim : ℕ) (verbatim : Bool) (v : Lexer)
    → delim ≢ 0
    → delim ≢ b'\n'
    → Ends (Behind (next v.at)) (read_string delim verbatim v)
unfolding read_string
read_string-Ends delim verbatim v z n =
    let start = next v.at in
    if-Ends (Behind start) (cur start == 0) _ _ (λ _. tt)
      (λ _.
        bind-Ends (Text start) (Behind start)
          (string_loop (suc (length start.chars)) delim verbatim start) _
          (string_loop-Ends (suc (length start.chars)) delim verbatim start (omega arith) z n)
          (λ (text, end) p.
            map-Ends (Behind end) (Behind start) (literal delim text end v)
              (literal-at delim text end v) (λ r q. Reads-trans p q)))
