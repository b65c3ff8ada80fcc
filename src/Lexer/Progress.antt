-- ===== src/Lexer/Progress.antt =====
-- A call of `SQLexer::Lex` as a whole: it ends, moves on and counts lines.
use squirrel_gobject.Prelude.{
  List, [], ◌∷◌, ℕ, zero, suc, ◌<◌, ◌≤◌, ◌≡◌, ◌≢◌, refl, ◌==◌, true, false, ◌&&◌, ◌||◌, Option,
  none, some, ==→eq, length, arith,
}
use squirrel_gobject.Prelude.Chars.{is_digit, is_alpha, is_cntrl}
use squirrel_gobject.Lexer.Token.{Token, tk_end}
use squirrel_gobject.Lexer.Cursor.{
  Result, out_of_fuel, ok, ◌>>=◌, Cursor, cur, next, next_line, Lexer, move,
}
use squirrel_gobject.Lexer.Scan.{
  line_comment, block_comment, dots, operator, other_token, read_token, blank, return_token,
  lex_loop, lex,
}
use squirrel_gobject.Lexer.Literal.{read_string}
use squirrel_gobject.Lexer.Reads.{
  Reads, Reads-refl, Reads-trans, next_line-Reads, Ends, OnSome, bind-Ends, map-Ends, if-Ends,
  length-next, dots-Ends, operator-Reads, line_comment-Reads, block_comment-Ends, last_line,
}
use squirrel_gobject.Lexer.Parts.{
  Behind, nonempty, after_next, read_number-Ends, read_id-Behind, read_string-Ends,
}

other_token-Ends : (v : Lexer) → cur v.at ≢ b'\n' → Ends (Behind (next v.at)) (other_token v)
unfolding other_token
other_token-Ends v n =
    let c = cur v.at in
    let P = Behind (next v.at) in
    if-Ends P (is_digit c) _ _ (λ _. read_number-Ends v)
      (λ _.
        if-Ends P (is_alpha c || c == b'_') _ _ (λ _. read_id-Behind v)
          (λ _. if-Ends P (is_cntrl c) _ _ (λ _. tt) (λ _. Reads-refl (next v.at))))

operator_token-Ends :
    (v : Lexer) (found : Option (Token × Cursor))
    → cur v.at ≢ b'\n'
    → OnSome (λ (r : Token × Cursor). Reads (next v.at) r.1) found
    → Ends
        (Behind (next v.at))
        (elim found [ some (token, end) ↦ ok (token, move end v) | none ↦ other_token v ])
operator_token-Ends v none n h = other_token-Ends v n
operator_token-Ends v (some r) n h = h

read_token-Ends : (v : Lexer) → cur v.at ≢ b'\n' → Ends (Behind (next v.at)) (read_token v)
unfolding read_token
read_token-Ends v n =
    let k = v.at in
    let c = cur k in
    let P = Behind (next k) in
    if-Ends P (c == b'@') _ _
      (λ _.
        if-Ends P (cur (next k) == b'"') _ _
          (λ q.
            let there : cur (next k) ≢ b'\n' = ground arith in
            map-Ends (Behind (next (next k))) P (read_string b'"' true (move (next k) v))
              (read_string-Ends b'"' true (move (next k) v) (omega arith) (omega arith))
              (λ r h. after_next (next k) r.1.at there h))
          (λ _. Reads-refl (next k)))
      (λ _.
        if-Ends P (c == b'"' || c == 39) _ _
          (λ q.
            let here : (c ≢ 0) × (c ≢ b'\n') = ground arith in
            read_string-Ends c false v here.0 here.1)
          (λ _.
            if-Ends P (c == b'.') _ _
              (λ _.
                bind-Ends (λ (r : Token × Cursor). Reads (next k) r.1) P (dots (next k)) _
                  (dots-Ends (next k)) (λ r h. h))
              (λ _. operator_token-Ends v (operator c (next k)) n (operator-Reads c (next k)))))

-- What `blank` may answer.
abbrev Passed : Lexer → Option Lexer → Type 0
Passed v (some w) = Reads v.at w.at × (length w.at.chars < length v.at.chars)
Passed v none = cur v.at ≢ b'\n'

line_end-Passed :
    (v : Lexer)
    → cur v.at ≡ b'\n'
    → Reads v.at (next_line v.at) × (length (next_line v.at).chars < length v.at.chars)
unfolding next_line
line_end-Passed v e = (next_line-Reads v.at e, omega (arith, nonempty v.at, length-next v.at))

behind-Passed :
    (v : Lexer) (l : Cursor)
    → cur v.at ≢ b'\n'
    → cur v.at ≢ 0
    → Reads (next v.at) l
    → Reads v.at l × (length l.chars < length v.at.chars)
behind-Passed v l n z p =
    (after_next v.at l n p, omega (arith, p.shorter, nonempty v.at z, length-next v.at))

blank-Ends : (v : Lexer) → cur v.at ≢ 0 → Ends (Passed v) (blank v)
unfolding blank
blank-Ends v z =
    let k = v.at in
    let c = cur k in
    if-Ends (Passed v) (c == b'\t' || c == b'\r' || c == b' ') _ _
      (λ e.
        let here : c ≢ b'\n' = ground arith in
        behind-Passed v (next k) here z (Reads-refl (next k)))
      (λ _.
        if-Ends (Passed v) (c == b'\n') _ _
          (λ e.
            let (p, s) = line_end-Passed v (==→eq c b'\n' e) in
            (record { counted = p.counted; shorter = p.shorter }, s))
          (λ e.
            let n : c ≢ b'\n' = ground arith in
            if-Ends (Passed v) (c == b'#') _ _
              (λ _. behind-Passed v (line_comment k) n z (line_comment-Reads k))
              (λ _.
                if-Ends (Passed v) (c == b'/' && cur (next k) == b'*') _ _
                  (λ s.
                    let there : cur (next k) ≢ b'\n' = ground arith in
                    let start = next (next k) in
                    bind-Ends (Reads start) (Passed v) (block_comment start) _
                      (block_comment-Ends start)
                      (λ l p. behind-Passed v l n z (after_next (next k) l there p)))
                  (λ _.
                    if-Ends (Passed v) (c == b'/' && cur (next k) == b'/') _ _
                      (λ s.
                        let there : cur (next k) ≢ b'\n' = ground arith in
                        let end = line_comment (next k) in
                        behind-Passed v end n z
                          (after_next (next k) end there (line_comment-Reads (next k))))
                      (λ _. n)))))

-- What `lex` may answer for the lexer `v`: it has moved on, unless the token is the end.
abbrev Moved : Lexer → Token × Lexer → Type 0
Moved v r = Reads v.at r.1.at × (r.0 ≢ tk_end → length r.1.at.chars < length v.at.chars)

Moved-trans : (v w : Lexer) (r : Token × Lexer) → Reads v.at w.at → Moved w r → Moved v r
Moved-trans v w r p (q, less) = (Reads-trans p q, λ n. omega (arith, p.shorter, less n))

lex_loop-Ends : (f : ℕ) (v : Lexer) → length v.at.chars < f → Ends (Moved v) (lex_loop f v)
unfolding lex_loop
lex_loop-Ends zero v l = absurd (omega arith)
lex_loop-Ends (suc f) v l =
    if-Ends (Moved v) (cur v.at == 0) _ _ (λ _. (Reads-refl v.at, λ n. absurd (n refl)))
      (λ e.
        let z : cur v.at ≢ 0 = ground arith in
        bind-Ends (Passed v) (Moved v) (blank v) _ (blank-Ends v z)
          (λ skipped p. onward z (λ w less. lex_loop-Ends f w (omega arith)) skipped p))
  where
    token :
        cur v.at ≢ 0
        → cur v.at ≢ b'\n'
        → (r : Token × Lexer) → Behind (next v.at) r
        → Moved v (return_token r)
    token z n r p = let (q, s) = behind-Passed v r.1.at n z p in (q, λ _. s)

    onward :
        cur v.at ≢ 0
        → ((w : Lexer) → length w.at.chars < length v.at.chars → Ends (Moved w) (lex_loop f w))
        → (skipped : Option Lexer) → Passed v skipped
        → Ends (Moved v) (elim skipped [
          | some w ↦ lex_loop f w
          | none ↦ do read ← read_token v; ok (return_token read)
        ])
    onward z later (some w) (p, s) =
        map-Ends (Moved w) (Moved v) (lex_loop f w) (later w s) (λ r h. Moved-trans v w r p h)
    onward z later none n =
        bind-Ends (Behind (next v.at)) (Moved v) (read_token v) _ (read_token-Ends v n)
          (λ r p. token z n r p)

-- A token and the lexer behind it: the line counter has grown by the line ends that were passed, and
-- unless the token is the end, the text that is left is strictly shorter.
abbrev pub Lexed : Lexer → Token × Lexer → Type 0
Lexed v (token, w) =
    (last_line w.at ≡ last_line v.at)
    × (length w.at.chars ≤ length v.at.chars)
    × (token ≢ tk_end → length w.at.chars < length v.at.chars)

-- From every state of the lexer, a call of `lex` ends within its fuel. Where it does not stop with an
-- error of the source, the line counter has grown by the line ends that were passed, inside comments
-- and strings too, and unless the token is the end, the text that is left is strictly shorter.
pub lex-Ends : (v : Lexer) → Ends (Lexed v) (lex v)
unfolding lex
lex-Ends v =
    let from = record v { lasttokenline = v.at.line } in
    map-Ends (Moved from) (Lexed v) (lex v)
      (lex_loop-Ends (suc (length v.at.chars)) from (omega arith))
      (λ r (p, s). (p.counted, p.shorter, s))

-- the tokens up to the end of the text, as many calls of `lex` as there is fuel for
unfoldable pub tokens : ℕ → Lexer → Result (List Token)
unfolding lex
tokens zero v = out_of_fuel
tokens (suc f) v = do
  (token, w) ← lex v
  elim token [ Token.tk_end ↦ ok [] | other ↦ do more ← tokens f w; ok (other ∷ more) ]

more_tokens-Ends :
    (f : ℕ) (token : Token) (w : Lexer)
    → (token ≢ tk_end → Ends (λ _. Unit {0}) (tokens f w))
    → Ends
        (λ _. Unit {0})
        (elim token [ Token.tk_end ↦ ok [] | other ↦ do more ← tokens f w; ok (other ∷ more) ])
more_tokens-Ends f Token.tk_end w h = tt
more_tokens-Ends f other w h =
    bind-Ends (λ _. Unit {0}) (λ _. Unit {0}) (tokens f w) _ (h (λ e. cc e)) (λ more u. u)

tokens-Ends_within : (f : ℕ) (v : Lexer) → length v.at.chars < f → Ends (λ _. Unit {0}) (tokens f v)
unfolding tokens
tokens-Ends_within zero v l = absurd (omega arith)
tokens-Ends_within (suc f) v l =
    bind-Ends (Lexed v) (λ _. Unit {0}) (lex v) _ (lex-Ends v)
      (λ (token, w) (p, q, less).
        more_tokens-Ends f token w (λ n. tokens-Ends_within f w (omega (arith, less n))))

-- From every state of the lexer, calling `lex` again and again reaches the end of the text or an error
-- of the source after at most one call more than there are characters left.
pub tokens-Ends : (v : Lexer) → Ends (λ _. Unit {0}) (tokens (suc (length v.at.chars)) v)
tokens-Ends v = tokens-Ends_within (suc (length v.at.chars)) v (omega arith)
