-- ===== src/Regex/Repetition.antt =====
-- How often an element is repeated: what is read behind it.
use squirrel_gobject.Prelude.{
  ℕ, ◌+◌, ◌*◌, ◌-◌, ◌≤◌, ◌==◌, if◌then◌else◌, List, [], ◌∷◌, length, arith,
}
use squirrel_gobject.Prelude.Chars.{is_digit}
use squirrel_gobject.Prelude.Outcome.{Ends, bind-Ends, map-Ends, if-Ends}
use squirrel_gobject.Regex.Node
use squirrel_gobject.Regex.Node.{
  NodeType, char, Result, ok, err, out_of_fuel, ◌>>=◌, Rex, cur, advance, nsize, new_node, newnode,
  node_at, put, set_left, set_right, set_next,
}
use squirrel_gobject.Regex.Grows.{
  Extends, Extends-refl, Grows-trans, moved-Extends, advance-Extends,
}
use squirrel_gobject.Regex.Elements.{expect, more_digits, parsenumber}
use squirrel_gobject.Regex.Compile.{upper_bound, repetition}
use squirrel_gobject.Regex.Groups.{expect-Ends}

more_digits-Ends :
    (ret positions : ℕ) (cs : List ℕ)
    → Ends (λ (r : ℕ × List ℕ). length r.1 ≤ length cs) (more_digits ret positions cs)
unfolding more_digits
more_digits-Ends ret positions [] = omega arith
more_digits-Ends ret positions (c ∷ cs) =
    let P = λ (r : ℕ × List ℕ). length r.1 ≤ length (c ∷ cs) in
    if-Ends P (is_digit c) _ _
      (λ _.
        if-Ends P (positions == 1000000000) _ _ (λ _. tt)
          (λ _.
            map-Ends (λ (r : ℕ × List ℕ). length r.1 ≤ length cs) P _
              (more_digits-Ends (ret * 10 + (c - b'0')) (positions * 10) cs) (λ r l. omega arith)))
      (λ _. omega arith)

-- what only reads
abbrev pub Reads {ℓ} : {A : Type ℓ} → Rex → A × Rex → Type 0
Reads e r = Extends e r.1

parsenumber-Ends : (e : Rex) → Ends (Reads e) (parsenumber e)
unfolding parsenumber
parsenumber-Ends e =
    bind-Ends (λ (r : ℕ × List ℕ). length r.1 ≤ length (advance e).p) (Reads e)
      (more_digits (cur e - b'0') 10 (advance e).p) _
      (more_digits-Ends (cur e - b'0') 10 (advance e).p)
      (λ r l. moved-Extends e r.1 (omega (arith, l, (advance-Extends e).shorter)))

upper_bound-Ends : (p0 : ℕ) (e : Rex) → Ends (Reads e) (upper_bound p0 e)
unfolding upper_bound
upper_bound-Ends p0 e =
    let behind = advance e in
    if-Ends (Reads e) (cur e == b'}') _ _ (λ _. advance-Extends e)
      (λ _.
        if-Ends (Reads e) (cur e == b',') _ _
          (λ _.
            bind-Ends (Reads behind) (Reads e)
              (if is_digit (cur behind) then parsenumber behind else ok (65535, behind)) _
              (if-Ends (Reads behind) (is_digit (cur behind)) _ _ (λ _. parsenumber-Ends behind)
                (λ _. Extends-refl behind))
              (λ (p1, e1) g.
                bind-Ends (Extends e1) (Reads e) (expect b'}' e1) _ (expect-Ends b'}' e1)
                  (λ e2 h. Grows-trans (Grows-trans (advance-Extends e) g) h)))
          (λ _. tt))

pub repetition-Ends : (e : Rex) → Ends (Reads e) (repetition e)
unfolding repetition
repetition-Ends e =
    let c = cur e in
    let behind = advance e in
    if-Ends (Reads e) (c == b'*') _ _ (λ _. advance-Extends e)
      (λ _.
        if-Ends (Reads e) (c == b'+') _ _ (λ _. advance-Extends e)
          (λ _.
            if-Ends (Reads e) (c == b'?') _ _ (λ _. advance-Extends e)
              (λ _.
                if-Ends (Reads e) (c == b'{') _ _
                  (λ _.
                    bind-Ends (Reads behind) (Reads e)
                      (if is_digit (cur behind)
                        then parsenumber behind
                        else err Node.number_expected)
                      _
                      (if-Ends (Reads behind) (is_digit (cur behind)) _ _
                        (λ _. parsenumber-Ends behind) (λ _. tt))
                      (λ (p0, e1) g.
                        bind-Ends (Reads e1) (Reads e) (upper_bound p0 e1) _
                          (upper_bound-Ends p0 e1)
                          (λ r h. Grows-trans (Grows-trans (advance-Extends e) g) h)))
                  (λ _. Extends-refl e))))
