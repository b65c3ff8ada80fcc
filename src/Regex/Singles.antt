-- ===== src/Regex/Singles.antt =====
-- The parts of the compiler that make a single node: characters, escapes and ranges.
use squirrel_gobject.Prelude.{ℕ, ◌≢◌, ◌==◌, Bool, not, ◌&&◌, ◌||◌, arith}
use squirrel_gobject.Prelude.Chars.{is_print}
use squirrel_gobject.Prelude.Outcome.{Ends, bind-Ends, map-Ends, if-Ends}
use squirrel_gobject.Regex.Node
use squirrel_gobject.Regex.Node.{
  NodeType, char, Result, ok, err, out_of_fuel, ◌>>=◌, Rex, cur, advance, nsize, new_node, newnode,
  node_at, put, set_left, set_right, set_next,
}
use squirrel_gobject.Regex.Grows.{Extends, Grows-trans, advance-Extends}
use squirrel_gobject.Regex.Pending.{
  newnode-Pending, left-Pending, right-Pending, then-Pending, New, Made, close-New, New-trans,
  behind-Made, newnode-New,
}
use squirrel_gobject.Regex.Elements.{
  escaped, escapechar, charclass, is_class_letter, balanced, word_boundary, escaped_node, charnode,
  range_start, range,
}

charclass-New : (c : ℕ) (e : Rex) → New e (charclass c e)
unfolding charclass newnode
charclass-New c e = close-New (left-Pending c (newnode-Pending Node.op_cclass e)) (tt, tt)

balanced-Ends : (e : Rex) → Ends (New e) (balanced e)
unfolding balanced newnode
balanced-Ends e =
    let begin = advance e in
    let end = advance begin in
    let P = New e in
    let three : Extends e (advance end) =
      Grows-trans (Grows-trans (advance-Extends e) (advance-Extends begin)) (advance-Extends end) in
    if-Ends P (cur begin == 0 || cur end == 0) _ _ (λ _. tt)
      (λ _.
        if-Ends P (cur begin == cur end) _ _ (λ _. tt)
          (λ _. New-trans three (
            close-New
              (right-Pending (cur end)
                (left-Pending (cur begin) (newnode-Pending Node.op_mb (advance end))))
              ((tt, tt), tt))))

word_boundary-New : (e : Rex) → New e (word_boundary e)
unfolding word_boundary newnode
word_boundary-New e =
    let node = left-Pending (cur e) (newnode-Pending Node.op_wb e) in
    close-New (then-Pending node (advance-Extends _)) (tt, tt)

char-New : (c : ℕ) (e : Rex) → New e (newnode (char c) (advance e))
char-New c e = New-trans (advance-Extends e) (newnode-New (char c) (advance e) tt)

escaped_node-Ends : (isclass : Bool) (e : Rex) → Ends (New e) (escaped_node isclass e)
unfolding escaped_node
escaped_node-Ends isclass e =
    let P = New e in
    let c = cur e in
    if-Ends P (c == b'n') _ _ (λ _. char-New 10 e)
      (λ _.
        if-Ends P (c == b't') _ _ (λ _. char-New 9 e)
          (λ _.
            if-Ends P (c == b'r') _ _ (λ _. char-New 13 e)
              (λ _.
                if-Ends P (c == b'f') _ _ (λ _. char-New 12 e)
                  (λ _.
                    if-Ends P (c == b'v') _ _ (λ _. char-New 11 e)
                      (λ _.
                        if-Ends P (is_class_letter c) _ _
                          (λ _. New-trans (advance-Extends e) (charclass-New c (advance e)))
                          (λ _.
                            if-Ends P (c == b'm') _ _ (λ _. balanced-Ends e)
                              (λ _.
                                if-Ends P (c == 0) _ _ (λ _. tt)
                                  (λ _.
                                    if-Ends P ((c == b'b' || c == b'B') && not isclass) _ _
                                      (λ _. word_boundary-New e) (λ _. char-New c e)))))))))

pub charnode-Ends : (isclass : Bool) (e : Rex) → Ends (Made e) (charnode isclass e)
unfolding charnode
charnode-Ends isclass e =
    let c = cur e in
    if-Ends (Made e) (c == b'\\') _ _
      (λ q.
        let here : cur e ≢ 0 = ground arith in
        map-Ends (New (advance e)) (Made e) _ (escaped_node-Ends isclass (advance e))
          (λ r n. behind-Made e r here n))
      (λ _.
        if-Ends (Made e) (is_print c) _ _
          (λ q.
            let here : cur e ≢ 0 = ground arith in
            behind-Made e _ here (newnode-New (char c) (advance e) tt))
          (λ _. tt))

escapechar-Ends : (e : Rex) → Ends (λ (r : ℕ × Rex). Extends e r.1) (escapechar e)
unfolding escapechar escaped
escapechar-Ends e =
    let P = λ (r : ℕ × Rex). Extends e r.1 in
    if-Ends P (cur e == b'\\') _ _
      (λ _.
        if-Ends P (cur (advance e) == 0) _ _ (λ _. tt)
          (λ _. Grows-trans (advance-Extends e) (advance-Extends (advance e))))
      (λ _. if-Ends P (is_print (cur e)) _ _ (λ _. advance-Extends e) (λ _. tt))

range_start-Ends : (type : NodeType) (c : ℕ) → Ends (λ _. Unit {0}) (range_start type c)
unfolding range_start
range_start-Ends (char a) c = ground arith
range_start-Ends other c = tt

pub range-Ends : (first : ℕ) (e : Rex) → cur e ≢ 0 → Ends (Made e) (range first e)
unfolding range newnode
range-Ends first e h =
    let start = advance e in
    let e1 = (newnode Node.op_range start).1 in
    bind-Ends (λ _. Unit {0}) (Made e) (range_start (node_at e1 first).type (cur e1)) _
      (range_start-Ends (node_at e1 first).type (cur e1))
      (λ a _.
        let node = left-Pending a (newnode-Pending Node.op_range start) in
        let e2 = set_left (nsize start) a e1 in
        bind-Ends (λ (r : ℕ × Rex). Extends e2 r.1) (Made e) (escapechar e2) _ (escapechar-Ends e2)
          (λ (t, e3) g.
            behind-Made e _ h (close-New (right-Pending t (then-Pending node g)) ((tt, tt), tt))))
