-- ===== src/Regex/Built.antt =====
-- The compiler as a whole: it ends within its fuel, and what it makes is complete.
use squirrel_gobject.Prelude.{
  ℕ, zero, suc, ◌+◌, ◌*◌, ◌≤◌, ◌<◌, ◌≡◌, ◌≢◌, refl, ap, ◌==◌, Option, none, some, List, length,
  arith,
}
use squirrel_gobject.Prelude.Outcome.{Ends, bind-Ends, if-Ends}
use squirrel_gobject.Regex.Node
use squirrel_gobject.Regex.Node.{
  NodeType, char, Result, ok, err, out_of_fuel, ◌>>=◌, Rex, cur, advance, nsize, new_node, newnode,
  node_at, put, set_left, set_right, set_next,
}
use squirrel_gobject.Regex.Grows.{Complete, Extends, Grows-trans, advance-Extends}
use squirrel_gobject.Regex.Pending.{
  newnode-Pending, left-Pending, right-Pending, then-Pending, close-Pending, New, Made, close-New,
  New-trans, behind-Made, newnode-New,
}
use squirrel_gobject.Regex.Links.{link-Grows}
use squirrel_gobject.Regex.Compile.{
  Parser, atom, repetition, repeated, stops, element, branch, list, Rule, an_element, a_list, parse,
  fresh, compile,
}
use squirrel_gobject.Regex.Groups.{
  nsize-set_left, nsize-set_right, nsize-set_next, Within, atom-Ends,
}
use squirrel_gobject.Regex.Repetition.{Reads, repetition-Ends}

repeated-New :
    (b : Rex) (inner : ℕ) (e f : Rex) (bounds : Option ℕ)
    → New b (inner, e)
    → Extends e f
    → New b (repeated inner (bounds, f))
unfolding repeated newnode
repeated-New b inner e f none n g = record {
  extends = Grows-trans n.extends g;
  above = n.above;
  inside = omega (arith, n.inside, g.larger);
}
repeated-New b inner e f (some bounds) n g =
    let node = right-Pending bounds (left-Pending inner (newnode-Pending Node.op_greedy f)) in
    let e1 = (newnode Node.op_greedy f).1 in
    let e2 = set_left (nsize f) inner e1 in
    let size : nsize e1 ≤ nsize (set_right (nsize f) bounds e2) =
      omega (arith, nsize-set_left (nsize f) inner e1, nsize-set_right (nsize f) bounds e2) in
    let inside : inner < nsize (set_right (nsize f) bounds e2) =
      omega (arith, n.inside, g.larger, (newnode-Pending Node.op_greedy f).grows.larger, size) in
    New-trans (Grows-trans n.extends g) (close-New node ((inside, tt), tt))

-- Behind the first of two elements, the second is linked.
link-New :
    (b : Rex) (ret : ℕ) (e : Rex) (r : ℕ × Rex)
    → New b (ret, e)
    → New e r
    → New b (ret, set_next ret r.0 r.1)
link-New b ret e r n m = record {
  extends =
      link-Grows ret r.0 (Grows-trans n.extends m.extends) n.above
        (omega (arith, n.inside, m.above)) m.inside;
  above = n.above;
  inside = omega (arith, n.inside, m.extends.larger, nsize-set_next ret r.0 r.1);
}

repeated-read : (inner : ℕ) (r : Option ℕ × Rex) → (repeated inner r).1.p ≡ r.1.p
unfolding repeated newnode put
repeated-read inner (none, e) = refl
repeated-read inner (some bounds, e) = refl

element-Ends :
    (list again : Parser) (e : Rex)
    → Within (length e.p) list
    → Within (length e.p) again
    → Ends (Made e) (element list again e)
unfolding element
element-Ends list again e wl wa =
    bind-Ends (Made e) (Made e) (atom list e) _ (atom-Ends list e wl) (λ (inner, e1) m.
      bind-Ends (Reads e1) (Made e) (repetition e1) _ (repetition-Ends e1) (λ q g.
        let r = repeated inner q in
        let new = repeated-New e inner e1 q.1 q.0 m.new g in
        let less : length r.1.p < length e.p =
          rw (repeated-read inner q) (omega (arith, m.read, g.shorter)) in
        if-Ends (Made e) (stops (cur r.1)) _ _ (λ _. record { new = new; read = less })
          (λ _. bind-Ends (Made r.1) (Made e) (again r.1) _ (wa r.1 less) (λ (n, e3) k. record {
            new = link-New e r.0 r.1 (n, e3) new k.new;
            read = omega (arith, k.read, less);
          }))))

branch-Ends :
    (elements : Parser) (e : Rex)
    → Within (suc (length e.p)) elements
    → Ends (Made e) (branch elements e)
unfolding branch newnode
branch-Ends elements e w =
    if-Ends (Made e) (cur e == b'^') _ _
      (λ t.
        let here : cur e ≢ 0 = ground arith in
        let start = advance e in
        let e1 = (newnode Node.op_bol start).1 in
        bind-Ends (Made e1) (Made e) (elements e1) _
          (w e1 (omega (arith, (advance-Extends e).shorter)))
          (λ r m.
            behind-Made e _ here
              (link-New start (nsize start) e1 r (newnode-New Node.op_bol start tt) m.new)))
      (λ _. w e (omega arith))

list-Ends :
    (elements again : Parser) (e : Rex)
    → Within (suc (length e.p)) elements
    → Within (length e.p) again
    → Ends (Made e) (list elements again e)
unfolding list newnode
list-Ends elements again e we wa =
    bind-Ends (Made e) (Made e) (branch elements e) _ (branch-Ends elements e we) (λ (ret, e1) m.
      if-Ends (Made e) (cur e1 == b'|') _ _
        (λ _.
          let start = advance e1 in
          let node = left-Pending ret (newnode-Pending Node.op_or start) in
          let e2 = set_left (nsize start) ret (newnode Node.op_or start).1 in
          let less : length e2.p < length e.p =
            omega (arith, m.read, (advance-Extends e1).shorter) in
          bind-Ends (Made e2) (Made e) (again e2) _ (wa e2 less) (λ (tright, e3) k.
            let f = set_right (nsize start) tright e3 in
            let size = nsize-set_right (nsize start) tright e3 in
            let left : ret < nsize f =
              omega
                (arith, m.new.inside, node.inside, node.grows.larger, k.new.extends.larger, size) in
            let right : tright < nsize f = omega (arith, k.new.inside, size) in
            record {
              new = New-trans (Grows-trans m.new.extends (advance-Extends e1)) (
                  close-New (right-Pending tright (then-Pending node k.new.extends))
                    ((left, right), tt));
              read = omega (arith, k.read, less);
            }))
        (λ _. m))

-- the fuel that a part needs for what is left of the pattern
abbrev cost : Rule → ℕ → ℕ
cost an_element n = 2 * n + 1
cost a_list n = 2 * n + 2

parse-Ends :
    (f : ℕ) (rule : Rule) (e : Rex) → cost rule (length e.p) ≤ f → Ends (Made e) (parse f rule e)
unfolding parse
parse-Ends zero an_element e l = absurd (omega arith)
parse-Ends zero a_list e l = absurd (omega arith)
parse-Ends (suc f) an_element e l =
    element-Ends (parse f a_list) (parse f an_element) e
      (λ d u. parse-Ends f a_list d (omega arith)) (λ d u. parse-Ends f an_element d (omega arith))
parse-Ends (suc f) a_list e l =
    list-Ends (parse f an_element) (parse f a_list) e
      (λ d u. parse-Ends f an_element d (omega arith)) (λ d u. parse-Ends f a_list d (omega arith))

-- The nodes of a compiled expression: the first is the group of the whole pattern.
pub record Compiled (e : Rex) : Type 0 where
  pub complete : (i : ℕ) → i < nsize e → Complete i (nsize e) e.nsubexpr (node_at e i)
  pub first : 0 < nsize e
  pub group : (node_at e 0).type ≡ Node.op_expr

-- For every pattern, `compile` ends within its fuel. Where it does not stop with an error, there is
-- a first node, a capturing group; in every node the operands that its type has are set, each that is
-- an index of a node is below the number of nodes, the number of a group is below the count of groups,
-- and `next` is none or a later node.
pub compile-Ends : (pattern : List ℕ) → Ends Compiled (compile pattern)
unfolding compile newnode
compile-Ends pattern =
    let start = fresh pattern in
    let e = (newnode Node.op_expr start).1 in
    let node = newnode-Pending Node.op_expr start in
    bind-Ends (Made e) Compiled (parse (2 * length pattern + 2) a_list e) _
      (parse-Ends (2 * length pattern + 2) a_list e (omega arith))
      (λ (res, e1) m.
        if-Ends Compiled (cur e1 == 0) _ _
          (λ _.
            let f = set_left 0 res e1 in
            let size = nsize-set_left 0 res e1 in
            let left : res < nsize f = omega (arith, m.new.inside, size) in
            let done = left-Pending res (then-Pending node m.new.extends) in
            let closed = close-Pending done ((left, omega (arith, m.new.extends.groups)), tt) in
            record {
              complete = λ i l. closed.complete i (omega arith) l;
              first = done.inside;
              group = ap (λ (x : Node.Node). x.type) done.holds;
            })
          (λ _. tt))

-- For every pattern that is not empty, the nodes of the compiled expression lie in the memory that
-- `compile` has asked for.
pub compile-Room :
    (pattern : List ℕ) → 0 < length pattern → Ends (λ e. nsize e ≤ e.nallocated) (compile pattern)
unfolding compile newnode
compile-Room pattern h =
    let start = fresh pattern in
    let e = (newnode Node.op_expr start).1 in
    let node = newnode-Pending Node.op_expr start in
    bind-Ends (Made e) (λ e. nsize e ≤ e.nallocated) (parse (2 * length pattern + 2) a_list e) _
      (parse-Ends (2 * length pattern + 2) a_list e (omega arith))
      (λ (res, e1) m.
        if-Ends (λ e. nsize e ≤ e.nallocated) (cur e1 == 0) _ _
          (λ _.
            let done = left-Pending res (then-Pending node m.new.extends) in
            (done.grows.room (h, omega arith)).1)
          (λ _. tt))
