-- ===== src/Regex/Classes.antt =====
-- A class of characters as a whole: `sqstd_rex_class`.
use squirrel_gobject.Prelude.{
  ℕ, zero, suc, ◌<◌, ◌≢◌, refl, ◌==◌, ==→eq, if◌then◌else◌, true, Option, none, some, length, arith,
}
use squirrel_gobject.Prelude.Outcome.{Ends, bind-Ends, map-Ends, if-Ends}
use squirrel_gobject.Regex.Node
use squirrel_gobject.Regex.Node.{
  NodeType, char, Result, ok, err, out_of_fuel, ◌>>=◌, Rex, cur, advance, nsize, new_node, newnode,
  node_at, put, set_next,
}
use squirrel_gobject.Regex.Grows.{Operands, Link, advance-Extends, nsize-put}
use squirrel_gobject.Regex.Pending.{newnode-Pending, put-Pending, New, Made, close-New, New-trans}
use squirrel_gobject.Regex.Singles.{charnode-Ends, range-Ends}
use squirrel_gobject.Regex.Elements.{charnode, range, class_loop, close_class, class_of, class}
use squirrel_gobject.Regex.Links.{
  IsClass, Listed, Reading, carry-Reading, link-Listed, first_single, next_single, next_range,
  link_first-Listed,
}

class_loop-Ends :
    (f : ℕ) {b : Rex} (chain : ℕ) (first : Option ℕ) (e : Rex)
    → length e.p < f
    → Reading b chain first e
    → Ends (Listed b) (class_loop f chain first e)
unfolding class_loop
class_loop-Ends zero chain first e l s = absurd (omega arith)
class_loop-Ends (suc f) {b} chain none e l s =
    let single : Ends (Listed b) (charnode true e >>= λ (n, e1). class_loop f chain (some n) e1) =
      bind-Ends (Made e) (Listed b) (charnode true e) _ (charnode-Ends true e) (λ r m.
        class_loop-Ends f chain (some r.0) r.1 (omega (arith, m.read, l))
          (first_single r s m.new)) in
    if-Ends (Listed b) (cur e == b']') _ _ (λ t. link_first-Listed none s (==→eq (cur e) b']' t))
      (λ _. if-Ends (Listed b) (cur e == b'-') _ _ (λ _. single) (λ _. single))
class_loop-Ends (suc f) {b} chain (some c) e l s =
    let single : Ends (Listed b)
        (charnode true e >>= λ (n, e1). class_loop f c (some n) (set_next chain c e1)) =
      bind-Ends (Made e) (Listed b) (charnode true e) _ (charnode-Ends true e) (λ (n, e1) m.
        let new = m.new in
        let behind = carry-Reading s new.extends (λ _. tt) in
        let linked = link-Listed c behind behind.waiting.0 behind.waiting.1 in
        class_loop-Ends f c (some n) (set_next chain c e1) (omega (arith, m.read, l)) (
          next_single e1 chain c n linked (omega (arith, s.above, s.waiting))
            (omega (arith, s.waiting, new.above)) new.inside)) in
    let ranged : cur e ≢ 0
        → Ends (Listed b) (range c e >>= λ (r, e1). class_loop f r none (set_next chain r e1)) =
      λ dash. bind-Ends (Made e) (Listed b) (range c e) _ (range-Ends c e dash) (λ (r, e1) m.
        let new = m.new in
        let behind = carry-Reading s new.extends (λ _. tt) in
        let linked = link-Listed r behind (omega (arith, s.inside, new.above)) new.inside in
        class_loop-Ends f r none (set_next chain r e1) (omega (arith, m.read, l)) (
          next_range e1 chain r linked (omega (arith, s.above, s.inside, new.above)) new.inside)) in
    if-Ends (Listed b) (cur e == b']') _ _
      (λ t. link_first-Listed (some c) s (==→eq (cur e) b']' t))
      (λ _. if-Ends (Listed b) (cur e == b'-') _ _ (λ t. ranged (ground arith)) (λ _. single))

class-Operands :
    (size groups : ℕ) (type : NodeType) (left right : Option ℕ)
    → IsClass type
    → Link size left
    → Operands size groups type left right
class-Operands size groups Node.op_class left right k l = l
class-Operands size groups Node.op_nclass left right k l = l
class-Operands size groups other left right k l = absurd k

close_class-New : (e f : Rex) → Listed e f → New e (nsize e, close_class (nsize e) f)
unfolding close_class
close_class-New e f l =
    let node = node_at f (nsize e) in
    let closed = record node { left = node.next; next = none } in
    close-New (put-Pending closed (record { grows = l.grows; inside = l.inside; holds = refl })) (
      rw (nsize-put (nsize e) closed f)
          (class-Operands (nsize f) f.nsubexpr node.type node.next node.right l.kind l.member),
      tt,
    )

class_of-Ends : (type : NodeType) (e : Rex) → IsClass type → Ends (New e) (class_of type e)
unfolding class_of newnode
class_of-Ends type e k =
    let e1 = (newnode type e).1 in
    let made = newnode-Pending type e in
    bind-Ends (Listed e) (New e)
      (if cur e1 == b']'
        then err Node.empty_class
        else class_loop (suc (length e1.p)) (nsize e) none e1)
      _
      (if-Ends (Listed e) (cur e1 == b']') _ _ (λ _. tt)
        (λ t. class_loop-Ends (suc (length e1.p)) (nsize e) none e1 (omega arith) (record {
          grows = made.grows;
          above = omega arith;
          inside = made.inside;
          kind = rw made.holds k;
          waiting = tt;
          pending = λ n. absurd (n refl);
          closed = λ c. let apart : cur e1 ≢ b']' = ground arith in absurd (apart c);
        })))
      (λ f l. close_class-New e f l)

pub class-Ends : (e : Rex) → Ends (New e) (class e)
unfolding class
class-Ends e =
    if-Ends (New e) (cur e == b'^') _ _
      (λ _.
        map-Ends (New (advance e)) (New e) _ (class_of-Ends Node.op_nclass (advance e) tt)
          (λ r n. New-trans (advance-Extends e) n))
      (λ _. class_of-Ends Node.op_class e tt)
