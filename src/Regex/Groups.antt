-- ===== src/Regex/Groups.antt =====
-- Groups and the other elements, before what repeats them.
use squirrel_gobject.Prelude.{ℕ, suc, ◌≤◌, ◌<◌, ◌≡◌, ◌≢◌, ◌==◌, false, some, length, arith}
use squirrel_gobject.Prelude.Outcome.{Ends, bind-Ends, map-Ends, if-Ends}
use squirrel_gobject.Regex.Node
use squirrel_gobject.Regex.Node.{
  NodeType, char, Result, ok, err, out_of_fuel, ◌>>=◌, Rex, cur, advance, nsize, new_node, newnode,
  node_at, put, set_left, set_right, set_next,
}
use squirrel_gobject.Regex.Grows.{
  Operands, Extends, Grows-trans, advance-Extends, length-advance, nsize-put,
}
use squirrel_gobject.Regex.Pending.{
  newnode-Pending, left-Pending, then-Pending, New, Made, close-New, New-trans, behind-Made,
  newnode-New,
}
use squirrel_gobject.Regex.Singles.{charnode-Ends}
use squirrel_gobject.Regex.Classes.{class-Ends}
use squirrel_gobject.Regex.Elements.{expect, class}
use squirrel_gobject.Regex.Compile.{Parser, group_of, group, atom, list}

pub expect-Ends : (c : ℕ) (e : Rex) → Ends (Extends e) (expect c e)
unfolding expect
expect-Ends c e = if-Ends (Extends e) (cur e == c) _ _ (λ _. advance-Extends e) (λ _. tt)

then_expect :
    (c : ℕ) (e : Rex) (r : ℕ × Rex) → New e r → Ends (New e) (expect c r.1 >>= λ f. ok (r.0, f))
then_expect c e r n = bind-Ends (Extends r.1) (New e) (expect c r.1) _ (expect-Ends c r.1) (λ f g.
    record {
      extends = Grows-trans n.extends g;
      above = n.above;
      inside = omega (arith, n.inside, g.larger);
    })

pub nsize-set_left : (n v : ℕ) (e : Rex) → nsize (set_left n v e) ≡ nsize e
nsize-set_left n v e = nsize-put n (record (node_at e n) { left = some v }) e

pub nsize-set_right : (n v : ℕ) (e : Rex) → nsize (set_right n v e) ≡ nsize e
nsize-set_right n v e = nsize-put n (record (node_at e n) { right = some v }) e

pub nsize-set_next : (n v : ℕ) (e : Rex) → nsize (set_next n v e) ≡ nsize e
nsize-set_next n v e = nsize-put n (record (node_at e n) { next = some v }) e

-- The parser works on what is shorter than the bound.
abbrev pub Within : ℕ → Parser → Type 0
Within bound p = (e : Rex) → length e.p < bound → Ends (Made e) (p e)

-- A group's node: its groups are counted already where it captures.
abbrev IsGroup : NodeType → Type 0
IsGroup Node.op_expr = Unit
IsGroup Node.op_nocapexpr = Unit
IsGroup other = ⊥

group-Operands :
    (size groups : ℕ) (type : NodeType) (e : Rex) (v : ℕ)
    → IsGroup type
    → v < size
    → (newnode type e).1.nsubexpr ≤ groups
    → Operands size groups type (some v) (new_node type e.nsubexpr).right
unfolding newnode
group-Operands size groups Node.op_expr e v k l g = (l, omega arith)
group-Operands size groups Node.op_nocapexpr e v k l g = l
group-Operands size groups other e v k l g = absurd k

group_of-Ends :
    (type : NodeType) (list : Parser) (e : Rex)
    → IsGroup type
    → Within (suc (length e.p)) list
    → Ends (New e) (group_of type list e)
unfolding group_of newnode
group_of-Ends type list e k w =
    let e1 = (newnode type e).1 in
    let node = newnode-Pending type e in
    bind-Ends (Made e1) (New e) (list e1) _ (w e1 (omega arith)) (λ (v, e2) m.
      let f = set_left (nsize e) v e2 in
      let inside : v < nsize f = omega (arith, m.new.inside, nsize-set_left (nsize e) v e2) in
      then_expect b')' e (nsize e, f)
        (close-New (left-Pending v (then-Pending node m.new.extends))
          (group-Operands (nsize f) e2.nsubexpr type e v k inside m.new.extends.groups, tt)))

group-Ends :
    (list : Parser) (e : Rex) → Within (suc (length e.p)) list → Ends (New e) (group list e)
unfolding group
group-Ends list e w =
    if-Ends (New e) (cur e == b'?') _ _
      (λ _.
        bind-Ends (Extends (advance e)) (New e) (expect b':' (advance e)) _
          (expect-Ends b':' (advance e))
          (λ f g.
            let moved = Grows-trans (advance-Extends e) g in
            map-Ends (New f) (New e) _
              (group_of-Ends Node.op_nocapexpr list f tt
                (λ d l. w d (omega (arith, moved.shorter))))
              (λ r n. New-trans moved n)))
      (λ _. group_of-Ends Node.op_expr list e tt w)

pub atom-Ends : (list : Parser) (e : Rex) → Within (length e.p) list → Ends (Made e) (atom list e)
unfolding atom
atom-Ends list e w =
    let c = cur e in
    let P = Made e in
    if-Ends P (c == b'(') _ _
      (λ t.
        let here : c ≢ 0 = ground arith in
        map-Ends (New (advance e)) P _
          (group-Ends list (advance e) (λ d l. w d (omega (arith, length-advance e here))))
          (λ r n. behind-Made e r here n))
      (λ _.
        if-Ends P (c == b'[') _ _
          (λ t.
            let here : c ≢ 0 = ground arith in
            bind-Ends (New (advance e)) P (class (advance e)) _ (class-Ends (advance e)) (λ r n.
              map-Ends (New (advance e)) P _ (then_expect b']' (advance e) r n)
                (λ s m. behind-Made e s here m)))
          (λ _.
            if-Ends P (c == b'$') _ _
              (λ t.
                let here : c ≢ 0 = ground arith in
                behind-Made e _ here (newnode-New Node.op_eol (advance e) tt))
              (λ _.
                if-Ends P (c == b'.') _ _
                  (λ t.
                    let here : c ≢ 0 = ground arith in
                    behind-Made e _ here (newnode-New Node.op_dot (advance e) tt))
                  (λ _. charnode-Ends false e))))
