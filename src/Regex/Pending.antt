-- ===== src/Regex/Pending.antt =====
-- A node that waits for its operands while the nodes behind it are made, and the parts of the
-- compiler that make a single node.
use squirrel_gobject.Prelude.{
  ℕ, suc, ◌≤◌, ◌<◌, ◌≡◌, ◌≢◌, inl, inr, ap, ◌∙◌, none, some, length, arith,
}
use squirrel_gobject.Regex.Node
use squirrel_gobject.Regex.Node.{
  NodeType, char, Result, ok, err, out_of_fuel, ◌>>=◌, Rex, cur, advance, nsize, new_node, newnode,
  node_at, put, set_left, set_right, set_next,
}
use squirrel_gobject.Regex.Grows.{
  Complete, Operands, Grows, Extends, Grows-trans, advance-Extends, length-advance, old_or_new,
  nsize-newnode, node_at-newnode, newnode-Grows, nsize-put, node_at-put, put-Grows,
}

-- The node made first behind `e` is `x`, and needs not be complete; the later ones are.
pub record Pending (e : Rex) (x : Node.Node) (f : Rex) : Type 0 where
  pub grows : Grows (suc (nsize e)) e f
  pub inside : nsize e < nsize f
  pub holds : node_at f (nsize e) ≡ x

pub newnode-Pending :
    (type : NodeType) (e : Rex) → Pending e (new_node type e.nsubexpr) (newnode type e).1
newnode-Pending type e = record {
  grows = newnode-Grows type e;
  inside = omega (arith, nsize-newnode type e);
  holds = node_at-newnode type e;
}

pub put-Pending :
    {e f : Rex} {x : Node.Node} (y : Node.Node) → Pending e x f → Pending e y (put (nsize e) y f)
put-Pending {e} {f} y p = record {
  grows = put-Grows (nsize e) y p.grows (omega arith) p.inside (λ l. absurd (omega arith));
  inside = omega (arith, p.inside, nsize-put (nsize e) y f);
  holds = node_at-put (nsize e) y f p.inside;
}

renamed : {e f : Rex} {x y : Node.Node} → x ≡ y → Pending e x f → Pending e y f
renamed q p = record { grows = p.grows; inside = p.inside; holds = p.holds ∙ q }

pub left-Pending :
    {e f : Rex} {x : Node.Node} (v : ℕ)
    → Pending e x f
    → Pending e (record x { left = some v }) (set_left (nsize e) v f)
left-Pending v p =
    renamed (ap (λ (y : Node.Node). record y { left = some v }) p.holds) (put-Pending _ p)

pub right-Pending :
    {e f : Rex} {x : Node.Node} (v : ℕ)
    → Pending e x f
    → Pending e (record x { right = some v }) (set_right (nsize e) v f)
right-Pending v p =
    renamed (ap (λ (y : Node.Node). record y { right = some v }) p.holds) (put-Pending _ p)

pub next-Pending :
    {e f : Rex} {x : Node.Node} (v : ℕ)
    → Pending e x f
    → Pending e (record x { next = some v }) (set_next (nsize e) v f)
next-Pending v p =
    renamed (ap (λ (y : Node.Node). record y { next = some v }) p.holds) (put-Pending _ p)

pub then-Pending : {e f g : Rex} {x : Node.Node} → Pending e x f → Extends f g → Pending e x g
then-Pending {e} p h = record {
  grows = Grows-trans p.grows h;
  inside = omega (arith, p.inside, h.larger);
  holds = h.kept (nsize e) p.inside ∙ p.holds;
}

pub close-Pending :
    {e f : Rex} {x : Node.Node}
    → Pending e x f
    → Complete (nsize e) (nsize f) f.nsubexpr x
    → Extends e f
close-Pending {e} {f} {x} p here =
    let g = p.grows in
    record {
      kept = g.kept;
      complete = λ i l u. elim (old_or_new (nsize e) i) [
        | inl later ↦ g.complete i later u
        | inr first ↦ let same : i ≡ nsize e = omega arith in rw same (rw p.holds here)
      ];
      larger = g.larger;
      groups = g.groups;
      room = g.room;
      shorter = g.shorter;
    }

-- A part of the compiler has made nodes behind the ones of `e`, its answer among them.
pub record New (e : Rex) (r : ℕ × Rex) : Type 0 where
  pub extends : Extends e r.1
  pub above : nsize e ≤ r.0
  pub inside : r.0 < nsize r.1

-- It has read something, too.
pub record Made (e : Rex) (r : ℕ × Rex) : Type 0 where
  pub new : New e r
  pub read : length r.1.p < length e.p

pub close-New :
    {e f : Rex} {x : Node.Node}
    → Pending e x f
    → Complete (nsize e) (nsize f) f.nsubexpr x
    → New e (nsize e, f)
close-New p here = record { extends = close-Pending p here; above = omega arith; inside = p.inside }

pub New-trans : {e f : Rex} {r : ℕ × Rex} → Extends e f → New f r → New e r
New-trans g n = record {
  extends = Grows-trans g n.extends;
  above = omega (arith, g.larger, n.above);
  inside = n.inside;
}

pub behind-Made : (e : Rex) (r : ℕ × Rex) → cur e ≢ 0 → New (advance e) r → Made e r
behind-Made e r h n = record {
  new = New-trans (advance-Extends e) n;
  read = omega (arith, length-advance e h, n.extends.shorter);
}

pub newnode-New :
    (type : NodeType) (e : Rex)
    → Operands
        (nsize (newnode type e).1)
        (newnode type e).1.nsubexpr
        type
        none
        (new_node type e.nsubexpr).right
    → New e (newnode type e)
unfolding newnode
newnode-New type e h = close-New (newnode-Pending type e) (h, tt)
