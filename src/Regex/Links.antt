-- ===== src/Regex/Links.antt =====
-- The links of a class while it is read.
use squirrel_gobject.Prelude.{
  ℕ, suc, ◌≤◌, ◌<◌, ◌≡◌, ◌≢◌, inl, inr, sym, ◌==◌, ==→eq, Bool-cases, Option, none, some, arith,
}
use squirrel_gobject.Regex.Node
use squirrel_gobject.Regex.Node.{
  NodeType, char, Result, ok, err, out_of_fuel, ◌>>=◌, Rex, cur, advance, nsize, new_node, newnode,
  node_at, put, set_next,
}
use squirrel_gobject.Regex.Grows.{
  Link, Follows, Link-mono, Follows-mono, Grows, Extends, Grows-trans, nsize-put, node_at-put,
  node_at-put_other, put-Grows,
}
use squirrel_gobject.Regex.Pending.{New}
use squirrel_gobject.Regex.Elements.{link_first}

-- A node that was appended is linked to a later one.
pub link-Grows :
    {m : ℕ} {b e : Rex} (j k : ℕ)
    → Grows m b e
    → nsize b ≤ j
    → j < k
    → k < nsize e
    → Grows m b (set_next j k e)
link-Grows {m} {b} {e} j k g above later inside =
    put-Grows j _ g above (omega arith) (λ l. ((g.complete j l (omega arith)).0, (later, inside)))

abbrev pub IsClass : NodeType → Type 0
IsClass Node.op_class = Unit
IsClass Node.op_nclass = Unit
IsClass other = ⊥

-- The class whose node was made first behind `b` has a member.
pub record Listed (b e : Rex) : Type 0 where
  pub grows : Grows (suc (nsize b)) b e
  pub inside : nsize b < nsize e
  pub kind : IsClass (node_at e (nsize b)).type
  pub member : Link (nsize e) (node_at e (nsize b)).next

-- A class that is being read, with the last node of its links, and what is left to link.
abbrev pub Ready : Option ℕ → Type 0 → Type 0
Ready none L = L
Ready (some c) L = Unit

pub record Reading (b : Rex) (chain : ℕ) (first : Option ℕ) (e : Rex) : Type 0 where
  pub grows : Grows (suc (nsize b)) b e
  pub above : nsize b ≤ chain
  pub inside : chain < nsize e
  pub kind : IsClass (node_at e (nsize b)).type
  pub waiting : Follows chain (nsize e) first
  pub pending : chain ≢ nsize b → Link (nsize e) (node_at e (nsize b)).next
  pub closed : cur e ≡ b']' → Ready first (Link (nsize e) (node_at e (nsize b)).next)

-- the same array, further on
pub carry-Reading :
    {b e f : Rex} {chain : ℕ} {first : Option ℕ}
    → Reading b chain first e
    → Extends e f
    → (cur f ≡ b']' → Ready first (Link (nsize f) (node_at f (nsize b)).next))
    → Reading b chain first f
carry-Reading {b} {e} {f} {chain} {first} s g c =
    let same = g.kept (nsize b) (omega (arith, s.above, s.inside)) in
    record {
      grows = Grows-trans s.grows g;
      above = s.above;
      inside = omega (arith, s.inside, g.larger);
      kind = rw same s.kind;
      waiting = Follows-mono chain (nsize e) (nsize f) first g.larger s.waiting;
      pending = λ n.
          rw same (Link-mono (nsize e) (nsize f) (node_at e (nsize b)).next g.larger (s.pending n));
      closed = c;
    }

pub link-Listed :
    {b e : Rex} {chain : ℕ} {first : Option ℕ} (c : ℕ)
    → Reading b chain first e
    → chain < c
    → c < nsize e
    → Listed b (set_next chain c e)
link-Listed {b} {e} {chain} c s later inside =
    let size = nsize-put chain (record (node_at e chain) { next = some c }) e in
    let grows = link-Grows chain c s.grows s.above later inside in
    elim (Bool-cases (chain == nsize b)) [
      | inl t ↦
          let here = ==→eq chain (nsize b) t in
          let at = node_at-put chain (record (node_at e chain) { next = some c }) e s.inside in
          record {
            grows = grows;
            inside = omega (arith, s.inside, s.above, size);
            kind = rw (sym here, at, here) s.kind;
            member = rw (sym here, at, size) inside;
          }
      | inr t ↦
          let apart : chain ≢ nsize b = ground arith in
          let at =
            node_at-put_other chain (nsize b) (record (node_at e chain) { next = some c }) e
              s.inside apart in
          record {
            grows = grows;
            inside = omega (arith, s.inside, s.above, size);
            kind = rw at s.kind;
            member = rw (at, size) (s.pending apart);
          }
    ]

-- The first character, or the first behind a range, waits.
pub first_single :
    {b e : Rex} {chain : ℕ} (r : ℕ × Rex)
    → Reading b chain none e
    → New e r
    → Reading b chain (some r.0) r.1
first_single {b} {e} r s new =
    let same = new.extends.kept (nsize b) (omega (arith, s.above, s.inside)) in
    record {
      grows = Grows-trans s.grows new.extends;
      above = s.above;
      inside = omega (arith, s.inside, new.extends.larger);
      kind = rw same s.kind;
      waiting = (omega (arith, s.inside, new.above), new.inside);
      pending = λ n. rw same (
          Link-mono (nsize e) (nsize r.1) (node_at e (nsize b)).next new.extends.larger
            (s.pending n));
      closed = λ _. tt;
    }

-- A character behind one that waits: that one is linked.
pub next_single :
    {b : Rex} (e : Rex) (chain c n : ℕ)
    → Listed b (set_next chain c e)
    → nsize b ≤ c
    → c < n
    → n < nsize e
    → Reading b c (some n) (set_next chain c e)
next_single e chain c n l above later inside =
    let size = nsize-put chain (record (node_at e chain) { next = some c }) e in
    record {
      grows = l.grows;
      above = above;
      inside = omega arith;
      kind = l.kind;
      waiting = (later, omega arith);
      pending = λ _. l.member;
      closed = λ _. tt;
    }

-- A range is linked at once.
pub next_range :
    {b : Rex} (e : Rex) (chain r : ℕ)
    → Listed b (set_next chain r e)
    → nsize b ≤ r
    → r < nsize e
    → Reading b r none (set_next chain r e)
next_range e chain r l above inside =
    let size = nsize-put chain (record (node_at e chain) { next = some r }) e in
    record {
      grows = l.grows;
      above = above;
      inside = omega arith;
      kind = l.kind;
      waiting = tt;
      pending = λ _. l.member;
      closed = λ _. l.member;
    }

pub link_first-Listed :
    {b e : Rex} {chain : ℕ} (first : Option ℕ)
    → Reading b chain first e
    → cur e ≡ b']'
    → Listed b (link_first chain first e)
unfolding link_first
link_first-Listed {b} none s c = record {
  grows = s.grows;
  inside = omega (arith, s.inside, s.above);
  kind = s.kind;
  member = s.closed c;
}
link_first-Listed (some d) s c = link-Listed d s s.waiting.0 s.waiting.1
