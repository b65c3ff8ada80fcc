-- ===== src/Regex/Grows.antt =====
-- What a part of the compiler does to the array of nodes: it appends nodes that are complete, and
-- leaves the ones that stand there.
use squirrel_gobject.Prelude.{
  ℕ, zero, suc, ◌+◌, ◌≤◌, ◌<◌, ◌≡◌, ◌≢◌, ◌⊎◌, inl, inr, Bool-cases, ==→eq, refl, sym, ◌∙◌, ◌==◌,
  ltb, Option, none, some, List, [], ◌∷◌, ◌++◌, length, length-append, length-set, get_or,
  get_or-set, arith,
}
use squirrel_gobject.Regex.Node
use squirrel_gobject.Regex.Node.{
  NodeType, char, Rex, cur, head_of, tail_of, advance, nsize, capture, new_node, newnode, no_node,
  node_at, put,
}

-- the index of a node, or of another array of the size
abbrev pub Link : ℕ → Option ℕ → Type 0
Link size none = ⊥
Link size (some j) = j < size

abbrev pub Given : Option ℕ → Type 0
Given none = ⊥
Given (some c) = Unit

-- no node, or a later one
abbrev pub Follows : (i size : ℕ) → Option ℕ → Type 0
Follows i size none = Unit
Follows i size (some j) = (i < j) × (j < size)

-- The fields that the code reads in a node of the type are set, and what it takes for an index is
-- one.
abbrev pub Operands : (size groups : ℕ) → NodeType → Option ℕ → Option ℕ → Type 0
Operands size groups Node.op_greedy left right = Link size left × Given right
Operands size groups Node.op_or left right = Link size left × Link size right
Operands size groups Node.op_expr left right = Link size left × Link groups right
Operands size groups Node.op_nocapexpr left right = Link size left
Operands size groups Node.op_class left right = Link size left
Operands size groups Node.op_nclass left right = Link size left
Operands size groups Node.op_cclass left right = Given left
Operands size groups Node.op_wb left right = Given left
Operands size groups Node.op_range left right = Given left × Given right
Operands size groups Node.op_mb left right = Given left × Given right
Operands size groups other left right = Unit

abbrev pub Complete : (i size groups : ℕ) → Node.Node → Type 0
Complete i size groups node =
    Operands size groups node.type node.left node.right × Follows i size node.next

pub Link-mono : (m n : ℕ) (o : Option ℕ) → m ≤ n → Link m o → Link n o
Link-mono m n none h l = l
Link-mono m n (some j) h l = omega arith

pub Follows-mono : (i m n : ℕ) (o : Option ℕ) → m ≤ n → Follows i m o → Follows i n o
Follows-mono i m n none h l = tt
Follows-mono i m n (some j) h l = omega arith

Operands-mono :
    (m n g h : ℕ) (type : NodeType) (left right : Option ℕ)
    → m ≤ n
    → g ≤ h
    → Operands m g type left right
    → Operands n h type left right
Operands-mono m n g h Node.op_greedy left right p q (a, b) = (Link-mono m n left p a, b)
Operands-mono m n g h Node.op_or left right p q (a, b) =
    (Link-mono m n left p a, Link-mono m n right p b)
Operands-mono m n g h Node.op_expr left right p q (a, b) =
    (Link-mono m n left p a, Link-mono g h right q b)
Operands-mono m n g h Node.op_nocapexpr left right p q a = Link-mono m n left p a
Operands-mono m n g h Node.op_class left right p q a = Link-mono m n left p a
Operands-mono m n g h Node.op_nclass left right p q a = Link-mono m n left p a
Operands-mono m n g h Node.op_cclass left right p q a = a
Operands-mono m n g h Node.op_wb left right p q a = a
Operands-mono m n g h Node.op_range left right p q a = a
Operands-mono m n g h Node.op_mb left right p q a = a
Operands-mono m n g h other left right p q a = tt

Complete-mono :
    (i m n g h : ℕ) (node : Node.Node) → m ≤ n → g ≤ h → Complete i m g node → Complete i n h node
Complete-mono i m n g h node p q (a, b) =
    (Operands-mono m n g h node.type node.left node.right p q a, Follows-mono i m n node.next p b)

-- The nodes lie in the memory that was asked for.
abbrev pub Room : Rex → Type 0
Room e = (1 ≤ e.nallocated) × (nsize e ≤ e.nallocated)

-- From `b` to `e` nodes were appended, and from the index `m` on they are complete.
pub record Grows (m : ℕ) (b e : Rex) : Type 0 where
  pub kept : (i : ℕ) → i < nsize b → node_at e i ≡ node_at b i
  pub complete : (i : ℕ) → m ≤ i → i < nsize e → Complete i (nsize e) e.nsubexpr (node_at e i)
  pub larger : nsize b ≤ nsize e
  pub groups : b.nsubexpr ≤ e.nsubexpr
  pub room : Room b → Room e
  pub shorter : length e.p ≤ length b.p

abbrev pub Extends : Rex → Rex → Type 0
Extends b e = Grows (nsize b) b e

pub old_or_new : (i n : ℕ) → (i < n) ⊎ (n ≤ i)
old_or_new i n = elim (Bool-cases (ltb i n)) [
  | inl t ↦ inl (ground arith)
  | inr t ↦ inr (ground arith)
]

pub Grows-trans : {m : ℕ} {b e f : Rex} → Grows m b e → Extends e f → Grows m b f
Grows-trans {m} {b} {e} {f} g h = record {
  kept = λ i l. h.kept i (omega (arith, g.larger)) ∙ g.kept i l;
  complete = λ i l u. elim (old_or_new i (nsize e)) [
    | inl old ↦ rw (h.kept i old) (
        Complete-mono i (nsize e) (nsize f) e.nsubexpr f.nsubexpr (node_at e i) h.larger h.groups
          (g.complete i l old))
    | inr new ↦ h.complete i new u
  ];
  larger = omega (arith, g.larger, h.larger);
  groups = omega (arith, g.groups, h.groups);
  room = λ r. h.room (g.room r);
  shorter = omega (arith, g.shorter, h.shorter);
}

-- A change of the pattern's position.
pub moved-Extends : (e : Rex) (p : List ℕ) → length p ≤ length e.p → Extends e (record e { p = p })
moved-Extends e p l = record {
  kept = λ i u. refl;
  complete = λ i m u. absurd (omega arith);
  larger = omega arith;
  groups = omega arith;
  room = λ r. r;
  shorter = l;
}

pub Extends-refl : (e : Rex) → Extends e e
Extends-refl e = moved-Extends e e.p (omega arith)

length-tail : (cs : List ℕ) → length (tail_of cs) ≤ length cs
length-tail [] = omega arith
length-tail (c ∷ cs) = omega arith

length-tail_less : (cs : List ℕ) → head_of cs ≢ 0 → length (tail_of cs) < length cs
length-tail_less [] h = absurd (h refl)
length-tail_less (c ∷ cs) h = omega arith

pub advance-Extends : (e : Rex) → Extends e (advance e)
unfolding advance
advance-Extends e = moved-Extends e (tail_of e.p) (length-tail e.p)

pub length-advance : (e : Rex) → cur e ≢ 0 → length (advance e).p < length e.p
unfolding advance
length-advance e h = length-tail_less e.p h

get_or-append_old :
    (xs ys : List Node.Node) (i : ℕ)
    → i < length xs
    → get_or (xs ++ ys) i no_node ≡ get_or xs i no_node
get_or-append_old [] ys i h = absurd (omega arith)
get_or-append_old (x ∷ xs) ys zero h = refl
get_or-append_old (x ∷ xs) ys (suc i) h = get_or-append_old xs ys i (omega arith)

get_or-append_new :
    (xs : List Node.Node) (y : Node.Node) → get_or (xs ++ y ∷ []) (length xs) no_node ≡ y
get_or-append_new [] y = refl
get_or-append_new (x ∷ xs) y = get_or-append_new xs y

pub nsize-newnode : (type : NodeType) (e : Rex) → nsize (newnode type e).1 ≡ nsize e + 1
unfolding newnode
nsize-newnode type e = length-append e.nodes (new_node type e.nsubexpr ∷ [])

pub node_at-newnode :
    (type : NodeType) (e : Rex) → node_at (newnode type e).1 (nsize e) ≡ new_node type e.nsubexpr
unfolding newnode
node_at-newnode type e = get_or-append_new e.nodes (new_node type e.nsubexpr)

groups-capture : (type : NodeType) (n : ℕ) → n ≤ (capture type n).1
groups-capture Node.op_expr n = omega arith
groups-capture other n = omega arith

-- The new node itself is not complete yet.
pub newnode-Grows : (type : NodeType) (e : Rex) → Grows (suc (nsize e)) e (newnode type e).1
unfolding newnode
newnode-Grows type e =
    let size = length-append e.nodes (new_node type e.nsubexpr ∷ []) in
    record {
      kept = λ i l. get_or-append_old e.nodes (new_node type e.nsubexpr ∷ []) i l;
      complete = λ i m u. absurd (omega arith);
      larger = omega arith;
      groups = groups-capture type e.nsubexpr;
      room = λ (a, b). ground arith;
      shorter = omega arith;
    }

pub nsize-put : (j : ℕ) (node : Node.Node) (e : Rex) → nsize (put j node e) ≡ nsize e
unfolding put
nsize-put j node e = length-set e.nodes j node

pub node_at-put :
    (j : ℕ) (node : Node.Node) (e : Rex) → j < nsize e → node_at (put j node e) j ≡ node
unfolding put
node_at-put j node e l = get_or-set e.nodes j j node no_node l ∙ ground arith

pub node_at-put_other :
    (j i : ℕ) (node : Node.Node) (e : Rex)
    → j < nsize e
    → j ≢ i
    → node_at (put j node e) i ≡ node_at e i
unfolding put
node_at-put_other j i node e l n = get_or-set e.nodes j i node no_node l ∙ ground arith

-- A change of a node that was appended. Where the node has to be complete, the new one is.
put-Grows_at :
    {m n : ℕ} {b e : Rex} (j : ℕ) (node : Node.Node)
    → Grows m b e
    → nsize b ≤ j
    → j < nsize e
    → ((i : ℕ) → n ≤ i → i ≢ j → m ≤ i)
    → (n ≤ j → Complete j (nsize e) e.nsubexpr node)
    → Grows n b (put j node e)
unfolding put
put-Grows_at {m} {n} {b} {e} j node g above inside others here = record {
  kept = λ i l. node_at-put_other j i node e inside (omega arith) ∙ g.kept i l;
  complete = λ i l u.
      let fits : i < nsize e = omega (arith, length-set e.nodes j node) in
      rw (length-set e.nodes j node) (elim (Bool-cases (i == j)) [
        | inl t ↦
            let same = ==→eq i j t in
            rw same (rw (node_at-put j node e inside) (here (omega arith)))
        | inr t ↦
            let apart : i ≢ j = ground arith in
            rw (node_at-put_other j i node e inside (λ q. apart (sym q)))
              (g.complete i (others i l apart) fits)
      ]);
  larger = omega (arith, length-set e.nodes j node, g.larger);
  groups = g.groups;
  room = λ r. omega (arith, length-set e.nodes j node, g.room r);
  shorter = g.shorter;
}

pub put-Grows :
    {m : ℕ} {b e : Rex} (j : ℕ) (node : Node.Node)
    → Grows m b e
    → nsize b ≤ j
    → j < nsize e
    → (m ≤ j → Complete j (nsize e) e.nsubexpr node)
    → Grows m b (put j node e)
put-Grows j node g above inside here = put-Grows_at j node g above inside (λ i l n. l) here

-- The first node that was appended becomes complete last.
pub fill-Grows :
    {b e : Rex} (node : Node.Node)
    → Grows (suc (nsize b)) b e
    → nsize b < nsize e
    → Complete (nsize b) (nsize e) e.nsubexpr node
    → Extends b (put (nsize b) node e)
fill-Grows {b} node g inside here =
    put-Grows_at (nsize b) node g (omega arith) inside (λ i l n. omega arith) (λ _. here)
