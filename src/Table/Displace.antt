-- ===== src/Table/Displace.antt =====
-- `NewSlot` where the main position of the key is taken by a key of another main position, and the
-- three cases of `NewSlot` together.
use squirrel_gobject.Prelude.{
  ℕ, zero, suc, ◌-◌, ◌<◌, ◌≡◌, ◌≢◌, refl, ap, sym, ◌∙◌, some, arith, length, List,
}
use squirrel_gobject.Table.{Table, Node, Key, at, blank, move_node, previous}
use squirrel_gobject.Table.Chains.{Ends-mono, here, acyclic}
use squirrel_gobject.Table.Find.{nx, ky, vl, previous_lem}
use squirrel_gobject.Table.Insert.{Core-lower}
use squirrel_gobject.Table.Move.{Moved, moved-Core}
use squirrel_gobject.Table.Valid.{IsValid, home}
use squirrel_gobject.Table.Place.{
  written, length-written, length-move_node, at-move_node-mp, at-move_node_free,
  at-move_node_previous, at-move_node-other,
}
use squirrel_gobject.Table.NewSlot.{
  Placed, written-nx, written-ky_self, written-ky_other, written-Adds, start_lt,
}
use native.Mathlib.Decide.{ℕ_discrete}
use mathlib.Core.Path.{fun_ext}

module _ {K V : Type 0} (null : V) where
  -- only a node of the array points anywhere
  pub nx_inside : (nodes : List (Node K V)) (p q : ℕ) → nx null nodes p ≡ some q → p < length nodes
  nx_inside List.[] p q e = cc
  nx_inside (List.◌∷◌ o nodes) zero q e = omega arith
  nx_inside (List.◌∷◌ o nodes) (suc p) q e = omega (arith, nx_inside nodes p q e)

module _ {K V : Type 0} (keys : Key K) (null : V) (t : Table K V) (h : IsValid keys null t) (k : K)
    (v : V) (fresh : (p : ℕ) → ky null t.nodes p ≢ some k) (a : K) where
  abbrev pub mp : ℕ
  mp = home keys null t.numofnodes k

  abbrev pub f : ℕ
  f = t.firstfree

  abbrev pub other : ℕ
  other = home keys null t.numofnodes a

  abbrev pub o : ℕ
  o = previous null t.numofnodes other mp t.nodes

  module _ (held : ky null t.nodes mp ≡ some a) (alien : other ≢ mp) where
    before : nx null t.nodes o ≡ some mp
    before =
        previous_lem null t.nodes t.numofnodes other mp
          (Ends-mono (suc t.numofnodes - suc f) t.numofnodes (nx null t.nodes) other (omega arith)
            (h.core.ends other))
          (h.core.placed mp a held) alien

    mf : mp ≢ f
    mf s = cc (ap (ky null t.nodes) s, h.free_key)

    of : o ≢ f
    of s = cc (ap (nx null t.nodes) s, h.free_next, before)

    om : o ≢ mp
    om s =
        acyclic (suc t.numofnodes - suc f) (h.core.ends mp) here
          (sym (ap (nx null t.nodes) s) ∙ before)

    abbrev pub moved : List (Node K V)
    moved = move_node null t.numofnodes other mp f t.nodes

    in_mp : mp < length t.nodes
    in_mp = omega (arith, start_lt keys null t h k v fresh, h.sized)

    in_free : f < length t.nodes
    in_free = omega (arith, h.core.bound, h.sized)

    in_o : o < length t.nodes
    in_o = nx_inside null t.nodes o mp before

    moved-mp : at null moved mp ≡ blank null
    moved-mp =
        at-move_node-mp null t.nodes t.numofnodes other mp f o in_mp in_free in_o refl mf om of

    moved_free : at null moved f ≡ at null t.nodes mp
    moved_free =
        at-move_node_free null t.nodes t.numofnodes other mp f o in_mp in_free in_o refl mf om of

    moved-o : at null moved o ≡ record (at null t.nodes o) { next = some f }
    moved-o =
        at-move_node_previous null t.nodes t.numofnodes other mp f o in_mp in_free in_o refl mf om
          of

    moved_rest : (p : ℕ) → p ≢ mp → p ≢ f → p ≢ o → at null moved p ≡ at null t.nodes p
    moved_rest =
        at-move_node-other null t.nodes t.numofnodes other mp f o in_mp in_free in_o refl mf om of

    -- but for its pointer, a node that is not `mp` or `f` is what it was
    moved_same :
        (p : ℕ)
        → p ≢ mp
        → p ≢ f
        → (ky null moved p ≡ ky null t.nodes p) × (vl null moved p ≡ vl null t.nodes p)
    moved_same p np nf = elim (ℕ_discrete p o) [
      | yes s ↦ rw s (ap (λ (x : Node K V). x.key) moved-o, ap (λ (x : Node K V). x.val) moved-o)
      | no no' ↦ (
        ap (λ (x : Node K V). x.key) (moved_rest p np nf no'),
        ap (λ (x : Node K V). x.val) (moved_rest p np nf no'),
      )
    ]

    moved-Moved : Moved f mp o (nx null t.nodes) (nx null moved)
    moved-Moved = record {
      before = before;
      freed = ap (λ (x : Node K V). x.next) moved-mp;
      copied = ap (λ (x : Node K V). x.next) moved_free;
      relinked = ap (λ (x : Node K V). x.next) moved-o;
      rest = λ p np nf no'. ap (λ (x : Node K V). x.next) (moved_rest p np nf no');
    }

    moved_keeps :
        (p : ℕ) (j : K)
        → ky null t.nodes p ≡ some j
        → (q : ℕ) × (ky null moved q ≡ some j) × (vl null moved q ≡ vl null t.nodes p)
    moved_keeps p j e = elim (ℕ_discrete p mp) [
      | yes s ↦ (
        f,
        ap (λ (x : Node K V). x.key) moved_free ∙ sym (ap (ky null t.nodes) s) ∙ e,
        ap (λ (x : Node K V). x.val) moved_free ∙ sym (ap (vl null t.nodes) s),
      )
      | no np ↦
          let nf : p ≢ f = λ s. cc (ap (ky null t.nodes) s, h.free_key) in
          (p, (moved_same p np nf).0 ∙ e, (moved_same p np nf).1)
    ]

    moved_from :
        (p : ℕ) (j : K)
        → ky null moved p ≡ some j
        → (q : ℕ) × (ky null t.nodes q ≡ some j) × (vl null t.nodes q ≡ vl null moved p)
    moved_from p j e = elim (ℕ_discrete p mp) [
      | yes s ↦ cc (ap (ky null moved) s, ap (λ (x : Node K V). x.key) moved-mp)
      | no np ↦ elim (ℕ_discrete p f) [
        | yes s ↦ (
          mp,
          sym (ap (λ (x : Node K V). x.key) moved_free) ∙ sym (ap (ky null moved) s) ∙ e,
          sym (ap (λ (x : Node K V). x.val) moved_free) ∙ sym (ap (vl null moved) s),
        )
        | no nf ↦ (p, sym (moved_same p np nf).0 ∙ e, sym (moved_same p np nf).1)
      ]
    ]

    pub Placed-moved : Placed keys null t k v (written null moved mp (some k) v)
    Placed-moved =
        let long =
          length-move_node null t.nodes t.numofnodes other mp f o in_mp in_free in_o refl mf om
            of in
        let inside : mp < length moved = omega (arith, long, in_mp) in
        let same = written-nx keys null moved mp k v inside in
        let on = written-ky_self keys null moved mp k v inside in
        let off = written-ky_other keys null moved mp k v inside in
        let kept : ky null (written null moved mp (some k) v) f ≡ some a =
          off f (λ s. mf (sym s)) ∙ ap (λ (x : Node K V). x.key) moved_free ∙ held in
        record {
          sized = length-written null moved mp (some k) v inside ∙ long ∙ h.sized;
          adds =
              written-Adds keys null moved mp k v inside t.nodes
                (ap (λ (x : Node K V). x.key) moved-mp) moved_keeps moved_from;
          core = λ q l e.
              let below : q ≢ f =
                λ s. cc (ap (ky null (written null moved mp (some k) v)) s, kept) in
              rw (fun_ext same) (
                Core-lower (suc q) (omega arith) (
                  moved-Core h.core h.free_key h.free_next mp o k a refl fresh moved-Moved held
                    alien on kept (λ p np nf. off p np ∙ (moved_same p np nf).0)));
        }
