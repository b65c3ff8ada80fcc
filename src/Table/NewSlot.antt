-- ===== src/Table/NewSlot.antt =====
-- `NewSlot` of a key that the table does not hold, up to the search for a free node.
use squirrel_gobject.Prelude.{
  ℕ, suc, ◌≤◌, ◌<◌, ◌≡◌, ◌≢◌, refl, ap, sym, ◌∙◌, none, some, arith, length, List,
}
use squirrel_gobject.Table.{Table, Node, Key, at, link_node}
use squirrel_gobject.Table.Slot.{slot-lt}
use squirrel_gobject.Table.Find.{nx, ky, vl}
use squirrel_gobject.Table.Insert.{Core, Core-lower, direct-Core}
use squirrel_gobject.Table.Update.{Linked, linked-Core}
use squirrel_gobject.Table.Valid.{IsValid, home}
use squirrel_gobject.Table.Place.{
  written, length-written, at-written, at-written_other, length-link_node, at-link_node-mp,
  at-link_node_free, at-link_node_other,
}
use native.Mathlib.Decide.{ℕ_discrete}
use mathlib.Core.Path.{fun_ext}

-- The array `new` holds what `old` does, and the value `v` under the new key `k`.
pub record Adds {K V : Type 0} (null : V) (old new : List (Node K V)) (k : K) (v : V) : Type 0 where
  pub added : (p : ℕ) × (ky null new p ≡ some k) × (vl null new p ≡ v)
  pub keeps :
      (p : ℕ) (j : K)
      → ky null old p ≡ some j
      → j ≢ k
      → (q : ℕ) × (ky null new q ≡ some j) × (vl null new q ≡ vl null old p)
  pub only :
      (p : ℕ) (j : K)
      → ky null new p ≡ some j
      → j ≢ k
      → (q : ℕ) × (ky null old q ≡ some j) × (vl null old q ≡ vl null new p)

module _ {K V : Type 0} (keys : Key K) (null : V) where
  -- The writes are done, and a free node is still to be found under those that are linked.
  pub record Placed (t : Table K V) (k : K) (v : V) (new : List (Node K V)) : Type 0 where
    pub sized : length new ≡ t.numofnodes
    pub adds : Adds null t.nodes new k v
    pub core :
        (q : ℕ)
        → q ≤ t.firstfree
        → ky null new q ≡ none
        → Core (home keys null t.numofnodes) t.numofnodes (suc q) (nx null new) (ky null new)

  -- The writes of key and value to the node that takes the new key.
  module _ (moved : List (Node K V)) (mp : ℕ) (k : K) (v : V) (inside : mp < length moved) where
    abbrev pub new : List (Node K V)
    new = written null moved mp (some k) v

    self : at null new mp ≡ record { val = v; key = some k; next = nx null moved mp }
    self = at-written null moved mp (some k) v inside

    off : (p : ℕ) → p ≢ mp → at null new p ≡ at null moved p
    off = at-written_other null moved mp (some k) v inside

    pub written-nx : (p : ℕ) → nx null new p ≡ nx null moved p
    written-nx p = elim (ℕ_discrete p mp) [
      | yes s ↦ ap (nx null new) s ∙ ap (λ (o : Node K V). o.next) self ∙ ap (nx null moved) (sym s)
      | no np ↦ ap (λ (o : Node K V). o.next) (off p np)
    ]

    pub written-ky_self : ky null new mp ≡ some k
    written-ky_self = ap (λ (o : Node K V). o.key) self

    pub written-ky_other : (p : ℕ) → p ≢ mp → ky null new p ≡ ky null moved p
    written-ky_other p np = ap (λ (o : Node K V). o.key) (off p np)

    -- The table gains the key, if the nodes before the writes hold what it did.
    pub written-Adds :
        (old : List (Node K V))
        → ky null moved mp ≡ none
        → ((p : ℕ) (j : K)
            → ky null old p ≡ some j
            → (q : ℕ) × (ky null moved q ≡ some j) × (vl null moved q ≡ vl null old p))
        → ((p : ℕ) (j : K)
            → ky null moved p ≡ some j
            → (q : ℕ) × (ky null old q ≡ some j) × (vl null old q ≡ vl null moved p))
        → Adds null old new k v
    written-Adds old empty kept from = record {
      added = (mp, written-ky_self, ap (λ (o : Node K V). o.val) self);
      keeps = λ p j e _.
          let (q, e', w) = kept p j e in
          let ne : q ≢ mp = λ s. cc (ap (ky null moved) s) in
          (q, written-ky_other q ne ∙ e', ap (λ (o : Node K V). o.val) (off q ne) ∙ w);
      only = λ p j e ne. elim (ℕ_discrete p mp) [
        | yes s ↦ absurd (ne (cc (ap (ky null new) s, written-ky_self)))
        | no np ↦
            let (q, e', w) = from p j (sym (written-ky_other p np) ∙ e) in
            (q, e', w ∙ sym (ap (λ (o : Node K V). o.val) (off p np)))
      ];
    }

  module _ (t : Table K V) (h : IsValid keys null t) (k : K) (v : V)
      (fresh : (p : ℕ) → ky null t.nodes p ≢ some k) where
    abbrev pub start : ℕ
    start = home keys null t.numofnodes k

    pub start_lt : start < t.numofnodes
    start_lt = slot-lt (keys.hash (some k)) t.numofnodes (omega (arith, h.core.bound))

    -- The main position is free.
    pub Placed-direct :
        ky null t.nodes start ≡ none → Placed t k v (written null t.nodes start (some k) v)
    Placed-direct free =
        let inside : start < length t.nodes = omega (arith, start_lt, h.sized) in
        let same = written-nx t.nodes start k v inside in
        record {
          sized = length-written null t.nodes start (some k) v inside ∙ h.sized;
          adds =
              written-Adds t.nodes start k v inside t.nodes free (λ p j e. (p, e, refl))
                (λ p j e. (p, e, refl));
          core = λ q l e. rw (fun_ext same) (
              direct-Core (Core-lower (suc q) (omega arith) h.core) start k _ start_lt refl fresh
                (written-ky_self t.nodes start k v inside)
                (written-ky_other t.nodes start k v inside));
        }

    -- The main position holds a key of its own: the free node `f` is linked behind it.
    module _ (a : K) (held : ky null t.nodes start ≡ some a) where
      apart : start ≢ t.firstfree
      apart s = cc (ap (ky null t.nodes) s, h.free_key)

      in_start : start < length t.nodes
      in_start = omega (arith, start_lt, h.sized)

      in_free : t.firstfree < length t.nodes
      in_free = omega (arith, h.core.bound, h.sized)

      abbrev pub chained : List (Node K V)
      chained = link_node null start t.firstfree t.nodes

      chained_mp :
          at null chained start ≡ record (at null t.nodes start) { next = some t.firstfree }
      chained_mp = at-link_node-mp null t.nodes start t.firstfree in_start in_free apart

      chained_free :
          at null chained t.firstfree
          ≡ record (at null t.nodes t.firstfree) { next = nx null t.nodes start }
      chained_free = at-link_node_free null t.nodes start t.firstfree in_start in_free apart

      chained_rest : (p : ℕ) → p ≢ start → p ≢ t.firstfree → at null chained p ≡ at null t.nodes p
      chained_rest = at-link_node_other null t.nodes start t.firstfree in_start in_free apart

      chained_same :
          (p : ℕ)
          → (ky null chained p ≡ ky null t.nodes p) × (vl null chained p ≡ vl null t.nodes p)
      chained_same p = elim (ℕ_discrete p start) [
        | yes s ↦
            rw s (ap (λ (o : Node K V). o.key) chained_mp, ap (λ (o : Node K V). o.val) chained_mp)
        | no np ↦ elim (ℕ_discrete p t.firstfree) [
          | yes s ↦
              rw s (
                ap (λ (o : Node K V). o.key) chained_free,
                ap (λ (o : Node K V). o.val) chained_free,
              )
          | no nf ↦ (
            ap (λ (o : Node K V). o.key) (chained_rest p np nf),
            ap (λ (o : Node K V). o.val) (chained_rest p np nf),
          )
        ]
      ]

      chained-Linked : Linked t.firstfree start (nx null t.nodes) (nx null chained)
      chained-Linked = record {
        first = ap (λ (o : Node K V). o.next) chained_mp;
        second = ap (λ (o : Node K V). o.next) chained_free;
        rest = λ p np nf. ap (λ (o : Node K V). o.next) (chained_rest p np nf);
      }

      pub Placed-linked :
          home keys null t.numofnodes a ≡ start
          → Placed t k v (written null chained t.firstfree (some k) v)
      Placed-linked own =
          let long = length-link_node null t.nodes start t.firstfree in_start in_free apart in
          let inside : t.firstfree < length chained = omega (arith, long, in_free) in
          let same = written-nx chained t.firstfree k v inside in
          let on = written-ky_self chained t.firstfree k v inside in
          record {
            sized = length-written null chained t.firstfree (some k) v inside ∙ long ∙ h.sized;
            adds =
                written-Adds chained t.firstfree k v inside t.nodes
                  ((chained_same t.firstfree).0 ∙ h.free_key)
                  (λ p j e. (p, (chained_same p).0 ∙ e, (chained_same p).1))
                  (λ p j e. (p, sym (chained_same p).0 ∙ e, sym (chained_same p).1));
            core = λ q l e.
                let below : q ≢ t.firstfree =
                  λ s. cc (ap (ky null (written null chained t.firstfree (some k) v)) s, on) in
                rw (fun_ext same) (
                  Core-lower (suc q) (omega arith) (
                    linked-Core h.core h.free_key h.free_next start k refl start_lt fresh
                      chained-Linked
                      (λ b e'.
                        let one : a ≡ b = cc in sym (ap (home keys null t.numofnodes) one) ∙ own)
                      apart on
                      (λ p np.
                        written-ky_other chained t.firstfree k v inside p np
                        ∙ (chained_same p).0)));
          }
