-- ===== src/Table/Stores.antt =====
-- What `NewSlot`, `Set` and `Remove` do to what a table holds, where they leave its size alone.
use squirrel_gobject.Prelude.{
  ℕ, suc, ◌+◌, ◌<◌, ◌≡◌, ◌≢◌, refl, ap, sym, ◌∙◌, none, some, arith, inl, inr, length, Option-cases,
  List, true, false, Bool-cases, ltb, ne→==, eq→==, lt→ltb, length-set,
}
use squirrel_gobject.Table.{
  Table, Node, Key, place, new_slot, get_node, get, set_value, settle, write_key, write_val,
  link_node, move_node,
}
use squirrel_gobject.Table.Find.{nx, ky, vl, settle_lem}
use squirrel_gobject.Table.Insert.{away}
use squirrel_gobject.Table.Valid.{
  IsValid, home, get-Has, get-some, get-none, get_node_sound, get_node_absent,
}
use squirrel_gobject.Table.Place.{written, write_val_keeps, at-set_self, at-set_other}
use squirrel_gobject.Table.NewSlot.{Adds, Placed, Placed-direct, Placed-linked}
use squirrel_gobject.Table.Displace.{Placed-moved}
use native.Mathlib.Decide.{ℕ_discrete}
use mathlib.Core.Path.{fun_ext}

module _ {K V : Type 0} (keys : Key K) (null : V) where
  -- `t'` is in order, reads `v` under `k`, and under any other key what `t` reads.
  pub record Stores (t : Table K V) (k : K) (v : V) (t' : Table K V) : Type 0 where
    pub valid : IsValid keys null t'
    pub stored : (realval : V → V) → get keys null realval (some k) t' ≡ some (realval v)
    pub others :
        (realval : V → V) (j : K)
        → j ≢ k
        → get keys null realval (some j) t' ≡ get keys null realval (some j) t

  Adds-Stores :
      (t t' : Table K V) (k : K) (v : V)
      → IsValid keys null t
      → IsValid keys null t'
      → Adds null t.nodes t'.nodes k v
      → Stores t k v t'
  Adds-Stores t t' k v h h' a = record {
    valid = h';
    stored = λ realval. get-Has keys null t' h' k realval v a.added;
    others = λ realval j ne. elim (Option-cases (get keys null realval (some j) t)) [
      | inl z ↦
          get-none keys null t' h' j realval (λ p e.
            let (q, e', w) = a.only p j e ne in
            cc (get-Has keys null t h j realval (vl null t'.nodes p) (q, e', w), z))
          ∙ sym z
      | inr (w, z) ↦
          let (u, (p, e, e'), same) = get-some keys null t h j realval w z in
          let (q, f, f') = a.keeps p j e ne in
          get-Has keys null t' h' j realval u (q, f, f' ∙ e') ∙ ap some same ∙ sym z
    ];
  }

  place_free :
      (t : Table K V) (mp : ℕ) → ky null t.nodes mp ≡ none → place keys null mp t ≡ (t.nodes, mp)
  unfolding place
  place_free t mp e = rw e refl

  place_own :
      (t : Table K V) (mp : ℕ) (a : K)
      → ky null t.nodes mp ≡ some a
      → home keys null t.numofnodes a ≡ mp
      → place keys null mp t ≡ (link_node null mp t.firstfree t.nodes, t.firstfree)
  unfolding place
  place_own t mp a e s = elim (Bool-cases (ltb t.firstfree mp)) [
    | inl b ↦ rw (e, b, s, eq→== mp mp refl) refl
    | inr b ↦ rw (e, b) refl
  ]

  place_alien :
      (t : Table K V) (mp : ℕ) (a : K)
      → ky null t.nodes mp ≡ some a
      → home keys null t.numofnodes a ≢ mp
      → t.firstfree < mp
      → place keys null mp t
        ≡ (move_node null t.numofnodes (home keys null t.numofnodes a) mp t.firstfree t.nodes, mp)
  unfolding place
  place_alien t mp a e ne l = rw (e, lt→ltb t.firstfree mp l, ne→== _ mp ne) refl

  -- The three cases of `place`, with the writes after it.
  module _ (t : Table K V) (h : IsValid keys null t) (k : K) (v : V)
      (fresh : (p : ℕ) → ky null t.nodes p ≢ some k) where
    placed :
        let r = place keys null (home keys null t.numofnodes k) t in
        Placed keys null t k v (written null r.0 r.1 (some k) v)
    placed =
        let mp = home keys null t.numofnodes k in
        elim (Option-cases (ky null t.nodes mp)) [
          | inl e ↦ rw (place_free t mp e) (Placed-direct keys null t h k v fresh e)
          | inr (a, e) ↦ elim (ℕ_discrete (home keys null t.numofnodes a) mp) [
            | yes s ↦ rw (place_own t mp a e s) (Placed-linked keys null t h k v fresh a e s)
            | no ne ↦
                rw (place_alien t mp a e ne (away h.core mp a e ne))
                  (Placed-moved keys null t h k v fresh a e ne)
          ]
        ]

    abbrev pub target : List (Node K V) × ℕ
    target = place keys null (home keys null t.numofnodes k) t

    -- the nodes with the key in its place, and its value not written yet
    abbrev pub keyed : List (Node K V)
    keyed = write_key null target.1 (some k) target.0

    abbrev pub grown : ℕ → Table K V
    grown q = record t {
      nodes = write_val null target.1 v keyed;
      firstfree = q;
      usednodes = t.usednodes + 1;
    }

    new_slot_run :
        (depth q : ℕ)
        → get_node keys null (some k) t ≡ none
        → settle null t.firstfree keyed ≡ some q
        → new_slot keys null (suc depth) k v t ≡ some (grown q, true)
    unfolding new_slot
    new_slot_run depth q absent e = rw (absent, new_slot, e) refl

    grown-IsValid : (q : ℕ) → settle null t.firstfree keyed ≡ some q → IsValid keys null (grown q)
    grown-IsValid q e =
        let (low, no_key, no_next) = settle_lem null keyed t.firstfree q e in
        let same = write_val_keeps null keyed target.1 q v in
        record {
          sized = placed.sized;
          core = placed.core q low (same.0 ∙ no_key);
          free_key = same.0 ∙ no_key;
          free_next = same.1 ∙ no_next;
        }

  -- In a table in order, for a key that is not there, where correcting `firstfree` finds a free
  -- node once the key is placed: `NewSlot` answers true and counts one more node; the table stays
  -- in order, reads the value under the key, and under any other key what it read before.
  pub new_slot-absent :
      (t : Table K V) (k : K) (v : V) (depth q : ℕ)
      → IsValid keys null t
      → get_node keys null (some k) t ≡ none
      → (let r = place keys null (home keys null t.numofnodes k) t in
          settle null t.firstfree (write_key null r.1 (some k) r.0) ≡ some q)
      → (t' : Table K V) × (new_slot keys null (suc depth) k v t ≡ some (t', true))
        × Stores t k v t'
        × (t'.usednodes ≡ t.usednodes + 1)
  new_slot-absent t k v depth q h absent e =
      let fresh = get_node_absent keys null t h k absent in
      let ok = grown-IsValid t h k v fresh q e in
      (
        grown t h k v fresh q,
        new_slot_run t h k v fresh depth q absent e,
        Adds-Stores t (grown t h k v fresh q) k v h ok (placed t h k v fresh).adds,
        refl,
      )

  -- The write of a value to the node of a key.
  module _ (t : Table K V) (h : IsValid keys null t) (k : K) (v : V) (p : ℕ)
      (here_is : ky null t.nodes p ≡ some k) where
    abbrev pub rewritten : Table K V
    rewritten = record t { nodes = write_val null p v t.nodes }

    same_node :
        (q : ℕ)
        → (ky null rewritten.nodes q ≡ ky null t.nodes q)
          × (nx null rewritten.nodes q ≡ nx null t.nodes q)
    same_node q = write_val_keeps null t.nodes p q v

    rewritten-IsValid : IsValid keys null rewritten
    rewritten-IsValid = record {
      sized = length-set t.nodes p _ ∙ h.sized;
      core = rw (fun_ext (λ q. (same_node q).0), fun_ext (λ q. (same_node q).1)) h.core;
      free_key = (same_node t.firstfree).0 ∙ h.free_key;
      free_next = (same_node t.firstfree).1 ∙ h.free_next;
    }

    rewritten-Adds : Adds null t.nodes rewritten.nodes k v
    rewritten-Adds =
        let inside : p < length t.nodes = omega (arith, h.core.inside p k here_is, h.sized) in
        record {
          added = (
            p,
            (same_node p).0 ∙ here_is,
            ap (λ (o : Node K V). o.val) (at-set_self null t.nodes p p _ inside refl),
          );
          keeps = λ q j e ne.
              let away_from : q ≢ p = λ s. ne (cc (ap (ky null t.nodes) s)) in
              (
                q,
                (same_node q).0 ∙ e,
                ap (λ (o : Node K V). o.val) (at-set_other null t.nodes p q _ inside away_from),
              );
          only = λ q j e ne.
              let old = sym (same_node q).0 ∙ e in
              let away_from : q ≢ p = λ s. ne (cc (ap (ky null t.nodes) s)) in
              (
                q,
                old,
                sym (
                    ap (λ (o : Node K V). o.val)
                      (at-set_other null t.nodes p q _ inside away_from)),
              );
        }

    rewritten-Stores : Stores t k v rewritten
    rewritten-Stores = Adds-Stores t rewritten k v h rewritten-IsValid rewritten-Adds

  -- In a table in order, for a key that is there: `NewSlot` answers false and counts no new node;
  -- the table stays in order, reads the value under the key, and under any other key what it read
  -- before.
  pub new_slot-present :
      (t : Table K V) (k : K) (v : V) (depth : ℕ)
      → IsValid keys null t
      → get_node keys null (some k) t ≢ none
      → (t' : Table K V) × (new_slot keys null (suc depth) k v t ≡ some (t', false))
        × Stores t k v t'
        × (t'.usednodes ≡ t.usednodes)
  unfolding new_slot
  new_slot-present t k v depth h there = elim (Option-cases (get_node keys null (some k) t)) [
    | inl z ↦ absurd (there z)
    | inr (p, z) ↦
        let e = get_node_sound keys null t h k p z in
        (rewritten t h k v p e, rw (z, new_slot) refl, rewritten-Stores t h k v p e, refl)
  ]

  -- In a table in order: for a key that is not there `Set` answers false and changes nothing; for
  -- one that is there it answers true, and the table stays in order, reads the value under the key,
  -- and under any other key what it read before.
  pub set_value_lem :
      (t : Table K V) (k : K) (v : V)
      → IsValid keys null t
      → ((get_node keys null (some k) t ≡ none) → set_value keys null (some k) v t ≡ (t, false))
        × ((get_node keys null (some k) t ≢ none)
            → ((set_value keys null (some k) v t).1 ≡ true)
              × Stores t k v (set_value keys null (some k) v t).0)
  unfolding set_value
  set_value_lem t k v h = (
    λ z. rw (z, set_value) refl,
    λ there. elim (Option-cases (get_node keys null (some k) t)) [
      | inl z ↦ absurd (there z)
      | inr (p, z) ↦
          let e = get_node_sound keys null t h k p z in
          rw (z, set_value) (refl, rewritten-Stores t h k v p e)
    ],
  )
