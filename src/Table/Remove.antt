-- ===== src/Table/Remove.antt =====
-- `Remove` and the constructor of `SQTable`.
use squirrel_gobject.Prelude.{
  ℕ, zero, suc, ◌+◌, ◌-◌, ◌*◌, ◌≤◌, ◌<◌, ◌≡◌, ◌≢◌, refl, ap, sym, ◌∙◌, Option, none, some, arith,
  inl, inr, length, Option-cases, false, set, length-set, length-replicate, get_or-replicate,
}
use squirrel_gobject.Table.{
  Table, Node, Key, at, blank, get_node, get, remove, rehash, rehash_size, create, pow2_above,
}
use squirrel_gobject.Table.Find.{nx, ky, vl}
use squirrel_gobject.Table.Insert.{Core}
use squirrel_gobject.Table.Valid.{IsValid, get-Has, get-some, get-none, get_node_sound}
use squirrel_gobject.Table.Place.{at-set_self, at-set_other}
use native.Mathlib.Decide.{ℕ_discrete}
use mathlib.Core.Path.{fun_ext}

-- The key of a node is dropped, and nothing else changes.
dropped-Core :
    {K : Type 0} {home : K → ℕ} {n b : ℕ} {nx : ℕ → Option ℕ} {ky ky' : ℕ → Option K} (p : ℕ)
    → ky' p ≡ none
    → ((q : ℕ) → q ≢ p → ky' q ≡ ky q)
    → Core home n b nx ky
    → Core home n b nx ky'
dropped-Core {K} {ky} {ky'} p gone off c =
    let old : (q : ℕ) (j : K) → ky' q ≡ some j → ky q ≡ some j =
      λ q j e. elim (ℕ_discrete q p) [ yes s ↦ cc (ap ky' s) | no ne ↦ sym (off q ne) ∙ e ] in
    record {
      bound = c.bound;
      ahead = c.ahead;
      ends = c.ends;
      single = c.single;
      inside = λ q j e. c.inside q j (old q j e);
      placed = λ q j e. c.placed q j (old q j e);
      once = λ q r j e e'. c.once q r j (old q j e) (old r j e');
      owner = λ q r a d e ne e'. c.owner q r a d (old q a e) ne (old r d e');
    }

-- Doubling from 4 goes past what is wanted, within that many rounds.
pub pow2_above_bounds :
    (f wanted size : ℕ)
    → wanted ≤ size + f
    → 0 < size
    → (wanted ≤ pow2_above f wanted size) × (size ≤ pow2_above f wanted size)
unfolding pow2_above
pow2_above_bounds zero wanted size h l = omega arith
pow2_above_bounds (suc f) wanted size h l = ground (arith, pow2_above_bounds f wanted (size * 2))

module _ {K V : Type 0} (keys : Key K) (null : V) where
  abbrev pub fresh : ℕ → Table K V
  fresh wanted = create null wanted

  fresh-blank : (wanted p : ℕ) → at null (fresh wanted).nodes p ≡ blank null
  unfolding create
  fresh-blank wanted p = get_or-replicate (pow2_above wanted wanted 4) p (blank null)

  fresh_key : (wanted p : ℕ) → ky null (fresh wanted).nodes p ≡ none
  fresh_key wanted p = ap (λ (o : Node K V). o.key) (fresh-blank wanted p)

  fresh_next : (wanted p : ℕ) → nx null (fresh wanted).nodes p ≡ none
  fresh_next wanted p = ap (λ (o : Node K V). o.next) (fresh-blank wanted p)

  fresh_sizes :
      (wanted : ℕ)
      → let t = fresh wanted in
        (length t.nodes ≡ t.numofnodes)
        × (wanted ≤ t.numofnodes)
        × (suc t.firstfree ≡ t.numofnodes)
        × (t.usednodes ≡ 0)
  unfolding create
  fresh_sizes wanted =
      let n = pow2_above wanted wanted 4 in
      let big = pow2_above_bounds wanted wanted 4 (omega arith) (omega arith) in
      (length-replicate n (blank null), big.0, omega arith, refl)

  fresh-IsValid : (wanted : ℕ) → IsValid keys null (fresh wanted)
  fresh-IsValid wanted =
      let t = fresh wanted in
      let sizes = fresh_sizes wanted in
      record {
        sized = sizes.0;
        core = record {
          bound = omega arith;
          ahead = λ p q e. cc (fresh_next wanted p);
          ends = λ p.
              let one : suc t.numofnodes - suc t.firstfree ≡ 1 = omega arith in
              rw one (inl (fresh_next wanted p));
          single = λ p q r e _. cc (fresh_next wanted p);
          inside = λ p j e. cc (fresh_key wanted p);
          placed = λ p j e. cc (fresh_key wanted p);
          once = λ p q j e _. cc (fresh_key wanted p);
          owner = λ p q a d e _ _. cc (fresh_key wanted p);
        };
        free_key = fresh_key wanted t.firstfree;
        free_next = fresh_next wanted t.firstfree;
      }

  -- Whatever size is asked for, a new table has at least so many nodes, is in order, counts no
  -- node as used, and finds no key.
  pub create_lem :
      (wanted : ℕ)
      → IsValid keys null (fresh wanted)
        × (wanted ≤ (fresh wanted).numofnodes)
        × ((fresh wanted).usednodes ≡ 0)
        × ((realval : V → V) (k : K) → get keys null realval (some k) (fresh wanted) ≡ none)
  create_lem wanted = (
    fresh-IsValid wanted,
    (fresh_sizes wanted).1,
    (fresh_sizes wanted).3,
    λ realval k.
        get-none keys null (fresh wanted) (fresh-IsValid wanted) k realval
          (λ p e. cc (fresh_key wanted p)),
  )

  module _ (t : Table K V) (h : IsValid keys null t) (k : K) (p : ℕ)
      (held : ky null t.nodes p ≡ some k) where
    abbrev pub emptied : Table K V
    emptied = record t {
      nodes = set t.nodes p (record (at null t.nodes p) { val = null; key = none });
      usednodes = t.usednodes - 1;
    }

    inside : p < length t.nodes
    inside = omega (arith, h.core.inside p k held, h.sized)

    emptied_self :
        at null emptied.nodes p ≡ record { val = null; key = none; next = nx null t.nodes p }
    emptied_self = at-set_self null t.nodes p p _ inside refl

    emptied_other : (q : ℕ) → q ≢ p → at null emptied.nodes q ≡ at null t.nodes q
    emptied_other q ne = at-set_other null t.nodes p q _ inside ne

    emptied_next : (q : ℕ) → nx null emptied.nodes q ≡ nx null t.nodes q
    emptied_next q = elim (ℕ_discrete q p) [
      | yes s ↦
          ap (nx null emptied.nodes) s
          ∙ ap (λ (o : Node K V). o.next) emptied_self
          ∙ ap (nx null t.nodes) (sym s)
      | no ne ↦ ap (λ (o : Node K V). o.next) (emptied_other q ne)
    ]

    emptied_key : (q : ℕ) → q ≢ p → ky null emptied.nodes q ≡ ky null t.nodes q
    emptied_key q ne = ap (λ (o : Node K V). o.key) (emptied_other q ne)

    gone : ky null emptied.nodes p ≡ none
    gone = ap (λ (o : Node K V). o.key) emptied_self

    emptied-IsValid : IsValid keys null emptied
    emptied-IsValid =
        let ff : t.firstfree ≢ p = λ s. cc (ap (ky null t.nodes) s, h.free_key) in
        record {
          sized = length-set t.nodes p _ ∙ h.sized;
          core = rw (fun_ext emptied_next) (dropped-Core p gone emptied_key h.core);
          free_key = emptied_key t.firstfree ff ∙ h.free_key;
          free_next = emptied_next t.firstfree ∙ h.free_next;
        }

    emptied_out : (realval : V → V) → get keys null realval (some k) emptied ≡ none
    emptied_out realval = get-none keys null emptied emptied-IsValid k realval λ q e.
        elim (ℕ_discrete q p) [
          | yes s ↦ cc (ap (ky null emptied.nodes) s, gone)
          | no ne ↦ ne (h.core.once q p k (sym (emptied_key q ne) ∙ e) held)
        ]

    emptied_keeps :
        (realval : V → V) (j : K)
        → j ≢ k
        → get keys null realval (some j) emptied ≡ get keys null realval (some j) t
    emptied_keeps realval j ne = elim (Option-cases (get keys null realval (some j) t)) [
      | inl z ↦
          get-none keys null emptied emptied-IsValid j realval (λ q e.
            let np : q ≢ p = λ s. cc (ap (ky null emptied.nodes) s, gone) in
            cc (
              get-Has keys null t h j realval (vl null t.nodes q)
                  (q, sym (emptied_key q np) ∙ e, refl),
              z,
            ))
          ∙ sym z
      | inr (w, z) ↦
          let (u, (q, e, e'), same) = get-some keys null t h j realval w z in
          let np : q ≢ p = λ s. ne (cc (ap (ky null t.nodes) s)) in
          get-Has keys null emptied emptied-IsValid j realval u
            (q, emptied_key q np ∙ e, ap (λ (o : Node K V). o.val) (emptied_other q np) ∙ e')
          ∙ ap some same
          ∙ sym z
    ]

  -- What is left of the table under `k`: it is in order, `k` is gone, other keys are untouched.
  pub record Removes (t : Table K V) (k : K) (t' : Table K V) : Type 0 where
    pub valid : IsValid keys null t'
    pub gone : (realval : V → V) → get keys null realval (some k) t' ≡ none
    pub others :
        (realval : V → V) (j : K)
        → j ≢ k
        → get keys null realval (some j) t' ≡ get keys null realval (some j) t
    pub counted : t'.usednodes ≡ t.usednodes - 1

  -- In a table in order, for a key that is there, where one node less is no reason to rehash:
  -- `Remove` ends; the table stays in order, no longer finds the key, reads under any other key
  -- what it read before, and counts one node less.
  pub remove-Removes :
      (depth : ℕ) (t : Table K V) (k : K) (p : ℕ) (h : IsValid keys null t)
      → get_node keys null (some k) t ≡ some p
      → rehash_size false (record t { usednodes = t.usednodes - 1 }) ≡ none
      → (t' : Table K V) × (remove keys null depth k t ≡ some t') × Removes t k t'
  unfolding remove rehash_size
  remove-Removes depth t k p h found same =
      let held = get_node_sound keys null t h k p found in
      (
        emptied t h k p held,
        rw (found, remove, same, rehash) refl,
        record {
          valid = emptied-IsValid t h k p held;
          gone = emptied_out t h k p held;
          others = emptied_keeps t h k p held;
          counted = refl;
        },
      )
