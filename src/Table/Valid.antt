-- ===== src/Table/Valid.antt =====
-- What a table holds, and what it means that its nodes are in order.
use squirrel_gobject.Prelude.{
  ◌↔◌, ℕ, suc, ◌-◌, ◌≡◌, ◌≢◌, refl, ap, ◌∙◌, none, some, arith, inl, inr, length, Option-cases,
}
use squirrel_gobject.Table.{Table, Key, get_node, get}
use squirrel_gobject.Table.Slot.{slot}
use squirrel_gobject.Table.Chains.{Ends-mono}
use squirrel_gobject.Table.Find.{nx, ky, vl, find_sound, find_complete}
use squirrel_gobject.Table.Insert.{Core}

module _ {K V : Type 0} (keys : Key K) (null : V) where
  -- the main position of a key among `n` nodes
  abbrev pub home : ℕ → K → ℕ
  home n k = slot (keys.hash (some k)) n

  -- The nodes are in order, and `firstfree` is a free node under all that are linked.
  pub record IsValid (t : Table K V) : Type 0 where
    pub sized : length t.nodes ≡ t.numofnodes
    pub core :
        Core (home t.numofnodes) t.numofnodes (suc t.firstfree) (nx null t.nodes) (ky null t.nodes)
    pub free_key : ky null t.nodes t.firstfree ≡ none
    pub free_next : nx null t.nodes t.firstfree ≡ none

  -- A node holds the key and the value.
  abbrev pub Has : Table K V → K → V → Type 0
  Has t k v = (p : ℕ) × (ky null t.nodes p ≡ some k) × (vl null t.nodes p ≡ v)

  module _ (t : Table K V) (h : IsValid t) (k : K) where
    pub get_node_complete :
        (p : ℕ) → ky null t.nodes p ≡ some k → get_node keys null (some k) t ≡ some p
    unfolding get_node
    get_node_complete p e =
        let n = t.numofnodes in
        let start = home n k in
        let found =
          find_complete keys null t.nodes n (some k) start p
            (Ends-mono (suc n - suc t.firstfree) n (nx null t.nodes) start (omega arith)
              (h.core.ends start))
            (h.core.placed p k e) e in
        elim (Option-cases (get_node keys null (some k) t)) [
          | inl z ↦ absurd (found z)
          | inr (q, z) ↦
              let there = find_sound keys null t.nodes n (some k) start q z in
              z ∙ ap some (h.core.once q p k there e)
        ]

    pub get_node_sound :
        (p : ℕ) → get_node keys null (some k) t ≡ some p → ky null t.nodes p ≡ some k
    unfolding get_node
    get_node_sound p e =
        find_sound keys null t.nodes t.numofnodes (some k) (home t.numofnodes k) p e

    pub get_node_absent :
        get_node keys null (some k) t ≡ none → (p : ℕ) → ky null t.nodes p ≢ some k
    get_node_absent z p e = cc (get_node_complete p e)

    -- `Get` finds the value that a node holds under the key.
    pub get-Has :
        (realval : V → V) (v : V) → Has t k v → get keys null realval (some k) t ≡ some (realval v)
    unfolding get
    get-Has realval v (p, e, e') = rw (get_node_complete p e, get) (ap (λ x. some (realval x)) e')

    -- What `Get` finds is the value that some node holds under the key.
    pub get-some :
        (realval : V → V) (w : V)
        → get keys null realval (some k) t ≡ some w
        → (v : V) × Has t k v × (realval v ≡ w)
    unfolding get
    get-some realval w e = elim (Option-cases (get_node keys null (some k) t)) [
      | inl z ↦ cc (rw (z, get) at e)
      | inr (p, z) ↦ (vl null t.nodes p, (p, get_node_sound p z, refl), cc (rw (z, get) at e))
    ]

    -- `Get` finds nothing where no node holds the key.
    pub get-none :
        (realval : V → V)
        → ((p : ℕ) → ky null t.nodes p ≢ some k)
        → get keys null realval (some k) t ≡ none
    unfolding get
    get-none realval out = elim (Option-cases (get_node keys null (some k) t)) [
      | inl z ↦ rw (z, get) refl
      | inr (p, z) ↦ absurd (out p (get_node_sound p z))
    ]

    -- In a table in order, `Get` finds a value under a key exactly where some node holds the key,
    -- and the value is what `_realval` makes of that node's.
    pub get_lem :
        (realval : V → V) (w : V)
        → (get keys null realval (some k) t ≡ some w) ↔ ((v : V) × Has t k v × (realval v ≡ w))
    get_lem realval w = (get-some realval w, λ (v, held, e). get-Has realval v held ∙ ap some e)
