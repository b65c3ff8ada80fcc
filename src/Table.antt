-- ===== src/Table.antt =====
-- `SQTable` (Squirrel3/squirrel/sqtable.h, sqtable.cpp): a hash table whose chains run through one
-- array of nodes. A pointer to a node is its index; NULL is `none`. A key is an object, `none` the
-- null object that marks a free node; two keys are equal if their types and raw values are.
-- `hash` is `HashObj`, `null` the null value, and `realval` the macro `_realval`.
-- The loops over `next` run on fuel; Table/Find shows that the number of nodes is enough.
pub mod Slot
pub mod Chains
pub mod Find
pub mod Update
pub mod Move
pub mod Insert
pub mod Place
pub mod Valid
pub mod NewSlot
pub mod Displace
pub mod Stores
pub mod Remove
pub mod Iterate
pub mod Tests
use squirrel_gobject.Prelude.{
  ℕ, zero, suc, ◌+◌, ◌-◌, ◌*◌, ◌/◌, ◌==◌, ltb, leb, if◌then◌else◌, Bool, true, false, ◌&&◌, not,
  Option, none, some, List, [], ◌∷◌, replicate, drop, get_or, set, ◌↔◌, ◌≡◌,
}
use squirrel_gobject.Table.Slot.{slot}

pub record Node (K V : Type 0) : Type 0 where
  pub val : V
  pub key : Option K
  pub next : Option ℕ

pub record Table (K V : Type 0) : Type 0 where
  pub nodes : List (Node K V)
  pub firstfree : ℕ
  pub numofnodes : ℕ
  pub usednodes : ℕ

abbrev pub is_none {ℓ} : {A : Type ℓ} → Option A → Bool
is_none none = true
is_none (some a) = false

-- `while (nInitialSize > pow2size) pow2size = pow2size << 1;` on fuel
unfoldable pub pow2_above : ℕ → ℕ → ℕ → ℕ
pow2_above zero wanted size = size
pow2_above (suc f) wanted size =
    let larger = pow2_above f wanted (size * 2) in if ltb size wanted then larger else size

module _ {K V : Type 0} (null : V) where
  -- a node as `AllocNodes` makes it
  abbrev pub blank : Node K V
  blank = record { val = null; key = none; next = none }

  abbrev pub at : List (Node K V) → ℕ → Node K V
  at nodes p = get_or nodes p blank

  unfoldable pub alloc_nodes : ℕ → Table K V → Table K V
  alloc_nodes n t = record t { nodes = replicate n blank; firstfree = n - 1; numofnodes = n }

  -- the constructor; MINPOWER2 is 4
  unfoldable pub create : ℕ → Table K V
  unfolding alloc_nodes pow2_above
  create wanted =
      let empty : Table K V = record { nodes = []; firstfree = 0; numofnodes = 0; usednodes = 0 } in
      record (alloc_nodes (pow2_above wanted wanted 4) empty) { usednodes = 0 }

  -- `_firstfree->key` is null and `_firstfree->next` is NULL
  abbrev pub is_free : List (Node K V) → ℕ → Bool
  is_free nodes p = is_none (at nodes p).key && is_none (at nodes p).next

  -- the loop that corrects `firstfree`: `none` where it breaks
  unfoldable pub settle : ℕ → List (Node K V) → Option ℕ
  settle zero nodes = if is_free nodes zero then some zero else none
  settle (suc p) nodes =
      let lower = settle p nodes in if is_free nodes (suc p) then some (suc p) else lower

  -- `while (othern->next != mp) othern = othern->next;`
  unfoldable pub previous : ℕ → ℕ → ℕ → List (Node K V) → ℕ
  previous zero other mp nodes = other
  previous (suc f) other mp nodes = elim (at nodes other).next [
    | none ↦ other
    | some q ↦ if q == mp then other else previous f q mp nodes
  ]

  abbrev pub write_val : ℕ → V → List (Node K V) → List (Node K V)
  write_val p v nodes = set nodes p (record (at nodes p) { val = v })

  abbrev pub write_key : ℕ → Option K → List (Node K V) → List (Node K V)
  write_key p key nodes = set nodes p (record (at nodes p) { key = key })

  -- The colliding node `mp` moves to the free node `n`: its predecessor on the chain from `other`
  -- is linked to `n`, and `mp` becomes free.
  unfoldable pub move_node : ℕ → ℕ → ℕ → ℕ → List (Node K V) → List (Node K V)
  unfolding previous
  move_node fuel other mp n nodes =
      let o = previous fuel other mp nodes in
      let linked = set nodes o (record (at nodes o) { next = some n }) in
      set (set linked n (at linked mp)) mp (blank)

  -- The free node `n` is put on the chain behind `mp`.
  unfoldable pub link_node : ℕ → ℕ → List (Node K V) → List (Node K V)
  link_node mp n nodes =
      let behind = set nodes n (record (at nodes n) { next = (at nodes mp).next }) in
      set behind mp (record (at behind mp) { next = some n })

  unfoldable pub clear_nodes : List (Node K V) → List (Node K V)
  clear_nodes [] = []
  clear_nodes (o ∷ rest) = record o { val = null; key = none } ∷ clear_nodes rest

module _ {K V : Type 0} where
  -- the size that `Rehash` changes to, where it does
  unfoldable pub rehash_size : Bool → Table K V → Option ℕ
  rehash_size force t =
      let old = if ltb t.numofnodes 4 then 4 else t.numofnodes in
      if leb (old - old / 4) t.usednodes
      then some (old * 2)
      else if leb t.usednodes (old / 4) && ltb 4 old
      then some (old / 2)
      else if force
      then some old
      else none

  -- `Next` from index `idx`, with the nodes that are left: the key, the value, the next index
  unfoldable pub next_loop : (V → V) → List (Node K V) → ℕ → Option (K × V × ℕ)
  next_loop readval [] idx = none
  next_loop readval (o ∷ rest) idx =
      let later = next_loop readval rest (idx + 1) in
      elim o.key [ none ↦ later | some k ↦ some (k, readval o.val, idx + 1) ]

  -- `readval` is `_realval`, or the identity with `getweakrefs`
  unfoldable pub next : (V → V) → ℕ → Table K V → Option (K × V × ℕ)
  unfolding next_loop
  next readval idx t = next_loop readval (drop idx t.nodes) idx

-- What the table asks of its keys: whether two objects have the same type and raw value, and the
-- hash `HashObj` of an object.
pub record Key (K : Type 0) : Type 0 where
  pub same : Option K → Option K → Bool
  pub same_iff : (a b : Option K) → (same a b ≡ true) ↔ (a ≡ b)
  pub hash : Option K → ℕ

module _ {K V : Type 0} (keys : Key K) (null : V) where
  -- the loop of `_Get`, from node `p` on
  unfoldable pub find : ℕ → Option K → ℕ → List (Node K V) → Option ℕ
  find zero key p nodes = none
  find (suc f) key p nodes =
      if keys.same (at null nodes p).key key
      then some p
      else elim (at null nodes p).next [ none ↦ none | some q ↦ find f key q nodes ]

  -- `_Get(key, HashObj(key) & (_numofnodes - 1))`
  unfoldable pub get_node : Option K → Table K V → Option ℕ
  unfolding find
  get_node key t = find t.numofnodes key (slot (keys.hash key) t.numofnodes) t.nodes

  unfoldable pub get : (V → V) → Option K → Table K V → Option V
  unfolding get_node
  get realval none t = none
  get realval (some k) t = elim (get_node (some k) t) [
    | none ↦ none
    | some p ↦ some (realval (at null t.nodes p).val)
  ]

  -- there is no test for the null key
  unfoldable pub set_value : Option K → V → Table K V → Table K V × Bool
  unfolding get_node
  set_value key v t = elim (get_node key t) [
    | none ↦ (t, false)
    | some p ↦ (record t { nodes = write_val null p v t.nodes }, true)
  ]

  -- `NewSlot` up to `mp->key = key`: the nodes, and the node that takes the key
  unfoldable pub place : ℕ → Table K V → List (Node K V) × ℕ
  unfolding move_node link_node
  place mp t =
      let n = t.firstfree in
      let other = slot (keys.hash (at null t.nodes mp).key) t.numofnodes in
      if is_none (at null t.nodes mp).key
      then (t.nodes, mp)
      else if ltb n mp && not (other == mp)
      then (move_node null t.numofnodes other mp n t.nodes, mp)
      else (link_node null mp n t.nodes, n)

  -- the loop of `Rehash` over the old nodes; `insert` is `NewSlot`
  unfoldable pub reinsert :
      (K → V → Table K V → Option (Table K V × Bool))
      → List (Node K V)
      → Table K V
      → Option (Table K V)
  reinsert insert [] t = some t
  reinsert insert (o ∷ olds) t = elim o.key [
    | none ↦ reinsert insert olds t
    | some k ↦ elim (insert k o.val t) [ none ↦ none | some r ↦ reinsert insert olds r.0 ]
  ]

  unfoldable pub rehash :
      (K → V → Table K V → Option (Table K V × Bool)) → Bool → Table K V → Option (Table K V)
  unfolding rehash_size reinsert
  rehash insert force t = elim (rehash_size force t) [
    | none ↦ some t
    | some n ↦ reinsert insert t.nodes (record (alloc_nodes null n t) { usednodes = 0 })
  ]

  -- `NewSlot` with the depth of its calls of itself; `none` if that runs out
  unfoldable pub new_slot : ℕ → K → V → Table K V → Option (Table K V × Bool)
  unfolding get_node place settle rehash
  new_slot zero k v t = none
  new_slot (suc depth) k v t = elim (get_node (some k) t) [
    | some p ↦ some (record t { nodes = write_val null p v t.nodes }, false)
    | none ↦
        let (moved, mp) = place (slot (keys.hash (some k)) t.numofnodes) t in
        let placed = write_key null mp (some k) moved in
        elim (settle null t.firstfree placed) [
          | some ff ↦ some (
            record t {
              nodes = write_val null mp v placed;
              firstfree = ff;
              usednodes = t.usednodes + 1;
            },
            true,
          )
          | none ↦
              elim (rehash (new_slot depth) true (record t { nodes = placed; firstfree = 0 })) [
                | none ↦ none
                | some t' ↦ new_slot depth k v t'
              ]
        ]
  ]

  -- `Remove`; the callers have found the key, so it is not the null object
  unfoldable pub remove : ℕ → K → Table K V → Option (Table K V)
  unfolding get_node rehash new_slot
  remove depth k t = elim (get_node (some k) t) [
    | none ↦ some t
    | some p ↦
        let cleared = set t.nodes p (record (at null t.nodes p) { val = null; key = none }) in
        rehash (new_slot depth) false (record t { nodes = cleared; usednodes = t.usednodes - 1 })
  ]

  unfoldable pub clear : ℕ → Table K V → Option (Table K V)
  unfolding clear_nodes rehash new_slot
  clear depth t =
      rehash (new_slot depth) true (record t { nodes = clear_nodes null t.nodes; usednodes = 0 })
