-- ===== src/Intern/Strings.antt =====
-- The state and the operations of `SQStringTable`.
use Prim.Native.Nat.{bit_xor}
use squirrel_gobject.Prelude.{
  ℕ, zero, suc, ◌+◌, ◌-◌, ◌*◌, ◌/◌, ltb, leb, ◌==◌, if◌then◌else◌, Option, none, some, List, [],
  ◌∷◌, length, get_or, set, replicate,
}
use squirrel_gobject.Prelude.Int.{wrap}
use squirrel_gobject.Prelude.Chars.{same_text}
use squirrel_gobject.Table.Slot.{slot}

-- `SQString`, with its address; the chain of a slot is a list.
pub record SqString : Type 0 where
  pub address : ℕ
  pub val : List ℕ
  pub hash : ℕ

-- `SQStringTable`
pub record StringTable : Type 0 where
  pub strings : List (List SqString)
  pub numofslots : ℕ
  pub slotused : ℕ

-- `(unsigned short)c` of a signed character
abbrev pub unsigned_short : ℕ → ℕ
unsigned_short c = if ltb c 128 then c else c + 65280

-- `h ^ ((h << 5) + (h >> 2) + c)`
abbrev pub mix : ℕ → ℕ → ℕ
mix h c = bit_xor h (wrap (h * 32 + h / 4 + unsigned_short c))

-- the loop of `_hashstr`
abbrev pub hash_loop : ℕ → ℕ → ℕ → List ℕ → ℕ → ℕ
hash_loop zero l1 step s h = h
hash_loop (suc fuel) l1 step s h =
    let rest = hash_loop fuel (l1 - step) step s (mix h (get_or s (l1 - 1) 0)) in
    if leb step l1 then rest else h

-- `_hashstr`: each round takes one character at least.
unfoldable pub hashstr : List ℕ → ℕ
hashstr s = let l = length s in hash_loop (l + 1) l (l / 32 + 1) s (wrap l)

-- `AllocNodes`
unfoldable pub alloc_nodes : ℕ → List (List SqString)
alloc_nodes size = replicate size []

-- the constructor
unfoldable pub new_table : StringTable
new_table = record { strings = alloc_nodes 4; numofslots = 4; slotused = 0 }

-- the walk along a chain in `Add`
abbrev pub find_string : List ℕ → List SqString → Option SqString
find_string news [] = none
find_string news (s ∷ rest) =
    let found = find_string news rest in if same_text news s.val then some s else found

-- a string becomes the first of its chain
unfoldable pub link : ℕ → SqString → List (List SqString) → List (List SqString)
link size s strings = let h = slot s.hash size in set strings h (s ∷ get_or strings h [])

-- the loops of `Resize`: the strings of a chain, the chains of the old table
abbrev pub link_chain : ℕ → List SqString → List (List SqString) → List (List SqString)
link_chain size [] strings = strings
link_chain size (p ∷ next) strings = link_chain size next (link size p strings)

abbrev pub link_chains : ℕ → List (List SqString) → List (List SqString) → List (List SqString)
link_chains size [] strings = strings
link_chains size (p ∷ rest) strings = link_chains size rest (link_chain size p strings)

-- `Resize`
unfoldable pub resize : ℕ → StringTable → StringTable
resize size t = record t {
  strings = link_chains size t.strings (alloc_nodes size);
  numofslots = size;
}

-- the chain of the slot of a hash
abbrev pub chain_of : ℕ → StringTable → List SqString
chain_of hash t = get_or t.strings (slot hash t.numofslots) []

-- a new string at an address that memory gives
abbrev pub insert : SqString → StringTable → StringTable
insert s t =
    let t' = record t { strings = link t.numofslots s t.strings; slotused = t.slotused + 1 } in
    let grown = resize (t.numofslots * 2) t' in
    if ltb t.numofslots (t.slotused + 1) then grown else t'

-- the string that is found, or a new one
abbrev pub found_or : Option SqString → SqString → StringTable → SqString × StringTable
found_or (some s) new t = (s, t)
found_or none new t = (new, insert new t)

-- `Add`
unfoldable pub add : ℕ → List ℕ → StringTable → SqString × StringTable
add address news t =
    let h = hashstr news in
    found_or (find_string news (chain_of h t)) (record { address = address; val = news; hash = h })
      t

-- the walk along a chain in `Remove`: none where the string is not in it
abbrev pub unlink : SqString → List SqString → Option (List SqString)
unlink bs [] = none
unlink bs (s ∷ rest) =
    let later = unlink bs rest in
    if s.address == bs.address
    then some rest
    else elim later [ some c ↦ some (s ∷ c) | none ↦ none ]

-- the chain of slot `h` without the string: nothing changes where the assertion of `Remove` fails
abbrev pub with_chain : ℕ → StringTable → Option (List SqString) → StringTable
with_chain h t (some c) = record t { strings = set t.strings h c; slotused = t.slotused - 1 }
with_chain h t none = t

-- `Remove`
unfoldable pub remove : SqString → StringTable → StringTable
remove bs t =
    let h = slot bs.hash t.numofslots in with_chain h t (unlink bs (get_or t.strings h []))

-- The string that the table has for some bytes.
abbrev pub lookup : List ℕ → StringTable → Option SqString
lookup v t = find_string v (chain_of (hashstr v) t)
