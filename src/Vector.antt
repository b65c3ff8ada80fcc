-- ===== src/Vector.antt =====
-- `sqvector<T>` (Squirrel3/squirrel/squtils.h): a growable block of memory.
-- `vals` is the block `_vals`, cell by cell, of which the first `size` are constructed objects.
-- `junk` stands for what an uninitialised cell holds, and `dflt` for `T()`.
-- Sizes count objects that are in memory, so `_size * 2` is far below the word size.
pub mod Memory
pub mod Laws
pub mod Shift
pub mod Tests
use squirrel_gobject.Prelude.{
  ℕ, zero, suc, ◌+◌, ◌-◌, ◌*◌, ◌^◌, ◌≤◌, ◌<◌, ◌≡◌, arith, ◌==◌, ltb, leb, if◌then◌else◌, List, [],
  ◌++◌, length, take, drop, replicate, get_or, set,
}

pub record Vector {ℓ} (A : Type ℓ) : Type ℓ where
  pub vals : List A
  pub size : ℕ
  pub allocated : ℕ

-- `n--` on an SQUnsignedInteger of 64 bits
unfoldable pub pred64 : ℕ → ℕ
pred64 n = if n == 0 then 2 ^ 64 - 1 else n - 1

pub pred64_pos : (n : ℕ) → 0 < n → pred64 n ≡ n - 1
unfolding pred64
pred64_pos n h = ground arith

-- `memmove(&cells[dst], &cells[src], n * sizeof(T))`
unfoldable pub memmove {ℓ} : {A : Type ℓ} → ℕ → ℕ → ℕ → List A → List A
memmove dst src n cells = take dst cells ++ (take n (drop src cells) ++ drop (dst + n) cells)

module _ {ℓ} {A : Type ℓ} where
  -- `sqvector()`
  abbrev pub empty : Vector A
  empty = record { vals = []; size = 0; allocated = 0 }

  -- the constructed objects
  abbrev pub contents : Vector A → List A
  contents v = take v.size v.vals

  -- the block is as long as the vector believes, and the objects fit in it
  pub record IsValid (v : Vector A) : Type ℓ where
    pub block : length v.vals ≡ v.allocated
    pub fits : v.size ≤ v.allocated

  unfoldable pub pop_back : Vector A → Vector A
  unfolding pred64
  pop_back v = record v { size = pred64 v.size }

  unfoldable pub remove : ℕ → Vector A → Vector A
  unfolding pred64 memmove
  remove idx v =
      let moved =
        if ltb idx (pred64 v.size)
        then record v { vals = memmove idx (idx + 1) (v.size - idx - 1) v.vals }
        else v in
      record moved { size = pred64 v.size }

-- `while (_size < newsize) { _vals[_size] = fill; _size++; }`, with the rounds left
unfoldable pub fill_cells {ℓ} : {A : Type ℓ} → ℕ → ℕ → A → List A → List A
fill_cells zero i fill cells = cells
fill_cells (suc n) i fill cells = fill_cells n (i + 1) fill (set cells i fill)

module _ {ℓ} {A : Type ℓ} (junk : A) where
  unfoldable pub realloc : ℕ → Vector A → Vector A
  realloc newsize v =
      let n = if ltb 0 newsize then newsize else 4 in
      record v { vals = take n v.vals ++ replicate (n - length v.vals) junk; allocated = n }

  unfoldable pub reserve : ℕ → Vector A → Vector A
  unfolding realloc
  reserve newsize v = realloc newsize v

  unfoldable pub resize : ℕ → A → Vector A → Vector A
  resize newsize fill v =
      let roomy = if ltb v.allocated newsize then realloc newsize v else v in
      if ltb roomy.size newsize
      then record roomy {
        vals = fill_cells (newsize - roomy.size) roomy.size fill roomy.vals;
        size = newsize;
      }
      else record roomy { size = newsize }

  unfoldable pub shrink_to_fit : Vector A → Vector A
  shrink_to_fit v = if ltb 4 v.size then realloc v.size v else v

  unfoldable pub push_back : A → Vector A → Vector A
  push_back x v =
      let roomy = if leb v.allocated v.size then realloc (v.size * 2) v else v in
      record roomy { vals = set roomy.vals roomy.size x; size = roomy.size + 1 }

  -- `for (i = _size - 1; i > idx; i--) _vals[i] = _vals[i - 1];`
  unfoldable pub shift_up : ℕ → ℕ → List A → List A
  shift_up zero idx cells = cells
  shift_up (suc i) idx cells =
      let rest = shift_up i idx (set cells (suc i) (get_or cells i junk)) in
      if ltb idx (suc i) then rest else cells

  unfoldable pub insert : A → ℕ → A → Vector A → Vector A
  insert dflt idx x v =
      let grown = resize (v.size + 1) dflt v in
      record grown { vals = set (shift_up (grown.size - 1) idx grown.vals) idx x }

  -- `for (i = 0; i < v._size; i++) _vals[i] = v._vals[i];`, with the rounds left
  unfoldable pub copy_cells : ℕ → ℕ → List A → List A → List A
  copy_cells zero i source cells = cells
  copy_cells (suc n) i source cells =
      copy_cells n (i + 1) source (set cells i (get_or source i junk))

  unfoldable pub copy : A → Vector A → Vector A → Vector A
  copy dflt source v =
      let cleared = if ltb 0 v.size then resize 0 dflt v else v in
      let roomy =
        if ltb cleared.allocated source.size then realloc source.size cleared else cleared in
      record roomy { vals = copy_cells source.size 0 source.vals roomy.vals; size = source.size }
