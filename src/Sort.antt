-- ===== src/Sort.antt =====
-- `array.sort` (Squirrel3/squirrel/sqbaselib.cpp): the heap sort of an array in place.
-- `call` is what compares two objects: the script's function and the conversion of its answer to a
-- number, or `ObjCmp` where the script gives no function (`has_func` is false). It may change the
-- array and the rest of the machine, and gives no number where it raises an error. A cell that is
-- read outside of the array, which a metamethod that cuts the array can lead to, is `junk`.
pub mod Laws
pub mod Tests
use squirrel_gobject.Prelude.{
  ℕ, zero, suc, ◌+◌, ◌-◌, ◌*◌, ◌/◌, ◌==◌, ltb, if◌then◌else◌, Bool, not, ◌&&◌, ◌||◌, Option, none,
  some, List, length, get_or, set,
}
use squirrel_gobject.Prelude.Int.{ℤ, is_neg, nonneg}

-- The array, the address of its block of cells, and the rest of the machine.
pub record Store (A S : Type 0) : Type 0 where
  pub values : List A
  pub block : ℕ
  pub rest : S

-- How a part of the sort ends: `true`, `false` with an error raised, `false` with the error that
-- the array was resized, or the fuel of the model.
pub data Outcome : Type 0 where
  sorted : Outcome
  failed : Outcome
  array_resized : Outcome
  out_of_fuel : Outcome

-- What comes of a comparison, in the same way.
pub data Compared (A : Type 0) : Type 0 where
  said : A → Compared A
  raised : Compared A
  resized : Compared A

module _ {A : Type 0} (junk : A) where
  -- `_Swap(arr->_values[i], arr->_values[j])`
  unfoldable pub swap : ℕ → ℕ → List A → List A
  swap i j cells = set (set cells i (get_or cells j junk)) j (get_or cells i junk)

module _ {A S : Type 0} where
  -- `precallsize != arr->_values.size() || valptr != arr->_values._vals`
  abbrev pub changed : Store A S → Store A S → Bool
  changed before after =
      not (length before.values == length after.values) || not (before.block == after.block)

  -- `_sort_compare`, behind the call
  abbrev pub checked : Bool → Store A S → Option ℤ × Store A S → Compared ℤ × Store A S
  checked has_func before (none, after) = (raised, after)
  checked has_func before (some ret, after) =
      if has_func && changed before after then (resized, after) else (said ret, after)

  -- the choice of `maxChild` by a comparison
  abbrev pub larger_child : ℕ → Compared ℤ × Store A S → Compared ℕ × Store A S
  larger_child root2 (said ret, st) = (said (if ltb 0 (nonneg ret) then root2 else root2 + 1), st)
  larger_child root2 (raised, st) = (raised, st)
  larger_child root2 (resized, st) = (resized, st)

  -- what follows a part of the sort, unless it has failed
  abbrev pub then_next :
      Store A S × Outcome → (Store A S → Store A S × Outcome) → Store A S × Outcome
  then_next (st, sorted) next = next st
  then_next (st, failed) next = (st, failed)
  then_next (st, array_resized) next = (st, array_resized)
  then_next (st, out_of_fuel) next = (st, out_of_fuel)

module _ {A S : Type 0} (junk : A) (has_func : Bool)
    (call : A → A → Store A S → Option ℤ × Store A S) where
  abbrev pub swap_cells : ℕ → ℕ → Store A S → Store A S
  swap_cells i j st = record st { values = swap junk i j st.values }

  -- `_sort_compare(v, arr, arr->_values[i], arr->_values[j], func, ret)`
  unfoldable pub sort_compare : ℕ → ℕ → Store A S → Compared ℤ × Store A S
  sort_compare i j st =
      checked has_func st (call (get_or st.values i junk) (get_or st.values j junk) st)

  -- the choice of `maxChild`
  unfoldable pub max_child : ℕ → ℕ → Store A S → Compared ℕ × Store A S
  unfolding sort_compare
  max_child root2 bottom st =
      if root2 == bottom
      then (said root2, st)
      else larger_child root2 (sort_compare root2 (root2 + 1) st)

  -- the loop's body behind the comparison of a node with its larger child
  unfoldable pub exchange :
      (ℕ → Store A S → Store A S × Outcome) → ℕ → ℕ → Compared ℤ × Store A S → Store A S × Outcome
  unfolding swap
  exchange deeper root child (said ret, st) =
      if is_neg ret
      then if root == child then (st, failed) else deeper child (swap_cells root child st)
      else (st, sorted)
  exchange deeper root child (raised, st) = (st, failed)
  exchange deeper root child (resized, st) = (st, array_resized)

  -- the loop's body behind the choice of `maxChild`
  unfoldable pub below :
      (ℕ → Store A S → Store A S × Outcome) → ℕ → Compared ℕ × Store A S → Store A S × Outcome
  unfolding exchange sort_compare
  below deeper root (said child, st) = exchange deeper root child (sort_compare root child st)
  below deeper root (raised, st) = (st, failed)
  below deeper root (resized, st) = (st, array_resized)

  -- `_hsort_sift_down`
  unfoldable pub sift_down : ℕ → ℕ → ℕ → Store A S → Store A S × Outcome
  unfolding max_child below
  sift_down zero root bottom st = (st, out_of_fuel)
  sift_down (suc f) root bottom st =
      if ltb bottom (root * 2)
      then (st, sorted)
      else below (λ child now. sift_down f child bottom now) root (max_child (root * 2) bottom st)

  -- `for (i = (array_size / 2); i >= 0; i--)`, with `bottom` for `array_size - 1`
  unfoldable pub build_heap : ℕ → ℕ → Store A S → Store A S × Outcome
  unfolding sift_down
  build_heap zero bottom st = sift_down (bottom + 2) 0 bottom st
  build_heap (suc i) bottom st =
      then_next (sift_down (bottom + 2) (suc i) bottom st) (λ now. build_heap i bottom now)

  -- `for (i = array_size-1; i >= 1; i--)`
  unfoldable pub extract : ℕ → Store A S → Store A S × Outcome
  unfolding sift_down swap
  extract zero st = (st, sorted)
  extract (suc i) st =
      then_next (sift_down (i + 2) 0 i (swap_cells 0 (suc i) st)) (λ now. extract i now)

  -- `_hsort`
  unfoldable pub hsort : Store A S → Store A S × Outcome
  unfolding build_heap extract
  hsort st =
      let size = length st.values in
      then_next (build_heap (size / 2) (size - 1) st) (λ now. extract (size - 1) now)

  -- `array_sort`
  unfoldable pub array_sort : Store A S → Store A S × Outcome
  unfolding hsort
  array_sort st = if ltb 1 (length st.values) then hsort st else (st, sorted)
