-- ===== src/Array.antt =====
-- `SQArray` (Squirrel3/squirrel/sqarray.h, sqobject.cpp) over `sqvector`, and the array functions
-- of the C API (Squirrel3/squirrel/sqapi.cpp) behind their argument checks.
-- `realval` is the macro `_realval`, which reads through a weak reference; `dflt` is a null object.
pub mod Spec
pub mod Laws
pub mod Loops
pub mod Refine
pub mod Tests
use squirrel_gobject.Prelude.{
  ℕ, zero, suc, ◌+◌, ◌-◌, ◌/◌, ltb, leb, if◌then◌else◌, Bool, true, false, ◌&&◌, ◌||◌, not, Option,
  none, some, List, [], ◌∷◌, get_or, set,
}
use squirrel_gobject.Prelude.Int.{ℤ, pos, is_neg, nonneg}
use squirrel_gobject.Vector
use squirrel_gobject.Vector.{Vector, pred64}

-- What a call answers: SQ_OK with a value, or the message of the error that it raises.
pub data Reply {ℓ} (A : Type ℓ) : Type ℓ where
  done : Reply A
  value : A → Reply A
  entry : ℕ → A → ℕ → Reply A
  no_more : Reply A
  missing : Reply A
  out_of_range : Reply A
  negative_size : Reply A
  empty_array : Reply A

-- `TranslateIndex` of an iterator, null or an integer
unfoldable pub translate_index : Option ℕ → ℕ
translate_index none = 0
translate_index (some i) = i

-- What a script can ask of an array.
pub data Op {ℓ} (A : Type ℓ) : Type ℓ where
  get_op : ℤ → Op A
  set_op : ℤ → A → Op A
  next_op : Option ℕ → Op A
  append_op : A → Op A
  extend_op : Op A
  pop_op : Op A
  resize_op : ℤ → Op A
  insert_op : ℤ → A → Op A
  remove_op : ℤ → Op A
  reverse_op : Op A
  clone_op : Op A

-- `nidx >= 0 && nidx < (SQInteger)_values.size()`
abbrev pub in_range : ℤ → ℕ → Bool
in_range i n = not (is_neg i) && ltb (nonneg i) n

-- The array that `Extend` reads: with no `source` it is the array itself.
abbrev pub read_from {ℓ} : {A : Type ℓ} → Option (Vector A) → Vector A → Vector A
read_from none v = v
read_from (some a) v = a

module _ {ℓ} {A : Type ℓ} where
  unfoldable pub set_value : ℤ → A → Vector A → Vector A × Reply A
  set_value i x v =
      if in_range i v.size
      then (record v { vals = set v.vals (nonneg i) x }, done)
      else (v, missing)

module _ {ℓ} {A : Type ℓ} (junk : A) where
  unfoldable pub shrink_if_needed : Vector A → Vector A
  shrink_if_needed v = if leb v.size (v.allocated / 4) then Vector.shrink_to_fit junk v else v

  unfoldable pub resize : ℕ → A → Vector A → Vector A
  unfolding shrink_if_needed
  resize n fill v = shrink_if_needed (Vector.resize junk n fill v)

  unfoldable pub append : A → Vector A → Vector A
  append x v = Vector.push_back junk x v

  -- `for (i = 0; i < xlen; i++) Append(a->_values[i]);`, with the rounds left.
  unfoldable pub extend_loop : ℕ → ℕ → Option (Vector A) → Vector A → Vector A
  unfolding append
  extend_loop zero i source v = v
  extend_loop (suc n) i source v =
      let from = read_from source v in
      extend_loop n (i + 1) source (append (get_or from.vals i junk) v)

  unfoldable pub extend : Option (Vector A) → Vector A → Vector A
  unfolding extend_loop
  extend source v = let from = read_from source v in extend_loop from.size 0 source v

  -- `_values[_size - 1]`
  unfoldable pub top : Vector A → A
  unfolding pred64
  top v = get_or v.vals (pred64 v.size) junk

  unfoldable pub pop : Vector A → Vector A
  unfolding shrink_if_needed
  pop v = shrink_if_needed (Vector.pop_back v)

  unfoldable pub remove : ℤ → Vector A → Vector A × Bool
  unfolding shrink_if_needed
  remove i v =
      if is_neg i || leb v.size (nonneg i)
      then (v, false)
      else (shrink_if_needed (Vector.remove (nonneg i) v), true)

  -- `sq_arraypop`
  unfoldable pub array_pop : Vector A → Vector A × Reply A
  unfolding pop top
  array_pop v = if ltb 0 v.size then (pop v, value (top v)) else (v, empty_array)

  unfoldable pub array_remove : ℤ → Vector A → Vector A × Reply A
  unfolding remove
  array_remove i v = let (w, inside) = remove i v in (w, if inside then done else out_of_range)

  -- the swaps of `sq_arrayreverse`, with the rounds left; `last` is `size` after `size -= 1`
  unfoldable pub reverse_loop : ℕ → ℕ → ℕ → List A → List A
  reverse_loop zero i last cells = cells
  reverse_loop (suc n) i last cells =
      let t = get_or cells i junk in
      let moved = set cells i (get_or cells (last - i) junk) in
      reverse_loop n (i + 1) last (set moved (last - i) t)

  unfoldable pub array_reverse : Vector A → Vector A
  unfolding reverse_loop
  array_reverse v =
      if ltb 0 v.size
      then record v { vals = reverse_loop (v.size / 2) 0 (v.size - 1) v.vals }
      else v

module _ {ℓ} {A : Type ℓ} (junk dflt : A) where
  unfoldable pub insert : ℤ → A → Vector A → Vector A × Bool
  insert i x v =
      if is_neg i || ltb v.size (nonneg i)
      then (v, false)
      else (Vector.insert junk dflt (nonneg i) x v, true)

  unfoldable pub clone : Vector A → Vector A
  clone v = Vector.copy junk dflt v Vector.empty

  unfoldable pub finalize : Vector A → Vector A
  finalize v = Vector.resize junk 0 dflt v

  -- `sq_arrayresize`
  unfoldable pub array_resize : ℤ → Vector A → Vector A × Reply A
  unfolding resize
  array_resize n v = if is_neg n then (v, negative_size) else (resize junk (nonneg n) dflt v, done)

  -- `sq_arrayinsert`, `sq_arrayremove`
  unfoldable pub array_insert : ℤ → A → Vector A → Vector A × Reply A
  unfolding insert
  array_insert i x v = let (w, inside) = insert i x v in (w, if inside then done else out_of_range)

module _ {ℓ} {A : Type ℓ} (junk : A) (realval : A → A) where
  unfoldable pub get : ℤ → Vector A → Reply A
  get i v = if in_range i v.size then value (realval (get_or v.vals (nonneg i) junk)) else missing

  -- the index, the value and where the next call goes on; the body of the loop always returns
  unfoldable pub next : Option ℕ → Vector A → Reply A
  unfolding translate_index
  next refpos v =
      let idx = translate_index refpos in
      if ltb idx v.size then entry idx (realval (get_or v.vals idx junk)) (idx + 1) else no_more

module _ {ℓ} {A : Type ℓ} (junk dflt : A) (realval : A → A) where
  unfoldable pub step : Op A → Vector A → Vector A × Reply A
  unfolding get set_value next append extend array_pop array_resize array_insert array_remove
      array_reverse clone
  step (get_op i) v = (v, get junk realval i v)
  step (set_op i x) v = set_value i x v
  step (next_op p) v = (v, next junk realval p v)
  step (append_op x) v = (append junk x v, done)
  step extend_op v = (extend junk none v, done)
  step pop_op v = array_pop junk v
  step (resize_op n) v = array_resize junk dflt n v
  step (insert_op i x) v = array_insert junk dflt i x v
  step (remove_op i) v = array_remove junk i v
  step reverse_op v = (array_reverse junk v, done)
  step clone_op v = (clone junk dflt v, done)

  -- The calls in order, with their replies.
  unfoldable pub run : List (Op A) → Vector A → Vector A × List (Reply A)
  unfolding step
  run [] v = (v, [])
  run (o ∷ ops) v = let (w, r) = step o v in let (u, rs) = run ops w in (u, r ∷ rs)
