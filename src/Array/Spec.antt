-- ===== src/Array/Spec.antt =====
-- What an array promises to a script: a finite sequence of values.
use squirrel_gobject.Prelude.{
  ◌+◌, ◌-◌, ltb, if◌then◌else◌, ◌||◌, Option, none, some, List, [], ◌∷◌, ◌++◌, length, take,
  replicate, get_elem?, set,
}
use squirrel_gobject.Prelude.Int.{ℤ, pos, negsuc, is_neg, nonneg}
use squirrel_gobject.Prelude.Segments.{insert_at, remove_at}
use squirrel_gobject.Array.{
  Reply, done, value, entry, no_more, missing, out_of_range, negative_size, empty_array, Op,
  translate_index,
}
use mathlib.Core.List.{reverse}

module _ {ℓ} {A : Type ℓ} where
  abbrev pub at : ℤ → List A → Option A
  at (pos i) xs = get_elem? xs i
  at (negsuc i) xs = none

  -- The answer where there is such a value, and the answer where there is none.
  unfoldable pub with_value {κ} : {B : Type κ} → Option A → (A → B) → B → B
  with_value none f b = b
  with_value (some x) f b = f x

module _ {ℓ} {A : Type ℓ} (dflt : A) (realval : A → A) where
  abbrev pub spec_step : Op A → List A → List A × Reply A
  spec_step (Op.get_op i) xs = with_value (at i xs) (λ x. (xs, value (realval x))) (xs, missing)
  spec_step (Op.set_op i x) xs =
      with_value (at i xs) (λ _. (set xs (nonneg i) x, done)) (xs, missing)
  spec_step (Op.next_op p) xs =
      let i = translate_index p in
      with_value (get_elem? xs i) (λ x. (xs, entry i (realval x) (i + 1))) (xs, no_more)
  spec_step (Op.append_op x) xs = (xs ++ x ∷ [], done)
  spec_step Op.extend_op xs = (xs ++ xs, done)
  spec_step Op.pop_op xs =
      let last = length xs - 1 in
      with_value (get_elem? xs last) (λ x. (take last xs, value x)) (xs, empty_array)
  spec_step (Op.resize_op n) xs =
      if is_neg n
      then (xs, negative_size)
      else (take (nonneg n) xs ++ replicate (nonneg n - length xs) dflt, done)
  spec_step (Op.insert_op i x) xs =
      if is_neg i || ltb (length xs) (nonneg i)
      then (xs, out_of_range)
      else (insert_at (nonneg i) x xs, done)
  spec_step (Op.remove_op i) xs =
      with_value (at i xs) (λ _. (remove_at (nonneg i) xs, done)) (xs, out_of_range)
  spec_step Op.reverse_op xs = (reverse xs, done)
  spec_step Op.clone_op xs = (xs, done)

  abbrev pub spec_run : List (Op A) → List A → List A × List (Reply A)
  spec_run [] xs = (xs, [])
  spec_run (o ∷ ops) xs =
      let (ys, r) = spec_step o xs in let (zs, rs) = spec_run ops ys in (zs, r ∷ rs)
