-- ===== src/Array/Tests.antt =====
-- The array calls at concrete inputs.
use squirrel_gobject.Prelude.{ℕ, ◌≡◌, refl, arith, none, some, List, [], ◌∷◌}
use squirrel_gobject.Prelude.Int.{pos, negsuc}
use squirrel_gobject.Vector.{Vector, IsValid, contents}
use squirrel_gobject.Array.{
  translate_index, Op, get_op, next_op, extend_op, pop_op, resize_op, insert_op, remove_op,
  reverse_op, done, value, entry, missing, out_of_range, negative_size, step, run, extend,
  array_reverse,
}
use squirrel_gobject.Array.Loops.{extend_lem, array_reverse_lem}
use squirrel_gobject.Array.Laws.{Holds}
use squirrel_gobject.Array.Spec.{with_value}
use squirrel_gobject.Array.Refine.{step-Refines, run-Refines}

abbrev three : Vector ℕ
three = record { vals = 1 ∷ 2 ∷ 3 ∷ 99 ∷ []; size = 3; allocated = 4 }

three-IsValid : IsValid three
three-IsValid = record { block = refl; fits = omega arith }

abbrev calls : List (Op ℕ)
calls =
    remove_op (pos 1)
    ∷ insert_op (pos 2) 8
    ∷ insert_op (pos 9) 8
    ∷ extend_op
    ∷ reverse_op
    ∷ pop_op
    ∷ get_op (negsuc 0)
    ∷ next_op (some 1)
    ∷ []

run-Refines_example :
    (contents (run 99 0 (λ x. x) calls three).0 ≡ 8 ∷ 3 ∷ 1 ∷ 8 ∷ 3 ∷ [])
    × ((run 99 0 (λ x. x) calls three).1
        ≡ done ∷ done ∷ out_of_range ∷ done ∷ done ∷ value 1 ∷ missing ∷ entry 1 3 2 ∷ [])
unfolding with_value translate_index
run-Refines_example = run-Refines 99 0 (λ x. x) calls three three-IsValid

step-Refines_example :
    Holds (1 ∷ 2 ∷ []) (step 99 0 (λ x. x) (resize_op (pos 2)) three).0
    × ((step 99 0 (λ x. x) (resize_op (pos 2)) three).1 ≡ done)
step-Refines_example = step-Refines 99 0 (λ x. x) (resize_op (pos 2)) three three-IsValid

extend_lem_example :
    IsValid (extend 99 none three) × (contents (extend 99 none three) ≡ 1 ∷ 2 ∷ 3 ∷ 1 ∷ 2 ∷ 3 ∷ [])
extend_lem_example = extend_lem 99 none three three-IsValid three-IsValid

array_reverse_lem_example :
    IsValid (array_reverse 99 three)
    × (contents (array_reverse 99 three) ≡ 3 ∷ 2 ∷ 1 ∷ [])
    × ((array_reverse 99 three).size ≡ 3)
array_reverse_lem_example = array_reverse_lem 99 three three-IsValid

negative_resize : (step 99 0 (λ x. x) (resize_op (negsuc 4)) three).1 ≡ negative_size
unfolding step
negative_resize = refl
