-- ===== src/Vector/Tests.antt =====
-- The vector operations at concrete inputs.
use squirrel_gobject.Prelude.{ℕ, ◌≡◌, refl, arith, [], ◌∷◌}
use squirrel_gobject.Vector.{Vector, IsValid, contents, push_back, resize, insert, remove}
use squirrel_gobject.Vector.Laws.{push_back_lem, resize_lem}
use squirrel_gobject.Vector.Shift.{insert_lem, remove_lem}

-- a full block of two objects, and a block of six cells with five objects
abbrev full : Vector ℕ
full = record { vals = 1 ∷ 2 ∷ []; size = 2; allocated = 2 }

abbrev five : Vector ℕ
five = record { vals = 1 ∷ 2 ∷ 3 ∷ 4 ∷ 5 ∷ 99 ∷ []; size = 5; allocated = 6 }

full-IsValid : IsValid full
full-IsValid = record { block = refl; fits = omega arith }

five-IsValid : IsValid five
five-IsValid = record { block = refl; fits = omega arith }

push_back_lem_example :
    IsValid (push_back 99 3 full) × (contents (push_back 99 3 full) ≡ 1 ∷ 2 ∷ 3 ∷ [])
push_back_lem_example = push_back_lem 99 3 full full-IsValid

resize_lem_example :
    IsValid (resize 99 4 0 full) × (contents (resize 99 4 0 full) ≡ 1 ∷ 2 ∷ 0 ∷ 0 ∷ [])
resize_lem_example = resize_lem 99 4 0 full full-IsValid

insert_lem_example :
    IsValid (insert 99 0 1 7 full) × (contents (insert 99 0 1 7 full) ≡ 1 ∷ 7 ∷ 2 ∷ [])
insert_lem_example = insert_lem 99 0 1 7 full full-IsValid (omega arith)

remove_lem_example : IsValid (remove 1 five) × (contents (remove 1 five) ≡ 1 ∷ 3 ∷ 4 ∷ 5 ∷ [])
remove_lem_example = remove_lem 1 five five-IsValid (omega arith)

remove_last : contents (remove 4 five) ≡ 1 ∷ 2 ∷ 3 ∷ 4 ∷ []
unfolding remove
remove_last = refl
