-- ===== src/Sort/Tests.antt =====
-- The sort at concrete inputs.
use squirrel_gobject.Prelude.{
  ℕ, suc, ◌≡◌, refl, inl, inr, ◌==◌, ltb, if◌then◌else◌, true, Bool-cases, Option, none, some, [],
  ◌∷◌,
}
use squirrel_gobject.Prelude.Int.{ℤ, pos, negsuc}
use squirrel_gobject.Sort.{Store, sorted, failed, array_resized, array_sort}
use squirrel_gobject.Sort.Laws.{Rearranges, Leaves, array_sort-Rearranges}

-- the order of numbers
unfoldable by_value : ℕ → ℕ → ℤ
by_value a b = if ltb a b then negsuc 0 else if a == b then pos 0 else pos 1

-- a comparison that counts its calls and raises an error when it meets 9
unfoldable fails_at_nine : ℕ → ℕ → Store ℕ ℕ → Option ℤ × Store ℕ ℕ
unfolding by_value
fails_at_nine a b st =
    (if a == 9 then none else some (by_value a b), record st { rest = suc st.rest })

abbrev numbers : Store ℕ ℕ
numbers = record { values = 5 ∷ 3 ∷ 9 ∷ 1 ∷ 5 ∷ 2 ∷ []; block = 80; rest = 0 }

fails_at_nine-Leaves : (a b : ℕ) (st : Store ℕ ℕ) → Leaves true st (fails_at_nine a b st)
unfolding fails_at_nine
fails_at_nine-Leaves a b st = elim (Bool-cases (a == 9)) [
  | inl e ↦ rw e refl
  | inr e ↦ rw e (inl refl)
]

array_sort-Rearranges_example :
    Rearranges (5 ∷ 3 ∷ 9 ∷ 1 ∷ 5 ∷ 2 ∷ []) (array_sort 0 true fails_at_nine numbers)
array_sort-Rearranges_example =
    array_sort-Rearranges 0 true fails_at_nine fails_at_nine-Leaves numbers

sorted_numbers :
    let r = array_sort {S = ℕ} 0 true (λ a b st. (some (by_value a b), st)) numbers in
    (r.0.values ≡ 1 ∷ 2 ∷ 3 ∷ 5 ∷ 5 ∷ 9 ∷ []) × (r.1 ≡ sorted)
unfolding array_sort by_value
sorted_numbers = (refl, refl)

stopped_at_nine : (array_sort 0 true fails_at_nine numbers).1 ≡ failed
unfolding array_sort fails_at_nine
stopped_at_nine = refl

-- A comparison by which nothing is equal to itself is found out.
inconsistent : (array_sort {S = ℕ} 0 true (λ a b st. (some (negsuc 0), st)) numbers).1 ≡ failed
unfolding array_sort
inconsistent = refl

-- A comparison that empties the array is found out.
emptied :
    (array_sort {S = ℕ} 0 true (λ a b st. (some (pos 0), record st { values = [] })) numbers).1
    ≡ array_resized
unfolding array_sort
emptied = refl
