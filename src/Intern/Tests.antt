-- ===== src/Intern/Tests.antt =====
-- The table of strings at concrete inputs.
use squirrel_gobject.Prelude.{
  ℕ, ◌≡◌, ◌⊎◌, inl, inr, refl, arith, if◌then◌else◌, Bool-cases, none, some, List, [], ◌∷◌, get_or,
}
use squirrel_gobject.Prelude.Chars.{same_text}
use squirrel_gobject.Table.Slot.{slot}
use squirrel_gobject.Intern.Strings.{
  SqString, StringTable, hashstr, new_table, alloc_nodes, add, link, remove, lookup, find_string,
}
use squirrel_gobject.Intern.Rehash.{empty-Chains}
use squirrel_gobject.Intern.Laws.{IsTable, add_lem}
use squirrel_gobject.Intern.Remove.{lookup-remove}

new-IsTable : IsTable new_table
unfolding new_table
new-IsTable = record { chains = empty-Chains 4 (omega arith); positive = omega arith }

abbrev ab : List ℕ
ab = 97 ∷ 98 ∷ []

abbrev one : StringTable
one = (add 1000 ab new_table).1

abbrev string_ab : SqString
string_ab = record { address = 1000; val = ab; hash = hashstr ab }

add_lem_example :
    IsTable one
    × ((add 1000 ab new_table).0.val ≡ ab)
    × ((lookup ab new_table ≡ none) ⊎ (lookup ab new_table ≡ some (add 1000 ab new_table).0))
    × ((v : List ℕ)
        → lookup v one
          ≡ (if same_text v ab then some (add 1000 ab new_table).0 else lookup v new_table))
add_lem_example = add_lem 1000 ab new_table new-IsTable

-- The same bytes are the same string.
interned : (add 2000 ab one).0.address ≡ 1000
unfolding add new_table hashstr link alloc_nodes slot
interned = refl

one_chain : get_or one.strings (slot (hashstr ab) one.numofslots) [] ≡ string_ab ∷ []
unfolding add new_table hashstr link alloc_nodes slot
one_chain = refl

alone : (v : List ℕ) (s : SqString) → find_string v (string_ab ∷ []) ≡ some s → s ≡ string_ab
alone v s e = elim (Bool-cases (same_text v ab)) [
  | inl t ↦ cc (rw t at e)
  | inr t ↦ absurd (cc (rw t at e))
]

lookup-remove_example :
    IsTable (remove string_ab one)
    × ((v : List ℕ)
        → lookup v (remove string_ab one) ≡ (if same_text v ab then none else lookup v one))
unfolding add new_table hashstr link alloc_nodes slot
lookup-remove_example =
    lookup-remove string_ab one (add_lem 1000 ab new_table new-IsTable).0 refl
      (λ v s e q. alone v s e)
