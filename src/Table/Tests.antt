-- ===== src/Table/Tests.antt =====
-- The table at concrete inputs: keys are numbers, and their own hash.
use squirrel_gobject.Prelude.{
  ◌⊎◌, ◌<◌, ℕ, ◌+◌, ◌≤◌, ◌≡◌, ◌≢◌, ◌↔◌, refl, Bool, true, false, ◌==◌, ==→eq, eq→==, Option, none,
  some, [], ◌∷◌, ap,
}
use squirrel_gobject.Table.{
  next, Table, Key, blank, create, new_slot, get, get_node, set_value, remove, settle, place,
  rehash_size,
}
use mathlib.Core.Path.{subst}
use squirrel_gobject.Table.Slot.{slot}
use squirrel_gobject.Table.Find.{ky, vl}
use squirrel_gobject.Table.Iterate.{next_lem}
use squirrel_gobject.Table.Valid.{IsValid, Has, get_lem}
use squirrel_gobject.Table.Stores.{Stores, new_slot-absent, new_slot-present, set_value_lem}
use squirrel_gobject.Table.Remove.{Removes, create_lem, remove-Removes}

unfoldable same : Option ℕ → Option ℕ → Bool
same none none = true
same none (some b) = false
same (some a) none = false
same (some a) (some b) = a == b

same_iff : (a b : Option ℕ) → (same a b ≡ true) ↔ (a ≡ b)
unfolding same
same_iff none none = (λ _. refl, λ _. refl)
same_iff none (some b) = (λ e. cc e, λ e. cc e)
same_iff (some a) none = (λ e. cc e, λ e. cc e)
same_iff (some a) (some b) = (λ e. ap some (==→eq a b e), λ e. eq→== a b (cc e))

unfoldable hash : Option ℕ → ℕ
hash none = 0
hash (some k) = k

abbrev keys : Key ℕ
keys = record { same = same; same_iff = same_iff; hash = hash }

abbrev new : Table ℕ ℕ
new = create 0 3

-- 1, 5 and 9 have the same main position among four nodes.
abbrev one : Table ℕ ℕ
one = record new {
  nodes = blank 0 ∷ record { val = 11; key = some 1; next = none } ∷ blank 0 ∷ blank 0 ∷ [];
  usednodes = 1;
}

abbrev two : Table ℕ ℕ
two = record new {
  nodes =
      blank 0
      ∷ record { val = 11; key = some 1; next = some 3 }
      ∷ blank 0
      ∷ record { val = 55; key = some 5; next = none }
      ∷ [];
  firstfree = 2;
  usednodes = 2;
}

abbrev five_wide : Table ℕ ℕ
five_wide = create 0 5

one_stored : new_slot keys 0 1 1 11 new ≡ some (one, true)
unfolding new_slot create same slot hash
one_stored = refl

two_stored : new_slot keys 0 1 5 55 one ≡ some (two, true)
unfolding new_slot create same slot hash
two_stored = refl

new-IsValid : IsValid keys 0 new
new-IsValid = (create_lem keys 0 3).0

one-IsValid : IsValid keys 0 one
unfolding create get_node settle place same slot hash
one-IsValid =
    let (t', e, s, _) = new_slot-absent keys 0 new 1 11 0 3 new-IsValid refl refl in
    subst (IsValid keys 0) (cc (e, one_stored)) s.valid

new_slot-absent_example :
    (t' : Table ℕ ℕ) × (new_slot keys 0 1 5 55 one ≡ some (t', true))
    × Stores keys 0 one 5 55 t'
    × (t'.usednodes ≡ 2)
unfolding create get_node settle place same slot hash
new_slot-absent_example = new_slot-absent keys 0 one 5 55 0 2 one-IsValid refl refl

two-IsValid : IsValid keys 0 two
two-IsValid =
    let (t', e, s, _) = new_slot-absent_example in
    subst (IsValid keys 0) (cc (e, two_stored)) s.valid

five_found : get_node keys 0 (some 5) two ≢ none
unfolding get_node same slot hash create
five_found e = cc e

one_found : get_node keys 0 (some 1) two ≡ some 1
unfolding get_node same slot hash create
one_found = refl

new_slot-present_example :
    (t' : Table ℕ ℕ) × (new_slot keys 0 1 5 66 two ≡ some (t', false))
    × Stores keys 0 two 5 66 t'
    × (t'.usednodes ≡ 2)
new_slot-present_example = new_slot-present keys 0 two 5 66 0 two-IsValid five_found

set_value_lem_example :
    ((get_node keys 0 (some 5) two ≡ none) → set_value keys 0 (some 5) 66 two ≡ (two, false))
    × ((get_node keys 0 (some 5) two ≢ none)
        → ((set_value keys 0 (some 5) 66 two).1 ≡ true)
          × Stores keys 0 two 5 66 (set_value keys 0 (some 5) 66 two).0)
set_value_lem_example = set_value_lem keys 0 two 5 66 two-IsValid

remove-Removes_example :
    (t' : Table ℕ ℕ) × (remove keys 0 1 1 two ≡ some t') × Removes keys 0 two 1 t'
unfolding rehash_size create
remove-Removes_example = remove-Removes keys 0 1 two 1 1 two-IsValid one_found refl

get_lem_example :
    (get keys 0 (λ x. x + 1) (some 5) two ≡ some 56) ↔ ((v : ℕ) × Has keys 0 two 5 v × (v + 1 ≡ 56))
get_lem_example = get_lem keys 0 two two-IsValid 5 (λ x. x + 1) 56

abbrev last_answer : Option (Table ℕ ℕ × Bool) → Option Bool
last_answer none = none
last_answer (some r) = some r.1

abbrev three : Table ℕ ℕ
three = record new {
  nodes =
      blank 0
      ∷ record { val = 11; key = some 1; next = some 3 }
      ∷ record { val = 22; key = some 2; next = none }
      ∷ record { val = 55; key = some 5; next = none }
      ∷ [];
  firstfree = 0;
  usednodes = 3;
}

-- A fourth key in a table of four nodes is new, but the answer is that of a key that is there.
fourth_key : last_answer (new_slot keys 0 2 4 44 three) ≡ some false
unfolding new_slot same slot hash create
fourth_key = refl

fourth_key_new : get_node keys 0 (some 4) three ≡ none
unfolding get_node same slot hash create
fourth_key_new = refl

null_key_written : (set_value keys 0 none 7 new).1 ≡ true
unfolding set_value create same slot hash
null_key_written = refl

null_key_lost : get keys 0 (λ x. x) none (set_value keys 0 none 7 new).0 ≡ none
unfolding set_value get create same slot hash
null_key_lost = refl

next_lem_example :
    ((next (λ x. x) 2 two ≡ none) × ((p : ℕ) → 2 ≤ p → ky 0 two.nodes p ≡ none))
    ⊎ ((p : ℕ) × (k : ℕ) × (2 ≤ p)
        × (ky 0 two.nodes p ≡ some k)
        × (next (λ x. x) 2 two ≡ some (k, vl 0 two.nodes p, p + 1))
        × ((q : ℕ) → 2 ≤ q → q < p → ky 0 two.nodes q ≡ none))
next_lem_example = next_lem 0 (λ x. x) 2 two

next_of_two : next (λ x. x) 2 two ≡ some (5, 55, 4)
unfolding next create
next_of_two = refl
