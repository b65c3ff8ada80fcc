-- ===== src/Intern/Lookup.antt =====
-- Tables in order, and what a table has for some bytes.
use squirrel_gobject.Prelude.{
  ℕ, ◌<◌, ◌≡◌, ◌≢◌, inl, inr, refl, sym, ap, ◌∙◌, ◌==◌, if◌then◌else◌, Bool-cases, Option, none,
  some, List, [], ◌∷◌, length, get_or, arith, get_or-set, length-set, ==→eq, eq→==,
}
use mathlib.Core.Path.{subst}
use squirrel_gobject.Prelude.Chars.{same_text}
use squirrel_gobject.Prelude.Texts.{same_text-eq}
use squirrel_gobject.Table.Slot.{slot, slot-lt}
use squirrel_gobject.Intern.Strings.{SqString, hashstr, find_string, link}

-- A chain in order: its strings have the hash of their bytes and belong in slot `i` of `size`, and no two of
-- them have the same bytes.
abbrev pub InOrder : ℕ → ℕ → List SqString → Type 0
InOrder size i [] = Unit
InOrder size i (s ∷ rest) =
    (s.hash ≡ hashstr s.val)
    × (slot s.hash size ≡ i)
    × (find_string s.val rest ≡ none)
    × InOrder size i rest

-- All chains in order.
pub record Chains (size : ℕ) (strings : List (List SqString)) : Type 0 where
  pub slots : length strings ≡ size
  pub each : (i : ℕ) → InOrder size i (get_or strings i [])

-- the chain and the string for some bytes among `size` chains
abbrev pub find_in : ℕ → List (List SqString) → List ℕ → Option SqString
find_in size strings v = find_string v (get_or strings (slot (hashstr v) size) [])

abbrev pub or_else : Option SqString → Option SqString → Option SqString
or_else (some s) o = some s
or_else none o = o

pub find_string-InOrder :
    (size i : ℕ) (c : List SqString) (v : List ℕ) (s : SqString)
    → InOrder size i c
    → find_string v c ≡ some s
    → (v ≡ s.val) × (slot (hashstr v) size ≡ i)
find_string-InOrder size i [] v s h e = absurd (cc e)
find_string-InOrder size i (x ∷ c) v s (a, b, d, r) e = elim (Bool-cases (same_text v x.val)) [
  | inl t ↦
      let q = same_text-eq v x.val t in
      let p : x ≡ s = cc (rw t at e) in
      (q ∙ ap (λ y. y.val) p, ap (λ y. slot (hashstr y) size) q ∙ sym (ap (λ h. slot h size) a) ∙ b)
  | inr t ↦ find_string-InOrder size i c v s r (rw t at e)
]

-- Bytes that belong elsewhere are not in the chain.
pub find_string-elsewhere :
    (size i : ℕ) (c : List SqString) (v : List ℕ)
    → InOrder size i c
    → slot (hashstr v) size ≢ i
    → find_string v c ≡ none
find_string-elsewhere size i c v h n = elsewhere (find_string v c) refl
  where
    elsewhere : (o : Option SqString) → find_string v c ≡ o → find_string v c ≡ none
    elsewhere (some s) e = absurd (n (find_string-InOrder size i c v s h e).1)
    elsewhere none e = e

-- A new string is the one that is found for its bytes, and nothing else changes.
pub link_lem :
    (size : ℕ) (s : SqString) (strings : List (List SqString))
    → 0 < size
    → Chains size strings
    → s.hash ≡ hashstr s.val
    → find_in size strings s.val ≡ none
    → Chains size (link size s strings)
      × ((v : List ℕ)
          → find_in size (link size s strings) v
            ≡ (if same_text v s.val then some s else find_in size strings v))
unfolding link
link_lem size s strings p ch hs absent =
    let h = slot s.hash size in
    let chain = get_or strings h [] in
    let inside : h < length strings = omega (arith, slot-lt s.hash size p, ch.slots) in
    let at = λ (j : ℕ). get_or-set strings h j (s ∷ chain) [] inside in
    let home : h ≡ slot (hashstr s.val) size = ap (λ x. slot x size) hs in
    let free : find_string s.val chain ≡ none =
      ap (λ n. find_string s.val (get_or strings n [])) home ∙ absent in
    (
      record {
        slots = length-set strings h (s ∷ chain) ∙ ch.slots;
        each = λ i. subst (InOrder size i) (sym (at i)) (elim (Bool-cases (h == i)) [
          | inl e ↦
              let q = ==→eq h i e in
              rw e (hs, q, free, subst (λ n. InOrder size n chain) q (ch.each h))
          | inr e ↦ rw e (ch.each i)
        ]);
      },
      λ v.
          let j = slot (hashstr v) size in
          ap (find_string v) (at j) ∙ (elim (Bool-cases (h == j)) [
            | inl e ↦ rw e (
                ap (λ n. if same_text v s.val then some s else find_string v (get_or strings n []))
                  (==→eq h j e))
            | inr e ↦ rw e (elim (Bool-cases (same_text v s.val)) [
              | inl t ↦
                  let q = home ∙ ap (λ y. slot (hashstr y) size) (sym (same_text-eq v s.val t)) in
                  absurd (cc (eq→== h j q, e))
              | inr t ↦ rw t refl
            ])
          ]),
    )
