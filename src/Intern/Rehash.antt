-- ===== src/Intern/Rehash.antt =====
-- The loops of `Resize`: every string is found in the new chains as it was in the old ones.
use squirrel_gobject.Prelude.{
  ℕ, suc, ◌+◌, ◌-◌, ◌<◌, ◌≡◌, ◌⊎◌, inl, inr, refl, sym, ap, ◌∙◌, ltb, ◌==◌, if◌then◌else◌,
  Bool-cases, Option, none, some, List, [], ◌∷◌, get_or, arith, length-replicate, get_or-replicate,
  ==→eq, ltb→lt, ltb→le, lt→ltb, le→ltb,
}
use mathlib.Core.Path.{subst}
use squirrel_gobject.Prelude.Chars.{same_text}
use squirrel_gobject.Prelude.Texts.{same_text-eq, same_text_refl}
use squirrel_gobject.Table.Slot.{slot}
use squirrel_gobject.Intern.Strings.{
  SqString, hashstr, find_string, link, link_chain, link_chains, alloc_nodes,
}
use squirrel_gobject.Intern.Lookup.{
  InOrder, Chains, find_in, or_else, find_string-elsewhere, link_lem,
}

-- No bytes have a string in both.
abbrev Apart : ℕ → List SqString → List (List SqString) → Type 0
Apart size c strings = (v : List ℕ) → (find_string v c ≡ none) ⊎ (find_in size strings v ≡ none)

or_else-none : (o : Option SqString) → or_else o none ≡ o
or_else-none (some s) = refl
or_else-none none = refl

module _ (size : ℕ) (p : 0 < size) where
  later-Apart :
      (s : SqString) (c : List SqString) (strings after : List (List SqString))
      → find_string s.val c ≡ none
      → ((v : List ℕ)
          → find_in size after v ≡ (if same_text v s.val then some s else find_in size strings v))
      → Apart size (s ∷ c) strings
      → Apart size c after
  later-Apart s c strings after d f a v = elim (Bool-cases (same_text v s.val)) [
    | inl t ↦ inl (ap (λ y. find_string y c) (same_text-eq v s.val t) ∙ d)
    | inr t ↦ elim (a v) [ inl n ↦ inl (rw t at n) | inr n ↦ inr (f v ∙ rw t n) ]
  ]

  -- A chain in order goes into new chains where none of its strings is yet.
  link_chain_lem :
      (old i : ℕ) (c : List SqString) (strings : List (List SqString))
      → InOrder old i c
      → Chains size strings
      → Apart size c strings
      → Chains size (link_chain size c strings)
        × ((v : List ℕ)
            → find_in size (link_chain size c strings) v
              ≡ or_else (find_string v c) (find_in size strings v))
  link_chain_lem old i [] strings h ch a = (ch, λ v. refl)
  link_chain_lem old i (s ∷ c) strings (hs, b, d, r) ch a =
      let absent : find_in size strings s.val ≡ none = elim (a s.val) [
        | inl n ↦ absurd (cc (rw (same_text_refl s.val) at n))
        | inr n ↦ n
      ] in
      let (ch', f) = link_lem size s strings p ch hs absent in
      let after = link size s strings in
      let (done, g) = link_chain_lem old i c after r ch' (later-Apart s c strings after d f a) in
      (
        done,
        λ v. g v ∙ elim (Bool-cases (same_text v s.val)) [
          | inl t ↦
              let n : find_string v c ≡ none =
                ap (λ y. find_string y c) (same_text-eq v s.val t) ∙ d in
              rw (n, t) (f v ∙ rw t refl)
          | inr t ↦ rw t (ap (or_else (find_string v c)) (f v ∙ rw t refl))
        ],
      )

  -- The chains from the slot `i` of the old table on go into new chains that have the strings of
  -- the slots before.
  abbrev Before : ℕ → ℕ → List (List SqString) → Type 0
  Before old i strings = (v : List ℕ) → (slot (hashstr v) old < i) ⊎ (find_in size strings v ≡ none)

  abbrev from_slot : ℕ → ℕ → List (List SqString) → List (List SqString) → List ℕ → Option SqString
  from_slot old i rest strings v =
      let h = slot (hashstr v) old in
      if ltb h i then find_in size strings v else find_string v (get_or rest (h - i) [])

  Apart-Before :
      (old i : ℕ) (c : List SqString) (strings : List (List SqString))
      → InOrder old i c
      → Before old i strings
      → Apart size c strings
  Apart-Before old i c strings h b v = elim (b v) [
    | inl l ↦ inl (find_string-elsewhere old i c v h (λ e. omega (arith, e, l)))
    | inr n ↦ inr n
  ]

  next-Before :
      (old i : ℕ) (c : List SqString) (strings after : List (List SqString))
      → InOrder old i c
      → ((v : List ℕ) → find_in size after v ≡ or_else (find_string v c) (find_in size strings v))
      → Before old i strings
      → Before old (i + 1) after
  next-Before old i c strings after h f b v =
      let k = slot (hashstr v) old in
      elim (Bool-cases (ltb k (i + 1))) [
        | inl l ↦ inl (ltb→lt k (i + 1) l)
        | inr l ↦ elim (b v) [
          | inl m ↦ inl (omega (arith, m))
          | inr n ↦
              let none_here =
                find_string-elsewhere old i c v h (λ e. omega (arith, e, ltb→le k (i + 1) l)) in
              inr (f v ∙ rw (none_here, n) refl)
        ]
      ]

  one_slot :
      (old i : ℕ) (c : List SqString) (rest strings after : List (List SqString)) (v : List ℕ)
      → InOrder old i c
      → find_in size after v ≡ or_else (find_string v c) (find_in size strings v)
      → (slot (hashstr v) old < i) ⊎ (find_in size strings v ≡ none)
      → from_slot old (i + 1) rest after v ≡ from_slot old i (c ∷ rest) strings v
  one_slot old i c rest strings after v h f b =
      let k = slot (hashstr v) old in
      elim (Bool-cases (ltb k i)) [
        | inl l ↦
            let less = ltb→lt k i l in
            let here = find_string-elsewhere old i c v h (λ e. omega (arith, e, less)) in
            let l' = lt→ltb k (i + 1) (omega (arith, less)) in rw (l, l') (f ∙ rw here refl)
        | inr l ↦ elim (Bool-cases (k == i)) [
          | inl e ↦
              let q = ==→eq k i e in
              let l' = lt→ltb k (i + 1) (omega (arith, q)) in
              let zero_left : k - i ≡ 0 = omega (arith, q) in
              let free : find_in size strings v ≡ none = elim b [
                | inl m ↦ absurd (omega (arith, q, m))
                | inr n ↦ n
              ] in
              rw (l, l', zero_left) (f ∙ rw free (or_else-none (find_string v c)))
          | inr e ↦
              let more : i < k = ground (arith, l, e) in
              let l' = le→ltb k (i + 1) (omega (arith, more)) in
              let left : k - i ≡ suc (k - (i + 1)) = omega (arith, more) in rw (l, l', left) refl
        ]
      ]

  link_chains_lem :
      (old i : ℕ) (rest strings : List (List SqString))
      → ((j : ℕ) → InOrder old (i + j) (get_or rest j []))
      → Chains size strings
      → Before old i strings
      → Chains size (link_chains size rest strings)
        × ((v : List ℕ)
            → find_in size (link_chains size rest strings) v ≡ from_slot old i rest strings v)
  link_chains_lem old i [] strings h ch b = (ch, λ v. ends v (b v))
    where
      ends :
          (v : List ℕ)
          → (slot (hashstr v) old < i) ⊎ (find_in size strings v ≡ none)
          → find_in size strings v ≡ from_slot old i [] strings v
      ends v (inl l) = rw (lt→ltb (slot (hashstr v) old) i l) refl
      ends v (inr n) = elim (Bool-cases (ltb (slot (hashstr v) old) i)) [
        | inl l ↦ rw l refl
        | inr l ↦ rw l n
      ]
  link_chains_lem old i (c ∷ rest) strings h ch b =
      let z : i + 0 ≡ i = omega arith in
      let here : InOrder old i c = subst (λ n. InOrder old n c) z (h 0) in
      let after = link_chain size c strings in
      let (ch', f) = link_chain_lem old i c strings here ch (Apart-Before old i c strings here b) in
      let later = λ (j : ℕ).
        let e : i + suc j ≡ (i + 1) + j = omega arith in
        subst (λ n. InOrder old n (get_or rest j [])) e (h (suc j)) in
      let (done, g) =
        link_chains_lem old (i + 1) rest after later ch'
          (next-Before old i c strings after here f b) in
      (done, λ v. g v ∙ one_slot old i c rest strings after v here (f v) (b v))

  pub empty-Chains : Chains size (alloc_nodes size)
  unfolding alloc_nodes
  empty-Chains = record {
    slots = length-replicate size [];
    each = λ i. rw (get_or-replicate {A = List SqString} size i []) tt;
  }

  pub empty_lem : (v : List ℕ) → find_in size (alloc_nodes size) v ≡ none
  unfolding alloc_nodes
  empty_lem v = ap (find_string v) (get_or-replicate size (slot (hashstr v) size) [])

  -- All strings of the old chains are found in the new ones, and no others.
  pub rehash_lem :
      (old : ℕ) (strings : List (List SqString))
      → Chains old strings
      → Chains size (link_chains size strings (alloc_nodes size))
        × ((v : List ℕ)
            → find_in size (link_chains size strings (alloc_nodes size)) v ≡ find_in old strings v)
  rehash_lem old strings ch =
      let (done, f) =
        link_chains_lem old 0 strings (alloc_nodes size)
          (λ j.
            let z : 0 + j ≡ j = omega arith in
            subst (λ n. InOrder old n (get_or strings j [])) (sym z) (ch.each j))
          empty-Chains (λ v. inr (empty_lem v)) in
      (done, λ v. f v ∙ first v)
    where
      first : (v : List ℕ) → from_slot old 0 strings (alloc_nodes size) v ≡ find_in old strings v
      first v =
          let k = slot (hashstr v) old in
          let no = le→ltb k 0 (omega arith) in
          let whole : k - 0 ≡ k = omega arith in rw (no, whole) refl
