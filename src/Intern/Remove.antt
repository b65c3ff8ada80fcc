-- ===== src/Intern/Remove.antt =====
-- What `Remove` does to the strings of the table.
use squirrel_gobject.Prelude.{
  ℕ, ◌<◌, ◌≡◌, inl, inr, refl, sym, ap, ◌∙◌, ◌==◌, if◌then◌else◌, false, Bool-cases, Option, none,
  some, List, [], ◌∷◌, length, get_or, arith, get_or-set, length-set, ==→eq, eq→==,
}
use mathlib.Core.Path.{subst}
use squirrel_gobject.Prelude.Chars.{same_text}
use squirrel_gobject.Prelude.Texts.{same_text-eq, same_text_refl}
use squirrel_gobject.Table.Slot.{slot, slot-lt}
use squirrel_gobject.Intern.Strings.{
  SqString, StringTable, hashstr, find_string, unlink, remove, lookup,
}
use squirrel_gobject.Intern.Lookup.{InOrder}
use squirrel_gobject.Intern.Laws.{IsTable}

-- No other string of the chain has the address of this one.
abbrev Alone : SqString → List SqString → Type 0
Alone bs c =
    (v : List ℕ) (s : SqString) → find_string v c ≡ some s → s.address ≡ bs.address → s ≡ bs

abbrev without : List ℕ → SqString → Option SqString → Option SqString
without v bs o = if same_text v bs.val then none else o

record Unlinked (size i : ℕ) (bs : SqString) (c c' : List SqString) : Type 0 where
  pub found : unlink bs c ≡ some c'
  pub order : InOrder size i c'
  pub rest : (v : List ℕ) → find_string v c' ≡ without v bs (find_string v c)

find_string-first : (x : SqString) (c : List SqString) → find_string x.val (x ∷ c) ≡ some x
find_string-first x c = rw (same_text_refl x.val) refl

unlink_first :
    (size i : ℕ) (bs : SqString) (c : List SqString)
    → InOrder size i (bs ∷ c)
    → Unlinked size i bs (bs ∷ c) c
unlink_first size i bs c (hs, b, d, r) = record {
  found = rw (eq→== bs.address bs.address refl) refl;
  order = r;
  rest = λ v. elim (Bool-cases (same_text v bs.val)) [
    | inl t ↦ rw t (ap (λ y. find_string y c) (same_text-eq v bs.val t) ∙ d)
    | inr t ↦ rw t refl
  ];
}

unlink_later :
    (size i : ℕ) (bs x : SqString) (c c' : List SqString)
    → InOrder size i (x ∷ c)
    → (x.address == bs.address) ≡ false
    → same_text bs.val x.val ≡ false
    → Unlinked size i bs c c'
    → Unlinked size i bs (x ∷ c) (x ∷ c')
unlink_later size i bs x c c' (hs, b, d, r) e n u =
    let other : same_text x.val bs.val ≡ false = elim (Bool-cases (same_text x.val bs.val)) [
      | inl t ↦
          let q = same_text-eq x.val bs.val t in
          absurd (cc (ap (same_text bs.val) q, same_text_refl bs.val, n))
      | inr t ↦ t
    ] in
    record {
      found = rw (e, u.found) refl;
      order = (hs, b, u.rest x.val ∙ rw (other, d) refl, u.order);
      rest = λ v. elim (Bool-cases (same_text v x.val)) [
        | inl t ↦
            let w : same_text v bs.val ≡ false =
              ap (λ y. same_text y bs.val) (same_text-eq v x.val t) ∙ other in
            rw (t, w) refl
        | inr t ↦ rw t (u.rest v)
      ];
    }

Alone-later :
    (size i : ℕ) (bs x : SqString) (c : List SqString)
    → InOrder size i (x ∷ c)
    → Alone bs (x ∷ c)
    → Alone bs c
Alone-later size i bs x c (hs, b, d, r) a v s e = elim (Bool-cases (same_text v x.val)) [
  | inl t ↦ absurd (cc (ap (λ y. find_string y c) (same_text-eq v x.val t), d, e))
  | inr t ↦ a v s (rw t e)
]

unlink_lem :
    (size i : ℕ) (bs : SqString) (c : List SqString)
    → InOrder size i c
    → Alone bs c
    → find_string bs.val c ≡ some bs
    → (c' : List SqString) × Unlinked size i bs c c'
unlink_lem size i bs [] h a f = absurd (cc f)
unlink_lem size i bs (x ∷ c) h a f = elim (Bool-cases (x.address == bs.address)) [
  | inl e ↦
      let q = a x.val x (find_string-first x c) (==→eq x.address bs.address e) in
      (
        c,
        subst (λ y. Unlinked size i bs (y ∷ c) c) (sym q)
            (unlink_first size i bs c (subst (λ y. InOrder size i (y ∷ c)) q h)),
      )
  | inr e ↦
      let n : same_text bs.val x.val ≡ false = elim (Bool-cases (same_text bs.val x.val)) [
        | inl t ↦
            let q : x ≡ bs = cc (rw t at f) in
            absurd (cc (eq→== x.address bs.address (ap (λ y. y.address) q), e))
        | inr t ↦ t
      ] in
      let (c', u) = unlink_lem size i bs c h.3 (Alone-later size i bs x c h a) (rw n at f) in
      (x ∷ c', unlink_later size i bs x c c' h e n u)
]

find_string-hash :
    (size i : ℕ) (c : List SqString) (v : List ℕ) (s : SqString)
    → InOrder size i c
    → find_string v c ≡ some s
    → s.hash ≡ hashstr s.val
find_string-hash size i [] v s h e = absurd (cc e)
find_string-hash size i (x ∷ c) v s (a, b, d, r) e = elim (Bool-cases (same_text v x.val)) [
  | inl t ↦ let q : x ≡ s = cc (rw t at e) in subst (λ y. y.hash ≡ hashstr y.val) q a
  | inr t ↦ find_string-hash size i c v s r (rw t at e)
]

-- Where the table is in order, has the string for its bytes and no other string of its chain has
-- its address, Remove leaves the table in order and takes out that string only: for its bytes there
-- is none, and for other bytes the table has what it had.
pub lookup-remove :
    (bs : SqString) (t : StringTable)
    → IsTable t
    → lookup bs.val t ≡ some bs
    → Alone bs (get_or t.strings (slot bs.hash t.numofslots) [])
    → IsTable (remove bs t)
      × ((v : List ℕ) → lookup v (remove bs t) ≡ (if same_text v bs.val then none else lookup v t))
unfolding remove
lookup-remove bs t w f a =
    let size = t.numofslots in
    let h = slot bs.hash size in
    let chain = get_or t.strings h [] in
    let home : h ≡ slot (hashstr bs.val) size =
      ap (λ x. slot x size) (find_string-hash size _ _ bs.val bs (w.chains.each _) f) in
    let there : find_string bs.val chain ≡ some bs =
      ap (λ n. find_string bs.val (get_or t.strings n [])) home ∙ f in
    let (c', u) = unlink_lem size h bs chain (w.chains.each h) a there in
    let inside : h < length t.strings =
      omega (arith, slot-lt bs.hash size w.positive, w.chains.slots) in
    let at = λ (j : ℕ). get_or-set t.strings h j c' [] inside in
    rw u.found (
      record {
        chains = record {
          slots = length-set t.strings h c' ∙ w.chains.slots;
          each = λ i. subst (InOrder size i) (sym (at i)) (elim (Bool-cases (h == i)) [
            | inl e ↦ rw e (subst (λ n. InOrder size n c') (==→eq h i e) u.order)
            | inr e ↦ rw e (w.chains.each i)
          ]);
        };
        positive = w.positive;
      },
      λ v.
          let j = slot (hashstr v) size in
          ap (find_string v) (at j) ∙ (elim (Bool-cases (h == j)) [
            | inl e ↦ rw e (
                u.rest v
                ∙ ap (λ n. without v bs (find_string v (get_or t.strings n []))) (==→eq h j e))
            | inr e ↦ rw e (elim (Bool-cases (same_text v bs.val)) [
              | inl q ↦
                  let p = home ∙ ap (λ y. slot (hashstr y) size) (sym (same_text-eq v bs.val q)) in
                  absurd (cc (eq→== h j p, e))
              | inr q ↦ rw q refl
            ])
          ]),
    )
