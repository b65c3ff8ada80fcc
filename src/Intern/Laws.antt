-- ===== src/Intern/Laws.antt =====
-- What `Add`, `Remove` and `Resize` do to the strings of the table.
use squirrel_gobject.Prelude.{
  ℕ, ◌+◌, ◌*◌, ◌<◌, ◌≡◌, ◌⊎◌, inl, inr, refl, sym, ap, ◌∙◌, ltb, if◌then◌else◌, Bool-cases, none,
  some, List, arith, Option-cases,
}
use squirrel_gobject.Prelude.Chars.{same_text}
use squirrel_gobject.Prelude.Texts.{same_text-eq}
use squirrel_gobject.Table.Slot.{slot}
use squirrel_gobject.Intern.Strings.{
  SqString, StringTable, hashstr, link, resize, insert, add, lookup, chain_of,
}
use squirrel_gobject.Intern.Lookup.{Chains, find_string-InOrder, link_lem}
use squirrel_gobject.Intern.Rehash.{rehash_lem}

-- Every string stands in the slot of its bytes, and no two strings have the same bytes.
pub record IsTable (t : StringTable) : Type 0 where
  pub chains : Chains t.numofslots t.strings
  pub positive : 0 < t.numofslots

resize_lem :
    (size : ℕ) (t : StringTable)
    → 0 < size
    → IsTable t
    → IsTable (resize size t) × ((v : List ℕ) → lookup v (resize size t) ≡ lookup v t)
unfolding resize
resize_lem size t p h =
    let (chains, f) = rehash_lem size p t.numofslots t.strings h.chains in
    (record { chains = chains; positive = p }, f)

insert_lem :
    (s : SqString) (t : StringTable)
    → IsTable t
    → s.hash ≡ hashstr s.val
    → lookup s.val t ≡ none
    → IsTable (insert s t)
      × ((v : List ℕ) → lookup v (insert s t) ≡ (if same_text v s.val then some s else lookup v t))
insert_lem s t h hs absent =
    let (chains, f) = link_lem t.numofslots s t.strings h.positive h.chains hs absent in
    let t' = record t { strings = link t.numofslots s t.strings; slotused = t.slotused + 1 } in
    let w : IsTable t' = record { chains = chains; positive = h.positive } in
    elim (Bool-cases (ltb t.numofslots (t.slotused + 1))) [
      | inl e ↦
          let (big, g) = resize_lem (t.numofslots * 2) t' (omega (arith, h.positive)) w in
          rw e (big, λ v. g v ∙ f v)
      | inr e ↦ rw e (w, f)
    ]

-- Add on a table in order leaves it in order and answers the string that the table has from then
-- on for those bytes, which is the one that it had, where it had one. What the table has for other
-- bytes stays the same, whether it grows or not.
pub add_lem :
    (address : ℕ) (news : List ℕ) (t : StringTable)
    → IsTable t
    → let (s, t') = add address news t in
      IsTable t'
      × (s.val ≡ news)
      × ((lookup news t ≡ none) ⊎ (lookup news t ≡ some s))
      × ((v : List ℕ) → lookup v t' ≡ (if same_text v news then some s else lookup v t))
unfolding add
add_lem address news t h = elim (Option-cases (lookup news t)) [
  | inl e ↦
      let s : SqString = record { address = address; val = news; hash = hashstr news } in
      let (w, f) = insert_lem s t h refl e in rw e (w, refl, inl refl, f)
  | inr (s, e) ↦
      let found =
        find_string-InOrder t.numofslots (slot (hashstr news) t.numofslots)
          (chain_of (hashstr news) t) news s (h.chains.each _) e in
      rw e (h, sym found.0, inr refl, λ v. same v s e)
]
  where
    same :
        (v : List ℕ) (s : SqString)
        → lookup news t ≡ some s
        → lookup v t ≡ (if same_text v news then some s else lookup v t)
    same v s e = elim (Bool-cases (same_text v news)) [
      | inl q ↦ rw q (ap (λ y. lookup y t) (same_text-eq v news q) ∙ e)
      | inr q ↦ rw q refl
    ]
