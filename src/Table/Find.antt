-- ===== src/Table/Find.antt =====
-- The loops of `SQTable` over chains: `_Get`, the search for a predecessor, and for a free node.
use squirrel_gobject.Prelude.{
  ℕ, zero, suc, ◌≤◌, ◌≡◌, ◌≢◌, refl, ap, ◌∙◌, inl, inr, Option, none, some, arith, Option-cases,
  Bool-cases, ◌==◌, ==→eq, eq→==, List, if◌then◌else◌,
}
use squirrel_gobject.Table.{Node, Key, at, find, previous, settle}
use squirrel_gobject.Table.Chains.{Ends, Leads, here, step, Leads-stop}
use mathlib.Core.Path.{subst}

module _ {K V : Type 0} (null : V) (nodes : List (Node K V)) where
  -- what node `p` points to, and its key
  abbrev pub nx : ℕ → Option ℕ
  nx p = (at null nodes p).next

  abbrev pub ky : ℕ → Option K
  ky p = (at null nodes p).key

  abbrev pub vl : ℕ → V
  vl p = (at null nodes p).val

  previous_next :
      (f other q mp : ℕ)
      → nx other ≡ some q
      → previous null (suc f) other mp nodes
        ≡ (if q == mp then other else previous null f q mp nodes)
  unfolding previous
  previous_next f other q mp e = rw (e, previous) refl

  -- The search for a predecessor finds one, if the chain leads to the node.
  pub previous_lem :
      (f other mp : ℕ)
      → Ends f nx other
      → Leads nx other mp
      → other ≢ mp
      → nx (previous null f other mp nodes) ≡ some mp
  previous_lem zero other mp h l ne = absurd h
  previous_lem (suc f) other mp h here ne = absurd (ne refl)
  previous_lem (suc f) other mp (inl z) (step {q = q} e l) ne = cc
  previous_lem (suc f) other mp (inr (q', z, h)) (step {q = q} e l) ne =
      let same : q' ≡ q = cc in
      elim (Bool-cases (q == mp)) [
        | inl t ↦ rw (previous_next f other q mp e, t) (e ∙ ap some (==→eq q mp t))
        | inr t ↦
            rw (previous_next f other q mp e, t)
              (previous_lem f q mp (subst (Ends f nx) same h) l (λ x. cc (eq→== q mp x)))
      ]

  pub settle_lem :
      (p q : ℕ) → settle null p nodes ≡ some q → (q ≤ p) × (ky q ≡ none) × (nx q ≡ none)
  unfolding settle
  settle_lem zero q h = ground arith
  settle_lem (suc p) q h = ground (arith, settle_lem p q)

module _ {K V : Type 0} (keys : Key K) (null : V) (nodes : List (Node K V)) where
  find_next :
      (f : ℕ) (key : Option K) (p q : ℕ)
      → nx null nodes p ≡ some q
      → find keys null (suc f) key p nodes
        ≡ (if keys.same (ky null nodes p) key then some p else find keys null f key q nodes)
  unfolding find
  find_next f key p q e = rw (e, find) refl

  find_end :
      (f : ℕ) (key : Option K) (p : ℕ)
      → nx null nodes p ≡ none
      → find keys null (suc f) key p nodes
        ≡ (if keys.same (ky null nodes p) key then some p else none)
  unfolding find
  find_end f key p e = rw (e, find) refl

  -- The node that is found holds the key.
  pub find_sound :
      (f : ℕ) (key : Option K) (p q : ℕ)
      → find keys null f key p nodes ≡ some q
      → ky null nodes q ≡ key
  unfolding find
  find_sound zero key p q h = cc
  find_sound (suc f) key p q h = elim (Option-cases (nx null nodes p)) [
    | inl e ↦ ground (arith, find_end f key p e, keys.same_iff (ky null nodes p) key)
    | inr (r, e) ↦
        ground
          (arith, find_next f key p r e, keys.same_iff (ky null nodes p) key, find_sound f key r q)
  ]

  -- A node with the key that the chain leads to is not missed.
  pub find_complete :
      (f : ℕ) (key : Option K) (p q : ℕ)
      → Ends f (nx null nodes) p
      → Leads (nx null nodes) p q
      → ky null nodes q ≡ key
      → find keys null f key p nodes ≢ none
  find_complete zero key p q h l e = absurd h
  find_complete (suc f) key p q (inl z) l e =
      let same = Leads-stop z l in
      let yes_same = (keys.same_iff (ky null nodes p) key).1 (ap (ky null nodes) same ∙ e) in
      λ bad. cc (find_end f key p z, yes_same)
  find_complete (suc f) key p q (inr (r, z, h)) here e =
      let yes_same = (keys.same_iff (ky null nodes p) key).1 e in
      λ bad. cc (find_next f key p r z, yes_same)
  find_complete (suc f) key p q (inr (r, z, h)) (step {q = r'} s l) e =
      let same : r' ≡ r = cc in
      let later = find_complete f key r q h (subst (λ x. Leads (nx null nodes) x q) same l) e in
      λ bad. elim (Bool-cases (keys.same (ky null nodes p) key)) [
        | inl t ↦ cc (find_next f key p r z, t)
        | inr t ↦ later (cc (find_next f key p r z, t))
      ]
