-- ===== src/Table/Place.antt =====
-- What the writes of `NewSlot` leave in the node array, case by case.
use squirrel_gobject.Prelude.{
  ℕ, zero, suc, ◌<◌, ◌≡◌, ◌≢◌, refl, ap, sym, ◌∙◌, Option, some, arith, List, length, set,
  length-set, get_or-set, eq→==, ne→==,
}
use squirrel_gobject.Table.{Node, at, blank, move_node, link_node, write_key, write_val, previous}
use squirrel_gobject.Table.Find.{nx, ky}

module _ {K V : Type 0} (null : V) where
  -- A write of a value changes no key and no pointer.
  pub write_val_keeps :
      (nodes : List (Node K V)) (p q : ℕ) (v : V)
      → (ky null (write_val null p v nodes) q ≡ ky null nodes q)
        × (nx null (write_val null p v nodes) q ≡ nx null nodes q)
  write_val_keeps List.[] p q v = (refl, refl)
  write_val_keeps (List.◌∷◌ o nodes) zero zero v = (refl, refl)
  write_val_keeps (List.◌∷◌ o nodes) zero (suc q) v = (refl, refl)
  write_val_keeps (List.◌∷◌ o nodes) (suc p) zero v = (refl, refl)
  write_val_keeps (List.◌∷◌ o nodes) (suc p) (suc q) v = write_val_keeps nodes p q v

  pub at-set_self :
      (nodes : List (Node K V)) (i p : ℕ) (x : Node K V)
      → i < length nodes
      → p ≡ i
      → at null (set nodes i x) p ≡ x
  at-set_self nodes i p x h e = rw (e, get_or-set, h, eq→== i i refl) refl

  pub at-set_other :
      (nodes : List (Node K V)) (i p : ℕ) (x : Node K V)
      → i < length nodes
      → p ≢ i
      → at null (set nodes i x) p ≡ at null nodes p
  at-set_other nodes i p x h e = rw (get_or-set, h, ne→== i p (λ s. e (sym s))) refl

  abbrev pub written : List (Node K V) → ℕ → Option K → V → List (Node K V)
  written nodes mp k v = write_val null mp v (write_key null mp k nodes)

  module _ (nodes : List (Node K V)) (mp : ℕ) (k : Option K) (v : V) (h : mp < length nodes) where
    pub length-written : length (written nodes mp k v) ≡ length nodes
    length-written = length-set (write_key null mp k nodes) mp _ ∙ length-set nodes mp _

    -- The key and the value of a node are written, and nothing else.
    pub at-written :
        at null (written nodes mp k v) mp ≡ record { val = v; key = k; next = nx null nodes mp }
    at-written =
        at-set_self (write_key null mp k nodes) mp mp _
          (omega (arith, length-set nodes mp (record (at null nodes mp) { key = k }))) refl
        ∙ ap (λ (o : Node K V). record o { val = v }) (at-set_self nodes mp mp _ h refl)

    pub at-written_other : (p : ℕ) → p ≢ mp → at null (written nodes mp k v) p ≡ at null nodes p
    at-written_other p ne =
        at-set_other (write_key null mp k nodes) mp p _
          (omega (arith, length-set nodes mp (record (at null nodes mp) { key = k }))) ne
        ∙ at-set_other nodes mp p _ h ne

  module _ (nodes : List (Node K V)) (mp f : ℕ) (h : mp < length nodes) (hf : f < length nodes)
      (apart : mp ≢ f) where
    pub length-link_node : length (link_node null mp f nodes) ≡ length nodes
    unfolding link_node
    length-link_node =
        length-set (set nodes f (record (at null nodes f) { next = nx null nodes mp })) mp _
        ∙ length-set nodes f _

    pub at-link_node-mp :
        at null (link_node null mp f nodes) mp ≡ record (at null nodes mp) { next = some f }
    unfolding link_node
    at-link_node-mp =
        let b = set nodes f (record (at null nodes f) { next = nx null nodes mp }) in
        at-set_self b mp mp _
          (omega (arith, length-set nodes f (record (at null nodes f) { next = nx null nodes mp })))
          refl
        ∙ ap (λ (o : Node K V). record o { next = some f }) (at-set_other nodes f mp _ hf apart)

    pub at-link_node_free :
        at null (link_node null mp f nodes) f ≡ record (at null nodes f) { next = nx null nodes mp }
    unfolding link_node
    at-link_node_free =
        let b = set nodes f (record (at null nodes f) { next = nx null nodes mp }) in
        at-set_other b mp f _
          (omega (arith, length-set nodes f (record (at null nodes f) { next = nx null nodes mp })))
          (λ s. apart (sym s))
        ∙ at-set_self nodes f f _ hf refl

    pub at-link_node_other :
        (p : ℕ) → p ≢ mp → p ≢ f → at null (link_node null mp f nodes) p ≡ at null nodes p
    unfolding link_node
    at-link_node_other p nm nf =
        let b = set nodes f (record (at null nodes f) { next = nx null nodes mp }) in
        at-set_other b mp p _
          (omega (arith, length-set nodes f (record (at null nodes f) { next = nx null nodes mp })))
          nm
        ∙ at-set_other nodes f p _ hf nf

  module _ (nodes : List (Node K V)) (fuel other mp f o : ℕ) (h : mp < length nodes)
      (hf : f < length nodes) (ho : o < length nodes) (is_o : previous null fuel other mp nodes ≡ o)
      (mf : mp ≢ f) (om : o ≢ mp) (of : o ≢ f) where
    linked : List (Node K V)
    linked = set nodes o (record (at null nodes o) { next = some f })

    copied : List (Node K V)
    copied = set linked f (at null linked mp)

    move_node_lem : move_node null fuel other mp f nodes ≡ set copied mp (blank null)
    unfolding move_node copied linked
    move_node_lem = rw is_o refl

    length-linked : length linked ≡ length nodes
    unfolding linked
    length-linked = length-set nodes o _

    length-copied : length copied ≡ length nodes
    unfolding copied
    length-copied = length-set linked f _ ∙ length-linked

    pub length-move_node : length (move_node null fuel other mp f nodes) ≡ length nodes
    length-move_node = rw move_node_lem (length-set copied mp _ ∙ length-copied)

    at-linked_other : (p : ℕ) → p ≢ o → at null linked p ≡ at null nodes p
    unfolding linked
    at-linked_other p ne = at-set_other nodes o p _ ho ne

    pub at-move_node-mp : at null (move_node null fuel other mp f nodes) mp ≡ blank null
    at-move_node-mp =
        rw move_node_lem (at-set_self copied mp mp _ (omega (arith, length-copied)) refl)

    pub at-move_node_free : at null (move_node null fuel other mp f nodes) f ≡ at null nodes mp
    unfolding copied
    at-move_node_free = rw move_node_lem (
        at-set_other copied mp f _ (omega (arith, length-copied)) (λ s. mf (sym s))
        ∙ at-set_self linked f f _ (omega (arith, length-linked)) refl
        ∙ at-linked_other mp (λ s. om (sym s)))

    at-copied_other :
        (p : ℕ)
        → p ≢ mp
        → p ≢ f
        → at null (move_node null fuel other mp f nodes) p ≡ at null linked p
    unfolding copied
    at-copied_other p nm nf = rw move_node_lem (
        at-set_other copied mp p _ (omega (arith, length-copied)) nm
        ∙ at-set_other linked f p _ (omega (arith, length-linked)) nf)

    pub at-move_node_previous :
        at null (move_node null fuel other mp f nodes) o
        ≡ record (at null nodes o) { next = some f }
    unfolding linked
    at-move_node_previous = at-copied_other o om of ∙ at-set_self nodes o o _ ho refl

    pub at-move_node-other :
        (p : ℕ)
        → p ≢ mp
        → p ≢ f
        → p ≢ o
        → at null (move_node null fuel other mp f nodes) p ≡ at null nodes p
    at-move_node-other p nm nf no' = at-copied_other p nm nf ∙ at-linked_other p no'
