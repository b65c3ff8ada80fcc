-- ===== src/Array/Laws.antt =====
-- What each operation of `SQArray` leaves in the array.
use squirrel_gobject.Prelude.{
  ◌-◌, ◌/◌, ◌<◌, ◌≡◌, refl, ap, ◌∙◌, ltb, leb, if◌then◌else◌, none, some, List, get_or, get_elem?,
  arith, inl, inr, Bool-cases, get_elem?-get_or, get_elem?-beyond, ltb→lt, ltb→le,
}
use squirrel_gobject.Prelude.Int.{ℤ, pos, negsuc, nonneg}
use squirrel_gobject.Prelude.Segments.{get_or-take}
use squirrel_gobject.Vector.{Vector, IsValid, contents, pred64_pos}
use squirrel_gobject.Vector.Laws.{length-contents, shrink_to_fit-Keeps}
use squirrel_gobject.Array.{shrink_if_needed, top, in_range}
use squirrel_gobject.Array.Spec.{at}

-- `w` is a valid array with the objects `xs`.
pub record Holds {ℓ} {A : Type ℓ} (xs : List A) (w : Vector A) : Type ℓ where
  pub valid : IsValid w
  pub same : contents w ≡ xs

module _ {ℓ} {A : Type ℓ} where
  -- Reading an index of the block is reading the object, where there is one.
  pub at-contents :
      (i : ℤ) (v : Vector A) (d : A)
      → IsValid v
      → at i (contents v) ≡ (if in_range i v.size then some (get_or v.vals (nonneg i) d) else none)
  at-contents (negsuc i) v d h = refl
  at-contents (pos i) v d h = elim (Bool-cases (ltb i v.size)) [
    | inl e ↦
        let inside = ltb→lt i v.size e in
        rw e (
          get_elem?-get_or (contents v) i d (omega (arith, length-contents h))
          ∙ ap some (get_or-take v.size i v.vals d inside))
    | inr e ↦
        rw e (get_elem?-beyond (contents v) i (omega (arith, length-contents h, ltb→le i v.size e)))
  ]

module _ {ℓ} {A : Type ℓ} (junk : A) where
  pub shrink-Holds : (xs : List A) (v : Vector A) → Holds xs v → Holds xs (shrink_if_needed junk v)
  unfolding shrink_if_needed
  shrink-Holds xs v h =
      let k = shrink_to_fit-Keeps junk v h.valid in
      elim (Bool-cases (leb v.size (v.allocated / 4))) [
        | inl e ↦ rw e (record { valid = k.valid; same = k.same ∙ h.same })
        | inr e ↦ rw e h
      ]

  pub top_lem :
      (v : Vector A)
      → IsValid v
      → 0 < v.size
      → get_elem? (contents v) (v.size - 1) ≡ some (top junk v)
  unfolding top
  top_lem v h l = rw (pred64_pos v.size l) (
      get_elem?-get_or (contents v) (v.size - 1) junk (omega (arith, length-contents h))
      ∙ ap some (get_or-take v.size (v.size - 1) v.vals junk (omega arith)))
