-- ===== src/Array/Refine.antt =====
-- The array implements the sequence of Array/Spec, call by call and run by run.
use squirrel_gobject.Prelude.{
  ℕ, ◌-◌, ◌≡◌, refl, ltb, Option, none, List, [], ◌∷◌, length, arith, inl, inr, Bool-cases,
  length-set, ltb→lt, ltb→le, get_elem?-get_or, get_elem?-beyond, le→leb, lt→leb,
}
use mathlib.Core.Path.{subst}
use squirrel_gobject.Prelude.Int.{ℤ, pos, negsuc}
use squirrel_gobject.Prelude.Segments.{get_or-take, take-set}
use squirrel_gobject.Vector
use squirrel_gobject.Vector.{Vector, IsValid, contents, pop_back}
use squirrel_gobject.Vector.Laws.{push_back_lem, pop_back_lem, resize_lem, length-contents}
use squirrel_gobject.Vector.Shift.{insert_lem, remove_lem, copy_lem}
use squirrel_gobject.Array.{
  Op, get_op, set_op, next_op, append_op, extend_op, pop_op, resize_op, insert_op, remove_op,
  reverse_op, clone_op, step, run, translate_index,
}
use squirrel_gobject.Array.Spec.{with_value, spec_step, spec_run}
use squirrel_gobject.Array.Laws.{Holds, at-contents, shrink-Holds, top_lem}
use squirrel_gobject.Array.Loops.{array_reverse_lem, extend_lem}

module _ {A : Type 0} (junk dflt : A) (realval : A → A) where
  -- One call leaves the array with what the sequence holds then, and answers the same.
  abbrev pub Refines : Op A → Vector A → Type 0
  Refines o v =
      Holds (spec_step dflt realval o (contents v)).0 (step junk dflt realval o v).0
      × ((step junk dflt realval o v).1 ≡ (spec_step dflt realval o (contents v)).1)

  get-Refines : (i : ℤ) (v : Vector A) → IsValid v → Refines (get_op i) v
  unfolding step with_value
  get-Refines (negsuc i) v h = (record { valid = h; same = refl }, refl)
  get-Refines (pos i) v h = elim (Bool-cases (ltb i v.size)) [
    | inl e ↦ rw (at-contents (pos i) v junk h, e) (record { valid = h; same = refl }, refl)
    | inr e ↦ rw (at-contents (pos i) v junk h, e) (record { valid = h; same = refl }, refl)
  ]

  set-Refines : (i : ℤ) (x : A) (v : Vector A) → IsValid v → Refines (set_op i x) v
  unfolding step with_value
  set-Refines (negsuc i) x v h = (record { valid = h; same = refl }, refl)
  set-Refines (pos i) x v h = elim (Bool-cases (ltb i v.size)) [
    | inl e ↦
        rw (at-contents (pos i) v junk h, e)
          (
            record {
              valid = omega (arith, length-set v.vals i x, h);
              same = take-set v.size i v.vals x;
            },
            refl,
          )
    | inr e ↦ rw (at-contents (pos i) v junk h, e) (record { valid = h; same = refl }, refl)
  ]

  next-Refines : (p : Option ℕ) (v : Vector A) → IsValid v → Refines (next_op p) v
  unfolding step with_value
  next-Refines p v h =
      let i = translate_index p in
      elim (Bool-cases (ltb i v.size)) [
        | inl e ↦
            let inside = ltb→lt i v.size e in
            rw
              (
                e,
                get_elem?-get_or (contents v) i junk (omega (arith, length-contents h)),
                get_or-take v.size i v.vals junk inside,
              )
              (record { valid = h; same = refl }, refl)
        | inr e ↦
            rw
              (
                e,
                get_elem?-beyond (contents v) i
                    (omega (arith, length-contents h, ltb→le i v.size e)),
              )
              (record { valid = h; same = refl }, refl)
      ]

  append-Refines : (x : A) (v : Vector A) → IsValid v → Refines (append_op x) v
  unfolding step
  append-Refines x v h =
      let p = push_back_lem junk x v h in (record { valid = p.0; same = p.1 }, refl)

  extend-Refines : (v : Vector A) → IsValid v → Refines extend_op v
  unfolding step
  extend-Refines v h =
      let p = extend_lem junk none v h h in (record { valid = p.0; same = p.1 }, refl)

  pop-Refines : (v : Vector A) → IsValid v → Refines pop_op v
  unfolding step with_value
  pop-Refines v h = elim (Bool-cases (ltb 0 v.size)) [
    | inl e ↦
        let some_left = ltb→lt 0 v.size e in
        let p = pop_back_lem junk v h some_left in
        rw (length-contents h, e, top_lem junk v h some_left, with_value)
          (shrink-Holds junk _ (pop_back v) (record { valid = p.0; same = p.1 }), refl)
    | inr e ↦
        rw
          (
            e,
            get_elem?-beyond (contents v) (length (contents v) - 1)
                (omega (arith, length-contents h, ltb→le 0 v.size e)),
          )
          (record { valid = h; same = refl }, refl)
  ]

  resize-Refines : (n : ℤ) (v : Vector A) → IsValid v → Refines (resize_op n) v
  unfolding step
  resize-Refines (negsuc n) v h = (record { valid = h; same = refl }, refl)
  resize-Refines (pos n) v h =
      let p = resize_lem junk n dflt v h in
      rw (length-contents h) (shrink-Holds junk _ _ (record { valid = p.0; same = p.1 }), refl)

  insert-Refines : (i : ℤ) (x : A) (v : Vector A) → IsValid v → Refines (insert_op i x) v
  unfolding step
  insert-Refines (negsuc i) x v h = (record { valid = h; same = refl }, refl)
  insert-Refines (pos i) x v h = elim (Bool-cases (ltb v.size i)) [
    | inl e ↦ rw (length-contents h, e) (record { valid = h; same = refl }, refl)
    | inr e ↦
        let p = insert_lem junk dflt i x v h (ltb→le v.size i e) in
        rw (length-contents h, e) (record { valid = p.0; same = p.1 }, refl)
  ]

  remove-Refines : (i : ℤ) (v : Vector A) → IsValid v → Refines (remove_op i) v
  unfolding step with_value
  remove-Refines (negsuc i) v h = (record { valid = h; same = refl }, refl)
  remove-Refines (pos i) v h = elim (Bool-cases (ltb i v.size)) [
    | inl e ↦
        let inside = ltb→lt i v.size e in
        let p = remove_lem i v h inside in
        rw (at-contents (pos i) v junk h, e, lt→leb v.size i inside)
          (shrink-Holds junk _ (Vector.remove i v) (record { valid = p.0; same = p.1 }), refl)
    | inr e ↦
        rw (at-contents (pos i) v junk h, e, le→leb v.size i (ltb→le i v.size e))
          (record { valid = h; same = refl }, refl)
  ]

  reverse-Refines : (v : Vector A) → IsValid v → Refines reverse_op v
  unfolding step
  reverse-Refines v h =
      let p = array_reverse_lem junk v h in (record { valid = p.0; same = p.1 }, refl)

  clone-Refines : (v : Vector A) → IsValid v → Refines clone_op v
  unfolding step
  clone-Refines v h =
      let p = copy_lem junk dflt v Vector.empty h (omega arith) in
      (record { valid = p.0; same = p.1 }, refl)

  -- Whatever the call, a valid array stays valid, holds afterwards what the specification makes of
  -- the sequence of its objects, and gives the reply of the specification.
  pub step-Refines : (o : Op A) (v : Vector A) → IsValid v → Refines o v
  step-Refines (get_op i) v h = get-Refines i v h
  step-Refines (set_op i x) v h = set-Refines i x v h
  step-Refines (next_op p) v h = next-Refines p v h
  step-Refines (append_op x) v h = append-Refines x v h
  step-Refines extend_op v h = extend-Refines v h
  step-Refines pop_op v h = pop-Refines v h
  step-Refines (resize_op n) v h = resize-Refines n v h
  step-Refines (insert_op i x) v h = insert-Refines i x v h
  step-Refines (remove_op i) v h = remove-Refines i v h
  step-Refines reverse_op v h = reverse-Refines v h
  step-Refines clone_op v h = clone-Refines v h

  run-at :
      (ops : List (Op A)) (v : Vector A) (xs : List A)
      → Holds xs v
      → (contents (run junk dflt realval ops v).0 ≡ (spec_run dflt realval ops xs).0)
        × ((run junk dflt realval ops v).1 ≡ (spec_run dflt realval ops xs).1)
  unfolding run
  run-at [] v xs h = (h.same, refl)
  run-at (o ∷ ops) v xs h =
      let w = step junk dflt realval o v in
      let s =
        subst
          (λ l. Holds (spec_step dflt realval o l).0 w.0 × (w.1 ≡ (spec_step dflt realval o l).1))
          h.same (step-Refines o v h.valid) in
      let r = run-at ops w.0 (spec_step dflt realval o xs).0 s.0 in (r.0, λ i. s.1 i ∷ r.1 i)

  -- Any run of calls on a valid array gives the replies that the specification gives on the
  -- sequence of its objects, and leaves the objects that the specification leaves.
  pub run-Refines :
      (ops : List (Op A)) (v : Vector A)
      → IsValid v
      → (contents (run junk dflt realval ops v).0 ≡ (spec_run dflt realval ops (contents v)).0)
        × ((run junk dflt realval ops v).1 ≡ (spec_run dflt realval ops (contents v)).1)
  run-Refines ops v h = run-at ops v (contents v) (record { valid = h; same = refl })
