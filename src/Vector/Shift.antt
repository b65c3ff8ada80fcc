-- ===== src/Vector/Shift.antt =====
-- `insert`, `remove` and `copy` of `sqvector` (Squirrel3/squirrel/squtils.h), which move objects.
use squirrel_gobject.Prelude.{
  ℕ, suc, ◌+◌, ◌-◌, ◌≤◌, ◌<◌, ◌≡◌, refl, ap, sym, ◌∙◌, ltb, if◌then◌else◌, List, ◌++◌, inl, inr,
  Bool-cases, ltb→le, lt→ltb, le→leb, length, take, drop, replicate, get_or, set, arith, length-set,
  get_or-set, length-append, length-take, length-drop,
}
use squirrel_gobject.Prelude.Segments.{
  take-take, take-append_left, take-append_right, get_or-take, list_ext, insert_at, remove_at,
  length-insert_at, get_or-insert_at, drop_all, drop-take, take_short,
}
use squirrel_gobject.Vector.{
  Vector, IsValid, contents, pred64_pos, resize, memmove, remove, shift_up, insert, copy_cells,
  copy, realloc,
}
use squirrel_gobject.Vector.Memory.{
  length-shift_up, get_or-shift_up, length-copy_cells, get_or-copy_cells,
}
use squirrel_gobject.Vector.Laws.{length-contents, resize_lem, size-resize, widened-Keeps}
use mathlib.Core.List.{append-nil}
use native.Mathlib.Numerals.{add-one}

module _ {A : Type 0} (junk : A) where
  module _ (n idx : ℕ) (x : A) (cells : List A) (h : idx ≤ n) (l : n < length cells) where
    shifted_cell :
        (j : ℕ)
        → j < n + 1
        → get_or (set (shift_up junk n idx cells) idx x) j junk
          ≡ get_or (insert_at idx x (take n cells)) j junk
    shifted_cell j lt = ground (
      arith,
      get_or-set (shift_up junk n idx cells) idx j x junk,
      length-shift_up junk n idx cells,
      get_or-shift_up junk n idx j cells,
      get_or-insert_at idx j x (take n cells) junk,
      length-take n cells,
      get_or-take n j cells junk,
      get_or-take n (j - 1) cells junk,
    )

    -- The loop and the write after it, on the cells that the vector uses.
    shifted : take (n + 1) (set (shift_up junk n idx cells) idx x) ≡ insert_at idx x (take n cells)
    shifted =
        let moved =
          length-set (shift_up junk n idx cells) idx x ∙ length-shift_up junk n idx cells in
        list_ext _ _ junk (rw (length-take, length-insert_at, length-take, moved) (omega arith))
          (λ j lt.
            let inside : j < n + 1 =
              omega (arith, length-take (n + 1) (set (shift_up junk n idx cells) idx x)) in
            get_or-take (n + 1) j _ junk inside ∙ shifted_cell j inside)

module _ {A : Type 0} (junk dflt : A) where
  grown-prefix :
      (v : Vector A) → IsValid v → take v.size (resize junk (v.size + 1) dflt v).vals ≡ contents v
  grown-prefix v h =
      let r = resize_lem junk (v.size + 1) dflt v h in
      let w = resize junk (v.size + 1) dflt v in
      let short : take (v.size + 1) (contents v) ≡ contents v =
        take_short (v.size + 1) (contents v) (omega (arith, length-contents h)) in
      sym (take-take v.size (v.size + 1) w.vals (omega arith))
      ∙ ap (take v.size) (rw (size-resize) at r.1)
      ∙ ap (λ c. take v.size (c ++ replicate (v.size + 1 - v.size) dflt)) short
      ∙ take-append_left v.size (contents v) _ (omega (arith, length-contents h))
      ∙ take_short v.size (contents v) (omega (arith, length-contents h))

  -- On a valid vector, at a position up to its size, `insert` puts the object before position
  -- `idx`, moves the later ones up by one, and leaves the vector valid.
  pub insert_lem :
      (idx : ℕ) (x : A) (v : Vector A)
      → IsValid v
      → idx ≤ v.size
      → IsValid (insert junk dflt idx x v)
        × (contents (insert junk dflt idx x v) ≡ insert_at idx x (contents v))
  unfolding insert
  insert_lem idx x v h l =
      let w = resize junk (v.size + 1) dflt v in
      let r = resize_lem junk (v.size + 1) dflt v h in
      let sized = size-resize junk (v.size + 1) dflt v in
      let last : w.size - 1 ≡ v.size = omega (arith, sized) in
      let block =
        length-set (shift_up junk (w.size - 1) idx w.vals) idx x
        ∙ length-shift_up junk (w.size - 1) idx w.vals in
      (
        omega (arith, block, r.0.block, r.0.fits),
        rw
            (
              last,
              sized,
              shifted junk v.size idx x w.vals l (omega (arith, r.0.block, r.0.fits, sized)),
              grown-prefix v h,
            )
            refl,
      )

module _ {ℓ} {A : Type ℓ} where
  memmove_down :
      (idx n : ℕ) (cells : List A)
      → idx < n
      → n ≤ length cells
      → take (n - 1) (memmove idx (idx + 1) (n - idx - 1) cells) ≡ remove_at idx (take n cells)
  unfolding memmove
  memmove_down idx n cells h l =
      let k = n - idx - 1 in
      let tail : length (take k (drop (idx + 1) cells)) ≡ k =
        rw (length-take, length-drop) (omega arith) in
      take-append_right (n - 1) k (take idx cells) _ (omega (arith, length-take idx cells))
      ∙ ap (λ c. take idx cells ++ c)
          (take-append_left k (take k (drop (idx + 1) cells)) _ (omega (arith, tail))
            ∙ take-take k k (drop (idx + 1) cells) (omega arith))
      ∙ rw
          (
            drop-take (suc idx) k n cells (omega arith),
            take-take idx n cells (omega arith),
            add-one,
          )
          refl

  length-memmove :
      (idx n : ℕ) (cells : List A)
      → idx < n
      → n ≤ length cells
      → length (memmove idx (idx + 1) (n - idx - 1) cells) ≡ length cells
  unfolding memmove
  length-memmove idx n cells h l = simp (length-append, length-take, length-drop) (omega arith)

  -- On a valid vector, at a position below its size, `remove` takes the object at `idx` out, moves
  -- the later ones down by one, and leaves the vector valid.
  pub remove_lem :
      (idx : ℕ) (v : Vector A)
      → IsValid v
      → idx < v.size
      → IsValid (remove idx v) × (contents (remove idx v) ≡ remove_at idx (contents v))
  unfolding remove
  remove_lem idx v h l =
      let e = pred64_pos v.size (omega arith) in
      elim (Bool-cases (ltb idx (v.size - 1))) [
        | inl t ↦
            rw (e, t)
              (
                omega (arith, length-memmove idx v.size v.vals l (omega arith)),
                memmove_down idx v.size v.vals l (omega arith),
              )
        | inr t ↦
            rw (e, t)
              (
                omega arith,
                let at_end : v.size - 1 ≡ idx = omega (arith, ltb→le _ _ t) in
                    rw
                      (
                        at_end,
                        drop_all (suc idx) (contents v) (omega (arith, length-contents h)),
                        append-nil,
                        take-take idx v.size v.vals (omega arith),
                      )
                      refl,
              )
      ]

module _ {A : Type 0} (junk dflt : A) where
  copied :
      (source w : Vector A)
      → IsValid source
      → source.size ≤ length w.vals
      → take source.size (copy_cells junk source.size 0 source.vals w.vals) ≡ contents source
  copied source w h l =
      let new = copy_cells junk source.size 0 source.vals w.vals in
      let long = length-copy_cells junk source.size 0 source.vals w.vals in
      list_ext _ _ junk (omega (arith, length-take source.size new, length-contents h, long))
        (λ j lt.
          let inside : j < source.size = omega (arith, length-take source.size new) in
          get_or-take source.size j new junk inside
          ∙ get_or-copy_cells junk source.size 0 j source.vals w.vals (omega arith)
          ∙ rw (lt→ltb j (0 + source.size) (omega arith), le→leb 0 j (omega arith))
              (sym (get_or-take source.size j source.vals junk inside)))

  cleared :
      (v : Vector A)
      → IsValid v
      → let w = if ltb 0 v.size then resize junk 0 dflt v else v in IsValid w × (w.size ≡ 0)
  cleared v h = elim (Bool-cases (ltb 0 v.size)) [
    | inl e ↦ rw e ((resize_lem junk 0 dflt v h).0, size-resize junk 0 dflt v)
    | inr e ↦ rw e (h, omega (arith, ltb→le 0 v.size e))
  ]

  -- Between valid vectors `copy` makes the contents those of its argument, whatever the vector held
  -- before, and leaves the vector valid.
  pub copy_lem :
      (source v : Vector A)
      → IsValid source
      → IsValid v
      → IsValid (copy junk dflt source v) × (contents (copy junk dflt source v) ≡ contents source)
  unfolding copy
  copy_lem source v hs h =
      let c = if ltb 0 v.size then resize junk 0 dflt v else v in
      let (valid, none_left) = cleared v h in
      let w = if ltb c.allocated source.size then realloc junk source.size c else c in
      let k = widened-Keeps junk source.size c valid in
      let block : source.size ≤ length w.vals = omega (arith, k.valid.block, k.room) in
      (
        omega (arith, length-copy_cells junk source.size 0 source.vals w.vals, k.valid, k.room),
        copied source w hs block,
      )
