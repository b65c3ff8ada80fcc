-- ===== src/Blob/Memory.antt =====
-- `memcpy` on the bytes of a blob.
use squirrel_gobject.Prelude.{
  ℕ, ◌+◌, ◌-◌, ◌≤◌, ◌<◌, ◌≡◌, ◌∙◌, ltb, if◌then◌else◌, max, List, ◌++◌, length, take, drop, get_or,
  arith, Bool-cases, inl, inr, ltb→lt, ltb→le, length-append, length-take, length-drop,
}
use squirrel_gobject.Prelude.Segments.{
  get_or-take, list_ext, get_or-append_left, get_or-append_right, get_or-drop,
}
use squirrel_gobject.Blob.{memcpy}

pub length-memcpy :
    (p : ℕ) (src cells : List ℕ)
    → p ≤ length cells
    → length (memcpy p src cells) ≡ max (length cells) (p + length src)
unfolding memcpy
length-memcpy p src cells h =
    rw (length-append, length-append, length-take, length-drop) (omega arith)

pub get_or-memcpy :
    (p j d : ℕ) (src cells : List ℕ)
    → p ≤ length cells
    → get_or (memcpy p src cells) j d ≡ (
        if ltb j p
        then get_or cells j d
        else if ltb j (p + length src)
        then get_or src (j - p) d
        else get_or cells j d)
unfolding memcpy
get_or-memcpy p j d src cells h =
    let tail = src ++ drop (p + length src) cells in
    let front : length (take p cells) ≡ p = omega (arith, length-take p cells) in
    elim (Bool-cases (ltb j p)) [
      | inl e ↦
          let l = ltb→lt j p e in
          rw e
            (get_or-append_left (take p cells) tail j d (omega arith) ∙ get_or-take p j cells d l)
      | inr e ↦
          let l = ltb→le j p e in
          get_or-append_right (take p cells) tail j (j - p) d (omega arith)
          ∙ rw e (elim (Bool-cases (ltb j (p + length src))) [
            | inl e' ↦
                rw e'
                  (get_or-append_left src _ (j - p) d (omega (arith, ltb→lt j (p + length src) e')))
            | inr e' ↦
                let l' = ltb→le j (p + length src) e' in
                rw e' (
                  get_or-append_right src _ (j - p) (j - p - length src) d (omega arith)
                  ∙ get_or-drop (p + length src) (j - p - length src) j cells d (omega arith))
          ])
    ]

-- Copying into the buffer is copying into the stream, and may make it longer.
pub take-memcpy :
    (p s : ℕ) (src cells : List ℕ)
    → p ≤ s
    → max s (p + length src) ≤ length cells
    → take (max s (p + length src)) (memcpy p src cells) ≡ memcpy p src (take s cells)
take-memcpy p s src cells h l =
    let m = max s (p + length src) in
    let long = length-memcpy p src cells (omega arith) in
    let short = length-memcpy p src (take s cells) (omega (arith, length-take s cells)) in
    list_ext _ _ 0
      (omega (arith, long, short, length-take s cells, length-take m (memcpy p src cells)))
      (λ j lt.
        let inside : j < m = omega (arith, length-take m (memcpy p src cells)) in
        get_or-take m j (memcpy p src cells) 0 inside
        ∙ ground (
          arith,
          get_or-memcpy p j 0 src cells,
          get_or-memcpy p j 0 src (take s cells),
          get_or-take s j cells 0,
          length-take s cells,
        ))
