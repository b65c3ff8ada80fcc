-- ===== src/Blob/Laws.antt =====
-- What the methods of `SQBlob` do to the bytes of the stream and to its position.
use squirrel_gobject.Prelude.{
  ℕ, ◌+◌, ◌-◌, ◌*◌, ◌≤◌, ◌≡◌, refl, ap, sym, ◌∙◌, ◌==◌, ltb, if◌then◌else◌, true, min, max, List,
  ◌++◌, length, take, drop, replicate, arith, inl, inr, Bool-cases, ltb→lt, ltb→le, ==→eq,
  length-take, length-replicate,
}
use squirrel_gobject.Prelude.Segments.{take-take, take-append_left, take_short}
use squirrel_gobject.Blob.{
  Blob, IsValid, contents, memcpy, create, can_advance, resize, grow_buf_of, write,
}
use mathlib.Core.Path.{subst}
use squirrel_gobject.Blob.Memory.{length-memcpy, take-memcpy}

pub length-contents : {b : Blob} → IsValid b → length (contents b) ≡ b.size
length-contents {b} h = omega (arith, length-take b.size b.buf)

-- A new blob is valid, holds `n` zeros, and its position is at the start.
pub create_zeros :
    (n : ℕ) → IsValid (create n) × (contents (create n) ≡ replicate n 0) × ((create n).ptr ≡ 0)
unfolding create
create_zeros n = (
  record { block = length-replicate n 0; fits = omega arith; position = omega arith; owned = refl },
  take_short n (replicate n 0) (omega (arith, length-replicate {A = ℕ} n 0)),
  refl,
)

module _ (n : ℕ) (b : Blob) (h : IsValid b) where
  resized_bytes :
      (s : ℕ) → s ≤ n → s ≤ b.size → take s (memcpy 0 (take s b.buf) (replicate n 0)) ≡ take s b.buf
  unfolding memcpy
  resized_bytes s l l' =
      take-append_left s (take s b.buf) _ (omega (arith, length-take s b.buf))
      ∙ take-take s s b.buf (omega arith)

  resized_block :
      (s : ℕ) → s ≤ n → s ≤ b.size → length (memcpy 0 (take s b.buf) (replicate n 0)) ≡ n
  resized_block s l l' = omega (
    arith,
    length-memcpy 0 (take s b.buf) (replicate n 0) (omega arith),
    length-take s b.buf,
    length-replicate {A = ℕ} n 0,
  )

  abbrev pub kept : ℕ
  kept = if ltb n b.size then n else b.size

  abbrev pub moved : Blob
  moved = record b {
    buf = memcpy 0 (take kept b.buf) (replicate n 0);
    allocated = n;
    size = kept;
    ptr = if ltb n b.ptr then n else b.ptr;
    owns = true;
  }

  kept_bounds : (kept ≤ n) × (kept ≤ b.size)
  kept_bounds = elim (Bool-cases (ltb n b.size)) [
    | inl e ↦ rw e (omega (arith, ltb→lt n b.size e))
    | inr e ↦ rw e (omega (arith, ltb→le n b.size e))
  ]

  ptr_bound : (moved.ptr ≤ kept) × (moved.ptr ≡ min n b.ptr)
  ptr_bound = ground (arith, h.position)

  moved-IsValid : IsValid moved
  moved-IsValid = record {
    block = resized_block kept kept_bounds.0 kept_bounds.1;
    fits = kept_bounds.0;
    position = ptr_bound.0;
    owned = refl;
  }

  take-kept : take kept b.buf ≡ take n (contents b)
  take-kept = elim (Bool-cases (ltb n b.size)) [
    | inl e ↦ rw e (sym (take-take n b.size b.buf (omega (arith, ltb→lt n b.size e))))
    | inr e ↦
        rw e (sym (take_short n (contents b) (omega (arith, length-contents h, ltb→le n b.size e))))
  ]

  -- `Resize` of a valid blob to `n` bytes succeeds and allocates just that; the stream keeps its
  -- first `n` bytes, the position moves to the end where it is cut off, and the blob stays valid.
  pub resize_bytes :
      IsValid (resize n b).0
      × (contents (resize n b).0 ≡ take n (contents b))
      × ((resize n b).0.ptr ≡ min n b.ptr)
      × ((resize n b).0.allocated ≡ n)
      × ((resize n b).1 ≡ true)
  unfolding resize
  resize_bytes = elim (Bool-cases (n == b.allocated)) [
    | inl e ↦
        let same = ==→eq n b.allocated e in
        simp (h.owned, e)
          (
            h,
            sym (take_short n (contents b) (omega (arith, length-contents h, h.fits))),
            omega (arith, h.position, h.fits),
            sym same,
            refl,
          )
    | inr e ↦
        simp (h.owned, e)
          (
            moved-IsValid,
            resized_bytes kept kept_bounds.0 kept_bounds.1 ∙ take-kept,
            ptr_bound.1,
            refl,
            refl,
          )
  ]

kept_size : (m : ℕ) (b : Blob) → IsValid b → (resize m b).0.size ≡ min m b.size
kept_size m b h =
    let (valid, same, _, _, _) = resize_bytes m b h in
    omega
      (arith, length-contents h, length-contents valid, ap length same, length-take m (contents b))

-- `w` has the position of `b`, the bytes of `b` in front, and room for a stream of `n` bytes.
pub record Roomy (n : ℕ) (b w : Blob) : Type 0 where
  pub block : length w.buf ≡ w.allocated
  pub fits : n ≤ w.allocated
  pub same : take b.size w.buf ≡ contents b
  pub position : w.ptr ≡ b.ptr
  pub owned : w.owns ≡ true

resized-Roomy : (n m : ℕ) (b : Blob) → IsValid b → n ≤ m → b.size ≤ m → Roomy n b (resize m b).0
resized-Roomy n m b h l l' =
    let (valid, same, moved, alloc, _) = resize_bytes m b h in
    let w = (resize m b).0 in
    let all : take m (contents b) ≡ contents b =
      take_short m (contents b) (omega (arith, length-contents h)) in
    let long : w.size ≡ b.size =
      omega (arith, length-contents h, length-contents valid, ap length (same ∙ all)) in
    record {
      block = valid.block;
      fits = omega (arith, alloc);
      same = ap (λ s. take s w.buf) (sym long) ∙ same ∙ all;
      position = omega (arith, h.position);
      owned = valid.owned;
    }

-- `GrowBufOf` makes the stream longer by `k` bytes, with room for them.
grow-Roomy :
    (k : ℕ) (b : Blob)
    → IsValid b
    → Roomy (b.size + k) b (grow_buf_of k b).0 × ((grow_buf_of k b).0.size ≡ b.size + k)
unfolding grow_buf_of
grow-Roomy k b h = elim (Bool-cases (ltb b.allocated (b.size + k))) [
  | inl e ↦ elim (Bool-cases (ltb (b.size * 2) (b.size + k))) [
    | inl e' ↦ rw (e, e') (longer (b.size + k) (omega arith))
    | inr e' ↦ rw (e, e') (longer (b.size * 2) (ltb→le _ _ e'))
  ]
  | inr e ↦ rw e (
    record { block = h.block; fits = ltb→le _ _ e; same = refl; position = refl; owned = h.owned },
    refl,
  )
]
  where
    longer :
        (m : ℕ)
        → b.size + k ≤ m
        → let w = record (resize m b).0 { size = (resize m b).0.size + k } in
          Roomy (b.size + k) b w × (w.size ≡ b.size + k)
    longer m l =
        let r = resized-Roomy (b.size + k) m b h l (omega arith) in
        (
          record {
            block = r.block;
            fits = r.fits;
            same = r.same;
            position = r.position;
            owned = r.owned;
          },
          omega (arith, kept_size m b h),
        )

module _ (block : List ℕ) (b : Blob) (h : IsValid b) where
  -- the blob that `Write` copies into
  abbrev pub roomy : Blob
  roomy =
      let n = length block in if can_advance n b then b else (grow_buf_of (b.ptr + n - b.size) b).0

  roomy-Roomy :
      Roomy (max b.size (b.ptr + length block)) b roomy
      × (roomy.size ≡ max b.size (b.ptr + length block))
  unfolding can_advance
  roomy-Roomy =
      let n = length block in
      let end = max b.size (b.ptr + n) in
      elim (Bool-cases (ltb b.size (b.ptr + n))) [
        | inl e ↦
            let past = ltb→lt b.size (b.ptr + n) e in
            let g = grow-Roomy (b.ptr + n - b.size) b h in
            let total : b.size + (b.ptr + n - b.size) ≡ end = omega arith in
            let w = (grow_buf_of (b.ptr + n - b.size) b).0 in
            rw e (subst (λ m. Roomy m b w × (w.size ≡ m)) total g)
        | inr e ↦
            let inside = ltb→le b.size (b.ptr + n) e in
            let total : b.size ≡ end = omega arith in
            rw e (
              record {
                block = h.block;
                fits = omega (arith, h.fits);
                same = refl;
                position = refl;
                owned = h.owned;
              },
              total,
            )
      ]

  -- `Write` on a valid blob writes the whole block over the bytes at the position, and past the
  -- end where it is longer; the position stands behind the block, and the blob stays valid.
  pub write_lem :
      IsValid (write block b).0
      × (contents (write block b).0
          ≡ take b.ptr (contents b) ++ (block ++ drop (b.ptr + length block) (contents b)))
      × ((write block b).0.ptr ≡ b.ptr + length block)
      × ((write block b).1 ≡ length block)
  unfolding write memcpy
  write_lem =
      let (r, sized) = roomy-Roomy in
      let room : max b.size (b.ptr + length block) ≤ length roomy.buf =
        omega (arith, r.block, r.fits) in
      let long = length-memcpy b.ptr block roomy.buf (omega (arith, h.position)) in
      (
        record {
          block =
              ap (λ p. length (memcpy p block roomy.buf)) r.position
              ∙ omega (arith, long, room, r.block);
          fits = omega (arith, sized, r.fits);
          position = omega (arith, sized, r.position);
          owned = r.owned;
        },
        rw (sized, r.position, take-memcpy b.ptr b.size block roomy.buf h.position room, r.same)
            refl,
        omega (arith, r.position),
        refl,
      )
