-- ===== src/Blob/Access.antt =====
-- Reading a blob, moving its position, and reading what was written (sqstdblobimpl.h, sqstdblob.cpp).
use squirrel_gobject.Prelude.{
  ℕ, suc, zero, ◌+◌, ◌-◌, ◌≤◌, ◌<◌, ◌≡◌, ◌≢◌, refl, ap, sym, ◌∙◌, ◌==◌, ltb, leb, if◌then◌else◌,
  List, [], ◌∷◌, ◌++◌, length, take, drop, get_or, set, arith, inl, inr, ◌⊎◌, Bool-cases, ltb→lt,
  ltb→le, le→ltb, ne→==, lt→leb, leb→le, length-take, length-drop, length-set, get_or-set,
}
use squirrel_gobject.Prelude.Segments.{
  take-take, take-append_left, take_short, take_all, drop-take, drop_all,
}
use squirrel_gobject.Prelude.Int.{ℤ, pos, negsuc, nonneg, offset}
use squirrel_gobject.Blob.{
  Blob, IsValid, contents, write, read, Origin, seek_set, seek, base, outside, can_advance,
  blob_set, blob_get, number, low_byte,
}
use squirrel_gobject.Blob.Laws.{length-contents, write_lem}

drop-append : (n : ℕ) (xs ys : List ℕ) → length xs ≡ n → drop n (xs ++ ys) ≡ ys
drop-append zero [] ys e = refl
drop-append zero (x ∷ xs) ys e = absurd (omega arith)
drop-append (suc n) [] ys e = absurd (omega arith)
drop-append (suc n) (x ∷ xs) ys e = drop-append n xs ys (omega arith)

module _ (b : Blob) (h : IsValid b) where
  tail : drop b.ptr (contents b) ≡ take (b.size - b.ptr) (drop b.ptr b.buf)
  tail = drop-take b.ptr (b.size - b.ptr) b.size b.buf (omega (arith, h.position))

  length-tail : length (drop b.ptr (contents b)) ≡ b.size - b.ptr
  length-tail = omega (arith, length-drop b.ptr (contents b), length-contents h)

  -- `Read` on a valid blob gives the bytes from the position on, as many as asked for or all
  -- there are; the position moves behind them, and the blob stays valid with the same bytes.
  pub read_lem :
      (n : ℕ)
      → IsValid (read n b).0
        × (contents (read n b).0 ≡ contents b)
        × ((read n b).1 ≡ take n (drop b.ptr (contents b)))
        × ((read n b).0.ptr ≡ b.ptr + length (read n b).1)
  unfolding read can_advance
  read_lem n = elim (Bool-cases (ltb b.size (b.ptr + n))) [
    | inl e ↦
        let past = ltb→lt b.size (b.ptr + n) e in
        let all : take n (drop b.ptr (contents b)) ≡ drop b.ptr (contents b) =
          take_short n _ (omega (arith, length-tail)) in
        elim (Bool-cases (ltb b.ptr b.size)) [
          | inl e' ↦
              rw (e, e')
                (
                  record {
                    block = h.block;
                    fits = h.fits;
                    position = omega (arith, h.position);
                    owned = h.owned;
                  },
                  refl,
                  sym tail ∙ sym all,
                  omega (arith, ap length tail, length-tail),
                )
          | inr e' ↦
              let nil : drop b.ptr (contents b) ≡ [] =
                drop_all b.ptr (contents b)
                  (omega (arith, length-contents h, ltb→le b.ptr b.size e')) in
              rw (e, e') (h, refl, sym nil ∙ sym all, omega arith)
        ]
    | inr e ↦
        let inside = ltb→le b.size (b.ptr + n) e in
        let same : take n (drop b.ptr (contents b)) ≡ take n (drop b.ptr b.buf) =
          ap (take n) tail ∙ take-take n (b.size - b.ptr) (drop b.ptr b.buf) (omega arith) in
        rw e (
          record { block = h.block; fits = h.fits; position = inside; owned = h.owned },
          refl,
          sym same,
          omega (arith, length-take n (drop b.ptr b.buf), length-drop b.ptr b.buf, h.block, h.fits),
        )
  ]

  -- `Seek` on a valid blob changes only the position, and the blob stays valid. Either it answers
  -- 0 and the position is the sum of the origin and the offset; or it answers -1 and changes
  -- nothing, and that sum is no position in the stream.
  pub seek_lem :
      (off : ℤ) (origin : Origin)
      → IsValid (seek off origin b).0
        × (contents (seek off origin b).0 ≡ contents b)
        × (((seek off origin b).1 ≡ pos 0)
              × (pos (seek off origin b).0.ptr ≡ offset (base origin b) off)
            ⊎ ((seek off origin b).1 ≡ negsuc 0)
              × ((seek off origin b).0 ≡ b)
              × ((p : ℕ) → p ≤ b.size → offset (base origin b) off ≢ pos p))
  unfolding seek
  seek_lem off origin = go (offset (base origin b) off)
    where
      go :
          (target : ℤ)
          → let r : Blob × ℤ =
              if outside target b
              then (b, negsuc 0)
              else (record b { ptr = nonneg target }, pos 0) in
            IsValid r.0
            × (contents r.0 ≡ contents b)
            × ((r.1 ≡ pos 0) × (pos r.0.ptr ≡ target)
                ⊎ (r.1 ≡ negsuc 0) × (r.0 ≡ b) × ((p : ℕ) → p ≤ b.size → target ≢ pos p))
      go (negsuc k) = (h, refl, inr (refl, refl, λ p l e. cc e))
      go (pos k) = elim (Bool-cases (ltb b.size k)) [
        | inl e ↦
            let past = ltb→lt b.size k e in
            rw e (
              h,
              refl,
              inr (refl, refl, λ p l e'. let same : k ≡ p = ap nonneg e' in absurd (omega arith)),
            )
        | inr e ↦ rw e (
          record { block = h.block; fits = h.fits; position = ltb→le b.size k e; owned = h.owned },
          refl,
          inl (refl, refl),
        )
      ]

seek_back : (w : Blob) (p : ℕ) → p ≤ w.size → (seek (pos p) seek_set w).0 ≡ record w { ptr = p }
unfolding seek
seek_back w p l = let e : 0 + p ≡ p = omega arith in rw (e, le→ltb w.size p l) refl

-- After a block is written to a valid blob, going back to where the write began and reading as
-- many bytes gives the block.
pub read-write :
    (block : List ℕ) (b : Blob)
    → IsValid b
    → (read (length block) (seek (pos b.ptr) seek_set (write block b).0).0).1 ≡ block
read-write block b h =
    let w = (write block b).0 in
    let (valid, bytes, at_end, _) = write_lem block b h in
    let inside : b.ptr ≤ w.size = omega (arith, valid.position) in
    let back : Blob = record w { ptr = b.ptr } in
    let back-IsValid : IsValid back = record {
      block = valid.block;
      fits = valid.fits;
      position = inside;
      owned = valid.owned;
    } in
    let front : length (take b.ptr (contents b)) ≡ b.ptr =
      omega (arith, length-take b.ptr (contents b), length-contents h, h.position) in
    let (_, _, got, _) = read_lem back back-IsValid (length block) in
    let found : (read (length block) back).1 ≡ block =
      got
      ∙ ap (λ c. take (length block) (drop b.ptr c)) bytes
      ∙ ap (take (length block)) (drop-append b.ptr (take b.ptr (contents b)) _ front)
      ∙ take-append_left (length block) block _ (omega arith)
      ∙ take_all block in
    ap (λ (c : Blob). (read (length block) c).1) (seek_back w b.ptr inside) ∙ found

low_byte_bound : (val : ℤ) → low_byte val < 256
unfolding low_byte
low_byte_bound (pos n) = omega arith
low_byte_bound (negsuc n) = omega arith

-- `_set` at an index inside a valid blob answers the value as it was given, and leaves the blob
-- valid; `_get` then finds the low byte of the value there, a number below 256, and elsewhere what
-- it found before.
pub blob_get-blob_set :
    (b : Blob) (i j : ℕ) (val : ℤ)
    → IsValid b
    → i < b.size
    → IsValid (blob_set (pos i) val b).0
      × ((blob_set (pos i) val b).1 ≡ number val)
      × (low_byte val < 256)
      × (blob_get (pos j) (blob_set (pos i) val b).0
          ≡ (if i == j then number (pos (low_byte val)) else blob_get (pos j) b))
unfolding blob_set blob_get
blob_get-blob_set b i j val h l =
    let x = low_byte val in
    let cell : get_or (set b.buf i x) j 0 ≡ (if i == j then x else get_or b.buf j 0) =
      get_or-set b.buf i j x 0 (omega (arith, h.block, h.fits)) in
    rw (lt→leb b.size i l) (
      record {
        block = length-set b.buf i _ ∙ h.block;
        fits = h.fits;
        position = h.position;
        owned = h.owned;
      },
      refl,
      low_byte_bound val,
      elim (Bool-cases (leb b.size j)) [
        | inl e ↦ rw (e, ne→== i j (omega (arith, leb→le b.size j e)), blob_get) refl
        | inr e ↦ elim (Bool-cases (i == j)) [
          | inl e' ↦ rw (e, cell, e') refl
          | inr e' ↦ rw (e, cell, e', blob_get) refl
        ]
      ],
    )
