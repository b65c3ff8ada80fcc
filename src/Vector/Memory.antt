-- ===== src/Vector/Memory.antt =====
-- The loops of `sqvector` (Squirrel3/squirrel/squtils.h) over the block of memory.
use squirrel_gobject.Prelude.{
  ℕ, zero, suc, ◌+◌, ◌-◌, ◌≤◌, ◌<◌, ◌≡◌, refl, ◌∙◌, ltb, leb, ◌&&◌, if◌then◌else◌, List, [], ◌∷◌,
  ◌++◌, length, take, replicate, get_or, set, arith, length-set, get_or-set,
}
use squirrel_gobject.Prelude.Segments.{take-set_last}
use squirrel_gobject.Vector.{fill_cells, copy_cells, shift_up}
use native.Mathlib.Numerals.{add-one}
use mathlib.Core.List.{append_assoc, append-nil}

module _ {ℓ} {A : Type ℓ} where
  pub length-fill_cells :
      (n i : ℕ) (x : A) (cells : List A) → length (fill_cells n i x cells) ≡ length cells
  unfolding fill_cells
  length-fill_cells zero i x cells = refl
  length-fill_cells (suc n) i x cells =
      length-fill_cells n (i + 1) x (set cells i x) ∙ length-set cells i x

  pub take-fill_cells :
      (n i k : ℕ) (x : A) (cells : List A)
      → k ≡ i + n
      → k ≤ length cells
      → take k (fill_cells n i x cells) ≡ take i cells ++ replicate n x
  unfolding fill_cells
  take-fill_cells zero i k x cells e h =
      let same : k ≡ i = omega arith in rw (same, append-nil) refl
  take-fill_cells (suc n) i k x cells e h =
      let rest =
        take-fill_cells n (i + 1) k x (set cells i x) (omega arith) (rw (length-set cells i x) h) in
      let last = rw (← add-one) at (take-set_last i cells x (omega arith)) in
      rw (rest, last) (append_assoc (take i cells) (x ∷ []) (replicate n x))

module _ {ℓ} {A : Type ℓ} (junk : A) where
  pub length-shift_up :
      (i idx : ℕ) (cells : List A) → length (shift_up junk i idx cells) ≡ length cells
  unfolding shift_up
  length-shift_up zero idx cells = refl
  length-shift_up (suc i) idx cells = ground (
    arith,
    length-shift_up i idx (set cells (suc i) (get_or cells i junk)),
    length-set cells (suc i) (get_or cells i junk),
  )

module _ {A : Type 0} (junk : A) where
  pub get_or-shift_up :
      (i idx j : ℕ) (cells : List A)
      → i < length cells
      → idx ≤ i
      → get_or (shift_up junk i idx cells) j junk ≡ (
          if ltb idx j
          then (if ltb i j then get_or cells j junk else get_or cells (j - 1) junk)
          else get_or cells j junk)
  unfolding shift_up
  get_or-shift_up zero idx j cells h l = ground arith
  get_or-shift_up (suc i) idx j cells h l = ground (
    arith,
    length-set cells (suc i) (get_or cells i junk),
    get_or-shift_up i idx j (set cells (suc i) (get_or cells i junk)),
    get_or-set cells (suc i) j (get_or cells i junk) junk,
    get_or-set cells (suc i) (j - 1) (get_or cells i junk) junk,
  )

module _ {ℓ} {A : Type ℓ} (junk : A) where
  pub length-copy_cells :
      (n i : ℕ) (source cells : List A) → length (copy_cells junk n i source cells) ≡ length cells
  unfolding copy_cells
  length-copy_cells zero i source cells = refl
  length-copy_cells (suc n) i source cells =
      length-copy_cells n (i + 1) source (set cells i (get_or source i junk))
      ∙ length-set cells i (get_or source i junk)

  pub get_or-copy_cells :
      (n i j : ℕ) (source cells : List A)
      → i + n ≤ length cells
      → get_or (copy_cells junk n i source cells) j junk
        ≡ (if leb i j && ltb j (i + n) then get_or source j junk else get_or cells j junk)
  unfolding copy_cells
  get_or-copy_cells zero i j source cells h = ground arith
  get_or-copy_cells (suc n) i j source cells h = ground (
    arith,
    length-set cells i (get_or source i junk),
    get_or-copy_cells n (i + 1) j source (set cells i (get_or source i junk)),
    get_or-set cells i j (get_or source i junk) junk,
  )
