-- ===== src/Vector/Laws.antt =====
-- What `push_back`, `pop_back`, `resize` and the reallocations do to the contents.
use squirrel_gobject.Prelude.{
  ℕ, ◌+◌, ◌-◌, ◌*◌, ◌≤◌, ◌<◌, ◌≡◌, refl, ap, sym, Bool, true, false, ◌∙◌, ltb, leb, if◌then◌else◌,
  [], ◌∷◌, ◌++◌, inl, inr, Bool-cases, ltb→lt, ltb→le, leb→lt, length, take, replicate, set, arith,
  length-set, length-append, length-take, length-replicate,
}
use squirrel_gobject.Prelude.Segments.{take-set_last, take-append_left, take-take, take_short}
use squirrel_gobject.Vector.{
  Vector, IsValid, contents, pred64, realloc, reserve, resize, shrink_to_fit, push_back, pop_back,
  pred64_pos, fill_cells,
}
use squirrel_gobject.Vector.Memory.{length-fill_cells, take-fill_cells}
use native.Mathlib.Numerals.{add-one}
use mathlib.Core.List.{append-nil}

-- `w` is `v` in another block: the same objects, and room for `n` of them.
pub record Keeps {ℓ} {A : Type ℓ} (n : ℕ) (v w : Vector A) : Type ℓ where
  pub valid : IsValid w
  pub same : contents w ≡ contents v
  pub sized : w.size ≡ v.size
  pub room : n ≤ w.allocated

module _ {ℓ} {A : Type ℓ} where
  pub length-contents : {v : Vector A} → IsValid v → length (contents v) ≡ v.size
  length-contents {v} h = omega (arith, length-take v.size v.vals)

  -- `_vals[_size] = x; _size++` where there is room
  pub append-IsValid :
      {v : Vector A} (x : A)
      → IsValid v
      → v.size < v.allocated
      → IsValid (record v { vals = set v.vals v.size x; size = v.size + 1 })
  append-IsValid {v} x h l = omega (arith, length-set v.vals v.size x)

  pub contents-append :
      {v : Vector A} (x : A)
      → IsValid v
      → v.size < v.allocated
      → contents (record v { vals = set v.vals v.size x; size = v.size + 1 }) ≡ contents v ++ x ∷ []
  contents-append {v} x h l = rw (add-one) (take-set_last v.size v.vals x (omega arith))

module _ {ℓ} {A : Type ℓ} (junk : A) where
  realloc-block :
      (n : ℕ) (v : Vector A) → length (realloc junk n v).vals ≡ (realloc junk n v).allocated
  unfolding realloc
  realloc-block n v =
      let m = if ltb 0 n then n else 4 in
      rw (length-append, length-take, length-replicate) (omega arith)

  realloc-room :
      (n : ℕ) (v : Vector A)
      → (n ≤ (realloc junk n v).allocated) × (0 < (realloc junk n v).allocated)
  unfolding realloc
  realloc-room n v = elim (Bool-cases (ltb 0 n)) [
    | inl e ↦ rw e (omega (arith, ltb→lt 0 n e))
    | inr e ↦ rw e (omega (arith, ltb→le 0 n e))
  ]

  realloc-contents :
      (n : ℕ) (v : Vector A) → IsValid v → v.size ≤ n → contents (realloc junk n v) ≡ contents v
  unfolding realloc
  realloc-contents n v h l =
      let m = if ltb 0 n then n else 4 in
      let wide : v.size ≤ m = omega (arith, realloc-room n v) in
      let long : v.size ≤ length (take m v.vals) = rw length-take (omega arith) in
      take-append_left v.size (take m v.vals) _ long ∙ take-take v.size m v.vals wide

  -- A reallocation that does not cut the objects keeps them.
  pub realloc-Keeps : (n : ℕ) (v : Vector A) → IsValid v → v.size ≤ n → Keeps n v (realloc junk n v)
  unfolding realloc
  realloc-Keeps n v h l = record {
    valid = record { block = realloc-block n v; fits = omega (arith, realloc-room n v) };
    same = realloc-contents n v h l;
    sized = refl;
    room = (realloc-room n v).0;
  }

  self-Keeps : (n : ℕ) (v : Vector A) → IsValid v → n ≤ v.allocated → Keeps n v v
  self-Keeps n v h l = record { valid = h; same = refl; sized = refl; room = l }

  -- A call of `_realloc` behind a test that finds too little room.
  pub guarded-Keeps :
      (b : Bool) (k n : ℕ) (v : Vector A)
      → IsValid v
      → (b ≡ true → (v.size ≤ k) × (n ≤ (realloc junk k v).allocated))
      → (b ≡ false → n ≤ v.allocated)
      → Keeps n v (if b then realloc junk k v else v)
  guarded-Keeps true k n v h grow stay =
      let r = realloc-Keeps k v h (grow refl).0 in
      record { valid = r.valid; same = r.same; sized = r.sized; room = (grow refl).1 }
  guarded-Keeps false k n v h grow stay = self-Keeps n v h (stay refl)

  grown-Keeps :
      (v : Vector A)
      → IsValid v
      → Keeps (v.size + 1) v (if leb v.allocated v.size then realloc junk (v.size * 2) v else v)
  grown-Keeps v h =
      guarded-Keeps (leb v.allocated v.size) (v.size * 2) (v.size + 1) v h
        (λ e. (omega arith, omega (arith, realloc-room (v.size * 2) v)))
        (λ e. omega (arith, leb→lt v.allocated v.size e))

  -- On a valid vector `push_back` appends the object, whether or not the block has to grow, and
  -- the vector stays valid.
  pub push_back_lem :
      (x : A) (v : Vector A)
      → IsValid v
      → IsValid (push_back junk x v) × (contents (push_back junk x v) ≡ contents v ++ x ∷ [])
  unfolding push_back
  push_back_lem x v h =
      let k = grown-Keeps v h in
      let room : _ < _ = omega (arith, k.room, k.sized) in
      (append-IsValid x k.valid room, contents-append x k.valid room ∙ ap (λ c. c ++ x ∷ []) k.same)

  -- On a valid vector that is not empty `pop_back` drops the last object, and the vector stays
  -- valid.
  pub pop_back_lem :
      (v : Vector A)
      → IsValid v
      → 0 < v.size
      → IsValid (pop_back v) × (contents (pop_back v) ≡ take (v.size - 1) (contents v))
  unfolding pop_back
  pop_back_lem v h l =
      let e : pred64 v.size ≡ v.size - 1 = pred64_pos v.size l in
      (omega arith, rw e (sym (take-take (v.size - 1) v.size v.vals (omega arith))))

  pub widened-Keeps :
      (n : ℕ) (v : Vector A)
      → IsValid v
      → Keeps n v (if ltb v.allocated n then realloc junk n v else v)
  widened-Keeps n v h =
      guarded-Keeps (ltb v.allocated n) n n v h
        (λ e. (omega (arith, ltb→lt v.allocated n e), (realloc-room n v).0))
        (λ e. ltb→le v.allocated n e)

  filled :
      (n : ℕ) (x : A) (v w : Vector A)
      → IsValid v
      → Keeps n v w
      → v.size < n
      → IsValid (record w { vals = fill_cells (n - w.size) w.size x w.vals; size = n })
        × (take n (fill_cells (n - w.size) w.size x w.vals)
            ≡ take n (contents v) ++ replicate (n - v.size) x)
  filled n x v w h k l = (
    omega (arith, length-fill_cells (n - w.size) w.size x w.vals, k.valid, k.room),
    (take-fill_cells (n - w.size) w.size n x w.vals (omega (arith, k.sized))
          (omega (arith, k.valid.block, k.room)))
        ∙ cc (k.same, k.sized, take_short n (contents v) (omega (arith, length-contents h))),
  )

  cut :
      (n : ℕ) (x : A) (v w : Vector A)
      → Keeps n v w
      → n ≤ w.size
      → IsValid (record w { size = n })
        × (take n w.vals ≡ take n (contents v) ++ replicate (n - v.size) x)
  cut n x v w k l =
      let nil : n - v.size ≡ 0 = omega (arith, k.sized) in
      (
        omega (arith, k.valid.block, k.room),
        rw (nil, append-nil, ← k.same, take-take n w.size w.vals l) refl,
      )

  -- On a valid vector `resize` keeps the first `n` objects, fills up with `x` to `n` objects, and
  -- leaves the vector valid.
  pub resize_lem :
      (n : ℕ) (x : A) (v : Vector A)
      → IsValid v
      → IsValid (resize junk n x v)
        × (contents (resize junk n x v) ≡ take n (contents v) ++ replicate (n - v.size) x)
  unfolding resize
  resize_lem n x v h =
      let w = if ltb v.allocated n then realloc junk n v else v in
      let k = widened-Keeps n v h in
      elim (Bool-cases (ltb w.size n)) [
        | inl e ↦ rw e (filled n x v w h k (omega (arith, ltb→lt w.size n e, k.sized)))
        | inr e ↦ rw e (cut n x v w k (ltb→le w.size n e))
      ]

  pub size-resize : (n : ℕ) (x : A) (v : Vector A) → (resize junk n x v).size ≡ n
  unfolding resize
  size-resize n x v =
      let w = if ltb v.allocated n then realloc junk n v else v in
      elim (Bool-cases (ltb w.size n)) [ inl e ↦ rw e | inr e ↦ rw e ]

  -- `shrinktofit` leaves a valid vector valid, with the same objects and the same size.
  pub shrink_to_fit-Keeps : (v : Vector A) → IsValid v → Keeps v.size v (shrink_to_fit junk v)
  unfolding shrink_to_fit
  shrink_to_fit-Keeps v h =
      guarded-Keeps (ltb 4 v.size) v.size v.size v h (λ e. (omega arith, (realloc-room v.size v).0))
        (λ e. h.fits)

  -- `reserve` changes no object if it asks for enough room for those there are.
  pub reserve-Keeps : (n : ℕ) (v : Vector A) → IsValid v → v.size ≤ n → Keeps n v (reserve junk n v)
  unfolding reserve
  reserve-Keeps n v h l = realloc-Keeps n v h l
