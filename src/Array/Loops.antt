-- ===== src/Array/Loops.antt =====
-- The loops of `SQArray::Extend` and `sq_arrayreverse`.
use squirrel_gobject.Prelude.{
  ℕ, zero, suc, ◌+◌, ◌-◌, ◌*◌, ◌/◌, ◌≤◌, ◌<◌, ◌≡◌, refl, ap, sym, ◌∙◌, ltb, leb, if◌then◌else◌,
  ◌&&◌, ◌||◌, Option, none, some, List, [], ◌∷◌, ◌++◌, length, take, drop, get_or, set, arith,
  length-set, get_or-set, length-append, length-take, Bool-cases, inl, inr, ltb→le,
}
use squirrel_gobject.Prelude.Segments.{
  get_or-append_left, get_or-append_right, get_or-take, list_ext, drop_all,
}
use squirrel_gobject.Vector
use squirrel_gobject.Vector.{Vector, IsValid, contents}
use squirrel_gobject.Vector.Laws.{push_back_lem, length-contents}
use squirrel_gobject.Array.{read_from, extend_loop, extend, reverse_loop, array_reverse}
use native.Mathlib.Numerals.{add-one}
use mathlib.Core.List.{reverse, append_assoc, append-nil, reverse-append}

module _ {ℓ} {A : Type ℓ} where
  drop-cons :
      (i : ℕ) (xs : List A) (d : A) → i < length xs → drop i xs ≡ get_or xs i d ∷ drop (suc i) xs
  drop-cons i [] d h = absurd (omega arith)
  drop-cons zero (x ∷ xs) d h = refl
  drop-cons (suc i) (x ∷ xs) d h = drop-cons i xs d (omega arith)

  drop_step :
      (c c' xs : List A) (x : A) (i : ℕ)
      → c' ≡ c ++ x ∷ []
      → get_or xs i x ≡ x
      → i < length xs
      → c' ++ drop (i + 1) xs ≡ c ++ drop i xs
  drop_step c c' xs x i e same h =
      ap (λ l. l ++ drop (i + 1) xs) e
      ∙ append_assoc c (x ∷ []) (drop (i + 1) xs)
      ∙ rw (drop-cons i xs x h, same, add-one) refl

  get_or_any : (xs : List A) (i : ℕ) (d e : A) → i < length xs → get_or xs i d ≡ get_or xs i e
  get_or_any [] i d e h = absurd (omega arith)
  get_or_any (x ∷ xs) zero d e h = refl
  get_or_any (x ∷ xs) (suc i) d e h = get_or_any xs i d e (omega arith)

  length-reverse : (xs : List A) → length (reverse xs) ≡ length xs
  length-reverse [] = refl
  length-reverse (x ∷ xs) =
      rw (reverse-append (x ∷ []) xs, length-append) (omega (arith, length-reverse xs))

  get_or-reverse :
      (xs : List A) (j k : ℕ) (d : A)
      → j + k + 1 ≡ length xs
      → get_or (reverse xs) j d ≡ get_or xs k d
  get_or-reverse [] j k d e = absurd (omega arith)
  get_or-reverse (x ∷ xs) j zero d e =
      rw (reverse-append (x ∷ []) xs)
        (get_or-append_right (reverse xs) (x ∷ []) j 0 d (omega (arith, length-reverse xs)))
  get_or-reverse (x ∷ xs) j (suc k) d e = rw (reverse-append (x ∷ []) xs) (
      get_or-append_left (reverse xs) (x ∷ []) j d (omega (arith, length-reverse xs))
      ∙ get_or-reverse xs j k d (omega arith))

  empty_contents : (v : Vector A) → v.size ≡ 0 → contents v ≡ []
  empty_contents v e = ap (λ n. take n v.vals) e

module _ {A : Type 0} (junk : A) where
  length-reverse_loop :
      (n i last : ℕ) (cells : List A) → length (reverse_loop junk n i last cells) ≡ length cells
  unfolding reverse_loop
  length-reverse_loop zero i last cells = refl
  length-reverse_loop (suc n) i last cells =
      let moved = set cells i (get_or cells (last - i) junk) in
      length-reverse_loop n (i + 1) last (set moved (last - i) (get_or cells i junk))
      ∙ length-set moved (last - i) (get_or cells i junk)
      ∙ length-set cells i (get_or cells (last - i) junk)

  -- The rounds from `i` on swap the cells between `i` and `last - i` from the outside inwards.
  get_or-reverse_loop :
      (n i last j : ℕ) (cells : List A)
      → last < length cells
      → 2 * (i + n) ≤ last + 1
      → get_or (reverse_loop junk n i last cells) j junk ≡ (
          if (leb i j && ltb j (i + n)) || (ltb (last - (i + n)) j && leb j (last - i))
          then get_or cells (last - j) junk
          else get_or cells j junk)
  unfolding reverse_loop
  get_or-reverse_loop zero i last j cells h l = ground arith
  get_or-reverse_loop (suc n) i last j cells h l =
      let moved = set cells i (get_or cells (last - i) junk) in
      ground (
        arith,
        get_or-reverse_loop n (i + 1) last j (set moved (last - i) (get_or cells i junk)),
        length-set moved (last - i) (get_or cells i junk),
        length-set cells i (get_or cells (last - i) junk),
        get_or-set moved (last - i) j (get_or cells i junk) junk,
        get_or-set moved (last - i) (last - j) (get_or cells i junk) junk,
        get_or-set cells i j (get_or cells (last - i) junk) junk,
        get_or-set cells i (last - j) (get_or cells (last - i) junk) junk,
      )

  mirror :
      (n j : ℕ) (cells : List A)
      → j < n
      → n ≤ length cells
      → get_or (reverse_loop junk (n / 2) 0 (n - 1) cells) j junk ≡ get_or cells (n - 1 - j) junk
  mirror n j cells lt l = ground (arith, get_or-reverse_loop (n / 2) 0 (n - 1) j cells)

  -- `sq_arrayreverse` reverses the objects of a valid array; it stays valid and keeps its size.
  pub array_reverse_lem :
      (v : Vector A)
      → IsValid v
      → IsValid (array_reverse junk v)
        × (contents (array_reverse junk v) ≡ reverse (contents v))
        × ((array_reverse junk v).size ≡ v.size)
  unfolding array_reverse
  array_reverse_lem v h = elim (Bool-cases (ltb 0 v.size)) [
    | inl e ↦
        let cells = reverse_loop junk (v.size / 2) 0 (v.size - 1) v.vals in
        let long = length-reverse_loop (v.size / 2) 0 (v.size - 1) v.vals in
        rw e (
          omega (arith, long, h),
          list_ext _ _ junk
              (omega
                (arith, length-reverse (contents v), length-contents h, length-take v.size cells))
              (λ j lt.
                let inside : j < v.size = omega (arith, length-take v.size cells) in
                get_or-take v.size j cells junk inside
                ∙ mirror v.size j v.vals inside (omega arith)
                ∙ sym (get_or-take v.size (v.size - 1 - j) v.vals junk (omega arith))
                ∙ sym (
                    get_or-reverse (contents v) j (v.size - 1 - j) junk
                      (omega (arith, length-contents h)))),
          refl,
        )
    | inr e ↦
        let nil : contents v ≡ [] = empty_contents v (omega (arith, ltb→le 0 v.size e)) in
        rw e (h, rw nil refl, refl)
  ]

module _ {A : Type 0} (junk : A) where
  -- Extending by another array appends its objects from position `i` on.
  extend_loop_other :
      (n i : ℕ) (a v : Vector A)
      → IsValid a
      → IsValid v
      → i + n ≡ a.size
      → IsValid (extend_loop junk n i (some a) v)
        × (contents (extend_loop junk n i (some a) v) ≡ contents v ++ drop i (contents a))
  unfolding extend_loop
  extend_loop_other zero i a v ha h e =
      (h, rw (drop_all i (contents a) (omega (arith, length-contents ha)), append-nil) refl)
  extend_loop_other (suc n) i a v ha h e =
      let x = get_or a.vals i junk in
      let p = push_back_lem junk x v h in
      let r = extend_loop_other n (i + 1) a (Vector.push_back junk x v) ha p.0 (omega arith) in
      let here : i < length (contents a) = omega (arith, length-contents ha) in
      let same =
        get_or_any (contents a) i x junk here ∙ get_or-take a.size i a.vals junk (omega arith) in
      (r.0, r.1 ∙ drop_step (contents v) _ (contents a) x i p.1 same here)

  -- So does extending by itself, since the objects that were there stay in front.
  extend_loop_self :
      (n i : ℕ) (xs : List A) (v : Vector A) (ys : List A)
      → IsValid v
      → contents v ≡ xs ++ ys
      → i + n ≡ length xs
      → IsValid (extend_loop junk n i none v)
        × (contents (extend_loop junk n i none v) ≡ contents v ++ drop i xs)
  unfolding extend_loop
  extend_loop_self zero i xs v ys h c e = (h, rw (drop_all i xs (omega arith), append-nil) refl)
  extend_loop_self (suc n) i xs v ys h c e =
      let x = get_or v.vals i junk in
      let p = push_back_lem junk x v h in
      let c' = p.1 ∙ ap (λ l. l ++ x ∷ []) c ∙ append_assoc xs ys (x ∷ []) in
      let r =
        extend_loop_self n (i + 1) xs (Vector.push_back junk x v) (ys ++ x ∷ []) p.0 c'
          (omega arith) in
      let inside : i < v.size =
        omega (arith, ap length c, length-append xs ys, length-contents h) in
      let same =
        get_or_any xs i x junk (omega arith)
        ∙ sym (get_or-append_left xs ys i junk (omega arith))
        ∙ sym (ap (λ l. get_or l i junk) c)
        ∙ get_or-take v.size i v.vals junk inside in
      (r.0, r.1 ∙ drop_step (contents v) _ xs x i p.1 same (omega arith))

  -- Between valid arrays `Extend` appends the objects of the other array, or, where it reads from
  -- itself, those it had at the start; the array stays valid.
  pub extend_lem :
      (source : Option (Vector A)) (v : Vector A)
      → IsValid (read_from source v)
      → IsValid v
      → IsValid (extend junk source v)
        × (contents (extend junk source v) ≡ contents v ++ contents (read_from source v))
  unfolding extend
  extend_lem none v ha h =
      extend_loop_self v.size 0 (contents v) v [] h (sym (append-nil (contents v)))
        (omega (arith, length-contents h))
  extend_lem (some a) v ha h = extend_loop_other a.size 0 a v ha h (omega arith)
