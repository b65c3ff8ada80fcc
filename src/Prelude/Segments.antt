-- ===== src/Prelude/Segments.antt =====
-- Prefixes and suffixes of a block of memory, and how writes show in them.
use squirrel_gobject.Prelude.Tests.{◌==◌, ltb, if◌then◌else◌}
use squirrel_gobject.Prelude.Lists.{length, take, drop, get_or, set}
use Prim.Native.Nat.{ℕ, zero, suc, ◌+◌, ◌-◌, ◌≤◌, ◌<◌}
use mathlib.Core.List.{List, [], ◌∷◌, ◌++◌}
use mathlib.Core.Path.{◌≡◌, refl, ap}
use native.Mathlib.Omega.{arith}

module _ {ℓ} {A : Type ℓ} where
  pub take-append_left : (n : ℕ) (xs ys : List A) → n ≤ length xs → take n (xs ++ ys) ≡ take n xs
  take-append_left zero xs ys h = refl
  take-append_left (suc n) [] ys h = absurd (omega arith)
  take-append_left (suc n) (x ∷ xs) ys h = ap (◌∷◌ x) (take-append_left n xs ys (omega arith))

  pub take-take : (m n : ℕ) (xs : List A) → m ≤ n → take m (take n xs) ≡ take m xs
  take-take zero n xs h = refl
  take-take (suc m) zero xs h = absurd (omega arith)
  take-take (suc m) (suc n) [] h = refl
  take-take (suc m) (suc n) (x ∷ xs) h = ap (◌∷◌ x) (take-take m n xs (omega arith))

  pub take-set_beyond : (n i : ℕ) (xs : List A) (v : A) → n ≤ i → take n (set xs i v) ≡ take n xs
  take-set_beyond zero i xs v h = refl
  take-set_beyond (suc n) i [] v h = refl
  take-set_beyond (suc n) zero (x ∷ xs) v h = absurd (omega arith)
  take-set_beyond (suc n) (suc i) (x ∷ xs) v h = ap (◌∷◌ x) (take-set_beyond n i xs v (omega arith))

  pub take-set_last :
      (n : ℕ) (xs : List A) (v : A)
      → n < length xs
      → take (suc n) (set xs n v) ≡ take n xs ++ v ∷ []
  take-set_last n [] v h = absurd (omega arith)
  take-set_last zero (x ∷ xs) v h = refl
  take-set_last (suc n) (x ∷ xs) v h = ap (◌∷◌ x) (take-set_last n xs v (omega arith))

  pub take-set : (n i : ℕ) (xs : List A) (v : A) → take n (set xs i v) ≡ set (take n xs) i v
  take-set zero i xs v = refl
  take-set (suc n) i [] v = refl
  take-set (suc n) zero (x ∷ xs) v = refl
  take-set (suc n) (suc i) (x ∷ xs) v = ap (◌∷◌ x) (take-set n i xs v)

  pub take_all : (xs : List A) → take (length xs) xs ≡ xs
  take_all [] = refl
  take_all (x ∷ xs) = ap (◌∷◌ x) (take_all xs)

  pub get_or-take : (n i : ℕ) (xs : List A) (d : A) → i < n → get_or (take n xs) i d ≡ get_or xs i d
  get_or-take zero i xs d h = absurd (omega arith)
  get_or-take (suc n) i [] d h = refl
  get_or-take (suc n) zero (x ∷ xs) d h = refl
  get_or-take (suc n) (suc i) (x ∷ xs) d h = get_or-take n i xs d (omega arith)

  -- Two blocks of one length agree if they agree at each index.
  pub list_ext :
      (xs ys : List A) (d : A)
      → length xs ≡ length ys
      → ((i : ℕ) → i < length xs → get_or xs i d ≡ get_or ys i d)
      → xs ≡ ys
  list_ext [] [] d h e = refl
  list_ext [] (y ∷ ys) d h e = absurd (omega arith)
  list_ext (x ∷ xs) [] d h e = absurd (omega arith)
  list_ext (x ∷ xs) (y ∷ ys) d h e =
      let rest = list_ext xs ys d (omega arith) (λ i l. e (suc i) (omega arith)) in
      cc (rest, e 0 (omega arith))

  pub take_short : (n : ℕ) (xs : List A) → length xs ≤ n → take n xs ≡ xs
  take_short zero [] h = refl
  take_short zero (x ∷ xs) h = absurd (omega arith)
  take_short (suc n) [] h = refl
  take_short (suc n) (x ∷ xs) h = ap (◌∷◌ x) (take_short n xs (omega arith))

module _ {ℓ} {A : Type ℓ} where
  pub get_or-append_left :
      (xs ys : List A) (i : ℕ) (d : A) → i < length xs → get_or (xs ++ ys) i d ≡ get_or xs i d
  get_or-append_left [] ys i d h = absurd (omega arith)
  get_or-append_left (x ∷ xs) ys zero d h = refl
  get_or-append_left (x ∷ xs) ys (suc i) d h = get_or-append_left xs ys i d (omega arith)

  pub get_or-append_right :
      (xs ys : List A) (i k : ℕ) (d : A) → i ≡ length xs + k → get_or (xs ++ ys) i d ≡ get_or ys k d
  get_or-append_right [] ys i k d e = let e' : i ≡ k = omega arith in rw e'
  get_or-append_right (x ∷ xs) ys zero k d e = absurd (omega arith)
  get_or-append_right (x ∷ xs) ys (suc i) k d e = get_or-append_right xs ys i k d (omega arith)

  pub get_or-drop :
      (n i k : ℕ) (xs : List A) (d : A) → k ≡ n + i → get_or (drop n xs) i d ≡ get_or xs k d
  get_or-drop zero i k xs d e = let e' : i ≡ k = omega arith in rw e'
  get_or-drop (suc n) i k [] d e = refl
  get_or-drop (suc n) i zero (x ∷ xs) d e = absurd (omega arith)
  get_or-drop (suc n) i (suc k) (x ∷ xs) d e = get_or-drop n i k xs d (omega arith)

  -- The list with `x` put before position `i`, and the list without position `i`.
  abbrev pub insert_at : ℕ → A → List A → List A
  insert_at i x xs = take i xs ++ x ∷ drop i xs

  abbrev pub remove_at : ℕ → List A → List A
  remove_at i xs = take i xs ++ drop (suc i) xs

  pub length-insert_at : (i : ℕ) (x : A) (xs : List A) → length (insert_at i x xs) ≡ length xs + 1
  length-insert_at zero x xs = omega arith
  length-insert_at (suc i) x [] = refl
  length-insert_at (suc i) x (y ∷ xs) = omega (arith, length-insert_at i x xs)

  pub length-remove_at :
      (i : ℕ) (xs : List A) → i < length xs → length (remove_at i xs) ≡ length xs - 1
  length-remove_at i [] h = absurd (omega arith)
  length-remove_at zero (x ∷ xs) h = omega arith
  length-remove_at (suc i) (x ∷ xs) h = omega (arith, length-remove_at i xs (omega arith))

  pub get_or-insert_at_before :
      (i j : ℕ) (x : A) (xs : List A) (d : A)
      → j < i
      → i ≤ length xs
      → get_or (insert_at i x xs) j d ≡ get_or xs j d
  get_or-insert_at_before zero j x xs d h l = absurd (omega arith)
  get_or-insert_at_before (suc i) j x [] d h l = absurd (omega arith)
  get_or-insert_at_before (suc i) zero x (y ∷ xs) d h l = refl
  get_or-insert_at_before (suc i) (suc j) x (y ∷ xs) d h l =
      get_or-insert_at_before i j x xs d (omega arith) (omega arith)

  pub get_or-insert_at_self :
      (i : ℕ) (x : A) (xs : List A) (d : A) → i ≤ length xs → get_or (insert_at i x xs) i d ≡ x
  get_or-insert_at_self zero x xs d l = refl
  get_or-insert_at_self (suc i) x [] d l = absurd (omega arith)
  get_or-insert_at_self (suc i) x (y ∷ xs) d l = get_or-insert_at_self i x xs d (omega arith)

  pub get_or-insert_at_after :
      (i j : ℕ) (x : A) (xs : List A) (d : A)
      → i ≤ j
      → i ≤ length xs
      → get_or (insert_at i x xs) (suc j) d ≡ get_or xs j d
  get_or-insert_at_after zero j x xs d h l = refl
  get_or-insert_at_after (suc i) j x [] d h l = absurd (omega arith)
  get_or-insert_at_after (suc i) zero x (y ∷ xs) d h l = absurd (omega arith)
  get_or-insert_at_after (suc i) (suc j) x (y ∷ xs) d h l =
      get_or-insert_at_after i j x xs d (omega arith) (omega arith)

  pub drop-take : (i k n : ℕ) (xs : List A) → n ≡ i + k → drop i (take n xs) ≡ take k (drop i xs)
  drop-take zero k n xs e = let e' : n ≡ k = omega arith in rw e'
  drop-take (suc i) k zero xs e = absurd (omega arith)
  drop-take (suc i) zero (suc n) [] e = refl
  drop-take (suc i) (suc k) (suc n) [] e = refl
  drop-take (suc i) k (suc n) (x ∷ xs) e = drop-take i k n xs (omega arith)

  pub take-append_right :
      (n k : ℕ) (xs ys : List A) → n ≡ length xs + k → take n (xs ++ ys) ≡ xs ++ take k ys
  take-append_right n k [] ys e = let e' : n ≡ k = omega arith in rw e'
  take-append_right zero k (x ∷ xs) ys e = absurd (omega arith)
  take-append_right (suc n) k (x ∷ xs) ys e = ap (◌∷◌ x) (take-append_right n k xs ys (omega arith))

  pub drop_all : (n : ℕ) (xs : List A) → length xs ≤ n → drop n xs ≡ []
  drop_all zero [] h = refl
  drop_all zero (x ∷ xs) h = absurd (omega arith)
  drop_all (suc n) [] h = refl
  drop_all (suc n) (x ∷ xs) h = drop_all n xs (omega arith)

module _ {A : Type 0} where
  pub get_or-insert_at :
      (i j : ℕ) (x : A) (xs : List A) (d : A)
      → i ≤ length xs
      → get_or (insert_at i x xs) j d
        ≡ (if ltb i j then get_or xs (j - 1) d else if i == j then x else get_or xs j d)
  get_or-insert_at i zero x xs d l =
      ground (arith, get_or-insert_at_before i 0 x xs d, get_or-insert_at_self i x xs d)
  get_or-insert_at i (suc j) x xs d l = ground (
    arith,
    get_or-insert_at_before i (suc j) x xs d,
    get_or-insert_at_self i x xs d,
    get_or-insert_at_after i j x xs d,
  )
