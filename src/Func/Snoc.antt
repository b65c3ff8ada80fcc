-- ===== src/Func/Snoc.antt =====
-- Vectors seen from their end, as the code generator uses them.
use squirrel_gobject.Prelude.{
  ℕ, zero, suc, ◌+◌, ◌-◌, ◌≡◌, refl, ap, List, [], ◌∷◌, ◌++◌, map, length, get_or, arith,
  length-append,
}
use squirrel_gobject.Func.State.{without_last, back}

module _ {ℓ} {A : Type ℓ} where
  pub get_or-snoc : (xs : List A) (x d : A) → get_or (xs ++ x ∷ []) (length xs) d ≡ x
  get_or-snoc [] x d = refl
  get_or-snoc (y ∷ xs) x d = get_or-snoc xs x d

  pub length-snoc : (xs : List A) (x : A) → length (xs ++ x ∷ []) ≡ length xs + 1
  length-snoc xs x = length-append xs (x ∷ [])

  pub back-snoc : (xs : List A) (x d : A) → back (xs ++ x ∷ []) d ≡ x
  back-snoc xs x d =
      let last : length (xs ++ x ∷ []) - 1 ≡ length xs = omega (arith, length-snoc xs x) in
      rw last (get_or-snoc xs x d)

  pub without_last-snoc : (xs : List A) (x : A) → without_last (xs ++ x ∷ []) ≡ xs
  without_last-snoc [] x = refl
  without_last-snoc (y ∷ []) x = refl
  without_last-snoc (y ∷ z ∷ xs) x = ap (λ t. y ∷ t) (without_last-snoc (z ∷ xs) x)

module _ {ℓ κ} {A : Type ℓ} {B : Type κ} (f : A → B) where
  pub length-map : (xs : List A) → length (map f xs) ≡ length xs
  length-map [] = refl
  length-map (x ∷ xs) = ap suc (length-map xs)

  pub map-snoc : (xs : List A) (x : A) → map f (xs ++ x ∷ []) ≡ map f xs ++ f x ∷ []
  map-snoc [] x = refl
  map-snoc (y ∷ xs) x = ap (λ t. f y ∷ t) (map-snoc xs x)

  pub map-without_last : (xs : List A) → map f (without_last xs) ≡ without_last (map f xs)
  map-without_last [] = refl
  map-without_last (x ∷ []) = refl
  map-without_last (x ∷ y ∷ xs) = ap (λ t. f x ∷ t) (map-without_last (y ∷ xs))

  pub get_or-map : (xs : List A) (n : ℕ) (d : A) → f (get_or xs n d) ≡ get_or (map f xs) n (f d)
  get_or-map [] n d = refl
  get_or-map (x ∷ xs) zero d = refl
  get_or-map (x ∷ xs) (suc n) d = get_or-map xs n d
