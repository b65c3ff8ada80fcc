-- ===== src/Strings/Affixes.antt =====
-- The tests of both ends of a string.
use squirrel_gobject.Prelude.{
  ℕ, zero, suc, ◌-◌, ◌≡◌, ◌↔◌, refl, ap, ◌∙◌, leb, true, List, [], ◌∷◌, ◌++◌, length, length-append,
  take, drop, arith,
}
use squirrel_gobject.Prelude.Chars.{same_text}
use squirrel_gobject.Prelude.Texts.{same_text-eq, same_text_refl}
use squirrel_gobject.Strings.{startswith, endswith}

cut : (n : ℕ) (s : List ℕ) → s ≡ take n s ++ drop n s
cut zero s = refl
cut (suc n) [] = refl
cut (suc n) (c ∷ s) = ap (◌∷◌ c) (cut n s)

take-whole : (s t : List ℕ) → take (length s) (s ++ t) ≡ s
take-whole [] t = refl
take-whole (c ∷ s) t = ap (◌∷◌ c) (take-whole s t)

drop-whole : (s t : List ℕ) → drop (length s) (s ++ t) ≡ t
drop-whole [] t = refl
drop-whole (c ∷ s) t = drop-whole s t

startswith-prefix : (s cmp : List ℕ) → startswith s cmp ≡ true → s ≡ cmp ++ drop (length cmp) s
unfolding startswith
startswith-prefix s cmp h =
    let same : same_text (take (length cmp) s) cmp ≡ true = ground arith in
    let front = same_text-eq (take (length cmp) s) cmp same in
    cut (length cmp) s ∙ ap (λ x. x ++ drop (length cmp) s) front

prefix-startswith : (cmp rest : List ℕ) → startswith (cmp ++ rest) cmp ≡ true
unfolding startswith
prefix-startswith cmp rest =
    let fits : leb (length cmp) (length (cmp ++ rest)) ≡ true =
      ground (arith, length-append cmp rest) in
    rw (fits, take-whole cmp rest) (same_text_refl cmp)

endswith-suffix :
    (s cmp : List ℕ) → endswith s cmp ≡ true → s ≡ take (length s - length cmp) s ++ cmp
unfolding endswith
endswith-suffix s cmp h =
    let n = length s - length cmp in
    let same : same_text (drop n s) cmp ≡ true = ground arith in
    cut n s ∙ ap (λ x. take n s ++ x) (same_text-eq (drop n s) cmp same)

suffix-endswith : (before cmp : List ℕ) → endswith (before ++ cmp) cmp ≡ true
unfolding endswith
suffix-endswith before cmp =
    let fits : leb (length cmp) (length (before ++ cmp)) ≡ true =
      ground (arith, length-append before cmp) in
    let front : length (before ++ cmp) - length cmp ≡ length before =
      omega (arith, length-append before cmp) in
    rw (fits, front, drop-whole before cmp) (same_text_refl cmp)

-- `startswith` answers true exactly where the string is the other one with something behind it, and
-- `endswith` exactly where it is the other one with something before it.
pub startswith-endswith :
    (s cmp : List ℕ)
    → ((startswith s cmp ≡ true) ↔ ((rest : List ℕ) × (s ≡ cmp ++ rest)))
      × ((endswith s cmp ≡ true) ↔ ((before : List ℕ) × (s ≡ before ++ cmp)))
startswith-endswith s cmp = (
  (
    λ h. (drop (length cmp) s, startswith-prefix s cmp h),
    λ (rest, e). rw e (prefix-startswith cmp rest),
  ),
  (
    λ h. (take (length s - length cmp) s, endswith-suffix s cmp h),
    λ (before, e). rw e (suffix-endswith before cmp),
  ),
)
