-- ===== src/Prelude/Texts.antt =====
-- Equality of texts.
use Prim.Native.Nat.{ℕ}
use mathlib.Core.Bool.{true}
use mathlib.Core.List.{List, [], ◌∷◌}
use mathlib.Core.Path.{◌≡◌, refl}
use native.Mathlib.Omega.{arith}
use squirrel_gobject.Prelude.Chars.{same_text}

pub same_text-eq : (s t : List ℕ) → same_text s t ≡ true → s ≡ t
same_text-eq [] [] h = refl
same_text-eq [] (d ∷ t) h = absurd (cc h)
same_text-eq (c ∷ s) [] h = absurd (cc h)
same_text-eq (c ∷ s) (d ∷ t) h =
    let head : c ≡ d = ground arith in
    let tails : same_text s t ≡ true = ground arith in rw (head, same_text-eq s t tails) refl

pub same_text_refl : (s : List ℕ) → same_text s s ≡ true
same_text_refl [] = refl
same_text_refl (c ∷ s) = ground (arith, same_text_refl s)
