-- ===== src/Prelude/Outcome.antt =====
-- Results of code that may stop with an error, and what a model on fuel has to show of them.
use mathlib.Core.Bool.{Bool, true, false}
use mathlib.Core.Path.{◌≡◌, refl}
use squirrel_gobject.Prelude.Tests.{if◌then◌else◌}

pub data Outcome {ℓ} (E : Type 0) (A : Type ℓ) : Type ℓ where
  ok : A → Outcome E A
  err : E → Outcome E A
  out_of_fuel : Outcome E A

infixl 5 ◌>>=◌
abbrev pub ◌>>=◌ {ℓ κ} :
    {E : Type 0} {A : Type ℓ} {B : Type κ} → Outcome E A → (A → Outcome E B) → Outcome E B
ok a >>= f = f a
err e >>= f = err e
out_of_fuel >>= f = out_of_fuel

-- The model's fuel is enough, and an answer is as described.
abbrev pub Ends {ℓ} : {E : Type 0} {A : Type ℓ} → (A → Type 0) → Outcome E A → Type 0
Ends P (ok a) = P a
Ends P (err e) = Unit
Ends P out_of_fuel = ⊥

module _ {E : Type 0} where
  pub bind-Ends {ℓ κ} :
      {A : Type ℓ} {B : Type κ} (P : A → Type 0) (Q : B → Type 0) (r : Outcome E A)
      (f : A → Outcome E B)
      → Ends P r
      → ((a : A) → P a → Ends Q (f a))
      → Ends Q (r >>= f)
  bind-Ends P Q (ok a) f h g = g a h
  bind-Ends P Q (err e) f h g = tt
  bind-Ends P Q out_of_fuel f h g = h

  pub map-Ends {ℓ} :
      {A : Type ℓ} (P Q : A → Type 0) (r : Outcome E A)
      → Ends P r
      → ((a : A) → P a → Q a)
      → Ends Q r
  map-Ends P Q (ok a) h g = g a h
  map-Ends P Q (err e) h g = tt
  map-Ends P Q out_of_fuel h g = h

  pub if-Ends {ℓ} :
      {A : Type ℓ} (P : A → Type 0) (b : Bool) (x y : Outcome E A)
      → (b ≡ true → Ends P x)
      → (b ≡ false → Ends P y)
      → Ends P (if b then x else y)
  if-Ends P true x y f g = f refl
  if-Ends P false x y f g = g refl
