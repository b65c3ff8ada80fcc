-- ===== src/Vm/Same.antt =====
-- Two pieces of code that act alike, apart from registers that nothing reads.
use squirrel_gobject.Prelude.{ℕ, ◌≡◌, refl, sym, Option, none, some, [], ◌∷◌}
use mathlib.Core.Path.{subst}
use squirrel_gobject.Prelude.Outcome.{Outcome, ok, err, out_of_fuel, ◌>>=◌}
use squirrel_gobject.Func.Instr.{Instr}
use squirrel_gobject.Vm.Machine.{Machine, Stepped, Ops, step, run, unless_jump}

module _ {V H : Type 0} where
  -- The same machine but for the registers outside of `L`, and the same way on.
  abbrev pub Alike : (ℕ → Type 0) → Machine V H × Option ℕ → Machine V H × Option ℕ → Type 0
  Alike L (m, f) (m', f') = (m.heap ≡ m'.heap) × (f ≡ f') × ((j : ℕ) → L j → m.regs j ≡ m'.regs j)

module _ {V H E : Type 0} where
  -- The same error, or the same result.
  abbrev pub Same : (ℕ → Type 0) → Stepped V H E → Stepped V H E → Type 0
  Same L (ok a) (ok b) = Alike L a b
  Same L (err e) (err e') = e ≡ e'
  Same L out_of_fuel out_of_fuel = Unit
  Same L _ _ = ⊥

  pub Same-refl : (L : ℕ → Type 0) (r : Stepped V H E) → Same L r r
  Same-refl L (ok (m, f)) = (refl, refl, λ j l. refl)
  Same-refl L (err e) = refl
  Same-refl L out_of_fuel = tt

  pub Same-weaken :
      (L M : ℕ → Type 0) (r r' : Stepped V H E) → ((j : ℕ) → M j → L j) → Same L r r' → Same M r r'
  Same-weaken L M (ok (m, f)) (ok (m', f')) w (h, g, k) = (h, g, λ j l. k j (w j l))
  Same-weaken L M (err e) (err e') w h = h
  Same-weaken L M out_of_fuel out_of_fuel w h = tt
  Same-weaken L M (ok a) (err e) w h = absurd h
  Same-weaken L M (ok a) out_of_fuel w h = absurd h
  Same-weaken L M (err e) (ok a) w h = absurd h
  Same-weaken L M (err e) out_of_fuel w h = absurd h
  Same-weaken L M out_of_fuel (ok a) w h = absurd h
  Same-weaken L M out_of_fuel (err e) w h = absurd h

  pub bind-Same {ℓ} :
      {A : Type ℓ} (L : ℕ → Type 0) (r : Outcome E A) (f g : A → Stepped V H E)
      → ((a : A) → Same L (f a) (g a))
      → Same L (r >>= f) (r >>= g)
  bind-Same L (ok a) f g h = h a
  bind-Same L (err e) f g h = refl
  bind-Same L out_of_fuel f g h = tt

  bind-stop : (r : Stepped V H E) → r >>= unless_jump (λ m. ok (m, none)) ≡ r
  bind-stop (ok (m, none)) = refl
  bind-stop (ok (m, some f)) = refl
  bind-stop (err e) = refl
  bind-stop out_of_fuel = refl

  pub bind_assoc {ℓ κ} :
      {A : Type ℓ} {B : Type κ} (r : Outcome E A) (f : A → Outcome E B) (g : B → Stepped V H E)
      → (r >>= f) >>= g ≡ r >>= (λ a. f a >>= g)
  bind_assoc (ok a) f g = refl
  bind_assoc (err e) f g = refl
  bind_assoc out_of_fuel f g = refl

module _ {V H E : Type 0} (o : Ops V H E) where
  pub run-one : (i : Instr) (m : Machine V H) → run o (i ∷ []) m ≡ step o i m
  unfolding run
  run-one i m = bind-stop (step o i m)

  pub run-two :
      (i i' : Instr) (m n : Machine V H)
      → step o i m ≡ ok (n, none)
      → run o (i ∷ i' ∷ []) m ≡ step o i' n
  unfolding run
  run-two i i' m n h = rw h (bind-stop (step o i' n))

  -- Two instructions of which the first one only changes registers, against one.
  pub fuse-Same :
      (L : ℕ → Type 0) (i i' w : Instr) (m n : Machine V H)
      → step o i m ≡ ok (n, none)
      → Same L (step o i' n) (step o w m)
      → Same L (run o (i ∷ i' ∷ []) m) (run o (w ∷ []) m)
  fuse-Same L i i' w m n h s = rw (run-two i i' m n h, run-one w m) s

  -- The same with a first instruction that ends with the computation `r`.
  pub compute-Same {ℓ} :
      {A : Type ℓ} (L : ℕ → Type 0) (i i' w : Instr) (m : Machine V H) (r : Outcome E A)
      (f g : A → Stepped V H E)
      → step o i m ≡ r >>= f
      → step o w m ≡ r >>= g
      → ((a : A) → Same L (f a >>= unless_jump (run o (i' ∷ []))) (g a))
      → Same L (run o (i ∷ i' ∷ []) m) (run o (w ∷ []) m)
  unfolding run
  compute-Same L i i' w m r f g hi hw h =
      let next = unless_jump (run o (i' ∷ [])) in
      subst (λ x. Same L (x >>= next) (run o (w ∷ []) m)) (sym hi)
        (rw (run-one w m, hw, bind_assoc r f next) (bind-Same L r (λ a. f a >>= next) g h))

  -- Two instructions in the second place that act alike.
  pub second-Same :
      (L : ℕ → Type 0) (i i' i'' : Instr) (m : Machine V H)
      → ((n : Machine V H) → Same L (step o i' n) (step o i'' n))
      → Same L (run o (i ∷ i' ∷ []) m) (run o (i ∷ i'' ∷ []) m)
  unfolding run
  second-Same L i i' i'' m h =
      bind-Same L (step o i m) (unless_jump (run o (i' ∷ []))) (unless_jump (run o (i'' ∷ []))) same
    where
      same :
          (a : Machine V H × Option ℕ)
          → Same L (unless_jump (run o (i' ∷ [])) a) (unless_jump (run o (i'' ∷ [])) a)
      same (n, none) = rw (run-one i' n, run-one i'' n) (h n)
      same (n, some f) = (refl, refl, λ j k. refl)
