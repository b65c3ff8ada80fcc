-- ===== src/Table/Chains.antt =====
-- Chains of nodes, over a function `nx` that gives the node that `next` points to.
use squirrel_gobject.Prelude.{
  ℕ, zero, suc, ◌≤◌, ◌<◌, ◌≡◌, refl, ap, ◌∙◌, ◌⊎◌, inl, inr, Option, none, some, arith,
}
use mathlib.Core.Path.{subst}

-- The chain from `p` comes to its end within `k` nodes.
abbrev pub Ends : ℕ → (ℕ → Option ℕ) → ℕ → Type 0
Ends zero nx p = ⊥
Ends (suc k) nx p = (nx p ≡ none) ⊎ ((q : ℕ) × (nx p ≡ some q) × Ends k nx q)

-- The chain from a node leads to another.
pub data Leads (nx : ℕ → Option ℕ) : ℕ → ℕ → Type 0 where
  here : {p : ℕ} → Leads nx p p
  step : {p q r : ℕ} → nx p ≡ some q → Leads nx q r → Leads nx p r

pub Ends-mono : (j k : ℕ) (nx : ℕ → Option ℕ) (p : ℕ) → j ≤ k → Ends j nx p → Ends k nx p
Ends-mono zero k nx p l h = absurd h
Ends-mono (suc j) zero nx p l h = absurd (omega arith)
Ends-mono (suc j) (suc k) nx p l (inl e) = inl e
Ends-mono (suc j) (suc k) nx p l (inr (q, e, r)) = inr (q, e, Ends-mono j k nx q (omega arith) r)

-- One step along a chain that ends.
pub Ends-next :
    (k : ℕ) (nx : ℕ → Option ℕ) (p q : ℕ)
    → nx p ≡ some q
    → Ends k nx p
    → (j : ℕ) × (j < k) × Ends j nx q
Ends-next zero nx p q e h = absurd h
Ends-next (suc k) nx p q e (inl z) = cc
Ends-next (suc k) nx p q e (inr (q', z, h)) =
    let same : q' ≡ q = cc in (k, omega arith, subst (Ends k nx) same h)

-- The end of a chain bounds the end of every part of it.
pub Ends-Leads :
    {nx : ℕ → Option ℕ} {p r : ℕ} (k : ℕ)
    → Leads nx p r
    → Ends k nx p
    → (j : ℕ) × (j ≤ k) × Ends j nx r
Ends-Leads k here h = (k, omega arith, h)
Ends-Leads {nx} {p} k (step {q = q} e l) h =
    let (i, lt, h') = Ends-next k nx p q e h in
    let (j, le, h'') = Ends-Leads i l h' in (j, omega arith, h'')

-- So no chain that ends comes back to where it has been.
acyclic_fuel :
    (f k : ℕ) {nx : ℕ → Option ℕ} {p q : ℕ} → k ≤ f → Ends k nx q → Leads nx q p → nx p ≡ some q → ⊥
acyclic_fuel zero zero b h l e = h
acyclic_fuel zero (suc k) b h l e = absurd (omega arith)
acyclic_fuel (suc f) k {nx} {p} {q} b h l e =
    let (i, le, h') = Ends-Leads k l h in
    let (j, lt, h'') = Ends-next i nx p q e h' in acyclic_fuel f j (omega arith) h'' l e

pub acyclic : (k : ℕ) {nx : ℕ → Option ℕ} {p q : ℕ} → Ends k nx q → Leads nx q p → nx p ≡ some q → ⊥
acyclic k h l e = acyclic_fuel k k (omega arith) h l e

-- From a node with no successor a chain leads to that node only.
pub Leads-stop : {nx : ℕ → Option ℕ} {p r : ℕ} → nx p ≡ none → Leads nx p r → p ≡ r
Leads-stop e here = refl
Leads-stop e (step s l) = cc

-- A node that a chain leads to is its start, or has a predecessor.
pub Leads-last :
    {nx : ℕ → Option ℕ} {p r : ℕ}
    → Leads nx p r
    → (p ≡ r) ⊎ ((o : ℕ) × Leads nx p o × (nx o ≡ some r))
Leads-last here = inl refl
Leads-last {nx} {p} {r} (step {q = q} s l) = elim (Leads-last l) [
  | inl e ↦ inr (p, here, s ∙ ap some e)
  | inr (o, l', e) ↦ inr (o, step s l', e)
]

pub Leads_eq : {nx : ℕ → Option ℕ} {p q : ℕ} → p ≡ q → Leads nx p q
Leads_eq {nx} {p} e = subst (Leads nx p) e here
