-- ===== src/Table/Insert.antt =====
-- The invariant of the node array, and how `NewSlot` keeps it where the main position is unused.
-- It is stated over `nx`, what a node points to, `ky`, its key, and `home`, the main position.
use squirrel_gobject.Prelude.{ℕ, suc, ◌-◌, ◌≤◌, ◌<◌, ◌≡◌, ◌≢◌, ap, Option, none, some, arith}
use squirrel_gobject.Table.Chains.{Ends, Ends-mono, Leads, Leads-stop, Leads-last, Leads_eq}
use native.Mathlib.Decide.{ℕ_discrete}
use mathlib.Core.Path.{subst}
use mathlib.Core.Logic.{inl, inr}

-- `b` bounds from below the nodes that are pointed to; those under it are not linked yet.
pub record Core {K : Type 0} (home : K → ℕ) (n b : ℕ) (nx : ℕ → Option ℕ) (ky : ℕ → Option K)
    : Type 0 where
  pub bound : b ≤ n
  -- pointers go to linked nodes, and a chain has no more nodes than are linked, and its start
  pub ahead : (p q : ℕ) → nx p ≡ some q → (b ≤ q) × (q < n)
  pub ends : (p : ℕ) → Ends (suc n - b) nx p
  -- no two nodes point to one
  pub single : (p q r : ℕ) → nx p ≡ some r → nx q ≡ some r → p ≡ q
  -- a key is on the chain of its main position, in one node
  pub inside : (p : ℕ) (k : K) → ky p ≡ some k → p < n
  pub placed : (p : ℕ) (k : K) → ky p ≡ some k → Leads nx (home k) p
  pub once : (p q : ℕ) (k : K) → ky p ≡ some k → ky q ≡ some k → p ≡ q
  -- the main position of a key does not hold a key of another
  pub owner : (p q : ℕ) (a k : K) → ky p ≡ some a → home a ≢ p → ky q ≡ some k → home k ≢ p

module _ {K : Type 0} {home : K → ℕ} {n b : ℕ} {nx : ℕ → Option ℕ} {ky : ℕ → Option K} where
  pub Core-lower : (b' : ℕ) → b' ≤ b → Core home n b nx ky → Core home n b' nx ky
  Core-lower b' l c = record {
    bound = omega (arith, c.bound);
    ahead = λ p q e. (omega (arith, (c.ahead p q e).0), (c.ahead p q e).1);
    ends = λ p. Ends-mono (suc n - b) (suc n - b') nx p (omega arith) (c.ends p);
    single = c.single;
    inside = c.inside;
    placed = c.placed;
    once = c.once;
    owner = c.owner;
  }

  -- A key away from its main position is in a linked node.
  pub away : Core home n b nx ky → (p : ℕ) (k : K) → ky p ≡ some k → home k ≢ p → b ≤ p
  away c p k e ne = elim (Leads-last (c.placed p k e)) [
    | inl same ↦ absurd (ne same)
    | inr (o, l, link) ↦ (c.ahead o p link).0
  ]

  -- No key has a free node for its main position.
  pub unowned :
      Core home n b nx ky
      → (f : ℕ) → ky f ≡ none
      → nx f ≡ none
      → (p : ℕ) (k : K) → ky p ≡ some k
      → home k ≢ f
  unowned c f free end p k e at_f =
      let stop = Leads-stop end (subst (λ x. Leads nx x p) at_f (c.placed p k e)) in cc (ap ky stop)

  -- The new key goes to its main position, which holds no key.
  pub direct-Core :
      Core home n b nx ky
      → (mp : ℕ) (k : K) (ky' : ℕ → Option K) → mp < n
      → home k ≡ mp
      → ((p : ℕ) → ky p ≢ some k)
      → ky' mp ≡ some k
      → ((p : ℕ) → p ≢ mp → ky' p ≡ ky p)
      → Core home n b nx ky'
  direct-Core c mp k ky' lt at_home fresh on off = record {
    bound = c.bound;
    ahead = c.ahead;
    ends = c.ends;
    single = c.single;
    inside = λ p a e. elim (ℕ_discrete p mp) [
      | yes s ↦ omega arith
      | no ne ↦ c.inside p a (cc (off p ne))
    ];
    placed = λ p a e. elim (ℕ_discrete p mp) [
      | yes s ↦ let same : k ≡ a = cc (ap ky' s) in Leads_eq (cc (ap home same))
      | no ne ↦ c.placed p a (cc (off p ne))
    ];
    once = λ p q a e e'. elim (ℕ_discrete p mp) [
      | yes s ↦ elim (ℕ_discrete q mp) [
        | yes s' ↦ cc
        | no ne' ↦ absurd (fresh q (cc (off q ne', ap ky' s)))
      ]
      | no ne ↦ elim (ℕ_discrete q mp) [
        | yes s' ↦ absurd (fresh p (cc (off p ne, ap ky' s')))
        | no ne' ↦ c.once p q a (cc (off p ne)) (cc (off q ne'))
      ]
    ];
    owner = λ p q a d e ne e' bad. elim (ℕ_discrete p mp) [
      | yes s ↦ let same : k ≡ a = cc (ap ky' s) in ne (cc (ap home same))
      | no np ↦ elim (ℕ_discrete q mp) [
        | yes s' ↦ let same : k ≡ d = cc (ap ky' s') in np (cc (ap home same))
        | no nq ↦ c.owner p q a d (cc (off p np)) ne (cc (off q nq)) bad
      ]
    ];
  }
