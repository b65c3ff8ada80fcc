-- ===== src/Table/Update.antt =====
-- How `NewSlot` keeps the invariant where the main position of the key is taken by its own key:
-- a free node joins the chain behind it.
use squirrel_gobject.Prelude.{
  ℕ, zero, suc, ◌-◌, ◌≤◌, ◌<◌, ◌≡◌, ◌≢◌, ap, sym, ◌∙◌, Option, none, some, arith, ◌⊎◌, inl, inr,
}
use squirrel_gobject.Table.Chains.{Ends, Ends-mono, Leads, here, step, Leads_eq, acyclic}
use squirrel_gobject.Table.Insert.{Core, unowned}
use native.Mathlib.Decide.{ℕ_discrete}
use mathlib.Core.Path.{subst}

-- `n` is the free node `f`, put between `mp` and what `mp` pointed to.
pub record Linked (f mp : ℕ) (nx nx' : ℕ → Option ℕ) : Type 0 where
  pub first : nx' mp ≡ some f
  pub second : nx' f ≡ nx mp
  pub rest : (p : ℕ) → p ≢ mp → p ≢ f → nx' p ≡ nx p

module _ {nx nx' : ℕ → Option ℕ} {f mp : ℕ} (k : Linked f mp nx nx')
    (unlinked : (p : ℕ) → nx p ≢ some f) where
  linked-Leads : {p r : ℕ} → Leads nx p r → p ≢ f → Leads nx' p r
  linked-Leads here ne = here
  linked-Leads {p} {r} (step {q = q} e l) ne =
      let later = linked-Leads l (λ s. unlinked p (cc (ap some s))) in
      elim (ℕ_discrete p mp) [
        | yes s ↦
            step {q = f} (cc (k.first, ap nx' s)) (step {q = q} (cc (k.second, ap nx s)) later)
        | no np ↦ step (k.rest p np ne ∙ e) later
      ]

  -- A chain that does not pass `mp` is what it was.
  linked-Ends_off : (j p : ℕ) → Ends j nx p → p ≢ f → (Leads nx p mp → ⊥) → Ends j nx' p
  linked-Ends_off zero p h ne off = h
  linked-Ends_off (suc j) p (inl z) ne off = inl (k.rest p (λ s. off (Leads_eq s)) ne ∙ z)
  linked-Ends_off (suc j) p (inr (q, z, h)) ne off = inr (
    q,
    k.rest p (λ s. off (Leads_eq s)) ne ∙ z,
    linked-Ends_off j q h (λ s. unlinked p (cc (ap some s))) (λ l. off (step z l)),
  )

  -- Any chain has one node more at most.
  linked-Ends : (j p : ℕ) → Ends j nx p → p ≢ f → Ends (suc j) nx' p
  linked-Ends zero p h ne = absurd h
  linked-Ends (suc j) p (inl z) ne = elim (ℕ_discrete p mp) [
    | yes s ↦ inr (f, cc (k.first, ap nx' s), inl (cc (k.second, ap nx s)))
    | no np ↦ inl (k.rest p np ne ∙ z)
  ]
  linked-Ends (suc j) p (inr (q, z, h)) ne =
      let nq : q ≢ f = λ s. unlinked p (cc (ap some s)) in
      elim (ℕ_discrete p mp) [
        | yes s ↦
            let from_mp : nx mp ≡ some q = cc (ap nx s) in
            let tail = linked-Ends_off j q h nq (λ l. acyclic j h l from_mp) in
            inr (f, cc (k.first, ap nx' s), inr (q, cc (k.second), tail))
        | no np ↦ inr (q, k.rest p np ne ∙ z, linked-Ends j q h nq)
      ]

module _ {K : Type 0} {home : K → ℕ} {n f : ℕ} {nx nx' : ℕ → Option ℕ} {ky ky' : ℕ → Option K}
    (c : Core home n (suc f) nx ky) (free : ky f ≡ none) (end : nx f ≡ none) (mp : ℕ) (k : K)
    (at_home : home k ≡ mp) (in_range : mp < n) (fresh : (p : ℕ) → ky p ≢ some k)
    (link : Linked f mp nx nx') (held : (a : K) → ky mp ≡ some a → home a ≡ mp) (taken : mp ≢ f)
    (on : ky' f ≡ some k) (off : (p : ℕ) → p ≢ f → ky' p ≡ ky p) where
  unlinked : (p : ℕ) → nx p ≢ some f
  unlinked p e = absurd (omega (arith, (c.ahead p f e).0))

  linked-ahead : (p q : ℕ) → nx' p ≡ some q → (f ≤ q) × (q < n)
  linked-ahead p q e = elim (ℕ_discrete p mp) [
    | yes s ↦ let same : f ≡ q = cc (link.first, ap nx' s) in omega (arith, c.bound)
    | no np ↦ elim (ℕ_discrete p f) [
      | yes s ↦ omega (arith, c.ahead mp q (cc (link.second, ap nx' s)))
      | no nf ↦ omega (arith, c.ahead p q (cc (link.rest p np nf)))
    ]
  ]

  linked-end : (p : ℕ) → p ≡ f → (j : ℕ) → Ends j nx mp → Ends (suc j) nx' p
  linked-end p s zero h = absurd h
  linked-end p s (suc j) (inl z) = inl (cc (link.second, ap nx' s))
  linked-end p s (suc j) (inr (q, z, h)) =
      let off_mp =
        linked-Ends_off link unlinked j q h (λ e. unlinked mp (cc (ap some e)))
          (λ l. acyclic j h l z) in
      inr (q, cc (link.second, ap nx' s), Ends-mono j (suc j) nx' q (omega arith) off_mp)

  linked_run-Ends : (p : ℕ) → Ends (suc n - f) nx' p
  linked_run-Ends p =
      let more : suc n - f ≡ suc (suc n - suc f) = omega (arith, c.bound) in
      rw more (elim (ℕ_discrete p f) [
        | yes s ↦ linked-end p s (suc n - suc f) (c.ends mp)
        | no ne ↦ linked-Ends link unlinked (suc n - suc f) p (c.ends p) ne
      ])

  -- where a pointer of the new chains comes from
  origin :
      (p r : ℕ)
      → nx' p ≡ some r
      → ((p ≡ mp) × (r ≡ f)) ⊎ ((p ≡ f) × (nx mp ≡ some r)) ⊎ ((p ≢ mp) × (nx p ≡ some r))
  origin p r e = elim (ℕ_discrete p mp) [
    | yes s ↦ inl (s, cc (link.first, ap nx' s))
    | no np ↦ elim (ℕ_discrete p f) [
      | yes s ↦ inr (inl (s, cc (link.second, ap nx' s)))
      | no nf ↦ inr (inr (np, cc (link.rest p np nf)))
    ]
  ]

  linked-single : (p q r : ℕ) → nx' p ≡ some r → nx' q ≡ some r → p ≡ q
  linked-single p q r e e' = elim (origin p r e) [
    | inl (s, t) ↦ elim (origin q r e') [
      | inl (s', _) ↦ cc
      | inr (inl (_, z)) ↦ absurd (unlinked mp (cc (z, t)))
      | inr (inr (_, z)) ↦ absurd (unlinked q (cc (z, t)))
    ]
    | inr (inl (s, z)) ↦ elim (origin q r e') [
      | inl (_, t) ↦ absurd (unlinked mp (cc (z, t)))
      | inr (inl (s', _)) ↦ cc
      | inr (inr (ne, z')) ↦ absurd (ne (c.single q mp r z' z))
    ]
    | inr (inr (ne, z)) ↦ elim (origin q r e') [
      | inl (_, t) ↦ absurd (unlinked p (cc (z, t)))
      | inr (inl (_, z')) ↦ absurd (ne (c.single p mp r z z'))
      | inr (inr (_, z')) ↦ c.single p q r z z'
    ]
  ]

  linked-placed : (p : ℕ) (a : K) → ky' p ≡ some a → Leads nx' (home a) p
  linked-placed p a e = elim (ℕ_discrete p f) [
    | yes s ↦
        let same : k ≡ a = cc (ap ky' s) in
        let start : mp ≡ home a = cc (ap home same) in
        subst (λ x. Leads nx' x p) start (step link.first (Leads_eq (sym s)))
    | no ne ↦
        let old : ky p ≡ some a = cc (off p ne) in
        linked-Leads link unlinked (c.placed p a old) (unowned c f free end p a old)
  ]

  linked-once : (p q : ℕ) (a : K) → ky' p ≡ some a → ky' q ≡ some a → p ≡ q
  linked-once p q a e e' = elim (ℕ_discrete p f) [
    | yes s ↦ elim (ℕ_discrete q f) [
      | yes s' ↦ cc
      | no nq ↦ absurd (fresh q (cc (off q nq, ap ky' s)))
    ]
    | no np ↦ elim (ℕ_discrete q f) [
      | yes s' ↦ absurd (fresh p (cc (off p np, ap ky' s')))
      | no nq ↦ c.once p q a (cc (off p np)) (cc (off q nq))
    ]
  ]

  linked-owner : (p q : ℕ) (a d : K) → ky' p ≡ some a → home a ≢ p → ky' q ≡ some d → home d ≢ p
  linked-owner p q a d e ne e' bad = elim (ℕ_discrete p f) [
    | yes s ↦ elim (ℕ_discrete q f) [
      | yes s' ↦ let same : k ≡ d = cc (ap ky' s') in taken (cc (ap home same))
      | no nq ↦ unowned c f free end q d (cc (off q nq)) (cc)
    ]
    | no np ↦ elim (ℕ_discrete q f) [
      | yes s' ↦
          let same : k ≡ d = cc (ap ky' s') in
          let at_mp : mp ≡ p = cc (ap home same) in ne (held a (cc (off p np, ap ky at_mp)) ∙ at_mp)
      | no nq ↦ c.owner p q a d (cc (off p np)) ne (cc (off q nq)) bad
    ]
  ]

  -- The new key goes to the free node, behind the key that holds its main position.
  pub linked-Core : Core home n f nx' ky'
  linked-Core = record {
    bound = omega (arith, c.bound);
    ahead = linked-ahead;
    ends = linked_run-Ends;
    single = linked-single;
    inside = λ p a e. elim (ℕ_discrete p f) [
      | yes s ↦ omega (arith, c.bound)
      | no ne ↦ c.inside p a (cc (off p ne))
    ];
    placed = linked-placed;
    once = linked-once;
    owner = linked-owner;
  }
