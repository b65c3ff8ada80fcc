-- ===== src/Table/Move.antt =====
-- How `NewSlot` keeps the invariant where the main position of the key holds a key of another:
-- that key moves to a free node, and the new key takes the main position.
use squirrel_gobject.Prelude.{
  ℕ, zero, suc, ◌-◌, ◌≤◌, ◌<◌, ◌≡◌, ◌≢◌, refl, ap, sym, ◌∙◌, Option, none, some, arith, ◌⊎◌, inl,
  inr, ◌==◌, if◌then◌else◌,
}
use squirrel_gobject.Table.Chains.{Ends, Ends-mono, Leads, here, step, Leads_eq, acyclic}
use squirrel_gobject.Table.Insert.{Core, unowned}
use native.Mathlib.Decide.{ℕ_discrete}
use mathlib.Core.Path.{subst, subst₂}

-- `f` takes the place of `mp` behind its predecessor `o`, and `mp` is free.
pub record Moved (f mp o : ℕ) (nx nx' : ℕ → Option ℕ) : Type 0 where
  pub before : nx o ≡ some mp
  pub freed : nx' mp ≡ none
  pub copied : nx' f ≡ nx mp
  pub relinked : nx' o ≡ some f
  pub rest : (p : ℕ) → p ≢ mp → p ≢ f → p ≢ o → nx' p ≡ nx p

-- where the contents of node `p` are after the move
moved_to : ℕ → ℕ → ℕ → ℕ
moved_to mp f p = if p == mp then f else p

moved_to_self : (mp f p : ℕ) → p ≡ mp → moved_to mp f p ≡ f
unfolding moved_to
moved_to_self mp f p e = ground arith

moved_to-other : (mp f p : ℕ) → p ≢ mp → moved_to mp f p ≡ p
unfolding moved_to
moved_to-other mp f p e = ground arith

module _ {nx nx' : ℕ → Option ℕ} {f mp o : ℕ} (m : Moved f mp o nx nx')
    (unlinked : (p : ℕ) → nx p ≢ some f) (single : (p : ℕ) → nx p ≡ some mp → p ≡ o) (k : ℕ)
    (finite : Ends k nx mp) where
  -- a link of the old chains, between where its ends are now
  moved_link : (p q : ℕ) → nx p ≡ some q → p ≢ f → nx' (moved_to mp f p) ≡ some (moved_to mp f q)
  moved_link p q e nf = elim (ℕ_discrete p mp) [
    | yes s ↦
        let out : q ≢ mp = λ t. acyclic k finite here (cc (ap nx s)) in
        let to = moved_to-other mp f q out in
        rw (moved_to_self mp f p s) (cc (m.copied, ap nx s, to))
    | no np ↦ elim (ℕ_discrete q mp) [
      | yes t ↦
          let from : p ≡ o = single p (cc) in
          rw (moved_to-other mp f p np, moved_to_self mp f q t) (cc (m.relinked, ap nx' from))
      | no nq ↦
          let aside : p ≢ o = λ t. nq (cc (ap nx t, m.before)) in
          rw (moved_to-other mp f p np, moved_to-other mp f q nq) (m.rest p np nf aside ∙ e)
    ]
  ]

  moved-Leads : {p r : ℕ} → Leads nx p r → p ≢ f → Leads nx' (moved_to mp f p) (moved_to mp f r)
  moved-Leads here nf = here
  moved-Leads {p} {r} (step {q = q} e l) nf =
      step (moved_link p q e nf) (moved-Leads l (λ s. unlinked p (cc (ap some s))))

  moved_end : (p : ℕ) → nx p ≡ none → p ≢ f → nx' (moved_to mp f p) ≡ none
  moved_end p z nf = elim (ℕ_discrete p mp) [
    | yes s ↦ rw (moved_to_self mp f p s) (cc (m.copied, ap nx s))
    | no np ↦
        let aside : p ≢ o = λ t. cc (ap nx t, m.before) in
        rw (moved_to-other mp f p np) (m.rest p np nf aside ∙ z)
  ]

  moved-Ends : (j p : ℕ) → Ends j nx p → p ≢ f → Ends j nx' (moved_to mp f p)
  moved-Ends zero p h nf = h
  moved-Ends (suc j) p (inl z) nf = inl (moved_end p z nf)
  moved-Ends (suc j) p (inr (q, z, h)) nf =
      inr
        (moved_to mp f q, moved_link p q z nf, moved-Ends j q h (λ s. unlinked p (cc (ap some s))))

module _ {K : Type 0} {home : K → ℕ} {n f : ℕ} {nx nx' : ℕ → Option ℕ} {ky ky' : ℕ → Option K}
    (c : Core home n (suc f) nx ky) (free : ky f ≡ none) (end : nx f ≡ none) (mp o : ℕ) (k a : K)
    (at_home : home k ≡ mp) (fresh : (p : ℕ) → ky p ≢ some k) (m : Moved f mp o nx nx')
    (held : ky mp ≡ some a) (alien : home a ≢ mp) (on : ky' mp ≡ some k) (kept : ky' f ≡ some a)
    (off : (p : ℕ) → p ≢ mp → p ≢ f → ky' p ≡ ky p) where
  unlinked : (p : ℕ) → nx p ≢ some f
  unlinked p e = absurd (omega (arith, (c.ahead p f e).0))

  apart : mp ≢ f
  apart s = cc (ap ky s)

  -- where a pointer of the new chains comes from
  origin :
      (p r : ℕ)
      → nx' p ≡ some r
      → ((p ≡ o) × (r ≡ f)) ⊎ ((p ≡ f) × (nx mp ≡ some r)) ⊎ ((p ≢ mp) × (p ≢ o) × (nx p ≡ some r))
  origin p r e = elim (ℕ_discrete p mp) [
    | yes s ↦ cc (m.freed, ap nx' s)
    | no np ↦ elim (ℕ_discrete p o) [
      | yes s ↦ inl (s, cc (m.relinked, ap nx' s))
      | no no' ↦ elim (ℕ_discrete p f) [
        | yes s ↦ inr (inl (s, cc (m.copied, ap nx' s)))
        | no nf ↦ inr (inr (np, no', cc (m.rest p np nf no')))
      ]
    ]
  ]

  moved-ahead : (p q : ℕ) → nx' p ≡ some q → (f ≤ q) × (q < n)
  moved-ahead p q e = elim (origin p q e) [
    | inl (s, t) ↦ omega (arith, c.bound)
    | inr (inl (s, z)) ↦ omega (arith, c.ahead mp q z)
    | inr (inr (_, _, z)) ↦ omega (arith, c.ahead p q z)
  ]

  moved-single : (p q r : ℕ) → nx' p ≡ some r → nx' q ≡ some r → p ≡ q
  moved-single p q r e e' = elim (origin p r e) [
    | inl (s, t) ↦ elim (origin q r e') [
      | inl (s', _) ↦ cc
      | inr (inl (_, z)) ↦ absurd (unlinked mp (cc (z, t)))
      | inr (inr (_, _, z)) ↦ absurd (unlinked q (cc (z, t)))
    ]
    | inr (inl (s, z)) ↦ elim (origin q r e') [
      | inl (_, t) ↦ absurd (unlinked mp (cc (z, t)))
      | inr (inl (s', _)) ↦ cc
      | inr (inr (ne, _, z')) ↦ absurd (ne (c.single q mp r z' z))
    ]
    | inr (inr (ne, _, z)) ↦ elim (origin q r e') [
      | inl (_, t) ↦ absurd (unlinked p (cc (z, t)))
      | inr (inl (_, z')) ↦ absurd (ne (c.single p mp r z z'))
      | inr (inr (_, _, z')) ↦ c.single p q r z z'
    ]
  ]

  one_before : (p : ℕ) → nx p ≡ some mp → p ≡ o
  one_before p e = c.single p o mp e m.before

  moved_run-Ends : (p : ℕ) → Ends (suc n - f) nx' p
  moved_run-Ends p =
      let j = suc n - suc f in
      let more : suc n - f ≡ suc j = omega (arith, c.bound) in
      let chain : (q : ℕ) → q ≢ f → Ends j nx' (moved_to mp f q) =
        λ q nf. moved-Ends m unlinked one_before j (c.ends mp) j q (c.ends q) nf in
      rw more (elim (ℕ_discrete p mp) [
        | yes s ↦ inl (cc (m.freed, ap nx' s))
        | no np ↦ Ends-mono j (suc j) nx' p (omega arith) (elim (ℕ_discrete p f) [
          | yes s ↦ subst (Ends j nx') (moved_to_self mp f mp refl ∙ sym s) (chain mp apart)
          | no nf ↦ subst (Ends j nx') (moved_to-other mp f p np) (chain p nf)
        ])
      ])

  moved-placed : (p : ℕ) (d : K) → ky' p ≡ some d → Leads nx' (home d) p
  moved-placed p d e = elim (ℕ_discrete p mp) [
    | yes s ↦ let same : k ≡ d = cc (ap ky' s) in Leads_eq (cc (ap home same))
    | no np ↦ elim (ℕ_discrete p f) [
      | yes s ↦
          let same : a ≡ d = cc (ap ky' s) in
          let l =
            moved-Leads m unlinked one_before (suc n - suc f) (c.ends mp) (c.placed mp a held)
              (unowned c f free end mp a held) in
          subst₂ (Leads nx') (moved_to-other mp f (home a) alien ∙ ap home same)
            (moved_to_self mp f mp refl ∙ sym s) l
      | no nf ↦
          let old : ky p ≡ some d = cc (off p np nf) in
          let l =
            moved-Leads m unlinked one_before (suc n - suc f) (c.ends mp) (c.placed p d old)
              (unowned c f free end p d old) in
          subst₂ (Leads nx') (moved_to-other mp f (home d) (c.owner mp p a d held alien old))
            (moved_to-other mp f p np) l
    ]
  ]

  -- which node held a key of the new array before, if it is not the new key
  key_from :
      (p : ℕ) (d : K)
      → ky' p ≡ some d
      → ((p ≡ mp) × (k ≡ d)) ⊎ ((p ≡ f) × (a ≡ d)) ⊎ ((p ≢ mp) × (p ≢ f) × (ky p ≡ some d))
  key_from p d e = elim (ℕ_discrete p mp) [
    | yes s ↦ inl (s, cc (ap ky' s))
    | no np ↦ elim (ℕ_discrete p f) [
      | yes s ↦ inr (inl (s, cc (ap ky' s)))
      | no nf ↦ inr (inr (np, nf, cc (off p np nf)))
    ]
  ]

  moved-once : (p q : ℕ) (d : K) → ky' p ≡ some d → ky' q ≡ some d → p ≡ q
  moved-once p q d e e' = elim (key_from p d e) [
    | inl (s, t) ↦ elim (key_from q d e') [
      | inl (s', _) ↦ cc
      | inr (inl (_, t')) ↦ absurd (fresh mp (cc))
      | inr (inr (_, _, z)) ↦ absurd (fresh q (cc))
    ]
    | inr (inl (s, t)) ↦ elim (key_from q d e') [
      | inl (_, t') ↦ absurd (fresh mp (cc))
      | inr (inl (s', _)) ↦ cc
      | inr (inr (ne, _, z)) ↦ absurd (ne (c.once q mp d z (cc)))
    ]
    | inr (inr (ne, _, z)) ↦ elim (key_from q d e') [
      | inl (_, t) ↦ absurd (fresh p (cc))
      | inr (inl (_, t)) ↦ absurd (ne (c.once p mp d z (cc)))
      | inr (inr (_, _, z')) ↦ c.once p q d z z'
    ]
  ]

  moved-owner : (p q : ℕ) (b d : K) → ky' p ≡ some b → home b ≢ p → ky' q ≡ some d → home d ≢ p
  moved-owner p q b d e ne e' bad = elim (key_from p b e) [
    | inl (s, t) ↦ ne (cc (ap home t))
    | inr (inl (s, t)) ↦ elim (key_from q d e') [
      | inl (_, u) ↦ apart (cc (ap home u))
      | inr (inl (_, u)) ↦ unowned c f free end mp a held (cc (ap home u))
      | inr (inr (_, _, z)) ↦ unowned c f free end q d z (cc)
    ]
    | inr (inr (np, _, z)) ↦ elim (key_from q d e') [
      | inl (_, u) ↦ np (cc (ap home u))
      | inr (inl (_, u)) ↦ c.owner p mp b a z ne held (cc (ap home u))
      | inr (inr (_, _, z')) ↦ c.owner p q b d z ne z' bad
    ]
  ]

  -- The key that was in the way goes to the free node, and the new key to its main position.
  pub moved-Core : Core home n f nx' ky'
  moved-Core = record {
    bound = omega (arith, c.bound);
    ahead = moved-ahead;
    ends = moved_run-Ends;
    single = moved-single;
    inside = λ p d e. elim (key_from p d e) [
      | inl (s, _) ↦ omega (arith, c.inside mp a held)
      | inr (inl (s, _)) ↦ omega (arith, c.bound)
      | inr (inr (_, _, z)) ↦ c.inside p d z
    ];
    placed = moved-placed;
    once = moved-once;
    owner = moved-owner;
  }
