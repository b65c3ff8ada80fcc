-- ===== src/Table/Iterate.antt =====
-- `Next` of `SQTable` (Squirrel3/squirrel/sqtable.cpp): the walk over the nodes behind a foreach.
use squirrel_gobject.Prelude.{
  ℕ, zero, suc, ◌+◌, ◌-◌, ◌≤◌, ◌<◌, ◌≡◌, refl, ap, sym, ◌∙◌, none, some, Option-cases, ◌⊎◌, inl,
  inr, List, [], ◌∷◌, arith, drop,
}
use squirrel_gobject.Prelude.Segments.{get_or-drop}
use squirrel_gobject.Table.{Table, Node, at, blank, next, next_loop}
use squirrel_gobject.Table.Find.{ky, vl}

module _ {K V : Type 0} (null : V) (readval : V → V) where
  -- the node at which the walk over `xs` stops, where it does
  abbrev Stops : List (Node K V) → ℕ → Type 0
  Stops xs idx =
      (i : ℕ) × (k : K) × (ky null xs i ≡ some k)
      × (next_loop readval xs idx ≡ some (k, readval (vl null xs i), idx + i + 1))
      × ((j : ℕ) → j < i → ky null xs j ≡ none)

  next_loop_lem :
      (xs : List (Node K V)) (idx : ℕ)
      → ((next_loop readval xs idx ≡ none) × ((i : ℕ) → ky null xs i ≡ none)) ⊎ Stops xs idx
  unfolding next_loop
  next_loop_lem [] idx = inl (refl, λ i. refl)
  next_loop_lem (o ∷ rest) idx = elim (Option-cases o.key) [
    | inl z ↦ elim (next_loop_lem rest (idx + 1)) [
      | inl (e, f) ↦ inl (rw z e, first_free (λ i. ky null (o ∷ rest) i ≡ none) z f)
      | inr (i, k, here, e, f) ↦
          let same : idx + 1 + i + 1 ≡ idx + suc i + 1 = omega arith in
          inr (
            suc i,
            k,
            here,
            rw z (e ∙ ap (λ m. some (k, readval (vl null rest i), m)) same),
            before_suc (λ j. ky null (o ∷ rest) j ≡ none) i z f,
          )
    ]
    | inr (k, z) ↦
        let same : idx + 1 ≡ idx + 0 + 1 = omega arith in
        inr (0, k, z, rw z (ap (λ m. some (k, readval o.val, m)) same), λ j l. absurd (omega arith))
  ]
    where
      first_free : (P : ℕ → Type 0) → P 0 → ((i : ℕ) → P (suc i)) → (i : ℕ) → P i
      first_free P p f zero = p
      first_free P p f (suc i) = f i

      before_suc :
          (P : ℕ → Type 0) (i : ℕ) → P 0 → ((j : ℕ) → j < i → P (suc j)) → (j : ℕ) → j < suc i → P j
      before_suc P i p f zero l = p
      before_suc P i p f (suc j) l = f j (omega arith)

  shifted :
      (idx j p : ℕ) (t : Table K V) → p ≡ idx + j → at null (drop idx t.nodes) j ≡ at null t.nodes p
  shifted idx j p t e = get_or-drop idx j p t.nodes (blank null) e

  -- From any index, `Next` either finds nothing, and no node from that index on has a key; or it
  -- answers the key and the value of a node and the index behind it, and no node between has a key.
  pub next_lem :
      (idx : ℕ) (t : Table K V)
      → ((next readval idx t ≡ none) × ((p : ℕ) → idx ≤ p → ky null t.nodes p ≡ none))
        ⊎ ((p : ℕ) × (k : K) × (idx ≤ p)
            × (ky null t.nodes p ≡ some k)
            × (next readval idx t ≡ some (k, readval (vl null t.nodes p), p + 1))
            × ((q : ℕ) → idx ≤ q → q < p → ky null t.nodes q ≡ none))
  unfolding next
  next_lem idx t = elim (next_loop_lem (drop idx t.nodes) idx) [
    | inl (e, f) ↦ inl (
      e,
      λ p l.
          ap (λ (o : Node K V). o.key) (sym (shifted idx (p - idx) p t (omega arith)))
          ∙ f (p - idx),
    )
    | inr (i, k, here, e, f) ↦
        let node = shifted idx i (idx + i) t refl in
        inr (
          idx + i,
          k,
          omega arith,
          ap (λ (o : Node K V). o.key) (sym node) ∙ here,
          e ∙ ap (λ (o : Node K V). some (k, readval o.val, idx + i + 1)) node,
          λ q l l'.
              ap (λ (o : Node K V). o.key) (sym (shifted idx (q - idx) q t (omega arith)))
              ∙ f (q - idx) (omega arith),
        )
  ]
