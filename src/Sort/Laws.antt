-- ===== src/Sort/Laws.antt =====
-- The heap sort ends, and only moves objects.
use squirrel_gobject.Prelude.{
  ℕ, zero, suc, ap, sym, ◌⊎◌, Bool, true, false, ◌&&◌, none, ◌+◌, ◌-◌, ◌*◌, ◌/◌, ◌≤◌, ◌<◌, ◌≡◌, ◌≢◌,
  refl, ◌∙◌, ◌==◌, ltb, Bool-cases, inl, inr, ltb→lt, ltb→le, eq→==, Option, some, List, [], ◌∷◌,
  length, get_or, set, arith, length-set, get_or-set,
}
use squirrel_gobject.Prelude.Int.{ℤ, is_neg, nonneg}
use squirrel_gobject.Sort.{
  Store, Outcome, sorted, failed, array_resized, out_of_fuel, Compared, said, raised, resized, swap,
  changed, checked, larger_child, then_next, swap_cells, sort_compare, max_child, exchange, below,
  sift_down, build_heap, extract, hsort, array_sort,
}
use mathlib.Core.List.{Perm}
use mathlib.Core.List.Perm
use mathlib.Core.Path.{subst}

module _ {A : Type 0} (junk : A) where
  -- Writing a cell gives back the object that was there.
  written-Perm :
      (i : ℕ) (x : A) (cells : List A)
      → i < length cells
      → Perm (get_or cells i junk ∷ set cells i x) (x ∷ cells)
  written-Perm i x [] l = absurd (omega arith)
  written-Perm zero x (c ∷ cells) l = Perm.swap x c cells
  written-Perm (suc i) x (c ∷ cells) l =
      let inner = written-Perm i x cells (omega arith) in
      Perm.trans (Perm.swap c (get_or cells i junk) (set cells i x))
        (Perm.trans (Perm.cons c inner) (Perm.swap x c cells))

  swap-Perm :
      (i j : ℕ) (cells : List A)
      → i < length cells
      → j < length cells
      → Perm (swap junk i j cells) cells
  unfolding swap
  swap-Perm i j cells l l' =
      let x = get_or cells i junk in
      let y = get_or cells j junk in
      let once = set cells i y in
      let same : get_or once j junk ≡ y = elim (Bool-cases (i == j)) [
        | inl e ↦ get_or-set cells i j y junk l ∙ rw e refl
        | inr e ↦ get_or-set cells i j y junk l ∙ rw e refl
      ] in
      let second = written-Perm j x once (omega (arith, length-set cells i y)) in
      Perm.cons_inv (
        Perm.trans (subst (λ o. Perm (o ∷ set once j x) (x ∷ once)) same second)
          (written-Perm i y cells l))

  length-swap : (i j : ℕ) (cells : List A) → length (swap junk i j cells) ≡ length cells
  unfolding swap
  length-swap i j cells = length-set (set cells i _) j _ ∙ length-set cells i _

module _ {A S : Type 0} where
  -- A part of the sort ended, and, unless it found the array resized, left the objects that it
  -- found, in some order.
  pub record Rearranges (cells : List A) (r : Store A S × Outcome) : Type 0 where
    pub ended : r.1 ≢ out_of_fuel
    pub kept : (r.1 ≡ array_resized) ⊎ (Perm r.0.values cells × (length r.0.values ≡ length cells))

  -- A comparison leaves the cells as they are, or it is a function of the script that answers and
  -- has resized the array.
  abbrev pub Leaves : Bool → Store A S → Option ℤ × Store A S → Type 0
  Leaves has_func st (none, after) = after.values ≡ st.values
  Leaves has_func st (some ret, after) =
      (after.values ≡ st.values) ⊎ ((has_func ≡ true) × (changed st after ≡ true))

  -- The cells are as they were, unless the array was resized.
  abbrev Kept : {B : Type 0} → List A → Compared B × Store A S → Type 0
  Kept cells (resized, st) = Unit
  Kept cells (said ret, st) = st.values ≡ cells
  Kept cells (raised, st) = st.values ≡ cells

  abbrev KeptChild : ℕ → ℕ → List A → Compared ℕ × Store A S → Type 0
  KeptChild root2 bottom cells (resized, st) = Unit
  KeptChild root2 bottom cells (said child, st) =
      (st.values ≡ cells) × (root2 ≤ child) × (child ≤ bottom)
  KeptChild root2 bottom cells (raised, st) = st.values ≡ cells

  checked-Kept :
      (has_func : Bool) (st : Store A S) (r : Option ℤ × Store A S)
      → Leaves has_func st r
      → Kept st.values (checked has_func st r)
  checked-Kept has_func st (none, after) h = h
  checked-Kept has_func st (some ret, after) h = elim (Bool-cases (has_func && changed st after)) [
    | inl e ↦ rw e tt
    | inr e ↦ rw e (unchanged h e)
  ]
    where
      unchanged :
          (after.values ≡ st.values) ⊎ ((has_func ≡ true) × (changed st after ≡ true))
          → (has_func && changed st after) ≡ false
          → after.values ≡ st.values
      unchanged (inl q) e = q
      unchanged (inr (f, c)) e = absurd (ground (arith, f, c, e))

  larger_child-Kept :
      (root2 bottom : ℕ) (cells : List A) (p : Compared ℤ × Store A S)
      → root2 < bottom
      → Kept cells p
      → KeptChild root2 bottom cells (larger_child root2 p)
  larger_child-Kept root2 bottom cells (said ret, st) l k = elim (Bool-cases (ltb 0 (nonneg ret))) [
    | inl e ↦ rw e (k, omega arith, omega arith)
    | inr e ↦ rw e (k, omega arith, omega arith)
  ]
  larger_child-Kept root2 bottom cells (raised, st) l k = k
  larger_child-Kept root2 bottom cells (resized, st) l k = tt

  stays :
      (cells : List A) (st : Store A S) (o : Outcome)
      → o ≢ out_of_fuel
      → st.values ≡ cells
      → Rearranges cells (st, o)
  stays cells st o ne e = record {
    ended = ne;
    kept = inr (subst (λ xs. Perm xs cells) (sym e) (Perm.refl cells), ap length e);
  }

  was_resized : (cells : List A) (st : Store A S) → Rearranges cells (st, array_resized)
  was_resized cells st = record { ended = λ e. cc e; kept = inl refl }

  follows :
      (xs ys : List A) (r : Store A S × Outcome)
      → Perm ys xs
      → length ys ≡ length xs
      → Rearranges ys r
      → Rearranges xs r
  follows xs ys r p e h = record { ended = h.ended; kept = either h.kept }
    where
      either :
          (r.1 ≡ array_resized) ⊎ (Perm r.0.values ys × (length r.0.values ≡ length ys))
          → (r.1 ≡ array_resized) ⊎ (Perm r.0.values xs × (length r.0.values ≡ length xs))
      either (inl q) = inl q
      either (inr (q, l)) = inr (Perm.trans q p, l ∙ e)

  -- One part after another, where the second is left out once the first has failed.
  in_turn :
      (xs : List A) (r : Store A S × Outcome) (next : Store A S → Store A S × Outcome)
      → Rearranges xs r
      → ((st : Store A S) → length st.values ≡ length xs → Rearranges st.values (next st))
      → Rearranges xs (then_next r next)
  in_turn xs (st, sorted) next h f = elim h.kept [
    | inl q ↦ absurd (cc q)
    | inr (p, l) ↦ follows xs st.values (next st) p l (f st l)
  ]
  in_turn xs (st, failed) next h f = h
  in_turn xs (st, array_resized) next h f = h
  in_turn xs (st, out_of_fuel) next h f = absurd (h.ended refl)

module _ {A S : Type 0} (junk : A) (has_func : Bool)
    (call : A → A → Store A S → Option ℤ × Store A S)
    (leaves : (a b : A) (st : Store A S) → Leaves has_func st (call a b st)) where
  max_child-Kept :
      (root2 bottom : ℕ) (st : Store A S)
      → root2 ≤ bottom
      → KeptChild root2 bottom st.values (max_child junk has_func call root2 bottom st)
  unfolding max_child sort_compare
  max_child-Kept root2 bottom st l = elim (Bool-cases (root2 == bottom)) [
    | inl q ↦ rw q (refl, omega arith, l)
    | inr q ↦
        let apart : root2 ≢ bottom = λ s. cc (eq→== root2 bottom s, q) in
        rw q (
          larger_child-Kept root2 bottom st.values _ (omega arith)
            (checked-Kept has_func st _ (leaves _ _ st)))
  ]

  exchange_lem :
      (deeper : ℕ → Store A S → Store A S × Outcome) (root child : ℕ) (cells : List A)
      (p : Compared ℤ × Store A S)
      → root < length cells
      → child < length cells
      → (root ≢ child
          → (now : Store A S) → length now.values ≡ length cells
          → Rearranges now.values (deeper child now))
      → Kept cells p
      → Rearranges cells (exchange junk has_func call deeper root child p)
  unfolding exchange
  exchange_lem deeper root child cells (raised, st) l m f k = stays cells st failed (λ e. cc e) k
  exchange_lem deeper root child cells (resized, st) l m f k = was_resized cells st
  exchange_lem deeper root child cells (said ret, st) l m f k = elim (Bool-cases (is_neg ret)) [
    | inr g ↦ rw g (stays cells st sorted (λ e. cc e) k)
    | inl g ↦ elim (Bool-cases (root == child)) [
      | inl q ↦ rw (g, q) (stays cells st failed (λ e. cc e) k)
      | inr q ↦
          let apart : root ≢ child = λ s. cc (eq→== root child s, q) in
          let next = swap_cells junk has_func call root child st in
          let long = length-swap junk root child st.values ∙ ap length k in
          let same = ap length k in
          rw (g, q)
            (follows cells next.values (deeper child next)
              (subst (λ xs. Perm next.values xs) k
                (swap-Perm junk root child st.values (omega (arith, same)) (omega (arith, same))))
              long (f apart next long))
    ]
  ]

  below_lem :
      (deeper : ℕ → Store A S → Store A S × Outcome) (root bottom : ℕ) (cells : List A)
      (p : Compared ℕ × Store A S)
      → bottom < length cells
      → root * 2 ≤ bottom
      → ((child : ℕ)
          → root < child
          → child ≤ bottom
          → (now : Store A S) → length now.values ≡ length cells
          → Rearranges now.values (deeper child now))
      → KeptChild (root * 2) bottom cells p
      → Rearranges cells (below junk has_func call deeper root p)
  unfolding below sort_compare
  below_lem deeper root bottom cells (raised, st) l m f k = stays cells st failed (λ e. cc e) k
  below_lem deeper root bottom cells (resized, st) l m f k = was_resized cells st
  below_lem deeper root bottom cells (said child, st) l m f (k, low, high) =
      exchange_lem deeper root child cells _ (omega arith) (omega arith)
        (λ apart now e. f child (omega (arith, apart)) high now e)
        (subst (λ xs. Kept xs (sort_compare junk has_func call root child st)) k
          (checked-Kept has_func st _ (leaves _ _ st)))

  sift_down_lem :
      (f root bottom : ℕ) (st : Store A S)
      → bottom < length st.values
      → root ≤ bottom + 1
      → bottom + 2 ≤ root + f
      → Rearranges st.values (sift_down junk has_func call f root bottom st)
  unfolding sift_down
  sift_down_lem zero root bottom st l h fuel = absurd (omega arith)
  sift_down_lem (suc f) root bottom st l h fuel = elim (Bool-cases (ltb bottom (root * 2))) [
    | inl b ↦ rw b (stays st.values st sorted (λ e. cc e) refl)
    | inr b ↦
        let inside = ltb→le bottom (root * 2) b in
        rw b (
          below_lem (λ child now. sift_down junk has_func call f child bottom now) root bottom
            st.values _ l inside
            (λ child up low now e.
              sift_down_lem f child bottom now (omega (arith, e)) (omega arith) (omega arith))
            (max_child-Kept (root * 2) bottom st inside))
  ]

  build_heap_lem :
      (i bottom : ℕ) (st : Store A S)
      → bottom < length st.values
      → i ≤ bottom + 1
      → Rearranges st.values (build_heap junk has_func call i bottom st)
  unfolding build_heap
  build_heap_lem zero bottom st l h =
      sift_down_lem (bottom + 2) 0 bottom st l (omega arith) (omega arith)
  build_heap_lem (suc i) bottom st l h =
      in_turn st.values _ (λ now. build_heap junk has_func call i bottom now)
        (sift_down_lem (bottom + 2) (suc i) bottom st l h (omega arith))
        (λ now e. build_heap_lem i bottom now (omega (arith, e)) (omega arith))

  extract_lem :
      (i : ℕ) (st : Store A S)
      → i < length st.values
      → Rearranges st.values (extract junk has_func call i st)
  unfolding extract
  extract_lem zero st l = stays st.values st sorted (λ e. cc e) refl
  extract_lem (suc i) st l =
      let swapped = swap_cells junk has_func call 0 (suc i) st in
      let long = length-swap junk 0 (suc i) st.values in
      in_turn st.values _ (λ now. extract junk has_func call i now)
        (follows st.values swapped.values (sift_down junk has_func call (i + 2) 0 i swapped)
          (swap-Perm junk 0 (suc i) st.values (omega arith) (omega arith)) long
          (sift_down_lem (i + 2) 0 i swapped (omega (arith, long)) (omega arith) (omega arith)))
        (λ now e. extract_lem i now (omega (arith, e)))

  -- Where each comparison leaves the cells of the array alone, or is a function of the script that
  -- answers after it has resized the array, and whatever it answers and does to the rest of the
  -- machine: array.sort ends. It ends with the error that the array was resized; or the array
  -- holds the objects that were there, as often as they were, in some order, even where a
  -- comparison has raised an error half way.
  pub array_sort-Rearranges :
      (st : Store A S) → Rearranges st.values (array_sort junk has_func call st)
  unfolding array_sort hsort
  array_sort-Rearranges st = elim (Bool-cases (ltb 1 (length st.values))) [
    | inr e ↦ rw e (stays st.values st sorted (λ e. cc e) refl)
    | inl e ↦
        let many = ltb→lt 1 (length st.values) e in
        let size = length st.values in
        rw e (
          in_turn st.values _ (λ now. extract junk has_func call (size - 1) now)
            (build_heap_lem (size / 2) (size - 1) st (omega arith) (omega arith))
            (λ now same. extract_lem (size - 1) now (omega (arith, same))))
  ]
