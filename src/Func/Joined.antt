-- ===== src/Func/Joined.antt =====
-- The rules of the optimiser that give an instruction another target or join two like ones.
use squirrel_gobject.Prelude.{
  none, ℕ, ◌+◌, ◌^◌, ◌<◌, ◌==◌, ◌≡◌, ◌≢◌, refl, sym, ap, ◌∙◌, ◌⊎◌, inl, inr, [], ◌∷◌, true, not,
  arith, lt→leb, ==→eq, Bool-cases,
}
use native.Mathlib.Numerals.{add-one}
use squirrel_gobject.Prelude.Outcome.{Outcome, ok, ◌>>=◌}
use squirrel_gobject.Vm.Machine.{
  Machine, Ops, store, step, step_on, run, to_target, bool_of, load_nulls, add, sub, mul, div,
  to_optional_target,
}
use squirrel_gobject.Vm.Same.{
  Same, Same-refl, bind-Same, fuse-Same, compute-Same, second-Same, run-one, bind_assoc,
}
use squirrel_gobject.Func.Emit.{computes_target, no_target}
use squirrel_gobject.Func.Fused.{Kept, store-Kept, store-at}
use squirrel_gobject.Func.Instr.{
  Opcode, Instr, op_line, op_load, op_loadint, op_loadfloat, op_dload, op_move, op_newslot, op_set,
  op_get, op_add, op_sub, op_mul, op_div, op_mod, op_bitw, op_loadnulls, op_loadbool, op_dmove,
  op_setouter, byte, word,
}

abbrev pub Every : ℕ → Type 0
Every j = Unit

store_self : {V : Type 0} (regs : ℕ → V) (a b j : ℕ) → a ≡ b → store regs a (regs b) j ≡ regs j
store_self regs a b j e = elim (Bool-cases (j == a)) [
  | inl q ↦ rw q (ap regs (sym (==→eq j a q ∙ e)))
  | inr q ↦ rw q refl
]

module _ {V H E : Type 0} (o : Ops V H E) where
  abbrev pub moving : Instr → Instr → Instr
  moving pi i = record pi { arg0 = i.arg0 }

  moved-Same :
      (pi i : Instr) (m : Machine V H) (r : Outcome E (V × H))
      → step o pi m ≡ r >>= to_target pi m
      → step o (moving pi i) m ≡ r >>= to_target (moving pi i) m
      → i.op ≡ op_move
      → pi.arg0 ≡ i.arg1
      → Same (Kept pi i) (run o (pi ∷ i ∷ []) m) (run o (moving pi i ∷ []) m)
  unfolding step step_on
  moved-Same pi i m r h h' hi e =
      compute-Same o (Kept pi i) pi i (moving pi i) m r (to_target pi m) (to_target (moving pi i) m)
        h h'
        (λ (v, g).
          rw (run-one o i _, hi, store-at m.regs pi.arg0 i.arg1 v (sym e))
            (refl, refl, λ j k. store-Kept pi i m.regs v v j k))

  pub moving-Same :
      (op : Opcode) (pi i : Instr) (m : Machine V H)
      → pi.op ≡ op
      → computes_target op ≡ true
      → op ≢ op_mod
      → i.op ≡ op_move
      → pi.arg0 ≡ i.arg1
      → Same (Kept pi i) (run o (pi ∷ i ∷ []) m) (run o (moving pi i ∷ []) m)
  unfolding step step_on
  moving-Same op_get pi i m hp c n hi e =
      moved-Same pi i m (o.get pi.arg1 (m.regs pi.arg1) (m.regs pi.arg2) m.heap) (rw hp refl)
        (rw hp refl) hi e
  moving-Same op_add pi i m hp c n hi e =
      moved-Same pi i m (o.arith add (m.regs pi.arg2) (m.regs pi.arg1) m.heap) (rw hp refl)
        (rw hp refl) hi e
  moving-Same op_sub pi i m hp c n hi e =
      moved-Same pi i m (o.arith sub (m.regs pi.arg2) (m.regs pi.arg1) m.heap) (rw hp refl)
        (rw hp refl) hi e
  moving-Same op_mul pi i m hp c n hi e =
      moved-Same pi i m (o.arith mul (m.regs pi.arg2) (m.regs pi.arg1) m.heap) (rw hp refl)
        (rw hp refl) hi e
  moving-Same op_div pi i m hp c n hi e =
      moved-Same pi i m (o.arith div (m.regs pi.arg2) (m.regs pi.arg1) m.heap) (rw hp refl)
        (rw hp refl) hi e
  moving-Same op_mod pi i m hp c n hi e = absurd (n refl)
  moving-Same op_bitw pi i m hp c n hi e =
      let r = o.bitwise pi.arg3 (m.regs pi.arg2) (m.regs pi.arg1) in
      let with_heap : V → Outcome E (V × H) = λ v. ok (v, m.heap) in
      moved-Same pi i m (r >>= with_heap) (rw hp (sym (bind_assoc r with_heap (to_target pi m))))
        (rw hp (sym (bind_assoc r with_heap (to_target (moving pi i) m)))) hi e
  moving-Same op_loadint pi i m hp c n hi e =
      moved-Same pi i m (ok (o.integer pi.arg1, m.heap)) (rw hp refl) (rw hp refl) hi e
  moving-Same op_loadfloat pi i m hp c n hi e =
      moved-Same pi i m (ok (o.float pi.arg1, m.heap)) (rw hp refl) (rw hp refl) hi e
  moving-Same op_loadbool pi i m hp c n hi e =
      moved-Same pi i m (ok (bool_of o (not (pi.arg1 == 0)), m.heap)) (rw hp refl) (rw hp refl) hi e
  moving-Same op_load pi i m hp c n hi e =
      moved-Same pi i m (ok (o.literals pi.arg1, m.heap)) (rw hp refl) (rw hp refl) hi e
  moving-Same _ pi i m hp c n hi e = ground arith

  abbrev pub two_moves : Instr → Instr → Instr
  two_moves pi i = record pi { op = op_dmove; arg2 = i.arg0; arg3 = byte i.arg1 }

  pub two_moves-Same :
      (pi i : Instr) (m : Machine V H)
      → pi.op ≡ op_move
      → i.op ≡ op_move
      → i.arg1 < 256
      → Same Every (run o (pi ∷ i ∷ []) m) (run o (two_moves pi i ∷ []) m)
  unfolding step step_on
  two_moves-Same pi i m hp hi l =
      let small : byte i.arg1 ≡ i.arg1 = omega arith in
      fuse-Same o Every pi i (two_moves pi i) m
        (record m { regs = store m.regs pi.arg0 (m.regs pi.arg1) }) (rw hp refl)
        (rw (hi, small) (refl, refl, λ j k. refl))

  abbrev pub two_loads : Instr → Instr → Instr
  two_loads pi i = record pi { op = op_dload; arg2 = i.arg0; arg3 = byte i.arg1 }

  pub two_loads-Same :
      (pi i : Instr) (m : Machine V H)
      → pi.op ≡ op_load
      → i.op ≡ op_load
      → i.arg1 < 256
      → Same Every (run o (pi ∷ i ∷ []) m) (run o (two_loads pi i ∷ []) m)
  unfolding step step_on
  two_loads-Same pi i m hp hi l =
      let small : byte i.arg1 ≡ i.arg1 = omega arith in
      fuse-Same o Every pi i (two_loads pi i) m
        (record m { regs = store m.regs pi.arg0 (o.literals pi.arg1) }) (rw hp refl)
        (rw (hi, small) (refl, refl, λ j k. refl))

  abbrev pub more_nulls : Instr → Instr
  more_nulls pi = record pi { arg1 = word (pi.arg1 + 1) }

  pub more_nulls-Same :
      (pi i : Instr) (m : Machine V H)
      → pi.op ≡ op_loadnulls
      → i.op ≡ op_loadnulls
      → i.arg0 ≡ pi.arg0 + pi.arg1
      → i.arg1 ≡ 1
      → pi.arg1 + 1 < 2 ^ 31
      → Same Every (run o (pi ∷ i ∷ []) m) (run o (more_nulls pi ∷ []) m)
  unfolding step step_on
  more_nulls-Same pi i m hp hi e one l =
      let small : word (pi.arg1 + 1) ≡ pi.arg1 + 1 = omega arith in
      let below = lt→leb (2 ^ 31) pi.arg1 (omega arith) in
      let below' = lt→leb (2 ^ 31) (pi.arg1 + 1) (omega arith) in
      let z : (pi.arg0 + pi.arg1) + 0 ≡ pi.arg0 + pi.arg1 = omega arith in
      fuse-Same o Every pi i (more_nulls pi) m
        (record m { regs = load_nulls o.null pi.arg0 pi.arg1 m.regs }) (rw (hp, below) refl)
        (rw (hi, hp, small, below', one, e, add-one, z) (refl, refl, λ j k. refl))

  pub no_line-Same :
      (pi i : Instr) (m : Machine V H)
      → pi.op ≡ op_line
      → o.debug_hook ≡ none
      → Same Every (run o (pi ∷ i ∷ []) m) (run o (i ∷ []) m)
  unfolding step step_on
  no_line-Same pi i m hp q =
      fuse-Same o Every pi i i m m (rw (hp, q) refl) (Same-refl Every (step o i m))

  -- A target that holds the value already is none.
  no_target-Alike :
      (i : Instr) (m : Machine V H) (a : ℕ) (h : H)
      → i.arg0 ≡ a
      → Same Every
          (to_optional_target {E = E} i m (m.regs a) h)
          (to_optional_target (no_target i) m (m.regs a) h)
  no_target-Alike i m a h e = elim (Bool-cases (i.arg0 == 255)) [
    | inl q ↦ rw q (refl, refl, λ j k. refl)
    | inr q ↦ rw q (refl, refl, λ j k. store_self m.regs i.arg0 a j e)
  ]

  -- the instructions whose target holds the value of `arg3` or `arg2`
  abbrev pub Assigns : Instr → Type 0
  Assigns i =
      (((i.op ≡ op_set) ⊎ (i.op ≡ op_newslot)) × (i.arg0 ≡ i.arg3))
      ⊎ ((i.op ≡ op_setouter) × (i.arg0 ≡ i.arg2))

  pub no_target-Same :
      (pi i : Instr) (m : Machine V H)
      → Assigns i
      → Same Every (run o (pi ∷ i ∷ []) m) (run o (pi ∷ no_target i ∷ []) m)
  unfolding step step_on
  no_target-Same pi i m (inl (inl hi, e)) = second-Same o Every pi i (no_target i) m (λ n. rw hi (
      bind-Same Every (o.assign i.arg1 (n.regs i.arg1) (n.regs i.arg2) (n.regs i.arg3) n.heap)
        (to_optional_target i n (n.regs i.arg3))
        (to_optional_target (no_target i) n (n.regs i.arg3)) (λ h. no_target-Alike i n i.arg3 h e)))
  no_target-Same pi i m (inl (inr hi, e)) = second-Same o Every pi i (no_target i) m (λ n. rw hi (
      bind-Same Every (o.create_slot (n.regs i.arg1) (n.regs i.arg2) (n.regs i.arg3) n.heap)
        (to_optional_target i n (n.regs i.arg3))
        (to_optional_target (no_target i) n (n.regs i.arg3)) (λ h. no_target-Alike i n i.arg3 h e)))
  no_target-Same pi i m (inr (hi, e)) =
      second-Same o Every pi i (no_target i) m
        (λ n. rw hi (no_target-Alike i n i.arg2 (o.set_outer i.arg1 (n.regs i.arg2) n.heap) e))
