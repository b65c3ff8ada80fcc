-- ===== src/Func/Fused.antt =====
-- The rules of the optimiser, one by one: what the joined instruction does.
use squirrel_gobject.Prelude.{
  ℕ, ◌<◌, ◌≡◌, ◌≢◌, refl, sym, ◌∙◌, ◌⊎◌, inl, inr, none, [], ◌∷◌, arith, eq→==, ne→==,
}
use squirrel_gobject.Prelude.Outcome.{ok}
use squirrel_gobject.Vm.Machine.{
  Machine, Ops, store, step, step_on, run, to_target, append_value, jump_if,
}
use squirrel_gobject.Vm.Same.{Same, bind-Same, fuse-Same, compute-Same, run-one}
use squirrel_gobject.Func.Instr.{
  Instr, op_load, op_prepcall, op_prepcallk, op_getk, op_get, op_eq, op_ne, op_jcmp, op_jz,
  op_appendarray, op_cmp, byte, max_func_stacksize, aat_stack,
}

pub store-at : {V : Type 0} (regs : ℕ → V) (a j : ℕ) (v : V) → j ≡ a → store regs a v j ≡ v
store-at regs a j v h = rw (eq→== j a h) refl

store-off : {V : Type 0} (regs : ℕ → V) (a j : ℕ) (v : V) → j ≢ a → store regs a v j ≡ regs j
store-off regs a j v h = rw (ne→== j a h) refl

abbrev pub Kept : Instr → Instr → ℕ → Type 0
Kept pi i j = (j ≢ pi.arg0) ⊎ (j ≡ i.arg0)

pub store-Kept :
    {V : Type 0} (pi i : Instr) (regs : ℕ → V) (v w : V) (j : ℕ)
    → Kept pi i j
    → store (store regs pi.arg0 v) i.arg0 w j ≡ store regs i.arg0 w j
store-Kept pi i regs v w j h = ground (arith, h)

abbrev pub KeptCall : Instr → Instr → ℕ → Type 0
KeptCall pi i j = (j ≢ pi.arg0) ⊎ ((j ≡ i.arg0) ⊎ (j ≡ i.arg3))

store-KeptCall :
    {V : Type 0} (pi i : Instr) (regs : ℕ → V) (v obj w : V) (j : ℕ)
    → KeptCall pi i j
    → store (store (store regs pi.arg0 v) i.arg3 obj) i.arg0 w j
      ≡ store (store regs i.arg3 obj) i.arg0 w j
store-KeptCall pi i regs v obj w j h = ground (arith, h)

module _ {V H E : Type 0} (o : Ops V H E) where
  abbrev getk : Instr → Instr → Instr
  getk pi i = record pi { op = op_getk; arg0 = i.arg0; arg2 = byte i.arg1 }

  pub getk-Same :
      (pi i : Instr) (m : Machine V H)
      → pi.op ≡ op_load
      → i.op ≡ op_get
      → pi.arg0 ≡ i.arg2
      → i.arg1 ≢ i.arg2
      → i.arg1 < 256
      → Same (Kept pi i) (run o (pi ∷ i ∷ []) m) (run o (getk pi i ∷ []) m)
  unfolding step step_on
  getk-Same pi i m hp hi e ne l =
      let key = o.literals pi.arg1 in
      let n : Machine V H = record m { regs = store m.regs pi.arg0 key } in
      let small : byte i.arg1 ≡ i.arg1 = omega arith in
      let off : i.arg1 ≢ pi.arg0 = λ q. ne (q ∙ e) in
      fuse-Same o (Kept pi i) pi i (getk pi i) m n (rw hp refl) (
        rw
          (
            hi,
            small,
            store-off m.regs pi.arg0 i.arg1 key off,
            store-at m.regs pi.arg0 i.arg2 key (sym e),
          )
          (bind-Same (Kept pi i) (o.get i.arg1 (m.regs i.arg1) key m.heap) (to_target i n)
            (to_target (getk pi i) m)
            (λ r. (refl, refl, λ j k. store-Kept pi i m.regs key r.0 j k))))

  abbrev pub prepcallk : Instr → Instr → Instr
  prepcallk pi i = record pi { op = op_prepcallk; arg0 = i.arg0; arg2 = i.arg2; arg3 = i.arg3 }

  pub prepcallk-Same :
      (pi i : Instr) (m : Machine V H)
      → pi.op ≡ op_load
      → i.op ≡ op_prepcall
      → pi.arg0 ≡ i.arg1
      → i.arg2 ≢ i.arg1
      → Same (KeptCall pi i) (run o (pi ∷ i ∷ []) m) (run o (prepcallk pi i ∷ []) m)
  unfolding step step_on
  prepcallk-Same pi i m hp hi e ne =
      let L = KeptCall pi i in
      let key = o.literals pi.arg1 in
      let n : Machine V H = record m { regs = store m.regs pi.arg0 key } in
      let obj = m.regs i.arg2 in
      let w = prepcallk pi i in
      let off : i.arg2 ≢ pi.arg0 = λ q. ne (q ∙ e) in
      fuse-Same o L pi i w m n (rw hp refl) (
        rw (hi, store-off m.regs pi.arg0 i.arg2 key off, store-at m.regs pi.arg0 i.arg1 key (sym e))
          (bind-Same L (o.get i.arg2 obj key m.heap)
            (to_target i (record n { regs = store n.regs i.arg3 obj }))
            (to_target w (record m { regs = store m.regs i.arg3 obj }))
            (λ r. (refl, refl, λ j k. store-KeptCall pi i m.regs key obj r.0 j k))))

  abbrev pub appending : ℕ → Instr → Instr → Instr
  appending aat pi i = record pi {
    op = op_appendarray;
    arg0 = i.arg0;
    arg2 = byte aat;
    arg3 = max_func_stacksize;
  }

  pub appending-Same :
      (aat : ℕ) (pi i : Instr) (m : Machine V H) (v : V)
      → step o pi m ≡ ok (record m { regs = store m.regs pi.arg0 v }, none)
      → append_value o (appending aat pi i) m (byte aat) ≡ v
      → i.op ≡ op_appendarray
      → i.arg2 ≡ aat_stack
      → pi.arg0 ≡ i.arg1
      → i.arg0 ≢ i.arg1
      → Same (λ j. j ≢ pi.arg0) (run o (pi ∷ i ∷ []) m) (run o (appending aat pi i ∷ []) m)
  unfolding step step_on
  appending-Same aat pi i m v hp hv hi stack e ne =
      let n : Machine V H = record m { regs = store m.regs pi.arg0 v } in
      let off : i.arg0 ≢ pi.arg0 = λ q. ne (q ∙ e) in
      fuse-Same o (λ j. j ≢ pi.arg0) pi i (appending aat pi i) m n hp
        (rw
          (
            hi,
            stack,
            hv,
            store-off m.regs pi.arg0 i.arg0 v off,
            store-at m.regs pi.arg0 i.arg1 v (sym e),
          )
          (refl, refl, λ j k. store-off m.regs pi.arg0 j v k))

  abbrev pub comparing : Instr → Instr → Instr
  comparing pi i = record pi { op = i.op; arg0 = i.arg0; arg2 = i.arg2; arg3 = max_func_stacksize }

  pub comparing-Same :
      (pi i : Instr) (m : Machine V H)
      → pi.op ≡ op_load
      → (i.op ≡ op_eq) ⊎ (i.op ≡ op_ne)
      → i.arg3 ≡ 0
      → pi.arg0 ≡ i.arg1
      → i.arg2 ≢ i.arg1
      → Same (Kept pi i) (run o (pi ∷ i ∷ []) m) (run o (comparing pi i ∷ []) m)
  unfolding step step_on
  comparing-Same pi i m hp hi lit e ne =
      let key = o.literals pi.arg1 in
      let n : Machine V H = record m { regs = store m.regs pi.arg0 key } in
      let off : i.arg2 ≢ pi.arg0 = λ q. ne (q ∙ e) in
      let a = store-off m.regs pi.arg0 i.arg2 key off in
      let b = store-at m.regs pi.arg0 i.arg1 key (sym e) in
      fuse-Same o (Kept pi i) pi i (comparing pi i) m n (rw hp refl) (elim hi [
        | inl q ↦ rw (q, lit, a, b) (refl, refl, store-Kept pi i m.regs key _)
        | inr q ↦ rw (q, lit, a, b) (refl, refl, store-Kept pi i m.regs key _)
      ])

  abbrev pub jumping : Instr → Instr → Instr
  jumping pi i = record pi { op = op_jcmp; arg0 = byte pi.arg1; arg1 = i.arg1 }

  pub jumping-Same :
      (pi i : Instr) (m : Machine V H)
      → pi.op ≡ op_cmp
      → i.op ≡ op_jz
      → pi.arg1 < 256
      → i.arg0 ≡ pi.arg0
      → Same (λ j. j ≢ pi.arg0) (run o (pi ∷ i ∷ []) m) (run o (jumping pi i ∷ []) m)
  unfolding run step step_on
  jumping-Same pi i m hp hi l e =
      let small : byte pi.arg1 ≡ pi.arg1 = omega arith in
      compute-Same o (λ j. j ≢ pi.arg0) pi i (jumping pi i) m
        (o.compare pi.arg3 (m.regs pi.arg2) (m.regs pi.arg1) m.heap) (to_target pi m)
        (λ (v, h). jump_if (o.is_false v) i.arg1 (record m { heap = h })) (rw hp refl)
        (rw small refl)
        (λ r.
          rw (run-one o i _, hi, store-at m.regs pi.arg0 i.arg0 r.0 e)
            (refl, refl, λ j k. store-off m.regs pi.arg0 j r.0 k))
