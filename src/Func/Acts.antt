-- ===== src/Func/Acts.antt =====
-- The rules of the optimiser that take a temporary's value from the instruction that computes it.
use squirrel_gobject.Prelude.{
  ℕ, ◌≤◌, ◌==◌, if◌then◌else◌, ◌≡◌, ◌≢◌, refl, ap, ◌⊎◌, inl, inr, none, some, [], ◌∷◌, Bool, true,
  false, not, arith, Bool-cases,
}
use squirrel_gobject.Prelude.Outcome.{ok}
use squirrel_gobject.Vm.Machine.{Machine, Ops, run, step, step_on, append_value, store}
use squirrel_gobject.Vm.Same.{Same, Same-refl, Same-weaken}
use squirrel_gobject.Func.State.{FuncState, is_local}
use squirrel_gobject.Func.Emit.{
  Emitted, added, on_jz, on_get, on_prepcall, on_appendarray, appended, loads_temporary, on_equal,
}
use squirrel_gobject.Func.Fused.{
  Kept, KeptCall, getk-Same, prepcallk-Same, appending-Same, comparing-Same, jumping-Same,
}
use squirrel_gobject.Func.Joined.{Every}
use squirrel_gobject.Func.Instr.{
  Opcode, Instr, op_load, op_loadint, op_loadfloat, op_prepcall, op_get, op_eq, op_ne, op_loadbool,
  op_jz, op_appendarray, op_cmp, byte, max_func_stacksize, signed_below, aat_literal, aat_int,
  aat_float, aat_bool,
}
use squirrel_gobject.Func.Fits.{FitsOn, LiveOn, Live, code_of}

loads_temporary_parts :
    (s : FuncState) (pi : Instr) (a : ℕ)
    → loads_temporary s pi a ≡ true
    → (pi.arg0 ≡ a) × (is_local s pi.arg0 ≡ false)
loads_temporary_parts s pi a h = ground arith

unless_local : {A : Type 0} (b : Bool) → b ≡ false → A ⊎ (b ≡ true) → A
unless_local b h (inl a) = a
unless_local b h (inr l) = ground arith

module _ {V H E : Type 0} (o : Ops V H E) (s : FuncState) (pi i : Instr) (m : Machine V H) where
  abbrev pub Acts : Opcode → Emitted → Type 0
  Acts op e = Same (Live op s pi i e) (run o (pi ∷ i ∷ []) m) (run o (code_of i e) m)

  pub added-Acts : (op : Opcode) → Acts op (added pi i)
  added-Acts op = Same-refl Every (run o (pi ∷ i ∷ []) m)

  pub on_jz-Acts :
      (op : Opcode) → pi.op ≡ op → i.op ≡ op_jz → FitsOn op_jz pi i → Acts op_jz (on_jz op pi i)
  on_jz-Acts op_cmp hp hi (f, l) = elim (Bool-cases (signed_below pi.arg1 255)) [
    | inl q ↦ rw q (jumping-Same o pi i m hp hi (ground (arith, q, l)) (f hp))
    | inr q ↦ rw q (added-Acts op_jz)
  ]
  on_jz-Acts _ hp hi f = added-Acts op_jz

  pub on_get-Acts :
      (op : Opcode)
      → pi.op ≡ op
      → i.op ≡ op_get
      → FitsOn op_get pi i
      → Acts op_get (on_get s op pi i)
  on_get-Acts op_load hp hi (ne, l) = elim (Bool-cases (loads_temporary s pi i.arg2)) [
    | inl q ↦
        let (e, t) = loads_temporary_parts s pi i.arg2 q in
        rw q (
          Same-weaken (Kept pi i) (LiveOn op_get s pi i) _ _
            (λ j k. unless_local (is_local s pi.arg0) t k) (getk-Same o pi i m hp hi e ne l))
    | inr q ↦ rw q (added-Acts op_get)
  ]
  on_get-Acts _ hp hi f = added-Acts op_get

  pub on_prepcall-Acts :
      (op : Opcode)
      → pi.op ≡ op
      → i.op ≡ op_prepcall
      → FitsOn op_prepcall pi i
      → Acts op_prepcall (on_prepcall s op pi i)
  on_prepcall-Acts op_load hp hi ne = elim (Bool-cases (loads_temporary s pi i.arg1)) [
    | inl q ↦
        let (e, t) = loads_temporary_parts s pi i.arg1 q in
        rw q (
          Same-weaken (KeptCall pi i) (LiveOn op_prepcall s pi i) _ _
            (λ j k. unless_local (is_local s pi.arg0) t k) (prepcallk-Same o pi i m hp hi e ne))
    | inr q ↦ rw q (added-Acts op_prepcall)
  ]
  on_prepcall-Acts _ hp hi f = added-Acts op_prepcall

  pub on_equal-Acts :
      (op new : Opcode)
      → pi.op ≡ op
      → (i.op ≡ op_eq) ⊎ (i.op ≡ op_ne)
      → FitsOn op_eq pi i
      → LiveOn new s pi i ≡ LiveOn op_eq s pi i
      → Acts new (on_equal s op pi i)
  on_equal-Acts op_load new hp hi (lit, ne) live = elim (Bool-cases (loads_temporary s pi i.arg1)) [
    | inl q ↦
        let (e, t) = loads_temporary_parts s pi i.arg1 q in
        rw (q, live)
          (Same-weaken (Kept pi i) (LiveOn op_eq s pi i) _ _
            (λ j k. unless_local (is_local s pi.arg0) t k) (comparing-Same o pi i m hp hi lit e ne))
    | inr q ↦ rw q (added-Acts new)
  ]
  on_equal-Acts _ new hp hi f live = added-Acts new

  appended-Acts :
      (aat : ℕ) (v : V)
      → step o pi m ≡ ok (record m { regs = store m.regs pi.arg0 v }, none)
      → ((w : Instr) → w.arg1 ≡ pi.arg1 → append_value o w m (byte aat) ≡ v)
      → i.op ≡ op_appendarray
      → FitsOn op_appendarray pi i
      → Acts op_appendarray (appended s (some aat) pi i)
  appended-Acts aat v hp hv hi (stack, ne, small) =
      elim (Bool-cases (loads_temporary s pi i.arg1)) [
        | inl q ↦
            let (e, t) = loads_temporary_parts s pi i.arg1 q in
            rw q (
              Same-weaken (λ j. j ≢ pi.arg0) (LiveOn op_appendarray s pi i) _ _
                (λ j k. unless_local (is_local s pi.arg0) t k)
                (appending-Same o aat pi i m v hp
                  (hv
                    (record pi {
                      op = op_appendarray;
                      arg0 = i.arg0;
                      arg2 = byte aat;
                      arg3 = max_func_stacksize;
                    })
                    refl)
                  hi stack e ne))
        | inr q ↦ rw q (added-Acts op_appendarray)
      ]

  bool_arg : (n : ℕ) → n ≤ 1 → (if not (n == 0) then 1 else 0) ≡ n
  bool_arg n l = ground arith

  pub on_appendarray-Acts :
      (op : Opcode)
      → pi.op ≡ op
      → i.op ≡ op_appendarray
      → FitsOn op_appendarray pi i
      → Acts op_appendarray (on_appendarray s op pi i)
  unfolding step step_on
  on_appendarray-Acts op_load hp hi f =
      appended-Acts aat_literal (o.literals pi.arg1) (rw hp refl) (λ w e. ap o.literals e) hi f
  on_appendarray-Acts op_loadint hp hi f =
      appended-Acts aat_int (o.integer pi.arg1) (rw hp refl) (λ w e. ap o.integer e) hi f
  on_appendarray-Acts op_loadfloat hp hi f =
      appended-Acts aat_float (o.float pi.arg1) (rw hp refl) (λ w e. ap o.float e) hi f
  on_appendarray-Acts op_loadbool hp hi f =
      appended-Acts aat_bool (o.bool pi.arg1)
        (rw hp (
          ap (λ n. ok (record m { regs = store m.regs pi.arg0 (o.bool n) }, none))
            (bool_arg pi.arg1 (f.2 hp))))
        (λ w e. ap o.bool e) hi f
  on_appendarray-Acts _ hp hi f = added-Acts op_appendarray
