-- ===== src/Func/Rules.antt =====
-- The rules of the optimiser that change a target or join two like instructions, and all rules
-- together.
use squirrel_gobject.Prelude.{
  none, ◌+◌, ◌==◌, ◌≡◌, refl, sym, ◌∙◌, ◌⊎◌, inl, inr, ◌&&◌, arith, ==→eq, Bool-cases,
}
use squirrel_gobject.Vm.Machine.{Machine, Ops}
use squirrel_gobject.Func.State.{FuncState}
use squirrel_gobject.Func.Emit.{
  rewrite, on_move, move_again, computes_target, on_load, on_loadnulls, on_line, on_set,
  on_setouter, on_return,
}
use squirrel_gobject.Func.Joined.{
  moving-Same, two_moves-Same, two_loads-Same, more_nulls-Same, no_line-Same, no_target-Same,
}
use squirrel_gobject.Func.Instr.{
  Opcode, Instr, op_line, op_load, op_call, op_prepcall, op_move, op_newslot, op_set, op_get, op_eq,
  op_ne, op_return, op_loadnulls, op_jz, op_setouter, op_appendarray, op_close, word, signed_below,
}
use squirrel_gobject.Func.Fits.{FitsOn}
use squirrel_gobject.Func.Acts.{
  Acts, added-Acts, on_jz-Acts, on_get-Acts, on_prepcall-Acts, on_equal-Acts, on_appendarray-Acts,
}

module _ {V H E : Type 0} (o : Ops V H E) (s : FuncState) (pi i : Instr) (m : Machine V H) where
  on_move-Acts :
      (op : Opcode)
      → pi.op ≡ op
      → i.op ≡ op_move
      → FitsOn op_move pi i
      → Acts o s pi i m op_move (on_move op pi i)
  on_move-Acts op hp hi (l, no_mod) =
      elim (Bool-cases (computes_target op && (pi.arg0 == i.arg1))) [
        | inl q ↦
            let e = ==→eq pi.arg0 i.arg1 (ground (arith, q)) in
            rw q (moving-Same o op pi i m hp (ground (arith, q)) (λ z. no_mod (hp ∙ z) e) hi e)
        | inr q ↦ rw q (again op hp)
      ]
    where
      again : (op : Opcode) → pi.op ≡ op → Acts o s pi i m op_move (move_again op pi i)
      again op_move hp = two_moves-Same o pi i m hp hi l
      again _ hp = added-Acts o s pi i m op_move

  on_load-Acts :
      (op : Opcode)
      → pi.op ≡ op
      → i.op ≡ op_load
      → FitsOn op_load pi i
      → Acts o s pi i m op_load (on_load op pi i)
  on_load-Acts op_load hp hi l = elim (Bool-cases (signed_below i.arg1 256)) [
    | inl q ↦ rw q (two_loads-Same o pi i m hp hi (ground (arith, q, l)))
    | inr q ↦ rw q (added-Acts o s pi i m op_load)
  ]
  on_load-Acts _ hp hi l = added-Acts o s pi i m op_load

  on_loadnulls-Acts :
      (op : Opcode)
      → pi.op ≡ op
      → i.op ≡ op_loadnulls
      → FitsOn op_loadnulls pi i
      → Acts o s pi i m op_loadnulls (on_loadnulls op pi i)
  on_loadnulls-Acts op_loadnulls hp hi (one, l) =
      let small : word (pi.arg0 + pi.arg1) ≡ pi.arg0 + pi.arg1 = omega arith in
      elim (Bool-cases (word (pi.arg0 + pi.arg1) == i.arg0)) [
        | inl q ↦
            rw q (more_nulls-Same o pi i m hp hi (sym (==→eq _ i.arg0 q) ∙ small) one (omega arith))
        | inr q ↦ rw q (added-Acts o s pi i m op_loadnulls)
      ]
  on_loadnulls-Acts _ hp hi l = added-Acts o s pi i m op_loadnulls

  on_line-Acts :
      (op : Opcode)
      → pi.op ≡ op
      → (pi.op ≡ op_line → o.debug_hook ≡ none)
      → Acts o s pi i m op_line (on_line op pi i)
  on_line-Acts op_line hp q = no_line-Same o pi i m hp (q hp)
  on_line-Acts _ hp q = added-Acts o s pi i m op_line

  on_return-Acts :
      (op : Opcode)
      → pi.op ≡ op
      → FitsOn op_return pi i
      → Acts o s pi i m op_return (on_return s op pi i)
  on_return-Acts op_call hp (c, d) = absurd (c hp)
  on_return-Acts op_close hp (c, d) = absurd (d hp)
  on_return-Acts _ hp f = added-Acts o s pi i m op_return

  on_set-Acts :
      (op : Opcode) → (i.op ≡ op_set) ⊎ (i.op ≡ op_newslot) → Acts o s pi i m op (on_set pi i)
  on_set-Acts op hi = elim (Bool-cases (i.arg0 == i.arg3)) [
    | inl q ↦ rw q (no_target-Same o pi i m (inl (hi, ==→eq i.arg0 i.arg3 q)))
    | inr q ↦ rw q (added-Acts o s pi i m op)
  ]

  on_setouter-Acts : (op : Opcode) → i.op ≡ op_setouter → Acts o s pi i m op (on_setouter pi i)
  on_setouter-Acts op hi = elim (Bool-cases (i.arg0 == i.arg2)) [
    | inl q ↦ rw q (no_target-Same o pi i m (inr (hi, ==→eq i.arg0 i.arg2 q)))
    | inr q ↦ rw q (added-Acts o s pi i m op)
  ]

  pub rewrite-Acts :
      (op : Opcode)
      → i.op ≡ op
      → FitsOn op pi i
      → (pi.op ≡ op_line → o.debug_hook ≡ none)
      → Acts o s pi i m op (rewrite op s pi i)
  unfolding rewrite
  rewrite-Acts op_jz hi f q = on_jz-Acts o s pi i m pi.op refl hi f
  rewrite-Acts op_set hi f q = on_set-Acts op_set (inl hi)
  rewrite-Acts op_newslot hi f q = on_set-Acts op_newslot (inr hi)
  rewrite-Acts op_setouter hi f q = on_setouter-Acts op_setouter hi
  rewrite-Acts op_return hi f q = on_return-Acts pi.op refl f
  rewrite-Acts op_get hi f q = on_get-Acts o s pi i m pi.op refl hi f
  rewrite-Acts op_prepcall hi f q = on_prepcall-Acts o s pi i m pi.op refl hi f
  rewrite-Acts op_appendarray hi f q = on_appendarray-Acts o s pi i m pi.op refl hi f
  rewrite-Acts op_move hi f q = on_move-Acts pi.op refl hi f
  rewrite-Acts op_load hi f q = on_load-Acts pi.op refl hi f
  rewrite-Acts op_eq hi f q = on_equal-Acts o s pi i m pi.op op_eq refl (inl hi) f refl
  rewrite-Acts op_ne hi f q = on_equal-Acts o s pi i m pi.op op_ne refl (inr hi) f refl
  rewrite-Acts op_loadnulls hi f q = on_loadnulls-Acts pi.op refl hi f
  rewrite-Acts op_line hi f q = on_line-Acts pi.op refl q
  rewrite-Acts op hi f q = added-Acts o s pi i m op
