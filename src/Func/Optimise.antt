-- ===== src/Func/Optimise.antt =====
-- `AddInstruction` with its optimiser against the same instructions without it.
use squirrel_gobject.Prelude.{
  none, ◌≡◌, refl, ap, ◌∙◌, List, [], ◌∷◌, ◌++◌, true, ◌&&◌, ltb, length, arith, lt→ltb,
  length-append,
}
use squirrel_gobject.Vm.Machine.{Machine, Ops, run}
use squirrel_gobject.Vm.Same.{Same}
use squirrel_gobject.Func.State.{FuncState, without_last, back}
use squirrel_gobject.Func.Snoc.{back-snoc, without_last-snoc}
use squirrel_gobject.Func.Emit.{
  Emitted, replaced, moved, added, line_again, rewrite, no_instruction, emit, add_instruction,
}
use squirrel_gobject.Func.Instr.{Instr, op_line}
use squirrel_gobject.Func.Fits.{Fits, Live, code_of}
use squirrel_gobject.Func.Rules.{rewrite-Acts}

emit-code :
    (i : Instr) (s : FuncState) (before : List Instr) (e : Emitted)
    → (emit i s before e).instructions ≡ before ++ code_of i e
unfolding emit
emit-code i s before (replaced w) = refl
emit-code i s before (moved w) = refl
emit-code i s before (added w w') = refl
emit-code i s before line_again = refl

-- Where the optimiser is on, an instruction stands before that fits, and no debug hook is set if
-- that one is a LINE, AddInstruction changes nothing before the two, and what it puts in their place acts, on every machine, like the two
-- instructions one after the other: the same error or the same heap, the same way on and the
-- same value in every live register. A register that is not live is the first one's target
-- where the second one takes its value in and does not write it; for JZ and MOVE that may be a named
-- local, for the other instructions it is none.
pub add_instruction-Acts :
    {V H E : Type 0} (o : Ops V H E) (s : FuncState) (before : List Instr) (pi i : Instr)
    (m : Machine V H)
    → s.instructions ≡ before ++ pi ∷ []
    → s.optimization ≡ true
    → Fits pi i
    → (pi.op ≡ op_line → o.debug_hook ≡ none)
    → let e = rewrite i.op s pi i in
      ((add_instruction i s).instructions ≡ before ++ code_of i e)
      × Same (Live i.op s pi i e) (run o (pi ∷ i ∷ []) m) (run o (code_of i e) m)
unfolding add_instruction
add_instruction-Acts o s before pi i m h on f q =
    let pi-back : back s.instructions no_instruction ≡ pi =
      ap (λ c. back c no_instruction) h ∙ back-snoc before pi no_instruction in
    let rest : without_last s.instructions ≡ before =
      ap without_last h ∙ without_last-snoc before pi in
    let nonempty : ltb 0 (length s.instructions) ≡ true =
      lt→ltb 0 _ (rw (h, length-append before (pi ∷ [])) (omega arith)) in
    let both : (ltb 0 (length s.instructions) && s.optimization) ≡ true = rw (nonempty, on) refl in
    (
      rw (both, pi-back, rest) (emit-code i s before (rewrite i.op s pi i)),
      rewrite-Acts o s pi i m i.op refl f q,
    )
