-- ===== src/Func/Bounds.antt =====
-- The positions that the stack of targets gives out.
use squirrel_gobject.Prelude.{ℕ, ◌+◌, ◌≤◌, none, ltb, length, arith, Bool-cases, inl, inr, ltb→le}
use squirrel_gobject.Prelude.Outcome.{Ends}
use squirrel_gobject.Func.State.{FuncState, temporary}
use squirrel_gobject.Func.Targets.{push_target, alloc_stack_pos, with_local, with_target}
use squirrel_gobject.Func.Snoc.{length-snoc}

-- A position fits in a byte, and the frame has 256 positions at most.
abbrev pub InFrame : ℕ × FuncState → Type 0
InFrame (n, s) = (n ≤ 255) × (s.stacksize ≤ 256) × (length s.vlocals ≤ s.stacksize)

placed_lem :
    (s : FuncState)
    → length s.vlocals ≤ s.stacksize
    → length s.vlocals ≤ 255
    → s.stacksize ≤ 256
    → InFrame (with_target (length s.vlocals, with_local temporary s))
placed_lem s h n l = ground (arith, h, n, l, length-snoc s.vlocals temporary)

-- Where the frame has 256 positions at most and the locals have their places in it, PushTarget for
-- a new target reports an error or answers a position that fits in a byte, and the same holds of
-- the frame afterwards.
pub push_target-InFrame :
    (s : FuncState)
    → length s.vlocals ≤ s.stacksize
    → s.stacksize ≤ 256
    → Ends InFrame (push_target none s)
unfolding push_target alloc_stack_pos
push_target-InFrame s h l = elim (Bool-cases (ltb s.stacksize (length s.vlocals + 1))) [
  | inl p ↦ elim (Bool-cases (ltb 255 s.stacksize)) [
    | inl q ↦ rw (p, q) tt
    | inr q ↦ rw (p, q) (placed_lem s h (omega (arith, h, ltb→le 255 s.stacksize q)) l)
  ]
  | inr p ↦ rw p (placed_lem s h (omega (arith, l, ltb→le s.stacksize (length s.vlocals + 1) p)) l)
]
