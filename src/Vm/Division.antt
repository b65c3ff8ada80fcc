-- ===== src/Vm/Division.antt =====
-- The division of integers.
use native.Mathlib.Nat.{mod-lt, div-add-mod, div-le_self, div-lt_self}
use squirrel_gobject.Prelude.{
  ℕ, ◌+◌, ◌*◌, ◌/◌, ◌%◌, ◌^◌, ◌<◌, ◌≤◌, ◌≡◌, ◌≢◌, refl, sym, ◌⊎◌, inl, inr, ltb, ◌==◌, Bool, true,
  false, ◌&&◌, Bool-cases, arith, ne→==, ltb→lt, ltb→le,
}
use squirrel_gobject.Prelude.Outcome.{ok}
use squirrel_gobject.Vm.Value.{negative, magnitude, minus_one, int_min, integer_min}
use squirrel_gobject.Vm.Arith.{
  quotient, remainder, divide, modulus, integer_op, over, modulo, differ, with_sign,
}

-- `q` and `r` are the quotient towards zero and the remainder of the signed integers a and b.
pub record IsDivision (a b q r : ℕ) : Type 0 where
  pub size : magnitude a ≡ magnitude b * magnitude q + magnitude r
  pub small : magnitude r < magnitude b
  pub sign : (q ≡ 0) ⊎ (negative q ≡ differ (negative a) (negative b))
  pub rest : (r ≡ 0) ⊎ (negative r ≡ negative a)

magnitude_bound : (a : ℕ) → a < 2 ^ 64 → magnitude a ≤ 2 ^ 63
magnitude_bound a h = ground arith

magnitude-positive : (b : ℕ) → b < 2 ^ 64 → b ≢ 0 → 0 < magnitude b
magnitude-positive b h n = ground arith

-- An absolute value and a sign are those of an integer.
with_sign_lem :
    (sign : Bool) (n : ℕ)
    → n ≤ 2 ^ 63
    → (sign ≡ false → n < 2 ^ 63)
    → (magnitude (with_sign sign n) ≡ n)
      × ((with_sign sign n ≡ 0) ⊎ (negative (with_sign sign n) ≡ sign))
with_sign_lem true n h k = (ground arith, ground arith)
with_sign_lem false n h k = let l = k refl in (ground arith, inr (ground arith))

least : (a : ℕ) → a < 2 ^ 64 → 2 ^ 63 ≤ magnitude a → (a ≡ integer_min) × (negative a ≡ true)
least a h l = (ground arith, ground arith)

minus_one_lem : (b : ℕ) → b < 2 ^ 64 → b ≢ 0 → magnitude b ≤ 1 → negative b ≡ true → b ≡ minus_one
minus_one_lem b h n l t = ground arith

module _ (a b : ℕ) (ha : a < 2 ^ 64) (hb : b < 2 ^ 64) (nonzero : b ≢ 0) where
  abbrev Q : ℕ
  Q = magnitude a / magnitude b

  abbrev R : ℕ
  R = magnitude a % magnitude b

  whole : magnitude b * Q + R ≡ magnitude a
  whole = div-add-mod (magnitude a) (magnitude b)

  rest_small : R < magnitude b
  rest_small = mod-lt (magnitude a) (magnitude-positive b hb nonzero)

  Q_bound : Q ≤ 2 ^ 63
  Q_bound = omega (arith, div-le_self (magnitude a) (magnitude b), magnitude_bound a ha)

  R_bound : R < 2 ^ 63
  R_bound = omega (arith, rest_small, magnitude_bound b hb)

  -- The quotient of two integers of one sign is an integer.
  Q_small :
      (a ≡ integer_min → b ≢ minus_one) → differ (negative a) (negative b) ≡ false → Q < 2 ^ 63
  Q_small h s = elim (Bool-cases (ltb 1 (magnitude b))) [
    | inl e ↦ elim (Bool-cases (ltb 0 (magnitude a))) [
      | inl p ↦ omega (
        arith,
        div-lt_self (ltb→lt 0 (magnitude a) p) (ltb→lt 1 (magnitude b) e),
        magnitude_bound a ha,
      )
      | inr p ↦ omega (arith, div-le_self (magnitude a) (magnitude b), ltb→le 0 (magnitude a) p)
    ]
    | inr e ↦ elim (Bool-cases (ltb (magnitude a) (2 ^ 63))) [
      | inl p ↦
          omega (arith, div-le_self (magnitude a) (magnitude b), ltb→lt (magnitude a) (2 ^ 63) p)
      | inr p ↦
          let (l, t) = least a ha (ltb→le (magnitude a) (2 ^ 63) p) in
          absurd (h l (minus_one_lem b hb nonzero (ltb→le 1 (magnitude b) e) (unsigned t)))
    ]
  ]
    where
      unsigned : negative a ≡ true → negative b ≡ true
      unsigned t = ground (arith, t, s)

  -- For 64-bit integers of which the second one is not 0: unless it is -1 and the first one is the
  -- least integer or INT_MIN, ARITH_OP answers for / and % the quotient towards zero and the
  -- remainder: the absolute values add up, that of the remainder is less than the divisor's, the
  -- quotient is negative where the signs differ and the remainder has the first one's sign, or
  -- either is 0.
  pub integer_op-IsDivision :
      (a ≡ integer_min → b ≢ minus_one)
      → (a ≡ int_min → b ≢ minus_one)
      → (integer_op over a b ≡ ok (quotient a b))
        × (integer_op modulo a b ≡ ok (remainder a b))
        × IsDivision a b (quotient a b) (remainder a b)
  unfolding integer_op divide modulus quotient remainder
  integer_op-IsDivision h k =
      let q = with_sign_lem (differ (negative a) (negative b)) Q Q_bound (Q_small h) in
      let r = with_sign_lem (negative a) R (omega (arith, R_bound)) (λ e. R_bound) in
      let t : (b == 0) ≡ false = ne→== b 0 nonzero in
      let u : (b == minus_one && (a == int_min)) ≡ false = ground (arith, k) in
      let v : (a == integer_min && (b == minus_one)) ≡ false = ground (arith, h) in
      (
        rw (t, u, v) refl,
        rw (t, u, v) refl,
        record {
          size = rw (q.0, r.0) (sym whole);
          small = rw r.0 rest_small;
          sign = q.1;
          rest = r.1;
        },
      )
