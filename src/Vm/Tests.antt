-- ===== src/Vm/Tests.antt =====
-- The virtual machine at concrete inputs.
use squirrel_gobject.Prelude.{
  not, ◌&&◌, ◌||◌, ℕ, ◌≡◌, refl, arith, true, false, ◌-◌, ◌^◌, List, [], ◌∷◌,
}
use squirrel_gobject.Prelude.Int.{pos}
use squirrel_gobject.Prelude.Outcome.{ok, err, ◌>>=◌}
use squirrel_gobject.Vm.Value.{
  null, string, undefined_behaviour, integer_overflow, integer_min, int_min, minus_one,
}
use squirrel_gobject.Vm.Arith.{over, modulo, integer_op, fast_over, divide, quotient, remainder}
use squirrel_gobject.Vm.Compare.{obj_cmp, is_equal, strcmp}
use squirrel_gobject.Vm.Division.{IsDivision, integer_op-IsDivision}
use squirrel_gobject.Vm.Order.{opposite, is_zero, is_less, obj_cmp-IsOrder}
use squirrel_gobject.Vm.Sample.{whole_floats, no_metamethod}

-- -7 by 2
integer_op-IsDivision_example :
    let a = 2 ^ 64 - 7 in
    (integer_op over a 2 ≡ ok (quotient a 2))
    × (integer_op modulo a 2 ≡ ok (remainder a 2))
    × IsDivision a 2 (quotient a 2) (remainder a 2)
integer_op-IsDivision_example =
    integer_op-IsDivision (2 ^ 64 - 7) 2 (omega arith) (omega arith) (λ e. ground arith)
      (λ e. ground arith) (λ e. ground arith)

-- -7 / 2 is -3.
minus_seven_by_two : quotient (2 ^ 64 - 7) 2 ≡ 2 ^ 64 - 3
unfolding quotient
minus_seven_by_two = refl

-- _OP_DIV divides the least integer by -1 without a test.
unchecked : fast_over integer_min minus_one ≡ err undefined_behaviour
unfolding fast_over divide
unchecked = refl

-- ARITH_OP refuses a division that has a result.
refused : integer_op over int_min minus_one ≡ err integer_overflow
unfolding integer_op
refused = refl

abbrev ab : List ℕ
ab = 97 ∷ 98 ∷ []

abbrev b : List ℕ
b = 98 ∷ []

obj_cmp-IsOrder_example :
    let cmp = obj_cmp whole_floats no_metamethod in
    (cmp (string ab) null ≡ (cmp null (string ab) >>= (λ r. ok (opposite r))))
    × (is_zero (cmp null (string ab)) ≡ is_equal whole_floats null (string ab))
    × ((not (is_less (cmp null (string ab)) && is_less (cmp (string ab) (string b)))
          || is_less (cmp null (string b)))
        ≡ true)
obj_cmp-IsOrder_example =
    obj_cmp-IsOrder whole_floats no_metamethod null (string ab) (string b) refl refl refl tt tt

-- Strings that differ behind a zero byte are not equal, and yet neither is less.
zero_byte :
    (obj_cmp whole_floats no_metamethod (string (97 ∷ 0 ∷ 98 ∷ [])) (string (97 ∷ 0 ∷ []))
      ≡ ok (pos 0))
    × (is_equal whole_floats (string (97 ∷ 0 ∷ 98 ∷ [])) (string (97 ∷ 0 ∷ [])) ≡ false)
unfolding obj_cmp is_equal strcmp
zero_byte = (refl, refl)
