-- ===== src/Vm/Compare.antt =====
-- Comparison of values: `ObjCmp`, `CMP_OP`, `IsEqual` and `IsFalse`.
use squirrel_gobject.Prelude.{
  Option, none, some, ℕ, zero, suc, ◌-◌, ◌^◌, ltb, ◌==◌, if◌then◌else◌, Bool, true, false, ◌&&◌,
  ◌||◌, not, List, [], ◌∷◌,
}
use squirrel_gobject.Prelude.Chars.{same_text}
use squirrel_gobject.Prelude.Int.{ℤ, pos, negsuc, is_neg}
use squirrel_gobject.Prelude.Outcome.{ok, err, ◌>>=◌}
use squirrel_gobject.Vm.Value.{
  Value, null, bool, integer, float, string, object, Kind, kind_number, table, userdata, instance,
  Checked, Floats, integer_less, compare_types,
}

-- `CmpOP`
pub data CmpOp : Type 0 where
  cmp_g cmp_ge cmp_l cmp_le cmp_3w : CmpOp

-- `x<y?-1:1`
abbrev pub ordered : Bool → ℤ
ordered b = if b then negsuc 0 else pos 1

-- `scstrcmp`, strcmp of the C library, by its sign: bytes up to the first zero
unfoldable pub strcmp : List ℕ → List ℕ → ℤ
strcmp [] [] = pos 0
strcmp [] (c ∷ t) = if c == 0 then pos 0 else negsuc 0
strcmp (c ∷ s) [] = if c == 0 then pos 0 else pos 1
strcmp (c ∷ s) (d ∷ t) =
    let rest = strcmp s t in if c == d then if c == 0 then pos 0 else rest else ordered (ltb c d)

-- a number against a number of the other type
abbrev pub mixed : Floats → ℕ → ℕ → ℤ
mixed fl a b = if fl.equal a b then pos 0 else ordered (fl.less a b)

-- `res = r`, of an SQInteger
abbrev pub integer_value : ℤ → Value
integer_value (pos n) = integer n
integer_value (negsuc n) = integer (2 ^ 64 - 1 - n)

-- the tests of `CMP_OP`, on the sign of the comparison
abbrev pub is_positive : ℤ → Bool
is_positive (pos zero) = false
is_positive (pos (suc n)) = true
is_positive (negsuc n) = false

abbrev pub test_value : Bool → Value
test_value b = bool (if b then 1 else 0)

-- the value of `CMP_OP`
abbrev pub cmp_result : (ℤ → Value) → CmpOp → ℤ → Value
cmp_result to_value cmp_g r = test_value (is_positive r)
cmp_result to_value cmp_ge r = test_value (not (is_neg r))
cmp_result to_value cmp_l r = test_value (is_neg r)
cmp_result to_value cmp_le r = test_value (not (is_positive r))
cmp_result to_value cmp_3w r = to_value r

abbrev pub has_delegate : Kind → Bool
has_delegate table = true
has_delegate userdata = true
has_delegate instance = true
has_delegate _ = false

module _ (fl : Floats) where
  -- `IsEqual`
  unfoldable pub is_equal : Value → Value → Bool
  is_equal null null = true
  is_equal (bool a) (bool b) = a == b
  is_equal (integer a) (integer b) = a == b
  is_equal (float a) (float b) = fl.equal a b
  is_equal (string s) (string t) = same_text s t
  is_equal (object k a) (object l b) = (kind_number k == kind_number l) && (a == b)
  is_equal (integer a) (float b) = fl.equal (fl.of_integer a) b
  is_equal (float a) (integer b) = fl.equal a (fl.of_integer b)
  is_equal _ _ = false

  -- `IsFalse`
  abbrev pub is_false : Value → Bool
  is_false null = true
  is_false (bool a) = a == 0
  is_false (integer a) = a == 0
  is_false (float a) = fl.equal a 0 || (a == 0)
  is_false (string s) = false
  is_false (object k a) = a == 0

-- What the metamethod _cmp says, where there is one.
abbrev pub by_metamethod : Option (Checked ℤ) → Checked ℤ → Checked ℤ
by_metamethod (some r) other = r
by_metamethod none other = other

module _ (fl : Floats) (cmp_metamethod : Value → Value → Option (Checked ℤ)) where
  -- The case of two objects of one type that are not the same: the metamethod decides where there
  -- is one, else the addresses.
  abbrev pub cmp_objects : Kind → ℕ → ℕ → Checked ℤ
  cmp_objects k a b =
      let by_address = ok (ordered (ltb a b)) in
      if has_delegate k
      then by_metamethod (cmp_metamethod (object k a) (object k b)) by_address
      else by_address

  -- `ObjCmp`
  unfoldable pub obj_cmp : Value → Value → Checked ℤ
  obj_cmp null null = ok (pos 0)
  obj_cmp (bool a) (bool b) = ok (if a == b then pos 0 else ordered (ltb a b))
  obj_cmp (integer a) (integer b) = ok (if a == b then pos 0 else ordered (integer_less a b))
  obj_cmp (float a) (float b) = ok (if a == b then pos 0 else ordered (fl.less a b))
  obj_cmp (string s) (string t) = ok (if same_text s t then pos 0 else strcmp s t)
  obj_cmp (object k a) (object l b) =
      if kind_number k == kind_number l
      then if a == b then ok (pos 0) else cmp_objects k a b
      else err compare_types
  obj_cmp (integer a) (float b) = ok (mixed fl (fl.of_integer a) b)
  obj_cmp (float a) (integer b) = ok (mixed fl a (fl.of_integer b))
  obj_cmp null b = ok (negsuc 0)
  obj_cmp a null = ok (pos 1)
  obj_cmp _ _ = err compare_types

  -- `CMP_OP`
  unfoldable pub cmp_op : CmpOp → Value → Value → Checked Value
  cmp_op op a b = do r ← obj_cmp a b; ok (cmp_result integer_value op r)
