-- ===== src/Vm/Order.antt =====
-- The order of values.
use squirrel_gobject.Prelude.{
  Option, none, ℕ, zero, suc, ◌^◌, ◌<◌, ◌≡◌, refl, sym, ap, inl, inr, ltb, ◌==◌, if◌then◌else◌,
  Bool, true, false, not, ◌&&◌, ◌||◌, Bool-cases, arith, ltb→lt, List, [], ◌∷◌,
}
use squirrel_gobject.Prelude.Chars.{same_text}
use squirrel_gobject.Prelude.Int.{ℤ, pos, negsuc}
use squirrel_gobject.Prelude.Outcome.{ok, err, ◌>>=◌}
use squirrel_gobject.Vm.Value.{
  Value, bool, integer, float, string, object, Kind, Checked, Floats, integer_less, kind_number,
  compare_types,
}
use squirrel_gobject.Vm.Compare.{ordered, strcmp, has_delegate, obj_cmp, is_equal}

-- the answer with the operands exchanged
abbrev pub opposite : ℤ → ℤ
opposite (pos zero) = pos 0
opposite (pos (suc n)) = negsuc 0
opposite (negsuc n) = pos 1

-- a comparison of two orders
abbrev Swapped : Checked ℤ → Checked ℤ → Type 0
Swapped x y = y ≡ (x >>= (λ r. ok (opposite r)))

abbrev zero_free : List ℕ → Bool
zero_free [] = true
zero_free (c ∷ s) = not (c == 0) && zero_free s

-- Neither a float nor a string with a zero byte.
abbrev pub plain : Value → Bool
plain (float a) = false
plain (string s) = zero_free s
plain (integer a) = ltb a (2 ^ 64)
plain _ = true

by_order :
    (a b : ℕ)
    → (if b == a then pos 0 else ordered (ltb b a))
      ≡ opposite (if a == b then pos 0 else ordered (ltb a b))
by_order a b = ground arith

by_signed_order :
    (a b : ℕ)
    → a < 2 ^ 64
    → b < 2 ^ 64
    → (if b == a then pos 0 else ordered (integer_less b a))
      ≡ opposite (if a == b then pos 0 else ordered (integer_less a b))
unfolding integer_less
by_signed_order a b h k = ground arith

strcmp-swap : (s t : List ℕ) → strcmp t s ≡ opposite (strcmp s t)
unfolding strcmp
strcmp-swap [] [] = refl
strcmp-swap [] (c ∷ t) = ground arith
strcmp-swap (c ∷ s) [] = ground arith
strcmp-swap (c ∷ s) (d ∷ t) = ground (arith, strcmp-swap s t)

same_text-swap : (s t : List ℕ) → same_text t s ≡ same_text s t
same_text-swap [] [] = refl
same_text-swap [] (c ∷ t) = refl
same_text-swap (c ∷ s) [] = refl
same_text-swap (c ∷ s) (d ∷ t) = ground (arith, same_text-swap s t)

strcmp-same_text :
    (s t : List ℕ)
    → zero_free s ≡ true
    → zero_free t ≡ true
    → strcmp s t ≡ pos 0
    → same_text s t ≡ true
unfolding strcmp
strcmp-same_text [] [] h k e = refl
strcmp-same_text [] (c ∷ t) h k e = ground arith
strcmp-same_text (c ∷ s) [] h k e = ground arith
strcmp-same_text (c ∷ s) (d ∷ t) h k e = ground (arith, strcmp-same_text s t)

abbrev pub is_less : Checked ℤ → Bool
is_less (ok (negsuc n)) = true
is_less _ = false

-- Not an object whose metamethod _cmp compares: one of a type without delegates, or with no
-- delegate or none that has the metamethod.
abbrev pub Unruled : (Value → Value → Option (Checked ℤ)) → Value → Type 0
Unruled cmp_metamethod (object k a) =
    (v : Value) → has_delegate k ≡ true → cmp_metamethod (object k a) v ≡ none
Unruled cmp_metamethod _ = Unit

-- the order of objects by their types and addresses
abbrev by_address : Kind → Kind → ℕ → ℕ → Checked ℤ
by_address k l a b =
    if kind_number k == kind_number l
    then if a == b then ok (pos 0) else ok (ordered (ltb a b))
    else err compare_types

object_trans :
    (k l n : Kind) (x y z : ℕ)
    → is_less (by_address k l x y) ≡ true
    → is_less (by_address l n y z) ≡ true
    → is_less (by_address k n x z) ≡ true
object_trans k l n x y z p q = ground (arith, p, q)

module _ (fl : Floats) (cmp_metamethod : Value → Value → Option (Checked ℤ)) where
  -- What `ObjCmp` says of two objects without the metamethod.
  object_cmp :
      (k l : Kind) (a b : ℕ)
      → Unruled cmp_metamethod (object k a)
      → obj_cmp fl cmp_metamethod (object k a) (object l b) ≡ by_address k l a b
  unfolding obj_cmp
  object_cmp k l a b u = elim (Bool-cases (has_delegate k)) [
    | inl e ↦ rw (e, u (object k b) e) refl
    | inr e ↦ rw e refl
  ]

  object-swap :
      (k l : Kind) (a b : ℕ)
      → Unruled cmp_metamethod (object k a)
      → Unruled cmp_metamethod (object l b)
      → Swapped
          (obj_cmp fl cmp_metamethod (object k a) (object l b))
          (obj_cmp fl cmp_metamethod (object l b) (object k a))
  object-swap k l a b h g = rw (object_cmp k l a b h, object_cmp l k b a g) (ground arith)

  obj_cmp-swap :
      (a b : Value)
      → plain a ≡ true
      → plain b ≡ true
      → Unruled cmp_metamethod a
      → Unruled cmp_metamethod b
      → Swapped (obj_cmp fl cmp_metamethod a b) (obj_cmp fl cmp_metamethod b a)
  unfolding obj_cmp
  obj_cmp-swap (float x) b h k u w = ground arith
  obj_cmp-swap a (float y) h k u w = ground arith
  obj_cmp-swap (bool x) (bool y) h k u w = ap ok (by_order x y)
  obj_cmp-swap (integer x) (integer y) h k u w =
      ap ok (by_signed_order x y (ltb→lt x (2 ^ 64) h) (ltb→lt y (2 ^ 64) k))
  obj_cmp-swap (string s) (string t) h k u w =
      ap ok (rw (same_text-swap s t, strcmp-swap s t) (ground arith))
  obj_cmp-swap (object j x) (object l y) h k u w = object-swap j l x y u w
  obj_cmp-swap _ _ h k u w = refl

abbrev pub is_zero : Checked ℤ → Bool
is_zero (ok (pos zero)) = true
is_zero _ = false

is_zero_int : (x y : ℕ) → is_zero (ok (if x == y then pos 0 else ordered (ltb x y))) ≡ (x == y)
is_zero_int x y = ground arith

text_zero :
    (s t : List ℕ)
    → zero_free s ≡ true
    → zero_free t ≡ true
    → (r : ℤ) → strcmp s t ≡ r
    → is_zero (ok (if same_text s t then pos 0 else r)) ≡ same_text s t
text_zero s t h k (pos zero) e = rw (strcmp-same_text s t h k e) refl
text_zero s t h k (pos (suc n)) e = ground arith
text_zero s t h k (negsuc n) e = ground arith

strcmp_trans :
    (s t u : List ℕ)
    → is_less (ok (strcmp s t)) ≡ true
    → is_less (ok (strcmp t u)) ≡ true
    → is_less (ok (strcmp s u)) ≡ true
unfolding strcmp
strcmp_trans [] [] u h k = ground arith
strcmp_trans [] (d ∷ t) [] h k = ground arith
strcmp_trans [] (d ∷ t) (e ∷ u) h k = ground arith
strcmp_trans (c ∷ s) [] u h k = ground arith
strcmp_trans (c ∷ s) (d ∷ t) [] h k = ground arith
strcmp_trans (c ∷ s) (d ∷ t) (e ∷ u) h k = ground (arith, strcmp_trans s t u)

same_text-strcmp : (s t : List ℕ) → same_text s t ≡ true → strcmp s t ≡ pos 0
unfolding strcmp
same_text-strcmp [] [] h = refl
same_text-strcmp [] (d ∷ t) h = ground arith
same_text-strcmp (c ∷ s) [] h = ground arith
same_text-strcmp (c ∷ s) (d ∷ t) h = ground (arith, same_text-strcmp s t)

-- `ObjCmp` on strings is strcmp.
text_order : (s t : List ℕ) → (if same_text s t then pos 0 else strcmp s t) ≡ strcmp s t
text_order s t = elim (Bool-cases (same_text s t)) [
  | inl e ↦ rw e (sym (same_text-strcmp s t e))
  | inr e ↦ rw e refl
]

less_trans :
    (x y z : ℕ)
    → is_less (ok (if x == y then pos 0 else ordered (ltb x y))) ≡ true
    → is_less (ok (if y == z then pos 0 else ordered (ltb y z))) ≡ true
    → is_less (ok (if x == z then pos 0 else ordered (ltb x z))) ≡ true
less_trans x y z h k = ground arith

signed_less_trans :
    (x y z : ℕ)
    → x < 2 ^ 64
    → y < 2 ^ 64
    → z < 2 ^ 64
    → is_less (ok (if x == y then pos 0 else ordered (integer_less x y))) ≡ true
    → is_less (ok (if y == z then pos 0 else ordered (integer_less y z))) ≡ true
    → is_less (ok (if x == z then pos 0 else ordered (integer_less x z))) ≡ true
unfolding integer_less
signed_less_trans x y z l m n h k = ground arith

implied : (p q r : Bool) → (p ≡ true → q ≡ true → r ≡ true) → (not (p && q) || r) ≡ true
implied true true r f = f refl refl
implied true false r f = refl
implied false q r f = refl

module _ (fl : Floats) (cmp_metamethod : Value → Value → Option (Checked ℤ)) where
  obj_cmp-is_equal :
      (a b : Value)
      → plain a ≡ true
      → plain b ≡ true
      → Unruled cmp_metamethod a
      → is_zero (obj_cmp fl cmp_metamethod a b) ≡ is_equal fl a b
  unfolding obj_cmp is_equal
  obj_cmp-is_equal (float x) b h k u = ground arith
  obj_cmp-is_equal a (float y) h k u = ground arith
  obj_cmp-is_equal (bool x) (bool y) h k u = is_zero_int x y
  obj_cmp-is_equal (integer x) (integer y) h k u = ground arith
  obj_cmp-is_equal (string s) (string t) h k u = text_zero s t h k (strcmp s t) refl
  obj_cmp-is_equal (object j x) (object l y) h k u =
      rw (object_cmp fl cmp_metamethod j l x y u) (ground arith)
  obj_cmp-is_equal _ _ h k u = refl

  obj_cmp_trans :
      (a b c : Value)
      → plain a ≡ true
      → plain b ≡ true
      → plain c ≡ true
      → Unruled cmp_metamethod a
      → Unruled cmp_metamethod b
      → is_less (obj_cmp fl cmp_metamethod a b) ≡ true
      → is_less (obj_cmp fl cmp_metamethod b c) ≡ true
      → is_less (obj_cmp fl cmp_metamethod a c) ≡ true
  unfolding obj_cmp
  obj_cmp_trans (bool x) (bool y) (bool z) h k l u w p q = less_trans x y z p q
  obj_cmp_trans (integer x) (integer y) (integer z) h k l u w p q =
      signed_less_trans x y z (ltb→lt x (2 ^ 64) h) (ltb→lt y (2 ^ 64) k) (ltb→lt z (2 ^ 64) l) p q
  obj_cmp_trans (string s) (string t) (string u) h k l n m p q =
      rw (text_order s u) (strcmp_trans s t u (rw (text_order s t) at p) (rw (text_order t u) at q))
  obj_cmp_trans (object j x) (object i y) (object n z) h k l u w p q =
      rw (object_cmp fl cmp_metamethod j n x z u) (
        object_trans j i n x y z (rw (object_cmp fl cmp_metamethod j i x y u) at p)
          (rw (object_cmp fl cmp_metamethod i n y z w) at q))
  obj_cmp_trans _ _ _ h k l u w p q = ground arith

  -- For null, booleans, integers, strings without a zero byte and objects without the metamethod
  -- _cmp:
  -- to exchange the operands of ObjCmp turns its answer round and leaves an error as it is, the
  -- answer is 0 exactly where IsEqual says that they are equal, and what is less than a value that
  -- is less than a third is less than the third.
  pub obj_cmp-IsOrder :
      (a b c : Value)
      → plain a ≡ true
      → plain b ≡ true
      → plain c ≡ true
      → Unruled cmp_metamethod a
      → Unruled cmp_metamethod b
      → let cmp = obj_cmp fl cmp_metamethod in
        (cmp b a ≡ (cmp a b >>= (λ r. ok (opposite r))))
        × (is_zero (cmp a b) ≡ is_equal fl a b)
        × ((not (is_less (cmp a b) && is_less (cmp b c)) || is_less (cmp a c)) ≡ true)
  obj_cmp-IsOrder a b c h k l u w = (
    obj_cmp-swap fl cmp_metamethod a b h k u w,
    obj_cmp-is_equal a b h k u,
    implied _ _ _ (obj_cmp_trans a b c h k l u w),
  )
