-- ===== src/Closure/Stack.antt =====
-- The stack functions that cut, fill up or close a gap: `SQVM::Remove` and `SQVM::Pop`
-- (Squirrel3/squirrel/sqvm.cpp), `sq_settop` and `sq_remove` (sqapi.cpp).
use squirrel_gobject.Prelude.{
  ℕ, zero, suc, ◌+◌, ◌-◌, ◌≤◌, ◌<◌, ◌≡◌, refl, ap, sym, ◌∙◌, ◌&&◌, ltb, leb, if◌then◌else◌,
  Bool-cases, inl, inr, ltb→lt, ltb→le, List, [], ◌∷◌, ◌++◌, length, take, replicate, get_or, set,
  arith, length-set, get_or-set, length-take, length-append,
}
use squirrel_gobject.Prelude.Int.{ℤ, pos, negsuc}
use squirrel_gobject.Prelude.Segments.{
  take-set_last, take-set_beyond, take-take, take-set_beyond, get_or-take, take_short,
  get_or-append_left, get_or-append_right, get_or-drop, list_ext, remove_at, length-remove_at,
}
use squirrel_gobject.Closure.{Object, null, Vm, contents, push, pop}
use native.Mathlib.Numerals.{add-one}
use mathlib.Core.List.{append-nil, append_assoc}

-- `SQVM::Pop(n)`
unfoldable pub pop_n : ℕ → Vm → Vm
unfolding pop
pop_n zero v = v
pop_n (suc n) v = pop_n n (pop v)

unfoldable pub push_nulls : ℕ → Vm → Vm
unfolding push
push_nulls zero v = v
push_nulls (suc n) v = push_nulls n (push null v)

unfoldable pub settop : ℕ → Vm → Vm
unfolding pop_n push_nulls
settop newtop v =
    let top = v.top - v.stackbase in
    if ltb newtop top then pop_n (top - newtop) v else push_nulls (newtop - top) v

-- `for(SQInteger i = n; i < _top; i++) _stack[i] = _stack[i+1];`, with the rounds left
unfoldable pub close_gap : ℕ → ℕ → List Object → List Object
close_gap zero i stack = stack
close_gap (suc r) i stack = close_gap r (i + 1) (set stack i (get_or stack (i + 1) null))

-- the index that `Remove` makes of its argument
unfoldable pub position_of : ℤ → Vm → ℕ
position_of (pos i) v = i + v.stackbase - 1
position_of (negsuc k) v = v.top - suc k

unfoldable pub remove : ℤ → Vm → Vm
unfolding close_gap position_of
remove idx v =
    let n = position_of idx v in
    record v { stack = set (close_gap (v.top - n) n v.stack) v.top null; top = v.top - 1 }

contents-pop_n : (n : ℕ) (v : Vm) → contents (pop_n n v) ≡ take (v.top - n) v.stack
unfolding pop_n pop
contents-pop_n zero v = let e : v.top - 0 ≡ v.top = omega arith in ap (λ m. take m v.stack) (sym e)
contents-pop_n (suc n) v =
    let e : v.top - 1 - n ≡ v.top - suc n = omega arith in
    contents-pop_n n (pop v)
    ∙ take-set_beyond (v.top - 1 - n) (v.top - 1) v.stack null (omega arith)
    ∙ ap (λ m. take m v.stack) e

contents-push_nulls :
    (n : ℕ) (v : Vm)
    → v.top + n ≤ length v.stack
    → contents (push_nulls n v) ≡ contents v ++ replicate n null
unfolding push_nulls push
contents-push_nulls zero v l = sym (append-nil (contents v))
contents-push_nulls (suc n) v l =
    contents-push_nulls n (push null v) (omega (arith, length-set v.stack v.top null))
    ∙ ap (λ s. s ++ replicate n null) (rw add-one (take-set_last v.top v.stack null (omega arith)))
    ∙ append_assoc (contents v) (null ∷ []) (replicate n null)

-- `sq_settop`, in a frame that begins at or below the top and has room for the new top: the frame
-- keeps its first objects, up to the new top, and is filled up with nulls to it.
pub settop_lem :
    (newtop : ℕ) (v : Vm)
    → v.stackbase ≤ v.top
    → v.stackbase + newtop ≤ length v.stack
    → contents (settop newtop v)
      ≡ take (v.stackbase + newtop) (contents v) ++ replicate (v.stackbase + newtop - v.top) null
unfolding settop
settop_lem newtop v h l =
    let top = v.top - v.stackbase in
    elim (Bool-cases (ltb newtop top)) [
      | inl e ↦
          let fewer = ltb→lt newtop top e in
          let none_new : v.stackbase + newtop - v.top ≡ 0 = omega arith in
          let left : v.top - (top - newtop) ≡ v.stackbase + newtop = omega arith in
          rw (e, none_new, append-nil)
            (contents-pop_n (top - newtop) v
              ∙ ap (λ m. take m v.stack) left
              ∙ sym (take-take (v.stackbase + newtop) v.top v.stack (omega arith)))
      | inr e ↦
          let more = ltb→le newtop top e in
          let rest : newtop - top ≡ v.stackbase + newtop - v.top = omega arith in
          rw e (
            contents-push_nulls (newtop - top) v (omega arith)
            ∙ ap (λ m. contents v ++ replicate m null) rest
            ∙ ap (λ s. s ++ replicate (v.stackbase + newtop - v.top) null)
                (sym (
                  take_short (v.stackbase + newtop) (contents v)
                    (omega (arith, length-take v.top v.stack)))))
    ]

length-close_gap : (r i : ℕ) (s : List Object) → length (close_gap r i s) ≡ length s
unfolding close_gap
length-close_gap zero i s = refl
length-close_gap (suc r) i s = length-close_gap r (i + 1) (set s i _) ∙ length-set s i _

get_or-close_gap :
    (r i j : ℕ) (s : List Object)
    → i + r < length s
    → get_or (close_gap r i s) j null
      ≡ (if leb i j && ltb j (i + r) then get_or s (j + 1) null else get_or s j null)
unfolding close_gap
get_or-close_gap zero i j s l = ground arith
get_or-close_gap (suc r) i j s l =
    let x = get_or s (i + 1) null in
    ground (
      arith,
      get_or-close_gap r (i + 1) j (set s i x),
      length-set s i x,
      get_or-set s i j x null,
      get_or-set s i (j + 1) x null,
    )

get_or-remove_at :
    (i j : ℕ) (xs : List Object)
    → i ≤ length xs
    → get_or (remove_at i xs) j null
      ≡ (if ltb j i then get_or xs j null else get_or xs (j + 1) null)
get_or-remove_at i j xs h =
    let front : length (take i xs) ≡ i = omega (arith, length-take i xs) in
    elim (Bool-cases (ltb j i)) [
      | inl e ↦
          let l = ltb→lt j i e in
          rw e (get_or-append_left (take i xs) _ j null (omega arith) ∙ get_or-take i j xs null l)
      | inr e ↦
          let l = ltb→le j i e in
          rw e (
            get_or-append_right (take i xs) _ j (j - i) null (omega arith)
            ∙ get_or-drop (suc i) (j - i) (j + 1) xs null (omega arith))
    ]

-- An argument of `Remove` names the object that has `before` below it and `after` above it on the
-- stack: the first object of the frame is the first one on its base, and the top one is -1.
abbrev pub Names : ℤ → Vm → List Object → List Object → Type 0
Names (pos i) v before after = v.stackbase + i ≡ suc (length before)
Names (negsuc k) v before after = k ≡ length after

remove_at-middle :
    (before after : List Object) (x : Object)
    → remove_at (length before) (before ++ x ∷ after) ≡ before ++ after
remove_at-middle [] after x = refl
remove_at-middle (y ∷ before) after x = ap (λ l. y ∷ l) (remove_at-middle before after x)

position_lem :
    (idx : ℤ) (v : Vm) (before after : List Object)
    → v.top ≡ length before + suc (length after)
    → Names idx v before after
    → position_of idx v ≡ length before
unfolding position_of
position_lem (pos i) v before after t h = omega arith
position_lem (negsuc k) v before after t h = omega arith

contents-close :
    (idx : ℤ) (v : Vm)
    → position_of idx v < v.top
    → v.top < length v.stack
    → contents (remove idx v) ≡ remove_at (position_of idx v) (contents v)
unfolding remove
contents-close idx v inside l =
    let n = position_of idx v in
    let closed = close_gap (v.top - n) n v.stack in
    let long = length-close_gap (v.top - n) n v.stack in
    let tall : length (contents v) ≡ v.top = omega (arith, length-take v.top v.stack) in
    take-set_beyond (v.top - 1) v.top closed null (omega arith)
    ∙ list_ext _ _ null
        (omega (
          arith,
          length-take (v.top - 1) closed,
          long,
          length-remove_at n (contents v) (omega arith),
        ))
        (λ j lt.
          let below : j < v.top - 1 = omega (arith, length-take (v.top - 1) closed) in
          ground (
            arith,
            get_or-take (v.top - 1) j closed null below,
            get_or-close_gap (v.top - n) n j v.stack (omega arith),
            get_or-remove_at n j (contents v) (omega arith),
            get_or-take v.top j v.stack null (omega arith),
            get_or-take v.top (j + 1) v.stack null (omega arith),
          ))

-- `Remove` of an object on the stack, named by its place in the frame, from 1 on, or by its place
-- from the top, -1 for the top one, where the vector of the stack has a cell above the top: that
-- object is taken out, what is below it stays, and those above it come down by one.
pub contents-remove :
    (idx : ℤ) (v : Vm) (before after : List Object) (x : Object)
    → contents v ≡ before ++ x ∷ after
    → Names idx v before after
    → v.top < length v.stack
    → contents (remove idx v) ≡ before ++ after
contents-remove idx v before after x e h l =
    let tall : v.top ≡ length before + suc (length after) =
      omega (arith, length-take v.top v.stack, ap length e, length-append before (x ∷ after)) in
    let here = position_lem idx v before after tall h in
    contents-close idx v (omega arith) l ∙ rw (here, e) (remove_at-middle before after x)
