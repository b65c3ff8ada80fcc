-- ===== src/Strings/Strip.antt =====
-- What `strip` takes off a string.
use squirrel_gobject.Prelude.{
  ℕ, zero, suc, ◌-◌, ◌≤◌, ◌<◌, ◌≡◌, refl, ◌∙◌, ◌==◌, ==→eq, ltb, Bool, true, false, not, ◌&&◌,
  Bool-cases, inl, inr, List, [], ◌∷◌, length, take, drop, get_or, arith,
}
use squirrel_gobject.Prelude.Chars.{is_space}
use squirrel_gobject.Strings.{strip_l, strip_r, strip_r_loop, c_string, strip}

abbrev space_at : List ℕ → ℕ → Bool
space_at s k = is_space (get_or s k 0)

strip_l-bound : (s : List ℕ) → strip_l s ≤ length s
unfolding strip_l
strip_l-bound [] = omega arith
strip_l-bound (c ∷ s) = ground (arith, strip_l-bound s)

strip_l-before : (s : List ℕ) (k : ℕ) → k < strip_l s → space_at s k ≡ true
unfolding strip_l
strip_l-before [] k h = absurd (omega arith)
strip_l-before (c ∷ s) zero h = ground arith
strip_l-before (c ∷ s) (suc k) h = ground (arith, strip_l-before s k)

strip_l-at : (s : List ℕ) → space_at s (strip_l s) ≡ false
unfolding strip_l
strip_l-at [] = refl
strip_l-at (c ∷ s) = elim (Bool-cases (not (c == 0) && is_space c)) [
  | inl t ↦ rw t (strip_l-at s)
  | inr t ↦ rw t (ground arith)
]

strip_r_loop-bound : (n : ℕ) (s : List ℕ) → strip_r_loop n s ≤ n
unfolding strip_r_loop
strip_r_loop-bound zero s = omega arith
strip_r_loop-bound (suc n) s = ground (arith, strip_r_loop-bound n s)

strip_r_loop-space :
    (n : ℕ) (s : List ℕ) → space_at s n ≡ true → strip_r_loop (suc n) s ≡ strip_r_loop n s
unfolding strip_r_loop
strip_r_loop-space n s t = rw t refl

strip_r_loop-stop : (n : ℕ) (s : List ℕ) → space_at s n ≡ false → strip_r_loop (suc n) s ≡ suc n
unfolding strip_r_loop
strip_r_loop-stop n s t = rw t refl

strip_r_loop-behind :
    (n : ℕ) (s : List ℕ) (k : ℕ) → strip_r_loop n s ≤ k → k < n → space_at s k ≡ true
strip_r_loop-behind zero s k h l = absurd (omega arith)
strip_r_loop-behind (suc n) s k h l = elim (Bool-cases (space_at s n)) [
  | inl t ↦ elim (Bool-cases (k == n)) [
    | inl q ↦ rw (==→eq k n q) t
    | inr q ↦
        let below : k < n = ground arith in
        strip_r_loop-behind n s k (omega (arith, strip_r_loop-space n s t)) below
  ]
  | inr t ↦ absurd (omega (arith, strip_r_loop-stop n s t))
]

strip_r_loop-last :
    (n : ℕ) (s : List ℕ) → 0 < strip_r_loop n s → space_at s (strip_r_loop n s - 1) ≡ false
strip_r_loop-last zero s h = absurd (none_left h)
  where
    none_left : 0 < strip_r_loop zero s → ⊥
    none_left h = omega (arith, strip_r_loop-bound zero s)
strip_r_loop-last (suc n) s h = elim (Bool-cases (space_at s n)) [
  | inl t ↦ let same = strip_r_loop-space n s t in rw same (strip_r_loop-last n s (omega arith))
  | inr t ↦ let one : suc n - 1 ≡ n = omega arith in rw (strip_r_loop-stop n s t, one) t
]

-- `m` is the part of `s` from `i` to `j`; there are spaces before it and behind it, and none at
-- its ends.
pub record Trimmed (s m : List ℕ) : Type 0 where
  pub i : ℕ
  pub j : ℕ
  pub ordered : i ≤ j
  pub inside : j ≤ length s
  pub part : m ≡ take (j - i) (drop i s)
  pub before : (k : ℕ) → k < i → space_at s k ≡ true
  pub behind : (k : ℕ) → j ≤ k → k < length s → space_at s k ≡ true
  pub ends : i < j → (space_at s i ≡ false) × (space_at s (j - 1) ≡ false)

strip_r-loop : (s : List ℕ) → strip_r s ≡ strip_r_loop (length s) s
unfolding strip_r strip_r_loop
strip_r-loop [] = refl
strip_r-loop (c ∷ s) =
    let nonempty : (length (c ∷ s) == 0) ≡ false = ground arith in rw nonempty refl

drop-length : (s : List ℕ) → drop (length s) s ≡ []
drop-length [] = refl
drop-length (c ∷ s) = drop-length s

strip-part :
    (s : List ℕ)
    → strip_l s ≤ strip_r s
    → strip s ≡ take (strip_r s - strip_l s) (drop (strip_l s) s)
unfolding strip
strip-part s h = let small : ltb (strip_r s) (strip_l s) ≡ false = ground arith in rw small refl

strip-crossed : (s : List ℕ) → strip_r s < strip_l s → strip s ≡ c_string (drop (strip_l s) s)
unfolding strip
strip-crossed s h = let less : ltb (strip_r s) (strip_l s) ≡ true = ground arith in rw less refl

take-nothing : (n : ℕ) → take {A = ℕ} n [] ≡ []
take-nothing zero = refl
take-nothing (suc n) = refl

c_string-nothing : c_string [] ≡ []
unfolding c_string
c_string-nothing = refl

all_dropped :
    (n k : ℕ) (s : List ℕ) → n ≡ length s → c_string (drop n s) ≡ take k (drop (length s) s)
all_dropped n k s e = rw (e, drop-length s, take-nothing k) c_string-nothing

-- Where the end lies before the start, all bytes are spaces.
crossed : (s : List ℕ) → strip_r s < strip_l s → strip_l s ≡ length s
crossed s h = elim (Bool-cases (ltb (strip_l s) (length s))) [
  | inl t ↦
      let early : strip_l s < length s = ground arith in
      let space =
        strip_r_loop-behind (length s) s (strip_l s) (omega (arith, strip_r-loop s)) early in
      absurd (cc (space, strip_l-at s))
  | inr t ↦ ground (arith, strip_l-bound s)
]

-- For every string, `strip` gives the part of it between the spaces at its start and the spaces at
-- its end: only spaces lie outside, and the part is empty or begins and ends with another byte.
pub strip-Trimmed : (s : List ℕ) → Trimmed s (strip s)
strip-Trimmed s = elim (Bool-cases (ltb (strip_r s) (strip_l s))) [
  | inl t ↦
      let less : strip_r s < strip_l s = ground arith in
      let all = crossed s less in
      record {
        i = length s;
        j = length s;
        ordered = omega arith;
        inside = omega arith;
        part = strip-crossed s less ∙ all_dropped (strip_l s) (length s - length s) s all;
        before = λ k l. strip_l-before s k (omega arith);
        behind = λ k l u. absurd (omega arith);
        ends = λ l. absurd (omega arith);
      }
  | inr t ↦
      let ordered : strip_l s ≤ strip_r s = ground arith in
      let end = strip_r-loop s in
      let bound = strip_r_loop-bound (length s) s in
      record {
        i = strip_l s;
        j = strip_r s;
        ordered = ordered;
        inside = omega arith;
        part = strip-part s ordered;
        before = strip_l-before s;
        behind = λ k l u. strip_r_loop-behind (length s) s k (omega arith) u;
        ends = λ l. (strip_l-at s, rw end (strip_r_loop-last (length s) s (omega arith)));
      }
]
