-- ===== src/Regex/Matching.antt =====
-- What a class of characters matches.
use mathlib.Core.Path.{subst, fun_ext}
use squirrel_gobject.Prelude.{
  ℕ, zero, suc, ◌+◌, ◌≤◌, ◌<◌, ◌≡◌, ◌⊎◌, inl, inr, refl, sym, Bool, true, false, Bool-cases, Option,
  none, some, arith,
}
use squirrel_gobject.Regex.Node
use squirrel_gobject.Regex.Meaning.{stands_for, node_matches_lem}
use squirrel_gobject.Regex.Node.{Result, ok, err, out_of_fuel, Rex, nsize, node_at}
use squirrel_gobject.Regex.Grows.{Follows}
use squirrel_gobject.Regex.Built.{Compiled}
use squirrel_gobject.Regex.Match.{node_matches, matchclass}

-- `k` is a link of the chain that begins with `i`.
pub data Chain (e : Rex) : ℕ → ℕ → Type 0 where
  here : {i : ℕ} → Chain e i i
  there : {i j k : ℕ} → (node_at e i).next ≡ some j → Chain e j k → Chain e i k

Chain-cases :
    (e : Rex) {i k : ℕ}
    → Chain e i k
    → (i ≡ k) ⊎ ((j : ℕ) × ((node_at e i).next ≡ some j) × Chain e j k)
Chain-cases e here = inl refl
Chain-cases e (there {j = j} q r) = inr (j, q, r)

-- Whether a link of the chain has the character, by a test `has` of a node.
abbrev pub DecidedBy : (Node.Node → ℕ → Bool) → Rex → ℕ → ℕ → Result Bool → Type 0
DecidedBy has e i c (ok true) = (k : ℕ) × Chain e i k × (has (node_at e k) c ≡ true)
DecidedBy has e i c (ok false) = (k : ℕ) → Chain e i k → has (node_at e k) c ≡ false
DecidedBy has e i c (err x) = ⊥
DecidedBy has e i c out_of_fuel = ⊥

-- Whether a link of the chain stands for the character.
abbrev pub Decided : Rex → ℕ → ℕ → Result Bool → Type 0
Decided = DecidedBy stands_for

matchclass-here :
    (f : ℕ) (e : Rex) (i c : ℕ)
    → node_matches (node_at e i) c ≡ true
    → matchclass (suc f) e i c ≡ ok true
unfolding matchclass
matchclass-here f e i c h = rw h refl

matchclass-next :
    (f : ℕ) (e : Rex) (i j c : ℕ)
    → node_matches (node_at e i) c ≡ false
    → (node_at e i).next ≡ some j
    → matchclass (suc f) e i c ≡ matchclass f e j c
unfolding matchclass
matchclass-next f e i j c h n = rw (h, n) refl

matchclass-end :
    (f : ℕ) (e : Rex) (i c : ℕ)
    → node_matches (node_at e i) c ≡ false
    → (node_at e i).next ≡ none
    → matchclass (suc f) e i c ≡ ok false
unfolding matchclass
matchclass-end f e i c h n = rw (h, n) refl

decide_next :
    (f : ℕ) (e : Rex) (i c : ℕ)
    → node_matches (node_at e i) c ≡ false
    → (next : Option ℕ) → (node_at e i).next ≡ next
    → Follows i (nsize e) next
    → ((j : ℕ) → i < j → j < nsize e → DecidedBy node_matches e j c (matchclass f e j c))
    → DecidedBy node_matches e i c (matchclass (suc f) e i c)
decide_next f e i c h none n w later =
    subst (DecidedBy node_matches e i c) (sym (matchclass-end f e i c h n)) (λ k r. alone k r)
  where
    alone : (k : ℕ) → Chain e i k → node_matches (node_at e k) c ≡ false
    alone k r = elim (Chain-cases e r) [
      | inl q ↦ rw (sym q) h
      | inr (j, q, r') ↦ absurd (cc (n, q))
    ]
decide_next f e i c h (some j) n (a, b) later =
    subst (DecidedBy node_matches e i c) (sym (matchclass-next f e i j c h n))
      (extend (matchclass f e j c) (later j a b))
  where
    extend : (r : Result Bool) → DecidedBy node_matches e j c r → DecidedBy node_matches e i c r
    extend (ok true) (k, r, m) = (k, there n r, m)
    extend (ok false) all = λ k r. elim (Chain-cases e r) [
      | inl q ↦ rw (sym q) h
      | inr (j', q, r') ↦ let same : j' ≡ j = cc (n, q) in all k (subst (λ x. Chain e x k) same r')
    ]
    extend (err x) d = d
    extend out_of_fuel d = d

matchclass-Decided :
    (f : ℕ) (e : Rex) (i c : ℕ)
    → Compiled e
    → i < nsize e
    → nsize e ≤ f + i
    → DecidedBy node_matches e i c (matchclass f e i c)
matchclass-Decided zero e i c w l u = absurd (omega arith)
matchclass-Decided (suc f) e i c w l u = elim (Bool-cases (node_matches (node_at e i) c)) [
  | inl t ↦ subst (DecidedBy node_matches e i c) (sym (matchclass-here f e i c t)) (i, here, t)
  | inr t ↦
      decide_next f e i c t (node_at e i).next refl (w.complete i l).1
        (λ j a b. matchclass-Decided f e j c w b (omega arith))
]

-- In a compiled expression, from any node on, `matchclass` ends within as many rounds as there are
-- nodes. It answers true exactly where a link of the chain that begins there stands for the
-- character: a range for those from its first to its last one as signed bytes, both included, a
-- class for those that the C library's tables give to its letter or, for most capital letters, do
-- not give to the small one, and a character for itself.
pub matchclass_lem :
    (e : Rex) (i c : ℕ) → Compiled e → i < nsize e → Decided e i c (matchclass (nsize e) e i c)
matchclass_lem e i c w l =
    subst (λ has. DecidedBy has e i c (matchclass (nsize e) e i c))
      (fun_ext (λ node. fun_ext (λ d. node_matches_lem node d)))
      (matchclass-Decided (nsize e) e i c w l (omega arith))
