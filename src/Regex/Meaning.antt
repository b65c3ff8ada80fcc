-- ===== src/Regex/Meaning.antt =====
-- What the links of a class of characters mean, apart from the code that tests them: the classes
-- of the C library in its default locale as ranges of codes.
use squirrel_gobject.Prelude.{
  ℕ, ◌+◌, ◌%◌, ◌≡◌, refl, ◌==◌, leb, ltb, if◌then◌else◌, Bool, false, not, ◌&&◌, ◌||◌, ==→eq,
  Bool-cases, inl, inr, List, [], ◌∷◌, arith,
}
use squirrel_gobject.Regex.Node
use squirrel_gobject.Regex.Node.{NodeType, char}
use squirrel_gobject.Regex.Match.{operand, matchcclass, type_matches, node_matches}

-- The code lies in one of the ranges.
abbrev pub in_ranges : List (ℕ × ℕ) → ℕ → Bool
in_ranges [] c = false
in_ranges ((low, high) ∷ rs) c = (leb low c && leb c high) || in_ranges rs c

abbrev pub letters : List (ℕ × ℕ)
letters = (65, 90) ∷ (97, 122) ∷ []

abbrev pub word_characters : List (ℕ × ℕ)
word_characters = (48, 57) ∷ (65, 90) ∷ (95, 95) ∷ (97, 122) ∷ []

abbrev pub spaces : List (ℕ × ℕ)
spaces = (9, 13) ∷ (32, 32) ∷ []

abbrev pub digits : List (ℕ × ℕ)
digits = (48, 57) ∷ []

abbrev pub hex_digits : List (ℕ × ℕ)
hex_digits = (48, 57) ∷ (65, 70) ∷ (97, 102) ∷ []

abbrev pub controls : List (ℕ × ℕ)
controls = (0, 31) ∷ (127, 127) ∷ []

abbrev pub punctuation : List (ℕ × ℕ)
punctuation = (33, 47) ∷ (58, 64) ∷ (91, 96) ∷ (123, 126) ∷ []

-- Whether a character is in the class of a letter: in its ranges, or in none of them. What is no
-- class has no characters.
abbrev pub in_class : ℕ → ℕ → Bool
in_class k c =
    if k == b'a'
    then in_ranges letters c
    else if k == b'A'
    then not (in_ranges letters c)
    else if k == b'w'
    then in_ranges word_characters c
    else if k == b'W'
    then not (in_ranges word_characters c)
    else if k == b's'
    then in_ranges spaces c
    else if k == b'S'
    then not (in_ranges spaces c)
    else if k == b'd'
    then in_ranges digits c
    else if k == b'D'
    then not (in_ranges digits c)
    else if k == b'x'
    then in_ranges hex_digits c
    else if k == b'X'
    then not (in_ranges hex_digits c)
    else if k == b'c'
    then in_ranges controls c
    else if k == b'C'
    then not (in_ranges controls c)
    else if k == b'p'
    then in_ranges punctuation c
    else if k == b'P'
    then not (in_ranges punctuation c)
    else if k == b'l'
    then in_ranges ((97, 122) ∷ []) c
    else if k == b'u'
    then in_ranges ((65, 90) ∷ []) c
    else false

-- A character is a signed byte.
abbrev pub signed_code : ℕ → ℕ
signed_code c = (c + 128) % 256

-- The characters that a link stands for: those from one bound to the other, both included, those
-- of its class, or one. A bound that was never set is the character 0.
abbrev pub means : NodeType → ℕ → ℕ → ℕ → Bool
means Node.op_range low high c =
    leb (signed_code low) (signed_code c) && leb (signed_code c) (signed_code high)
means Node.op_cclass k right c = in_class k c
means (char d) left right c = c == d
means other left right c = false

class_of_a : (c : ℕ) → matchcclass b'a' c ≡ in_class b'a' c
unfolding matchcclass
class_of_a c = ground arith

class_upper_a : (c : ℕ) → matchcclass b'A' c ≡ in_class b'A' c
unfolding matchcclass
class_upper_a c = ground arith

class_of_w : (c : ℕ) → matchcclass b'w' c ≡ in_class b'w' c
unfolding matchcclass
class_of_w c = ground arith

class_upper_w : (c : ℕ) → matchcclass b'W' c ≡ in_class b'W' c
unfolding matchcclass
class_upper_w c = ground arith

class_of_s : (c : ℕ) → matchcclass b's' c ≡ in_class b's' c
unfolding matchcclass
class_of_s c = ground arith

class_upper_s : (c : ℕ) → matchcclass b'S' c ≡ in_class b'S' c
unfolding matchcclass
class_upper_s c = ground arith

class_of_d : (c : ℕ) → matchcclass b'd' c ≡ in_class b'd' c
unfolding matchcclass
class_of_d c = ground arith

class_upper_d : (c : ℕ) → matchcclass b'D' c ≡ in_class b'D' c
unfolding matchcclass
class_upper_d c = ground arith

class_of_x : (c : ℕ) → matchcclass b'x' c ≡ in_class b'x' c
unfolding matchcclass
class_of_x c = ground arith

class_upper_x : (c : ℕ) → matchcclass b'X' c ≡ in_class b'X' c
unfolding matchcclass
class_upper_x c = ground arith

class_of_c : (c : ℕ) → matchcclass b'c' c ≡ in_class b'c' c
unfolding matchcclass
class_of_c c = ground arith

class_upper_c : (c : ℕ) → matchcclass b'C' c ≡ in_class b'C' c
unfolding matchcclass
class_upper_c c = ground arith

class_of_p : (c : ℕ) → matchcclass b'p' c ≡ in_class b'p' c
unfolding matchcclass
class_of_p c = ground arith

class_upper_p : (c : ℕ) → matchcclass b'P' c ≡ in_class b'P' c
unfolding matchcclass
class_upper_p c = ground arith

class_of_l : (c : ℕ) → matchcclass b'l' c ≡ in_class b'l' c
unfolding matchcclass
class_of_l c = ground arith

class_of_u : (c : ℕ) → matchcclass b'u' c ≡ in_class b'u' c
unfolding matchcclass
class_of_u c = ground arith

pub matchcclass_lem : (k c : ℕ) → matchcclass k c ≡ in_class k c
unfolding matchcclass
matchcclass_lem k c = elim (Bool-cases (k == b'a')) [
  | inl e ↦ rw (==→eq k b'a' e) (class_of_a c)
  | inr e ↦ rw e (elim (Bool-cases (k == b'A')) [
    | inl e ↦ rw (==→eq k b'A' e) (class_upper_a c)
    | inr e ↦ rw e (elim (Bool-cases (k == b'w')) [
      | inl e ↦ rw (==→eq k b'w' e) (class_of_w c)
      | inr e ↦ rw e (elim (Bool-cases (k == b'W')) [
        | inl e ↦ rw (==→eq k b'W' e) (class_upper_w c)
        | inr e ↦ rw e (elim (Bool-cases (k == b's')) [
          | inl e ↦ rw (==→eq k b's' e) (class_of_s c)
          | inr e ↦ rw e (elim (Bool-cases (k == b'S')) [
            | inl e ↦ rw (==→eq k b'S' e) (class_upper_s c)
            | inr e ↦ rw e (elim (Bool-cases (k == b'd')) [
              | inl e ↦ rw (==→eq k b'd' e) (class_of_d c)
              | inr e ↦ rw e (elim (Bool-cases (k == b'D')) [
                | inl e ↦ rw (==→eq k b'D' e) (class_upper_d c)
                | inr e ↦ rw e (elim (Bool-cases (k == b'x')) [
                  | inl e ↦ rw (==→eq k b'x' e) (class_of_x c)
                  | inr e ↦ rw e (elim (Bool-cases (k == b'X')) [
                    | inl e ↦ rw (==→eq k b'X' e) (class_upper_x c)
                    | inr e ↦ rw e (elim (Bool-cases (k == b'c')) [
                      | inl e ↦ rw (==→eq k b'c' e) (class_of_c c)
                      | inr e ↦ rw e (elim (Bool-cases (k == b'C')) [
                        | inl e ↦ rw (==→eq k b'C' e) (class_upper_c c)
                        | inr e ↦ rw e (elim (Bool-cases (k == b'p')) [
                          | inl e ↦ rw (==→eq k b'p' e) (class_of_p c)
                          | inr e ↦ rw e (elim (Bool-cases (k == b'P')) [
                            | inl e ↦ rw (==→eq k b'P' e) (class_upper_p c)
                            | inr e ↦ rw e (elim (Bool-cases (k == b'l')) [
                              | inl e ↦ rw (==→eq k b'l' e) (class_of_l c)
                              | inr e ↦ rw e (elim (Bool-cases (k == b'u')) [
                                | inl e ↦ rw (==→eq k b'u' e) (class_of_u c)
                                | inr e ↦ rw e (refl)
                              ])
                            ])
                          ])
                        ])
                      ])
                    ])
                  ])
                ])
              ])
            ])
          ])
        ])
      ])
    ])
  ])
]

range_lem :
    (low high c : ℕ)
    → (not (ltb (signed_code c) (signed_code low)) && not (ltb (signed_code high) (signed_code c)))
      ≡ (leb (signed_code low) (signed_code c) && leb (signed_code c) (signed_code high))
range_lem low high c = ground arith

-- What the node of a link stands for.
abbrev pub stands_for : Node.Node → ℕ → Bool
stands_for node c = means node.type (operand node.left) (operand node.right) c

type_lem :
    (t : NodeType) (node : Node.Node) (c : ℕ)
    → type_matches t node.left node.right c ≡ means t (operand node.left) (operand node.right) c
type_lem Node.op_range node c = range_lem (operand node.left) (operand node.right) c
type_lem Node.op_cclass node c = matchcclass_lem (operand node.left) c
type_lem (char d) node c = refl
type_lem _ node c = refl

pub node_matches_lem : (node : Node.Node) (c : ℕ) → node_matches node c ≡ stands_for node c
node_matches_lem node c = type_lem node.type node c
