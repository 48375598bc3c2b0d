-- ===== src/Limits/Headers.antt =====
-- The headers of a request as backend/src/app/core/limits.py reads them: names in any case, the last
-- header of a name, and a word in any case inside a value.
use normeon_german_technical.Prelude.{
  Bool-cases, inr, inl, ite, ◌≢◌, ◌⊎◌, ◌+◌, arith, ℕ, Text, Bool, true, false, ◌&&◌, ◌||◌, ◌==◌,
  Option, none, some, List, [], ◌∷◌, ◌++◌, ◌≡◌, refl, leb, if◌then◌else◌, nat_eq, list_eq, ap, sym,
  ◌∙◌, subst,
}
use normeon_german_technical.Limits.{not, lower, header_dict}
use normeon_german_technical.Prelude.Dict.{Dict, lookup, insert, lookup-insert}
use normeon_german_technical.Prompts.{occurs}
use normeon_german_technical.Citations.{starts_with}

-- The character is `n`, or the capital of the letter `n`.
abbrev pub is_letter : ℕ → ℕ → Bool
is_letter n c = (c == n) || (leb 97 n && (leb n 122 && (c + 32 == n)))

-- The text is `name`, capitals and small letters alike.
abbrev pub is_named : Text → Text → Bool
is_named [] [] = true
is_named [] (c ∷ text) = false
is_named (n ∷ name) [] = false
is_named (n ∷ name) (c ∷ text) = is_letter n c && is_named name text

-- The value of the last header of a name.
abbrev pub last_header : Text → List (Text × Text) → Option Text
last_header name [] = none
last_header name ((k, v) ∷ raw) = elim (last_header name raw) [
  | some w ↦ some w
  | none ↦ if is_named name k then some v else none
]

-- No capital letter.
abbrev pub is_small : Text → Bool
is_small [] = true
is_small (n ∷ name) = not (leb 65 n && leb n 90) && is_small name

-- A word stands somewhere in a text, in capitals or small letters.
abbrev pub Holds : Text → Text → Type 0
Holds name text =
    (front word behind : Text) × (text ≡ front ++ (word ++ behind)) × (is_named name word ≡ true)

is_letter-lower :
    (n c : ℕ)
    → (leb 65 n && leb n 90) ≡ false
    → (n == (if leb 65 c && leb c 90 then c + 32 else c)) ≡ is_letter n c
is_letter-lower n c h = ground (arith, h)

-- Python's `==` of two texts is equality.
pub text_eq_cases : (a b : Text) → (((a == b) ≡ true) × (a ≡ b)) ⊎ (((a == b) ≡ false) × (a ≢ b))
text_eq_cases a b =
    elim (list_eq.dec a b)
      as (λ d. ((ite d true false ≡ true) × (a ≡ b)) ⊎ ((ite d true false ≡ false) × (a ≢ b))) [
        | yes same ↦ inl (refl, same)
        | no other ↦ inr (refl, other)
      ]

bools_apart : true ≡ false → ⊥
bools_apart e = ground (arith, e)

is_named_sound :
    (name text : Text) → is_small name ≡ true → is_named name text ≡ true → name ≡ lower text
is_named_sound [] [] h e = refl
is_named_sound [] (c ∷ text) h e = ground (arith, e)
is_named_sound (n ∷ name) [] h e = ground (arith, e)
is_named_sound (n ∷ name) (c ∷ text) h e =
    let rest = is_named_sound name text (ground (arith, h)) (ground (arith, e)) in
    ground (arith, h, e, rest)

is_named_complete :
    (name text : Text) → is_small name ≡ true → name ≡ lower text → is_named name text ≡ true
is_named_complete [] [] h e = refl
is_named_complete [] (c ∷ text) h e = ground (arith, e)
is_named_complete (n ∷ name) [] h e = ground (arith, e)
is_named_complete (n ∷ name) (c ∷ text) h e =
    let rest = is_named_complete name text (ground (arith, h)) (ground (arith, e)) in
    ground (arith, h, e, rest)

is_named-lower :
    (name text : Text) → is_small name ≡ true → (name == lower text) ≡ is_named name text
is_named-lower name text h = elim (text_eq_cases name (lower text)) [
  | inl (e, same) ↦ e ∙ sym (is_named_complete name text h same)
  | inr (e, other) ↦ elim (Bool-cases (is_named name text)) [
    | inl f ↦ absurd (other (is_named_sound name text h f))
    | inr f ↦ e ∙ sym f
  ]
]

-- The dictionary of the headers holds the last header of each name.
pub header_dict-last_header :
    (name : Text) (raw : List (Text × Text)) (headers : Dict Text Text)
    → is_small name ≡ true
    → lookup name (header_dict raw headers)
      ≡ elim (last_header name raw) [ none ↦ lookup name headers | some w ↦ some w ]
unfolding header_dict
header_dict-last_header name [] headers h = refl
header_dict-last_header name ((k, v) ∷ raw) headers h = ground (
  arith,
  header_dict-last_header name raw (insert (lower k) v headers) h,
  lookup-insert name (lower k) v headers,
  is_named-lower name k h,
)

pub lookup-last_header :
    (name : Text) (raw : List (Text × Text))
    → is_small name ≡ true
    → lookup name (header_dict raw []) ≡ last_header name raw
lookup-last_header name raw h = ground (arith, header_dict-last_header name raw [] h)

lower-append : (a b : Text) → lower (a ++ b) ≡ lower a ++ lower b
lower-append [] b = refl
lower-append (c ∷ a) b = rw (lower-append a b) refl

starts_with_refl : (a b : Text) → starts_with a (a ++ b) ≡ true
starts_with_refl [] b = ground arith
starts_with_refl (c ∷ a) b = ground (arith, starts_with_refl a b)

starts_with-occurs : (a b : Text) → starts_with a b ≡ true → occurs a b ≡ true
unfolding occurs
starts_with-occurs a [] h = h
starts_with-occurs a (c ∷ b) h = rw h refl

occurs-append : (front a b : Text) → occurs a (front ++ (a ++ b)) ≡ true
unfolding occurs
occurs-append [] a b = starts_with-occurs a (a ++ b) (starts_with_refl a b)
occurs-append (c ∷ front) a b = ground (arith, occurs-append front a b)

-- A word that does not occur in the lowered text stands nowhere in it.
pub occurs-Holds :
    (name text : Text)
    → is_small name ≡ true
    → occurs name (lower text) ≡ false
    → Holds name text
    → ⊥
occurs-Holds name text h missed (front, word, behind, same, named) =
    let e : lower text ≡ lower front ++ (name ++ lower behind) =
      ap lower same
      ∙ lower-append front (word ++ behind)
      ∙ ap (◌++◌ (lower front)) (
          lower-append word behind
          ∙ ap (λ w. w ++ lower behind) (sym (is_named_sound name word h named))) in
    bools_apart (
      sym (
        subst (λ t. occurs name t ≡ true) (sym e) (occurs-append (lower front) name (lower behind)))
      ∙ missed)
