-- ===== src/Markers/Laws.antt =====
-- `_FORGED_MARKER.sub` of backend/src/app/domain/context.py and the search for markers in its
-- result.
use normeon_german_technical.Prelude.{
  subst, Bool-cases, sym, ℕ, zero, suc, ◌+◌, ◌≡◌, ◌∙◌, refl, ap, Text, Bool, true, false, none,
  some, [], ◌∷◌, ◌++◌, length, All, ◌==◌, nat_eq, arith, Option-cases, inl, inr,
}
use normeon_german_technical.Prelude.Digits.{is_digit}
use normeon_german_technical.Markers.{
  digits_close, marker_close, match_marker, find_markers, defang_from,
}

bracket_no_digit : is_digit b'[' ≡ false
unfolding is_digit
bracket_no_digit = refl

paren_no_digit : is_digit b'(' ≡ false
unfolding is_digit
paren_no_digit = refl

match_marker-bracket :
    (c : ℕ) (text marker : Text) → match_marker (c ∷ text) ≡ some marker → c ≡ b'['
unfolding match_marker
match_marker-bracket c text marker h = ground arith

digits_close-congr :
    (seen : Bool) (c : ℕ) (a b : Text)
    → digits_close true a ≡ digits_close true b
    → digits_close seen (c ∷ a) ≡ digits_close seen (c ∷ b)
unfolding digits_close
digits_close-congr seen c a b h = rw h

digits_close-open :
    (seen : Bool) (a b : Text) → digits_close seen (b'(' ∷ a) ≡ digits_close seen (b'[' ∷ b)
unfolding digits_close
digits_close-open true a b = refl
digits_close-open false a b = refl

defang-none :
    (c : ℕ) (text : Text)
    → match_marker (c ∷ text) ≡ none
    → defang_from 0 (c ∷ text) ≡ c ∷ defang_from 0 text
unfolding defang_from
defang-none c text h = rw (h, defang_from)

defang-some :
    (c : ℕ) (text marker : Text)
    → match_marker (c ∷ text) ≡ some marker
    → defang_from 0 (c ∷ text) ≡ b'(' ∷ (marker ++ b')' ∷ defang_from (length marker + 1) text)
unfolding defang_from
defang-some c text marker h = rw (h, defang_from)

defang-skip : (skip c : ℕ) (text : Text) → defang_from (suc skip) (c ∷ text) ≡ defang_from skip text
unfolding defang_from
defang-skip skip c text = refl

-- Up to the next `[`, a defanged text is the text.
digits_close-defang :
    (seen : Bool) (text : Text) → digits_close seen (defang_from 0 text) ≡ digits_close seen text
digits_close-defang seen [] = unfold defang_from in refl
digits_close-defang seen (c ∷ text) = elim (Option-cases (match_marker (c ∷ text))) [
  | inl h ↦
      ap (digits_close seen) (defang-none c text h)
      ∙ digits_close-congr seen c _ _ (digits_close-defang true text)
  | inr (m, h) ↦
      ap (digits_close seen) (defang-some c text m h)
      ∙ digits_close-open seen _ text
      ∙ ap (λ d. digits_close seen (d ∷ text)) (sym (match_marker-bracket c text m h))
]

marker_close-congr :
    (c : ℕ) (a b : Text)
    → digits_close false a ≡ digits_close false b
    → marker_close (c ∷ a) ≡ marker_close (c ∷ b)
unfolding marker_close
marker_close-congr c a b h = rw h

marker_close-open : (a b : Text) → marker_close (b'(' ∷ a) ≡ marker_close (b'[' ∷ b)
unfolding marker_close
marker_close-open a b = refl

marker_close-defang : (text : Text) → marker_close (defang_from 0 text) ≡ marker_close text
marker_close-defang [] = unfold defang_from in refl
marker_close-defang (c ∷ text) = elim (Option-cases (match_marker (c ∷ text))) [
  | inl h ↦
      ap marker_close (defang-none c text h)
      ∙ marker_close-congr c _ _ (digits_close-defang false text)
  | inr (m, h) ↦
      ap marker_close (defang-some c text m h)
      ∙ marker_close-open _ text
      ∙ ap (λ d. marker_close (d ∷ text)) (sym (match_marker-bracket c text m h))
]

-- A text with no `[` in it.
abbrev NoBracket : Text → Type 0
NoBracket = All (λ c. (c == b'[') ≡ false)

find_markers-append : (a b : Text) → NoBracket a → find_markers (a ++ b) ≡ find_markers b
unfolding find_markers
find_markers-append [] b _ = refl
find_markers-append (c ∷ a) b (h, hs) = rw h (find_markers-append a b hs)

digit-bracket : (c : ℕ) → is_digit c ≡ true → (c == b'[') ≡ false
digit-bracket c h = ground (arith, bracket_no_digit)

digits_close-NoBracket :
    (seen : Bool) (text marker : Text) → digits_close seen text ≡ some marker → NoBracket marker
unfolding digits_close
digits_close-NoBracket seen [] marker h = absurd (cc)
digits_close-NoBracket seen (c ∷ text) marker h = elim (Bool-cases (is_digit c)) [
  | inl d ↦ elim (Option-cases (digits_close true text)) [
    | inl none_left ↦ absurd (ground arith)
    | inr (digits, e) ↦
        let same : c ∷ digits ≡ marker = ground arith in
        subst NoBracket same (digit-bracket c d, digits_close-NoBracket true text digits e)
  ]
  | inr d ↦ let empty : marker ≡ [] = ground arith in subst NoBracket (sym empty) tt
]

marker_close-NoBracket : (text marker : Text) → marker_close text ≡ some marker → NoBracket marker
unfolding marker_close
marker_close-NoBracket [] marker h = absurd (cc)
marker_close-NoBracket (c ∷ text) marker h = elim (Option-cases (digits_close false text)) [
  | inl none_left ↦ absurd (ground arith)
  | inr (digits, e) ↦
      let same : c ∷ digits ≡ marker = ground arith in
      subst NoBracket same (ground arith, digits_close-NoBracket false text digits e)
]

match_marker-NoBracket :
    (c : ℕ) (text marker : Text) → match_marker (c ∷ text) ≡ some marker → NoBracket marker
unfolding match_marker
match_marker-NoBracket c text marker h = marker_close-NoBracket text marker (ground arith)

match_marker-congr :
    (c : ℕ) (a b : Text)
    → marker_close a ≡ marker_close b
    → match_marker (c ∷ a) ≡ match_marker (c ∷ b)
unfolding match_marker
match_marker-congr c a b h = rw h

find_markers-cons :
    (c : ℕ) (text : Text)
    → match_marker (c ∷ text) ≡ none
    → find_markers text ≡ []
    → find_markers (c ∷ text) ≡ []
unfolding find_markers
find_markers-cons c text h e = rw (h, e, find_markers)

-- No marker stands in a defanged text, whatever the text and however many of its first characters a
-- match still covers.
pub find_markers-defang_from : (skip : ℕ) (text : Text) → find_markers (defang_from skip text) ≡ []
find_markers-defang_from skip [] = unfold defang_from find_markers in refl
find_markers-defang_from zero (c ∷ text) = elim (Option-cases (match_marker (c ∷ text))) [
  | inl h ↦
      ap find_markers (defang-none c text h)
      ∙ find_markers-cons c _ (match_marker-congr c _ _ (marker_close-defang text) ∙ h)
          (find_markers-defang_from zero text)
  | inr (m, h) ↦
      ap find_markers (defang-some c text m h)
      ∙ find_markers-append (b'(' ∷ []) _ (ground arith, tt)
      ∙ find_markers-append m _ (match_marker-NoBracket c text m h)
      ∙ find_markers-append (b')' ∷ []) _ (ground arith, tt)
      ∙ find_markers-defang_from (length m + 1) text
]
find_markers-defang_from (suc skip) (c ∷ text) =
    ap find_markers (defang-skip skip c text) ∙ find_markers-defang_from skip text
