-- ===== src/Limits/Laws.antt =====
-- What `BodySizeLimit` of backend/src/app/core/limits.py lets through.
use normeon_german_technical.Limits.Headers.{last_header, lookup-last_header, Holds, occurs-Holds}
use normeon_german_technical.Limits.Paths.{IsLimit, IsUpload-cases}
use normeon_german_technical.Limits.{
  Verdict, raised, raised, length, admitted, refused, all_digits, is_decimal, header_dict, size,
  check_length, check_body, rstrip_slash, upload_path, body_methods,
}
use normeon_german_technical.Prelude.{
  ◌≢◌, sym, All, ◌⊎◌, inl, inr, ◌∙◌, ◌%◌, ◌/◌, ◌≤◌, arith, ℕ, zero, suc, ◌+◌, Text, txt, true, ◌&&◌,
  ◌==◌, none, some, List, [], ◌∷◌, ◌++◌, ◌≡◌, refl, leb, contains, if◌then◌else◌, nat_eq, list_eq,
}
use normeon_german_technical.Prelude.Dict.{Dict, lookup}
use normeon_german_technical.Prelude.Digits.{show, show_from, value, value-show}

all_digits-append :
    (text : Text) (c : ℕ)
    → all_digits (text ++ c ∷ []) ≡ (all_digits text && (leb 48 c && leb c 57))
all_digits-append [] c = ground arith
all_digits-append (d ∷ text) c = ground (arith, all_digits-append text c)

show_from-all_digits : (fuel n : ℕ) → n ≤ fuel → is_decimal (show_from fuel n) ≡ true
unfolding show_from
show_from-all_digits zero n h = ground arith
show_from-all_digits (suc fuel) n h = ground (
  arith,
  is_decimal-append (show_from fuel (n / 10)) (48 + n % 10),
  show_from-all_digits fuel (n / 10),
)
  where
    is_decimal-append :
        (text : Text) (c : ℕ)
        → is_decimal (text ++ c ∷ []) ≡ (all_digits text && (leb 48 c && leb c 57))
    is_decimal-append [] c = ground arith
    is_decimal-append (d ∷ text) c = ground (arith, all_digits-append text c)

show-is_decimal : (n : ℕ) → is_decimal (show n) ≡ true
unfolding show
show-is_decimal n = show_from-all_digits n n (omega arith)

-- What the code takes as the limit of a path, and which limit it is.
abbrev limit_of : ℕ → ℕ → Text → ℕ
limit_of upload other path = if rstrip_slash path == upload_path then upload else other

limit_of-IsLimit :
    (upload other : ℕ) (path : Text) → IsLimit upload other path (limit_of upload other path)
limit_of-IsLimit upload other path = elim (IsUpload-cases path) [
  | inl (e, found) ↦ inl (found, rw e refl)
  | inr (e, other_path) ↦ inr (other_path, rw e refl)
]

check_body-check_length :
    (upload other : ℕ) (method path : Text) (raw : List (Text × Text))
    → contains body_methods method ≡ true
    → check_body upload other method path raw
      ≡ check_length (limit_of upload other path) (header_dict raw [])
unfolding check_body
check_body-check_length upload other method path raw h = rw h refl

-- One digit at least, and ASCII digits only.
abbrev pub IsDecimal : Text → Type 0
IsDecimal text = (text ≢ []) × All (λ c. (48 ≤ c) × (c ≤ 57)) text

all_digits-All : (text : Text) → all_digits text ≡ true → All (λ c. (48 ≤ c) × (c ≤ 57)) text
all_digits-All [] h = tt
all_digits-All (c ∷ text) h =
    ((ground (arith, h), ground (arith, h)), all_digits-All text (ground (arith, h)))

is_decimal-IsDecimal : (text : Text) → is_decimal text ≡ true → IsDecimal text
is_decimal-IsDecimal [] h = absurd (ground (arith, h))
is_decimal-IsDecimal (c ∷ text) h = (λ e. cc, all_digits-All (c ∷ text) h)

-- The last `Content-Length` is a decimal number within the limit.
abbrev pub IsDeclared : ℕ → List (Text × Text) → Type 0
IsDeclared limit raw =
    (declared : Text) × (last_header (txt "content-length") raw ≡ some declared)
    × IsDecimal declared
    × (length declared ≤ 4300)
    × (value 0 declared ≤ limit)

-- No `Content-Length`, and no `Transfer-Encoding` that holds `chunked`.
abbrev pub IsUndeclared : List (Text × Text) → Type 0
IsUndeclared raw =
    (last_header (txt "content-length") raw ≡ none)
    × ((coding : Text)
        → last_header (txt "transfer-encoding") raw ≡ some coding
        → Holds (txt "chunked") coding
        → ⊥)

check_length-IsDeclared :
    (limit : ℕ) (raw : List (Text × Text)) (declared : Text)
    → lookup (txt "content-length") (header_dict raw []) ≡ some declared
    → check_length limit (header_dict raw []) ≡ admitted
    → IsDeclared limit raw
unfolding check_length
check_length-IsDeclared limit raw declared e h = (
  declared,
  sym (lookup-last_header (txt "content-length") raw refl) ∙ e,
  is_decimal-IsDecimal declared (ground (arith, h, e)),
  ground (arith, h, e),
  ground (arith, h, e),
)

check_length-IsUndeclared :
    (limit : ℕ) (raw : List (Text × Text))
    → lookup (txt "content-length") (header_dict raw []) ≡ none
    → check_length limit (header_dict raw []) ≡ admitted
    → IsUndeclared raw
unfolding check_length
check_length-IsUndeclared limit raw e h = (
  sym (lookup-last_header (txt "content-length") raw refl) ∙ e,
  λ coding f.
      let g = lookup-last_header (txt "transfer-encoding") raw refl ∙ f in
      occurs-Holds (txt "chunked") coding refl (ground (arith, h, e, g)),
)

check_length-IsBounded :
    (limit : ℕ) (raw : List (Text × Text))
    → check_length limit (header_dict raw []) ≡ admitted
    → IsDeclared limit raw ⊎ IsUndeclared raw
check_length-IsBounded limit raw h =
    (elim (lookup (txt "content-length") (header_dict raw []))
        as (λ x.
          lookup (txt "content-length") (header_dict raw []) ≡ x
          → IsDeclared limit raw ⊎ IsUndeclared raw) [
            | none ↦ λ e. inr (check_length-IsUndeclared limit raw e h)
            | some declared ↦ λ e. inl (check_length-IsDeclared limit raw declared e h)
          ])
      refl

-- What is done with a request that declares `n` bytes.
abbrev pub answer_to : ℕ → ℕ → Verdict
answer_to limit n =
    if leb (length (show n)) 4300
    then if leb n limit
      then admitted
      else refused 413 (txt "upload_too_large")
          (txt "at most " ++ (size limit ++ txt " are accepted"))
    else raised

check_length-show :
    (limit : ℕ) (headers : Dict Text Text) (n : ℕ)
    → lookup (txt "content-length") headers ≡ some (show n)
    → check_length limit headers ≡ answer_to limit n
unfolding check_length
check_length-show limit headers n e = ground (arith, e, show-is_decimal n, value-show n)

-- A request that may carry a body and is let through has, for the limit of its path (that of
-- uploads for the upload path, slashes at its end or not, and the other one for every other path),
-- a last `Content-Length`, the name in capitals or small letters, of 1 to 4300 ASCII digits whose
-- number is within the limit; or it has none, and its last `Transfer-Encoding`, if any, does not
-- hold the word `chunked` in capitals or small letters.
pub check_body-IsBounded :
    (upload other : ℕ) (method path : Text) (raw : List (Text × Text))
    → contains body_methods method ≡ true
    → check_body upload other method path raw ≡ admitted
    → (limit : ℕ) × IsLimit upload other path limit × (IsDeclared limit raw ⊎ IsUndeclared raw)
check_body-IsBounded upload other method path raw h e = (
  limit_of upload other path,
  limit_of-IsLimit upload other path,
  check_length-IsBounded (limit_of upload other path) raw
      (sym (check_body-check_length upload other method path raw h) ∙ e),
)

-- A request that may carry a body and whose last `Content-Length`, the name in capitals or small
-- letters, is `n` in decimal is let through if `n` is within the limit of its path and answered 413
-- if it is not, for `n` of at most 4300 digits; for a longer one a ValueError is raised.
pub check_body-show :
    (upload other n : ℕ) (method path : Text) (raw : List (Text × Text))
    → contains body_methods method ≡ true
    → last_header (txt "content-length") raw ≡ some (show n)
    → (limit : ℕ) × IsLimit upload other path limit
      × (check_body upload other method path raw ≡ answer_to limit n)
check_body-show upload other n method path raw h e = (
  limit_of upload other path,
  limit_of-IsLimit upload other path,
  check_body-check_length upload other method path raw h
      ∙ check_length-show (limit_of upload other path) (header_dict raw []) n
          (lookup-last_header (txt "content-length") raw refl ∙ e),
)
