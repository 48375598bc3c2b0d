-- ===== src/Limits/Paths.antt =====
-- The path of an upload in backend/src/app/core/limits.py, with slashes at its end or without.
use normeon_german_technical.Prelude.{
  Bool-cases, arith, ℕ, zero, suc, Text, true, false, ◌==◌, [], ◌∷◌, ◌++◌, ◌≡◌, refl, if◌then◌else◌,
  nat_eq, list_eq, ap, ◌∙◌, ◌⊎◌, inl, inr,
}
use normeon_german_technical.Limits.Headers.{text_eq_cases}
use normeon_german_technical.Limits.{rstrip_slash, upload_path}

abbrev pub slashes : ℕ → Text
slashes zero = []
slashes (suc n) = b'/' ∷ slashes n

-- The upload path, followed by slashes.
abbrev pub IsUpload : Text → Type 0
IsUpload path = (n : ℕ) × (path ≡ upload_path ++ slashes n)

-- The limit of a path: the one of uploads, or the one of every other path.
abbrev pub IsLimit : ℕ → ℕ → Text → ℕ → Type 0
IsLimit upload other path limit =
    (IsUpload path × (limit ≡ upload)) ⊎ ((IsUpload path → ⊥) × (limit ≡ other))

-- A character before a stripped text.
abbrev strip_step : ℕ → Text → Text
strip_step c rest = elim rest [ [] ↦ if c == b'/' then [] else (c ∷ []) | x ∷ xs ↦ c ∷ x ∷ xs ]

strip_end :
    (c n : ℕ) (path : Text) → path ≡ slashes n → (m : ℕ) × (c ∷ path ≡ strip_step c [] ++ slashes m)
strip_end c n path e = elim (Bool-cases (c == b'/')) [
  | inl h ↦ (suc n, ground (arith, h, e))
  | inr h ↦ (n, ground (arith, h, e))
]

rstrip_slash_split : (path : Text) → (n : ℕ) × (path ≡ rstrip_slash path ++ slashes n)
rstrip_slash_split [] = (0, refl)
rstrip_slash_split (c ∷ path) =
    let (n, same) = rstrip_slash_split path in
    elim (rstrip_slash path)
        as (λ r. path ≡ r ++ slashes n → (m : ℕ) × (c ∷ path ≡ strip_step c r ++ slashes m)) [
          | [] ↦ λ e. strip_end c n path e
          | x ∷ xs ↦ λ e. (n, ap (◌∷◌ c) e)
        ]
      same

rstrip_slash-slashes : (n : ℕ) → rstrip_slash (slashes n) ≡ []
rstrip_slash-slashes zero = refl
rstrip_slash-slashes (suc n) = rw (rstrip_slash-slashes n) (ground arith)

rstrip_slash-append : (path : Text) (n : ℕ) → rstrip_slash (path ++ slashes n) ≡ rstrip_slash path
rstrip_slash-append [] n = rstrip_slash-slashes n
rstrip_slash-append (c ∷ path) n = ap (strip_step c) (rstrip_slash-append path n)

-- The test of the path is `IsUpload`.
pub IsUpload-cases :
    (path : Text)
    → (((rstrip_slash path == upload_path) ≡ true) × IsUpload path)
      ⊎ (((rstrip_slash path == upload_path) ≡ false) × (IsUpload path → ⊥))
unfolding nat_eq
IsUpload-cases path = elim (text_eq_cases (rstrip_slash path) upload_path) [
  | inl (e, stripped) ↦
      let (n, same) = rstrip_slash_split path in
      inl (e, (n, same ∙ ap (λ p. p ++ slashes n) stripped))
  | inr (e, other) ↦
      inr (e, λ (n, same). other (ap rstrip_slash same ∙ rstrip_slash-append upload_path n))
]
