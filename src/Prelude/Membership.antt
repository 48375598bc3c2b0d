-- ===== src/Prelude/Membership.antt =====
-- Laws of `contains` and `Distinct`.
use normeon_german_technical.Prelude.Equality.{Eq, contains, Distinct}
use normeon_german_technical.Prelude.Lists.{take, keep, All}
use Prim.Native.Nat.{ℕ, zero, suc}
use mathlib.Core.Path.{◌≡◌, refl, sym, subst}
use mathlib.Core.Bool.{Bool, true, false, ◌&&◌, ◌||◌}
use mathlib.Core.List.{List, [], ◌∷◌, ◌++◌}
use native.Mathlib.Omega.{arith}

module _ {ℓ} {A : Type ℓ} ⦃e : Eq A⦄ where
  pub contains-append :
      (xs ys : List A) (a : A) → contains (xs ++ ys) a ≡ (contains xs a || contains ys a)
  contains-append [] ys a = refl
  contains-append (x ∷ xs) ys a = ground (arith, contains-append xs ys a)

  pub contains-keep :
      (p : A → Bool) (xs : List A) (a : A) → contains (keep p xs) a ≡ (contains xs a && p a)
  contains-keep p [] a = refl
  contains-keep p (x ∷ xs) a = ground (arith, contains-keep p xs a)

  pub contains-take :
      (n : ℕ) (xs : List A) (a : A) → contains (take n xs) a ≡ true → contains xs a ≡ true
  contains-take zero xs a h = cc
  contains-take (suc n) [] a h = cc
  contains-take (suc n) (x ∷ xs) a h = ground (arith, contains-take n xs a)

  pub keep-Distinct : (p : A → Bool) (xs : List A) → Distinct xs → Distinct (keep p xs)
  keep-Distinct p [] h = tt
  keep-Distinct p (x ∷ xs) (fresh, u) = ground (arith, keep-Distinct p xs u, contains-keep p xs x)

  pub take-Distinct : (n : ℕ) (xs : List A) → Distinct xs → Distinct (take n xs)
  take-Distinct zero xs h = tt
  take-Distinct (suc n) [] h = tt
  take-Distinct (suc n) (x ∷ xs) (fresh, u) =
      ground (arith, take-Distinct n xs u, contains-take n xs x)

  -- The value added last.
  pub append-Distinct :
      (xs : List A) (a : A) → Distinct xs → contains xs a ≡ false → Distinct (xs ++ a ∷ [])
  append-Distinct [] a _ _ = (refl, tt)
  append-Distinct (x ∷ xs) a (fresh, u) h =
      ground (arith, append-Distinct xs a u, contains-append xs (a ∷ []) x)

  pub All-contains {κ} :
      (P : A → Type κ) (xs : List A) (a : A) → All P xs → contains xs a ≡ true → P a
  All-contains P [] a _ h = absurd (cc)
  All-contains P (x ∷ xs) a (p, ps) h = elim (e.dec a x) [
    | yes q ↦ subst P (sym q) p
    | no q ↦ All-contains P xs a ps (ground arith)
  ]

  -- Membership as a conjunction over the list.
  pub All-intro {κ} :
      (P : A → Type κ) (xs : List A) → ((a : A) → contains xs a ≡ true → P a) → All P xs
  All-intro P [] h = tt
  All-intro P (x ∷ xs) h = (h x (ground arith), All-intro P xs (λ a m. h a (ground arith)))
