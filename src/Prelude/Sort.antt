-- ===== src/Prelude/Sort.antt =====
-- Python's stable `sorted`, by its comparison `less`.
use normeon_german_technical.Prelude.Tests.{if◌then◌else◌, Bool-cases}
use normeon_german_technical.Prelude.Equality.{Eq, ◌==◌, contains, Distinct}
use normeon_german_technical.Prelude.Lists.{All, length}
use normeon_german_technical.Prelude.Dict.{Dict, keys, lookup}
use Prim.Native.Nat.{suc}
use mathlib.Core.Path.{◌≡◌, refl}
use mathlib.Core.Bool.{Bool, true, false, ◌||◌}
use mathlib.Core.Logic.{inl, inr}
use mathlib.Core.Option.{some}
use mathlib.Core.List.{List, [], ◌∷◌}
use native.Mathlib.Omega.{arith}

module _ {ℓ} {A : Type ℓ} (less : A → A → Bool) where
  -- Before the first element that is not smaller: equal elements keep their order.
  unfoldable pub place : A → List A → List A
  place x [] = x ∷ []
  place x (y ∷ ys) = let rest = place x ys in if less y x then y ∷ rest else x ∷ y ∷ ys

  unfoldable pub sort : List A → List A
  unfolding place
  sort [] = []
  sort (x ∷ xs) = place x (sort xs)

  -- No element stands behind a larger one.
  abbrev pub IsSorted : List A → Type 0
  IsSorted [] = Unit
  IsSorted (x ∷ xs) = All (λ y. less y x ≡ false) xs × IsSorted xs

  -- The comparison of a total preorder.
  pub record IsOrder : Type ℓ where
    pub asymm : (x y : A) → less x y ≡ true → less y x ≡ false
    pub trans : (x y z : A) → less y x ≡ false → less z y ≡ false → less z x ≡ false

  pub All-place {κ} : (P : A → Type κ) (x : A) (l : List A) → P x → All P l → All P (place x l)
  unfolding place
  All-place P x [] p _ = (p, tt)
  All-place P x (y ∷ ys) p (q, qs) =
      elim (less y x) as (λ b. All P (if b then y ∷ place x ys else x ∷ y ∷ ys)) [
        | true ↦ (q, All-place P x ys p qs)
        | false ↦ (p, (q, qs))
      ]

  pub All-sort {κ} : (P : A → Type κ) (l : List A) → All P l → All P (sort l)
  unfolding sort
  All-sort P [] _ = tt
  All-sort P (x ∷ xs) (p, ps) = All-place P x (sort xs) p (All-sort P xs ps)

  pub length-place : (x : A) (l : List A) → length (place x l) ≡ suc (length l)
  unfolding place
  length-place x [] = refl
  length-place x (y ∷ ys) = ground (arith, length-place x ys)

  pub length-sort : (l : List A) → length (sort l) ≡ length l
  unfolding sort
  length-sort [] = refl
  length-sort (x ∷ xs) = ground (arith, length-place x (sort xs), length-sort xs)

module _ {ℓ} {A : Type ℓ} {less : A → A → Bool} (o : IsOrder less) where
  All-trans :
      (x y : A) (l : List A)
      → less y x ≡ false
      → All (λ z. less z y ≡ false) l
      → All (λ z. less z x ≡ false) l
  All-trans x y [] h _ = tt
  All-trans x y (z ∷ l) h (q, qs) = (o.trans x y z h q, All-trans x y l h qs)

  place-IsSorted : (x : A) (l : List A) → IsSorted less l → IsSorted less (place less x l)
  unfolding place
  place-IsSorted x [] s = (tt, tt)
  place-IsSorted x (y ∷ ys) (q, qs) = elim (Bool-cases (less y x)) [
    | inl h ↦
        rw h (All-place less (λ z. less z y ≡ false) x ys (o.asymm y x h) q, place-IsSorted x ys qs)
    | inr h ↦ rw h ((h, All-trans x y ys h q), (q, qs))
  ]

  pub sort-IsSorted : (l : List A) → IsSorted less (sort less l)
  unfolding sort
  sort-IsSorted [] = tt
  sort-IsSorted (x ∷ xs) = place-IsSorted x (sort less xs) (sort-IsSorted xs)

-- Sorting the entries of a dict.
module _ {K V : Type 0} ⦃e : Eq K⦄ (less : K × V → K × V → Bool) where
  contains-keys-place :
      (x : K × V) (d : Dict K V) (k : K)
      → contains (keys (place less x d)) k ≡ (k == x.0 || contains (keys d) k)
  unfolding place
  contains-keys-place x [] k = refl
  contains-keys-place x (y ∷ d) k = ground (arith, contains-keys-place x d k)

  pub contains-keys-sort :
      (d : Dict K V) (k : K) → contains (keys (sort less d)) k ≡ contains (keys d) k
  unfolding sort
  contains-keys-sort [] k = refl
  contains-keys-sort (x ∷ d) k =
      ground (arith, contains-keys-place x (sort less d) k, contains-keys-sort d k)

  place-keys-Distinct :
      (x : K × V) (d : Dict K V)
      → contains (keys d) x.0 ≡ false
      → Distinct (keys d)
      → Distinct (keys (place less x d))
  unfolding place
  place-keys-Distinct x [] h u = (refl, tt)
  place-keys-Distinct x (y ∷ d) h (fresh, u) =
      ground (arith, place-keys-Distinct x d, contains-keys-place x d y.0)

  pub sort-keys-Distinct : (d : Dict K V) → Distinct (keys d) → Distinct (keys (sort less d))
  unfolding sort
  sort-keys-Distinct [] u = tt
  sort-keys-Distinct (x ∷ d) (fresh, u) =
      place-keys-Distinct x (sort less d) (rw contains-keys-sort fresh) (sort-keys-Distinct d u)

  lookup-place :
      (x : K × V) (d : Dict K V) (k : K)
      → contains (keys d) x.0 ≡ false
      → lookup k (place less x d) ≡ (if k == x.0 then some x.1 else lookup k d)
  unfolding place
  lookup-place x [] k h = refl
  lookup-place x (y ∷ d) k h = ground (arith, lookup-place x d k)

  pub lookup-sort : (d : Dict K V) (k : K) → Distinct (keys d) → lookup k (sort less d) ≡ lookup k d
  unfolding sort
  lookup-sort [] k u = refl
  lookup-sort (x ∷ d) k (fresh, u) =
      rw (lookup-place x (sort less d) k (rw contains-keys-sort fresh), lookup-sort d k u)
