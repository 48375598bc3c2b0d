-- ===== src/Ingestion/Store/Extension.antt =====
-- Lists that only grow, under backend/src/app/services/ingestion.py.
use normeon_german_technical.Prelude.{
  ◌≡◌, sym, List, [], ◌++◌, append-nil, append_assoc, true, contains, contains-append, Eq, arith,
}

module _ {ℓ} {A : Type ℓ} where
  -- The second list begins with the first.
  abbrev pub Extends : List A → List A → Type ℓ
  Extends xs ys = (new : List A) × (ys ≡ xs ++ new)

  pub Extends-refl : (xs : List A) → Extends xs xs
  Extends-refl xs = ([], sym (append-nil xs))

  pub Extends-trans : (xs ys zs : List A) → Extends xs ys → Extends ys zs → Extends xs zs
  Extends-trans xs ys zs (a, p) (b, q) = (a ++ b, simp (q, p, append_assoc))

module _ {ℓ} {A : Type ℓ} ⦃e : Eq A⦄ where
  pub contains-Extends :
      (xs ys : List A) (a : A) → Extends xs ys → contains xs a ≡ true → contains ys a ≡ true
  contains-Extends xs ys a (new, p) h = rw (p) (ground (arith, h, contains-append xs new a))
