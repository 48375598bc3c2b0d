-- ===== src/Prelude/Dict.antt =====
-- Python's `dict`: entries in insertion order, each key once.
use normeon_german_technical.Prelude.Tests.{if◌then◌else◌}
use normeon_german_technical.Prelude.Equality.{Eq, ◌==◌, contains, Distinct}
use normeon_german_technical.Prelude.Membership.{append-Distinct}
use mathlib.Core.Path.{ap, ◌≡◌, refl}
use mathlib.Core.Bool.{Bool, true, false}
use mathlib.Core.Option.{Option, none, some}
use mathlib.Core.List.{List, [], ◌∷◌, ◌++◌}
use native.Mathlib.Omega.{arith}

abbrev pub Dict {ℓ κ} : Type ℓ → Type κ → Type (ℓ ⊔ κ)
Dict K V = List (K × V)

module _ {ℓ κ} {K : Type ℓ} {V : Type κ} where
  -- `list(d)`
  abbrev pub keys : Dict K V → List K
  keys [] = []
  keys ((k, _) ∷ d) = k ∷ keys d

  -- `list(d.values())`
  abbrev pub values : Dict K V → List V
  values [] = []
  values ((_, v) ∷ d) = v ∷ values d

module _ {ℓ κ} {K : Type ℓ} {V : Type κ} ⦃e : Eq K⦄ where
  -- `d.get(k)`
  abbrev pub lookup : K → Dict K V → Option V
  lookup k [] = none
  lookup k ((j, v) ∷ d) = if k == j then some v else lookup k d

  -- `d.get(k, default)`
  abbrev pub get_or : K → V → Dict K V → V
  get_or k default d = elim (lookup k d) [ none ↦ default | some v ↦ v ]

  -- `d[k] = v`
  abbrev pub insert : K → V → Dict K V → Dict K V
  insert k v [] = (k, v) ∷ []
  insert k v ((j, w) ∷ d) = if k == j then (j, v) ∷ d else (j, w) ∷ insert k v d

  -- `d.setdefault(k, v)`
  abbrev pub set_default : K → V → Dict K V → Dict K V
  set_default k v d = elim (lookup k d) [ none ↦ insert k v d | some _ ↦ d ]

  pub lookup-insert :
      (j k : K) (v : V) (d : Dict K V)
      → lookup j (insert k v d) ≡ (if j == k then some v else lookup j d)
  lookup-insert j k v [] = refl
  lookup-insert j k v (_ ∷ d) = ground (arith, lookup-insert j k v d)

  pub lookup-set_default :
      (j k : K) (v : V) (d : Dict K V)
      → lookup j (set_default k v d)
        ≡ elim (lookup j d) [ none ↦ (if j == k then some v else none) | some w ↦ some w ]
  lookup-set_default j k v d = ground (arith, lookup-insert j k v d)

  -- `k in d` is a hit of `d.get(k)`.
  abbrev pub is_key : K → Dict K V → Bool
  is_key k d = elim (lookup k d) [ none ↦ false | some _ ↦ true ]

  pub contains-keys : (k : K) (d : Dict K V) → contains (keys d) k ≡ is_key k d
  contains-keys k [] = refl
  contains-keys k (_ ∷ d) = ground (arith, contains-keys k d)

  pub keys-insert :
      (k : K) (v : V) (d : Dict K V)
      → keys (insert k v d) ≡ (if contains (keys d) k then keys d else (keys d ++ k ∷ []))
  keys-insert k v [] = refl
  keys-insert k v (_ ∷ d) = ground (arith, keys-insert k v d)

  pub insert-keys-Distinct :
      (k : K) (v : V) (d : Dict K V) → Distinct (keys d) → Distinct (keys (insert k v d))
  insert-keys-Distinct k v d u = rw keys-insert (ground (arith, append-Distinct (keys d) k u))

  pub keys-set_default :
      (k : K) (v : V) (d : Dict K V)
      → keys (set_default k v d) ≡ (if contains (keys d) k then keys d else (keys d ++ k ∷ []))
  keys-set_default k v d = ground (arith, keys-insert k v d, contains-keys k d)

  pub insert_fresh :
      (k : K) (v : V) (d : Dict K V) → contains (keys d) k ≡ false → insert k v d ≡ d ++ (k, v) ∷ []
  insert_fresh k v [] h = refl
  insert_fresh k v ((j, w) ∷ d) h = ground (arith, insert_fresh k v d)

  pub keys-append : (a b : Dict K V) → keys (a ++ b) ≡ keys a ++ keys b
  keys-append [] b = refl
  keys-append ((k, v) ∷ a) b = ap (◌∷◌ k) (keys-append a b)
