-- ===== src/Fusion/Appearance.antt =====
-- `first_seen` of backend/src/app/domain/fusion.py and the order of first appearance.
use normeon_german_technical.Prelude.{
  ℕ, suc, ◌+◌, ◌≡◌, refl, ap, ◌∙◌, Bool, true, false, none, some, List, [], ◌∷◌, ◌++◌, length,
  if◌then◌else◌, Eq, ◌==◌, contains, contains-append, arith,
}
use normeon_german_technical.Prelude.Dict.{
  Dict, keys, lookup, set_default, lookup-set_default, contains-keys, keys-set_default,
}
use normeon_german_technical.Scalar.{FloatOps}
use normeon_german_technical.Fusion.{Tally, count_hit, count_ranking, count_rankings, tally}
use normeon_german_technical.Fusion.Scores.{rank_of}

module _ {K : Type 0} ⦃e : Eq K⦄ where
  -- The ids of a list behind those seen before it, each where it first appears.
  abbrev pub in_order : List K → List K → List K
  in_order seen [] = seen
  in_order seen (x ∷ xs) = in_order (if contains seen x then seen else (seen ++ x ∷ [])) xs

  -- The ids of the rankings, in the order of their first appearance.
  abbrev pub appearance : {F : Type 0} → List K → List (F × List K) → List K
  appearance seen [] = seen
  appearance seen ((_, ranking) ∷ rest) = appearance (in_order seen ranking) rest

  abbrev pub place_in : List K → K → ℕ
  place_in ids d = elim (rank_of 0 d ids) [ none ↦ 0 | some n ↦ n ]

  rank_of-append :
      (n : ℕ) (d y : K) (xs : List K)
      → rank_of n d (xs ++ y ∷ []) ≡ elim (rank_of n d xs) [
        | some r ↦ some r
        | none ↦ if d == y then some (n + length xs) else none
      ]
  rank_of-append n d y [] = ground arith
  rank_of-append n d y (x ∷ xs) = ground (arith, rank_of-append (n + 1) d y xs)

  -- Every id is numbered by its place among the keys.
  abbrev IsNumbered : Dict K ℕ → Type 0
  IsNumbered d = (x : K) → lookup x d ≡ rank_of 0 x (keys d)

  length-keys : {V : Type 0} (d : Dict K V) → length (keys d) ≡ length d
  length-keys [] = refl
  length-keys (_ ∷ d) = ap suc (length-keys d)

  is_key-rank_of :
      (d : Dict K ℕ)
      → IsNumbered d
      → (x : K) → contains (keys d) x ≡ elim (rank_of 0 x (keys d)) [ none ↦ false | some _ ↦ true ]
  is_key-rank_of d h x = ground (arith, contains-keys x d, h x)

  set_default-IsNumbered :
      (d : Dict K ℕ) (y : K) → IsNumbered d → IsNumbered (set_default y (length d) d)
  set_default-IsNumbered d y h x = rw keys-set_default (
      ground (
        arith,
        h x,
        h y,
        contains-keys x d,
        contains-keys y d,
        rank_of-append 0 x y (keys d),
        length-keys d,
        lookup-set_default x y (length d) d,
      ))

module _ {K F : Type 0} ⦃e : Eq K⦄ (fl : FloatOps F) (k : ℕ) where
  hit-IsNumbered :
      (counted : Bool) (weight : F) (rank : ℕ) (x : K) (t : Tally K F)
      → IsNumbered t.first_seen
      → IsNumbered (if counted then t else count_hit fl k weight rank x t).first_seen
  unfolding count_hit
  hit-IsNumbered true weight rank x t h = h
  hit-IsNumbered false weight rank x t h = set_default-IsNumbered t.first_seen x h

  count_ranking-IsNumbered :
      (weight : F) (rank : ℕ) (counted ranking : List K) (t : Tally K F)
      → IsNumbered t.first_seen
      → IsNumbered (count_ranking fl k weight rank counted ranking t).first_seen
  unfolding count_ranking
  count_ranking-IsNumbered weight rank counted [] t h = h
  count_ranking-IsNumbered weight rank counted (x ∷ xs) t h =
      count_ranking-IsNumbered weight (rank + 1) _ xs _
        (hit-IsNumbered (contains counted x) weight rank x t h)

  count_rankings-IsNumbered :
      (pairs : List (F × List K)) (t : Tally K F)
      → IsNumbered t.first_seen
      → IsNumbered (count_rankings fl k pairs t).first_seen
  unfolding count_rankings
  count_rankings-IsNumbered [] t h = h
  count_rankings-IsNumbered ((weight, ranking) ∷ rest) t h =
      count_rankings-IsNumbered rest _ (count_ranking-IsNumbered weight 1 [] ranking t h)

  -- An id that a ranking has counted is known.
  abbrev AreKnown : List K → Tally K F → Type 0
  AreKnown counted t = (x : K) → contains counted x ≡ true → contains (keys t.first_seen) x ≡ true

  keys-hit :
      (counted : List K) (weight : F) (rank : ℕ) (x : K) (t : Tally K F)
      → AreKnown counted t
      → keys (if contains counted x then t else count_hit fl k weight rank x t).first_seen ≡ (
          if contains (keys t.first_seen) x
          then keys t.first_seen
          else (keys t.first_seen ++ x ∷ []))
  unfolding count_hit
  keys-hit counted weight rank x t h =
      ground (arith, h x, keys-set_default x (length t.first_seen) t.first_seen)

  hit-AreKnown :
      (counted : List K) (weight : F) (rank : ℕ) (x : K) (t : Tally K F)
      → AreKnown counted t
      → AreKnown
          (if contains counted x then counted else x ∷ counted)
          (if contains counted x then t else count_hit fl k weight rank x t)
  hit-AreKnown counted weight rank x t h y =
      rw (keys-hit counted weight rank x t h)
        (ground (arith, h y, contains-append (keys t.first_seen) (x ∷ []) y))

  keys-count_ranking :
      (weight : F) (rank : ℕ) (counted ranking : List K) (t : Tally K F)
      → AreKnown counted t
      → keys (count_ranking fl k weight rank counted ranking t).first_seen
        ≡ in_order (keys t.first_seen) ranking
  unfolding count_ranking
  keys-count_ranking weight rank counted [] t h = refl
  keys-count_ranking weight rank counted (x ∷ xs) t h =
      keys-count_ranking weight (rank + 1) _ xs _ (hit-AreKnown counted weight rank x t h)
      ∙ ap (λ seen. in_order seen xs) (keys-hit counted weight rank x t h)

  keys-count_rankings :
      (pairs : List (F × List K)) (t : Tally K F)
      → keys (count_rankings fl k pairs t).first_seen ≡ appearance (keys t.first_seen) pairs
  unfolding count_rankings
  keys-count_rankings [] t = refl
  keys-count_rankings ((weight, ranking) ∷ rest) t =
      keys-count_rankings rest _
      ∙ ap (λ seen. appearance seen rest) (keys-count_ranking weight 1 [] ranking t (λ x h. cc))

  pub lookup-first_seen :
      (pairs : List (F × List K)) (d : K)
      → lookup d (tally fl k pairs).first_seen ≡ rank_of 0 d (appearance [] pairs)
  lookup-first_seen pairs d =
      count_rankings-IsNumbered pairs _ (λ x. refl) d
      ∙ ap (rank_of 0 d) (keys-count_rankings pairs (record { scores = []; first_seen = [] }))
