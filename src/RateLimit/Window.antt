-- ===== src/RateLimit/Window.antt =====
-- The sliding window of one client: `_retry_after` of backend/src/app/core/rate_limit.py, against
-- a limiter that remembers every request it let pass.
use normeon_german_technical.Prelude.{
  refl, ℕ, ◌+◌, ◌-◌, ◌≡◌, Bool, true, false, Option, none, some, List, [], ◌∷◌, ◌++◌, length, leb,
  ltb, keep, if◌then◌else◌, arith,
}
use normeon_german_technical.RateLimit.{expire, admit, first_hit}

-- The hit still counts against a request at `now`.
abbrev pub in_window : ℕ → ℕ → ℕ → Bool
in_window window now hit = ltb now (hit + window)

-- The decision of a limiter with a log of every request it let pass.
abbrev pub allows : ℕ → ℕ → ℕ → List ℕ → Bool
allows limit window now log = ltb (length (keep (in_window window now) log)) limit

-- The decisions over a sequence of requests of one client, each at its time.
abbrev pub reference_decisions : ℕ → ℕ → List ℕ → List ℕ → List Bool
reference_decisions limit window log [] = []
reference_decisions limit window log (now ∷ times) =
    let allowed = allows limit window now log in
    allowed ∷ reference_decisions limit window (if allowed then (log ++ now ∷ []) else log) times

unfoldable pub is_none : {A : Type 0} → Option A → Bool
is_none none = true
is_none (some x) = false

-- The decisions of the code, until it raises.
unfoldable pub decisions : ℕ → ℕ → List ℕ → List ℕ → List Bool
unfolding admit is_none
decisions limit window hits [] = []
decisions limit window hits (now ∷ times) = elim (admit limit window now hits) [
  | none ↦ []
  | some (wait, kept) ↦ is_none wait ∷ decisions limit window kept times
]

-- Each time is at least the one before it.
abbrev pub Rising : ℕ → List ℕ → Type 0
Rising low [] = Unit
Rising low (time ∷ times) = (leb low time ≡ true) × Rising time times

Rising-lower :
    (low low' : ℕ) (times : List ℕ) → leb low' low ≡ true → Rising low times → Rising low' times
Rising-lower low low' [] h r = tt
Rising-lower low low' (time ∷ times) h (g, r) = (ground (arith, h, g), r)

keep_all :
    (window now low : ℕ) (hits : List ℕ)
    → ltb now (low + window) ≡ true
    → Rising low hits
    → keep (in_window window now) hits ≡ hits
keep_all window now low [] h r = refl
keep_all window now low (hit ∷ hits) h (g, r) =
    ground (arith, keep_all window now hit hits (ground (arith, h, g)) r, h, g)

pub expire_lem :
    (window now low : ℕ) (hits : List ℕ)
    → Rising low hits
    → expire window now hits ≡ keep (in_window window now) hits
unfolding expire
expire_lem window now low [] r = refl
expire_lem window now low (hit ∷ hits) (h, r) =
    elim (leb (hit + window) now)
        as (λ b.
          leb (hit + window) now ≡ b
          → (if b then expire window now hits else hit ∷ hits)
            ≡ keep (in_window window now) (hit ∷ hits)) [
              | true ↦ λ e. ground (arith, expire_lem window now hit hits r, e)
              | false ↦ λ e. ground (arith, keep_all window now hit hits (ground (arith, e)) r, e)
            ]
      refl

pub keep-Rising :
    (window t low now : ℕ) (hits : List ℕ)
    → leb now t ≡ true
    → Rising low (hits ++ now ∷ [])
    → Rising low (keep (in_window window t) hits ++ t ∷ [])
keep-Rising window t low now [] h (g, r) = (ground (arith, h, g), tt)
keep-Rising window t low now (hit ∷ hits) h (g, r) =
    elim (in_window window t hit)
      as (λ b. Rising low (
        (if b then hit ∷ keep (in_window window t) hits else keep (in_window window t) hits)
        ++ t ∷ [])) [
          | true ↦ (g, keep-Rising window t hit now hits h r)
          | false ↦
              Rising-lower hit low (keep (in_window window t) hits ++ t ∷ []) g
                (keep-Rising window t hit now hits h r)
        ]

pub Rising-again :
    (low t : ℕ) (hits : List ℕ)
    → Rising low (hits ++ t ∷ [])
    → Rising low ((hits ++ t ∷ []) ++ t ∷ [])
Rising-again low t [] (g, r) = (g, (ground arith, tt))
Rising-again low t (hit ∷ hits) (g, r) = (g, Rising-again hit t hits r)

pub Rising-init : (low t : ℕ) (hits : List ℕ) → Rising low (hits ++ t ∷ []) → Rising low hits
Rising-init low t [] r = tt
Rising-init low t (hit ∷ hits) (g, r) = (g, Rising-init hit t hits r)

pub keep-keep :
    (window t t' : ℕ) (hits : List ℕ)
    → leb t t' ≡ true
    → keep (in_window window t') (keep (in_window window t) hits) ≡ keep (in_window window t') hits
keep-keep window t t' [] h = refl
keep-keep window t t' (hit ∷ hits) h = ground (arith, keep-keep window t t' hits h, h)

pub keep-append :
    (window t x : ℕ) (hits hits' : List ℕ)
    → keep (in_window window t) hits ≡ keep (in_window window t) hits'
    → keep (in_window window t) (hits ++ x ∷ []) ≡ keep (in_window window t) (hits' ++ x ∷ [])
keep-append window t x hits hits' h = rw (keep_snoc hits, keep_snoc hits', h) refl
  where
    keep_snoc :
        (hits : List ℕ)
        → keep (in_window window t) (hits ++ x ∷ [])
          ≡ keep (in_window window t) hits ++ keep (in_window window t) (x ∷ [])
    keep_snoc [] = refl
    keep_snoc (hit ∷ hits) = ground (arith, keep_snoc hits)

-- What a deque of the code shares with the log of the reference.
abbrev pub Agrees : ℕ → ℕ → List ℕ → List ℕ → Type 0
Agrees window now hits log =
    (t : ℕ) → leb now t ≡ true → keep (in_window window t) hits ≡ keep (in_window window t) log

first_total :
    (limit : ℕ) (hits : List ℕ)
    → ltb 0 limit ≡ true
    → leb limit (length hits) ≡ true
    → (hit : ℕ) × (first_hit hits ≡ some hit)
first_total limit [] h g = absurd (ground (arith, h, g))
first_total limit (hit ∷ hits) h g = (hit, refl)

-- `admit` refuses, with the deque less its expired hits, when `limit` of them are left.
pub admit_refused :
    (limit window now : ℕ) (hits : List ℕ)
    → ltb 0 limit ≡ true
    → leb limit (length (expire window now hits)) ≡ true
    → (wait : ℕ) × (admit limit window now hits ≡ some (some wait, expire window now hits))
unfolding admit
admit_refused limit window now hits h g =
    let (hit, e) = first_total limit (expire window now hits) h g in
    (hit + window - now, ground (arith, e, g))

pub admit_passed :
    (limit window now : ℕ) (hits : List ℕ)
    → leb limit (length (expire window now hits)) ≡ false
    → admit limit window now hits ≡ some (none, expire window now hits ++ now ∷ [])
unfolding admit
admit_passed limit window now hits g = ground (arith, g)
