-- ===== src/Budget/Laws.antt =====
-- The decisions of `ensure_daily_budget` of backend/src/app/services/budget.py.
use normeon_german_technical.Prelude.{
  if◌then◌else◌, subst, leb, keep, length, [], ◌∷◌, ltb→lt, ℕ, zero, suc, ◌+◌, ◌-◌, ◌*◌, ◌/◌, ◌≤◌,
  ◌<◌, ◌≡◌, refl, Bool-cases, Option, none, some, List, ltb, ◌⊎◌, inl, inr, arith,
}
use normeon_german_technical.Budget.{
  day_start, second, day, next_midnight, questions_today, seconds_left, ensure_daily_budget,
}
use normeon_german_technical.Errors.{AppError, daily_limit_reached}

-- A midnight: a whole number of days of 86400 seconds.
abbrev pub IsMidnight : ℕ → Type 0
IsMidnight time = (days : ℕ) × (time ≡ days * 86400000000)

-- The times from one on.
abbrev pub count_from : ℕ → List ℕ → ℕ
count_from time [] = 0
count_from time (t ∷ times) =
    let rest = count_from time times in if leb time t then rest + 1 else rest

questions_today-count_from :
    (db_now : ℕ) (created : List ℕ)
    → questions_today db_now created ≡ count_from (day_start db_now) created
unfolding questions_today
questions_today-count_from db_now created = keep_lem (day_start db_now) created
  where
    keep_lem : (time : ℕ) (times : List ℕ) → length (keep (leb time) times) ≡ count_from time times
    keep_lem time [] = refl
    keep_lem time (t ∷ times) = ground (arith, keep_lem time times)

-- The last midnight, and the next.
day_start_lem :
    (now : ℕ) → IsMidnight (day_start now) × (day_start now ≤ now) × (now < day_start now + day)
day_start_lem now = ((now / day, refl), omega (arith), omega (arith))

next_midnight_lem :
    (now : ℕ)
    → IsMidnight (next_midnight now) × (now < next_midnight now) × (next_midnight now ≤ now + day)
next_midnight_lem now = (((now + day) / day, refl), omega (arith), omega (arith))

-- From 1 second to 24 hours; the next midnight is less than a second after the pause, or within the
-- second.
abbrev pub IsPause : ℕ → ℕ → Type 0
IsPause now seconds =
    (0 < seconds)
    × (seconds ≤ 86400)
    × ((midnight : ℕ) × IsMidnight midnight
        × (now < midnight)
        × (midnight ≤ now + 86400000000)
        × (midnight < now + (seconds + 1) * 1000000)
        × ((now + seconds * 1000000 ≤ midnight) ⊎ (seconds ≡ 1)))

pause_lem :
    (now midnight q : ℕ)
    → now < midnight
    → midnight ≤ now + day
    → (midnight - now) / second ≡ q
    → (let seconds : ℕ = elim q [ zero ↦ 1 | suc n ↦ suc n ] in
        (0 < seconds)
        × (seconds ≤ 86400)
        × (midnight < now + (seconds + 1) * second)
        × ((now + seconds * second ≤ midnight) ⊎ (seconds ≡ 1)))
pause_lem now midnight zero lt le e =
    (omega (arith), omega (arith), omega (arith, lt, le, e), inr refl)
pause_lem now midnight (suc n) lt le e = (
  omega (arith),
  omega (arith, lt, le, e),
  omega (arith, lt, le, e),
  inl (omega (arith, lt, le, e)),
)

seconds_left-IsPause : (now : ℕ) → IsPause now (seconds_left now)
unfolding seconds_left
seconds_left-IsPause now =
    let (whole, lt, le) = next_midnight_lem now in
    let (pos, day_long, before, end) =
      pause_lem now (next_midnight now) ((next_midnight now - now) / second) lt le refl in
    (pos, day_long, (next_midnight now, whole, lt, le, before, end))

-- What `ensure_daily_budget` does under a limit, with that many questions asked.
abbrev pub IsDecision : Option ℕ → ℕ → ℕ → Option AppError → Type 0
IsDecision limit now count none =
    (limit ≡ none) ⊎ ((n : ℕ) × (limit ≡ some n) × ((n ≡ 0) ⊎ (count < n)))
IsDecision limit now count (some e) =
    (n : ℕ) × (seconds : ℕ) × (limit ≡ some n)
    × (0 < n)
    × (n ≤ count)
    × (e ≡ daily_limit_reached seconds)
    × IsPause now seconds

-- The decision, over the questions from the last midnight of the database's clock on.
abbrev pub IsBudget : Option ℕ → ℕ → ℕ → List ℕ → Option AppError → Type 0
IsBudget limit now db_now created result =
    (midnight : ℕ) × IsMidnight midnight
    × (midnight ≤ db_now)
    × (db_now < midnight + 86400000000)
    × IsDecision limit now (count_from midnight created) result

ensure_daily_budget-IsDecision :
    (limit : Option ℕ) (now db_now : ℕ) (created : List ℕ)
    → IsDecision limit now
        (questions_today db_now created)
        (ensure_daily_budget limit now db_now created)
unfolding ensure_daily_budget
ensure_daily_budget-IsDecision none now db_now created = inl refl
ensure_daily_budget-IsDecision (some zero) now db_now created = inr (0, refl, inl refl)
ensure_daily_budget-IsDecision (some (suc n)) now db_now created =
    elim (Bool-cases (ltb (questions_today db_now created) (suc n))) [
      | inl e ↦ rw (e) (inr (suc n, refl, inr (ltb→lt (questions_today db_now created) (suc n) e)))
      | inr e ↦ rw (e) (
        suc n,
        seconds_left now,
        refl,
        omega (arith),
        ground (arith, e),
        refl,
        seconds_left-IsPause now,
      )
    ]

-- `ensure_daily_budget` returns exactly where there is no limit, the limit is 0, or fewer questions
-- than the limit were asked from the last midnight on, by the clock of the database. Else it raises
-- `DailyLimitReachedError`, with a pause of 1 second to 24 hours that ends within the last second
-- before the next midnight, by the clock of the process, or is 1 second. A midnight is a multiple of
-- 86400 seconds.
pub ensure_daily_budget-IsBudget :
    (limit : Option ℕ) (now db_now : ℕ) (created : List ℕ)
    → IsBudget limit now db_now created (ensure_daily_budget limit now db_now created)
ensure_daily_budget-IsBudget limit now db_now created =
    let (whole, le, lt) = day_start_lem db_now in
    let result = ensure_daily_budget limit now db_now created in
    (
      day_start db_now,
      whole,
      le,
      lt,
      subst (λ count. IsDecision limit now count result) (questions_today-count_from db_now created)
          (ensure_daily_budget-IsDecision limit now db_now created),
    )
