-- ===== src/Budget.antt =====
-- The daily cap on questions: backend/src/app/services/budget.py. A time is a number of microseconds
-- since a midnight in UTC, and the rows of the query log are the times at which they were written.
pub mod Laws
mod Tests
use normeon_german_technical.Errors.{AppError, daily_limit_reached}
use normeon_german_technical.Prelude.{
  ℕ, zero, suc, ◌+◌, ◌-◌, ◌*◌, ◌/◌, ◌≤◌, ◌<◌, Bool, Option, none, some, List, [], ◌∷◌, keep, length,
  leb, ltb, Result, ok, err, if◌then◌else◌, arith,
}

abbrev pub second : ℕ
second = 1000000

abbrev pub day : ℕ
day = 86400000000

-- `date_trunc('day', now())`
abbrev pub day_start : ℕ → ℕ
day_start now = now / day * day

-- `questions_today`, at the time of the database.
unfoldable pub questions_today : ℕ → List ℕ → ℕ
questions_today db_now created = length (keep (leb (day_start db_now)) created)

-- `(now + timedelta(days=1)).replace(hour=0, …)`
abbrev pub next_midnight : ℕ → ℕ
next_midnight now = day_start (now + day)

-- `int((midnight - now).total_seconds()) or 1`
unfoldable pub seconds_left : ℕ → ℕ
seconds_left now = elim ((next_midnight now - now) / second) [ zero ↦ 1 | suc n ↦ suc n ]

-- `ensure_daily_budget`: what it raises, or `none`.
unfoldable pub ensure_daily_budget : Option ℕ → ℕ → ℕ → List ℕ → Option AppError
unfolding questions_today seconds_left
ensure_daily_budget none now db_now created = none
ensure_daily_budget (some zero) now db_now created = none
ensure_daily_budget (some (suc n)) now db_now created =
    if ltb (questions_today db_now created) (suc n)
    then none
    else some (daily_limit_reached (seconds_left now))
