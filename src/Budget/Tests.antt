-- ===== src/Budget/Tests.antt =====
-- The daily cap on one day.
use normeon_german_technical.Prelude.{some, [], ◌∷◌}
use normeon_german_technical.Budget.{ensure_daily_budget}
use normeon_german_technical.Budget.Laws.{IsBudget, ensure_daily_budget-IsBudget}

-- Two questions today and one yesterday, under a limit of two, ten seconds before midnight.
ensure_daily_budget-IsBudget_example :
    IsBudget
      (some 2)
      172790000000
      172790000000
      (86400000005 ∷ 90000000000 ∷ 5 ∷ [])
      (ensure_daily_budget (some 2) 172790000000 172790000000 (86400000005 ∷ 90000000000 ∷ 5 ∷ []))
ensure_daily_budget-IsBudget_example =
    ensure_daily_budget-IsBudget (some 2) 172790000000 172790000000
      (86400000005 ∷ 90000000000 ∷ 5 ∷ [])
