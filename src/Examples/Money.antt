-- ===== src/Examples/Money.antt =====
-- The theorems on the money of a day, at a day on which the cost of a task is reported twice, and Runware
-- reports a total in between.
use ktb4_15th_ai.Prelude.{ℕ, ◌≡◌, Option, some, List, [], ◌∷◌, max}
use ktb4_15th_ai.Usage.{get, ensure_available, Budget, is_stale}
use ktb4_15th_ai.Usage.Totals.{
  Entry, paid, task_cost, total, enter_all, costs_on, greatest_on, no_usage, get-enter_all,
}
use ktb4_15th_ai.Usage.Limit.{Checked, ensure_available-Checked}

abbrev entries : List Entry
entries = paid 3 20 ∷ task_cost 99 7 15 3 ∷ total 3 30 1000 ∷ task_cost 99 7 15 3 ∷ paid 4 5 ∷ []

get-enter_all_example :
    (get 3 (enter_all entries no_usage)).amount
    ≡ max (costs_on 3 [] entries) (greatest_on 3 entries)
get-enter_all_example = get-enter_all 3 entries

abbrev day_budget : Budget
day_budget = record { daily_limit = 500; reconcile_interval = 60 }

abbrev spent : ℕ → Option ℕ
spent day = some 40

ensure_available-Checked_example :
    Checked day_budget
      (is_stale day_budget (get 3 (enter_all entries no_usage)).reconciled_at 2000)
      (spent 3)
      3
      (enter_all entries no_usage)
      (ensure_available day_budget spent 3 2000 2000 (enter_all entries no_usage))
ensure_available-Checked_example =
    ensure_available-Checked day_budget spent 3 2000 2000 (enter_all entries no_usage)
