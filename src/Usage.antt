-- ===== src/Usage.antt =====
-- The money of a day: `UsageRepository` of app/virtual_fitting/repositories/usage_repository.py,
-- `TaskCostRepository` of app/virtual_fitting/repositories/pruna_limiter.py and `FittingBudget` of
-- app/virtual_fitting/budget.py. An amount is a number of the smallest unit; a day is its number. What
-- Runware reports as spent is a parameter.
pub mod Totals
pub mod Limit
use ktb4_15th_ai.Prelude.{
  ℕ, ◌+◌, ◌-◌, ◌≤◌, Bool, true, false, not, Option, none, some, List, [], ◌∷◌, ◌++◌, ◌==◌, leb, max,
  any, find, if◌then◌else◌,
}
use ktb4_15th_ai.Payload.{Result, ok, err, bad_input, ◌>>=◌}
use ktb4_15th_ai.Job.{Uuid, Time}
use ktb4_15th_ai.JobState.Change.{check_job_id, check_uuid}

-- A row of usage_amount, and one of virtual_fitting_task_costs.
pub record DayRow : Type 0 where
  pub day : ℕ
  pub amount : ℕ
  pub legacy_amount : ℕ
  pub recorded_amount : ℕ
  pub reconciled_amount : ℕ
  pub reconciled_at : Option Time

pub record CostRow : Type 0 where
  pub task_uuid : Uuid
  pub fitting_job_id : ℕ
  pub cost : ℕ
  pub day : ℕ

pub record UsageDb : Type 0 where
  pub days : List DayRow
  pub costs : List CostRow

-- `INSERT ... ON CONFLICT (usage_date) DO UPDATE`.
abbrev pub upsert : DayRow → (DayRow → DayRow) → List DayRow → List DayRow
upsert new change [] = new ∷ []
upsert new change (r ∷ rows) =
    if r.day == new.day then change r ∷ rows else r ∷ upsert new change rows

abbrev pub added : ℕ → DayRow → DayRow
added cost r = record r {
  recorded_amount = r.recorded_amount + cost;
  amount = max r.amount (max (r.legacy_amount + r.recorded_amount + cost) r.reconciled_amount);
}

abbrev pub first_cost : ℕ → ℕ → DayRow
first_cost day cost = record {
  day = day;
  amount = cost;
  legacy_amount = 0;
  recorded_amount = cost;
  reconciled_amount = 0;
  reconciled_at = none;
}

-- `ADD_SQL`.
unfoldable pub add : ℕ → ℕ → UsageDb → UsageDb
add day cost db = record db { days = upsert (first_cost day cost) (added cost) db.days }

abbrev pub reconciled : ℕ → Time → DayRow → DayRow
reconciled total now r = record r {
  reconciled_amount = max r.reconciled_amount total;
  amount = max r.amount (max (r.legacy_amount + r.recorded_amount) (max r.reconciled_amount total));
  reconciled_at = some now;
}

abbrev pub first_total : ℕ → ℕ → Time → DayRow
first_total day total now = record {
  day = day;
  amount = total;
  legacy_amount = 0;
  recorded_amount = 0;
  reconciled_amount = total;
  reconciled_at = some now;
}

abbrev pub is_day : ℕ → DayRow → Bool
is_day day r = r.day == day

abbrev pub row_amount : Option DayRow → ℕ
row_amount none = 0
row_amount (some r) = r.amount

-- `RECONCILE_SQL`, which returns the amount of the row.
unfoldable pub reconcile : ℕ → ℕ → Time → UsageDb → ℕ × UsageDb
reconcile day total now db =
    let days = upsert (first_total day total now) (reconciled total now) db.days in
    (row_amount (find (is_day day) days), record db { days = days })

-- `EFFECTIVE_SQL`.
abbrev pub effective : DayRow → ℕ
effective r = max r.amount (max (r.legacy_amount + r.recorded_amount) r.reconciled_amount)

-- `DailyUsage`.
pub record DailyUsage : Type 0 where
  pub amount : ℕ
  pub reconciled_at : Option Time

abbrev pub usage_of : Option DayRow → DailyUsage
usage_of none = record { amount = 0; reconciled_at = none }
usage_of (some r) = record { amount = effective r; reconciled_at = r.reconciled_at }

-- `UsageRepository.get`.
unfoldable pub get : ℕ → UsageDb → DailyUsage
get day db = usage_of (find (is_day day) db.days)

-- `TaskCostRepository.record`, whose arguments are checked first.
unfoldable pub record_row : Uuid → ℕ → ℕ → ℕ → UsageDb → Bool × UsageDb
unfolding add
record_row task id cost day db = if any (λ r. r.task_uuid == task) db.costs then (false, db) else (
  true,
  add day cost (record db {
    costs =
        db.costs ++ record { task_uuid = task; fitting_job_id = id; cost = cost; day = day } ∷ [];
  }),
)

abbrev pub check_cost : Option Uuid → ℕ → Result (Uuid × ℕ)
check_cost task id = do task ← check_uuid task; id ← check_job_id id; ok (task, id)

abbrev pub reported : Bool × UsageDb → Result Bool × UsageDb
reported (new, db) = (ok new, db)

abbrev pub record_checked : ℕ → ℕ → UsageDb → Result (Uuid × ℕ) → Result Bool × UsageDb
record_checked cost day db (err e) = (err e, db)
record_checked cost day db (ok (task, id)) = reported (record_row task id cost day db)

unfoldable pub record_cost : Option Uuid → ℕ → ℕ → ℕ → UsageDb → Result Bool × UsageDb
unfolding record_row
record_cost task id cost day db = record_checked cost day db (check_cost task id)

-- The settings of `FittingBudget`; a time of Python's clock, and the day that it falls on.
pub record Budget : Type 0 where
  pub daily_limit : ℕ
  pub reconcile_interval : ℕ

-- `_is_stale`. The difference of two times may be negative, and then it is less than the interval.
abbrev pub is_stale : Budget → Option Time → Time → Bool
is_stale b none now = true
is_stale b (some at) now = leb (at + b.reconcile_interval) now

-- How `ensure_available` ends: it returns, or raises `FittingDailyBudgetExceededError`, or the lookup of
-- what Runware reports raises, and with it the call.
pub data Availability : Type 0 where
  available exceeded lookup_failed : Availability

abbrev pub decide : Budget → ℕ × UsageDb → Availability × UsageDb
decide b (amount, db) = (if leb b.daily_limit amount then exceeded else available, db)

abbrev pub looked_up : Budget → ℕ → Time → UsageDb → Option ℕ → Availability × UsageDb
looked_up b today db_now db none = (lookup_failed, db)
looked_up b today db_now db (some total) = decide b (reconcile today total db_now db)

-- `ensure_available`; `spend_on` is the lookup, `none` where it raises.
unfoldable pub ensure_available :
    Budget → (ℕ → Option ℕ) → ℕ → Time → Time → UsageDb → Availability × UsageDb
unfolding get reconcile
ensure_available b spend_on today now db_now db =
    let usage = get today db in
    if is_stale b usage.reconciled_at now
    then looked_up b today db_now db (spend_on today)
    else decide b (usage.amount, db)
