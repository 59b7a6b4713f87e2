-- ===== src/Store.antt =====
-- The tables of the AI PostgreSQL, and a repository method as one transaction on them. Transactions
-- that touch a row are made one after another, since each locks the row first.
use ktb4_15th_ai.Prelude.{
  ℕ, String, Bool, true, false, not, ◌&&◌, ◌||◌, Option, none, some, List, ◌==◌, find, any, replace,
  is_none, is_some, is_number, if◌then◌else◌,
}
use ktb4_15th_ai.Payload.{Result, ok, err, database}
use ktb4_15th_ai.S3Key.{codes}
use ktb4_15th_ai.Texts.{is_code}
use ktb4_15th_ai.Job.{Uuid, Time, Job, Attempt}

-- The one row of virtual_fitting_pruna_limiter.
pub record LimiterRow : Type 0 where
  pub next_send_at : Time
  pub send_hold_reason : Option String
  pub send_hold_at : Option Time

pub record InFlight : Type 0 where
  pub fitting_job_id : ℕ
  pub task_uuid : Uuid
  pub acquired_at : Time

pub record Send : Type 0 where
  pub fitting_job_id : ℕ
  pub held_until : Time

pub record Db : Type 0 where
  pub jobs : List Job
  pub attempts : List Attempt
  pub limiter : Option LimiterRow
  pub in_flight : List InFlight
  pub sends : List Send

-- `statement_timestamp()` in the statements of one transaction: the one that locks the job's row,
-- the one that changes it, and the one that reads it again; and whether PostgreSQL can represent the
-- time that lies a delay after another.
pub record Clock : Type 0 where
  pub lock : Time
  pub now : Time
  pub later : Time
  pub fits : Time → ℕ → Bool

-- A method call: what it returns or raises, and the tables after it.
abbrev pub Op : Type 0 → Type 0
Op A = Clock → Db → Result A × Db

-- Checks of arguments, made before the database is used.
abbrev pub checked : {A B : Type 0} → Result A → (A → Op B) → Op B
checked (ok a) f c db = f a c db
checked (err e) f c db = (err e, db)

abbrev pub has_id : ℕ → Job → Bool
has_id id r = r.fitting_job_id == id

abbrev pub has_task : Uuid → Job → Bool
has_task task r = is_number r.task_uuid task

-- `SELECT ... WHERE fitting_job_id = id`: the primary key, so at most one row.
abbrev pub find_job : ℕ → List Job → Option Job
find_job id rows = find (has_id id) rows

-- `x = y` for two columns, not met by a NULL.
abbrev same_uuid : Option Uuid → Option Uuid → Bool
same_uuid (some a) b = is_number b a
same_uuid none b = false

abbrev hold_allowed : Option String → Bool
hold_allowed none = true
hold_allowed (some reason) = is_code (codes reason)

-- The constraints of the table on a row to be written: its task_uuid and fallback_task_uuid are in
-- no other row, a scheduled retry has a record of non-acceptance, and the reason of a hold is a code.
unfoldable pub allowed : Job → List Job → Bool
unfolding is_code
allowed row rows =
    not (
      any
        (λ r.
          not (r.fitting_job_id == row.fitting_job_id)
          && (same_uuid r.task_uuid row.task_uuid
              || same_uuid r.fallback_task_uuid row.fallback_task_uuid))
        rows)
    && (is_none row.pruna_retry_at || is_some row.pruna_not_accepted_at)
    && hold_allowed row.auth_hold_reason

-- `UPDATE` of the row with the id of `row`.
abbrev pub put_job : Job → List Job → List Job
put_job row rows = replace (has_id row.fitting_job_id) row rows

-- An `UPDATE` that breaks a constraint rolls the whole transaction back, to `before`.
unfoldable pub write : {A : Type 0} → Db → A → Job → Db → Result A × Db
unfolding allowed
write before a row db =
    if allowed row db.jobs
    then (ok a, record db { jobs = put_job row db.jobs })
    else (err database, before)
