-- ===== src/JobState/Twice.antt =====
-- A report of non-acceptance that comes again, by Webhook, response or query, changes nothing.
use ktb4_15th_ai.Prelude.{
  ℕ, ◌≡◌, refl, sym, subst, String, Bool, true, false, Option, none, some, List, [], ◌∷◌, arith,
  find, find-holds, amend, is_some, ==_refl, Bool-cases, inl, inr,
}
use ktb4_15th_ai.S3Key.{codes}
use ktb4_15th_ai.Texts.{is_code}
use ktb4_15th_ai.Payload.{ℤ, Result, ok, err}
use ktb4_15th_ai.Job.{Uuid, Time, Job, Attempt, NotAcceptedSource}
use ktb4_15th_ai.Store.{Db, Clock, checked, write, allowed, find_job, has_id, has_task, put_job}
use ktb4_15th_ai.JobState.Change.{find_task}
use ktb4_15th_ai.JobState.NotAccepted.{
  NotAcceptedChange, already_recorded, applied, Verdict, repeated, mismatched, contradicting, fresh,
  judge, judge_attempt, judge_started, judge_row, act_on, record_fresh, outcome_of, next_outcome,
  ensure_attempt, of_task, check_report, record_not_accepted, report_row, next_row, retry_time,
  mark_not_accepted,
}
use ktb4_15th_ai.History.Claims.{put_job-found}
use ktb4_15th_ai.JobState.Repeats.{record_not_accepted-repeated, report-task}

-- The tables hold the call of the task with its record of non-acceptance, as the change says.
pub record Repeatable (task : Uuid) (change : NotAcceptedChange) (after : Db) : Type 0 where
  pub row : Job
  pub attempt : Attempt
  pub started : Time
  pub job_is : change.job ≡ some row
  pub number_is : change.attempt_no ≡ some attempt.attempt_no
  pub row_found : find_task task after.jobs ≡ some row
  pub row_started : row.pruna_submit_started_at ≡ some started
  pub attempt_found : find (of_task task) after.attempts ≡ some attempt
  pub recorded : is_some attempt.not_accepted_at ≡ true

abbrev Repeats : Uuid → Result NotAcceptedChange × Db → Type 0
Repeats task (err e, after) = Unit
Repeats task (ok change, after) = applied change.outcome ≡ true → Repeatable task change after

find_task-replace :
    (task : Uuid) (row job : Job) (rows : List Job)
    → row.fitting_job_id ≡ job.fitting_job_id
    → has_task task row ≡ true
    → has_task task job ≡ true
    → find (has_task task) rows ≡ some job
    → find_job row.fitting_job_id rows ≡ some job
    → find (has_task task) (put_job row rows) ≡ some row
find_task-replace task row job [] same new old h k = cc
find_task-replace task row job (r ∷ rows) same new old h k = elim (Bool-cases (has_task task r)) [
  | inl named ↦
      let there : has_id row.fitting_job_id r ≡ true =
        ground (arith, h, named, same, ==_refl job.fitting_job_id) in
      rw there (rw new refl)
  | inr unnamed ↦ elim (Bool-cases (has_id row.fitting_job_id r)) [
    | inl there ↦
        let e : some r ≡ some job = ground (arith, k, there) in
        let bad : has_task task job ≡ false = ground (arith, e, unnamed) in cc
    | inr elsewhere ↦
        rw (elsewhere, unnamed)
          (find_task-replace task row job rows same new old (ground (arith, h, unnamed))
            (ground (arith, k, elsewhere)))
  ]
]

find-amend :
    (task : Uuid) (f : Attempt → Attempt) (rows : List Attempt) (a : Attempt)
    → ((b : Attempt) → (f b).task_uuid ≡ b.task_uuid)
    → find (of_task task) rows ≡ some a
    → find (of_task task) (amend (of_task task) f rows) ≡ some (f a)
find-amend task f [] a same h = cc
find-amend task f (b ∷ rows) a same h = ground (arith, h, same b, find-amend task f rows a same)

module _ (task : Uuid) (code : String) (source : NotAcceptedSource) (retry_after : Option ℕ)
    (unrepresentable : Bool) (before : Db) (c : Clock) (job : Job) (started : Time)
    (named : find (has_task task) before.jobs ≡ some job)
    (placed : find_job job.fitting_job_id before.jobs ≡ some job)
    (start : job.pruna_submit_started_at ≡ some started) where
  job_named : has_task task job ≡ true
  job_named = find-holds (has_task task) before.jobs named

  write-Repeats :
      (change : NotAcceptedChange) (row : Job) (a : Attempt) (db : Db)
      → db.jobs ≡ before.jobs
      → row.fitting_job_id ≡ job.fitting_job_id
      → row.task_uuid ≡ job.task_uuid
      → row.pruna_submit_started_at ≡ some started
      → change.job ≡ some row
      → change.attempt_no ≡ some a.attempt_no
      → find (of_task task) db.attempts ≡ some a
      → is_some a.not_accepted_at ≡ true
      → Repeats task (write before change row db)
  unfolding write
  write-Repeats change row a db kept id same row_start told number found recorded =
      elim (Bool-cases (allowed row db.jobs)) [
        | inr breaks ↦ rw breaks tt
        | inl fits ↦
            let row_named : has_task task row ≡ true = grind (arith, job_named, same) in
            let by_id : find_job row.fitting_job_id db.jobs ≡ some job = rw (kept, id) placed in
            let by_task : find (has_task task) db.jobs ≡ some job = rw kept named in
            let first =
              find_task-replace task row job db.jobs id row_named job_named by_task by_id in
            rw fits λ _. record {
              row = row;
              attempt = a;
              started = started;
              job_is = told;
              number_is = number;
              row_found = rw first (put_job-found row.fitting_job_id row job db.jobs refl by_id);
              row_started = row_start;
              attempt_found = found;
              recorded = recorded;
            }
      ]

  record_fresh-Repeats :
      (a : Attempt) (db : Db)
      → db.jobs ≡ before.jobs
      → find (of_task task) db.attempts ≡ some a
      → Repeats task (record_fresh task code source retry_after unrepresentable before job a c db)
  unfolding record_fresh
  record_fresh-Repeats a db kept found = elim (Bool-cases (is_code (codes code))) [
    | inr breaks ↦ rw breaks tt
    | inl fits ↦
        let retry_at = retry_time c a.attempt_no retry_after unrepresentable in
        let row = next_row retry_at a.attempt_no c.now job in
        let marked = mark_not_accepted code source retry_at a.attempt_no c.now in
        rw fits (
          write-Repeats
            (outcome_of (next_outcome retry_at a.attempt_no) (some row) (some a.attempt_no)) row
            (marked a) _ kept (ground arith) (ground arith) (grind (arith, start)) refl refl
            (find-amend task marked db.attempts a (λ b. refl) found) refl)
  ]

  act_on-Repeats :
      (v : Verdict) (a : Attempt) (db : Db)
      → db.jobs ≡ before.jobs
      → find (of_task task) db.attempts ≡ some a
      → Repeats task (act_on task code source retry_after unrepresentable before v job a c db)
  unfolding act_on
  act_on-Repeats repeated a db kept found = λ e. cc
  act_on-Repeats mismatched a db kept found = λ e. cc
  act_on-Repeats contradicting a db kept found = λ e. cc
  act_on-Repeats fresh a db kept found = record_fresh-Repeats a db kept found

  judge_attempt-Repeats :
      (a : Option Attempt) (db : Db)
      → db.jobs ≡ before.jobs
      → find (of_task task) db.attempts ≡ a
      → Repeats task (judge_attempt task code source retry_after unrepresentable before job a c db)
  unfolding judge_attempt
  judge_attempt-Repeats none db kept found = λ e. cc
  judge_attempt-Repeats (some a) db kept found = act_on-Repeats (judge job a) a db kept found

  judge_started-Repeats : Repeats task (
      judge_started task code source retry_after unrepresentable before job (some started) c before)
  unfolding judge_started
  judge_started-Repeats =
      let rows = ensure_attempt job.fitting_job_id task started before.attempts in
      judge_attempt-Repeats (find (of_task task) rows) (record before { attempts = rows }) refl refl

  judge_row-Repeats : Repeats task (
      judge_row task code source retry_after unrepresentable before
        (find_task task before.jobs)
        c
        before)
  unfolding judge_row
  judge_row-Repeats =
      rw (named, placed)
        (subst
          (λ o.
            Repeats task
              (judge_started task code source retry_after unrepresentable before job o c before))
          (sym start) judge_started-Repeats)

checked-Repeats :
    (task : Uuid) (code : String) (source : NotAcceptedSource) (unrepresentable : Bool) (c : Clock)
    (db : Db) (m : Result (Uuid × Option ℕ))
    → ((a : Uuid × Option ℕ) → m ≡ ok a → a.0 ≡ task)
    → ((wait : Option ℕ) → Repeats task (report_row code source unrepresentable (task, wait) c db))
    → Repeats task (checked m (report_row code source unrepresentable) c db)
checked-Repeats task code source unrepresentable c db (err e) h k = tt
checked-Repeats task code source unrepresentable c db (ok (u, wait)) h k =
    subst (λ t. Repeats task (report_row code source unrepresentable (t, wait) c db))
      (sym (h (u, wait) refl)) (k wait)

first_report :
    (task : Uuid) (db : Db) (job : Job) (started : Time) (code : String)
    (source : NotAcceptedSource) (wait : Option ℤ) (unrepresentable : Bool) (c : Clock)
    → find (has_task task) db.jobs ≡ some job
    → find_job job.fitting_job_id db.jobs ≡ some job
    → job.pruna_submit_started_at ≡ some started
    → Repeats task (record_not_accepted (some task) code source wait unrepresentable c db)
unfolding record_not_accepted
first_report task db job started code source wait unrepresentable c named placed start =
    checked-Repeats task code source unrepresentable c db (check_report (some task) code wait)
      (λ a h. report-task task code wait a h)
      λ wait.
        judge_row-Repeats task code source wait unrepresentable db c job started named placed start

-- A second report on the tables of `Repeatable` says that it is recorded, and leaves them.
Repeatable-again :
    (task : Uuid) (change : NotAcceptedChange) (after : Db) (code : String)
    (source : NotAcceptedSource) (wait : Option ℤ) (retry_after : Option ℕ) (unrepresentable : Bool)
    (c : Clock)
    → Repeatable task change after
    → check_report (some task) code wait ≡ ok (task, retry_after)
    → record_not_accepted (some task) code source wait unrepresentable c after
      ≡ (ok (record change { outcome = already_recorded }), after)
Repeatable-again task change after code source wait retry_after unrepresentable c r fits =
    rw (r.job_is, r.number_is)
      (record_not_accepted-repeated task code source wait retry_after unrepresentable c after r.row
        r.started r.attempt fits r.row_found r.row_started r.attempt_found r.recorded)

-- If a report of non-acceptance for the present call of a job is applied (the retry is scheduled or held back,
-- or the retries have ended), then a later report for the task that passes its checks, with any code,
-- source, wait and times, says that it is recorded, names the same job and attempt, and leaves all tables
-- as the first one left them: no time is computed again, no place freed again and no attempt counted twice.
pub record_not_accepted-twice :
    (task : Uuid) (db after : Db) (job : Job) (started : Time) (change : NotAcceptedChange)
    (code code' : String) (source source' : NotAcceptedSource) (wait wait' : Option ℤ)
    (retry_after : Option ℕ) (unrepresentable unrepresentable' : Bool) (c c' : Clock)
    → find (has_task task) db.jobs ≡ some job
    → find_job job.fitting_job_id db.jobs ≡ some job
    → job.pruna_submit_started_at ≡ some started
    → record_not_accepted (some task) code source wait unrepresentable c db ≡ (ok change, after)
    → applied change.outcome ≡ true
    → check_report (some task) code' wait' ≡ ok (task, retry_after)
    → record_not_accepted (some task) code' source' wait' unrepresentable' c' after
      ≡ (ok (record change { outcome = already_recorded }), after)
record_not_accepted-twice task db after job started change code code' source source' wait wait'
      retry_after unrepresentable unrepresentable' c c' named placed start first done fits =
    Repeatable-again task change after code' source' wait' retry_after unrepresentable' c'
      (subst (Repeats task) first
        (first_report task db job started code source wait unrepresentable c named placed start)
        done)
      fits
