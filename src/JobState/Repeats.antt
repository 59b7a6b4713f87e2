-- ===== src/JobState/Repeats.antt =====
-- What a report of non-acceptance to `record_not_accepted` does.
use ktb4_15th_ai.Prelude.{
  ℕ, ◌≡◌, refl, sym, subst, String, Bool, true, false, not, Option, none, some, List, [], ◌∷◌,
  arith, All, find, any, amend, keep, is_some, Bool-cases, inl, inr,
}
use ktb4_15th_ai.S3Key.{codes}
use ktb4_15th_ai.Texts.{is_code}
use ktb4_15th_ai.Payload.{ℤ, Result, ok, err}
use ktb4_15th_ai.Job.{Uuid, Time, Job, Attempt, NotAcceptedSource}
use ktb4_15th_ai.Store.{Db, Clock, checked, write, allowed}
use ktb4_15th_ai.JobState.Change.{find_task}
use ktb4_15th_ai.JobState.NotAccepted.{
  NotAcceptedChange, already_recorded, applied, Verdict, repeated, mismatched, contradicting, fresh,
  judge, judge_attempt, judge_started, judge_row, act_on, record_fresh, outcome_of, next_outcome,
  past_job, ensure_attempt, of_task, check_report, record_not_accepted, report_row, next_row,
  retry_time, mark_not_accepted, holds_slot,
}

-- A task that an attempt has is in the table.
any-find :
    (p : Attempt → Bool) (rows : List Attempt) (a : Attempt)
    → find p rows ≡ some a
    → any p rows ≡ true
any-find p [] a h = cc
any-find p (b ∷ rows) a h = ground (arith, h, any-find p rows a)

ensure_attempt-found :
    (id : ℕ) (task : Uuid) (started : Time) (rows : List Attempt) (a : Attempt)
    → find (of_task task) rows ≡ some a
    → ensure_attempt id task started rows ≡ rows
ensure_attempt-found id task started rows a h =
    let there = any-find (of_task task) rows a h in ground (arith, there)

-- A further report on a call that is recorded.
pub record_not_accepted-repeated :
    (task : Uuid) (code : String) (source : NotAcceptedSource) (wait : Option ℤ)
    (retry_after : Option ℕ) (unrepresentable : Bool) (c : Clock) (db : Db) (job : Job)
    (started : Time) (a : Attempt)
    → check_report (some task) code wait ≡ ok (task, retry_after)
    → find_task task db.jobs ≡ some job
    → job.pruna_submit_started_at ≡ some started
    → find (of_task task) db.attempts ≡ some a
    → is_some a.not_accepted_at ≡ true
    → record_not_accepted (some task) code source wait unrepresentable c db ≡ (
      ok (record { outcome = already_recorded; job = some job; attempt_no = some a.attempt_no }),
      db,
    )
unfolding record_not_accepted judge_row judge_started judge_attempt judge act_on
record_not_accepted-repeated task code source wait retry_after unrepresentable c db job started a
      fits row start attempt recorded =
    rw
      (
        fits,
        row,
        start,
        ensure_attempt-found job.fitting_job_id task started db.attempts a attempt,
        attempt,
        recorded,
      )
      refl

any-keep : {A : Type 0} (p : A → Bool) (xs : List A) → any p (keep (λ x. not (p x)) xs) ≡ false
any-keep p [] = refl
any-keep p (x ∷ xs) = ground (arith, any-keep p xs)

-- The attempts with the task have their non-acceptance recorded.
abbrev pub Recorded : Uuid → List Attempt → Type 0
Recorded task rows = All (λ a. of_task task a ≡ true → is_some a.not_accepted_at ≡ true) rows

amend-Recorded :
    (task : Uuid) (code : String) (source : NotAcceptedSource) (retry_at : Option Time) (n : ℕ)
    (now : Time) (rows : List Attempt)
    → Recorded task (amend (of_task task) (mark_not_accepted code source retry_at n now) rows)
amend-Recorded task code source retry_at n now [] = tt
amend-Recorded task code source retry_at n now (a ∷ rows) =
    (ground arith, amend-Recorded task code source retry_at n now rows)

-- What a report that was applied has done: the place of the job's call is free, and the call has its
-- record.
abbrev pub Effects : Uuid → Result NotAcceptedChange × Db → Type 0
Effects task (err e, after) = Unit
Effects task (ok change, after) =
    applied change.outcome ≡ true
    → (r : Job) → change.job ≡ some r
    → (any (holds_slot r.fitting_job_id task) after.in_flight ≡ false)
      × Recorded task after.attempts

module _ (task : Uuid) (code : String) (source : NotAcceptedSource) (retry_after : Option ℕ)
    (unrepresentable : Bool) (before : Db) (c : Clock) where
  next_row-id :
      (retry_at : Option Time) (n : ℕ) (job : Job)
      → (next_row retry_at n c.now job).fitting_job_id ≡ job.fitting_job_id
  next_row-id retry_at n job = ground arith

  write-Effects :
      (change : NotAcceptedChange) (row : Job) (db : Db)
      → change.job ≡ some row
      → any (holds_slot row.fitting_job_id task) db.in_flight ≡ false
      → Recorded task db.attempts
      → Effects task (write before change row db)
  unfolding write
  write-Effects change row db same free recorded = elim (Bool-cases (allowed row db.jobs)) [
    | inl fits ↦ rw fits λ _ r e. (ground (arith, same, e, free), recorded)
    | inr breaks ↦ rw breaks tt
  ]

  record_fresh-Effects :
      (job : Job) (a : Attempt) (db : Db)
      → Effects task (record_fresh task code source retry_after unrepresentable before job a c db)
  unfolding record_fresh
  record_fresh-Effects job a db = elim (Bool-cases (is_code (codes code))) [
    | inl fits ↦
        let retry_at = retry_time c a.attempt_no retry_after unrepresentable in
        let row = next_row retry_at a.attempt_no c.now job in
        rw fits (
          write-Effects
            (outcome_of (next_outcome retry_at a.attempt_no) (some row) (some a.attempt_no)) row _
            refl
            (subst
              (λ id.
                any (holds_slot id task)
                  (keep (λ f. not (holds_slot job.fitting_job_id task f)) db.in_flight)
                ≡ false)
              (sym (next_row-id retry_at a.attempt_no job))
              (any-keep (holds_slot job.fitting_job_id task) db.in_flight))
            (amend-Recorded task code source retry_at a.attempt_no c.now db.attempts))
    | inr breaks ↦ rw breaks tt
  ]

  act_on-Effects :
      (v : Verdict) (job : Job) (a : Attempt) (db : Db)
      → Effects task (act_on task code source retry_after unrepresentable before v job a c db)
  unfolding act_on
  act_on-Effects repeated job a db = λ e. cc
  act_on-Effects mismatched job a db = λ e. cc
  act_on-Effects contradicting job a db = λ e. cc
  act_on-Effects fresh job a db = record_fresh-Effects job a db

  judge_attempt-Effects :
      (job : Job) (a : Option Attempt) (db : Db)
      → Effects task (judge_attempt task code source retry_after unrepresentable before job a c db)
  unfolding judge_attempt
  judge_attempt-Effects job none db = λ e. cc
  judge_attempt-Effects job (some a) db = act_on-Effects (judge job a) job a db

  judge_started-Effects :
      (job : Job) (started : Option Time)
      → Effects task
          (judge_started task code source retry_after unrepresentable before job started c before)
  unfolding judge_started
  judge_started-Effects job none = λ e. cc
  judge_started-Effects job (some started) =
      judge_attempt-Effects job
        (find (of_task task) (ensure_attempt job.fitting_job_id task started before.attempts)) _

  past-Effects : (a : Option Attempt) → Effects task (ok (past_job a before.jobs), before)
  unfolding past_job
  past-Effects none = λ e. cc
  past-Effects (some a) = λ e. cc

  judge_row-Effects :
      (job : Option Job)
      → Effects task (judge_row task code source retry_after unrepresentable before job c before)
  unfolding judge_row past_job
  judge_row-Effects none = past-Effects (find (of_task task) before.attempts)
  judge_row-Effects (some job) = judge_started-Effects job job.pruna_submit_started_at

pub report-task :
    (task : Uuid) (code : String) (wait : Option ℤ) (a : Uuid × Option ℕ)
    → check_report (some task) code wait ≡ ok a
    → a.0 ≡ task
report-task task code wait a h = ground (arith, h)

checked-Effects :
    (task : Uuid) (code : String) (source : NotAcceptedSource) (unrepresentable : Bool) (c : Clock)
    (db : Db) (m : Result (Uuid × Option ℕ))
    → ((a : Uuid × Option ℕ) → m ≡ ok a → a.0 ≡ task)
    → Effects task (checked m (report_row code source unrepresentable) c db)
checked-Effects task code source unrepresentable c db (err e) h = tt
checked-Effects task code source unrepresentable c db (ok (u, wait)) h =
    subst (λ t. Effects t (report_row code source unrepresentable (u, wait) c db))
      (h (u, wait) refl)
      (judge_row-Effects u code source wait unrepresentable db c (find_task u db.jobs))

-- If a report of non-acceptance returns, and reports a retry that is scheduled or held back, or the end
-- of the retries, then the place of the job's call is free, and each attempt with its task has a record
-- of non-acceptance.
pub record_not_accepted-Effects :
    (task : Uuid) (code : String) (source : NotAcceptedSource) (wait : Option ℤ)
    (unrepresentable : Bool) (c : Clock) (db : Db) (change : NotAcceptedChange) (after : Db)
    (r : Job)
    → record_not_accepted (some task) code source wait unrepresentable c db ≡ (ok change, after)
    → applied change.outcome ≡ true
    → change.job ≡ some r
    → (any (holds_slot r.fitting_job_id task) after.in_flight ≡ false)
      × Recorded task after.attempts
unfolding record_not_accepted
record_not_accepted-Effects task code source wait unrepresentable c db change after r e done same =
    subst (Effects task) e
      (checked-Effects task code source unrepresentable c db (check_report (some task) code wait)
        (λ a h. report-task task code wait a h))
      done r same
