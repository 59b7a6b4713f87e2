-- ===== src/Submitter/Grants.antt =====
-- A call that the limiter grants is recorded, in the row of the job and as an attempt, before it is made.
use ktb4_15th_ai.Prelude.{
  ℕ, ◌+◌, ◌≡◌, refl, String, true, false, ◌&&◌, Option, none, some, List, [], ◌∷◌, ◌++◌, arith,
  subst, sym, ap, is_number, ==→eq, ==_refl, any, is_some, Bool-cases, inl, inr,
}
use ktb4_15th_ai.Payload.{Result, ok, err}
use ktb4_15th_ai.Job.{Uuid, Time, Job, Attempt}
use ktb4_15th_ai.Store.{Db, Clock, Op, LimiterRow, checked, find_job, has_task, allowed, write}
use ktb4_15th_ai.Payload.{◌>>◌}
use ktb4_15th_ai.JobState.Change.{check_job_id, check_uuid, lease_valid}
use ktb4_15th_ai.JobState.Submission.{awaits_submission}
use ktb4_15th_ai.JobState.NotAccepted.{of_job, of_task, new_attempt}
use ktb4_15th_ai.Limiter.Slot.{
  Limits, SubmissionGrant, refusal, wait_refusal, grant, Slot, refused, taken, clash, take_slot,
}
use ktb4_15th_ai.Limiter.Slot
use ktb4_15th_ai.Limiter.Begin.{
  attempt_fits, write_attempt, limited, with_limiter, located, with_job, mark_sent, first_taken,
  submit_locked, begin_submission, mark_resent, last_attempt, retry_taken, check_uuids,
  retry_locked, begin_retry_submission, time_left,
}
use ktb4_15th_ai.Rules.Rows.{find_job-id}
use ktb4_15th_ai.Rules.Calls.{SameJobs, take_slot-SameJobs}
use ktb4_15th_ai.History.Claims.{put_job-found}
use ktb4_15th_ai.History.Fallbacks.{Refuses, take_slot-Refuses}

-- The start of a call for the job with the task is recorded.
pub record Recorded (id : ℕ) (task : Uuid) (db : Db) : Type 0 where
  pub row : Job
  pub found : find_job id db.jobs ≡ some row
  pub current : row.task_uuid ≡ some task
  pub started : is_some row.pruna_submit_started_at ≡ true
  pub attempt : any (λ a. of_job id a && of_task task a) db.attempts ≡ true

-- A grant has recorded the call.
abbrev pub Records : ℕ → Uuid → Result SubmissionGrant × Db → Type 0
Records id task (ok g, db) = g.granted ≡ true → Recorded id task db
Records id task (err e, db) = Unit

any-last :
    (id : ℕ) (task : Uuid) (n : ℕ) (now : Time) (rows : List Attempt)
    → any (λ a. of_job id a && of_task task a) (rows ++ new_attempt id n task now ∷ []) ≡ true
any-last id task n now [] = ground (arith, ==_refl id, ==_refl task)
any-last id task n now (a ∷ rows) = ground (arith, any-last id task n now rows)

module _ (id : ℕ) (task : Uuid) (before : Db) (job : Job)
    (e : find_job id before.jobs ≡ some job) where
  write_attempt-Records :
      (g : SubmissionGrant) (row : Job) (n : ℕ) (now : Time) (db : Db)
      → row.fitting_job_id ≡ id
      → row.task_uuid ≡ some task
      → is_some row.pruna_submit_started_at ≡ true
      → db.jobs ≡ before.jobs
      → Records id task (write_attempt before g row (new_attempt id n task now) db)
  unfolding write_attempt write
  write_attempt-Records g row n now db same current started kept =
      elim (Bool-cases (attempt_fits (new_attempt id n task now) db.attempts)) [
        | inr breaks ↦ rw breaks tt
        | inl fits ↦ elim (Bool-cases (allowed row db.jobs)) [
          | inr breaks ↦ rw (fits, breaks) tt
          | inl permitted ↦
              let put = put_job-found id row job db.jobs same (rw kept e) in
              rw (fits, permitted)
                λ _. record {
                  row = row;
                  found = put;
                  current = current;
                  started = started;
                  attempt = any-last id task n now db.attempts;
                }
        ]
      ]

  first_taken-Records :
      (now : Time) (s : Slot)
      → job.task_uuid ≡ some task
      → SameJobs before s
      → Refuses s
      → Records id task (first_taken id task now before job s)
  first_taken-Records now (refused g db) current same none_granted = λ h. cc
  first_taken-Records now clash current same none_granted = tt
  first_taken-Records now (taken db) current same none_granted =
      write_attempt-Records (grant now) (mark_sent now job) 1 now db (find_job-id id before.jobs e)
        current refl same

  retry_taken-Records :
      (now : Time) (s : Slot)
      → SameJobs before s
      → Refuses s
      → Records id task (retry_taken id task now before job s)
  retry_taken-Records now (refused g db) same none_granted = λ h. cc
  retry_taken-Records now clash same none_granted = tt
  retry_taken-Records now (taken db) same none_granted =
      write_attempt-Records (grant now) (mark_resent task now job)
        (last_attempt id before.attempts + 1) now db (find_job-id id before.jobs e) refl refl same

has_task-eq : (task : Uuid) (o : Option Uuid) → is_number o task ≡ true → o ≡ some task
has_task-eq task none h = cc
has_task-eq task (some u) h = ap some (==→eq u task h)

module _ (l : Limits) (id : ℕ) (token : String) (task : Uuid) (row : LimiterRow) (c : Clock)
    (db : Db) (job : Job) (e : find_job id db.jobs ≡ some job) where
  submit_locked-Records : Records id task (submit_locked l id token task row job c db)
  unfolding submit_locked
  submit_locked-Records = elim (Bool-cases (lease_valid token c.now job)) [
    | inr lost ↦ rw lost λ h. cc
    | inl held ↦ elim (Bool-cases (is_some job.pruna_submit_started_at)) [
      | inl before ↦ rw (held, before) λ h. cc
      | inr fresh ↦ elim (Bool-cases (awaits_submission job)) [
        | inr past ↦ rw (held, fresh, past) λ h. cc
        | inl awaits ↦ elim (Bool-cases (has_task task job)) [
          | inr other ↦ rw (held, fresh, awaits, other) λ h. cc
          | inl same ↦
              rw (held, fresh, awaits, same)
                (first_taken-Records id task db job e c.now (take_slot l id task c.now row db)
                  (has_task-eq task job.task_uuid same) (take_slot-SameJobs l id task c.now row db)
                  (take_slot-Refuses l id task c.now row db))
        ]
      ]
    ]
  ]

  retry_locked-holds :
      (previous : Uuid) (P : Result SubmissionGrant × Db → Type 0)
      → ((g : SubmissionGrant) → g.granted ≡ false → P (ok g, db))
      → P (retry_taken id task c.now db job (take_slot l id task c.now row db))
      → P (retry_locked l id token previous task row job c db)
  unfolding retry_locked
  retry_locked-holds previous P refuses starts = ground (
    arith,
    refuses (refusal Slot.lease_invalid) refl,
    refuses (refusal Slot.state_mismatch) refl,
    refuses (refusal Slot.retry_limit_reached) refl,
    refuses (wait_refusal Slot.retry_wait (time_left job.pruna_retry_at c.lock)) refl,
    refuses (refusal Slot.other_attempt_in_flight) refl,
    starts,
  )

  retry_locked-Records :
      (previous : Uuid) → Records id task (retry_locked l id token previous task row job c db)
  retry_locked-Records previous =
      retry_locked-holds previous (Records id task)
        (λ g not_granted h. ground (arith, h, not_granted))
        (retry_taken-Records id task db job e c.now (take_slot l id task c.now row db)
          (take_slot-SameJobs l id task c.now row db) (take_slot-Refuses l id task c.now row db))

module _ (id : ℕ) (task : Uuid) (f : LimiterRow → Job → Op SubmissionGrant)
    (records : (row : LimiterRow) (job : Job) (c : Clock) (db : Db)
      → find_job id db.jobs ≡ some job
      → Records id task (f row job c db)) where
  located-Records :
      (row : LimiterRow) (job : Option Job) (c : Clock) (db : Db)
      → find_job id db.jobs ≡ job
      → Records id task (located (f row) job c db)
  located-Records row none c db e = λ h. cc
  located-Records row (some job) c db e = records row job c db e

  limited-Records :
      (row : Option LimiterRow) (c : Clock) (db : Db)
      → Records id task (limited (λ row. with_job id (f row)) row c db)
  limited-Records none c db = tt
  limited-Records (some row) c db = located-Records row (find_job id db.jobs) c db refl

-- The call for which a task is given.
abbrev pub RecordedFor : ℕ → Option Uuid → Db → Type 0
RecordedFor id none db = ⊥
RecordedFor id (some task) db = Recorded id task db

abbrev pub RecordsFor : ℕ → Option Uuid → Result SubmissionGrant × Db → Type 0
RecordsFor id task (ok g, db) = g.granted ≡ true → RecordedFor id task db
RecordsFor id task (err e, db) = Unit

Records-For :
    (id : ℕ) (task : Uuid) (x : Result SubmissionGrant × Db)
    → Records id task x
    → RecordsFor id (some task) x
Records-For id task (ok g, db) h = h
Records-For id task (err e, db) h = h

checked-RecordsFor :
    {A : Type 0} (id : ℕ) (task : Option Uuid) (m : Result A) (f : A → Op SubmissionGrant)
    (c : Clock) (db : Db)
    → ((a : A) → m ≡ ok a → RecordsFor id task (f a c db))
    → RecordsFor id task (checked m f c db)
checked-RecordsFor id task (ok a) f c db h = h a refl
checked-RecordsFor id task (err e) f c db h = tt

checked_second :
    (id : ℕ) (previous : Option Uuid) (retry : Uuid) (tasks : Uuid × Uuid)
    → (do check_job_id id; check_uuids previous (some retry)) ≡ ok tasks
    → tasks.1 ≡ retry
checked_second id none retry tasks h = ground (arith, h)
checked_second id (some u) retry tasks h = ground (arith, h)

module _ (l : Limits) (id : ℕ) (token : String) (c : Clock) (db : Db) where
  pub begin_submission-Records :
      (task : Option Uuid) → RecordsFor id task (begin_submission l id token task c db)
  unfolding begin_submission
  begin_submission-Records none =
      checked-RecordsFor id none (do check_job_id id; check_uuid none) _ c db
        λ a h. ground (arith, h)
  begin_submission-Records (some task) =
      checked-RecordsFor id (some task) (do check_job_id id; check_uuid (some task))
        (λ task. with_limiter λ row. with_job id (submit_locked l id token task row)) c db
        λ u h.
          let same : u ≡ task = ground (arith, h) in
          Records-For id task _ (
            subst
              (λ v.
                Records id task
                  (limited (λ row. with_job id (submit_locked l id token v row)) db.limiter c db))
              (sym same)
              (limited-Records id task (submit_locked l id token task)
                (λ row job c db e. submit_locked-Records l id token task row c db job e) db.limiter
                c db))

  pub begin_retry_submission-Records :
      (previous : Option Uuid) (retry : Uuid)
      → RecordsFor id (some retry) (begin_retry_submission l id token previous (some retry) c db)
  unfolding begin_retry_submission
  begin_retry_submission-Records previous retry =
      checked-RecordsFor id (some retry) (do check_job_id id; check_uuids previous (some retry))
        (λ tasks. with_limiter λ row. with_job id (retry_locked l id token tasks.0 tasks.1 row)) c
        db
        λ tasks h.
          let same : tasks.1 ≡ retry = checked_second id previous retry tasks h in
          Records-For id retry _ (
            subst
              (λ v. Records id retry (
                limited (λ row. with_job id (retry_locked l id token tasks.0 v row)) db.limiter c
                  db))
              (sym same)
              (limited-Records id retry (retry_locked l id token tasks.0 retry)
                (λ row job c db e. retry_locked-Records l id token retry row c db job e tasks.0)
                db.limiter c db))
