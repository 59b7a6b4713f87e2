-- ===== src/Rules/Calls.antt =====
-- The starts of calls, and their cancellation, keep the rules of the row.
use ktb4_15th_ai.Prelude.{
  ℕ, String, ◌≡◌, refl, true, false, not, ◌||◌, Option, some, none, arith, inl, inr, Bool-cases,
  All, is_some, is_number, find-All, leb,
}
use ktb4_15th_ai.Payload.{◌>>◌}
use ktb4_15th_ai.Job.{Uuid, Time, Job, Attempt}
use ktb4_15th_ai.Store.{Db, Clock, LimiterRow, Op, find_job, has_id, has_task}
use ktb4_15th_ai.JobState.Change.{check_job_id, check_uuid, fallback_limit}
use ktb4_15th_ai.JobState.Submission.{awaits_submission}
use ktb4_15th_ai.JobState.Postprocess.{runs_fallback}
use ktb4_15th_ai.Limiter.Slot.{Limits, SubmissionGrant, Slot, refused, taken, clash, take_slot}
use ktb4_15th_ai.Limiter.Begin.{
  write_attempt, attempt_fits, mark_sent, first_taken, submit_locked, begin_submission, mark_resent,
  awaits_retry, retry_taken, retry_locked, begin_retry_submission, mark_fallback_sent,
  fallback_taken, fallback_locked, begin_fallback, with_limiter, limited, with_job, located,
  check_uuids,
}
use ktb4_15th_ai.Rules.{IsValid, Evolves}
use ktb4_15th_ai.Rules.Rows.{Advances, Advances-refl, write-Advances, Lawful, checked-Lawful}

-- However `_take_slot` ends, the jobs are as they were.
abbrev pub SameJobs : Db → Slot → Type 0
SameJobs before (refused g db) = db.jobs ≡ before.jobs
SameJobs before (taken db) = db.jobs ≡ before.jobs
SameJobs before clash = Unit

pub take_slot-SameJobs :
    (l : Limits) (id : ℕ) (task : Uuid) (now : Time) (row : LimiterRow) (db : Db)
    → SameJobs db (take_slot l id task now row db)
unfolding take_slot
take_slot-SameJobs l id task now row db = ground arith

mark_sent-Sound :
    (task : Uuid) (now : Time) (r : Job)
    → IsValid r
    → is_some r.pruna_submit_started_at ≡ false
    → (not (awaits_submission r) || not (has_task task r)) ≡ false
    → IsValid (mark_sent now r) × Evolves r (mark_sent now r)
mark_sent-Sound task now r v h k = (ground arith, ground arith)

mark_resent-Sound :
    (previous task : Uuid) (now : Time) (r : Job)
    → IsValid r
    → awaits_retry previous r ≡ true
    → IsValid (mark_resent task now r) × Evolves r (mark_resent task now r)
mark_resent-Sound previous task now r v h = (ground arith, ground arith)

mark_fallback_sent-Sound :
    (task : Uuid) (now : Time) (r : Job)
    → IsValid r
    → is_some r.fallback_started_at ≡ false
    → leb fallback_limit r.fallback_attempt_count ≡ false
    → (not (runs_fallback r)
        || is_some r.result_payload
        || not (is_number r.fallback_task_uuid task))
      ≡ false
    → IsValid (mark_fallback_sent now r) × Evolves r (mark_fallback_sent now r)
mark_fallback_sent-Sound task now r v h k g = (ground arith, ground arith)

write_attempt-Advances :
    (id : ℕ) (g : SubmissionGrant) (r s : Job) (a : Attempt) (before db : Db)
    → find_job id before.jobs ≡ some r
    → db.jobs ≡ before.jobs
    → All IsValid before.jobs
    → IsValid s × Evolves r s
    → Advances before.jobs (write_attempt before g s a db).1.jobs
unfolding write_attempt
write_attempt-Advances id g r s a before db e same v (sound, step) =
    elim (Bool-cases (attempt_fits a db.attempts)) [
      | inl fits ↦
          rw fits (write-Advances id g r s before _ (rw same e) same (rw same v) sound step)
      | inr breaks ↦ rw breaks (Advances-refl before.jobs v)
    ]

module _ (id : ℕ) (before : Db) (r : Job) (e : find_job id before.jobs ≡ some r)
    (v : All IsValid before.jobs) where
  first_taken-Advances :
      (task : Uuid) (now : Time) (s : Slot)
      → SameJobs before s
      → IsValid (mark_sent now r) × Evolves r (mark_sent now r)
      → Advances before.jobs (first_taken id task now before r s).1.jobs
  first_taken-Advances task now (refused g db) same sound = rw same (Advances-refl before.jobs v)
  first_taken-Advances task now clash same sound = Advances-refl before.jobs v
  first_taken-Advances task now (taken db) same sound =
      write_attempt-Advances id _ r _ _ before db e same v sound

  retry_taken-Advances :
      (task : Uuid) (now : Time) (s : Slot)
      → SameJobs before s
      → IsValid (mark_resent task now r) × Evolves r (mark_resent task now r)
      → Advances before.jobs (retry_taken id task now before r s).1.jobs
  retry_taken-Advances task now (refused g db) same sound = rw same (Advances-refl before.jobs v)
  retry_taken-Advances task now clash same sound = Advances-refl before.jobs v
  retry_taken-Advances task now (taken db) same sound =
      write_attempt-Advances id _ r _ _ before db e same v sound

  fallback_taken-Advances :
      (now : Time) (s : Slot)
      → SameJobs before s
      → IsValid (mark_fallback_sent now r) × Evolves r (mark_fallback_sent now r)
      → Advances before.jobs (fallback_taken now before r s).1.jobs
  fallback_taken-Advances now (refused g db) same sound = rw same (Advances-refl before.jobs v)
  fallback_taken-Advances now clash same sound = Advances-refl before.jobs v
  fallback_taken-Advances now (taken db) same (sound, step) =
      write-Advances id _ r _ before db (rw same e) same (rw same v) sound step

  submit_locked-Advances :
      (l : Limits) (token : String) (task : Uuid) (row : LimiterRow) (c : Clock)
      → IsValid r
      → Advances before.jobs (submit_locked l id token task row r c before).1.jobs
  unfolding submit_locked
  submit_locked-Advances l token task row c valid = ground (
    arith,
    Advances-refl before.jobs v,
    mark_sent-Sound task c.now r valid,
    take_slot-SameJobs l id task c.now row before,
    first_taken-Advances task c.now (take_slot l id task c.now row before),
  )

  retry_locked-Advances :
      (l : Limits) (token : String) (previous task : Uuid) (row : LimiterRow) (c : Clock)
      → IsValid r
      → Advances before.jobs (retry_locked l id token previous task row r c before).1.jobs
  unfolding retry_locked
  retry_locked-Advances l token previous task row c valid = ground (
    arith,
    Advances-refl before.jobs v,
    mark_resent-Sound previous task c.now r valid,
    take_slot-SameJobs l id task c.now row before,
    retry_taken-Advances task c.now (take_slot l id task c.now row before),
  )

  fallback_locked-Advances :
      (l : Limits) (token : String) (task : Uuid) (row : LimiterRow) (c : Clock)
      → IsValid r
      → Advances before.jobs (fallback_locked l id token task row r c before).1.jobs
  unfolding fallback_locked
  fallback_locked-Advances l token task row c valid = ground (
    arith,
    Advances-refl before.jobs v,
    mark_fallback_sent-Sound task c.now r valid,
    take_slot-SameJobs l id task c.now row before,
    fallback_taken-Advances c.now (take_slot l id task c.now row before),
  )

module _ (id : ℕ) (f : LimiterRow → Job → Op SubmissionGrant)
    (h : (row : LimiterRow) (c : Clock) (db : Db) (r : Job)
      → find_job id db.jobs ≡ some r
      → All IsValid db.jobs
      → IsValid r
      → Advances db.jobs (f row r c db).1.jobs) where
  located-Advances :
      (row : LimiterRow) (r : Option Job) (c : Clock) (db : Db)
      → find_job id db.jobs ≡ r
      → All IsValid db.jobs
      → Advances db.jobs (located (f row) r c db).1.jobs
  located-Advances row none c db e v = Advances-refl db.jobs v
  located-Advances row (some r) c db e v =
      h row c db r e v (find-All IsValid (has_id id) db.jobs v e)

  limited-Advances :
      (row : Option LimiterRow) (c : Clock) (db : Db)
      → All IsValid db.jobs
      → Advances db.jobs (limited (λ row. with_job id (f row)) row c db).1.jobs
  limited-Advances none c db v = Advances-refl db.jobs v
  limited-Advances (some row) c db v = located-Advances row (find_job id db.jobs) c db refl v

  -- A method that locks the limiter's row and the job's row first.
  locked-Lawful : Lawful (with_limiter λ row. with_job id (f row))
  locked-Lawful = record { at = λ c db v. limited-Advances db.limiter c db v }

module _ (l : Limits) (id : ℕ) (token : String) where
  pub begin_submission-Lawful : (task : Option Uuid) → Lawful (begin_submission l id token task)
  unfolding begin_submission
  begin_submission-Lawful task =
      checked-Lawful (do check_job_id id; check_uuid task)
        (λ task. with_limiter λ row. with_job id (submit_locked l id token task row))
        λ task _.
          locked-Lawful id (submit_locked l id token task)
            λ row c db r e v valid. submit_locked-Advances id db r e v l token task row c valid

  pub begin_retry_submission-Lawful :
      (previous task : Option Uuid) → Lawful (begin_retry_submission l id token previous task)
  unfolding begin_retry_submission
  begin_retry_submission-Lawful previous task =
      checked-Lawful (do check_job_id id; check_uuids previous task)
        (λ tasks. with_limiter λ row. with_job id (retry_locked l id token tasks.0 tasks.1 row))
        λ tasks _.
          locked-Lawful id (retry_locked l id token tasks.0 tasks.1) λ row c db r e v valid.
            retry_locked-Advances id db r e v l token tasks.0 tasks.1 row c valid

  pub begin_fallback-Lawful : (task : Option Uuid) → Lawful (begin_fallback l id token task)
  unfolding begin_fallback
  begin_fallback-Lawful task =
      checked-Lawful (do check_job_id id; check_uuid task)
        (λ task. with_limiter λ row. with_job id (fallback_locked l id token task row))
        λ task _.
          locked-Lawful id (fallback_locked l id token task)
            λ row c db r e v valid. fallback_locked-Advances id db r e v l token task row c valid
