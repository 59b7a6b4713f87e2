-- ===== src/Limiter/Begin.antt =====
-- `begin_submission`, `begin_retry_submission` and `begin_fallback`: the place is taken and the start of
-- the call is recorded in one transaction.
use ktb4_15th_ai.Prelude.{
  ℕ, ◌+◌, ◌-◌, String, Bool, false, not, ◌&&◌, ◌||◌, Option, none, some, List, [], ◌∷◌, ◌++◌, ◌==◌,
  ltb, leb, any, find, max, is_some, is_none, is_number, if◌then◌else◌,
}
use ktb4_15th_ai.Payload.{Result, ok, err, database, ◌>>=◌, ◌>>◌}
use ktb4_15th_ai.Job.{Uuid, Time, Job, Attempt}
use ktb4_15th_ai.Store.{Db, LimiterRow, InFlight, Op, checked, find_job, has_task, write}
use ktb4_15th_ai.JobState.Change.{
  check_job_id, check_uuid, lease_valid, pruna_submit_limit, fallback_limit,
}
use ktb4_15th_ai.JobState.Submission.{awaits_submission}
use ktb4_15th_ai.JobState.NotAccepted.{of_task, of_job, new_attempt}
use ktb4_15th_ai.JobState.Postprocess.{runs_fallback}
use ktb4_15th_ai.Limiter.Slot.{
  Limits, SubmissionGrant, refusal, wait_refusal, grant, not_found, lease_invalid, state_mismatch,
  already_started, fallback_limit_reached, other_attempt_in_flight, retry_wait, retry_limit_reached,
  in_flight_of, Slot, refused, taken, clash, take_slot,
}

-- The primary key and the unique task of the table of attempts, and its range of numbers.
abbrev pub attempt_fits : Attempt → List Attempt → Bool
attempt_fits a rows =
    leb 1 a.attempt_no
    && leb a.attempt_no 4
    && not (any (λ b. of_job a.fitting_job_id b && b.attempt_no == a.attempt_no) rows)
    && not (any (of_task a.task_uuid) rows)

-- `INSERT` of an attempt together with the row of its job.
unfoldable pub write_attempt :
    Db → SubmissionGrant → Job → Attempt → Db → Result SubmissionGrant × Db
unfolding write
write_attempt before g row a db =
    if attempt_fits a db.attempts
    then write before g row (record db { attempts = db.attempts ++ a ∷ [] })
    else (err database, before)

abbrev pub limited : (LimiterRow → Op SubmissionGrant) → Option LimiterRow → Op SubmissionGrant
limited f none c db = (err database, db)
limited f (some row) c db = f row c db

-- The limiter's row is locked first; without it the method raises.
abbrev pub with_limiter : (LimiterRow → Op SubmissionGrant) → Op SubmissionGrant
with_limiter f c db = limited f db.limiter c db

abbrev pub located : (Job → Op SubmissionGrant) → Option Job → Op SubmissionGrant
located f none c db = (ok (refusal not_found), db)
located f (some job) c db = f job c db

-- Then the job's row is locked.
abbrev pub with_job : ℕ → (Job → Op SubmissionGrant) → Op SubmissionGrant
with_job id f c db = located f (find_job id db.jobs) c db

abbrev pub mark_sent : Time → Job → Job
mark_sent now r = record r { pruna_submit_started_at = some now; updated_at = now }

abbrev pub first_taken : ℕ → Uuid → Time → Db → Job → Slot → Result SubmissionGrant × Db
first_taken id task now before job (refused g db) = (ok g, db)
first_taken id task now before job clash = (err database, before)
first_taken id task now before job (taken db) =
    write_attempt before (grant now) (mark_sent now job) (new_attempt id 1 task now) db

module _ (l : Limits) (id : ℕ) (token : String) where
  -- `begin_submission`, with the limiter's row and the job's row locked.
  unfoldable pub submit_locked : Uuid → LimiterRow → Job → Op SubmissionGrant
  unfolding lease_valid take_slot write_attempt
  submit_locked task row job c db =
      if not (lease_valid token c.now job)
      then (ok (refusal lease_invalid), db)
      else if is_some job.pruna_submit_started_at
      then (ok (refusal already_started), db)
      else if not (awaits_submission job) || not (has_task task job)
      then (ok (refusal state_mismatch), db)
      else first_taken id task c.now db job (take_slot l id task c.now row db)

  unfoldable pub begin_submission : Option Uuid → Op SubmissionGrant
  unfolding submit_locked
  begin_submission task =
      checked (do check_job_id id; check_uuid task)
        λ task. with_limiter λ row. with_job id (submit_locked task row)

abbrev pub mark_resent : Uuid → Time → Job → Job
mark_resent task now r = record r {
  task_uuid = some task;
  pruna_submit_started_at = some now;
  pruna_not_accepted_at = none;
  pruna_retry_at = none;
  updated_at = now;
}

-- `max(attempt_no)` of the job's attempts, 0 where there is none.
abbrev pub last_attempt : ℕ → List Attempt → ℕ
last_attempt id [] = 0
last_attempt id (a ∷ rows) =
    if of_job id a then max a.attempt_no (last_attempt id rows) else last_attempt id rows

-- The attempt with the previous task has a record of non-acceptance.
abbrev pub previous_recorded : ℕ → Uuid → List Attempt → Bool
previous_recorded id task rows =
    any (λ a. of_job id a && of_task task a && is_some a.not_accepted_at) rows

-- Another attempt has the place of the job.
abbrev pub held_by_other : ℕ → Uuid → List InFlight → Bool
held_by_other id task rows = elim (find (in_flight_of id) rows) [
  | none ↦ false
  | some f ↦ not (f.task_uuid == task)
]

-- The state that a retry wants of the row.
abbrev pub awaits_retry : Uuid → Job → Bool
awaits_retry previous r =
    awaits_submission r
    && has_task previous r
    && is_some r.pruna_submit_started_at
    && is_none r.runware_accepted_at
    && is_none r.result_payload
    && is_none r.auth_hold_task_uuid
    && is_some r.pruna_not_accepted_at
    && is_some r.pruna_retry_at

abbrev pub retry_taken : ℕ → Uuid → Time → Db → Job → Slot → Result SubmissionGrant × Db
retry_taken id task now before job (refused g db) = (ok g, db)
retry_taken id task now before job clash = (err database, before)
retry_taken id task now before job (taken db) =
    write_attempt before (grant now) (mark_resent task now job)
      (new_attempt id (last_attempt id before.attempts + 1) task now) db

abbrev pub check_uuids : Option Uuid → Option Uuid → Result (Uuid × Uuid)
check_uuids a b = do a ← check_uuid a; b ← check_uuid b; ok (a, b)

-- Microseconds until a time, as the statement that locks the row computes them.
abbrev pub time_left : Option Time → Time → ℕ
time_left none now = 0
time_left (some t) now = t - now

module _ (l : Limits) (id : ℕ) (token : String) where
  unfoldable pub retry_locked : Uuid → Uuid → LimiterRow → Job → Op SubmissionGrant
  unfolding lease_valid take_slot write_attempt
  retry_locked previous task row job c db =
      if not (lease_valid token c.now job)
      then (ok (refusal lease_invalid), db)
      else if not (awaits_retry previous job) || not (previous_recorded id previous db.attempts)
      then (ok (refusal state_mismatch), db)
      else if leb pruna_submit_limit (last_attempt id db.attempts)
      then (ok (refusal retry_limit_reached), db)
      else if ltb 0 (time_left job.pruna_retry_at c.lock)
      then (ok (wait_refusal retry_wait (time_left job.pruna_retry_at c.lock)), db)
      else if held_by_other id task db.in_flight
      then (ok (refusal other_attempt_in_flight), db)
      else retry_taken id task c.now db job (take_slot l id task c.now row db)

  unfoldable pub begin_retry_submission : Option Uuid → Option Uuid → Op SubmissionGrant
  unfolding retry_locked
  begin_retry_submission previous task =
      checked (do check_job_id id; check_uuids previous task)
        λ tasks. with_limiter λ row. with_job id (retry_locked tasks.0 tasks.1 row)

abbrev pub mark_fallback_sent : Time → Job → Job
mark_fallback_sent now r = record r {
  fallback_attempt_count = r.fallback_attempt_count + 1;
  fallback_started_at = some now;
  updated_at = now;
}

abbrev pub fallback_taken : Time → Db → Job → Slot → Result SubmissionGrant × Db
fallback_taken now before job (refused g db) = (ok g, db)
fallback_taken now before job clash = (err database, before)
fallback_taken now before job (taken db) = write before (grant now) (mark_fallback_sent now job) db

module _ (l : Limits) (id : ℕ) (token : String) where
  unfoldable pub fallback_locked : Uuid → LimiterRow → Job → Op SubmissionGrant
  unfolding lease_valid take_slot write
  fallback_locked task row job c db =
      if not (lease_valid token c.now job)
      then (ok (refusal lease_invalid), db)
      else if is_some job.fallback_started_at
      then (ok (refusal already_started), db)
      else if leb fallback_limit job.fallback_attempt_count
      then (ok (refusal fallback_limit_reached), db)
      else if not (runs_fallback job)
          || is_some job.result_payload
          || not (is_number job.fallback_task_uuid task)
      then (ok (refusal state_mismatch), db)
      else if held_by_other id task db.in_flight
      then (ok (refusal other_attempt_in_flight), db)
      else fallback_taken c.now db job (take_slot l id task c.now row db)

  unfoldable pub begin_fallback : Option Uuid → Op SubmissionGrant
  unfolding fallback_locked
  begin_fallback task =
      checked (do check_job_id id; check_uuid task)
        λ task. with_limiter λ row. with_job id (fallback_locked task row)
