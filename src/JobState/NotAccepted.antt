-- ===== src/JobState/NotAccepted.antt =====
-- `record_not_accepted` and `record_attempt_contradiction`: a call of Runware that was certainly not
-- accepted is recorded once, and the next one is scheduled, or the job fails after the fourth.
use ktb4_15th_ai.Prelude.{
  ℕ, zero, suc, ◌+◌, ◌*◌, String, Bool, true, false, not, ◌&&◌, ◌||◌, Option, none, some, List, [],
  ◌∷◌, ◌++◌, ◌==◌, leb, any, find, keep, amend, is_some, is_none, coalesce, if◌then◌else◌,
}
use ktb4_15th_ai.S3Key.{codes}
use ktb4_15th_ai.Texts.{is_code, is_safe_code}
use ktb4_15th_ai.Payload.{
  ℤ, pos, negsuc, Payload, Result, ok, err, bad_input, database, ◌>>=◌, ◌>>◌, guard,
}
use ktb4_15th_ai.Job.{
  Uuid, Time, Job, Attempt, NotAcceptedSource, received, submit_pruna, publish_result, is_status,
  is_action, is_terminal,
}
use ktb4_15th_ai.Store.{Db, Clock, InFlight, Op, checked, find_job, write}
use ktb4_15th_ai.JobState.Change.{check_uuid, find_task, pruna_submit_limit}

-- `NotAcceptedOutcome`.
pub data NotAcceptedOutcome : Type 0 where
  scheduled exhausted held already_recorded past_attempt contradicted : NotAcceptedOutcome
  state_mismatch not_found : NotAcceptedOutcome

-- `NotAcceptedChange`.
pub record NotAcceptedChange : Type 0 where
  pub outcome : NotAcceptedOutcome
  pub job : Option Job
  pub attempt_no : Option ℕ

-- `NotAcceptedChange.applied`.
abbrev pub applied : NotAcceptedOutcome → Bool
applied scheduled = true
applied exhausted = true
applied held = true
applied _ = false

abbrev pub outcome_of : NotAcceptedOutcome → Option Job → Option ℕ → NotAcceptedChange
outcome_of why job n = record { outcome = why; job = job; attempt_no = n }

abbrev pub seconds : ℕ → ℕ
seconds n = n * 1000000

-- `PRUNA_RETRY_BACKOFF_SECONDS[attempt_no - 1]`, in microseconds.
abbrev pub backoff : ℕ → ℕ
backoff zero = seconds 40
backoff (suc zero) = seconds 10
backoff (suc (suc zero)) = seconds 20
backoff (suc (suc (suc n))) = seconds 40

-- `retry_delay_seconds`.
abbrev pub retry_delay : ℕ → Option ℕ → ℕ
retry_delay n (some wait) = wait
retry_delay n none = backoff n

abbrev pub of_task : Uuid → Attempt → Bool
of_task task a = a.task_uuid == task

abbrev pub of_job : ℕ → Attempt → Bool
of_job id a = a.fitting_job_id == id

abbrev pub new_attempt : ℕ → ℕ → Uuid → Time → Attempt
new_attempt id n task started = record {
  fitting_job_id = id;
  attempt_no = n;
  task_uuid = task;
  started_at = started;
  not_accepted_code = none;
  not_accepted_source = none;
  not_accepted_at = none;
  next_attempt_at = none;
  conflict_reason = none;
  conflict_at = none;
}

-- A job that was started before the table of attempts was there has its call as attempt 1.
abbrev pub ensure_attempt : ℕ → Uuid → Time → List Attempt → List Attempt
ensure_attempt id task started rows =
    if any (of_job id) rows || any (of_task task) rows
    then rows
    else rows ++ new_attempt id 1 task started ∷ []

-- `_mark_conflict`.
abbrev pub mark_conflict : Uuid → String → Time → List Attempt → List Attempt
mark_conflict task reason now = amend (of_task task) λ a. record a {
  conflict_reason = coalesce a.conflict_reason (some reason);
  conflict_at = coalesce a.conflict_at (some now);
}

-- What is to be done about a report of non-acceptance.
pub data Verdict : Type 0 where
  repeated mismatched contradicting fresh : Verdict

unfoldable pub judge : Job → Attempt → Verdict
judge job a =
    if is_some a.not_accepted_at
    then repeated
    else if is_terminal job.status
    then mismatched
    else if is_some job.runware_accepted_at
        || is_some job.verified_image_key
        || not (is_status job.status received)
    then contradicting
    else if not (is_action job.next_action submit_pruna)
        || is_some job.result_payload
        || is_some job.auth_hold_task_uuid
    then mismatched
    else fresh

abbrev pub rejected_code : String
rejected_code = "FITTING_SUBMISSION_REJECTED"

abbrev pub rejected_message : String
rejected_message = "이미지 생성 요청이 접수되지 않았습니다."

-- The row of a job whose last call was not accepted either.
abbrev pub give_up : Time → Job → Job
give_up now r = record r {
  result_payload = some (Payload.failed (pos r.fitting_job_id) rejected_code rejected_message);
  next_action = some publish_result;
  pruna_not_accepted_at = some now;
  pruna_retry_at = none;
  updated_at = now;
}

-- The row of a job that waits for its next call, or for an operator if there is no time.
abbrev pub await_retry : Option Time → Time → Job → Job
await_retry retry_at now r = record r {
  pruna_not_accepted_at = some now;
  pruna_retry_at = retry_at;
  updated_at = now;
}

-- The time of the next call, unless it cannot be represented.
abbrev pub retry_time : Clock → ℕ → Option ℕ → Bool → Option Time
retry_time c n retry_after unrepresentable =
    let delay = retry_delay n retry_after in
    if not unrepresentable && c.fits c.now delay then some (c.now + delay) else none

abbrev pub next_row : Option Time → ℕ → Time → Job → Job
next_row retry_at n now r =
    if leb pruna_submit_limit n then give_up now r else await_retry retry_at now r

abbrev pub next_outcome : Option Time → ℕ → NotAcceptedOutcome
next_outcome retry_at n =
    if leb pruna_submit_limit n then exhausted else if is_some retry_at then scheduled else held

abbrev pub mark_not_accepted :
    String → NotAcceptedSource → Option Time → ℕ → Time → Attempt → Attempt
mark_not_accepted code source retry_at n now a = record a {
  not_accepted_code = some code;
  not_accepted_source = some source;
  not_accepted_at = some now;
  next_attempt_at =
      if leb pruna_submit_limit n then a.next_attempt_at else coalesce retry_at a.next_attempt_at;
}

abbrev pub holds_slot : ℕ → Uuid → InFlight → Bool
holds_slot id task f = f.fitting_job_id == id && f.task_uuid == task

-- A report for a task that no job has: a call that was followed by another one, or an unknown one.
unfoldable pub past_job : Option Attempt → List Job → NotAcceptedChange
past_job none jobs = outcome_of not_found none none
past_job (some a) jobs = outcome_of past_attempt (find_job a.fitting_job_id jobs) none

module _ (task : Uuid) (code : String) (source : NotAcceptedSource) (retry_after : Option ℕ)
    (unrepresentable : Bool) (before : Db) where
  -- The record of a fresh report; a code that the database does not take rolls it back.
  unfoldable pub record_fresh : Job → Attempt → Op NotAcceptedChange
  unfolding write is_code
  record_fresh job a c db =
      let retry_at = retry_time c a.attempt_no retry_after unrepresentable in
      let row = next_row retry_at a.attempt_no c.now job in
      if is_code (codes code)
      then write before
          (outcome_of (next_outcome retry_at a.attempt_no) (some row) (some a.attempt_no)) row
          (record db {
            attempts =
                amend (of_task task) (mark_not_accepted code source retry_at a.attempt_no c.now)
                  db.attempts;
            in_flight = keep (λ f. not (holds_slot job.fitting_job_id task f)) db.in_flight;
          })
      else (err database, before)

  unfoldable pub act_on : Verdict → Job → Attempt → Op NotAcceptedChange
  unfolding record_fresh
  act_on repeated job a c db = (ok (outcome_of already_recorded (some job) (some a.attempt_no)), db)
  act_on mismatched job a c db = (ok (outcome_of state_mismatch (some job) (some a.attempt_no)), db)
  act_on contradicting job a c db = (
    ok (outcome_of contradicted (some job) (some a.attempt_no)),
    record db { attempts = mark_conflict task "not_accepted_after_progress" c.now db.attempts },
  )
  act_on fresh job a c db = record_fresh job a c db

  unfoldable pub judge_attempt : Job → Option Attempt → Op NotAcceptedChange
  unfolding act_on judge
  judge_attempt job none c db = (ok (outcome_of state_mismatch (some job) none), db)
  judge_attempt job (some a) c db = act_on (judge job a) job a c db

  -- `started` is the record of the call that the row has.
  unfoldable pub judge_started : Job → Option Time → Op NotAcceptedChange
  unfolding judge_attempt
  judge_started job none c db = (ok (outcome_of state_mismatch (some job) none), db)
  judge_started job (some started) c db =
      let rows = ensure_attempt job.fitting_job_id task started db.attempts in
      judge_attempt job (find (of_task task) rows) c (record db { attempts = rows })

  unfoldable pub judge_row : Option Job → Op NotAcceptedChange
  unfolding judge_started past_job
  judge_row none c db = (ok (past_job (find (of_task task) db.attempts) db.jobs), db)
  judge_row (some job) c db = judge_started job job.pruna_submit_started_at c db

-- A wait is finite and not negative.
abbrev check_wait : Option ℤ → Result (Option ℕ)
check_wait none = ok none
check_wait (some (pos n)) = ok (some n)
check_wait (some (negsuc _)) = err bad_input

abbrev pub check_report : Option Uuid → String → Option ℤ → Result (Uuid × Option ℕ)
check_report task code wait = do
  task ← check_uuid task
  guard (is_safe_code code)
  wait ← check_wait wait
  ok (task, wait)

-- The transaction of `record_not_accepted`.
abbrev pub report_row : String → NotAcceptedSource → Bool → Uuid × Option ℕ → Op NotAcceptedChange
report_row code source unrepresentable a c db =
    judge_row a.0 code source a.1 unrepresentable db (find_task a.0 db.jobs) c db

unfoldable pub record_not_accepted :
    Option Uuid → String → NotAcceptedSource → Option ℤ → Bool → Op NotAcceptedChange
unfolding judge_row is_safe_code
record_not_accepted task code source wait unrepresentable =
    checked (check_report task code wait) (report_row code source unrepresentable)

-- A retry that is only scheduled is held back.
abbrev pub is_scheduled : Job → Bool
is_scheduled r =
    is_some r.pruna_retry_at
    && is_status r.status received
    && is_action r.next_action submit_pruna
    && is_none r.result_payload

abbrev pub hold_back : Time → Job → Job
hold_back now r = record r { pruna_retry_at = none; updated_at = now }

unfoldable pub contradict_row : Db → Option Job → Op Bool
unfolding write
contradict_row before none c db = (ok true, db)
contradict_row before (some r) c db =
    if is_scheduled r then write before true (hold_back c.now r) db else (ok true, db)

unfoldable pub contradict : Uuid → String → Option Attempt → Op Bool
unfolding contradict_row is_code
contradict task reason none c db = (ok false, db)
contradict task reason (some a) c db =
    if is_none a.not_accepted_at
    then (ok false, db)
    else if is_some a.conflict_reason || is_code (codes reason)
    then contradict_row db (find_job a.fitting_job_id db.jobs) c
        (record db { attempts = mark_conflict task reason c.now db.attempts })
    else (err database, db)

-- The transaction of `record_attempt_contradiction`.
abbrev pub contradict_task : String → Uuid → Op Bool
contradict_task reason task c db = contradict task reason (find (of_task task) db.attempts) c db

abbrev pub check_reason : Option Uuid → String → Result Uuid
check_reason task reason = do task ← check_uuid task; guard (is_safe_code reason); ok task

unfoldable pub record_attempt_contradiction : Option Uuid → String → Op Bool
unfolding contradict is_safe_code
record_attempt_contradiction task reason =
    checked (check_reason task reason) (contradict_task reason)
