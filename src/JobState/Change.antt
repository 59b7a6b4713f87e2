-- ===== src/JobState/Change.antt =====
-- `_run`, `_update`, `_event_update` and `_claim` of
-- app/virtual_fitting/repositories/async_job_state.py: lock the row, change it if the condition holds
-- at that time, and say why not otherwise.
use ktb4_15th_ai.Prelude.{
  ℕ, ◌-◌, ◌*◌, ◌^◌, String, Bool, true, false, not, ◌&&◌, Option, none, some, List, ltb, leb, find,
  is_some, is_text, str_eq, if◌then◌else◌,
}
use ktb4_15th_ai.Payload.{Result, ok, err, bad_input, ◌>>◌}
use ktb4_15th_ai.S3Key.{valid_s3_key}
use ktb4_15th_ai.Job.{Uuid, Time, Job, is_terminal}
use ktb4_15th_ai.Store.{Op, checked, find_job, has_task, write}

-- `ChangeReason`.
pub data ChangeReason : Type 0 where
  applied not_found terminal lease_invalid lease_held limit_reached already_recorded : ChangeReason
  state_mismatch : ChangeReason

-- `StateChange`.
pub record StateChange : Type 0 where
  pub applied : Bool
  pub reason : ChangeReason
  pub job : Option Job

abbrev pub change_applied : Job → StateChange
change_applied job = record { applied = true; reason = applied; job = some job }

abbrev pub change_refused : ChangeReason → Job → StateChange
change_refused why job = record { applied = false; reason = why; job = some job }

abbrev pub change_not_found : StateChange
change_not_found = record { applied = false; reason = not_found; job = none }

abbrev pub s3_check_limit : ℕ
s3_check_limit = 2

abbrev pub llm_generation_limit : ℕ
llm_generation_limit = 4

abbrev pub fallback_limit : ℕ
fallback_limit = 1

abbrev pub pruna_submit_limit : ℕ
pruna_submit_limit = 4

abbrev pub result_message_limit : ℕ
result_message_limit = 3

-- `MAX_LEASE_SECONDS`, in microseconds.
abbrev pub max_lease : ℕ
max_lease = 3600 * 1000000

abbrev pub max_bigint : ℕ
max_bigint = 2 ^ 63 - 1

-- `_check_job_id`.
abbrev pub check_job_id : ℕ → Result ℕ
check_job_id id = if ltb 0 id && leb id max_bigint then ok id else err bad_input

-- `_check_seconds`, of a duration in microseconds.
abbrev pub check_seconds : ℕ → Result ℕ
check_seconds d = if ltb 0 d && leb d max_lease then ok d else err bad_input

-- `_check_token`.
abbrev pub check_token : String → Result String
check_token t = if str_eq t "" then err bad_input else ok t

-- `_check_uuid`, of what `uuid.UUID` makes of the text: `none` where it raises.
abbrev pub check_uuid : Option Uuid → Result Uuid
check_uuid (some u) = ok u
check_uuid none = err bad_input

abbrev pub check_key : String → Result String
check_key k = if valid_s3_key k then ok k else err bad_input

-- `column > now`, not met by a NULL.
abbrev pub is_after : Option Time → Time → Bool
is_after none now = false
is_after (some t) now = ltb now t

-- `_LEASE_VALID`.
unfoldable pub lease_valid : String → Time → Job → Bool
lease_valid token now r = is_text r.worker_lease_token token && is_after r.worker_lease_until now

abbrev pub Condition : Type 0
Condition = Time → Job → Bool

abbrev pub Assignments : Type 0
Assignments = Time → Job → Job

abbrev pub Diagnosis : Type 0
Diagnosis = Job → Time → ChangeReason

-- `updated_at = statement_timestamp()`, with the assignments of a method.
abbrev pub touched : Assignments → Assignments
touched set now r = record (set now r) { updated_at = now }

-- The `UPDATE` of `_run` on the row that its id names, and the diagnosis where no row is changed.
unfoldable pub run_row : Condition → Assignments → Diagnosis → Option Job → Op StateChange
unfolding write
run_row condition set reason none c db = (ok change_not_found, db)
run_row condition set reason (some r) c db =
    if condition c.now r
    then write db (change_applied (set c.now r)) (set c.now r) db
    else (ok (change_refused (reason r c.later) r), db)

-- `SELECT fitting_job_id ... WHERE task_uuid = task FOR UPDATE`, and the row with that id.
abbrev pub row_of : List Job → Option Job → Option Job
row_of rows none = none
row_of rows (some r) = find_job r.fitting_job_id rows

abbrev pub find_task : Uuid → List Job → Option Job
find_task task rows = row_of rows (find (has_task task) rows)

-- `_reason` where a lease is wanted.
unfoldable pub lease_reason : String → Bool → Diagnosis → Diagnosis
unfolding lease_valid
lease_reason token terminal_ok diagnose r now =
    if is_terminal r.status && not terminal_ok
    then terminal
    else if lease_valid token now r
    then diagnose r now
    else lease_invalid

-- `_reason` where no lease is wanted.
abbrev pub free_reason : Diagnosis → Diagnosis
free_reason diagnose r now = if is_terminal r.status then terminal else diagnose r now

abbrev pub mismatch : Diagnosis
mismatch r now = state_mismatch

abbrev pub with_lease : String → Condition → Condition
with_lease token condition now r = condition now r && lease_valid token now r

-- The transaction of `_update`, where the arguments have passed their checks.
abbrev pub update_row : ℕ → String → Assignments → Condition → Bool → Diagnosis → Op StateChange
update_row id token set condition terminal_ok diagnose c db =
    run_row (with_lease token condition) (touched set) (lease_reason token terminal_ok diagnose)
      (find_job id db.jobs) c db

-- `_update` of a method that wants a valid lease.
unfoldable pub update : ℕ → String → Assignments → Condition → Bool → Diagnosis → Op StateChange
unfolding run_row lease_valid lease_reason
update id token set condition terminal_ok diagnose =
    checked (do check_job_id id; check_token token)
      λ _. update_row id token set condition terminal_ok diagnose

-- What an external event wants of the row: its task, the record that the call was started, and that
-- the job has not ended.
abbrev pub with_event : Uuid → Condition → Condition
with_event task condition now r =
    has_task task r
    && is_some r.pruna_submit_started_at
    && not (is_terminal r.status)
    && condition now r

-- The transaction of `_event_update`.
abbrev pub event_row : Assignments → Condition → Uuid → Op StateChange
event_row set condition task c db =
    run_row (with_event task condition) (touched set) (free_reason mismatch)
      (find_task task db.jobs) c db

-- `_event_update`.
unfoldable pub event_update : Option Uuid → Assignments → Condition → Op StateChange
unfolding run_row
event_update task set condition = checked (check_uuid task) (event_row set condition)

-- The diagnosis of `_claim`.
abbrev pub claim_reason : (Job → ℕ) → ℕ → (Job → Bool) → Diagnosis
claim_reason count_of limit done r now =
    if leb limit (count_of r)
    then limit_reached
    else if done r
    then already_recorded
    else state_mismatch

abbrev pub below : (Job → ℕ) → ℕ → Condition → Condition
below count_of limit condition now r = condition now r && ltb (count_of r) limit

-- `_claim`: the count is below its limit and grows by one in the same statement.
unfoldable pub claim :
    ℕ → String → Assignments → (Job → ℕ) → ℕ → Condition → (Job → Bool) → Op StateChange
unfolding update
claim id token grow count_of limit condition done =
    update id token grow (below count_of limit condition) false (claim_reason count_of limit done)
