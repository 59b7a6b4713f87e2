-- ===== src/JobState/Fallback.antt =====
-- `move_to_fallback`, `prepare_fallback`, `record_fallback_image` and `claim_fallback_attempt`: the one
-- synchronous generation that stands in for a result that Pruna did not give.
use ktb4_15th_ai.Prelude.{
  ℕ, ◌+◌, String, false, not, ◌&&◌, ◌||◌, Option, some, is_some, is_none, is_number, ltb, leb,
  if◌then◌else◌,
}
use ktb4_15th_ai.Payload.{Result, ok, err, bad_input}
use ktb4_15th_ai.Job.{Uuid, fallback_running, run_fallback}
use ktb4_15th_ai.Store.{Op, checked}
use ktb4_15th_ai.JobState.Change.{
  StateChange, already_recorded, limit_reached, state_mismatch, Condition, Assignments, Diagnosis,
  check_uuid, check_key, s3_check_limit, fallback_limit, update, claim,
}
use ktb4_15th_ai.JobState.Postprocess.{is_postprocessing, runs_fallback}

-- `S3ObjectState` of app/clients/s3.py.
pub data S3ObjectState : Type 0 where
  exists not_found access_denied transient_error error : S3ObjectState

-- Only a clear "not found" is a reason for the fallback.
abbrev pub check_missing : S3ObjectState → Result (Unit {0})
check_missing not_found = ok tt
check_missing _ = err bad_input

abbrev pub can_fall_back : Condition
can_fall_back now r =
    is_postprocessing r
    && leb s3_check_limit r.s3_check_attempt_count
    && is_none r.result_payload
    && is_none r.verified_image_key
    && ltb r.fallback_attempt_count fallback_limit

abbrev pub to_fallback : Assignments
to_fallback now r = record r { status = fallback_running; next_action = some run_fallback }

abbrev pub fall_back_reason : Diagnosis
fall_back_reason r now =
    if leb fallback_limit r.fallback_attempt_count then limit_reached else state_mismatch

unfoldable pub move_to_fallback : ℕ → String → S3ObjectState → Op StateChange
unfolding update
move_to_fallback id token seen =
    checked (check_missing seen)
      λ _. update id token to_fallback can_fall_back false fall_back_reason

abbrev pub can_name_fallback : Uuid → Condition
can_name_fallback task now r =
    runs_fallback r
    && is_none r.result_payload
    && is_none r.fallback_task_uuid
    && (is_none r.task_uuid || not (is_number r.task_uuid task))

abbrev pub name_fallback : Uuid → Assignments
name_fallback task now r = record r { fallback_task_uuid = some task }

abbrev pub name_reason : Diagnosis
name_reason r now = if is_some r.fallback_task_uuid then already_recorded else state_mismatch

unfoldable pub prepare_fallback : ℕ → String → Option Uuid → Op StateChange
unfolding update
prepare_fallback id token task =
    checked (check_uuid task)
      λ task. update id token (name_fallback task) (can_name_fallback task) false name_reason

abbrev pub can_store_fallback : Condition
can_store_fallback now r =
    runs_fallback r
    && is_none r.result_payload
    && is_some r.fallback_started_at
    && is_none r.fallback_image_key

abbrev pub store_fallback : String → Assignments
store_fallback key now r = record r { fallback_image_key = some key }

abbrev pub store_reason : Diagnosis
store_reason r now = if is_some r.fallback_image_key then already_recorded else state_mismatch

unfoldable pub record_fallback_image : ℕ → String → String → Op StateChange
unfolding update
record_fallback_image id token key =
    checked (check_key key)
      λ key. update id token (store_fallback key) can_store_fallback false store_reason

abbrev pub may_fall_back : Condition
may_fall_back now r = runs_fallback r && is_none r.result_payload && is_none r.verified_image_key

abbrev pub count_fallback : Assignments
count_fallback now r = record r { fallback_attempt_count = r.fallback_attempt_count + 1 }

unfoldable pub claim_fallback_attempt : ℕ → String → Op StateChange
unfolding claim
claim_fallback_attempt id token =
    claim id token count_fallback (λ r. r.fallback_attempt_count) fallback_limit may_fall_back
      (λ r. is_some r.result_payload)
